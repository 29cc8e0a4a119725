-- ===== src/Control/Needs.antt =====
-- What the jobs of a candidate prepare, and what its validation found (plan.rs, resources.rs).
use pingsix.Prelude.{
  ◌≡◌, refl, sym, ap, ◌∙◌, inl, true, Option, none, some, List, ◌++◌, Bytes, bytes_eq, arith,
}
use pingsix.Prelude.Dict.{lookup, contains_key}
use mathlib.Core.Option.{none-ne-some}
use pingsix.Graph.{Result, ok, err, ◌>>=◌}
use pingsix.Control.Config.{
  Upstream, Route, Service, ResourceConfigSet, UpstreamOccurrence, occurrence_eq, named,
  ControlError, route_inline, service_inline, route_owner, service_owner,
}
use pingsix.Control.Registry.{Gateway, plugin_upstream_jobs}
use pingsix.Control.Validate.{
  try_each, check_route_refs, check_service_refs, check_rule_refs, check_direct, check_service,
  validate_resources, validate_references, validate_config_set,
}
use pingsix.Control.Plan.{
  Job, Plan, section_jobs, upstream_jobs, service_jobs, rule_jobs, route_jobs, inline_job,
  plan_jobs,
}
use pingsix.Control.Sections.{through, ok_inj}
use pingsix.Control.Prepared.{
  IsListed, IsListed-left, IsListed-right, section_jobs-IsListed, try_each-lookup,
}
use pingsix.Control.Sound.{check_direct-some}

module _ (g : Gateway) (config : ResourceConfigSet) (plan : Plan) (jobs : List Job)
    (listed : plan_jobs g config plan ≡ ok jobs) where
  -- The jobs of the four sections
  pub named_IsListed :
      (id : Bytes) (u : Upstream)
      → lookup id config.upstreams ≡ some u
      → lookup id plan.reused_upstreams ≡ none
      → IsListed (named id) jobs
  unfolding plan_jobs
  named_IsListed id u found fresh =
      through (section_jobs (upstream_jobs g) plan.reused_upstreams config.upstreams) _ listed
        λ us first h₁.
          through (section_jobs (service_jobs g) plan.reused_services config.services) _ h₁
            λ ss _ h₂.
              through (section_jobs (rule_jobs g) plan.reused_global_rules config.global_rules) _ h₂
                λ gs _ h₃.
                  through (section_jobs (route_jobs g) plan.reused_routes config.routes) _ h₃
                    λ rs _ last.
                      let (js, one, into) =
                        section_jobs-IsListed (upstream_jobs g) plan.reused_upstreams
                          config.upstreams us first id u found fresh in
                      rw (sym (ok_inj last)) (
                        IsListed-left (named id) us _
                          (into (named id) (rw (sym (ok_inj one)) (inl refl))))

  inline_IsListed :
      (o : UpstreamOccurrence) (inline : Option Upstream) (u : Upstream) (js : List Job)
      → inline ≡ some u
      → IsListed o (inline_job o inline ++ js)
  inline_IsListed o none u js h = absurd (none-ne-some u h)
  inline_IsListed o (some v) u js h = inl refl

  pub service_IsListed :
      (id : Bytes) (s : Service) (u : Upstream)
      → lookup id config.services ≡ some s
      → lookup id plan.reused_services ≡ none
      → s.upstream ≡ some u
      → IsListed (service_inline id) jobs
  unfolding plan_jobs service_jobs
  service_IsListed id s u found fresh inline =
      through (section_jobs (upstream_jobs g) plan.reused_upstreams config.upstreams) _ listed
        λ us _ h₁.
          through (section_jobs (service_jobs g) plan.reused_services config.services) _ h₁
            λ ss first h₂.
              through (section_jobs (rule_jobs g) plan.reused_global_rules config.global_rules) _ h₂
                λ gs _ h₃.
                  through (section_jobs (route_jobs g) plan.reused_routes config.routes) _ h₃
                    λ rs _ last.
                      let (js, one, into) =
                        section_jobs-IsListed (service_jobs g) plan.reused_services config.services
                          ss first id s found fresh in
                      through (plugin_upstream_jobs g (service_owner id) s.plugins) _ one
                        λ ps _ here. rw (sym (ok_inj last)) (
                          IsListed-right (service_inline id) us _ (
                            IsListed-left (service_inline id) ss _ (
                              into (service_inline id) (
                                rw (sym (ok_inj here))
                                  (inline_IsListed (service_inline id) s.upstream u ps inline)))))

  pub route_IsListed :
      (id : Bytes) (r : Route) (u : Upstream)
      → lookup id config.routes ≡ some r
      → lookup id plan.reused_routes ≡ none
      → r.upstream ≡ some u
      → IsListed (route_inline id) jobs
  unfolding plan_jobs route_jobs
  route_IsListed id r u found fresh inline =
      through (section_jobs (upstream_jobs g) plan.reused_upstreams config.upstreams) _ listed
        λ us _ h₁.
          through (section_jobs (service_jobs g) plan.reused_services config.services) _ h₁
            λ ss _ h₂.
              through (section_jobs (rule_jobs g) plan.reused_global_rules config.global_rules) _ h₂
                λ gs _ h₃.
                  through (section_jobs (route_jobs g) plan.reused_routes config.routes) _ h₃
                    λ rs first last.
                      let (js, one, into) =
                        section_jobs-IsListed (route_jobs g) plan.reused_routes config.routes rs
                          first id r found fresh in
                      through (plugin_upstream_jobs g (route_owner id) r.plugins) _ one λ ps _ here.
                        rw (sym (ok_inj last)) (
                          IsListed-right (route_inline id) us _ (
                            IsListed-right (route_inline id) ss _ (
                              IsListed-right (route_inline id) gs _ (
                                into (route_inline id) (
                                  rw (sym (ok_inj here))
                                    (inline_IsListed (route_inline id) r.upstream u ps inline))))))

-- A test that passed, and what came after it
passed :
    {B : Type 0} (r : Result ControlError (Unit {0})) (f : Unit {0} → Result ControlError B) {b : B}
    → (r >>= f) ≡ ok b
    → r ≡ ok tt
passed (ok tt) f h = refl
passed (err e) f h = absurd (ground arith)

after :
    {B : Type 0} (r : Result ControlError (Unit {0})) (f : Unit {0} → Result ControlError B) {b : B}
    → (r >>= f) ≡ ok b
    → f tt ≡ ok b
after (ok tt) f h = h
after (err e) f h = absurd (ground arith)

module _ (g : Gateway) (config : ResourceConfigSet)
    (valid : validate_config_set g config ≡ ok tt) where
  -- The two passes over the references
  references : validate_references g config ≡ ok tt
  unfolding validate_config_set
  references = after (validate_resources g config) (λ _. validate_references g config) valid

  checked_routes : try_each (check_route_refs g config) config.routes ≡ ok tt
  unfolding validate_references
  checked_routes = passed (try_each (check_route_refs g config) config.routes) _ references

  checked_services : try_each (check_service_refs g config) config.services ≡ ok tt
  unfolding validate_references
  checked_services = passed (try_each (check_service_refs g config) config.services) _ (
      after (try_each (check_route_refs g config) config.routes)
        (λ _. try_each (check_service_refs g config) config.services >>= λ _.
          try_each (check_rule_refs g config) config.global_rules)
        references)

  pub service_direct :
      (id : Bytes) (s : Service)
      → lookup id config.services ≡ some s
      → s.upstream ≡ none
      → (i : Bytes) → s.upstream_id ≡ some i
      → contains_key i config.upstreams ≡ true
  unfolding check_service_refs
  service_direct id s found free i bound =
      through (check_direct g (service_owner s.id) s.upstream s.upstream_id config.upstreams) _
        (try_each-lookup (check_service_refs g config) config.services checked_services id s found)
        λ _ checked _.
          check_direct-some g (service_owner s.id) s.upstream_id config.upstreams
            (ap (λ x. check_direct g (service_owner s.id) x s.upstream_id config.upstreams)
                (sym free)
              ∙ checked)
            i bound

  pub route_direct :
      (id : Bytes) (r : Route)
      → lookup id config.routes ≡ some r
      → r.upstream ≡ none
      → (i : Bytes) → r.upstream_id ≡ some i
      → contains_key i config.upstreams ≡ true
  unfolding check_route_refs
  route_direct id r found free i bound =
      through (check_service g r.id r.service_id config.services) _
        (try_each-lookup (check_route_refs g config) config.routes checked_routes id r found)
        λ _ _ h₁.
          through (check_direct g (route_owner r.id) r.upstream r.upstream_id config.upstreams) _ h₁
            λ _ checked _.
              check_direct-some g (route_owner r.id) r.upstream_id config.upstreams
                (ap (λ x. check_direct g (route_owner r.id) x r.upstream_id config.upstreams)
                    (sym free)
                  ∙ checked)
                i bound

  check_service-some :
      (route : Bytes) (id : Option Bytes)
      → check_service g route id config.services ≡ ok tt
      → (i : Bytes) → id ≡ some i
      → contains_key i config.services ≡ true
  check_service-some route none h i is = absurd (none-ne-some i is)
  check_service-some route (some j) h i is = ground arith

  pub route_service :
      (id : Bytes) (r : Route)
      → lookup id config.routes ≡ some r
      → (i : Bytes) → r.service_id ≡ some i
      → contains_key i config.services ≡ true
  unfolding check_route_refs
  route_service id r found =
      through (check_service g r.id r.service_id config.services) _
        (try_each-lookup (check_route_refs g config) config.routes checked_routes id r found)
        λ _ checked _. check_service-some r.id r.service_id checked
