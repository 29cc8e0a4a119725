-- ===== src/Control/Compiles.antt =====
-- A valid candidate whose jobs are prepared compiles, unless a plugin, an upstream or a certificate
-- cannot be built (plan.rs, resources.rs, compile.rs).
use pingsix.Prelude.{◌≡◌, refl, sym, ap, ◌∙◌, true, false, none, some, Bytes, bytes_eq, is_some}
use pingsix.Prelude.Dict.{Dict, lookup}
use pingsix.Graph.{ok, err, ◌>>=◌}
use pingsix.Control.Config.{
  Upstream, Route, Service, Ssl, ResourceConfigSet, UpstreamOccurrence, occurrence_eq, named,
  ControlError, not_prepared, upstream_failed, route_inline, service_inline,
}
use pingsix.Control.Registry.{ProxyUpstream, PreparedUpstreams, Gateway, build_upstream}
use pingsix.Control.Validate.{validate_config_set}
use pingsix.Control.Compiled.{
  ProxyService, required, build_service, build_global_rule, build_route, build_ssl,
}
use pingsix.Control.Plan.{Snapshot, Plan, plan_jobs, prepare_jobs, prepare_candidate}
use pingsix.Control.Snapshot.{build_named, compile_section, compile_sections, build_prepared}
use pingsix.Control.Prepared.{IsListed, prepare_jobs-IsListed}
use pingsix.Control.Passes.{IsKeyed, build_plan-IsPlan}
use pingsix.Control.Failures.{
  is_dangling, IsSound, IsSound-bind, IsSound-ok, required-IsSound, map_err-IsSound,
  compile_section-IsSound,
}
use pingsix.Control.Sound.{
  build_service-IsSound, build_global_rule-IsSound, build_route-IsSound, compiled_there,
}
use pingsix.Control.Needs.{
  named_IsListed, service_IsListed, route_IsListed, service_direct, route_direct, route_service,
}
use pingsix.Control.Refined.{prepare_candidate-ok}

module _ (g : Gateway) (config : ResourceConfigSet) (plan : Plan) (prepared : PreparedUpstreams)
    (keyed : IsKeyed config) (valid : validate_config_set g config ≡ ok tt)
    (listed : plan_jobs g config plan ≡ ok plan.jobs)
    (done : prepare_jobs g plan.jobs ≡ ok prepared)
    (certificates : (c : Ssl) → IsSound (g.parse_certificate c)) where
  ready : (o : UpstreamOccurrence) → IsListed o plan.jobs → is_some (lookup o prepared) ≡ true
  ready o = prepare_jobs-IsListed g plan.jobs prepared o done

  named-IsSound :
      (id : Bytes) (u : Upstream)
      → lookup id config.upstreams ≡ some u
      → lookup id plan.reused_upstreams ≡ none
      → IsSound (build_named g prepared id u)
  unfolding build_named
  named-IsSound id u found fresh =
      IsSound-bind (required (not_prepared (named id)) (lookup (named id) prepared)) _
        (required-IsSound _ (lookup (named id) prepared)
          (ready (named id) (named_IsListed g config plan plan.jobs listed id u found fresh)))
        λ m _. map_err-IsSound (upstream_failed (named id)) (build_upstream g u m) (λ _. refl)

  service-IsSound :
      (us : Dict Bytes ProxyUpstream)
      → compile_section (build_named g prepared) plan.reused_upstreams config.upstreams ≡ ok us
      → (id : Bytes) (s : Service) → lookup id config.services ≡ some s
      → lookup id plan.reused_services ≡ none
      → IsSound (build_service g s us prepared)
  service-IsSound us compiled id s found fresh =
      let there : is_some (lookup (service_inline s.id) prepared)
          ≡ is_some (lookup (service_inline id) prepared) =
        ap (λ i. is_some (lookup (service_inline i) prepared)) (keyed.service_ids id s found) in
      build_service-IsSound g s us prepared
        (λ u inline.
          there
          ∙ ready (service_inline id)
              (service_IsListed g config plan plan.jobs listed id s u found fresh inline))
        (λ free i bound.
          compiled_there g (build_named g prepared) plan.reused_upstreams config.upstreams us
            compiled i (service_direct g config valid id s found free i bound))

  route-IsSound :
      (us : Dict Bytes ProxyUpstream) (ss : Dict Bytes ProxyService)
      → compile_section (build_named g prepared) plan.reused_upstreams config.upstreams ≡ ok us
      → compile_section (λ _ s. build_service g s us prepared) plan.reused_services config.services
        ≡ ok ss
      → (id : Bytes) (r : Route) → lookup id config.routes ≡ some r
      → lookup id plan.reused_routes ≡ none
      → IsSound (build_route g r us ss prepared)
  route-IsSound us ss compiled services id r found fresh =
      let there : is_some (lookup (route_inline r.id) prepared)
          ≡ is_some (lookup (route_inline id) prepared) =
        ap (λ i. is_some (lookup (route_inline i) prepared)) (keyed.route_ids id r found) in
      build_route-IsSound g r us ss prepared
        (λ i bound.
          compiled_there g (λ _ s. build_service g s us prepared) plan.reused_services
            config.services ss services i (route_service g config valid id r found i bound))
        (λ u inline.
          there
          ∙ ready (route_inline id)
              (route_IsListed g config plan plan.jobs listed id r u found fresh inline))
        (λ free i bound.
          compiled_there g (build_named g prepared) plan.reused_upstreams config.upstreams us
            compiled i (route_direct g config valid id r found free i bound))

  ssl-IsSound : (c : Ssl) → IsSound (build_ssl g c)
  unfolding build_ssl
  ssl-IsSound c = IsSound-bind (g.parse_certificate c) _ (certificates c) λ a _. IsSound-ok _

  pub compile_sections-IsSound : IsSound (compile_sections g config plan prepared)
  unfolding compile_sections
  compile_sections-IsSound =
      IsSound-bind (compile_section (build_named g prepared) plan.reused_upstreams config.upstreams)
        _
        (compile_section-IsSound _ plan.reused_upstreams config.upstreams keyed.upstreams
          named-IsSound)
        λ us compiled.
          IsSound-bind
            (compile_section (λ _ s. build_service g s us prepared) plan.reused_services
              config.services)
            _
            (compile_section-IsSound _ plan.reused_services config.services keyed.services
              (service-IsSound us compiled))
            λ ss services.
              IsSound-bind
                (compile_section (λ _ r. build_global_rule g r us prepared) plan.reused_global_rules
                  config.global_rules)
                _
                (compile_section-IsSound _ plan.reused_global_rules config.global_rules
                  keyed.global_rules (λ _ r _ _. build_global_rule-IsSound g r us prepared))
                λ gs _.
                  IsSound-bind
                    (compile_section (λ _ r. build_route g r us ss prepared) plan.reused_routes
                      config.routes)
                    _
                    (compile_section-IsSound _ plan.reused_routes config.routes keyed.routes
                      (route-IsSound us ss compiled services))
                    λ rs _.
                      IsSound-bind
                        (compile_section (λ _ c. build_ssl g c) plan.reused_ssls config.ssls) _
                        (compile_section-IsSound _ plan.reused_ssls config.ssls keyed.ssls
                          (λ _ c _ _. ssl-IsSound c))
                        λ ls _. IsSound-ok _

-- Where the set is valid, its resources carry the ids that they are stored under, and the jobs of
-- the plan were prepared, a compilation that fails does not fail for a missing service, a missing
-- upstream or an upstream that was not prepared, if the certificate parser never answers so. The
-- error of a plugin counts as the plugin's, whatever it says.
pub build_prepared-reports :
    (g : Gateway) (previous : Snapshot) (config : ResourceConfigSet) (plan : Plan)
    (prepared : PreparedUpstreams) (e : ControlError)
    → IsKeyed config
    → ((c : Ssl) → IsSound (g.parse_certificate c))
    → validate_config_set g config ≡ ok tt
    → prepare_candidate g config previous ≡ ok (plan, prepared)
    → build_prepared g config plan prepared ≡ err e
    → is_dangling e ≡ false
unfolding build_prepared
build_prepared-reports g previous config plan prepared e keyed certificates valid h failed =
    let (planned, done) = prepare_candidate-ok g config previous plan prepared h in
    let facts = build_plan-IsPlan g previous config plan planned in
    compile_sections-IsSound g config plan prepared keyed valid facts.jobs done certificates e
      (ap (λ r. r >>= λ _. compile_sections g config plan prepared) (sym valid) ∙ failed)
