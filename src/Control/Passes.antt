-- ===== src/Control/Passes.antt =====
-- The passes of a plan and of a compilation, taken apart (plan.rs, compile.rs).
use pingsix.Prelude.{
  ◌≡◌, ◌≢◌, refl, sym, inl, inr, Bool, true, false, Option, none, some, Bool-cases, List, [], Bytes,
  bytes_eq, Eq, ◌==◌, ==_iff, arith, if◌then◌else◌,
}
use pingsix.Prelude.Dict.{Dict, lookup, NodupKeys}
use mathlib.Core.Option.{none-ne-some}
use pingsix.Graph.{Result, ok}
use pingsix.Control.Config.{Upstream, Route, Service, ResourceConfigSet, ControlError}
use pingsix.Control.Registry.{ProxyUpstream, PreparedUpstreams, Gateway}
use pingsix.Control.Compiled.{build_service, build_global_rule, build_route, build_ssl}
use pingsix.Control.Plan.{
  Job, Snapshot, Plan, unchanged, when_reused, all_reused, reuse_section, reuse_upstream,
  reuse_service, reuse_global_rule, reuse_route, reuse_ssl, reuse_sections, plan_jobs, build_plan,
}
use pingsix.Control.Snapshot.{compile_section, build_named, compile_sections}
use pingsix.Control.Sections.{bind-ok, through, ok_inj}

-- What the proofs need of a set: each section has one resource under an id.
pub record IsKeyed (config : ResourceConfigSet) : Type 0 where
  pub upstreams : NodupKeys config.upstreams
  pub services : NodupKeys config.services
  pub global_rules : NodupKeys config.global_rules
  pub routes : NodupKeys config.routes
  pub ssls : NodupKeys config.ssls
  -- An upstream was given an id, and a service or a route the one that it is stored under.
  pub named : (id : Bytes) (u : Upstream) → lookup id config.upstreams ≡ some u → u.id ≢ []
  pub service_ids : (id : Bytes) (s : Service) → lookup id config.services ≡ some s → s.id ≡ id
  pub route_ids : (id : Bytes) (r : Route) → lookup id config.routes ≡ some r → r.id ≡ id

module _ {A B : Type 0} ⦃e : Eq A⦄ where
  pub unchanged-some :
      (inner : B → A) (a : A) (o : Option B) {b : B}
      → unchanged inner a o ≡ some b
      → (o ≡ some b) × (inner b ≡ a)
  unfolding unchanged
  unchanged-some inner a none h = absurd (none-ne-some _ h)
  unchanged-some inner a (some existing) h = elim (Bool-cases (inner existing == a)) [
    | inl same ↦ (ground arith, ground (arith, (==_iff (inner existing) a).0))
    | inr differ ↦ absurd (ground arith)
  ]

pub when_reused-some :
    {B : Type 0} (deps : Result ControlError (List Bytes)) (reused : Dict Bytes ProxyUpstream)
    (o : Option B) {b : B}
    → when_reused deps reused o ≡ ok (some b)
    → (found : List Bytes) × (o ≡ some b) × (deps ≡ ok found) × (all_reused found reused ≡ true)
unfolding when_reused
when_reused-some deps reused none h = absurd (ground arith)
when_reused-some deps reused (some existing) h =
    let (found, derived, h₁) = bind-ok deps _ h in
    elim (Bool-cases (all_reused found reused)) [
      | inl all ↦ (found, ground arith, derived, all)
      | inr some_changed ↦ absurd (ground arith)
    ]

-- What a guard lets through.
pub guarded :
    {B : Type 0} (b : Bool) (r : Result ControlError (Option B)) {x : B}
    → (if b then r else ok none) ≡ ok (some x)
    → (b ≡ true) × (r ≡ ok (some x))
guarded true r h = (refl, h)
guarded false r h = absurd (ground arith)

module _ (g : Gateway) (previous : Snapshot) (config : ResourceConfigSet) where
  -- What each pass of a plan answered.
  pub record IsPlan (plan : Plan) : Type 0 where
    pub upstreams :
        reuse_section (reuse_upstream g previous) config.upstreams ≡ ok plan.reused_upstreams
    pub services :
        reuse_section (reuse_service g previous plan.reused_upstreams) config.services
        ≡ ok plan.reused_services
    pub global_rules :
        reuse_section (reuse_global_rule g previous plan.reused_upstreams) config.global_rules
        ≡ ok plan.reused_global_rules
    pub routes :
        reuse_section
          (reuse_route g previous plan.reused_upstreams plan.reused_services)
          config.routes
        ≡ ok plan.reused_routes
    pub ssls : reuse_section (reuse_ssl g previous) config.ssls ≡ ok plan.reused_ssls
    pub jobs : plan_jobs g config plan ≡ ok plan.jobs

  reuse_sections-IsPlan :
      (draft : Plan) (jobs : List Job)
      → reuse_sections g previous config ≡ ok draft
      → plan_jobs g config draft ≡ ok jobs
      → IsPlan (record draft { jobs = jobs })
  unfolding reuse_sections plan_jobs
  reuse_sections-IsPlan draft jobs h listed =
      through (reuse_section (reuse_upstream g previous) config.upstreams) _ h λ us u h₁.
        through (reuse_section (reuse_service g previous us) config.services) _ h₁ λ ss s h₂.
          through (reuse_section (reuse_global_rule g previous us) config.global_rules) _ h₂
            λ gs r h₃.
              through (reuse_section (reuse_route g previous us ss) config.routes) _ h₃ λ rs t h₄.
                through (reuse_section (reuse_ssl g previous) config.ssls) _ h₄ λ ls l h₅.
                  let drafted = ok_inj h₅ in
                  record {
                    upstreams = rw (sym drafted) u;
                    services = rw (sym drafted) s;
                    global_rules = rw (sym drafted) r;
                    routes = rw (sym drafted) t;
                    ssls = rw (sym drafted) l;
                    jobs = listed;
                  }

  pub build_plan-IsPlan : (plan : Plan) → build_plan g previous config ≡ ok plan → IsPlan plan
  unfolding build_plan
  build_plan-IsPlan plan h = through (reuse_sections g previous config) _ h λ draft h₁ rest.
      through (plan_jobs g config draft) _ rest
        λ jobs h₂ last. rw (sym (ok_inj last)) (reuse_sections-IsPlan draft jobs h₁ h₂)

-- What each pass of a compilation answered.
module _ (g : Gateway) (config : ResourceConfigSet) (plan : Plan)
    (prepared : PreparedUpstreams) where
  pub record IsBuilt (next : Snapshot) : Type 0 where
    pub upstreams :
        compile_section (build_named g prepared) plan.reused_upstreams config.upstreams
        ≡ ok next.upstreams
    pub services :
        compile_section
          (λ _ s. build_service g s next.upstreams prepared)
          plan.reused_services
          config.services
        ≡ ok next.services
    pub global_rules :
        compile_section
          (λ _ rule. build_global_rule g rule next.upstreams prepared)
          plan.reused_global_rules
          config.global_rules
        ≡ ok next.global_rules
    pub routes :
        compile_section
          (λ _ r. build_route g r next.upstreams next.services prepared)
          plan.reused_routes
          config.routes
        ≡ ok next.routes
    pub ssls :
        compile_section (λ _ ssl. build_ssl g ssl) plan.reused_ssls config.ssls ≡ ok next.ssls

  pub compile_sections-IsBuilt :
      (next : Snapshot) → compile_sections g config plan prepared ≡ ok next → IsBuilt next
  unfolding compile_sections
  compile_sections-IsBuilt next h =
      through (compile_section (build_named g prepared) plan.reused_upstreams config.upstreams) _ h
        λ us u h₁.
          through
            (compile_section (λ _ s. build_service g s us prepared) plan.reused_services
              config.services)
            _ h₁
            λ ss s h₂.
              through
                (compile_section (λ _ rule. build_global_rule g rule us prepared)
                  plan.reused_global_rules config.global_rules)
                _ h₂
                λ gs r h₃.
                  through
                    (compile_section (λ _ r. build_route g r us ss prepared) plan.reused_routes
                      config.routes)
                    _ h₃
                    λ rs t h₄.
                      through
                        (compile_section (λ _ ssl. build_ssl g ssl) plan.reused_ssls config.ssls) _
                        h₄
                        λ ls l h₅. rw (sym (ok_inj h₅)) (record {
                          upstreams = u;
                          services = s;
                          global_rules = r;
                          routes = t;
                          ssls = l;
                        })
