-- ===== src/Control/Incremental.antt =====
-- The upstreams, services and global rules of an incremental compilation (plan.rs, compile.rs).
use pingsix.Prelude.{
  ◌≡◌, sym, ap, ◌∙◌, ◌⊎◌, inl, inr, true, some, Option-cases, List, [], ◌∷◌, Bytes, bytes_eq, arith,
  All,
}
use pingsix.Prelude.Dict.{lookup, contains_key}
use mathlib.Core.Logic.{⊎_elim}
use pingsix.Graph.{ok}
use pingsix.Control.Config.{
  Upstream, Service, GlobalRule, ResourceConfigSet, upstream_eq, service_eq, rule_eq, route_eq,
  ssl_eq,
}
use pingsix.Control.Registry.{ProxyUpstream, PreparedUpstreams, Gateway}
use pingsix.Control.Validate.{scope_upstream_deps, plugin_upstream_deps}
use pingsix.Control.Compiled.{ProxyService, ProxyGlobalRule, build_service, build_global_rule}
use pingsix.Control.Plan.{
  Snapshot, Plan, reuse_upstream, reuse_service, reuse_global_rule, all_reused, unchanged,
}
use pingsix.Control.Snapshot.{build_named}
use pingsix.Control.Sections.{
  ok_inj, reuse_section-IsTested, compile_section-IsCompiled, fate, kept,
}
use pingsix.Control.Locality.{IsLocal, Agree, build_service-local, build_global_rule-local}
use pingsix.Control.Passes.{IsKeyed, IsPlan, IsBuilt, unchanged-some, when_reused-some}
use pingsix.Control.Coherent.{
  IsUpstream, IsService, IsGlobalRule, IsCoherent, build_named-IsUpstream, build_named-inner,
  build_service-inner, build_global_rule-inner,
}

module _ (g : Gateway) (locals : All IsLocal g.plugin_metas) (previous : Snapshot)
    (config : ResourceConfigSet) (plan : Plan) (prepared : PreparedUpstreams) (next : Snapshot)
    (keyed : IsKeyed config) (coherent : IsCoherent g previous)
    (planned : IsPlan g previous config plan) (built : IsBuilt g config plan prepared next) where
  upstream_fate :
      (id : Bytes) (p : ProxyUpstream)
      → lookup id next.upstreams ≡ some p
      → (u : Upstream) × (lookup id config.upstreams ≡ some u)
        × ((reuse_upstream g previous id u ≡ ok (some p)) ⊎ (build_named g prepared id u ≡ ok p))
  upstream_fate id p h =
      fate (reuse_upstream g previous) (build_named g prepared) id (lookup id config.upstreams)
        (lookup id plan.reused_upstreams) (lookup id next.upstreams) p
        (reuse_section-IsTested _ config.upstreams plan.reused_upstreams planned.upstreams
          keyed.upstreams id)
        (compile_section-IsCompiled _ plan.reused_upstreams config.upstreams next.upstreams
          built.upstreams id)
        h

  upstream_kept :
      (id : Bytes) (p : ProxyUpstream)
      → lookup id plan.reused_upstreams ≡ some p
      → lookup id previous.upstreams ≡ lookup id next.upstreams
  unfolding reuse_upstream
  upstream_kept id p h =
      let (u, _, tested, found) =
        kept (reuse_upstream g previous) (build_named g prepared) id (lookup id config.upstreams)
          (lookup id plan.reused_upstreams) (lookup id next.upstreams) p
          (reuse_section-IsTested _ config.upstreams plan.reused_upstreams planned.upstreams
            keyed.upstreams id)
          (compile_section-IsCompiled _ plan.reused_upstreams config.upstreams next.upstreams
            built.upstreams id)
          h in
      (unchanged-some (λ (e : ProxyUpstream). e.inner) u (lookup id previous.upstreams)
        (ok_inj tested)).0
      ∙ sym found

  pub next_upstreams :
      (id : Bytes) (p : ProxyUpstream) → lookup id next.upstreams ≡ some p → IsUpstream g p
  unfolding reuse_upstream
  next_upstreams id p h =
      let (u, _, how) = upstream_fate id p h in
      ⊎_elim
        (λ reused.
          coherent.upstreams id p
            (unchanged-some (λ (e : ProxyUpstream). e.inner) u (lookup id previous.upstreams)
              (ok_inj reused)).0)
        (λ made. build_named-IsUpstream g prepared id u p made) how

  pub upstream_found :
      (id : Bytes) (p : ProxyUpstream)
      → lookup id next.upstreams ≡ some p
      → (u : Upstream) × (lookup id config.upstreams ≡ some u) × (p.inner ≡ u)
  unfolding reuse_upstream
  upstream_found id p h =
      let (u, listed, how) = upstream_fate id p h in
      ⊎_elim
        (λ reused. (
          u,
          listed,
          (unchanged-some (λ (e : ProxyUpstream). e.inner) u (lookup id previous.upstreams)
              (ok_inj reused)).1,
        ))
        (λ made. (u, listed, build_named-inner g prepared id u p (keyed.named id u listed) made))
        how

  -- The two snapshots agree on dependencies that are all reused.
  pub all_reused-Agree :
      (deps : List Bytes)
      → all_reused deps plan.reused_upstreams ≡ true
      → Agree deps previous.upstreams next.upstreams
  unfolding all_reused contains_key
  all_reused-Agree [] h = tt
  all_reused-Agree (dep ∷ deps) h = elim (Option-cases (lookup dep plan.reused_upstreams)) [
    | inl absent ↦ absurd (ground arith)
    | inr (p, found) ↦ (upstream_kept dep p found, all_reused-Agree deps (ground arith))
  ]

  pub service_found :
      (id : Bytes) (s : ProxyService)
      → lookup id next.services ≡ some s
      → (c : Service) × (lookup id config.services ≡ some c) × (s.inner ≡ c) × IsService g next s
  unfolding reuse_service
  service_found id s h =
      let (c, listed, how) =
        fate (reuse_service g previous plan.reused_upstreams)
          (λ _ s. build_service g s next.upstreams prepared) id (lookup id config.services)
          (lookup id plan.reused_services) (lookup id next.services) s
          (reuse_section-IsTested _ config.services plan.reused_services planned.services
            keyed.services id)
          (compile_section-IsCompiled _ plan.reused_services config.services next.services
            built.services id)
          h in
      ⊎_elim
        (λ reused.
          let (deps, same, derived, all) =
            when_reused-some (scope_upstream_deps g c) plan.reused_upstreams
              (unchanged (λ (e : ProxyService). e.inner) c (lookup id previous.services)) reused in
          let (there, inner) =
            unchanged-some (λ (e : ProxyService). e.inner) c (lookup id previous.services) same in
          let (material, was) = coherent.services id s there in
          (
            c,
            listed,
            inner,
            (
              material,
              sym (
                    build_service-local g locals s.inner previous.upstreams next.upstreams material
                      deps (ap (scope_upstream_deps g) inner ∙ derived) (all_reused-Agree deps all))
                  ∙ was,
            ),
          ))
        (λ made.
          let inner = build_service-inner g c next.upstreams prepared s made in
          (
            c,
            listed,
            inner,
            (prepared, ap (λ x. build_service g x next.upstreams prepared) inner ∙ made),
          ))
        how

  pub global_rule_found :
      (id : Bytes) (r : ProxyGlobalRule)
      → lookup id next.global_rules ≡ some r
      → (c : GlobalRule) × (lookup id config.global_rules ≡ some c)
        × (r.inner ≡ c)
        × IsGlobalRule g next r
  unfolding reuse_global_rule
  global_rule_found id r h =
      let (c, listed, how) =
        fate (reuse_global_rule g previous plan.reused_upstreams)
          (λ _ c. build_global_rule g c next.upstreams prepared) id (lookup id config.global_rules)
          (lookup id plan.reused_global_rules) (lookup id next.global_rules) r
          (reuse_section-IsTested _ config.global_rules plan.reused_global_rules
            planned.global_rules keyed.global_rules id)
          (compile_section-IsCompiled _ plan.reused_global_rules config.global_rules
            next.global_rules built.global_rules id)
          h in
      ⊎_elim
        (λ reused.
          let (deps, same, derived, all) =
            when_reused-some (plugin_upstream_deps g c.plugins) plan.reused_upstreams
              (unchanged (λ (e : ProxyGlobalRule). e.inner) c (lookup id previous.global_rules))
              reused in
          let (there, inner) =
            unchanged-some (λ (e : ProxyGlobalRule). e.inner) c (lookup id previous.global_rules)
              same in
          let (material, was) = coherent.global_rules id r there in
          (
            c,
            listed,
            inner,
            (
              material,
              sym (
                    build_global_rule-local g locals r.inner previous.upstreams next.upstreams
                      material deps (ap (λ x. plugin_upstream_deps g x.plugins) inner ∙ derived)
                      (all_reused-Agree deps all))
                  ∙ was,
            ),
          ))
        (λ made.
          let inner = build_global_rule-inner g c next.upstreams prepared r made in
          (
            c,
            listed,
            inner,
            (prepared, ap (λ x. build_global_rule g x next.upstreams prepared) inner ∙ made),
          ))
        how

  pub service_kept :
      (id : Bytes)
      → contains_key id plan.reused_services ≡ true
      → lookup id previous.services ≡ lookup id next.services
  unfolding reuse_service contains_key
  service_kept id h = elim (Option-cases (lookup id plan.reused_services)) [
    | inl absent ↦ absurd (ground arith)
    | inr (s, there) ↦
        let (c, _, tested, found) =
          kept (reuse_service g previous plan.reused_upstreams)
            (λ _ s. build_service g s next.upstreams prepared) id (lookup id config.services)
            (lookup id plan.reused_services) (lookup id next.services) s
            (reuse_section-IsTested _ config.services plan.reused_services planned.services
              keyed.services id)
            (compile_section-IsCompiled _ plan.reused_services config.services next.services
              built.services id)
            there in
        let (deps, same, derived, all) =
          when_reused-some (scope_upstream_deps g c) plan.reused_upstreams
            (unchanged (λ (e : ProxyService). e.inner) c (lookup id previous.services)) tested in
        (unchanged-some (λ (e : ProxyService). e.inner) c (lookup id previous.services) same).0
        ∙ sym found
  ]
