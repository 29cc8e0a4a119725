-- ===== src/Control/Whole.antt =====
-- The routes and the certificates of an incremental compilation, and the whole (plan.rs, compile.rs).
use pingsix.Prelude.{
  ◌≡◌, refl, sym, ap, ◌∙◌, inl, inr, true, some, Option-cases, Bytes, bytes_eq, All,
}
use pingsix.Prelude.Dict.{lookup}
use mathlib.Core.Logic.{⊎_elim}
use pingsix.Graph.{ok}
use pingsix.Control.Config.{
  Route, Ssl, ResourceConfigSet, upstream_eq, service_eq, rule_eq, route_eq, ssl_eq,
}
use pingsix.Control.Registry.{PreparedUpstreams, Gateway}
use pingsix.Control.Validate.{scope_upstream_deps_rule}
use pingsix.Control.Compiled.{ProxyRoute, ProxySsl, build_route, build_ssl, bound_service}
use pingsix.Control.Plan.{Snapshot, Plan, reuse_route, reuse_ssl, unchanged, service_ok}
use pingsix.Control.Sections.{
  ok_inj, reuse_section-IsTested, compile_section-IsCompiled, compile_section-none, fate,
}
use pingsix.Control.Locality.{IsLocal, build_route-local}
use pingsix.Control.Passes.{IsKeyed, IsPlan, IsBuilt, unchanged-some, when_reused-some, guarded}
use pingsix.Control.Coherent.{
  IsRoute, IsCoherent, IsOf, entries, build_route-inner, build_ssl-inner,
}
use pingsix.Control.Incremental.{
  upstream_found, next_upstreams, all_reused-Agree, service_found, service_kept, global_rule_found,
}

module _ (g : Gateway) (locals : All IsLocal g.plugin_metas) (previous : Snapshot)
    (config : ResourceConfigSet) (plan : Plan) (prepared : PreparedUpstreams) (next : Snapshot)
    (keyed : IsKeyed config) (coherent : IsCoherent g previous)
    (planned : IsPlan g previous config plan) (built : IsBuilt g config plan prepared next) where
  bound_kept :
      (c : Route)
      → service_ok g previous c.service_id plan.reused_services ≡ true
      → bound_service g c previous.services ≡ bound_service g c next.services
  unfolding bound_service
  bound_kept c h = elim (Option-cases c.service_id) [
    | inl free ↦ rw (free, bound_service) refl
    | inr (id, bound) ↦
        rw
          (
            bound,
            bound_service,
            service_kept g locals previous config plan prepared next keyed coherent planned built id
                (rw (bound, service_ok) at h),
          )
          refl
  ]

  route_found :
      (id : Bytes) (r : ProxyRoute)
      → lookup id next.routes ≡ some r
      → (c : Route) × (lookup id config.routes ≡ some c) × (r.inner ≡ c) × IsRoute g next r
  unfolding reuse_route
  route_found id r h =
      let (c, listed, how) =
        fate (reuse_route g previous plan.reused_upstreams plan.reused_services)
          (λ _ c. build_route g c next.upstreams next.services prepared) id
          (lookup id config.routes) (lookup id plan.reused_routes) (lookup id next.routes) r
          (reuse_section-IsTested _ config.routes plan.reused_routes planned.routes keyed.routes id)
          (compile_section-IsCompiled _ plan.reused_routes config.routes next.routes built.routes
            id)
          h in
      ⊎_elim
        (λ reused.
          let (free, kept_service) =
            guarded (service_ok g previous c.service_id plan.reused_services) _ reused in
          let (deps, same, derived, all) =
            when_reused-some (scope_upstream_deps_rule g c) plan.reused_upstreams
              (unchanged (λ (e : ProxyRoute). e.inner) c (lookup id previous.routes))
              kept_service in
          let (there, inner) =
            unchanged-some (λ (e : ProxyRoute). e.inner) c (lookup id previous.routes) same in
          let (material, was) = coherent.routes id r there in
          (
            c,
            listed,
            inner,
            (
              material,
              sym (
                    build_route-local g locals r.inner previous.upstreams next.upstreams
                      previous.services next.services material deps
                      (ap (scope_upstream_deps_rule g) inner ∙ derived)
                      (all_reused-Agree g locals previous config plan prepared next keyed coherent
                        planned built deps all)
                      (rw inner (bound_kept c free)))
                  ∙ was,
            ),
          ))
        (λ made.
          let inner = build_route-inner g c next.upstreams next.services prepared r made in
          (
            c,
            listed,
            inner,
            (
              prepared,
              ap (λ x. build_route g x next.upstreams next.services prepared) inner ∙ made,
            ),
          ))
        how

  ssl_found :
      (id : Bytes) (l : ProxySsl)
      → lookup id next.ssls ≡ some l
      → (c : Ssl) × (lookup id config.ssls ≡ some c) × (l.inner ≡ c) × (build_ssl g l.inner ≡ ok l)
  unfolding reuse_ssl
  ssl_found id l h =
      let (c, listed, how) =
        fate (reuse_ssl g previous) (λ _ c. build_ssl g c) id (lookup id config.ssls)
          (lookup id plan.reused_ssls) (lookup id next.ssls) l
          (reuse_section-IsTested _ config.ssls plan.reused_ssls planned.ssls keyed.ssls id)
          (compile_section-IsCompiled _ plan.reused_ssls config.ssls next.ssls built.ssls id) h in
      ⊎_elim
        (λ reused.
          let (there, inner) =
            unchanged-some (λ (e : ProxySsl). e.inner) c (lookup id previous.ssls)
              (ok_inj reused) in
          (c, listed, inner, coherent.ssls id l there))
        (λ made.
          let inner = build_ssl-inner g c l made in
          (c, listed, inner, ap (build_ssl g) inner ∙ made))
        how

  pub next-IsCoherent : IsCoherent g next
  next-IsCoherent = record {
    upstreams =
        next_upstreams g locals previous config plan prepared next keyed coherent planned built;
    services = λ id s h.
        (service_found g locals previous config plan prepared next keyed coherent planned built id s
          h).3;
    global_rules = λ id r h.
        (global_rule_found g locals previous config plan prepared next keyed coherent planned built
          id r h).3;
    routes = λ id r h. (route_found id r h).3;
    ssls = λ id l h. (ssl_found id l h).3;
  }

  pub next-IsOf : IsOf config next
  next-IsOf = record {
    upstreams = λ id.
        entries _ (lookup id config.upstreams) (lookup id next.upstreams)
          (compile_section-none _ plan.reused_upstreams config.upstreams next.upstreams
            built.upstreams id)
          (λ b h.
            let found =
              upstream_found g locals previous config plan prepared next keyed coherent planned
                built id b h in
            (found.0, found.1, found.2));
    services = λ id.
        entries _ (lookup id config.services) (lookup id next.services)
          (compile_section-none _ plan.reused_services config.services next.services built.services
            id)
          (λ b h.
            let found =
              service_found g locals previous config plan prepared next keyed coherent planned built
                id b h in
            (found.0, found.1, found.2));
    global_rules = λ id.
        entries _ (lookup id config.global_rules) (lookup id next.global_rules)
          (compile_section-none _ plan.reused_global_rules config.global_rules next.global_rules
            built.global_rules id)
          (λ b h.
            let found =
              global_rule_found g locals previous config plan prepared next keyed coherent planned
                built id b h in
            (found.0, found.1, found.2));
    routes = λ id.
        entries _ (lookup id config.routes) (lookup id next.routes)
          (compile_section-none _ plan.reused_routes config.routes next.routes built.routes id)
          (λ b h. let found = route_found id b h in (found.0, found.1, found.2));
    ssls = λ id.
        entries _ (lookup id config.ssls) (lookup id next.ssls)
          (compile_section-none _ plan.reused_ssls config.ssls next.ssls built.ssls id)
          (λ b h. let found = ssl_found id b h in (found.0, found.1, found.2));
  }
