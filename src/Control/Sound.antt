-- ===== src/Control/Sound.antt =====
-- A valid candidate whose jobs are prepared compiles, unless a plugin, an upstream or a certificate
-- cannot be built (compile.rs).
use pingsix.Prelude.{
  ◌≡◌, ap, ◌∙◌, inl, inr, true, Option, none, some, Option-cases, Bytes, bytes_eq, arith, is_some,
}
use pingsix.Prelude.Dict.{Dict, lookup, contains_key}
use mathlib.Core.Option.{none-ne-some}
use pingsix.Graph.{Result, ok}
use pingsix.Control.Config.{
  TrafficSplitOwner, Upstream, Route, Service, GlobalRule, occurrence_eq, ControlError,
  missing_service, route_inline, service_inline, route_owner, service_owner, global_rule_owner,
}
use pingsix.Control.Registry.{ProxyUpstream, PreparedUpstreams, Gateway}
use pingsix.Control.Validate.{check_direct}
use pingsix.Control.Compiled.{
  ProxyService, required, build_inline, resolve, build_plugins, build_service, build_global_rule,
  bound_service, build_route, service_upstream, context_of,
}
use pingsix.Control.Snapshot.{compile_section}
use pingsix.Control.Sections.{compile_section-none}
use pingsix.Control.Failures.{
  IsSound, IsSound-bind, IsSound-ok, required-IsSound, build_inline-IsSound, build_inline-none,
  resolve-IsSound, build_plugins-IsSound,
}

module _ (g : Gateway) where
  -- The reference checks, of a scope and of the service of a route
  pub check_direct-some :
      (owner : TrafficSplitOwner) (id : Option Bytes) (us : Dict Bytes Upstream)
      → check_direct g owner none id us ≡ ok tt
      → (i : Bytes) → id ≡ some i
      → contains_key i us ≡ true
  check_direct-some owner none us h i is = absurd (none-ne-some i is)
  check_direct-some owner (some j) us h i is = ground arith

  pub build_service-IsSound :
      (s : Service) (us : Dict Bytes ProxyUpstream) (prepared : PreparedUpstreams)
      → ((u : Upstream)
          → s.upstream ≡ some u
          → is_some (lookup (service_inline s.id) prepared) ≡ true)
      → (s.upstream ≡ none → (i : Bytes) → s.upstream_id ≡ some i → is_some (lookup i us) ≡ true)
      → IsSound (build_service g s us prepared)
  unfolding build_service
  build_service-IsSound s us prepared there direct =
      IsSound-bind (build_inline g (service_inline s.id) s.upstream prepared) _
        (build_inline-IsSound g (service_inline s.id) s.upstream prepared there)
        λ inline made.
          IsSound-bind (resolve g (service_owner s.id) inline s.upstream_id none us) _
            (resolve-IsSound g (service_owner s.id) inline s.upstream_id none us
              (λ (e : inline ≡ none).
                direct
                  (build_inline-none g (service_inline s.id) s.upstream prepared (made ∙ ap ok e))))
            λ upstream _.
              IsSound-bind
                (build_plugins g (context_of g us prepared (service_owner s.id)) s.plugins) _
                (build_plugins-IsSound g (context_of g us prepared (service_owner s.id)) s.plugins)
                λ plugins _. IsSound-ok _

  pub build_global_rule-IsSound :
      (r : GlobalRule) (us : Dict Bytes ProxyUpstream) (prepared : PreparedUpstreams)
      → IsSound (build_global_rule g r us prepared)
  unfolding build_global_rule
  build_global_rule-IsSound r us prepared =
      IsSound-bind (build_plugins g (context_of g us prepared (global_rule_owner r.id)) r.plugins) _
        (build_plugins-IsSound g (context_of g us prepared (global_rule_owner r.id)) r.plugins)
        λ plugins _. IsSound-ok _

  bound_service-IsSound :
      (r : Route) (ss : Dict Bytes ProxyService)
      → ((i : Bytes) → r.service_id ≡ some i → is_some (lookup i ss) ≡ true)
      → IsSound (bound_service g r ss)
  unfolding bound_service
  bound_service-IsSound r ss there = elim (Option-cases r.service_id) [
    | inl free ↦ rw (bound_service, free) (IsSound-ok none)
    | inr (i, bound) ↦
        rw (bound_service, bound)
          (IsSound-bind (required (missing_service r.id i) (lookup i ss)) _
            (required-IsSound (missing_service r.id i) (lookup i ss) (there i bound))
            λ s _. IsSound-ok (some s))
  ]

  pub build_route-IsSound :
      (r : Route) (us : Dict Bytes ProxyUpstream) (ss : Dict Bytes ProxyService)
      (prepared : PreparedUpstreams)
      → ((i : Bytes) → r.service_id ≡ some i → is_some (lookup i ss) ≡ true)
      → ((u : Upstream)
          → r.upstream ≡ some u
          → is_some (lookup (route_inline r.id) prepared) ≡ true)
      → (r.upstream ≡ none → (i : Bytes) → r.upstream_id ≡ some i → is_some (lookup i us) ≡ true)
      → IsSound (build_route g r us ss prepared)
  unfolding build_route
  build_route-IsSound r us ss prepared bound there direct =
      IsSound-bind (bound_service g r ss) _ (bound_service-IsSound r ss bound) λ service _.
        IsSound-bind (build_inline g (route_inline r.id) r.upstream prepared) _
          (build_inline-IsSound g (route_inline r.id) r.upstream prepared there)
          λ inline made.
            IsSound-bind
              (resolve g (route_owner r.id) inline r.upstream_id (service_upstream service) us) _
              (resolve-IsSound g (route_owner r.id) inline r.upstream_id (service_upstream service)
                us
                (λ (e : inline ≡ none).
                  direct
                    (build_inline-none g (route_inline r.id) r.upstream prepared (made ∙ ap ok e))))
              λ upstream _.
                IsSound-bind
                  (build_plugins g (context_of g us prepared (route_owner r.id)) r.plugins) _
                  (build_plugins-IsSound g (context_of g us prepared (route_owner r.id)) r.plugins)
                  λ plugins _. IsSound-ok _

  -- What a section lists, it compiles.
  pub compiled_there :
      {A B : Type 0} (build : Bytes → A → Result ControlError B) (reused : Dict Bytes B)
      (section : Dict Bytes A) (out : Dict Bytes B)
      → compile_section build reused section ≡ ok out
      → (i : Bytes) → contains_key i section ≡ true
      → is_some (lookup i out) ≡ true
  unfolding contains_key
  compiled_there build reused section out h i listed = elim (Option-cases (lookup i out)) [
    | inl absent ↦ absurd (ground (arith, compile_section-none build reused section out h i absent))
    | inr (b, found) ↦ ground arith
  ]
