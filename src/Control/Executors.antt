-- ===== src/Control/Executors.antt =====
-- The executors of the routes of a published snapshot (route.rs, service.rs).
use pingsix.Prelude.{
  ◌≡◌, refl, sym, ap, ◌∙◌, Option, none, some, Option-cases, inl, inr, List, [], ◌∷◌, ◌++◌,
  if◌then◌else◌, Bytes, bytes_eq, arith, All,
}
use pingsix.Prelude.Dict.{Dict, lookup}
use mathlib.Core.List.{Perm}
use mathlib.Core.List.Perm
use pingsix.Graph.{ok}
use pingsix.Control.Config.{
  Route, Service, route_inline, service_inline, route_owner, service_owner, ControlError,
  missing_service,
}
use pingsix.Control.Registry.{ProxyUpstream, PreparedUpstreams, PluginEntry, Gateway}
use pingsix.Control.Merge.{
  name_of, sort_plugins_by_priority_desc, build_plugin_name_index, has_plugin,
}
use pingsix.Control.Merged.{
  IsDescending, sort_plugins-IsDescending, name_index-has_plugin, not_overridden,
  merge-IsDescending, merge-Perm,
}
use pingsix.Control.Compiled.{
  ProxyService, ProxyRoute, required, build_inline, resolve, build_plugins, build_service,
  bound_service, build_route, assemble_route, merged, service_upstream, context_of,
}
use pingsix.Control.Plan.{Snapshot}
use pingsix.Control.Sections.{through, ok_inj}
use pingsix.Control.Locality.{IsLocal}
use pingsix.Control.Coherent.{IsCoherent}
use pingsix.Control.Refined.{Reached, Reached-IsCoherent}

-- The plugins of a service that a route does not have itself.
unfoldable pub inherited : List PluginEntry → List PluginEntry → List PluginEntry
inherited own [] = []
inherited own (s ∷ ss) =
    let rest = inherited own ss in if has_plugin (name_of s) own then rest else s ∷ rest

not_overridden-inherited :
    (own ss : List PluginEntry) → not_overridden (build_plugin_name_index own) ss ≡ inherited own ss
unfolding inherited
not_overridden-inherited own [] = refl
not_overridden-inherited own (s ∷ ss) =
    rw (not_overridden-inherited own ss, name_index-has_plugin own (name_of s)) refl

abbrev pub service_plugins : Option ProxyService → List PluginEntry
service_plugins none = []
service_plugins (some s) = s.plugins

-- An executor in descending order, of the route's plugins and those that it inherits.
abbrev pub IsExecutor : List PluginEntry → List PluginEntry → List PluginEntry → Type 0
IsExecutor executor own ss = IsDescending executor × Perm executor (own ++ inherited own ss)

append_none : (own : List PluginEntry) → Perm own (own ++ [])
append_none [] = Perm.refl []
append_none (x ∷ own) = Perm.cons x (append_none own)

required-some :
    {A : Type 0} (e : ControlError) (o : Option A) {a : A} → required e o ≡ ok a → o ≡ some a
required-some e none h = absurd (ground arith)
required-some e (some b) h = ap some (ok_inj h)

module _ (g : Gateway) where
  merged-IsExecutor :
      (own : List PluginEntry) (service : Option ProxyService)
      → IsDescending own
      → IsDescending (service_plugins service)
      → IsExecutor (merged g own service) own (service_plugins service)
  unfolding inherited
  merged-IsExecutor own none h k = (h, append_none own)
  merged-IsExecutor own (some s) h k = (
    merge-IsDescending own s.plugins (build_plugin_name_index own) h k,
    rw (sym (not_overridden-inherited own s.plugins))
        (merge-Perm own s.plugins (build_plugin_name_index own)),
  )

  build_service-IsDescending :
      (c : Service) (us : Dict Bytes ProxyUpstream) (prepared : PreparedUpstreams)
      (s : ProxyService)
      → build_service g c us prepared ≡ ok s
      → IsDescending s.plugins
  unfolding build_service
  build_service-IsDescending c us prepared s h =
      through (build_inline g (service_inline c.id) c.upstream prepared) _ h λ inline _ h₁.
        through (resolve g (service_owner c.id) inline c.upstream_id none us) _ h₁ λ _ _ h₂.
          through (build_plugins g (context_of g us prepared (service_owner c.id)) c.plugins) _ h₂
            λ plugins _ last. rw (sym (ok_inj last)) (sort_plugins-IsDescending plugins)

  bound_found :
      (c : Route) (t : Snapshot) (s : ProxyService)
      → bound_service g c t.services ≡ ok (some s)
      → (id : Bytes) × (lookup id t.services ≡ some s)
  unfolding bound_service
  bound_found c t s h = elim (Option-cases c.service_id) [
    | inl free ↦ absurd (ground (arith, (rw (bound_service, free) at h)))
    | inr (id, bound) ↦
        through (required (missing_service c.id id) (lookup id t.services)) _
          (rw (bound_service, bound) at h)
          λ found there last. (id, required-some _ (lookup id t.services) there ∙ ok_inj last)
  ]

  bound-IsDescending :
      (t : Snapshot) (c : Route) (service : Option ProxyService)
      → IsCoherent g t
      → bound_service g c t.services ≡ ok service
      → IsDescending (service_plugins service)
  bound-IsDescending t c none coherent h = tt
  bound-IsDescending t c (some s) coherent h =
      let (id, found) = bound_found c t s h in
      let (material, built) = coherent.services id s found in
      build_service-IsDescending s.inner t.upstreams material s built

-- In every snapshot that publications reach, the executor of a route goes by descending priority;
-- it has the route's own plugins and those plugins of the service bound to it whose name no plugin
-- of the route has, each once.
pub Reached-IsExecutor :
    (g : Gateway) (t : Snapshot) (id : Bytes) (r : ProxyRoute)
    → All IsLocal g.plugin_metas
    → Reached g t
    → lookup id t.routes ≡ some r
    → (service : Option ProxyService) × (bound_service g r.inner t.services ≡ ok service)
      × IsExecutor r.plugin_executor r.plugins (service_plugins service)
unfolding build_route assemble_route
Reached-IsExecutor g t id r locals reached found =
    let coherent = Reached-IsCoherent g t locals reached in
    let (prepared, built) = coherent.routes id r found in
    let c : Route = r.inner in
    through (bound_service g c t.services) _ built λ service bound h₁.
      through (build_inline g (route_inline c.id) c.upstream prepared) _ h₁ λ inline _ h₂.
        through
          (resolve g (route_owner c.id) inline c.upstream_id (service_upstream service) t.upstreams)
          _ h₂
          λ upstream _ h₃.
            through
              (build_plugins g (context_of g t.upstreams prepared (route_owner c.id)) c.plugins) _
              h₃
              λ plugins _ last.
                let own = sort_plugins_by_priority_desc plugins in
                let result : IsExecutor (merged g own service) own (service_plugins service) =
                  merged-IsExecutor g own service (sort_plugins-IsDescending plugins)
                    (bound-IsDescending g t c service coherent bound) in
                let same = ok_inj last in
                let executor : merged g own service ≡ r.plugin_executor =
                  ap (λ (x : ProxyRoute). x.plugin_executor) same in
                let plugins_are : own ≡ r.plugins = ap (λ (x : ProxyRoute). x.plugins) same in
                (service, bound, (rw (executor, plugins_are) at result))
