-- ===== src/Control/Locality.antt =====
-- A compiled object reads of the upstreams only those that its dependencies name (resources.rs):
-- the same object results where another map agrees on them.
use pingsix.Prelude.{
  ◌≡◌, refl, sym, ap, inl, inr, Option, none, some, Option-cases, List, [], ◌∷◌, ◌++◌, Bytes,
  Bytes-discrete, bytes_eq, arith, All,
}
use pingsix.Prelude.Dict.{Dict, lookup}
use pingsix.Graph.{Result, ok, ◌>>=◌}
use pingsix.Control.Config.{
  JsonValue, Route, Service, GlobalRule, TrafficSplitOwner, route_owner, service_owner,
  global_rule_owner, ControlError,
}
use pingsix.Control.Registry.{
  ProxyUpstream, PreparedUpstreams, ProxyPlugin, PluginBuildContext, PluginMeta, Gateway, find_meta,
  run_factory, plugin_meta, plugin_upstream_refs, build_plugin_with_upstreams,
}
use pingsix.Control.Validate.{
  with_direct, plugin_upstream_deps, scope_upstream_deps, scope_upstream_deps_rule,
}
use pingsix.Control.Compiled.{
  ProxyService, build_plugins, resolve, build_service, build_global_rule, build_route,
  bound_service,
}
use pingsix.Control.Sections.{bind-ok, ok_inj}

-- The two maps have the same upstreams under these ids.
abbrev pub Agree : List Bytes → Dict Bytes ProxyUpstream → Dict Bytes ProxyUpstream → Type 0
Agree ids us vs = All (λ id. lookup id us ≡ lookup id vs) ids

pub Agree-append :
    (is js : List Bytes) (us vs : Dict Bytes ProxyUpstream)
    → Agree (is ++ js) us vs
    → Agree is us vs × Agree js us vs
Agree-append [] js us vs h = (tt, h)
Agree-append (i ∷ is) js us vs (p, h) =
    let (left, right) = Agree-append is js us vs h in ((p, left), right)

-- What a plugin declares to refer to
unfoldable pub meta_refs : PluginMeta → JsonValue → Result ControlError (List Bytes)
meta_refs meta cfg = elim meta.upstream_refs [ none ↦ ok [] | some extract ↦ extract cfg ]

-- The factory reads only the upstreams that the configuration declares to refer to.
unfoldable pub IsLocal : PluginMeta → Type 0
unfolding meta_refs run_factory
IsLocal meta =
    (cfg : JsonValue) (ids : List Bytes) (context : PluginBuildContext)
    (vs : Dict Bytes ProxyUpstream)
    → meta_refs meta cfg ≡ ok ids
    → Agree ids context.upstreams vs
    → run_factory meta.factory cfg context
      ≡ run_factory meta.factory cfg (record context { upstreams = vs })

find_meta-IsLocal :
    (name : Bytes) (metas : List PluginMeta) (m : PluginMeta)
    → All IsLocal metas
    → find_meta name metas ≡ some m
    → IsLocal m
unfolding find_meta
find_meta-IsLocal name [] m locals h = absurd (ground arith)
find_meta-IsLocal name (x ∷ metas) m (local, locals) h = elim (Bytes-discrete x.name name) [
  | yes same ↦ let found : x ≡ m = ground arith in rw (sym found) local
  | no differ ↦ find_meta-IsLocal name metas m locals (ground arith)
]

module _ (g : Gateway) (locals : All IsLocal g.plugin_metas) where
  build_plugin-local :
      (name : Bytes) (cfg : JsonValue) (context : PluginBuildContext)
      (vs : Dict Bytes ProxyUpstream) (ids : List Bytes)
      → plugin_upstream_refs g name cfg ≡ ok ids
      → Agree ids context.upstreams vs
      → build_plugin_with_upstreams g name cfg context
        ≡ build_plugin_with_upstreams g name cfg (record context { upstreams = vs })
  unfolding IsLocal meta_refs build_plugin_with_upstreams plugin_upstream_refs
  build_plugin-local name cfg context vs ids h agree =
      elim (Option-cases (find_meta name g.plugin_metas)) [
        | inl e ↦ rw (e, build_plugin_with_upstreams, plugin_meta) refl
        | inr (m, e) ↦
            let same =
              find_meta-IsLocal name g.plugin_metas m locals e cfg ids context vs
                (rw (e, plugin_upstream_refs, plugin_meta) at h) agree in
            rw (e, build_plugin_with_upstreams, plugin_meta)
              (ap (λ r. r >>= λ (p : ProxyPlugin). ok (record { plugin = p; phases = m.phases }))
                same)
      ]

  pub build_plugins-local :
      (plugins : Dict Bytes JsonValue) (context : PluginBuildContext)
      (vs : Dict Bytes ProxyUpstream) (ids : List Bytes)
      → plugin_upstream_deps g plugins ≡ ok ids
      → Agree ids context.upstreams vs
      → build_plugins g context plugins
        ≡ build_plugins g (record context { upstreams = vs }) plugins
  unfolding plugin_upstream_deps build_plugins
  build_plugins-local [] context vs ids h agree = refl
  build_plugins-local ((name, cfg) ∷ plugins) context vs ids h agree =
      let (refs, one, h₁) = bind-ok (plugin_upstream_refs g name cfg) _ h in
      let (rest, many, h₂) = bind-ok (plugin_upstream_deps g plugins) _ h₁ in
      let both : Agree (refs ++ rest) context.upstreams vs = rw (ok_inj h₂) agree in
      let (left, right) = Agree-append refs rest context.upstreams vs both in
      rw
        (
          build_plugin-local name cfg context vs refs one left,
          build_plugins-local plugins context vs rest many right,
        )
        refl

  -- The direct dependency matters only where there is no inline upstream.
  resolve-local :
      (owner : TrafficSplitOwner) (inline : Option ProxyUpstream) (id : Option Bytes)
      (default : Option ProxyUpstream) (us vs : Dict Bytes ProxyUpstream) (deps : List Bytes)
      → Agree (with_direct g id deps) us vs
      → resolve g owner inline id default us ≡ resolve g owner inline id default vs
  unfolding resolve
  resolve-local owner (some _) id default us vs deps agree = refl
  resolve-local owner none none default us vs deps agree = refl
  resolve-local owner none (some id) default us vs deps agree = rw agree.0 refl

  without_direct :
      (id : Option Bytes) (us vs : Dict Bytes ProxyUpstream) (deps : List Bytes)
      → Agree (with_direct g id deps) us vs
      → Agree deps us vs
  without_direct none us vs deps agree = agree
  without_direct (some _) us vs deps agree = agree.1

  pub build_service-local :
      (s : Service) (us vs : Dict Bytes ProxyUpstream) (prepared : PreparedUpstreams)
      (deps : List Bytes)
      → scope_upstream_deps g s ≡ ok deps
      → Agree deps us vs
      → build_service g s us prepared ≡ build_service g s vs prepared
  unfolding scope_upstream_deps build_service
  build_service-local s us vs prepared deps h agree =
      let (refs, of_plugins, h₁) = bind-ok (plugin_upstream_deps g s.plugins) _ h in
      let direct : Agree (with_direct g s.upstream_id refs) us vs = rw (ok_inj h₁) agree in
      let plugins =
        build_plugins-local s.plugins
          (record { upstreams = us; prepared = prepared; owner = service_owner s.id }) vs refs
          of_plugins (without_direct s.upstream_id us vs refs direct) in
      let resolves : (inline : Option ProxyUpstream)
          → resolve g (service_owner s.id) inline s.upstream_id none us
            ≡ resolve g (service_owner s.id) inline s.upstream_id none vs =
        λ inline. resolve-local (service_owner s.id) inline s.upstream_id none us vs refs direct in
      rw plugins (simp (resolves, build_service) refl)

  pub build_global_rule-local :
      (rule : GlobalRule) (us vs : Dict Bytes ProxyUpstream) (prepared : PreparedUpstreams)
      (deps : List Bytes)
      → plugin_upstream_deps g rule.plugins ≡ ok deps
      → Agree deps us vs
      → build_global_rule g rule us prepared ≡ build_global_rule g rule vs prepared
  unfolding build_global_rule
  build_global_rule-local rule us vs prepared deps h agree =
      rw
        (build_plugins-local rule.plugins
          (record { upstreams = us; prepared = prepared; owner = global_rule_owner rule.id }) vs
          deps h agree)
        refl

  -- A route reads its service beside its upstreams.
  pub build_route-local :
      (r : Route) (us vs : Dict Bytes ProxyUpstream) (ss ts : Dict Bytes ProxyService)
      (prepared : PreparedUpstreams) (deps : List Bytes)
      → scope_upstream_deps_rule g r ≡ ok deps
      → Agree deps us vs
      → bound_service g r ss ≡ bound_service g r ts
      → build_route g r us ss prepared ≡ build_route g r vs ts prepared
  unfolding scope_upstream_deps_rule build_route
  build_route-local r us vs ss ts prepared deps h agree bound =
      let (refs, of_plugins, h₁) = bind-ok (plugin_upstream_deps g r.plugins) _ h in
      let direct : Agree (with_direct g r.upstream_id refs) us vs = rw (ok_inj h₁) agree in
      let plugins =
        build_plugins-local r.plugins
          (record { upstreams = us; prepared = prepared; owner = route_owner r.id }) vs refs
          of_plugins (without_direct r.upstream_id us vs refs direct) in
      let resolves : (inline default : Option ProxyUpstream)
          → resolve g (route_owner r.id) inline r.upstream_id default us
            ≡ resolve g (route_owner r.id) inline r.upstream_id default vs =
        λ inline default.
          resolve-local (route_owner r.id) inline r.upstream_id default us vs refs direct in
      rw (bound, plugins) (simp (resolves, build_route) refl)
