-- ===== src/Control/Compiled.antt =====
-- The compiled objects and their constructors (service.rs, global_rule.rs, route.rs, ssl.rs). An
-- executor is the list of its plugins.
use pingsix.Prelude.{
  ℕ, Bool, Option, none, some, List, [], ◌∷◌, if◌then◌else◌, Bytes, bytes_eq, codes, is_nil,
}
use pingsix.Prelude.Dict.{Dict, lookup}
use pingsix.Graph.{Result, ok, err, ◌>>=◌, map_err}
use pingsix.Control.Config.{
  JsonValue, Upstream, Route, Service, GlobalRule, Ssl, get_hosts, TrafficSplitOwner, route_owner,
  service_owner, global_rule_owner, UpstreamOccurrence, route_inline, service_inline, occurrence_eq,
  ControlError, missing_service, missing_upstream, not_prepared, upstream_failed, plugin_failed,
}
use pingsix.Control.Registry.{
  ProxyUpstream, PreparedUpstreams, PluginEntry, PluginBuildContext, Gateway,
  build_plugin_with_upstreams, build_upstream,
}
use pingsix.Control.Merge.{
  sort_plugins_by_priority_desc, build_plugin_name_index, merge_route_and_service_plugins,
  has_plugin,
}

pub record ProxyService : Type 0 where
  pub inner : Service
  pub upstream : Option ProxyUpstream
  pub plugins : List PluginEntry
  pub inline_upstream : Option ProxyUpstream

pub record ProxyGlobalRule : Type 0 where
  pub inner : GlobalRule
  pub plugins : List PluginEntry

pub record ProxyRoute : Type 0 where
  pub inner : Route
  pub plugins : List PluginEntry
  pub resolved_upstream : Option ProxyUpstream
  pub effective_hosts : List Bytes
  pub service_name : Option Bytes
  pub plugin_executor : List PluginEntry
  pub inline_upstream : Option ProxyUpstream
  pub cache_namespace_fingerprint : ℕ
  pub serves_preflight : Bool

pub record ProxySsl : Type 0 where
  pub inner : Ssl
  pub allocation : ℕ

-- `.get(…).cloned().ok_or_else(…)?`
abbrev pub required : {A : Type 0} → ControlError → Option A → Result ControlError A
required e none = err e
required e (some a) = ok a

-- `ProxyService::resolve_upstream`, of the service that a route is bound to
abbrev pub service_upstream : Option ProxyService → Option ProxyUpstream
service_upstream none = none
service_upstream (some s) = s.upstream

abbrev pub service_config : Option ProxyService → Option Service
service_config none = none
service_config (some s) = some s.inner

abbrev pub service_hosts : Option ProxyService → List Bytes
service_hosts none = []
service_hosts (some s) = s.inner.hosts

abbrev pub service_name_of : Option ProxyService → Option Bytes
service_name_of none = none
service_name_of (some s) = s.inner.name

-- `cors::PLUGIN_NAME`
abbrev pub cors : Bytes
cors = codes "cors"

module _ (g : Gateway) where
  -- The inline upstream of a scope
  unfoldable pub build_inline :
      UpstreamOccurrence
      → Option Upstream
      → PreparedUpstreams
      → Result ControlError (Option ProxyUpstream)
  unfolding lookup build_upstream
  build_inline o none prepared = ok none
  build_inline o (some upstream) prepared =
      required (not_prepared o) (lookup o prepared) >>= λ material.
      map_err (upstream_failed o) (build_upstream g upstream material) >>= λ built. ok (some built)

  -- The inline upstream, or that of `upstream_id`, or else the one given
  unfoldable pub resolve :
      TrafficSplitOwner
      → Option ProxyUpstream
      → Option Bytes
      → Option ProxyUpstream
      → Dict Bytes ProxyUpstream
      → Result ControlError (Option ProxyUpstream)
  unfolding lookup
  resolve owner (some inline) id default upstreams = ok (some inline)
  resolve owner none none default upstreams = ok default
  resolve owner none (some id) default upstreams =
      required (missing_upstream owner id) (lookup id upstreams) >>= λ found. ok (some found)

  -- The loop over the plugins of a scope
  unfoldable pub build_plugins :
      PluginBuildContext → Dict Bytes JsonValue → Result ControlError (List PluginEntry)
  unfolding build_plugin_with_upstreams
  build_plugins context [] = ok []
  build_plugins context ((name, value) ∷ plugins) =
      map_err (plugin_failed context.owner name) (build_plugin_with_upstreams g name value context)
      >>= λ entry. build_plugins context plugins >>= λ rest. ok (entry ∷ rest)

  abbrev pub context_of :
      Dict Bytes ProxyUpstream → PreparedUpstreams → TrafficSplitOwner → PluginBuildContext
  context_of upstreams prepared owner = record {
    upstreams = upstreams;
    prepared = prepared;
    owner = owner;
  }

  -- `ProxyService::build`
  unfoldable pub build_service :
      Service → Dict Bytes ProxyUpstream → PreparedUpstreams → Result ControlError ProxyService
  unfolding build_inline resolve build_plugins sort_plugins_by_priority_desc
  build_service service upstreams prepared =
      build_inline (service_inline service.id) service.upstream prepared >>= λ inline.
      resolve (service_owner service.id) inline service.upstream_id none upstreams >>= λ upstream.
      build_plugins (context_of upstreams prepared (service_owner service.id)) service.plugins
      >>= λ plugins. ok (record {
        inner = service;
        upstream = upstream;
        plugins = sort_plugins_by_priority_desc plugins;
        inline_upstream = inline;
      })

  -- `ProxyGlobalRule::build`
  unfoldable pub build_global_rule :
      GlobalRule
      → Dict Bytes ProxyUpstream
      → PreparedUpstreams
      → Result ControlError ProxyGlobalRule
  unfolding build_plugins sort_plugins_by_priority_desc
  build_global_rule rule upstreams prepared =
      build_plugins (context_of upstreams prepared (global_rule_owner rule.id)) rule.plugins
      >>= λ plugins. ok (record { inner = rule; plugins = sort_plugins_by_priority_desc plugins })

  -- The service that a route names
  unfoldable pub bound_service :
      Route → Dict Bytes ProxyService → Result ControlError (Option ProxyService)
  unfolding lookup
  bound_service route services = elim route.service_id [
    | none ↦ ok none
    | some id ↦
        required (missing_service route.id id) (lookup id services) >>= λ found. ok (some found)
  ]

  abbrev pub merged : List PluginEntry → Option ProxyService → List PluginEntry
  merged plugins none = plugins
  merged plugins (some service) =
      merge_route_and_service_plugins plugins service.plugins (build_plugin_name_index plugins)

  -- The route, once the parts that can fail are there
  unfoldable pub assemble_route :
      Route
      → Option ProxyService
      → Option ProxyUpstream
      → Option ProxyUpstream
      → List PluginEntry
      → ProxyRoute
  unfolding get_hosts merge_route_and_service_plugins build_plugin_name_index has_plugin
  assemble_route route service inline upstream plugins =
      let executor = merged plugins service in
      record {
        inner = route;
        plugins = plugins;
        resolved_upstream = upstream;
        effective_hosts =
            if is_nil (get_hosts route) then service_hosts service else get_hosts route;
        service_name = service_name_of service;
        plugin_executor = executor;
        inline_upstream = inline;
        cache_namespace_fingerprint = g.hash_namespace route (service_config service);
        serves_preflight = has_plugin cors executor;
      }

  -- `ProxyRoute::build`
  unfoldable pub build_route :
      Route
      → Dict Bytes ProxyUpstream
      → Dict Bytes ProxyService
      → PreparedUpstreams
      → Result ControlError ProxyRoute
  unfolding build_inline resolve build_plugins sort_plugins_by_priority_desc bound_service
      assemble_route
  build_route route upstreams services prepared = bound_service route services >>= λ service.
      build_inline (route_inline route.id) route.upstream prepared >>= λ inline.
      resolve (route_owner route.id) inline route.upstream_id (service_upstream service) upstreams
      >>= λ upstream.
          build_plugins (context_of upstreams prepared (route_owner route.id)) route.plugins
          >>= λ plugins.
              ok (
                assemble_route route service inline upstream
                  (sort_plugins_by_priority_desc plugins))

  -- `ProxySSL::try_from`
  unfoldable pub build_ssl : Ssl → Result ControlError ProxySsl
  build_ssl ssl = g.parse_certificate ssl >>= λ a. ok (record { inner = ssl; allocation = a })
