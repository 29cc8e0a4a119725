-- ===== src/Control/Registry.antt =====
-- The registry of plugins (plugins/mod.rs) and what a plugin is built from. A compiled upstream is
-- its configuration and, for its load balancer, the number of its allocation; the material that
-- discovery prepared for one is a number too. A plugin's state is a number, but for `traffic-split`
-- (traffic_split.rs), which holds the upstreams of its targets.
use pingsix.Prelude.{
  ℕ, Option, none, some, List, [], ◌∷◌, ◌++◌, if◌then◌else◌, String, Bytes, bytes_eq, ◌==◌, codes,
}
use pingsix.Prelude.Dict.{Dict}
use pingsix.Graph.{Result, ok, err, ◌>>=◌}
use pingsix.Control.Config.{
  JsonValue, Upstream, Route, Service, Ssl, TrafficSplitOwner, UpstreamOccurrence, ControlError,
  unknown_plugin,
}

pub record ProxyUpstream : Type 0 where
  pub inner : Upstream
  pub allocation : ℕ

abbrev pub PreparedUpstreams : Type 0
PreparedUpstreams = Dict UpstreamOccurrence ℕ

pub data WeightedTarget : Type 0 where
  upstream_target : ProxyUpstream → WeightedTarget
  pass_through : WeightedTarget

pub record CompiledRule : Type 0 where
  pub targets : List (ℕ × WeightedTarget)
  pub total_weight : ℕ

pub data PluginState : Type 0 where
  plain_state : ℕ → PluginState
  split_state : List CompiledRule → PluginState

-- `name()` and `priority()` of a `ProxyPlugin`; a priority is the `i32` plus 2 ^ 31.
pub record ProxyPlugin : Type 0 where
  pub name : Bytes
  pub priority : ℕ
  pub state : PluginState

pub record PluginEntry : Type 0 where
  pub plugin : ProxyPlugin
  pub phases : ℕ

-- The defaults and the resolver are those of the gateway.
pub record PluginBuildContext : Type 0 where
  pub upstreams : Dict Bytes ProxyUpstream
  pub prepared : PreparedUpstreams
  pub owner : TrafficSplitOwner

pub data PluginFactory : Type 0 where
  plain : (JsonValue → Result ControlError ProxyPlugin) → PluginFactory
  with_upstreams :
      (JsonValue → PluginBuildContext → Result ControlError ProxyPlugin) → PluginFactory

pub record PluginMeta : Type 0 where
  pub name : Bytes
  pub phases : ℕ
  pub factory : PluginFactory
  pub validate : JsonValue → Result ControlError (Unit {0})
  pub upstream_refs : Option (JsonValue → Result ControlError (List Bytes))
  pub upstream_jobs :
      Option
        (TrafficSplitOwner → JsonValue → Result ControlError (List (UpstreamOccurrence × Upstream)))

-- One gateway: `PLUGIN_META`, the validator of an upstream's fields, DNS discovery, the load
-- balancer and the certificate parser, with the instance's defaults and resolver in them, and the
-- UUID that an upstream without an id gets; and the hash of a route and its service for the cache.
pub record Gateway : Type 0 where
  pub plugin_metas : List PluginMeta
  pub validate_upstream : Upstream → Result String (Unit {0})
  pub prepare_upstream : Upstream → Result ControlError ℕ
  pub from_prepared : Upstream → ℕ → Result String ℕ
  pub new_uuid : ℕ → Bytes
  pub parse_certificate : Ssl → Result ControlError ℕ
  pub hash_namespace : Route → Option Service → ℕ

unfoldable pub find_meta : Bytes → List PluginMeta → Option PluginMeta
find_meta name [] = none
find_meta name (m ∷ ms) = if m.name == name then some m else find_meta name ms

-- What a factory is given, in either form.
unfoldable pub run_factory :
    PluginFactory → JsonValue → PluginBuildContext → Result ControlError ProxyPlugin
run_factory (plain factory) cfg context = factory cfg
run_factory (with_upstreams factory) cfg context = factory cfg context

module _ (g : Gateway) where
  unfoldable pub plugin_meta : Bytes → Option PluginMeta
  unfolding find_meta
  plugin_meta name = find_meta name g.plugin_metas

  unfoldable pub validate_plugin_config : Bytes → JsonValue → Result ControlError (Unit {0})
  unfolding plugin_meta
  validate_plugin_config name cfg = elim (plugin_meta name) [
    | none ↦ err (unknown_plugin name)
    | some meta ↦ meta.validate cfg
  ]

  unfoldable pub plugin_upstream_refs : Bytes → JsonValue → Result ControlError (List Bytes)
  unfolding plugin_meta
  plugin_upstream_refs name cfg = elim (plugin_meta name) [
    | none ↦ ok []
    | some meta ↦ elim meta.upstream_refs [ none ↦ ok [] | some extract ↦ extract cfg ]
  ]

  unfoldable pub jobs_of :
      TrafficSplitOwner
      → Bytes
      → JsonValue
      → Result ControlError (List (UpstreamOccurrence × Upstream))
  unfolding plugin_meta
  jobs_of owner name cfg = elim (plugin_meta name) [
    | none ↦ ok []
    | some meta ↦ elim meta.upstream_jobs [ none ↦ ok [] | some collect ↦ collect owner cfg ]
  ]

  unfoldable pub plugin_upstream_jobs :
      TrafficSplitOwner
      → Dict Bytes JsonValue
      → Result ControlError (List (UpstreamOccurrence × Upstream))
  unfolding jobs_of
  plugin_upstream_jobs owner [] = ok []
  plugin_upstream_jobs owner ((name, cfg) ∷ plugins) = jobs_of owner name cfg >>= λ jobs.
      plugin_upstream_jobs owner plugins >>= λ rest. ok (jobs ++ rest)

  unfoldable pub build_plugin_with_upstreams :
      Bytes → JsonValue → PluginBuildContext → Result ControlError PluginEntry
  unfolding plugin_meta run_factory
  build_plugin_with_upstreams name cfg context = elim (plugin_meta name) [
    | none ↦ err (unknown_plugin name)
    | some meta ↦ run_factory meta.factory cfg context >>= λ plugin.
        ok (record { plugin = plugin; phases = meta.phases })
  ]

  -- An upstream without an id is given one.
  unfoldable pub with_id : Upstream → ℕ → Upstream
  with_id upstream prepared =
      if upstream.id == []
      then record upstream { id = codes "inline_" ++ g.new_uuid prepared }
      else upstream

  -- `ProxyUpstream::build`
  unfoldable pub build_upstream : Upstream → ℕ → Result String ProxyUpstream
  unfolding with_id
  build_upstream upstream prepared = g.from_prepared (with_id upstream prepared) prepared >>= λ lb.
      ok (record { inner = with_id upstream prepared; allocation = lb })
