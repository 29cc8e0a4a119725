-- ===== src/Control/SplitLocal.antt =====
-- `traffic-split` reads only the upstreams that it declares to refer to (plugins/traffic_split.rs),
-- so that the gateways that have it fulfil what the incremental compilation asks of a plugin.
use pingsix.Prelude.{
  ℕ, suc, ◌≡◌, refl, Option, none, some, List, [], ◌∷◌, Bytes, bytes_eq, arith, codes, nat_eq,
}
use pingsix.Prelude.Dict.{Dict, lookup}
use mathlib.Core.Option.{some-injective}
use pingsix.Graph.{ok}
use pingsix.Control.Config.{JsonValue, Upstream}
use pingsix.Control.Registry.{
  ProxyUpstream, PluginBuildContext, with_upstreams, PluginMeta, Gateway, run_factory,
}
use pingsix.Control.TrafficSplit.{
  WeightedUpstream, MatchRule, Readings, rule_ids, all_ids, named_upstream_ids,
  validate_traffic_split_config, inline_upstream_jobs, target_of, compile_targets, compile_rule,
  compile_rules, create_traffic_split,
}
use pingsix.Control.Sections.{through, ok_inj}
use pingsix.Control.Locality.{Agree, Agree-append, IsLocal, meta_refs}

module _ (g : Gateway) (context : PluginBuildContext) (vs : Dict Bytes ProxyUpstream) where
  abbrev other_context : PluginBuildContext
  other_context = record context { upstreams = vs }

  target_of-local :
      (rule index : ℕ) (id : Option Bytes) (inline : Option Upstream)
      → ((i : Bytes) → id ≡ some i → lookup i context.upstreams ≡ lookup i vs)
      → target_of g context rule index id inline ≡ target_of g other_context rule index id inline
  unfolding target_of
  target_of-local rule index (some id) (some u) h = refl
  target_of-local rule index (some id) none h = rw (h id refl) refl
  target_of-local rule index none (some u) h = refl
  target_of-local rule index none none h = refl

  direct_agrees :
      (id : Option Bytes) (rest : List Bytes)
      → Agree (elim id [ none ↦ rest | some i ↦ i ∷ rest ]) context.upstreams vs
      → ((i : Bytes) → id ≡ some i → lookup i context.upstreams ≡ lookup i vs)
        × Agree rest context.upstreams vs
  direct_agrees none rest h = (λ i e. absurd (ground arith), h)
  direct_agrees (some j) rest (p, h) = (λ i e. (rw (some-injective j i e) at p), h)

  compile_targets-local :
      (rule index : ℕ) (ws : List WeightedUpstream)
      → Agree (rule_ids ws) context.upstreams vs
      → compile_targets g context rule index ws ≡ compile_targets g other_context rule index ws
  unfolding compile_targets rule_ids
  compile_targets-local rule index [] agree = refl
  compile_targets-local rule index (w ∷ ws) agree =
      let (direct, rest) = direct_agrees w.upstream_id (rule_ids ws) agree in
      rw
        (
          target_of-local rule index w.upstream_id w.upstream direct,
          compile_targets-local rule (suc index) ws rest,
        )
        refl

  compile_rules-local :
      (index : ℕ) (rules : List MatchRule)
      → Agree (all_ids rules) context.upstreams vs
      → compile_rules g context index rules ≡ compile_rules g other_context index rules
  unfolding compile_rules all_ids compile_rule
  compile_rules-local index [] agree = refl
  compile_rules-local index (r ∷ rules) agree =
      let (left, right) =
        Agree-append (rule_ids r.weighted_upstreams) (all_ids rules) context.upstreams vs agree in
      rw
        (
          compile_rules-local (suc index) rules right,
          compile_targets-local index 0 r.weighted_upstreams left,
        )
        refl

-- The plugin built from a configuration, or the error, is the same in two contexts that differ only in
-- their upstreams and agree on those that the configuration names.
pub create_traffic_split-local :
    (g : Gateway) (readings : Readings) (cfg : JsonValue) (ids : List Bytes)
    (context : PluginBuildContext) (vs : Dict Bytes ProxyUpstream)
    → named_upstream_ids readings cfg ≡ ok ids
    → Agree ids context.upstreams vs
    → create_traffic_split g readings cfg context
      ≡ create_traffic_split g readings cfg (record context { upstreams = vs })
unfolding named_upstream_ids create_traffic_split
create_traffic_split-local g readings cfg ids context vs h agree =
    through (readings.deserialize cfg) _ h λ rules parsed named.
      let split : Agree (all_ids rules) context.upstreams vs = rw (ok_inj named) agree in
      rw (create_traffic_split, parsed, compile_rules-local g context vs 0 rules split) refl

-- The entry of `PLUGIN_META`; phase `REQUEST` is bit 1.
unfoldable pub traffic_split_meta : Gateway → Readings → PluginMeta
unfolding validate_traffic_split_config named_upstream_ids inline_upstream_jobs create_traffic_split
traffic_split_meta g readings = record {
  name = codes "traffic-split";
  phases = 2;
  factory = with_upstreams (create_traffic_split g readings);
  validate = validate_traffic_split_config readings;
  upstream_refs = some (named_upstream_ids readings);
  upstream_jobs = some (inline_upstream_jobs readings);
}

pub traffic_split_meta-IsLocal :
    (g : Gateway) (readings : Readings) → IsLocal (traffic_split_meta g readings)
unfolding IsLocal meta_refs traffic_split_meta run_factory
traffic_split_meta-IsLocal g readings cfg ids context vs =
    create_traffic_split-local g readings cfg ids context vs
