-- ===== src/Control/TrafficSplit.antt =====
-- The `traffic-split` plugin (plugins/traffic_split.rs): its configuration, what it refers to, how it
-- is built and how it draws a target. The two views of its JSON, as typed rules and as the members that
-- the jobs read, are given by the JSON library, and what the validators say by theirs. Of the plugin
-- the compiled rules are kept.
use pingsix.Prelude.{
  ℕ, suc, ◌+◌, ◌-◌, ◌^◌, Option, none, some, List, [], ◌∷◌, ◌++◌, if◌then◌else◌, Bytes, bytes_eq,
  codes, nat_eq, ◌==◌, ltb, is_nil, is_some, ◌&&◌,
}
use pingsix.Prelude.Dict.{lookup}
use pingsix.Graph.{Result, ok, err, ◌>>=◌, map_err}
use pingsix.Control.Config.{
  JsonValue, Upstream, TrafficSplitOwner, UpstreamOccurrence, traffic_split, occurrence_eq,
  ControlError, missing_upstream, not_prepared, upstream_failed, other,
}
use pingsix.Control.Registry.{
  WeightedTarget, upstream_target, pass_through, CompiledRule, split_state, ProxyPlugin,
  PluginBuildContext, Gateway, build_upstream,
}
use pingsix.Control.Compiled.{required}

pub record WeightedUpstream : Type 0 where
  pub upstream_id : Option Bytes
  pub upstream : Option Upstream
  pub weight : ℕ

pub record MatchRule : Type 0 where
  pub vars : List (List Bytes)
  pub weighted_upstreams : List WeightedUpstream

-- The readings of a configuration: the typed rules, what their validators say (`config.validate()`),
-- and the `upstream` member of each entry where the arrays are there.
pub record Readings : Type 0 where
  pub deserialize : JsonValue → Result ControlError (List MatchRule)
  pub validate : List MatchRule → Result ControlError (Unit {0})
  pub raw : JsonValue → Option (List (Option (List (Option (Result ControlError Upstream)))))

-- `acc.checked_add(u64::from(item.weight))`, from the left
unfoldable pub add_weights : ℕ → List WeightedUpstream → Result ControlError ℕ
add_weights acc [] = ok acc
add_weights acc (w ∷ ws) =
    if ltb (acc + w.weight) (2 ^ 64)
    then add_weights (acc + w.weight) ws
    else err (other "traffic-split weight overflow")

-- The ids of the entries of one rule
unfoldable pub rule_ids : List WeightedUpstream → List Bytes
rule_ids [] = []
rule_ids (w ∷ ws) = elim w.upstream_id [ none ↦ rule_ids ws | some id ↦ id ∷ rule_ids ws ]

unfoldable pub all_ids : List MatchRule → List Bytes
unfolding rule_ids
all_ids [] = []
all_ids (r ∷ rs) = rule_ids r.weighted_upstreams ++ all_ids rs

unfoldable pub named_upstream_ids : Readings → JsonValue → Result ControlError (List Bytes)
unfolding all_ids
named_upstream_ids readings cfg = readings.deserialize cfg >>= λ rules. ok (all_ids rules)

-- The loops of `validate_traffic_split_config`, over the entries of a rule and over the rules
unfoldable pub check_targets : List WeightedUpstream → Result ControlError (Unit {0})
check_targets [] = ok tt
check_targets (w ∷ ws) =
    if is_some w.upstream_id && is_some w.upstream
    then err (other "traffic-split target cannot set both upstream_id and upstream")
    else check_targets ws

unfoldable pub check_rules : List MatchRule → Result ControlError (Unit {0})
unfolding add_weights check_targets
check_rules [] = ok tt
check_rules (rule ∷ rules) =
    if is_nil rule.weighted_upstreams
    then err (other "must have at least one weighted upstream")
    else (add_weights 0 rule.weighted_upstreams >>= λ total.
        if total == 0
        then err (other "must have total weight greater than 0")
        else (check_targets rule.weighted_upstreams >>= λ _. check_rules rules))

unfoldable pub validate_traffic_split_config : Readings → JsonValue → Result ControlError (Unit {0})
unfolding check_rules
validate_traffic_split_config readings cfg = readings.deserialize cfg >>= λ rules.
    readings.validate rules >>= λ _.
    if is_nil rules
    then err (other "Traffic-split plugin requires at least one rule")
    else check_rules rules

-- The entries of one rule, from an index on
unfoldable pub rule_jobs :
    TrafficSplitOwner
    → ℕ
    → ℕ
    → List (Option (Result ControlError Upstream))
    → Result ControlError (List (UpstreamOccurrence × Upstream))
rule_jobs owner rule index [] = ok []
rule_jobs owner rule index (none ∷ entries) = rule_jobs owner rule (suc index) entries
rule_jobs owner rule index (some parsed ∷ entries) = parsed >>= λ upstream.
    rule_jobs owner rule (suc index) entries >>= λ rest.
    ok ((traffic_split owner rule index, upstream) ∷ rest)

unfoldable pub rules_jobs :
    TrafficSplitOwner
    → ℕ
    → List (Option (List (Option (Result ControlError Upstream))))
    → Result ControlError (List (UpstreamOccurrence × Upstream))
unfolding rule_jobs
rules_jobs owner index [] = ok []
rules_jobs owner index (rule ∷ rules) =
    required (other "Invalid traffic-split weighted_upstreams") rule >>= λ entries.
    rule_jobs owner index 0 entries >>= λ jobs.
    rules_jobs owner (suc index) rules >>= λ rest. ok (jobs ++ rest)

unfoldable pub inline_upstream_jobs :
    Readings
    → TrafficSplitOwner
    → JsonValue
    → Result ControlError (List (UpstreamOccurrence × Upstream))
unfolding rules_jobs
inline_upstream_jobs readings owner cfg =
    required (other "Invalid traffic-split rules") (readings.raw cfg) >>= λ rules.
    rules_jobs owner 0 rules

module _ (g : Gateway) where
  -- The target of one entry
  unfoldable pub target_of :
      PluginBuildContext
      → ℕ
      → ℕ
      → Option Bytes
      → Option Upstream
      → Result ControlError WeightedTarget
  unfolding lookup build_upstream
  target_of context rule index (some id) (some upstream) =
      err (other "traffic-split target cannot set both upstream_id and upstream")
  target_of context rule index (some id) none =
      required (missing_upstream context.owner id) (lookup id context.upstreams) >>= λ found.
      ok (upstream_target found)
  target_of context rule index none (some upstream) =
      let o = traffic_split context.owner rule index in
      required (not_prepared o) (lookup o context.prepared) >>= λ material.
      map_err (upstream_failed o) (build_upstream g upstream material) >>= λ built.
      ok (upstream_target built)
  target_of context rule index none none = ok pass_through

  unfoldable pub compile_targets :
      PluginBuildContext
      → ℕ
      → ℕ
      → List WeightedUpstream
      → Result ControlError (List (ℕ × WeightedTarget))
  unfolding target_of
  compile_targets context rule index [] = ok []
  compile_targets context rule index (w ∷ ws) =
      target_of context rule index w.upstream_id w.upstream >>= λ target.
      compile_targets context rule (suc index) ws >>= λ rest. ok ((w.weight, target) ∷ rest)

  -- One rule: some entry, no overflow, and a total above 0
  unfoldable pub compile_rule :
      PluginBuildContext → ℕ → MatchRule → Result ControlError CompiledRule
  unfolding add_weights compile_targets
  compile_rule context index rule =
      if is_nil rule.weighted_upstreams
      then err (other "must have at least one weighted upstream")
      else (add_weights 0 rule.weighted_upstreams >>= λ total.
          if total == 0
          then err (other "must have total weight greater than 0")
          else (compile_targets context index 0 rule.weighted_upstreams >>= λ targets.
              ok (record { targets = targets; total_weight = total })))

  unfoldable pub compile_rules :
      PluginBuildContext → ℕ → List MatchRule → Result ControlError (List CompiledRule)
  unfolding compile_rule
  compile_rules context index [] = ok []
  compile_rules context index (rule ∷ rules) = compile_rule context index rule >>= λ compiled.
      compile_rules context (suc index) rules >>= λ rest. ok (compiled ∷ rest)

  -- `create_traffic_split_plugin_with_upstreams`; its priority is 966.
  unfoldable pub create_traffic_split :
      Readings → JsonValue → PluginBuildContext → Result ControlError ProxyPlugin
  unfolding compile_rules
  create_traffic_split readings cfg context = readings.deserialize cfg >>= λ rules.
      readings.validate rules >>= λ _.
      if is_nil rules
      then err (other "Traffic-split plugin requires at least one rule")
      else (compile_rules context 0 rules >>= λ compiled. ok (record {
        name = codes "traffic-split";
        priority = 2 ^ 31 + 966;
        state = split_state compiled;
      }))

-- The loop of `pick_upstream`, with the number that was drawn
unfoldable pub pick_target : ℕ → List (ℕ × WeightedTarget) → Option WeightedTarget
pick_target n [] = none
pick_target n ((weight, target) ∷ targets) =
    if ltb n weight then some target else pick_target (n - weight) targets

-- `pick_upstream`, where `draw` is the random number below a bound
unfoldable pub pick_upstream : (ℕ → ℕ) → CompiledRule → Option WeightedTarget
unfolding pick_target
pick_upstream draw rule =
    if rule.total_weight == 0 then none else pick_target (draw rule.total_weight) rule.targets
