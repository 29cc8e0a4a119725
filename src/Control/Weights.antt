-- ===== src/Control/Weights.antt =====
-- The weights of a compiled `traffic-split` rule (plugins/traffic_split.rs).
use pingsix.Prelude.{
  ℕ, suc, ◌+◌, ◌-◌, ◌^◌, ◌<◌, ◌≡◌, refl, sym, ap, ◌∙◌, inl, inr, Bool, true, false, some,
  Bool-cases, List, [], ◌∷◌, ◌++◌, if◌then◌else◌, ◌==◌, nat_eq, ltb, arith, All, is_nil,
}
use pingsix.Graph.{Result, ok, err}
use pingsix.Control.Config.{JsonValue, ControlError}
use pingsix.Control.Registry.{
  WeightedTarget, CompiledRule, split_state, ProxyPlugin, PluginBuildContext, Gateway,
}
use pingsix.Control.TrafficSplit.{
  WeightedUpstream, MatchRule, Readings, add_weights, target_of, compile_targets, compile_rule,
  compile_rules, create_traffic_split, pick_target, pick_upstream,
}
use pingsix.Control.Sections.{through, ok_inj}

-- A guard that did not fail
not_err :
    {A : Type 0} (b : Bool) (e : ControlError) (r : Result ControlError A) {a : A}
    → (if b then err e else r) ≡ ok a
    → (b ≡ false) × (r ≡ ok a)
not_err true e r h = absurd (ground arith)
not_err false e r h = (refl, h)

-- The weights of the targets together
abbrev pub weight_of : List (ℕ × WeightedTarget) → ℕ
weight_of [] = 0
weight_of ((w, _) ∷ targets) = w + weight_of targets

-- A draw that falls into the share of a target picks it.
pub pick_target-share :
    (before : List (ℕ × WeightedTarget)) (w : ℕ) (target : WeightedTarget)
    (behind : List (ℕ × WeightedTarget)) (n : ℕ)
    → n < w
    → pick_target (weight_of before + n) (before ++ (w, target) ∷ behind) ≡ some target
unfolding pick_target
pick_target-share [] w target behind n h = ground arith
pick_target-share ((v, t) ∷ before) w target behind n h =
    let rest = pick_target-share before w target behind n h in ground (arith, rest)

-- A draw below the total picks some target.
pick_target-some :
    (targets : List (ℕ × WeightedTarget)) (n : ℕ)
    → n < weight_of targets
    → (t : WeightedTarget) × (pick_target n targets ≡ some t)
unfolding pick_target
pick_target-some [] n h = absurd (omega arith)
pick_target-some ((w, t) ∷ targets) n h = elim (Bool-cases (ltb n w)) [
  | inl here ↦ (t, ground arith)
  | inr past ↦
      let (u, found) = pick_target-some targets (n - w) (ground arith) in (u, ground (arith, found))
]

-- A checked sum is the sum, and fits 64 bits.
add_weights-ok :
    (g : Gateway) (context : PluginBuildContext) (rule index acc total : ℕ)
    (ws : List WeightedUpstream) (targets : List (ℕ × WeightedTarget))
    → add_weights acc ws ≡ ok total
    → compile_targets g context rule index ws ≡ ok targets
    → acc < 2 ^ 64
    → (total ≡ acc + weight_of targets) × (total < 2 ^ 64)
unfolding add_weights compile_targets
add_weights-ok g context rule index acc total [] targets h k small =
    let none_left : [] ≡ targets = ok_inj k in
    let same : acc ≡ total = ok_inj h in (rw (sym none_left) (omega arith), omega arith)
add_weights-ok g context rule index acc total (w ∷ ws) targets h k small =
    through (target_of g context rule index w.upstream_id w.upstream) _ k λ t _ k₁.
      through (compile_targets g context rule (suc index) ws) _ k₁ λ rest done last.
        elim (Bool-cases (ltb (acc + w.weight) (2 ^ 64))) [
          | inl fits ↦
              let (total_is, below) =
                add_weights-ok g context rule (suc index) (acc + w.weight) total ws rest
                  (ground arith) done (ground arith) in
              (rw (sym (ok_inj last)) (omega arith), below)
          | inr over ↦ absurd (ground arith)
        ]

-- Its total is the sum of its weights, above 0 and within 64 bits.
pub record IsDrawable (r : CompiledRule) : Type 0 where
  pub total : r.total_weight ≡ weight_of r.targets
  pub positive : 0 < r.total_weight
  pub fits : r.total_weight < 2 ^ 64

compile_rule-IsDrawable :
    (g : Gateway) (context : PluginBuildContext) (index : ℕ) (rule : MatchRule) (r : CompiledRule)
    → compile_rule g context index rule ≡ ok r
    → IsDrawable r
unfolding compile_rule
compile_rule-IsDrawable g context index rule r h =
    let (_, h₁) = not_err (is_nil rule.weighted_upstreams) _ _ h in
    through (add_weights 0 rule.weighted_upstreams) _ h₁ λ total sum h₂.
      let (above, h₃) = not_err (total == 0) _ _ h₂ in
      through (compile_targets g context index 0 rule.weighted_upstreams) _ h₃ λ targets done last.
        let (is, below) =
          add_weights-ok g context index 0 0 total rule.weighted_upstreams targets sum done
            (omega arith) in
        rw (sym (ok_inj last))
          (record { total = omega (arith, is); positive = ground arith; fits = below })

compile_rules-IsDrawable :
    (g : Gateway) (context : PluginBuildContext) (index : ℕ) (rules : List MatchRule)
    (rs : List CompiledRule)
    → compile_rules g context index rules ≡ ok rs
    → All IsDrawable rs
unfolding compile_rules
compile_rules-IsDrawable g context index [] rs h = rw (sym (ok_inj h)) tt
compile_rules-IsDrawable g context index (rule ∷ rules) rs h =
    through (compile_rule g context index rule) _ h λ r one h₁.
      through (compile_rules g context (suc index) rules) _ h₁ λ rest many last.
        rw (sym (ok_inj last)) (
          compile_rule-IsDrawable g context index rule r one,
          compile_rules-IsDrawable g context (suc index) rules rest many,
        )

pick_upstream-some :
    (draw : ℕ → ℕ) (r : CompiledRule)
    → ((m : ℕ) → 0 < m → draw m < m)
    → IsDrawable r
    → (t : WeightedTarget) × (pick_upstream draw r ≡ some t)
unfolding pick_upstream
pick_upstream-some draw r random drawable =
    let below : draw r.total_weight < weight_of r.targets =
      omega (arith, random r.total_weight drawable.positive, drawable.total) in
    let (t, found) = pick_target-some r.targets (draw r.total_weight) below in
    (t, ground (arith, drawable.positive))

split_inj : {rs ss : List CompiledRule} → split_state rs ≡ split_state ss → rs ≡ ss
split_inj h = cc

all_picked :
    (draw : ℕ → ℕ) (rs : List CompiledRule)
    → ((m : ℕ) → 0 < m → draw m < m)
    → All IsDrawable rs
    → All
        (λ r. (r.total_weight < 2 ^ 64) × ((t : WeightedTarget) × (pick_upstream draw r ≡ some t)))
        rs
all_picked draw [] random h = tt
all_picked draw (r ∷ rs) random (d, h) =
    ((d.fits, pick_upstream-some draw r random d), all_picked draw rs random h)

-- Where the random draw below a positive bound lies below it, each rule of a plugin that was built
-- has a total weight that fits 64 bits, and picks some target.
pub create_traffic_split-picks :
    (g : Gateway) (readings : Readings) (cfg : JsonValue) (context : PluginBuildContext)
    (plugin : ProxyPlugin) (rules : List CompiledRule) (draw : ℕ → ℕ)
    → ((m : ℕ) → 0 < m → draw m < m)
    → create_traffic_split g readings cfg context ≡ ok plugin
    → plugin.state ≡ split_state rules
    → All
        (λ r. (r.total_weight < 2 ^ 64) × ((t : WeightedTarget) × (pick_upstream draw r ≡ some t)))
        rules
unfolding create_traffic_split
create_traffic_split-picks g readings cfg context plugin rules draw random h state =
    through (readings.deserialize cfg) _ h λ typed _ h₀.
      through (readings.validate typed) _ h₀ λ _ _ h₁.
        let (_, h₂) = not_err (is_nil typed) _ _ h₁ in
        through (compile_rules g context 0 typed) _ h₂ λ compiled done last.
          let same : compiled ≡ rules =
            split_inj (ap (λ (p : ProxyPlugin). p.state) (ok_inj last) ∙ state) in
          all_picked draw rules random
            (rw same at (compile_rules-IsDrawable g context 0 typed compiled done))
