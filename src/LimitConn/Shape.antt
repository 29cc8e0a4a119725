-- ===== src/LimitConn/Shape.antt =====
-- The decision and the shape of the configuration.
use pingsix.Prelude.{
  ℕ, ◌+◌, ◌-◌, ◌*◌, ◌/◌, ◌≤◌, ◌<◌, ◌≡◌, ◌⊎◌, ◌↔◌, true, false, Option, none, List, [], ◌∷◌, is_nil,
  is_some, leb, ltb, All, arith, inl, inr, Option-cases, Bool-cases, Bytes,
}
use native.Mathlib.Nat.{le-div_iff_mul-le}
use pingsix.Graph.{ok}
use pingsix.LimitConn.Decide.{
  pass, delay, reject, decide, PluginConfig, ConnRule, validate_limit_conn_shape, matching_rules,
  select_limits,
}

one_div : (a b : ℕ) → 0 < b → b ≤ a → 0 < a / b
one_div a b h l = (le-div_iff_mul-le h).1 (omega arith)

div_mono : (a b c : ℕ) → 0 < c → a ≤ b → a / c ≤ b / c
div_mono a b c h l =
    let low : a / c * c ≤ a = (le-div_iff_mul-le h).0 (omega arith) in
    (le-div_iff_mul-le h).1 (omega arith)

-- With one at least that passes at once, a request passes exactly up to `conn`, is refused exactly above
-- `conn + burst`, and in between is delayed by a positive multiple of the unit delay, at most the
-- multiple of the last request that is let through.
pub decide-cases :
    {F : Type 0} (scale : F → ℕ → F) (count conn burst : ℕ) (unit_delay : F)
    → 0 < conn
    → ((decide scale count conn burst unit_delay ≡ pass) ↔ (count ≤ conn))
      × ((decide scale count conn burst unit_delay ≡ reject) ↔ (conn + burst < count))
      × ((count ≤ conn)
          ⊎ (conn + burst < count)
          ⊎ ((n : ℕ) × (decide scale count conn burst unit_delay ≡ delay (scale unit_delay n))
              × (0 < n)
              × (n ≤ (conn + burst - 1) / conn)))
unfolding decide
decide-cases scale count conn burst unit_delay h = (
  ground arith,
  ground arith,
  elim (Bool-cases (leb count conn)) [
    | inl few ↦ inl (ground arith)
    | inr more ↦ elim (Bool-cases (ltb (conn + burst) count)) [
      | inl over ↦ inr (inl (ground arith))
      | inr within ↦
          let above : conn ≤ count - 1 = ground arith in
          let below : count - 1 ≤ conn + burst - 1 = ground arith in
          inr (
            inr (
              (count - 1) / conn,
              ground arith,
              one_div (count - 1) conn h above,
              div_mono (count - 1) (conn + burst - 1) conn h below,
            ))
    ]
  ],
)

-- The configurations of an accepted shape have either `conn` and `key` and no rules, or rules and
-- neither of the two.
pub validate_limit_conn_shape_iff :
    (config : PluginConfig)
    → (validate_limit_conn_shape config ≡ ok tt) ↔ (
        ((is_nil config.rules ≡ true) × (is_some config.conn ≡ true) × (is_some config.key ≡ true))
        ⊎ ((is_nil config.rules ≡ false) × (config.conn ≡ none) × (config.key ≡ none)))
unfolding validate_limit_conn_shape
validate_limit_conn_shape_iff config = ground arith

abbrev pub IsSkipped : (Bytes → Option Bytes) → ConnRule → Type 0
IsSkipped resolve rule = resolve rule.key ≡ none

matching_rules-nil :
    (resolve : Bytes → Option Bytes) (rules : List ConnRule)
    → (is_nil (matching_rules resolve rules) ≡ true) ↔ All (IsSkipped resolve) rules
unfolding matching_rules
matching_rules-nil resolve [] = ground arith
matching_rules-nil resolve (rule ∷ rules) = elim (Option-cases (resolve rule.key)) [
  | inl e ↦ ground (arith, matching_rules-nil resolve rules)
  | inr (key, e) ↦ ground arith
]

-- With an accepted shape, a request is without a limit exactly where there are rules and none of them
-- resolves.
pub select_limits-none :
    (resolve : Bytes → Option Bytes) (apisix_key : Bytes → Bytes) (config : PluginConfig)
    → validate_limit_conn_shape config ≡ ok tt
    → (select_limits resolve apisix_key config ≡ none)
      ↔ ((is_nil config.rules ≡ false) × All (IsSkipped resolve) config.rules)
unfolding select_limits validate_limit_conn_shape
select_limits-none resolve apisix_key config h =
    let nothing = matching_rules-nil resolve config.rules in
    elim (Bool-cases (is_nil config.rules)) [
      | inl empty ↦ elim (Option-cases config.conn) [
        | inl c ↦ absurd (ground arith)
        | inr (conn, c) ↦ elim (Option-cases config.key) [
          | inl k ↦ absurd (ground arith)
          | inr (key, k) ↦ ground arith
        ]
      ]
      | inr filled ↦ ground arith
    ]
