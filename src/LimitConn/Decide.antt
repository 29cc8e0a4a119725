-- ===== src/LimitConn/Decide.antt =====
-- The configuration, what it selects for a request, and the decision (limit_conn.rs). `F` is f64, and
-- `scale` is its product with a whole number.
use pingsix.Prelude.{
  ℕ, ◌+◌, ◌-◌, ◌/◌, Bool, not, ◌&&◌, ◌||◌, Option, none, some, List, [], ◌∷◌, if◌then◌else◌, ltb,
  is_nil, is_some, is_none, Bytes,
}
use pingsix.Graph.{Result, ok, err}

pub data Decision (F : Type 0) : Type 0 where
  pass : Decision F
  delay : F → Decision F
  reject : Decision F

-- `conn` and `burst` are u32 and are added as usize.
unfoldable pub decide : {F : Type 0} → (F → ℕ → F) → ℕ → ℕ → ℕ → F → Decision F
decide scale count conn burst unit_delay =
    if ltb (conn + burst) count
    then reject
    else if ltb conn count
    then delay (scale unit_delay ((count - 1) / conn))
    else pass

pub record ConnRule : Type 0 where
  pub conn : ℕ
  pub burst : ℕ
  pub key : Bytes

-- The fields that the functions below read.
pub record PluginConfig : Type 0 where
  pub conn : Option ℕ
  pub burst : ℕ
  pub key : Option Bytes
  pub rules : List ConnRule
  pub allow_degradation : Bool
  pub only_use_default_delay : Bool

pub data ShapeError : Type 0 where
  both neither apart : ShapeError

unfoldable pub validate_limit_conn_shape : PluginConfig → Result ShapeError (Unit {0})
validate_limit_conn_shape config =
    let main_configured = is_some config.conn || is_some config.key in
    let rules_configured = not (is_nil config.rules) in
    if main_configured && rules_configured
    then err both
    else if not main_configured && not rules_configured
    then err neither
    else if main_configured && (is_none config.conn || is_none config.key)
    then err apart
    else ok tt

pub record LimitSelection : Type 0 where
  pub key : Bytes
  pub conn : ℕ
  pub burst : ℕ

-- The keys of the rules that a request resolves, with `select_rules` of limiting.rs: `resolve` is
-- `resolve_rule_key`, which reads the request.
unfoldable pub matching_rules : (Bytes → Option Bytes) → List ConnRule → List LimitSelection
matching_rules resolve [] = []
matching_rules resolve (rule ∷ rules) =
    let rest = matching_rules resolve rules in
    elim (resolve rule.key) [
      | none ↦ rest
      | some key ↦ record { key = key; conn = rule.conn; burst = rule.burst } ∷ rest
    ]

unfoldable pub select_limits :
    (Bytes → Option Bytes) → (Bytes → Bytes) → PluginConfig → Option (List LimitSelection)
unfolding matching_rules
select_limits resolve apisix_key config =
    let selected = matching_rules resolve config.rules in
    let main : Option (List LimitSelection) = elim config.conn [
      | none ↦ none
      | some conn ↦ elim config.key [
        | none ↦ none
        | some key ↦ some (record { key = apisix_key key; conn = conn; burst = config.burst } ∷ [])
      ]
    ] in
    if not (is_nil config.rules) then (if is_nil selected then none else some selected) else main
