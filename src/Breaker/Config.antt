-- ===== src/Breaker/Config.antt =====
-- The checks of `PluginConfig::try_from` that follow serde and the derived validators.
use pingsix.Prelude.{
  ℕ, ◌≡◌, Bool, true, false, not, ◌&&◌, ◌||◌, Option, List, [], ◌∷◌, String, length, elem, is_nil,
  if◌then◌else◌, ◌==◌, nat_eq, leb, ltb, arith,
}
use pingsix.Graph.{Result, ok, err}
use pingsix.Breaker.Codes.{from_statuses, contains, contains-from_statuses}

pub record UnhealthyConf : Type 0 where
  pub http_statuses : List ℕ
  pub failures : ℕ

pub record HealthyConf : Type 0 where
  pub http_statuses : List ℕ
  pub successes : ℕ

pub record BreakHeader : Type 0 where
  pub key : String
  pub value : String

pub record PluginConfig : Type 0 where
  pub break_response_code : ℕ
  pub break_response_body : Option String
  pub break_response_headers : List BreakHeader
  -- in seconds
  pub max_breaker_sec : ℕ
  pub unhealthy : UnhealthyConf
  pub healthy : HealthyConf

-- `collect::<HashSet<_>>()`
unfoldable distinct : List ℕ → List ℕ
distinct [] = []
distinct (x ∷ xs) = let rest = distinct xs in if elem x rest then rest else x ∷ rest

-- `any` of the statuses outside of a range.
unfoldable any_outside : ℕ → ℕ → List ℕ → Bool
any_outside low high [] = false
any_outside low high (s ∷ ss) = not (leb low s && leb s high) || any_outside low high ss

unfoldable pub try_from : PluginConfig → Result String PluginConfig
unfolding distinct any_outside
try_from config =
    let bad = config.unhealthy.http_statuses in
    let good = config.healthy.http_statuses in
    if is_nil bad
      || is_nil good
      || not (length (distinct bad) == length bad)
      || not (length (distinct good) == length good)
    then err "api-breaker http_statuses must be non-empty and unique"
    else if any_outside 500 599 bad
    then err "api-breaker unhealthy.http_statuses must be in [500, 599]"
    else if any_outside 200 499 good
    then err "api-breaker healthy.http_statuses must be in [200, 499]"
    else if ltb config.unhealthy.failures 1
    then err "api-breaker unhealthy.failures must be >= 1"
    else if ltb config.healthy.successes 1
    then err "api-breaker healthy.successes must be >= 1"
    else ok config

elem-outside :
    (low high s : ℕ) (ss : List ℕ)
    → any_outside low high ss ≡ false
    → elem s ss ≡ true
    → (leb low s ≡ true) × (leb s high ≡ true)
unfolding any_outside
elem-outside low high s [] h e = absurd (ground arith)
elem-outside low high s (x ∷ ss) h e = ground (arith, elem-outside low high s ss)

-- In a configuration that is accepted no status is both healthy and unhealthy, each bit set is its
-- list, and both thresholds are positive.
pub try_from-sets :
    (config accepted : PluginConfig) (status : ℕ)
    → try_from config ≡ ok accepted
    → (accepted ≡ config)
      × ((contains (from_statuses accepted.unhealthy.http_statuses) status
            && contains (from_statuses accepted.healthy.http_statuses) status)
          ≡ false)
      × (contains (from_statuses accepted.unhealthy.http_statuses) status
          ≡ elem status accepted.unhealthy.http_statuses)
      × (contains (from_statuses accepted.healthy.http_statuses) status
          ≡ elem status accepted.healthy.http_statuses)
      × (leb 1 accepted.unhealthy.failures ≡ true)
      × (leb 1 accepted.healthy.successes ≡ true)
unfolding try_from
try_from-sets config accepted status h =
    let bad = config.unhealthy.http_statuses in
    let good = config.healthy.http_statuses in
    let same : accepted ≡ config = ground arith in
    rw same (
      ground (
        arith,
        contains-from_statuses bad status,
        contains-from_statuses good status,
        elem-outside 500 599 status bad,
        elem-outside 200 499 status good,
      ))
