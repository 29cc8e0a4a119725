-- ===== src/Breaker/Trips.antt =====
-- When a route trips, for how long, and how it recovers.
use Prim.Native.Nat.{min, max}
use native.Mathlib.Nat.{mod-eq_of_lt, mod_self, div_self}
use pingsix.Prelude.{
  ℕ, zero, suc, ◌+◌, ◌*◌, ◌/◌, ◌%◌, ◌^◌, ◌≤◌, ◌<◌, ◌≡◌, refl, ◌++◌, ◌∙◌, true, false, none, some,
  List, [], ◌∷◌, length, leb, nat_eq, arith,
}
use pingsix.Status.{nanos_per_sec}
use pingsix.Breaker.Config.{PluginConfig}
use pingsix.Breaker.State.{BreakerState, breaker_secs, state_is_open, observe}

-- The state after unhealthy responses, and after healthy ones, at these instants.
unfoldable pub failing : PluginConfig → List ℕ → BreakerState → BreakerState
unfolding observe
failing config [] s = s
failing config (now ∷ ts) s = failing config ts (observe config true false now s)

unfoldable pub recovering : PluginConfig → List ℕ → BreakerState → BreakerState
unfolding observe
recovering config [] s = s
recovering config (now ∷ ts) s = recovering config ts (observe config false true now s)

two_le_pow : (n : ℕ) → 1 ≤ n → 2 ≤ 2 ^ n
two_le_pow zero h = absurd (omega arith)
two_le_pow (suc zero) h = omega arith
two_le_pow (suc (suc n)) h = omega (arith, two_le_pow (suc n) (omega arith))

-- The window is of two seconds at least, and of the configured maximum at most, however many
-- responses have failed.
pub breaker_secs_bounds :
    (count failures most : ℕ)
    → 3 ≤ most
    → (2 ≤ breaker_secs count failures most) × (breaker_secs count failures most ≤ most)
unfolding breaker_secs
breaker_secs_bounds count failures most h =
    let enough = two_le_pow (min (max (count / max failures 1) 1) 30) (omega arith) in
    (omega (arith, enough), omega arith)

small_mod : (f n : ℕ) → n < f → n % max f 1 ≡ n
small_mod f n h = mod-eq_of_lt (omega arith)

whole_mod : (f : ℕ) → 1 ≤ f → f % max f 1 ≡ 0
whole_mod f h = let e : max f 1 ≡ f = omega arith in rw e (mod_self f)

observe_below :
    (config : PluginConfig) (now : ℕ) (s : BreakerState)
    → suc s.unhealthy_count < config.unhealthy.failures
    → config.unhealthy.failures < 2 ^ 32
    → ((observe config true false now s).unhealthy_count ≡ suc s.unhealthy_count)
      × ((observe config true false now s).lasttime ≡ s.lasttime)
unfolding observe
observe_below config now s below small =
    let same : (s.unhealthy_count + 1) % 2 ^ 32 ≡ suc s.unhealthy_count = omega arith in
    (
      same,
      rw same (ground (arith, small_mod config.unhealthy.failures (suc s.unhealthy_count) below)),
    )

observe_full :
    (config : PluginConfig) (now : ℕ) (s : BreakerState)
    → suc s.unhealthy_count ≡ config.unhealthy.failures
    → config.unhealthy.failures < 2 ^ 32
    → ((observe config true false now s).unhealthy_count ≡ config.unhealthy.failures)
      × ((observe config true false now s).lasttime ≡ some now)
unfolding observe
observe_full config now s full small =
    let same : (s.unhealthy_count + 1) % 2 ^ 32 ≡ config.unhealthy.failures = omega arith in
    (same, rw same (ground (arith, whole_mod config.unhealthy.failures (omega arith))))

first_window :
    (failures most : ℕ) → 1 ≤ failures → 3 ≤ most → breaker_secs failures failures most ≡ 2
unfolding breaker_secs
first_window failures most pos h =
    let e : max failures 1 ≡ failures = omega arith in
    rw (e, div_self {n = failures} (omega arith)) (omega arith)

failing_below :
    (config : PluginConfig) (ts : List ℕ) (s : BreakerState)
    → s.unhealthy_count + length ts < config.unhealthy.failures
    → config.unhealthy.failures < 2 ^ 32
    → ((failing config ts s).unhealthy_count ≡ s.unhealthy_count + length ts)
      × ((failing config ts s).lasttime ≡ s.lasttime)
unfolding failing
failing_below config [] s below small = (omega arith, refl)
failing_below config (now ∷ ts) s below small =
    let (counted, kept) = observe_below config now s (omega arith) small in
    let (all, still) =
      failing_below config ts (observe config true false now s) (omega (arith, counted)) small in
    (omega (arith, all, counted), still ∙ kept)

failing-snoc :
    (config : PluginConfig) (ts : List ℕ) (now : ℕ) (s : BreakerState)
    → failing config (ts ++ now ∷ []) s ≡ observe config true false now (failing config ts s)
unfolding failing
failing-snoc config [] now s = refl
failing-snoc config (t ∷ ts) now s = failing-snoc config ts now (observe config true false t s)

-- A breaker that is closed, with fewer counted failures than `failures`, stays closed while more
-- unhealthy responses leave the count below `failures`; the one that makes the count `failures`
-- opens it, for two seconds and no longer.
pub failing-trips :
    (config : PluginConfig) (ts : List ℕ) (now later : ℕ) (s : BreakerState)
    → s.lasttime ≡ none
    → s.unhealthy_count + suc (length ts) ≡ config.unhealthy.failures
    → config.unhealthy.failures < 2 ^ 32
    → 3 ≤ config.max_breaker_sec
    → (state_is_open config later (failing config ts s) ≡ false)
      × (state_is_open config later (failing config (ts ++ now ∷ []) s)
          ≡ leb later (now + 2 * nanos_per_sec))
unfolding state_is_open
failing-trips config ts now later s untripped full small most =
    let (counted, kept) = failing_below config ts s (omega arith) small in
    (
      ground (arith, kept, untripped),
      rw (failing-snoc config ts now s) (
          let (count, tripped) =
            observe_full config now (failing config ts s) (omega (arith, counted)) small in
          let window =
            first_window config.unhealthy.failures config.max_breaker_sec (omega arith) most in
          ground (arith, count, tripped, window)),
    )
