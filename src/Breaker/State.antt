-- ===== src/Breaker/State.antt =====
-- The state of one route: how responses count, and when requests are refused. Instants count
-- nanoseconds, and the counters are `u32`.
use Prim.Native.Nat.{min, max}
use pingsix.Prelude.{
  ℕ, ◌+◌, ◌*◌, ◌/◌, ◌%◌, ◌^◌, Bool, false, ◌&&◌, Option, none, some, is_some, leb, if◌then◌else◌,
  ◌==◌, nat_eq,
}
use pingsix.Status.{nanos_per_sec}
use pingsix.Breaker.Config.{PluginConfig}

pub record BreakerState : Type 0 where
  pub unhealthy_count : ℕ
  pub healthy_count : ℕ
  pub lasttime : Option ℕ

-- `BreakerState::default`
abbrev pub closed : BreakerState
closed = record { unhealthy_count = 0; healthy_count = 0; lasttime = none }

-- `MAX_EXPONENT`
abbrev pub max_exponent : ℕ
max_exponent = 30

-- In seconds; the shift by at most `MAX_EXPONENT` does not overflow a `u64`.
unfoldable pub breaker_secs : ℕ → ℕ → ℕ → ℕ
breaker_secs unhealthy_count failures max_breaker_sec =
    let failure_times = min (max (unhealthy_count / max failures 1) 1) max_exponent in
    min (2 ^ failure_times) max_breaker_sec

-- The rest of `is_open`, at the entry of the key.
unfoldable pub state_is_open : PluginConfig → ℕ → BreakerState → Bool
unfolding breaker_secs
state_is_open config now state = elim state.lasttime [
  | none ↦ false
  | some lasttime ↦
      let window =
        breaker_secs state.unhealthy_count config.unhealthy.failures config.max_breaker_sec in
      leb now (lasttime + window * nanos_per_sec)
]

-- The rest of `response_filter`, at the entry of the key.
unfoldable pub observe : PluginConfig → Bool → Bool → ℕ → BreakerState → BreakerState
observe config is_unhealthy is_healthy now state =
    let failed = (state.unhealthy_count + 1) % 2 ^ 32 in
    let recovered = (state.healthy_count + 1) % 2 ^ 32 in
    if is_unhealthy
    then record {
      unhealthy_count = failed;
      healthy_count = 0;
      lasttime = if failed % max config.unhealthy.failures 1 == 0 then some now else state.lasttime;
    }
    else if is_healthy && is_some state.lasttime
    then if leb (max config.healthy.successes 1) recovered
      then closed
      else record state { healthy_count = recovered }
    else state
