-- ===== src/Tests/Breaker.antt =====
-- A breaker that trips and recovers.
use pingsix.Prelude.{
  ◌≡◌, refl, true, false, none, some, [], ◌∷◌, ◌+◌, ◌*◌, leb, ◌++◌, string_eq, nat_eq, arith,
}
use pingsix.Status.{nanos_per_sec}
use pingsix.Breaker.{
  PluginConfig, try_from, contains, from_statuses, BreakerState, closed, breaker_secs,
  state_is_open,
}
use pingsix.Breaker.Trips
use pingsix.Limiter.{Shard}
use pingsix.Limiter.Sweep
use pingsix.Prelude.Dict

unfoldable program : Unit {0}
unfolding try_from contains from_statuses breaker_secs state_is_open
program = tt

abbrev config : PluginConfig
config = record {
  break_response_code = 502;
  break_response_body = none;
  break_response_headers = [];
  max_breaker_sec = 300;
  unhealthy = record { http_statuses = 500 ∷ 503 ∷ []; failures = 3 };
  healthy = record { http_statuses = 200 ∷ []; successes = 2 };
}

membership : contains (from_statuses (200 ∷ 302 ∷ 503 ∷ [])) 302 ≡ true
unfolding program
membership = refl

outside : contains (from_statuses (700 ∷ [])) 700 ≡ false
unfolding program
outside = refl

doubled : breaker_secs 6 3 300 ≡ 4
unfolding program
doubled = refl

capped : breaker_secs 10000 1 300 ≡ 300
unfolding program
capped = refl

abbrev used : Shard BreakerState
used = record {
  entries = ("r1", closed) ∷ [];
  touch_order = record { oldest = (1, "r1") ∷ []; touches = ("r1", 1) ∷ []; next_touch = 1 };
}

used-IsTracked : Sweep.IsTracked used
unfolding Dict.lookup Dict.contains_key
used-IsTracked = record {
  nodup = (refl, tt);
  indexed = record {
    sorted = tt;
    forward = λ t k h. ground arith;
    back = λ k t h. ground arith;
    fresh = λ t k h. ground arith;
  };
  same_keys = λ k. ground arith;
}

-- One failure is counted; healthy responses leave it while the breaker is closed.
abbrev counting : BreakerState
counting = record { unhealthy_count = 1; healthy_count = 0; lasttime = none }

failing-trips_example :
    (state_is_open config 40 (Trips.failing config (20 ∷ []) counting) ≡ false)
    × (state_is_open config 40 (Trips.failing config ((20 ∷ []) ++ 30 ∷ []) counting)
        ≡ leb 40 (30 + 2 * nanos_per_sec))
failing-trips_example =
    Trips.failing-trips config (20 ∷ []) 30 40 counting refl refl (omega arith) (omega arith)

abbrev tripped : BreakerState
tripped = record { unhealthy_count = 3; healthy_count = 0; lasttime = some 30 }
