-- ===== src/Tests/LimitConn.antt =====
-- Two requests under a limit of one that passes and one that is delayed, with numbers for delays.
use pingsix.Prelude.{
  ℕ, ◌+◌, ◌*◌, ◌/◌, ◌%◌, ◌^◌, ◌≡◌, refl, false, Option, none, List, [], ◌∷◌, Bytes, codes,
  ℕ_discrete,
}
use pingsix.LimitConn.{
  decide, PluginConfig, validate_limit_conn_shape, select_limits, LimitSelection, System, Event,
  arrived, moved, resolved, added, dropped, released_one, run, start,
}
use pingsix.LimitConn.Released
use pingsix.LimitConn.Released.{total}

unfoldable program : Unit {0}
unfolding decide validate_limit_conn_shape select_limits run start ℕ_discrete
program = tt

abbrev scale : ℕ → ℕ → ℕ
scale unit n = unit * n

abbrev average : ℕ → Option ℕ → ℕ → ℕ
average latency slept_delay unit = (latency + unit) / 2

abbrev limit : LimitSelection
limit = record { key = codes "a"; conn = 1; burst = 1 }

-- The second sleeps and is dropped, the third is refused.
abbrev events : List (Event scale average false)
events =
    arrived (limit ∷ [])
    ∷ moved 0 (resolved 7)
    ∷ moved 0 added
    ∷ arrived (limit ∷ [])
    ∷ moved 0 (resolved 7)
    ∷ moved 0 added
    ∷ arrived (limit ∷ [])
    ∷ moved 0 (resolved 7)
    ∷ moved 0 added
    ∷ moved 1 dropped
    ∷ moved 1 (released_one 9)
    ∷ []

abbrev last : System scale average false
last = run scale average false events (start scale average false 10)

one_and_a_refusal : (last.states 7).count ≡ 2
unfolding program
one_and_a_refusal = refl

run-start_example : (last.states 7).count ≡ total 7 last.requests % 2 ^ 64
run-start_example = Released.run-start scale average false events 10 7

abbrev ruled : PluginConfig
ruled = record {
  conn = none;
  burst = 0;
  key = none;
  rules = record { conn = 2; burst = 0; key = codes "bare" } ∷ [];
  allow_degradation = false;
  only_use_default_delay = false;
}

abbrev resolve_none : Bytes → Option Bytes
resolve_none key = none

abbrev same : Bytes → Bytes
same key = key
