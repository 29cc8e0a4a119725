-- ===== src/LimitConn/Requests.antt =====
-- Requests under the limit (limit_conn.rs): the counters, the guards, and what a request does between
-- two points where another can come between. A counter is a number, and one that is not yet made has
-- no requests and the default delay; which counter the shard map answers, an old or a new one, is an
-- input, so that whatever the map evicts is covered. `average` is the mean of a latency, less the
-- delay slept, and the unit delay.
use pingsix.Prelude.{
  ℕ, zero, suc, ◌+◌, ◌-◌, ◌%◌, ◌^◌, Bool, true, false, not, Option, none, some, List, [], ◌∷◌, ◌++◌,
  if◌then◌else◌, ◌==◌, nat_eq, get_elem?,
}
use pingsix.LimitConn.Decide.{Decision, pass, delay, reject, decide, LimitSelection}

-- `AtomicUsize`, on 64 bits, and the mutex.
pub record ConnState (F : Type 0) : Type 0 where
  pub count : ℕ
  pub unit_delay : F

-- The start of its clock is in the latency that its release reads.
pub record ConnGuard (F : Type 0) : Type 0 where
  pub state : ℕ
  pub slept_delay : Option F
  pub released : Bool

unfoldable pub new_guard : {F : Type 0} → ℕ → ConnGuard F
new_guard state = record { state = state; slept_delay = none; released = false }

unfoldable pub fetch_add : {F : Type 0} → ConnState F → ConnState F
fetch_add s = record s { count = (s.count + 1) % 2 ^ 64 }

unfoldable pub fetch_sub : {F : Type 0} → ConnState F → ConnState F
fetch_sub s = record s { count = (s.count + (2 ^ 64 - 1)) % 2 ^ 64 }

abbrev pub States : Type 0 → Type 0
States F = ℕ → ConnState F

unfoldable pub change : {F : Type 0} → (ConnState F → ConnState F) → ℕ → States F → States F
change f i states j = if j == i then f (states j) else states j

pub data Phase (F : Type 0) : Type 0 where
  -- at the head of the loop, with the limits that are left
  selecting : List LimitSelection → Phase F
  -- with the counter of a limit, before `fetch_add`
  holding : LimitSelection → ℕ → List LimitSelection → Phase F
  -- in `sleep`, with the guard that is not yet in the vector
  sleeping : ConnGuard F → List LimitSelection → Phase F
  -- refused, before `fetch_sub`
  refused : ℕ → Phase F
  -- the vector is in the context
  admitted : Phase F
  -- the guards leave or are dropped, with whether they update the delay
  leaving : Bool → Phase F
  finished : Phase F

pub record Request (F : Type 0) : Type 0 where
  pub phase : Phase F
  pub guards : List (ConnGuard F)

pub data Input (F : Type 0) : Type 0 where
  -- the shard map answers
  resolved : ℕ → Input F
  -- `fetch_add`, `fetch_sub`, and the end of a sleep and of the loop
  added subtracted slept stored : Input F
  -- the hook `logging` takes the vector out of the context; or the future or the context is dropped
  logged dropped : Input F
  -- the next guard goes, at the latency that its clock reads
  released_one : F → Input F

-- `ConnGuard::release`
unfoldable pub release :
    {F : Type 0}
    → (F → Option F → F → F)
    → Bool
    → F
    → ConnGuard F
    → States F
    → ConnGuard F × States F
unfolding change fetch_sub
release average update_delay latency g states = if g.released then (g, states) else (
  record g { released = true },
  change
      (λ s. record (fetch_sub s) {
        unit_delay =
            if update_delay then average latency g.slept_delay s.unit_delay else s.unit_delay;
      })
      g.state states,
)

-- `ConnGuard::leave`, at whose end the guard is dropped. A drop alone is the same with no update.
unfoldable pub leave :
    {F : Type 0} → (F → Option F → F → F) → Bool → F → ConnGuard F → States F → States F
unfolding release
leave average update_delay latency g states =
    let r = release average update_delay latency g states in
    (release average false latency r.0 r.1).1

-- The arms of the `match` on the decision.
unfoldable pub decided :
    {F : Type 0} → Decision F → ℕ → List LimitSelection → List (ConnGuard F) → Request F
unfolding new_guard
decided pass state limits guards = record {
  phase = selecting limits;
  guards = guards ++ new_guard state ∷ [];
}
decided (delay secs) state limits guards = record {
  phase = sleeping (record (new_guard state) { slept_delay = some secs }) limits;
  guards = guards;
}
decided reject state limits guards = record { phase = refused state; guards = guards }

module _ {F : Type 0} (scale : F → ℕ → F) (average : F → Option F → F → F)
    (only_use_default_delay : Bool) where
  -- `request_filter` and `logging`; an input that the phase does not await changes nothing.
  unfoldable pub advance : Phase F → Input F → List (ConnGuard F) → States F → States F × Request F
  unfolding change fetch_add fetch_sub decided decide leave
  advance (selecting (limit ∷ limits)) (resolved state) guards states =
      (states, record { phase = holding limit state limits; guards = guards })
  advance (selecting []) stored guards states =
      (states, record { phase = admitted; guards = guards })
  advance (holding limit state limits) added guards states =
      let s = states state in
      (
        change fetch_add state states,
        decided (decide scale (s.count + 1) limit.conn limit.burst s.unit_delay) state limits
            guards,
      )
  advance (sleeping guard limits) slept guards states =
      (states, record { phase = selecting limits; guards = guards ++ guard ∷ [] })
  advance (sleeping guard limits) dropped guards states =
      (states, record { phase = leaving false; guards = guard ∷ guards })
  advance (refused state) subtracted guards states =
      (change fetch_sub state states, record { phase = leaving false; guards = guards })
  advance admitted logged guards states =
      (states, record { phase = leaving (not only_use_default_delay); guards = guards })
  advance admitted dropped guards states =
      (states, record { phase = leaving false; guards = guards })
  advance (leaving update_delay) (released_one latency) [] states =
      (states, record { phase = finished; guards = [] })
  advance (leaving update_delay) (released_one latency) (guard ∷ guards) states = (
    leave average update_delay latency guard states,
    record { phase = leaving update_delay; guards = guards },
  )
  advance p i guards states = (states, record { phase = p; guards = guards })

  pub record System : Type 0 where
    pub states : States F
    pub requests : List (Request F)

  pub data Event : Type 0 where
    -- a request arrives, with the limits that it selects
    arrived : List LimitSelection → Event
    -- a request moves, by its place among those that have arrived, the last first
    moved : ℕ → Input F → Event

  unfoldable pub replace_at : ℕ → Request F → List (Request F) → List (Request F)
  replace_at i r [] = []
  replace_at zero r (x ∷ xs) = r ∷ xs
  replace_at (suc i) r (x ∷ xs) = x ∷ replace_at i r xs

  unfoldable pub step : Event → System → System
  unfolding advance replace_at
  step (arrived limits) s = record s {
    requests = record { phase = selecting limits; guards = [] } ∷ s.requests;
  }
  step (moved i input) s = elim (get_elem? s.requests i) [
    | none ↦ s
    | some r ↦
        let a = advance r.phase input r.guards s.states in
        record { states = a.0; requests = replace_at i a.1 s.requests }
  ]

  unfoldable pub run : List Event → System → System
  unfolding step
  run [] s = s
  run (e ∷ es) s = run es (step e s)

  unfoldable pub start : F → System
  start default_conn_delay = record {
    states = λ i. record { count = 0; unit_delay = default_conn_delay };
    requests = [];
  }
