-- ===== src/LimitConn/Released.antt =====
-- The counters against the guards that requests hold.
use pingsix.Prelude.{
  ℕ, zero, suc, ◌+◌, ◌-◌, ◌%◌, ◌^◌, ◌≡◌, refl, Bool, not, ◌&&◌, Option, some, List, [], ◌∷◌, ◌++◌,
  if◌then◌else◌, ◌==◌, nat_eq, get_elem?, arith, inl, inr, Option-cases,
}
use pingsix.LimitConn.Decide.{Decision, pass, delay, reject, decide, LimitSelection}
use pingsix.LimitConn.Requests.{
  ConnGuard, new_guard, fetch_add, fetch_sub, States, change, Phase, selecting, holding, sleeping,
  refused, admitted, leaving, Request, Input, resolved, added, subtracted, slept, stored, logged,
  dropped, released_one, release, leave, decided, advance, System, Event, arrived, moved,
  replace_at, step, run, start,
}

-- What a guard counts for, at a counter.
abbrev pub weight : {F : Type 0} → ℕ → ConnGuard F → ℕ
weight i g = if not g.released && g.state == i then 1 else 0

abbrev pub weights : {F : Type 0} → ℕ → List (ConnGuard F) → ℕ
weights i [] = 0
weights i (g ∷ gs) = weight i g + weights i gs

-- A guard that is not in the vector, or a slot that is about to be given back.
abbrev pub in_phase : {F : Type 0} → ℕ → Phase F → ℕ
in_phase i (sleeping g limits) = weight i g
in_phase i (refused state) = if state == i then 1 else 0
in_phase i _ = 0

abbrev pub held : {F : Type 0} → ℕ → Request F → ℕ
held i r = in_phase i r.phase + weights i r.guards

abbrev pub total : {F : Type 0} → ℕ → List (Request F) → ℕ
total i [] = 0
total i (r ∷ rs) = held i r + total i rs

weights-append :
    {F : Type 0} (i : ℕ) (gs hs : List (ConnGuard F))
    → weights i (gs ++ hs) ≡ weights i gs + weights i hs
weights-append i [] hs = omega arith
weights-append i (g ∷ gs) hs = omega (arith, weights-append i gs hs)

-- A guard that leaves gives its slot back once, whether or not it then updates the delay.
leave-count :
    {F : Type 0} (average : F → Option F → F → F) (u : Bool) (latency : F) (g : ConnGuard F)
    (states : States F) (i : ℕ)
    → (leave average u latency g states i).count ≡ (
        if not g.released && g.state == i
        then ((states i).count + (2 ^ 64 - 1)) % 2 ^ 64
        else (states i).count)
unfolding leave release change fetch_sub
leave-count average u latency g states i = ground arith

-- What holds of a counter while others hold `t` slots of it.
abbrev Counts : {F : Type 0} → ℕ → ℕ → States F → Request F → Type 0
Counts i t states r = (states i).count ≡ (held i r + t) % 2 ^ 64

mod_add : (n : ℕ) → (n % 2 ^ 64 + 1) % 2 ^ 64 ≡ (n + 1) % 2 ^ 64
mod_add n = omega arith

mod_sub : (n : ℕ) → ((n + 1) % 2 ^ 64 + (2 ^ 64 - 1)) % 2 ^ 64 ≡ n % 2 ^ 64
mod_sub n = omega arith

decided-held :
    {F : Type 0} (d : Decision F) (state i : ℕ) (limits : List LimitSelection)
    (guards : List (ConnGuard F))
    → held i (decided d state limits guards) ≡ (if i == state then 1 else 0) + weights i guards
unfolding decided new_guard
decided-held pass state i limits guards =
    ground (arith, weights-append i guards (new_guard state ∷ []))
decided-held (delay secs) state i limits guards = ground arith
decided-held reject state i limits guards = ground arith

module _ {F : Type 0} (scale : F → ℕ → F) (average : F → Option F → F → F)
    (only_use_default_delay : Bool) where
  advance-Counts :
      (p : Phase F) (input : Input F) (guards : List (ConnGuard F)) (states : States F) (i t : ℕ)
      → Counts i t states (record { phase = p; guards = guards })
      → let a = advance scale average only_use_default_delay p input guards states in
        Counts i t a.0 a.1
  unfolding advance change fetch_add fetch_sub
  advance-Counts (selecting (limit ∷ limits)) (resolved state) guards states i t h = h
  advance-Counts (selecting []) stored guards states i t h = h
  advance-Counts (holding limit state limits) added guards states i t h =
      let d =
        decide scale ((states state).count + 1) limit.conn limit.burst (states state).unit_delay in
      ground (arith, decided-held d state i limits guards, mod_add (weights i guards + t))
  advance-Counts (sleeping guard limits) slept guards states i t h =
      ground (arith, weights-append i guards (guard ∷ []))
  advance-Counts (sleeping guard limits) dropped guards states i t h = ground arith
  advance-Counts (refused state) subtracted guards states i t h =
      ground (arith, mod_sub (weights i guards + t))
  advance-Counts admitted logged guards states i t h = h
  advance-Counts admitted dropped guards states i t h = h
  advance-Counts (leaving u) (released_one latency) [] states i t h = h
  advance-Counts (leaving u) (released_one latency) (guard ∷ guards) states i t h =
      ground (arith, leave-count average u latency guard states i, mod_sub (weights i guards + t))
  advance-Counts _ _ guards states i t h = h

  -- A request apart from the others.
  total-replace :
      (i k : ℕ) (r r' : Request F) (rs : List (Request F))
      → get_elem? rs k ≡ some r
      → (t : ℕ) × (total i rs ≡ held i r + t)
        × (total i (replace_at scale average only_use_default_delay k r' rs) ≡ held i r' + t)
  unfolding replace_at
  total-replace i k r r' [] h = absurd (ground arith)
  total-replace i zero r r' (x ∷ rs) h = (total i rs, ground arith, ground arith)
  total-replace i (suc k) r r' (x ∷ rs) h =
      let (t, old, new) = total-replace i k r r' rs h in (held i x + t, omega arith, omega arith)

  step-total :
      (e : Event scale average only_use_default_delay)
      (s : System scale average only_use_default_delay) (i : ℕ)
      → (s.states i).count ≡ total i s.requests % 2 ^ 64
      → ((step scale average only_use_default_delay e s).states i).count
        ≡ total i (step scale average only_use_default_delay e s).requests % 2 ^ 64
  unfolding step
  step-total (arrived limits) s i h = ground arith
  step-total (moved k input) s i h = elim (Option-cases (get_elem? s.requests k)) [
    | inl e ↦ ground arith
    | inr (r, e) ↦
        let a = advance scale average only_use_default_delay r.phase input r.guards s.states in
        let (t, old, new) = total-replace i k r a.1 s.requests e in
        let before : (s.states i).count ≡ (held i r + t) % 2 ^ 64 = ground arith in
        let after = advance-Counts r.phase input r.guards s.states i t before in ground arith
  ]

  run-total :
      (es : List (Event scale average only_use_default_delay))
      (s : System scale average only_use_default_delay) (i : ℕ)
      → (s.states i).count ≡ total i s.requests % 2 ^ 64
      → ((run scale average only_use_default_delay es s).states i).count
        ≡ total i (run scale average only_use_default_delay es s).requests % 2 ^ 64
  unfolding run
  run-total [] s i h = h
  run-total (e ∷ es) s i h =
      run-total es (step scale average only_use_default_delay e s) i (step-total e s i h)

  -- After any interleaving of requests, however each ends, a counter is the number of slots that
  -- requests hold at it: guards that are not released, and refusals that are about to give their slot
  -- back. Whatever the shard map answers, a slot is neither leaked nor given back twice.
  pub run-start :
      (es : List (Event scale average only_use_default_delay)) (default_conn_delay : F) (i : ℕ)
      → let s =
          run scale average only_use_default_delay es
            (start scale average only_use_default_delay default_conn_delay) in
        (s.states i).count ≡ total i s.requests % 2 ^ 64
  unfolding start
  run-start es default_conn_delay i = run-total es _ i refl
