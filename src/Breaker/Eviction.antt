-- ===== src/Breaker/Eviction.antt =====
-- The map of the breaker states: its bound, and whose state goes.
use pingsix.Prelude.{
  ℕ, ◌≤◌, ◌<◌, ◌≡◌, refl, dec_lt, ◌∙◌, ◌⊎◌, inl, inr, true, false, none, some, [], ◌∷◌, String,
  length, if◌then◌else◌, ◌==◌, nat_eq, string_eq, Bool-cases, Option-cases, arith,
}
use pingsix.Prelude.Dict
use pingsix.Prelude.Ordered
use pingsix.Limiter.{Shard, evict_oldest, touch, or_insert}
use pingsix.Limiter.Index.{HasTokens}
use pingsix.Limiter.Sweep.{IsTracked, pop_oldest-cases, evicted, evicted-IsTracked}
use pingsix.Limiter.Capacity.{touched-IsTracked}
use pingsix.Breaker.State.{BreakerState, closed}
use pingsix.Breaker.States.{max_breaker_keys, make_room, entry, state_of}

-- A tracked key that has the least token of all.
abbrev pub IsOldest : String → Shard BreakerState → Type 0
IsOldest key s =
    (t : ℕ) × (Dict.lookup key s.touch_order.touches ≡ some t)
    × ((k : String) (u : ℕ) → Dict.lookup k s.touch_order.touches ≡ some u → t ≤ u)

above_least :
    (t u : ℕ) (key : String) {v : String} (rest : Dict.Dict ℕ String)
    → Ordered.IsAbove t rest
    → Dict.lookup u ((t, key) ∷ rest) ≡ some v
    → t ≤ u
unfolding Dict.lookup
above_least t u key rest h found = ground (arith, Ordered.lookup-IsAbove t u rest h)

evict_oldest-cases :
    (s : Shard BreakerState)
    → IsTracked s
    → ((s.touch_order.oldest ≡ []) × (evict_oldest s ≡ s))
      ⊎ ((t : ℕ) × (key : String) × (rest : Dict.Dict ℕ String) × (s.touch_order.oldest
            ≡ (t, key) ∷ rest)
          × (evict_oldest s ≡ evicted key rest s)
          × IsOldest key s)
unfolding evict_oldest
evict_oldest-cases s h = elim (pop_oldest-cases s.touch_order) [
  | inl (e, none_left) ↦ inl (e, rw (evict_oldest, none_left))
  | inr (t, key, rest, e, head) ↦ inr (
    t,
    key,
    rest,
    e,
    rw (evict_oldest, head),
    (
      t,
      h.indexed.forward t key (rw e (unfold Dict.lookup in ground arith)),
      λ k u found.
          above_least t u key rest (rw e at h.indexed.sorted) (rw e at (h.indexed.back k u found)),
    ),
  )
]

some_key :
    (d : Dict.Dict String BreakerState)
    → (length d ≡ 0) ⊎ ((k : String) × (Dict.contains_key k d ≡ true))
unfolding Dict.contains_key Dict.lookup
some_key [] = inl refl
some_key ((k, _) ∷ d) = inr (k, ground arith)

-- A shard with entries has an oldest one.
oldest_exists :
    (s : Shard BreakerState) → IsTracked s → s.touch_order.oldest ≡ [] → length s.entries ≡ 0
oldest_exists s h e = elim (some_key s.entries) [
  | inl empty ↦ empty
  | inr (k, held) ↦ elim (Option-cases (Dict.lookup k s.touch_order.touches)) [
    | inl untracked ↦ absurd (ground (arith, h.same_keys k))
    | inr (t, tracked) ↦
        absurd
          (ground (arith, Dict.lookup-nil {V = String} t, rw e at (h.indexed.back k t tracked)))
  ]
]

-- The three ways to make room: none is needed, or the oldest entry goes.
make_room-cases :
    (key : String) (s : Shard BreakerState)
    → IsTracked s
    → ((make_room key s ≡ s)
        × ((Dict.contains_key key s.entries ≡ true) ⊎ (length s.entries < max_breaker_keys)))
      ⊎ ((t : ℕ) × (gone : String) × (rest : Dict.Dict ℕ String) × (s.touch_order.oldest
            ≡ (t, gone) ∷ rest)
          × (make_room key s ≡ evicted gone rest s)
          × IsOldest gone s
          × (Dict.contains_key key s.entries ≡ false)
          × (max_breaker_keys ≤ length s.entries))
unfolding make_room
make_room-cases key s h = elim (evict_oldest-cases s h) [
  | inl (e, same) ↦ inl (ground arith, ground (arith, oldest_exists s h e))
  | inr (t, gone, rest, e, next, least) ↦ elim (Bool-cases (Dict.contains_key key s.entries)) [
    | inl present ↦ inl (ground arith, inl present)
    | inr absent ↦ elim (dec_lt (length s.entries) max_breaker_keys) [
      | yes room ↦ inl (ground arith, inr room)
      | no full ↦ inr (t, gone, rest, e, ground arith, least, absent, omega arith)
    ]
  ]
]

entered-bound :
    (key : String) (t : Shard BreakerState)
    → (Dict.contains_key key t.entries ≡ true) ⊎ (length t.entries < max_breaker_keys)
    → length t.entries ≤ max_breaker_keys
    → length (or_insert key closed (record t { touch_order = touch key t.touch_order })).entries
      ≤ max_breaker_keys
unfolding or_insert
entered-bound key t room h = ground (arith, Dict.length-insert key closed t.entries)

oldest_present :
    (gone : String) (s : Shard BreakerState)
    → IsTracked s
    → IsOldest gone s
    → Dict.contains_key gone s.entries ≡ true
oldest_present gone s h (t, held, _) = ground (arith, h.same_keys gone)

gone_fewer :
    (gone : String) (s : Shard BreakerState)
    → IsTracked s
    → IsOldest gone s
    → length s.entries ≤ max_breaker_keys
    → length (Dict.remove gone s.entries) < max_breaker_keys
gone_fewer gone s h least bound =
    ground (arith, Dict.length-remove gone s.entries h.nodup, oldest_present gone s h least)

-- While tokens are left, a call with any key keeps the order in step with the states, and at most
-- 1024 of them.
pub entry-IsBounded :
    (key : String) (s : Shard BreakerState)
    → HasTokens 1 s.touch_order
    → IsTracked s
    → length s.entries ≤ 1024
    → IsTracked (entry key s) × (length (entry key s).entries ≤ 1024)
unfolding entry
entry-IsBounded key s room h bound = elim (make_room-cases key s h) [
  | inl (same, space) ↦
      rw (entry, same) (touched-IsTracked key closed s room h, entered-bound key s space bound)
  | inr (t, gone, rest, e, next, least, absent, full) ↦
      let kept = evicted-IsTracked t gone rest s e h in
      let fewer : length (Dict.remove gone s.entries) < max_breaker_keys =
        gone_fewer gone s h least (omega arith) in
      rw (entry, next)
        (
          touched-IsTracked key closed (evicted gone rest s) room kept,
          entered-bound key (evicted gone rest s) (inr fewer) (omega arith),
        )
]

entered-lookup :
    (key j : String) (t : Shard BreakerState)
    → Dict.lookup j
        (or_insert key closed (record t { touch_order = touch key t.touch_order })).entries
      ≡ (if j == key then some (state_of key t) else Dict.lookup j t.entries)
unfolding or_insert state_of Dict.contains_key
entered-lookup key j t =
    ground
      (arith, Dict.lookup-insert j key closed t.entries, Option-cases (Dict.lookup key t.entries))

-- What the shard holds once an entry other than the key's has gone.
replaced-lookup :
    (gone key j : String) (t : Shard BreakerState) (s : Shard BreakerState)
    → t.entries ≡ Dict.remove gone s.entries
    → Dict.contains_key gone s.entries ≡ true
    → Dict.contains_key key s.entries ≡ false
    → Dict.lookup j
        (or_insert key closed (record t { touch_order = touch key t.touch_order })).entries
      ≡ (if j == gone
          then none
          else if j == key
          then some (state_of key s)
          else Dict.lookup j s.entries)
unfolding state_of Dict.contains_key
replaced-lookup gone key j t s less held absent =
    entered-lookup key j t
    ∙ rw less
        (ground (arith, Dict.lookup-remove j gone s.entries, Dict.lookup-remove key gone s.entries))

-- A call leaves the state of every key: the key of the call has the one it had, or a closed breaker
-- where it had none, and another key loses its own only to a new key, with the map full, as the key
-- that was used least recently.
pub entry-keeps :
    (key j : String) (s : Shard BreakerState)
    → IsTracked s
    → (Dict.lookup j (entry key s).entries
        ≡ (if j == key then some (state_of key s) else Dict.lookup j s.entries))
      ⊎ ((Dict.lookup j (entry key s).entries ≡ none)
          × IsOldest j s
          × (Dict.contains_key key s.entries ≡ false)
          × (1024 ≤ length s.entries))
unfolding entry
entry-keeps key j s h = elim (make_room-cases key s h) [
  | inl (same, space) ↦ inl (rw (entry, same) (entered-lookup key j s))
  | inr (t, gone, rest, e, next, least, absent, full) ↦
      let after =
        replaced-lookup gone key j (evicted gone rest s) s refl (oldest_present gone s h least)
          absent in
      rw (entry, next)
        (elim (string_eq.dec j gone) [
          | yes same ↦ inr (ground arith, rw same least, absent, full)
          | no differ ↦ inl (ground arith)
        ])
]
