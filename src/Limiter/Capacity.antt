-- ===== src/Limiter/Capacity.antt =====
-- Admission: the bound of a shard, and whose state a request is given.
use pingsix.Prelude.{
  ℕ, zero, suc, ◌+◌, ◌≤◌, ◌<◌, ◌≡◌, refl, ◌⊎◌, inl, inr, Bool, true, false, not, none, some, String,
  length, if◌then◌else◌, string_eq, arith,
}
use pingsix.Prelude.Dict
use pingsix.Limiter.Order.{touch}
use pingsix.Limiter.Index.{HasTokens, lookup-touches-touch, touch-IsIndexed}
use pingsix.Limiter.Entries.{
  per_shard_regular_max, SweepMiss, Shard, is_none_or, sweep_loop, sweep, admit, or_insert, enter,
  make_room, storage_key_of,
}
use pingsix.Limiter.Sweep.{
  IsTracked, Swept, sweep-Swept, sweep_loop-cases, sweep_loop-IsTracked, evicted, kept,
}

module _ {V : Type 0} where
  -- At most `PER_SHARD_REGULAR_MAX` entries besides the overflow bucket.
  abbrev pub IsWithin : String → Dict.Dict String V → Type 0
  IsWithin overflow_key d =
      length d ≤ per_shard_regular_max + (if Dict.contains_key overflow_key d then 1 else 0)

  remove-IsWithin :
      (overflow_key key : String) (d : Dict.Dict String V)
      → Dict.NodupKeys d
      → IsWithin overflow_key d
      → IsWithin overflow_key (Dict.remove key d)
  unfolding Dict.contains_key
  remove-IsWithin overflow_key key d u h =
      ground (arith, Dict.length-remove key d u, Dict.lookup-remove overflow_key key d)

  sweep_loop-IsWithin :
      (evict : V → Bool) (m : SweepMiss) (budget : ℕ) (overflow_key : String) (s : Shard V)
      → Dict.NodupKeys s.entries
      → IsWithin overflow_key s.entries
      → IsWithin overflow_key (sweep_loop evict m budget s).entries
  unfolding sweep_loop
  sweep_loop-IsWithin evict m zero o s u h = h
  sweep_loop-IsWithin evict m (suc n) o s u h = elim (sweep_loop-cases evict m n s) [
    | inl same ↦ rw same h
    | inr (t, key, rest, _, inl (goes, next)) ↦ rw next (
        sweep_loop-IsWithin evict m n o (evicted key rest s) (Dict.remove-NodupKeys key s.entries u)
          (remove-IsWithin o key s.entries u h))
    | inr (t, key, rest, _, inr (stays, next)) ↦
        rw next (sweep_loop-IsWithin evict m n o (kept m t key rest s) u h)
  ]

  -- What `enter` needs of a shard, with enough tokens for one request, and keeps.
  pub record IsSound (overflow_key : String) (s : Shard V) : Type 0 where
    pub tracked : IsTracked s
    pub within : IsWithin overflow_key s.entries

  pub touched-IsTracked :
      (key : String) (v : V) (s : Shard V)
      → HasTokens 1 s.touch_order
      → IsTracked s
      → IsTracked (or_insert key v (record s { touch_order = touch key s.touch_order }))
  unfolding or_insert Dict.contains_key
  touched-IsTracked key v s room h = record {
    nodup = ground (arith, h.nodup, Dict.insert-NodupKeys key v s.entries h.nodup);
    indexed = ground (arith, touch-IsIndexed key s.touch_order room h.indexed);
    same_keys = λ k. ground (
      arith,
      lookup-touches-touch k key s.touch_order,
      Dict.lookup-insert k key v s.entries,
      h.same_keys k,
    );
  }

  -- Whose shard and whose slot a request gets: `t` is the shard, swept where it must be.
  abbrev Admission :
      (V → Bool) → SweepMiss → String → V → String → Shard V → Shard V → String → Type 0
  Admission evict m overflow_key initial key s t slot =
      ((t ≡ s) ⊎ ((Dict.contains_key key s.entries ≡ false) × (t ≡ sweep evict m s)))
      × (((slot ≡ key)
            × ((Dict.contains_key key s.entries ≡ true)
                ⊎ (length t.entries < per_shard_regular_max)))
          ⊎ ((Dict.contains_key key s.entries ≡ false)
              × (slot ≡ overflow_key)
              × (per_shard_regular_max ≤ length t.entries)))
      × ((Dict.contains_key key s.entries ≡ false) ⊎ (t ≡ s))
      × (enter evict m overflow_key initial key s
          ≡ (or_insert slot initial (record t { touch_order = touch slot t.touch_order }), slot))

  enter-cases :
      (evict : V → Bool) (m : SweepMiss) (overflow_key : String) (initial : V) (key : String)
      (s : Shard V)
      → (t : Shard V) × (slot : String) × Admission evict m overflow_key initial key s t slot
  unfolding enter admit
  enter-cases evict m o initial key s =
      let new_key = not (Dict.contains_key key s.entries) in
      let t = make_room new_key (sweep evict m) s in
      (
        t,
        storage_key_of new_key key o t,
        (
          unfold make_room in ground arith,
          unfold storage_key_of in ground arith,
          unfold make_room in ground arith,
          refl,
        ),
      )

  entered-IsWithin :
      (overflow_key slot : String) (v : V) (t : Shard V)
      → (Dict.contains_key slot t.entries ≡ true)
        ⊎ (length t.entries < per_shard_regular_max)
        ⊎ (slot ≡ overflow_key)
      → IsWithin overflow_key t.entries
      → IsWithin overflow_key
          (or_insert slot v (record t { touch_order = touch slot t.touch_order })).entries
  unfolding or_insert Dict.contains_key
  entered-IsWithin o slot v t room h =
      ground (arith, Dict.length-insert slot v t.entries, Dict.lookup-insert o slot v t.entries)

  sweep-IsSound :
      (evict : V → Bool) (m : SweepMiss) (overflow_key : String) (s : Shard V)
      → HasTokens 9 s.touch_order
      → IsSound overflow_key s
      → IsSound overflow_key (sweep evict m s) × HasTokens 1 (sweep evict m s).touch_order
  unfolding sweep
  sweep-IsSound evict m o s room h =
      let (tracked, space) = sweep_loop-IsTracked evict m 8 1 s room h.tracked in
      (
        record {
          tracked = tracked;
          within = sweep_loop-IsWithin evict m 8 o s h.tracked.nodup h.within;
        },
        space,
      )

  entered-IsSound :
      (evict : V → Bool) (m : SweepMiss) (overflow_key : String) (initial : V) (key : String)
      (s t : Shard V) (slot : String)
      → HasTokens 9 s.touch_order
      → IsSound overflow_key s
      → Admission evict m overflow_key initial key s t slot
      → IsSound overflow_key
          (or_insert slot initial (record t { touch_order = touch slot t.touch_order }))
  entered-IsSound evict m o initial key s t slot room h (which, whose, same, _) =
      let (fit, space) : IsSound o t × HasTokens 1 t.touch_order = elim which [
        | inl unswept ↦ rw unswept (h, omega arith)
        | inr (_, swept) ↦ rw swept (sweep-IsSound evict m o s room h)
      ] in
      record {
        tracked = touched-IsTracked slot initial t space fit.tracked;
        within = entered-IsWithin o slot initial t (ground arith) fit.within;
      }

  -- A shard with a token left for each entry that a sweep may move, and one for the request, stays
  -- sound: its order tracks the entries, and it holds at most 256 of them, one of which is the
  -- overflow bucket.
  pub enter-IsSound :
      (evict : V → Bool) (m : SweepMiss) (overflow_key : String) (initial : V) (key : String)
      (s : Shard V)
      → HasTokens 9 s.touch_order
      → IsSound overflow_key s
      → IsSound overflow_key (enter evict m overflow_key initial key s).0
        × (length (enter evict m overflow_key initial key s).0.entries ≤ 256)
  enter-IsSound evict m o initial key s room h =
      let (t, slot, entered) = enter-cases evict m o initial key s in
      let sound = entered-IsSound evict m o initial key s t slot room h entered in
      rw entered.3 (sound, ground (arith, sound.within))

  -- No request evicts or changes a live entry, of any key; a key that has an entry is given that
  -- entry, whatever it holds; and a new key is given a fresh entry of its own, or the overflow
  -- bucket.
  pub enter_isolated :
      (evict : V → Bool) (m : SweepMiss) (overflow_key : String) (initial : V) (key j : String)
      (s : Shard V)
      → let r = enter evict m overflow_key initial key s in
        (Swept evict (Dict.lookup j s.entries) (Dict.lookup j r.0.entries)
          ⊎ ((j ≡ r.1)
              × (is_none_or evict (Dict.lookup j s.entries) ≡ true)
              × (Dict.lookup j r.0.entries ≡ some initial)))
        × (Dict.contains_key key s.entries ≡ true × (r.1 ≡ key) × (r.0.entries ≡ s.entries)
            ⊎ ((Dict.lookup key s.entries ≡ none)
                × (((r.1 ≡ key) × (Dict.lookup key r.0.entries ≡ some initial))
                    ⊎ (r.1 ≡ overflow_key))))
  unfolding Dict.contains_key or_insert
  enter_isolated evict m o initial key j s =
      let (t, slot, (which, whose, same, eq)) = enter-cases evict m o initial key s in
      rw eq (
        ground (arith, sweep-Swept evict m s j, Dict.lookup-insert j slot initial t.entries),
        ground (arith, sweep-Swept evict m s key, Dict.lookup-insert key slot initial t.entries),
      )
