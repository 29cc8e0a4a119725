-- ===== src/Limiter/Sweep.antt =====
-- What a sweep does to the entries and to the recency order.
use pingsix.Prelude.{
  ℕ, zero, suc, ◌+◌, ◌≡◌, refl, ◌∙◌, sym, ◌⊎◌, inl, inr, Bool, true, false, Option, none, some, [],
  ◌∷◌, String, is_some, nat_eq, string_eq, Bool-cases, arith,
}
use pingsix.Prelude.Dict
use pingsix.Prelude.Ordered
use pingsix.Limiter.Order.{TouchOrder, touch, pop_oldest, restore}
use pingsix.Limiter.Index.{
  IsIndexed, HasTokens, next_token-suc, lookup-touches-touch, touch-IsIndexed, popped-IsIndexed,
  restore-IsIndexed,
}
use pingsix.Limiter.Entries.{
  SweepMiss, restored, pushed_back, Shard, is_none_or, put_back, sweep_loop, sweep,
}

-- The order without its head.
abbrev pub popped : String → Dict.Dict ℕ String → TouchOrder → TouchOrder
popped key rest o = record o { oldest = rest; touches = Dict.remove key o.touches }

head_cases :
    (d : Dict.Dict ℕ String)
    → (d ≡ []) ⊎ ((t : ℕ) × (key : String) × (rest : Dict.Dict ℕ String) × (d ≡ (t, key) ∷ rest))
head_cases [] = inl refl
head_cases ((t, key) ∷ rest) = inr (t, key, rest, refl)

pub pop_oldest-cases :
    (o : TouchOrder)
    → ((o.oldest ≡ []) × (pop_oldest o ≡ none))
      ⊎ ((t : ℕ) × (key : String) × (rest : Dict.Dict ℕ String) × (o.oldest ≡ (t, key) ∷ rest)
          × (pop_oldest o ≡ some (t, key, popped key rest o)))
unfolding pop_oldest
pop_oldest-cases o = elim (head_cases o.oldest) [
  | inl e ↦ inl (e, rw (e, pop_oldest))
  | inr (t, key, rest, e) ↦ inr (t, key, rest, e, rw (e, pop_oldest))
]

pub popped_lem :
    (o : TouchOrder) (t : ℕ) (key : String) (rest : Dict.Dict ℕ String)
    → o.oldest ≡ (t, key) ∷ rest
    → IsIndexed o
    → IsIndexed (popped key rest o)
popped_lem o t key rest e h = popped-IsIndexed t key rest o.touches o.next_touch (rw (sym e) h)

-- Neither way back changes which keys the order has.
put_back-keys :
    (m : SweepMiss) (t : ℕ) (key k : String) (rest : Dict.Dict ℕ String) (o : TouchOrder)
    → o.oldest ≡ (t, key) ∷ rest
    → IsIndexed o
    → is_some (Dict.lookup k (put_back m t key (popped key rest o)).touches)
      ≡ is_some (Dict.lookup k o.touches)
unfolding put_back restore
put_back-keys restored t key k rest o e h = ground (
  arith,
  Dict.lookup-insert k key t (Dict.remove key o.touches),
  Dict.lookup-remove k key o.touches,
  h.forward t key (rw e (unfold Dict.lookup in ground arith)),
)
put_back-keys pushed_back t key k rest o e h = ground (
  arith,
  lookup-touches-touch k key (popped key rest o),
  Dict.lookup-remove k key o.touches,
  h.forward t key (rw e (unfold Dict.lookup in ground arith)),
)

put_back-IsIndexed :
    (m : SweepMiss) (t : ℕ) (key : String) (rest : Dict.Dict ℕ String) (o : TouchOrder)
    → o.oldest ≡ (t, key) ∷ rest
    → HasTokens 1 o
    → IsIndexed o
    → IsIndexed (put_back m t key (popped key rest o))
unfolding put_back
put_back-IsIndexed restored t key rest o e room h =
    restore-IsIndexed t key (popped key rest o)
      (h.fresh t key (rw e (unfold Dict.lookup in ground arith)))
      (Ordered.lookup-IsAbove t t rest (rw e at h.sorted) (omega arith))
      (Dict.lookup-remove key key o.touches ∙ ground arith) (popped_lem o t key rest e h)
put_back-IsIndexed pushed_back t key rest o e room h =
    touch-IsIndexed key (popped key rest o) room (popped_lem o t key rest e h)

put_back-HasTokens :
    (m : SweepMiss) (t n : ℕ) (key : String) (rest : Dict.Dict ℕ String) (o : TouchOrder)
    → HasTokens (suc n) o
    → HasTokens n (put_back m t key (popped key rest o))
unfolding put_back touch restore
put_back-HasTokens restored t n key rest o room = omega arith
put_back-HasTokens pushed_back t n key rest o room = ground (arith, next_token-suc o (omega arith))

insert_head :
    (t : ℕ) (key : String) (rest : Dict.Dict ℕ String)
    → Ordered.IsAbove t rest
    → Ordered.insert t key rest ≡ (t, key) ∷ rest
unfolding Ordered.insert
insert_head t key [] h = refl
insert_head t key ((u, k) ∷ rest) h = ground arith

-- What a sweep may leave of an entry.
abbrev pub Swept : {V : Type 0} → (V → Bool) → Option V → Option V → Type 0
Swept evict before after = (after ≡ before) ⊎ ((is_none_or evict before ≡ true) × (after ≡ none))

module _ {V : Type 0} where
  -- One round of the sweep, where the oldest entry goes and where it stays.
  abbrev pub evicted : String → Dict.Dict ℕ String → Shard V → Shard V
  evicted key rest s = record {
    entries = Dict.remove key s.entries;
    touch_order = popped key rest s.touch_order;
  }

  abbrev pub kept : SweepMiss → ℕ → String → Dict.Dict ℕ String → Shard V → Shard V
  kept m t key rest s = record s { touch_order = put_back m t key (popped key rest s.touch_order) }

  pub sweep_loop-cases :
      (evict : V → Bool) (m : SweepMiss) (n : ℕ) (s : Shard V)
      → (sweep_loop evict m (suc n) s ≡ s)
        ⊎ ((t : ℕ) × (key : String) × (rest : Dict.Dict ℕ String) × (s.touch_order.oldest
              ≡ (t, key) ∷ rest)
            × (((is_none_or evict (Dict.lookup key s.entries) ≡ true)
                  × (sweep_loop evict m (suc n) s ≡ sweep_loop evict m n (evicted key rest s)))
                ⊎ ((is_none_or evict (Dict.lookup key s.entries) ≡ false)
                    × (sweep_loop evict m (suc n) s ≡ sweep_loop evict m n (kept m t key rest s)))))
  unfolding sweep_loop
  sweep_loop-cases evict m n s = elim (pop_oldest-cases s.touch_order) [
    | inl (_, none_left) ↦ inl (rw (none_left, sweep_loop))
    | inr (t, key, rest, e, head) ↦
        elim (Bool-cases (is_none_or evict (Dict.lookup key s.entries))) [
          | inl goes ↦ inr (t, key, rest, e, inl (goes, rw (head, goes, sweep_loop)))
          | inr stays ↦ inr (t, key, rest, e, inr (stays, rw (head, stays, sweep_loop)))
        ]
  ]

  sweep_loop-Swept :
      (evict : V → Bool) (m : SweepMiss) (budget : ℕ) (s : Shard V) (j : String)
      → Swept evict (Dict.lookup j s.entries) (Dict.lookup j (sweep_loop evict m budget s).entries)
  unfolding sweep_loop
  sweep_loop-Swept evict m zero s j = inl refl
  sweep_loop-Swept evict m (suc n) s j = elim (sweep_loop-cases evict m n s) [
    | inl same ↦ inl (rw same)
    | inr (t, key, rest, _, inl (goes, next)) ↦ rw next (
        ground (
          arith,
          Dict.lookup-remove j key s.entries,
          sweep_loop-Swept evict m n (evicted key rest s) j,
        ))
    | inr (t, key, rest, _, inr (stays, next)) ↦
        rw next (sweep_loop-Swept evict m n (kept m t key rest s) j)
  ]

  -- However the recency order stands, a sweep evicts no live entry and changes none: what it leaves
  -- of an entry is the entry, or nothing where the predicate lets it go.
  pub sweep-Swept :
      (evict : V → Bool) (on_miss : SweepMiss) (s : Shard V) (j : String)
      → Swept evict (Dict.lookup j s.entries) (Dict.lookup j (sweep evict on_miss s).entries)
  unfolding sweep
  sweep-Swept evict on_miss s j = sweep_loop-Swept evict on_miss 8 s j

  -- The order tracks the entries: each key once, the two maps of the order in step, and the keys of
  -- the order those of the entries.
  pub record IsTracked (s : Shard V) : Type 0 where
    pub nodup : Dict.NodupKeys s.entries
    pub indexed : IsIndexed s.touch_order
    pub same_keys :
        (k : String) → is_some (Dict.lookup k s.touch_order.touches) ≡ Dict.contains_key k s.entries

  pub evicted-IsTracked :
      (t : ℕ) (key : String) (rest : Dict.Dict ℕ String) (s : Shard V)
      → s.touch_order.oldest ≡ (t, key) ∷ rest
      → IsTracked s
      → IsTracked (evicted key rest s)
  unfolding Dict.contains_key
  evicted-IsTracked t key rest s e h = record {
    nodup = Dict.remove-NodupKeys key s.entries h.nodup;
    indexed = popped_lem s.touch_order t key rest e h.indexed;
    same_keys = λ k. ground (
      arith,
      Dict.lookup-remove k key s.entries,
      Dict.lookup-remove k key s.touch_order.touches,
      h.same_keys k,
    );
  }

  kept-IsTracked :
      (m : SweepMiss) (t : ℕ) (key : String) (rest : Dict.Dict ℕ String) (s : Shard V)
      → s.touch_order.oldest ≡ (t, key) ∷ rest
      → HasTokens 1 s.touch_order
      → IsTracked s
      → IsTracked (kept m t key rest s)
  kept-IsTracked m t key rest s e room h = record {
    nodup = h.nodup;
    indexed = put_back-IsIndexed m t key rest s.touch_order e room h.indexed;
    same_keys = λ k. put_back-keys m t key k rest s.touch_order e h.indexed ∙ h.same_keys k;
  }

  pub sweep_loop-IsTracked :
      (evict : V → Bool) (m : SweepMiss) (budget n : ℕ) (s : Shard V)
      → HasTokens (budget + n) s.touch_order
      → IsTracked s
      → IsTracked (sweep_loop evict m budget s)
        × HasTokens n (sweep_loop evict m budget s).touch_order
  unfolding sweep_loop
  sweep_loop-IsTracked evict m zero n s room h = (h, omega arith)
  sweep_loop-IsTracked evict m (suc budget) n s room h = elim (sweep_loop-cases evict m budget s) [
    | inl same ↦ rw same (h, omega arith)
    | inr (t, key, rest, e, inl (goes, next)) ↦ rw next (
        sweep_loop-IsTracked evict m budget n (evicted key rest s) (omega arith)
          (evicted-IsTracked t key rest s e h))
    | inr (t, key, rest, e, inr (stays, next)) ↦ rw next (
        sweep_loop-IsTracked evict m budget n (kept m t key rest s)
          (put_back-HasTokens m t (budget + n) key rest s.touch_order (omega arith))
          (kept-IsTracked m t key rest s e (omega arith) h))
  ]

  restored-loop :
      (evict : V → Bool) (n : ℕ) (s : Shard V) (t : ℕ) (key : String) (rest : Dict.Dict ℕ String)
      {v : V}
      → Ordered.IsOrdered s.touch_order.oldest
      → s.touch_order.oldest ≡ (t, key) ∷ rest
      → Dict.lookup key s.entries ≡ some v
      → evict v ≡ false
      → ((sweep_loop evict restored n s).entries ≡ s.entries)
        × ((sweep_loop evict restored n s).touch_order.oldest ≡ s.touch_order.oldest)
  unfolding sweep_loop pop_oldest put_back restore
  restored-loop evict zero s t key rest ordered e found live = (refl, refl)
  restored-loop evict (suc n) s t key rest ordered e found live =
      let back : Ordered.insert t key rest ≡ (t, key) ∷ rest =
        insert_head t key rest (rw e at ordered) in
      let (same, head) =
        restored-loop evict n (kept restored t key rest s) t key rest (rw back (rw e at ordered))
          back found live in
      rw (e, sweep_loop, pop_oldest, found, live) (same, head ∙ back)

  -- Where a missed entry goes back to its place, one live entry at the head uses up the whole
  -- budget: the sweep removes nothing, whatever stands behind it.
  pub sweep-restored :
      (evict : V → Bool) (s : Shard V) (t : ℕ) (key : String) (rest : Dict.Dict ℕ String) {v : V}
      → Ordered.IsOrdered s.touch_order.oldest
      → s.touch_order.oldest ≡ (t, key) ∷ rest
      → Dict.lookup key s.entries ≡ some v
      → evict v ≡ false
      → ((sweep evict restored s).entries ≡ s.entries)
        × ((sweep evict restored s).touch_order.oldest ≡ s.touch_order.oldest)
  unfolding sweep
  sweep-restored evict s t key rest ordered e found live =
      restored-loop evict 8 s t key rest ordered e found live
