-- ===== src/Limiter/Entries.antt =====
-- `Shard` (src/plugins/limiting.rs): the entries of one shard, with their recency order and the
-- policy of admission. A plugin brings the predicate of the entries that may go.
use pingsix.Prelude.{
  ℕ, zero, suc, ◌/◌, ◌-◌, Bool, true, false, not, ◌&&◌, ◌||◌, Option, none, some, [], String,
  length, leb, ltb, if◌then◌else◌, string_eq,
}
use pingsix.Prelude.Dict
use pingsix.Limiter.Order.{TouchOrder, empty_order, touch, pop_oldest, restore}

-- `PER_SHARD_REGULAR_MAX` and `CLEANUP_BUDGET`
abbrev pub per_shard_regular_max : ℕ
per_shard_regular_max = 4096 / 16 - 1

abbrev pub cleanup_budget : ℕ
cleanup_budget = 8

pub data SweepMiss : Type 0 where
  restored pushed_back : SweepMiss

pub record Shard (V : Type 0) : Type 0 where
  pub entries : Dict.Dict String V
  pub touch_order : TouchOrder

-- Back into the recency order, as `on_miss` says.
unfoldable pub put_back : SweepMiss → ℕ → String → TouchOrder → TouchOrder
unfolding touch restore
put_back restored t key order = restore t key order
put_back pushed_back t key order = touch key order

module _ {V : Type 0} where
  unfoldable pub empty_shard : Shard V
  unfolding empty_order
  empty_shard = record { entries = []; touch_order = empty_order }

  unfoldable pub evict_oldest : Shard V → Shard V
  unfolding pop_oldest Dict.remove
  evict_oldest s = elim (pop_oldest s.touch_order) [
    | none ↦ s
    | some (t, key, order) ↦ record { entries = Dict.remove key s.entries; touch_order = order }
  ]

  -- `is_none_or`
  abbrev pub is_none_or : (V → Bool) → Option V → Bool
  is_none_or evict none = true
  is_none_or evict (some v) = evict v

  -- The loop of `sweep`, on the budget that is left.
  unfoldable pub sweep_loop : (V → Bool) → SweepMiss → ℕ → Shard V → Shard V
  unfolding pop_oldest put_back Dict.lookup Dict.remove
  sweep_loop evict on_miss zero s = s
  sweep_loop evict on_miss (suc budget) s = elim (pop_oldest s.touch_order) [
    | none ↦ s
    | some (t, key, order) ↦ elim (is_none_or evict (Dict.lookup key s.entries)) [
      | true ↦
          sweep_loop evict on_miss budget
            (record { entries = Dict.remove key s.entries; touch_order = order })
      | false ↦
          sweep_loop evict on_miss budget
            (record { entries = s.entries; touch_order = put_back on_miss t key order })
    ]
  ]

  unfoldable pub sweep : (V → Bool) → SweepMiss → Shard V → Shard V
  unfolding sweep_loop
  sweep evict on_miss s = sweep_loop evict on_miss cleanup_budget s

  -- A full shard is swept for a new key.
  unfoldable pub make_room : Bool → (Shard V → Shard V) → Shard V → Shard V
  make_room new_key sweeper s =
      if new_key && leb per_shard_regular_max (length s.entries) then sweeper s else s

  unfoldable pub storage_key_of : Bool → String → String → Shard V → String
  storage_key_of new_key key overflow_key s =
      if not new_key || ltb (length s.entries) per_shard_regular_max then key else overflow_key

  -- The shard that `admit` leaves, and the key of the entry that it returns.
  unfoldable pub admit : String → String → (Shard V → Shard V) → Shard V → Shard V × String
  unfolding touch make_room storage_key_of Dict.contains_key
  admit key overflow_key sweeper s =
      let new_key = not (Dict.contains_key key s.entries) in
      let t = make_room new_key sweeper s in
      let storage_key = storage_key_of new_key key overflow_key t in
      (record t { touch_order = touch storage_key t.touch_order }, storage_key)

  -- `or_insert`, at the entry of a key.
  unfoldable pub or_insert : String → V → Shard V → Shard V
  unfolding Dict.contains_key Dict.insert
  or_insert key v s =
      if Dict.contains_key key s.entries
      then s
      else record s { entries = Dict.insert key v s.entries }

  -- How the plugins enter: admission with the sweep, then the first use of the entry.
  unfoldable pub enter : (V → Bool) → SweepMiss → String → V → String → Shard V → Shard V × String
  unfolding sweep admit or_insert
  enter evict on_miss overflow_key initial key s =
      let t = admit key overflow_key (sweep evict on_miss) s in (or_insert t.1 initial t.0, t.1)
