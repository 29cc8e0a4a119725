-- ===== src/Tests/Limiter.antt =====
-- Shards with a few entries, swept and entered.
use pingsix.Prelude.{
  ℕ, ◌≤◌, ◌≡◌, refl, ◌⊎◌, Bool, true, none, some, [], ◌∷◌, length, leb, string_eq, nat_eq,
  String-discrete, ℕ_discrete, arith,
}
use pingsix.Prelude.Dict
use pingsix.Limiter.{
  empty_order, Shard, empty_shard, restored, pushed_back, sweep, enter, is_none_or,
}
use pingsix.Limiter.Sweep
use pingsix.Limiter.Capacity

unfoldable program : Unit {0}
unfolding empty_shard empty_order sweep enter String-discrete ℕ_discrete
program = tt

-- Entries of at most 1 may go.
abbrev idle : ℕ → Bool
idle n = leb n 1

abbrev start : Shard ℕ
start = empty_shard

-- A live entry at the head, an idle one behind it.
abbrev two : Shard ℕ
two = record {
  entries = ("a", 7) ∷ ("b", 0) ∷ [];
  touch_order = record {
    oldest = (1, "a") ∷ (2, "b") ∷ [];
    touches = ("a", 1) ∷ ("b", 2) ∷ [];
    next_touch = 2;
  };
}

-- A sweep that pushes back reaches the idle entry; one that restores does not.
pushed : (sweep idle pushed_back two).entries ≡ ("a", 7) ∷ []
unfolding program
pushed = refl

stuck : (sweep idle restored two).entries ≡ two.entries
unfolding program
stuck = refl

start-IsSound : Capacity.IsSound "full" start
unfolding empty_shard empty_order
start-IsSound = record {
  tracked = record {
    nodup = tt;
    indexed = record {
      sorted = tt;
      forward = λ t k h. absurd (unfold Dict.lookup in ground arith);
      back = λ k t h. absurd (unfold Dict.lookup in ground arith);
      fresh = λ t k h. absurd (unfold Dict.lookup in ground arith);
    };
    same_keys = λ k. unfold Dict.lookup in unfold Dict.contains_key in refl;
  };
  within = omega arith;
}

sweep-restored_example :
    ((sweep idle restored two).entries ≡ two.entries)
    × ((sweep idle restored two).touch_order.oldest ≡ two.touch_order.oldest)
unfolding program
sweep-restored_example =
    Sweep.sweep-restored idle two 1 "a" ((2, "b") ∷ []) (omega arith, tt) refl refl refl

enter-IsSound_example :
    Capacity.IsSound "full" (enter idle restored "full" 5 "a" start).0
    × (length (enter idle restored "full" 5 "a" start).0.entries ≤ 256)
unfolding empty_shard empty_order
enter-IsSound_example =
    Capacity.enter-IsSound idle restored "full" 5 "a" start (omega arith) start-IsSound

enter_isolated_example :
    let r = enter idle restored "full" 5 "c" two in
    (Sweep.Swept idle (Dict.lookup "a" two.entries) (Dict.lookup "a" r.0.entries)
      ⊎ (("a" ≡ r.1)
          × (is_none_or idle (Dict.lookup "a" two.entries) ≡ true)
          × (Dict.lookup "a" r.0.entries ≡ some 5)))
    × ((Dict.contains_key "c" two.entries ≡ true) × (r.1 ≡ "c") × (r.0.entries ≡ two.entries)
        ⊎ ((Dict.lookup "c" two.entries ≡ none)
            × (((r.1 ≡ "c") × (Dict.lookup "c" r.0.entries ≡ some 5)) ⊎ (r.1 ≡ "full"))))
enter_isolated_example = Capacity.enter_isolated idle restored "full" 5 "c" "a" two
