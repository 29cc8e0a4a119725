-- ===== src/Limiter/Order.antt =====
-- `TouchOrder` (src/plugins/limiter_shards.rs): the recency order of one shard's entries. Its
-- `oldest` is a `BTreeMap`, its `touches` a `HashMap`, and a token a `u64`.
use pingsix.Prelude.{
  ℕ, ◌+◌, ◌%◌, ◌^◌, Option, none, some, [], ◌∷◌, String, if◌then◌else◌, ◌==◌, nat_eq, string_eq,
}
use pingsix.Prelude.Dict
use pingsix.Prelude.Ordered

pub record TouchOrder : Type 0 where
  pub oldest : Dict.Dict ℕ String
  pub touches : Dict.Dict String ℕ
  pub next_touch : ℕ

-- `TouchOrder::default`
unfoldable pub empty_order : TouchOrder
empty_order = record { oldest = []; touches = []; next_touch = 0 }

-- `wrapping_add(1)`, with 0 left out
unfoldable pub next_token : ℕ → ℕ
next_token n = let next = (n + 1) % 2 ^ 64 in if next == 0 then 1 else next

-- `oldest` without the token that a key had.
unfoldable pub forget_token : Option ℕ → Dict.Dict ℕ String → Dict.Dict ℕ String
unfolding Dict.remove
forget_token none oldest = oldest
forget_token (some previous_touch) oldest = Dict.remove previous_touch oldest

unfoldable pub touch : String → TouchOrder → TouchOrder
unfolding next_token forget_token Dict.lookup Dict.insert Dict.remove Ordered.insert
touch key o =
    let next = next_token o.next_touch in
    record {
      oldest = Ordered.insert next key (forget_token (Dict.lookup key o.touches) o.oldest);
      touches = Dict.insert key next (Dict.remove key o.touches);
      next_touch = next;
    }

-- The oldest entry, and the order without it.
unfoldable pub pop_oldest : TouchOrder → Option (ℕ × String × TouchOrder)
unfolding Dict.remove
pop_oldest o = elim o.oldest [
  | [] ↦ none
  | (t, key) ∷ rest ↦ some (t, key, record o { oldest = rest; touches = Dict.remove key o.touches })
]

unfoldable pub restore : ℕ → String → TouchOrder → TouchOrder
unfolding Dict.insert Ordered.insert
restore t key o = record o {
  oldest = Ordered.insert t key o.oldest;
  touches = Dict.insert key t o.touches;
}
