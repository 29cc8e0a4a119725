-- ===== src/Limiter/Index.antt =====
-- How the two maps of a `TouchOrder` stand to each other.
use pingsix.Prelude.{
  ℕ, ◌+◌, ◌^◌, ◌≤◌, ◌<◌, ◌≡◌, Option, none, some, ◌∷◌, String, if◌then◌else◌, ◌==◌, nat_eq,
  option_eq, string_eq, arith,
}
use pingsix.Prelude.Dict
use pingsix.Prelude.Ordered
use pingsix.Limiter.Order.{TouchOrder, next_token, forget_token, touch, restore}

pub record IsIndexed (o : TouchOrder) : Type 0 where
  pub sorted : Ordered.IsOrdered o.oldest
  pub forward :
      (t : ℕ) (k : String) → Dict.lookup t o.oldest ≡ some k → Dict.lookup k o.touches ≡ some t
  pub back :
      (k : String) (t : ℕ) → Dict.lookup k o.touches ≡ some t → Dict.lookup t o.oldest ≡ some k
  pub fresh : (t : ℕ) (k : String) → Dict.lookup t o.oldest ≡ some k → t ≤ o.next_touch

-- `n` more tokens can be given before the counter wraps.
abbrev pub HasTokens : ℕ → TouchOrder → Type 0
HasTokens n o = o.next_touch + n < 2 ^ 64

pub next_token-suc : (o : TouchOrder) → HasTokens 1 o → next_token o.next_touch ≡ o.next_touch + 1
unfolding next_token
next_token-suc o h = ground arith

forget_token-IsOrdered :
    (p : Option ℕ) (d : Dict.Dict ℕ String)
    → Ordered.IsOrdered d
    → Ordered.IsOrdered (forget_token p d)
unfolding forget_token
forget_token-IsOrdered none d h = h
forget_token-IsOrdered (some t) d h = Ordered.remove-IsOrdered t d h

lookup-forget_token :
    (t : ℕ) (p : Option ℕ) (d : Dict.Dict ℕ String)
    → Dict.lookup t (forget_token p d) ≡ (if p == some t then none else Dict.lookup t d)
unfolding forget_token option_eq
lookup-forget_token t none d = ground arith
lookup-forget_token t (some p) d = ground (arith, Dict.lookup-remove t p d)

pub lookup-oldest-touch :
    (t : ℕ) (key : String) (o : TouchOrder)
    → Dict.lookup t (touch key o).oldest ≡ (
        if t == next_token o.next_touch
        then some key
        else if Dict.lookup key o.touches == some t
        then none
        else Dict.lookup t o.oldest)
unfolding touch
lookup-oldest-touch t key o = rw (
  Ordered.lookup-insert t (next_token o.next_touch) key _,
  lookup-forget_token t (Dict.lookup key o.touches) o.oldest,
)

pub lookup-touches-touch :
    (k key : String) (o : TouchOrder)
    → Dict.lookup k (touch key o).touches
      ≡ (if k == key then some (next_token o.next_touch) else Dict.lookup k o.touches)
unfolding touch
lookup-touches-touch k key o = ground (
  arith,
  Dict.lookup-insert k key (next_token o.next_touch) (Dict.remove key o.touches),
  Dict.lookup-remove k key o.touches,
)

pub touch-IsIndexed :
    (key : String) (o : TouchOrder) → HasTokens 1 o → IsIndexed o → IsIndexed (touch key o)
unfolding option_eq
touch-IsIndexed key o room h = record {
  sorted =
      unfold touch in
      Ordered.insert-IsOrdered _ key _
        (forget_token-IsOrdered (Dict.lookup key o.touches) _ h.sorted);
  forward = λ t k found.
      ground (arith, lookup-oldest-touch t key o, lookup-touches-touch k key o, h.forward t k);
  back = λ k t found. ground (
    arith,
    next_token-suc o room,
    lookup-oldest-touch t key o,
    lookup-touches-touch k key o,
    h.back k t,
    h.back key t,
    h.fresh t k,
  );
  fresh = λ t k found.
      unfold touch in
      ground (arith, next_token-suc o room, lookup-oldest-touch t key o, h.fresh t k);
}

-- `rest` without the head's key
pub popped-IsIndexed :
    (t : ℕ) (key : String) (rest : Dict.Dict ℕ String) (touches : Dict.Dict String ℕ) (n : ℕ)
    → IsIndexed (record { oldest = (t, key) ∷ rest; touches = touches; next_touch = n })
    → IsIndexed (record { oldest = rest; touches = Dict.remove key touches; next_touch = n })
popped-IsIndexed t key rest touches n h = record {
  sorted = Ordered.IsAbove-IsOrdered t rest h.sorted;
  forward = λ u k found.
      unfold Dict.lookup in
      ground (
        arith,
        Ordered.lookup-IsAbove t u rest h.sorted,
        Dict.lookup-remove k key touches,
        h.forward u k,
        h.forward t key,
      );
  back = λ k u found.
      unfold Dict.lookup in ground (arith, Dict.lookup-remove k key touches, h.back k u);
  fresh = λ u k found.
      unfold Dict.lookup in ground (arith, Ordered.lookup-IsAbove t u rest h.sorted, h.fresh u k);
}

pub restore-IsIndexed :
    (t : ℕ) (key : String) (o : TouchOrder)
    → t ≤ o.next_touch
    → Dict.lookup t o.oldest ≡ none
    → Dict.lookup key o.touches ≡ none
    → IsIndexed o
    → IsIndexed (restore t key o)
unfolding restore
restore-IsIndexed t key o l free absent h = record {
  sorted = Ordered.insert-IsOrdered t key o.oldest h.sorted;
  forward = λ u k found. ground (
    arith,
    Ordered.lookup-insert u t key o.oldest,
    Dict.lookup-insert k key t o.touches,
    h.forward u k,
  );
  back = λ k u found. ground (
    arith,
    Ordered.lookup-insert u t key o.oldest,
    Dict.lookup-insert k key t o.touches,
    h.back k u,
  );
  fresh = λ u k found. ground (arith, Ordered.lookup-insert u t key o.oldest, h.fresh u k);
}
