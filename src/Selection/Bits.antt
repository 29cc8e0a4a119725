-- ===== src/Selection/Bits.antt =====
-- The bits of the members seen, and the searches over a group.
use pingsix.Prelude.{
  ℕ, zero, suc, ◌+◌, ◌≤◌, ◌<◌, ◌≡◌, refl, Bool, true, false, ◌||◌, none, some, List, [], ◌∷◌, ◌==◌,
  nat_eq, length, get_elem?, arith, ◌⊎◌, inl, inr, Option-cases,
}
use pingsix.Selection.Backends.{Backend, BackendSet}
use pingsix.Selection.Iterate.{bit, set_bit, zeros, binary_search, unseen_from}

pub length-set_bit : (i : ℕ) (bs : List Bool) → length (set_bit i bs) ≡ length bs
unfolding set_bit
length-set_bit i [] = refl
length-set_bit zero (b ∷ bs) = refl
length-set_bit (suc i) (b ∷ bs) = omega (arith, length-set_bit i bs)

pub bit-set_bit :
    (i j : ℕ) (bs : List Bool) → i < length bs → bit j (set_bit i bs) ≡ (j == i || bit j bs)
unfolding set_bit
bit-set_bit i j [] l = absurd (omega arith)
bit-set_bit zero zero (b ∷ bs) l = ground arith
bit-set_bit zero (suc j) (b ∷ bs) l = ground arith
bit-set_bit (suc i) zero (b ∷ bs) l = ground arith
bit-set_bit (suc i) (suc j) (b ∷ bs) l = ground (arith, bit-set_bit i j bs)

pub length-zeros : (n : ℕ) → length (zeros n) ≡ n
unfolding zeros
length-zeros zero = refl
length-zeros (suc n) = omega (arith, length-zeros n)

pub bit-zeros : (n j : ℕ) → bit j (zeros n) ≡ false
unfolding zeros
bit-zeros zero j = refl
bit-zeros (suc n) zero = refl
bit-zeros (suc n) (suc j) = bit-zeros n j

pub binary_search-bound :
    (b : Backend) (xs : BackendSet) (i : ℕ) → binary_search b xs ≡ some i → i < length xs
unfolding binary_search
binary_search-bound b [] i h = absurd (ground arith)
binary_search-bound b (x ∷ xs) i h = elim (Option-cases (binary_search b xs)) [
  | inl e ↦ ground arith
  | inr (k, e) ↦ ground (arith, binary_search-bound b xs k e)
]

-- What the second phase passes over has been seen, and what it stops at has not.
pub unseen_from-found :
    (n next : ℕ) (seen : List Bool) (i : ℕ)
    → (unseen_from n next seen).1 ≡ some i
    → ((unseen_from n next seen).0 ≡ suc i) × (next ≤ i) × (i < next + n) × (bit i seen ≡ false)
unfolding unseen_from
unseen_from-found zero next seen i h = absurd (ground arith)
unseen_from-found (suc n) next seen i h = ground (arith, unseen_from-found n (suc next) seen i)

pub unseen_from-passed :
    (n next : ℕ) (seen : List Bool) (j : ℕ)
    → next ≤ j
    → j < (unseen_from n next seen).0
    → ((unseen_from n next seen).1 ≡ none)
      ⊎ (bit j seen ≡ true)
      ⊎ ((unseen_from n next seen).1 ≡ some j)
unfolding unseen_from
unseen_from-passed zero next seen j l m = absurd (omega arith)
unseen_from-passed (suc n) next seen j l m = ground (arith, unseen_from-passed n (suc next) seen j)

pub unseen_from-none :
    (n next : ℕ) (seen : List Bool) (j : ℕ)
    → (unseen_from n next seen).1 ≡ none
    → next ≤ j
    → j < next + n
    → bit j seen ≡ true
unfolding unseen_from
unseen_from-none zero next seen j h l m = absurd (omega arith)
unseen_from-none (suc n) next seen j h l m = ground (arith, unseen_from-none n (suc next) seen j)

pub get_elem?-length : {A : Type 0} (n : ℕ) (xs : List A) → get_elem? xs n ≡ none → length xs ≤ n
get_elem?-length n [] h = omega arith
get_elem?-length zero (x ∷ xs) h = absurd (ground arith)
get_elem?-length (suc n) (x ∷ xs) h = omega (arith, get_elem?-length n xs h)

pub get_elem?-bound :
    {A : Type 0} (n : ℕ) (xs : List A) (x : A) → get_elem? xs n ≡ some x → n < length xs
get_elem?-bound n [] x h = absurd (ground arith)
get_elem?-bound zero (y ∷ xs) x h = omega arith
get_elem?-bound (suc n) (y ∷ xs) x h = omega (arith, get_elem?-bound n xs x h)
