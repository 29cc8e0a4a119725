-- ===== src/Prelude/Dict.antt =====
-- Rust's `HashMap`, as an association list. No model reads the order of its entries, save where
-- the source says that the order is arbitrary.
use pingsix.Prelude.Equality.{Eq, ◌==◌, nat_eq}
use pingsix.Prelude.Lists.{length, All}
use pingsix.Prelude.Tests.{if◌then◌else◌, is_some}
use Prim.Native.Nat.{suc, ◌+◌, ◌≤◌}
use mathlib.Core.Bool.{Bool}
use mathlib.Core.List.{List, [], ◌∷◌}
use mathlib.Core.Logic.{if_pos, if_neg}
use mathlib.Core.Option.{Option, none, some, none-ne-some, some-injective}
use mathlib.Core.Path.{◌≡◌, refl, sym, ◌∙◌}
use native.Mathlib.Omega.{arith}

abbrev pub Dict {ℓ κ} : Type ℓ → Type κ → Type (ℓ ⊔ κ)
Dict K V = List (K × V)

module _ {ℓ κ} {K : Type ℓ} {V : Type κ} ⦃e : Eq K⦄ where
  -- `get`
  unfoldable pub lookup : K → Dict K V → Option V
  lookup k [] = none
  lookup k ((j, v) ∷ d) = if k == j then some v else lookup k d

  unfoldable pub insert : K → V → Dict K V → Dict K V
  insert k v [] = (k, v) ∷ []
  insert k v ((j, w) ∷ d) = if k == j then (k, v) ∷ d else (j, w) ∷ insert k v d

  unfoldable pub remove : K → Dict K V → Dict K V
  remove k [] = []
  remove k ((j, w) ∷ d) = let rest = remove k d in if k == j then rest else (j, w) ∷ rest

  unfoldable pub contains_key : K → Dict K V → Bool
  unfolding lookup
  contains_key k d = is_some (lookup k d)

  -- No key has two entries.
  abbrev pub NodupKeys : Dict K V → Type κ
  NodupKeys [] = Unit
  NodupKeys ((k, _) ∷ d) = (lookup k d ≡ none) × NodupKeys d

  pub lookup-nil : (k : K) → lookup k [] ≡ none
  unfolding lookup
  lookup-nil k = refl

  pub lookup_here : (j k : K) (v : V) (d : Dict K V) → j ≡ k → lookup j ((k, v) ∷ d) ≡ some v
  unfolding lookup
  lookup_here j k v d same = ground arith

  pub lookup_there :
      (j k : K) (v : V) (d : Dict K V) → ¬ (j ≡ k) → lookup j ((k, v) ∷ d) ≡ lookup j d
  unfolding lookup
  lookup_there j k v d differ = ground arith

  pub lookup-insert :
      (j k : K) (v : V) (d : Dict K V)
      → lookup j (insert k v d) ≡ (if j == k then some v else lookup j d)
  unfolding insert lookup
  lookup-insert j k v [] = refl
  lookup-insert j k v (_ ∷ d) = ground (arith, lookup-insert j k v d)

  pub lookup-remove :
      (j k : K) (d : Dict K V) → lookup j (remove k d) ≡ (if j == k then none else lookup j d)
  unfolding remove lookup
  lookup-remove j k [] = ground arith
  lookup-remove j k (_ ∷ d) = ground (arith, lookup-remove j k d)

  pub insert-NodupKeys : (k : K) (v : V) (d : Dict K V) → NodupKeys d → NodupKeys (insert k v d)
  unfolding insert
  insert-NodupKeys k v [] _ = (lookup-nil k, tt)
  insert-NodupKeys k v ((j, _) ∷ d) (fresh, u) =
      ground (arith, insert-NodupKeys k v d u, lookup-insert j k v d)

  pub remove-NodupKeys : (k : K) (d : Dict K V) → NodupKeys d → NodupKeys (remove k d)
  unfolding remove
  remove-NodupKeys k [] _ = tt
  remove-NodupKeys k ((j, _) ∷ d) (fresh, u) =
      ground (arith, remove-NodupKeys k d u, lookup-remove j k d)

  -- Without the key nothing goes.
  pub remove_absent : (k : K) (d : Dict K V) → lookup k d ≡ none → remove k d ≡ d
  unfolding remove lookup
  remove_absent k [] h = refl
  remove_absent k (_ ∷ d) h = ground (arith, remove_absent k d)

  pub length-insert :
      (k : K) (v : V) (d : Dict K V)
      → length (insert k v d) ≡ (if contains_key k d then length d else suc (length d))
  unfolding insert contains_key
  length-insert k v [] = refl
  length-insert k v (_ ∷ d) = ground (arith, length-insert k v d)

  pub length-remove :
      (k : K) (d : Dict K V)
      → NodupKeys d
      → length (remove k d) + (if contains_key k d then 1 else 0) ≡ length d
  unfolding remove contains_key
  length-remove k [] _ = refl
  length-remove k ((j, _) ∷ d) (fresh, u) = ground (arith, length-remove k d u, remove_absent k d)

  pub length-remove-le : (k : K) (d : Dict K V) → length (remove k d) ≤ length d
  unfolding remove
  length-remove-le k [] = omega arith
  length-remove-le k (_ ∷ d) = ground (arith, length-remove-le k d)

  pub insert-All {μ} :
      (P : K × V → Type μ) (k : K) (v : V) (d : Dict K V)
      → P (k, v)
      → All P d
      → All P (insert k v d)
  unfolding insert
  insert-All P k v [] p h = (p, tt)
  insert-All P k v ((j, w) ∷ d) p (q, h) = elim (e.dec k j) [
    | yes same ↦ rw (if_pos _ same) (p, h)
    | no differ ↦ rw (if_neg _ differ) (q, insert-All P k v d p h)
  ]

  -- What holds of every entry holds of one that is found.
  pub lookup-All {μ} :
      (P : K × V → Type μ) (d : Dict K V) (k : K) (v : V) → All P d → lookup k d ≡ some v → P (k, v)
  lookup-All P [] k v h found = absurd (none-ne-some v (sym (lookup-nil k) ∙ found))
  lookup-All P ((j, w) ∷ d) k v (p, h) found = elim (e.dec k j) [
    | yes same ↦ rw (same, sym (some-injective w v (sym (lookup_here k j w d same) ∙ found))) p
    | no differ ↦ lookup-All P d k v h (sym (lookup_there k j w d differ) ∙ found)
  ]

  pub remove-All {μ} : (P : K × V → Type μ) (k : K) (d : Dict K V) → All P d → All P (remove k d)
  unfolding remove
  remove-All P k [] h = tt
  remove-All P k ((j, w) ∷ d) (q, h) = elim (e.dec k j) [
    | yes same ↦ rw (if_pos _ same) (remove-All P k d h)
    | no differ ↦ rw (if_neg _ differ) (q, remove-All P k d h)
  ]

-- The entries of a map are those of a predicate that grows.
pub All-mono {ℓ κ μ} :
    {A : Type ℓ} (P : A → Type κ) (Q : A → Type μ)
    → ((a : A) → P a → Q a)
    → (xs : List A) → All P xs
    → All Q xs
All-mono P Q f [] h = tt
All-mono P Q f (x ∷ xs) (p, h) = (f x p, All-mono P Q f xs h)
