-- ===== src/Prelude/Ordered.antt =====
-- Rust's `BTreeMap` and `BTreeSet` over numbers: association lists in increasing order of the keys.
-- Reads and removals are those of `Dict`.
use pingsix.Prelude.Dict.{Dict, lookup, remove}
use pingsix.Prelude.Equality.{◌==◌, nat_eq}
use pingsix.Prelude.Tests.{if◌then◌else◌, ltb}
use Prim.Native.Nat.{ℕ, ◌≤◌, ◌<◌}
use mathlib.Core.List.{[], ◌∷◌}
use mathlib.Core.Logic.{if_pos, if_neg}
use mathlib.Core.Option.{none, some}
use native.Mathlib.Decide.{ℕ_discrete}
use mathlib.Core.Path.{◌≡◌, refl}
use native.Mathlib.Omega.{arith}

module _ {κ} {V : Type κ} where
  unfoldable pub insert : ℕ → V → Dict ℕ V → Dict ℕ V
  insert k v [] = (k, v) ∷ []
  insert k v ((j, w) ∷ d) =
      if k == j then (k, v) ∷ d else if ltb k j then (k, v) ∷ (j, w) ∷ d else (j, w) ∷ insert k v d

  -- Every key lies above `b`, and the keys increase.
  abbrev pub IsAbove : ℕ → Dict ℕ V → Type 0
  IsAbove b [] = Unit {0}
  IsAbove b ((k, _) ∷ d) = (b < k) × IsAbove k d

  abbrev pub IsOrdered : Dict ℕ V → Type 0
  IsOrdered [] = Unit {0}
  IsOrdered ((k, _) ∷ d) = IsAbove k d

  pub lookup-insert :
      (j k : ℕ) (v : V) (d : Dict ℕ V)
      → lookup j (insert k v d) ≡ (if j == k then some v else lookup j d)
  unfolding insert lookup
  lookup-insert j k v [] = refl
  lookup-insert j k v (_ ∷ d) = ground (arith, lookup-insert j k v d)

  insert-IsAbove : (b k : ℕ) (v : V) (d : Dict ℕ V) → b < k → IsAbove b d → IsAbove b (insert k v d)
  unfolding insert
  insert-IsAbove b k v [] l h = (l, tt)
  insert-IsAbove b k v ((j, w) ∷ d) l (m, h) = ground (arith, insert-IsAbove j k v d)

  pub insert-IsOrdered : (k : ℕ) (v : V) (d : Dict ℕ V) → IsOrdered d → IsOrdered (insert k v d)
  unfolding insert
  insert-IsOrdered k v [] h = tt
  insert-IsOrdered k v ((j, w) ∷ d) h = ground (arith, insert-IsAbove j k v d)

  pub lookup-IsAbove : (b j : ℕ) (d : Dict ℕ V) → IsAbove b d → j ≤ b → lookup j d ≡ none
  unfolding lookup
  lookup-IsAbove b j [] h l = refl
  lookup-IsAbove b j ((k, v) ∷ d) (m, h) l = ground (arith, lookup-IsAbove k j d h)

  pub IsAbove-weaken : (b c : ℕ) (d : Dict ℕ V) → c ≤ b → IsAbove b d → IsAbove c d
  IsAbove-weaken b c [] l h = tt
  IsAbove-weaken b c ((k, v) ∷ d) l (m, h) = (omega arith, h)

  remove-IsAbove : (b k : ℕ) (d : Dict ℕ V) → IsAbove b d → IsAbove b (remove k d)
  unfolding remove
  remove-IsAbove b k [] h = tt
  remove-IsAbove b k ((j, v) ∷ d) (m, h) = elim (ℕ_discrete k j) [
    | yes same ↦
        rw (if_pos _ same) (IsAbove-weaken j b (remove k d) (omega arith) (remove-IsAbove j k d h))
    | no differ ↦ rw (if_neg _ differ) (m, remove-IsAbove j k d h)
  ]

  pub IsAbove-IsOrdered : (b : ℕ) (d : Dict ℕ V) → IsAbove b d → IsOrdered d
  IsAbove-IsOrdered b [] h = tt
  IsAbove-IsOrdered b ((k, v) ∷ d) h = h.1

  pub remove-IsOrdered : (k : ℕ) (d : Dict ℕ V) → IsOrdered d → IsOrdered (remove k d)
  unfolding remove
  remove-IsOrdered k [] h = tt
  remove-IsOrdered k ((j, v) ∷ d) h = elim (ℕ_discrete k j) [
    | yes same ↦ rw (if_pos _ same) (IsAbove-IsOrdered j (remove k d) (remove-IsAbove j k d h))
    | no differ ↦ rw (if_neg _ differ) (remove-IsAbove j k d h)
  ]
