-- ===== src/Graph/Publication/Bounds.antt =====
-- What `trim` keeps, and the size of the registry.
use pingsix.Prelude.{
  ℕ, zero, suc, ◌≤◌, ◌<◌, ◌≡◌, ◌⊎◌, inl, inr, Bool-cases, Option-cases, none, some, [], ◌∷◌, length,
  ltb, All, arith, nat_eq,
}
use pingsix.Prelude.Dict
use pingsix.Prelude.Dict.{Dict, length-remove-le, lookup-remove}
use pingsix.Prelude.Ordered.{IsOrdered, remove-IsOrdered}
use pingsix.Graph.Publication.{
  PublicationRecord, PublicationRegistry, pending, capacity, first_settled, trim_loop, trim,
}

first_settled-remove :
    (d : Dict ℕ PublicationRecord) (r : ℕ)
    → first_settled d ≡ some r
    → length (Dict.remove r d) < length d
unfolding first_settled Dict.remove
first_settled-remove [] r h = absurd (ground arith)
first_settled-remove ((k, p) ∷ d) r h =
    ground (arith, first_settled-remove d r, length-remove-le r d)

first_settled-none :
    (d : Dict ℕ PublicationRecord) → first_settled d ≡ none → All (λ e. e.1.state ≡ pending) d
unfolding first_settled
first_settled-none [] h = tt
first_settled-none ((k, p) ∷ d) h = ground (arith, first_settled-none d)

-- The registry is within its capacity, or holds pending revisions alone.
abbrev pub IsBounded : Dict ℕ PublicationRecord → Type 0
IsBounded d = (length d ≤ capacity) ⊎ All (λ e. e.1.state ≡ pending) d

-- One round of the loop: it ends, or removes the least settled revision.
pub trim_loop-cases :
    (fuel : ℕ) (d : Dict ℕ PublicationRecord)
    → ((IsBounded d) × (trim_loop (suc fuel) d ≡ d))
      ⊎ ((r : ℕ) × (first_settled d ≡ some r)
          × (trim_loop (suc fuel) d ≡ trim_loop fuel (Dict.remove r d)))
unfolding trim_loop
trim_loop-cases fuel d = elim (Bool-cases (ltb capacity (length d))) [
  | inl full ↦ elim (Option-cases (first_settled d)) [
    | inl stuck ↦ inl (inr (first_settled-none d stuck), ground arith)
    | inr (r, found) ↦ inr (r, found, ground arith)
  ]
  | inr fits ↦ inl (inl (ground arith), ground arith)
]

trim_loop-IsBounded :
    (fuel : ℕ) (d : Dict ℕ PublicationRecord) → length d ≤ fuel → IsBounded (trim_loop fuel d)
unfolding trim_loop
trim_loop-IsBounded zero d h = inl (omega arith)
trim_loop-IsBounded (suc fuel) d h = elim (trim_loop-cases fuel d) [
  | inl (bounded, same) ↦ rw same bounded
  | inr (r, found, next) ↦
      rw next
        (trim_loop-IsBounded fuel (Dict.remove r d) (omega (arith, first_settled-remove d r found)))
]

-- Whatever is true of the records and kept by the removal of a settled one, `trim` keeps.
pub trim_loop-keeps {ℓ} :
    (P : Dict ℕ PublicationRecord → Type ℓ)
    → ((d : Dict ℕ PublicationRecord) (r : ℕ)
        → P d
        → first_settled d ≡ some r
        → P (Dict.remove r d))
    → (fuel : ℕ) (d : Dict ℕ PublicationRecord) → P d
    → P (trim_loop fuel d)
unfolding trim_loop
trim_loop-keeps P keep zero d h = h
trim_loop-keeps P keep (suc fuel) d h = elim (trim_loop-cases fuel d) [
  | inl (bounded, same) ↦ rw same h
  | inr (r, found, next) ↦
      rw next (trim_loop-keeps P keep fuel (Dict.remove r d) (keep d r h found))
]

pub trim-IsOrdered : (p : PublicationRegistry) → IsOrdered p.records → IsOrdered (trim p).records
unfolding trim
trim-IsOrdered p =
    trim_loop-keeps IsOrdered (λ d r h found. remove-IsOrdered r d h) (length p.records) p.records

pub trim-IsBounded : (p : PublicationRegistry) → IsBounded (trim p).records
unfolding trim
trim-IsBounded p = trim_loop-IsBounded (length p.records) p.records (omega arith)
