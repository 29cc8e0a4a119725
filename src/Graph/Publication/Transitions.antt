-- ===== src/Graph/Publication/Transitions.antt =====
-- How the outcome of one revision moves under each operation of the registry.
use pingsix.Prelude.{
  ℕ, zero, suc, ◌<◌, ◌≡◌, ◌≢◌, refl, ◌⊎◌, inl, inr, Bool-cases, Option, none, some, [], ◌∷◌, length,
  arith, nat_eq, ℕ_discrete,
}
use pingsix.Prelude.Dict
use pingsix.Prelude.Dict.{Dict}
use pingsix.Prelude.Ordered.{IsOrdered, IsAbove, remove-IsOrdered}
use pingsix.Graph.Publication.{
  PublicationRecord, PublicationRegistry, pending, is_pending, first_settled, trim_loop, trim,
}
use pingsix.Graph.Publication.Bounds.{trim_loop-cases}

first_settled-above :
    (b : ℕ) (d : Dict ℕ PublicationRecord) (r : ℕ)
    → IsAbove b d
    → first_settled d ≡ some r
    → (x : PublicationRecord) × (b < r) × (Dict.lookup r d ≡ some x) × (x.state ≢ pending)
unfolding first_settled Dict.lookup
first_settled-above b [] r h f = absurd (ground arith)
first_settled-above b ((k, x) ∷ d) r (l, h) f = elim (Bool-cases (is_pending x.state)) [
  | inl waits ↦
      let (y, above, found, settled) = first_settled-above k d r h (ground arith) in
      (y, omega arith, ground arith, settled)
  | inr settled ↦ (x, ground arith, ground arith, ground arith)
]

first_settled-lookup :
    (d : Dict ℕ PublicationRecord) (r : ℕ)
    → IsOrdered d
    → first_settled d ≡ some r
    → (x : PublicationRecord) × (Dict.lookup r d ≡ some x) × (x.state ≢ pending)
unfolding first_settled Dict.lookup
first_settled-lookup [] r h f = absurd (ground arith)
first_settled-lookup ((k, x) ∷ d) r h f = elim (Bool-cases (is_pending x.state)) [
  | inl waits ↦
      let (y, above, found, settled) = first_settled-above k d r h (ground arith) in
      (y, ground arith, settled)
  | inr settled ↦ (x, ground arith, ground arith)
]

-- A record is kept as it is, or it is settled and aged out.
abbrev pub AgesTo : Option PublicationRecord → Option PublicationRecord → Type 0
AgesTo old new =
    (new ≡ old) ⊎ ((x : PublicationRecord) × (old ≡ some x) × (x.state ≢ pending) × (new ≡ none))

remove-AgesTo :
    (j r : ℕ) (d : Dict ℕ PublicationRecord)
    → IsOrdered d
    → first_settled d ≡ some r
    → AgesTo (Dict.lookup j d) (Dict.lookup j (Dict.remove r d))
remove-AgesTo j r d h f = elim (ℕ_discrete j r) [
  | yes same ↦
      let (x, found, settled) = first_settled-lookup d r h f in
      inr (x, rw same found, settled, ground (arith, Dict.lookup-remove j r d))
  | no differ ↦ inl (ground (arith, Dict.lookup-remove j r d))
]

AgesTo-none : (b c : Option PublicationRecord) → AgesTo b c → b ≡ none → c ≡ none
AgesTo-none b c h e = ground arith

pub AgesTo-trans : (a b c : Option PublicationRecord) → AgesTo a b → AgesTo b c → AgesTo a c
AgesTo-trans a b c (inl same) h = rw (← same) h
AgesTo-trans a b c (inr (x, old, settled, gone)) h = inr (x, old, settled, AgesTo-none b c h gone)

trim_loop-AgesTo :
    (j fuel : ℕ) (d : Dict ℕ PublicationRecord)
    → IsOrdered d
    → AgesTo (Dict.lookup j d) (Dict.lookup j (trim_loop fuel d))
unfolding trim_loop
trim_loop-AgesTo j zero d h = inl refl
trim_loop-AgesTo j (suc fuel) d h = elim (trim_loop-cases fuel d) [
  | inl (bounded, same) ↦ inl (rw same)
  | inr (r, found, next) ↦ rw next (
      AgesTo-trans _ (Dict.lookup j (Dict.remove r d)) _ (remove-AgesTo j r d h found)
        (trim_loop-AgesTo j fuel (Dict.remove r d) (remove-IsOrdered r d h)))
]

pub trim-AgesTo :
    (j : ℕ) (p : PublicationRegistry)
    → IsOrdered p.records
    → AgesTo (Dict.lookup j p.records) (Dict.lookup j (trim p).records)
unfolding trim
trim-AgesTo j p h = trim_loop-AgesTo j (length p.records) p.records h
