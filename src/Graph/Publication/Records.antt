-- ===== src/Graph/Publication/Records.antt =====
-- How the writes of the registry act on the record of one revision, and on the order of the map.
use pingsix.Prelude.{
  ℕ, ◌≡◌, refl, inl, inr, Option-cases, Option, none, some, [], ◌∷◌, arith, ◌==◌, nat_eq,
  if◌then◌else◌, ℕ_discrete,
}
use pingsix.Prelude.Dict
use pingsix.Prelude.Dict.{Dict}
use pingsix.Prelude.Ordered
use pingsix.Prelude.Ordered.{IsOrdered, IsAbove, insert-IsOrdered}
use pingsix.Graph.Publication.{
  PublicationRecord, pending, enter, supersede, supersede_records, update,
}

abbrev pub mapped :
    (PublicationRecord → PublicationRecord) → Option PublicationRecord → Option PublicationRecord
mapped f none = none
mapped f (some r) = some (f r)

pub lookup-update :
    (j k : ℕ) (f : PublicationRecord → PublicationRecord) (d : Dict ℕ PublicationRecord)
    → Dict.lookup j (update k f d)
      ≡ (if j == k then mapped f (Dict.lookup j d) else Dict.lookup j d)
unfolding update Dict.lookup
lookup-update j k f [] = ground arith
lookup-update j k f (_ ∷ d) = ground (arith, lookup-update j k f d)

pub lookup-supersede_records :
    (j k : ℕ) (d : Dict ℕ PublicationRecord)
    → Dict.lookup j (supersede_records k d) ≡ mapped (supersede k j) (Dict.lookup j d)
unfolding supersede_records Dict.lookup
lookup-supersede_records j k [] = refl
lookup-supersede_records j k ((c, r) ∷ d) = elim (ℕ_discrete j c) [
  | yes same ↦ ground arith
  | no differ ↦ ground (arith, lookup-supersede_records j k d)
]

abbrev pub or_pending : Option PublicationRecord → Option PublicationRecord
or_pending none = some (record { state = pending; error = none })
or_pending (some r) = some r

pub lookup-enter :
    (j k : ℕ) (d : Dict ℕ PublicationRecord)
    → Dict.lookup j (enter k d) ≡ (if j == k then or_pending (Dict.lookup j d) else Dict.lookup j d)
unfolding enter
lookup-enter j k d = elim (Option-cases (Dict.lookup k d)) [
  | inl absent ↦
      ground (arith, Ordered.lookup-insert j k (record { state = pending; error = none }) d)
  | inr (r, found) ↦ ground arith
]

update-IsAbove :
    (b k : ℕ) (f : PublicationRecord → PublicationRecord) (d : Dict ℕ PublicationRecord)
    → IsAbove b d
    → IsAbove b (update k f d)
unfolding update
update-IsAbove b k f [] h = tt
update-IsAbove b k f ((c, r) ∷ d) (l, h) = ground (arith, update-IsAbove c k f d)

pub update-IsOrdered :
    (k : ℕ) (f : PublicationRecord → PublicationRecord) (d : Dict ℕ PublicationRecord)
    → IsOrdered d
    → IsOrdered (update k f d)
unfolding update
update-IsOrdered k f [] h = tt
update-IsOrdered k f ((c, r) ∷ d) h = ground (arith, update-IsAbove c k f d)

supersede_records-IsAbove :
    (b k : ℕ) (d : Dict ℕ PublicationRecord) → IsAbove b d → IsAbove b (supersede_records k d)
unfolding supersede_records
supersede_records-IsAbove b k [] h = tt
supersede_records-IsAbove b k ((c, r) ∷ d) (l, h) = (l, supersede_records-IsAbove c k d h)

pub supersede_records-IsOrdered :
    (k : ℕ) (d : Dict ℕ PublicationRecord) → IsOrdered d → IsOrdered (supersede_records k d)
unfolding supersede_records
supersede_records-IsOrdered k [] h = tt
supersede_records-IsOrdered k ((c, r) ∷ d) h = supersede_records-IsAbove c k d h

pub enter-IsOrdered : (k : ℕ) (d : Dict ℕ PublicationRecord) → IsOrdered d → IsOrdered (enter k d)
unfolding enter
enter-IsOrdered k d h = elim (Option-cases (Dict.lookup k d)) [
  | inl absent ↦ ground (arith, insert-IsOrdered k (record { state = pending; error = none }) d)
  | inr (r, found) ↦ ground arith
]
