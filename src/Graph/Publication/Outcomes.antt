-- ===== src/Graph/Publication/Outcomes.antt =====
-- The outcome of one revision, under every operation of the registry.
use pingsix.Prelude.{
  ℕ, ap, inl, inr, Option, some, ◌&&◌, ltb, arith, ◌==◌, nat_eq, if◌then◌else◌, String, ℕ_discrete,
}
use mathlib.Core.Logic.{if_pos}
use pingsix.Prelude.Dict
use pingsix.Prelude.Dict.{Dict}
use pingsix.Prelude.Ordered.{IsOrdered}
use pingsix.Graph.Publication.{
  PublicationRecord, PublicationRegistry, enter, mark_pending, supersede, supersede_pending_except,
  update, as_published, as_rejected, mark_published, mark_rejected,
}
use pingsix.Graph.Publication.Bounds.{trim-IsOrdered}
use pingsix.Graph.Publication.Transitions.{AgesTo, AgesTo-trans, trim-AgesTo}
use pingsix.Graph.Publication.Records.{
  mapped, lookup-update, lookup-supersede_records, or_pending, lookup-enter, update-IsOrdered,
  supersede_records-IsOrdered, enter-IsOrdered,
}

-- One call of the authority.
pub data Call : Type 0 where
  pend : ℕ → Call
  supersede_others : ℕ → Call
  publish : ℕ → Call
  reject : ℕ → String → Call

unfoldable pub apply : Call → PublicationRegistry → PublicationRegistry
apply (pend r) p = mark_pending r p
apply (supersede_others r) p = supersede_pending_except r p
apply (publish r) p = mark_published r p
apply (reject r e) p = mark_rejected r e p

abbrev pub IsSorted : PublicationRegistry → Type 0
IsSorted p = IsOrdered p.records

mark_pending-IsSorted : (r : ℕ) (p : PublicationRegistry) → IsSorted p → IsSorted (mark_pending r p)
unfolding mark_pending
mark_pending-IsSorted r p h = ground (
  arith,
  trim-IsOrdered (record p { records = enter r p.records }),
  enter-IsOrdered r p.records h,
)

-- What `mark_published` trims.
abbrev updated : ℕ → PublicationRegistry → PublicationRegistry
updated r p = record {
  records = update r as_published (mark_pending r p).records;
  published_revision = some r;
}

-- The registry stays in the order of the revisions.
apply-IsSorted : (c : Call) (p : PublicationRegistry) → IsSorted p → IsSorted (apply c p)
unfolding apply mark_published supersede_pending_except mark_rejected
apply-IsSorted (pend r) p h = mark_pending-IsSorted r p h
apply-IsSorted (supersede_others r) p h = supersede_records-IsOrdered r p.records h
apply-IsSorted (publish r) p h =
    trim-IsOrdered (updated r p) (update-IsOrdered r as_published _ (mark_pending-IsSorted r p h))
apply-IsSorted (reject r e) p h = update-IsOrdered r (as_rejected e) p.records h

-- What each call does to the record of `j`, but for ageing.
abbrev pub pended : ℕ → ℕ → Option PublicationRecord → Option PublicationRecord
pended r j old = if ltb 0 r && j == r then or_pending old else old

abbrev pub effect : Call → ℕ → Option PublicationRecord → Option PublicationRecord
effect (pend r) j old = pended r j old
effect (supersede_others r) j old = mapped (supersede r j) old
effect (publish r) j old = if j == r then mapped as_published (pended r j old) else old
effect (reject r e) j old = if j == r then mapped (as_rejected e) old else old

pended-AgesTo :
    (r j : ℕ) (p : PublicationRegistry)
    → IsSorted p
    → AgesTo (pended r j (Dict.lookup j p.records)) (Dict.lookup j (mark_pending r p).records)
unfolding mark_pending
pended-AgesTo r j p h = ground (
  arith,
  lookup-enter j r p.records,
  trim-AgesTo j (record p { records = enter r p.records }) (enter-IsOrdered r p.records h),
)

AgesTo-published :
    (a b : Option PublicationRecord)
    → AgesTo a b
    → AgesTo (mapped as_published a) (mapped as_published b)
AgesTo-published a b (inl same) = inl (ap (mapped as_published) same)
AgesTo-published a b (inr (x, old, settled, gone)) =
    inr (as_published x, ap (mapped as_published) old, (λ e. cc), ap (mapped as_published) gone)

updated-AgesTo :
    (r j : ℕ) (p : PublicationRegistry)
    → IsSorted p
    → AgesTo (effect (publish r) j (Dict.lookup j p.records)) (Dict.lookup j (updated r p).records)
updated-AgesTo r j p h = rw lookup-update (elim (ℕ_discrete j r) [
  | yes same ↦
      rw (if_pos _ same) (rw (if_pos _ same) at (AgesTo-published _ _ (pended-AgesTo r j p h)))
  | no differ ↦ ground (arith, pended-AgesTo r j p h)
])

-- Every call does to each revision what its name says, and ages out settled records alone: a
-- pending revision leaves the registry only by an outcome.
pub apply-effect :
    (c : Call) (j : ℕ) (p : PublicationRegistry)
    → IsSorted p
    → AgesTo (effect c j (Dict.lookup j p.records)) (Dict.lookup j (apply c p).records)
unfolding apply
apply-effect (pend r) j p h = pended-AgesTo r j p h
apply-effect (supersede_others r) j p h =
    unfold supersede_pending_except in inl (lookup-supersede_records j r p.records)
apply-effect (publish r) j p h =
    unfold mark_published in
    AgesTo-trans _ (Dict.lookup j (updated r p).records) _ (updated-AgesTo r j p h) (
      trim-AgesTo j (updated r p) (update-IsOrdered r as_published _ (mark_pending-IsSorted r p h)))
apply-effect (reject r e) j p h =
    unfold mark_rejected in inl (lookup-update j r (as_rejected e) p.records)
