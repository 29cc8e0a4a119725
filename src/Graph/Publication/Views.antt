-- ===== src/Graph/Publication/Views.antt =====
-- What the registry shows of a submission and of a publication.
use pingsix.Prelude.{
  ℕ, zero, suc, ◌≤◌, ◌<◌, ◌≡◌, refl, ap, ◌∙◌, ◌⊎◌, inl, inr, Option-cases, none, some, [], ◌∷◌,
  length, arith, ◌==◌, nat_eq, if◌then◌else◌,
}
use pingsix.Prelude.Dict
use pingsix.Prelude.Dict.{Dict}
use pingsix.Graph.Publication.{
  PublicationRecord, PublicationRegistry, pending, published, capacity, trim, trim_loop, enter,
  mark_pending, supersede_pending_except, update, as_published, mark_published, view,
}
use pingsix.Graph.Publication.Bounds.{IsBounded, trim-IsBounded}
use pingsix.Graph.Publication.Records.{lookup-update, lookup-supersede_records, lookup-enter}
use pingsix.Graph.Publication.Outcomes.{
  Call, pend, supersede_others, publish, reject, apply, apply-effect, IsSorted, effect,
}

-- After each call that can grow it, the registry is within its capacity or holds pending revisions
-- alone, however large it was before.
pub mark_published-IsBounded :
    (r : ℕ) (p : PublicationRegistry)
    → 0 < r
    → IsBounded (mark_published r p).records × IsBounded (mark_pending r p).records
unfolding mark_published mark_pending
mark_published-IsBounded r p h = (
  ground (
    arith,
    trim-IsBounded (record {
      records = update r as_published (mark_pending r p).records;
      published_revision = some r;
    }),
  ),
  ground (arith, trim-IsBounded (record p { records = enter r p.records })),
)

-- A submission leaves no other revision pending.
pub submitted_alone :
    (r j : ℕ) (p : PublicationRegistry) {x : PublicationRecord}
    → Dict.lookup j (supersede_pending_except r (mark_pending r p)).records ≡ some x
    → x.state ≡ pending
    → j ≡ r
unfolding supersede_pending_except
submitted_alone r j p found waits = ground (
  arith,
  lookup-supersede_records j r (mark_pending r p).records,
  Option-cases (Dict.lookup j (mark_pending r p).records),
)

effect-published :
    (c : Call) (j : ℕ) (x : PublicationRecord)
    → x.state ≡ published
    → (y : PublicationRecord) × (effect c j (some x) ≡ some y) × (y.state ≡ published)
effect-published (pend r) j x h = (x, ground arith, h)
effect-published (supersede_others r) j x h = (x, ground arith, h)
effect-published (publish r) j x h =
    (if j == r then as_published x else x, ground arith, ground arith)
effect-published (reject r e) j x h = (x, ground arith, h)

-- A published revision stays published until it ages out, whatever call comes next.
pub published_final :
    (c : Call) (j : ℕ) (p : PublicationRegistry) {x : PublicationRecord}
    → IsSorted p
    → Dict.lookup j p.records ≡ some x
    → x.state ≡ published
    → (Dict.lookup j (apply c p).records ≡ none)
      ⊎ ((y : PublicationRecord) × (Dict.lookup j (apply c p).records ≡ some y)
          × (y.state ≡ published))
published_final c j p {x} sorted found done = elim (apply-effect c j p sorted) [
  | inl kept ↦
      let (y, new, same) = effect-published c j x done in
      inr (y, kept ∙ ap (effect c j) found ∙ new, same)
  | inr (y, old, settled, gone) ↦ inl gone
]

trim_loop-fits :
    (fuel : ℕ) (d : Dict ℕ PublicationRecord) → length d ≤ capacity → trim_loop fuel d ≡ d
unfolding trim_loop
trim_loop-fits zero d h = refl
trim_loop-fits (suc fuel) d h = ground arith

trim-fits : (p : PublicationRegistry) → length p.records ≤ capacity → trim p ≡ p
unfolding trim
trim-fits p h = ground (arith, trim_loop-fits (length p.records) p.records h)

length-update :
    (k : ℕ) (f : PublicationRecord → PublicationRecord) (d : Dict ℕ PublicationRecord)
    → length (update k f d) ≡ length d
unfolding update
length-update k f [] = refl
length-update k f (_ ∷ d) = ground (arith, length-update k f d)

-- While the registry has room, a publication is visible at once: the view of the revision says so,
-- without an error, and names it as the latest.
pub view-mark_published :
    (r : ℕ) (p : PublicationRegistry)
    → 0 < r
    → length (enter r p.records) ≤ capacity
    → view r (mark_published r p)
      ≡ some (record { state = published; published_revision = some r; error = none })
unfolding view mark_published mark_pending
view-mark_published r p pos room =
    let entered : PublicationRegistry = record p { records = enter r p.records } in
    let updated : PublicationRegistry = record {
      records = update r as_published (enter r p.records);
      published_revision = some r;
    } in
    ground (
      arith,
      trim-fits entered room,
      trim-fits updated,
      length-update r as_published (enter r p.records),
      lookup-update r r as_published (enter r p.records),
      lookup-enter r r p.records,
      Option-cases (Dict.lookup r p.records),
    )
