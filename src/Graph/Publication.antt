-- ===== src/Graph/Publication.antt =====
-- `PublicationRegistry` (state.rs): the outcome of each retained revision, in a `BTreeMap`.
pub mod Bounds
pub mod Transitions
pub mod Records
pub mod Outcomes
pub mod Views
use pingsix.Prelude.{
  ℕ, zero, suc, ◌<◌, Bool, true, false, not, ◌&&◌, Option, none, some, String, List, [], ◌∷◌, ltb,
  leb, length, if◌then◌else◌, Eq, ◌==◌, nat_eq,
}
use pingsix.Prelude.Dict
use pingsix.Prelude.Dict.{Dict}
use pingsix.Prelude.Ordered

pub data PublicationState : Type 0 where
  pending published rejected superseded : PublicationState

pub record PublicationRecord : Type 0 where
  pub state : PublicationState
  pub error : Option String

pub record PublicationView : Type 0 where
  pub state : PublicationState
  pub published_revision : Option ℕ
  pub error : Option String

pub record PublicationRegistry : Type 0 where
  pub records : Dict ℕ PublicationRecord
  pub published_revision : Option ℕ

-- `PUBLICATION_REGISTRY_CAPACITY`
abbrev pub capacity : ℕ
capacity = 128

-- `PublicationRegistry::default`
unfoldable pub empty : PublicationRegistry
empty = record { records = []; published_revision = none }

abbrev pub is_pending : PublicationState → Bool
is_pending pending = true
is_pending _ = false

-- The `find_map` of `trim`: the least revision whose outcome is known.
unfoldable pub first_settled : Dict ℕ PublicationRecord → Option ℕ
first_settled [] = none
first_settled ((revision, r) ∷ d) = if is_pending r.state then first_settled d else some revision

-- The loop of `trim`. Each round removes a record, so as many rounds as there are records are
-- enough.
unfoldable pub trim_loop : ℕ → Dict ℕ PublicationRecord → Dict ℕ PublicationRecord
unfolding first_settled Dict.remove
trim_loop zero d = d
trim_loop (suc fuel) d = elim (ltb capacity (length d)) [
  | false ↦ d
  | true ↦ elim (first_settled d) [ none ↦ d | some r ↦ trim_loop fuel (Dict.remove r d) ]
]

unfoldable pub trim : PublicationRegistry → PublicationRegistry
unfolding trim_loop
trim p = record p { records = trim_loop (length p.records) p.records }

-- `entry(revision).or_insert(…)`
unfoldable pub enter : ℕ → Dict ℕ PublicationRecord → Dict ℕ PublicationRecord
unfolding Dict.lookup Ordered.insert
enter revision d = elim (Dict.lookup revision d) [
  | some _ ↦ d
  | none ↦ Ordered.insert revision (record { state = pending; error = none }) d
]

unfoldable pub mark_pending : ℕ → PublicationRegistry → PublicationRegistry
unfolding enter trim
mark_pending revision p =
    if ltb 0 revision then trim (record p { records = enter revision p.records }) else p

abbrev pub supersede : ℕ → ℕ → PublicationRecord → PublicationRecord
supersede revision candidate r =
    if not (candidate == revision) && is_pending r.state
    then record { state = superseded; error = none }
    else r

unfoldable pub supersede_records : ℕ → Dict ℕ PublicationRecord → Dict ℕ PublicationRecord
supersede_records revision [] = []
supersede_records revision ((candidate, r) ∷ d) =
    (candidate, supersede revision candidate r) ∷ supersede_records revision d

unfoldable pub supersede_pending_except : ℕ → PublicationRegistry → PublicationRegistry
unfolding supersede_records
supersede_pending_except revision p = record p { records = supersede_records revision p.records }

-- A write through `get_mut`.
unfoldable pub update :
    ℕ
    → (PublicationRecord → PublicationRecord)
    → Dict ℕ PublicationRecord
    → Dict ℕ PublicationRecord
update revision f [] = []
update revision f ((k, r) ∷ d) =
    if revision == k then (k, f r) ∷ d else (k, r) ∷ update revision f d

abbrev pub as_published : PublicationRecord → PublicationRecord
as_published r = record { state = published; error = none }

abbrev pub as_rejected : String → PublicationRecord → PublicationRecord
as_rejected error r =
    if is_pending r.state then record { state = rejected; error = some error } else r

unfoldable pub mark_published : ℕ → PublicationRegistry → PublicationRegistry
unfolding mark_pending update trim
mark_published revision p =
    let q = mark_pending revision p in
    trim (record {
      records = update revision as_published q.records;
      published_revision = some revision;
    })

unfoldable pub mark_rejected : ℕ → String → PublicationRegistry → PublicationRegistry
unfolding update
mark_rejected revision error p = record p {
  records = update revision (as_rejected error) p.records;
}

abbrev view_of : Option ℕ → Option PublicationRecord → Option PublicationView
view_of latest none = none
view_of latest (some r) =
    some (record { state = r.state; published_revision = latest; error = r.error })

unfoldable pub view : ℕ → PublicationRegistry → Option PublicationView
unfolding Dict.lookup
view revision p = view_of p.published_revision (Dict.lookup revision p.records)
