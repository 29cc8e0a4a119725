-- ===== src/Etcd/Coalesced.antt =====
-- A watch response against what its last event says of each key.
use pingsix.Prelude.{
  ◌≡◌, refl, ap, ◌∙◌, Bool, true, false, Option, none, some, List, [], ◌∷◌, ◌==◌, ◌≢◌, inl, inr,
  Bytes, bytes_eq, arith, All, Bool-cases, Option-cases, if◌then◌else◌,
}
use pingsix.Prelude.Dict
use pingsix.Graph.{ResourceKey, key_eq, StoredResource, StoredChange, ok, Result-cases}
use pingsix.Graph.Decode.Watch.{says, last_change}
use pingsix.Graph.Keys.{physical_key_to_resource_key, physical_key-logical_path}
use pingsix.Etcd.Names.{is_dotted, is_metadata_key}
use pingsix.Etcd.Snapshot.{ListKv, stored_of}
use pingsix.Etcd.Events.{
  EventType, put, delete, Event, change_of, values, coalesce_pair, coalesce_one, coalesce,
  graph_changes_from_events,
}
use pingsix.Etcd.Physical.{physical_key-exact}
use pingsix.Etcd.View.{physical, or_else, IsPlain, starts_with-physical, is_metadata_key-physical}

abbrev left_by : EventType → ListKv → Option StoredResource
left_by put kv = some (stored_of kv)
left_by delete kv = none

abbrev tells_at : Bytes → Event → Option (Option StoredResource)
tells_at key event = elim event.kv [
  | none ↦ none
  | some kv ↦ if kv.key == key then some (left_by event.event_type kv) else none
]

-- What the last event of a physical key leaves there.
abbrev pub last_event : Bytes → List Event → Option (Option StoredResource)
last_event key [] = none
last_event key (e ∷ es) = or_else (last_event key es) (tells_at key e)

-- What a change leaves at the key that it names.
abbrev target : StoredChange → Option StoredResource
target (StoredChange.put k r) = some r
target (StoredChange.delete k) = none

abbrev IsOf : ResourceKey × StoredChange → Type 0
IsOf (k, StoredChange.put j r) = j ≡ k
IsOf (k, StoredChange.delete j) = j ≡ k

abbrev targets : Option StoredChange → Option (Option StoredResource)
targets none = none
targets (some c) = some (target c)

change_of-IsOf : (t : EventType) (k : ResourceKey) (kv : ListKv) → IsOf (k, change_of t k kv)
change_of-IsOf put k kv = refl
change_of-IsOf delete k kv = refl

target-change_of :
    (t : EventType) (k : ResourceKey) (kv : ListKv) → target (change_of t k kv) ≡ left_by t kv
target-change_of put k kv = refl
target-change_of delete k kv = refl

says_of :
    (j k : ResourceKey) (c : StoredChange)
    → IsOf (k, c)
    → says j c ≡ (if j == k then some (target c) else none)
says_of j k (StoredChange.put i r) h = ground arith
says_of j k (StoredChange.delete i) h = ground arith

-- The changes of a map from keys to changes of these keys, in any order.
last_change-values :
    (j : ResourceKey) (d : Dict.Dict ResourceKey StoredChange)
    → Dict.NodupKeys d
    → All IsOf d
    → last_change j (values d) ≡ targets (Dict.lookup j d)
unfolding values Dict.lookup
last_change-values j [] _ _ = refl
last_change-values j ((k, c) ∷ d) (fresh, u) (here, rest) =
    ground (arith, says_of j k c here, last_change-values j d u rest)

module _ (is_utf8 : Bytes → Bool) (lossy : Bytes → Bytes) (p : Bytes) where
  coalesce_pair-ok :
      (t : EventType) (kv : ListKv) (d m : Dict.Dict ResourceKey StoredChange)
      → Dict.NodupKeys d
      → All IsOf d
      → coalesce_pair is_utf8 lossy p t kv d ≡ ok m
      → Dict.NodupKeys m × All IsOf m
  unfolding coalesce_pair
  coalesce_pair-ok t kv d m u a h =
      elim (Result-cases (physical_key_to_resource_key is_utf8 kv.key p)) [
        | inl (k, e) ↦ ground (
          arith,
          Dict.insert-NodupKeys k (change_of t k kv) d u,
          Dict.insert-All IsOf k (change_of t k kv) d (change_of-IsOf t k kv) a,
        )
        | inr (x, e) ↦ ground arith
      ]

  coalesce_pair-hit :
      (j : ResourceKey) (t : EventType) (kv : ListKv) (d m : Dict.Dict ResourceKey StoredChange)
      → IsPlain is_utf8 p j
      → is_dotted j.id ≡ false
      → lossy (physical p j) ≡ physical p j
      → kv.key ≡ physical p j
      → coalesce_pair is_utf8 lossy p t kv d ≡ ok m
      → Dict.lookup j m ≡ some (change_of t j kv)
  unfolding coalesce_pair
  coalesce_pair-hit j t kv d m plain clear law at h = ground (
    arith,
    starts_with-physical p j,
    is_metadata_key-physical is_utf8 p j plain,
    physical_key-logical_path is_utf8 p j plain.utf8 plain.nonempty plain.one_segment,
    Dict.lookup-insert j j (change_of t j kv) d,
  )

  coalesce_pair-miss :
      (j : ResourceKey) (t : EventType) (kv : ListKv) (d m : Dict.Dict ResourceKey StoredChange)
      → kv.key ≢ physical p j
      → coalesce_pair is_utf8 lossy p t kv d ≡ ok m
      → Dict.lookup j m ≡ Dict.lookup j d
  unfolding coalesce_pair
  coalesce_pair-miss j t kv d m away h =
      elim (Result-cases (physical_key_to_resource_key is_utf8 kv.key p)) [
        | inl (k, e) ↦ ground (
          arith,
          physical_key-exact is_utf8 kv.key p k e,
          Dict.lookup-insert j k (change_of t k kv) d,
        )
        | inr (x, e) ↦ ground arith
      ]

  coalesce_pair-metadata :
      (t : EventType) (kv : ListKv) (d m : Dict.Dict ResourceKey StoredChange)
      → is_metadata_key is_utf8 kv.key ≡ true
      → coalesce_pair is_utf8 lossy p t kv d ≡ ok m
      → m ≡ d
  unfolding coalesce_pair
  coalesce_pair-metadata t kv d m meta h = ground arith

  coalesce-ok :
      (es : List Event) (d m : Dict.Dict ResourceKey StoredChange)
      → Dict.NodupKeys d
      → All IsOf d
      → coalesce is_utf8 lossy p es d ≡ ok m
      → Dict.NodupKeys m × All IsOf m
  unfolding coalesce coalesce_one
  coalesce-ok [] d m u a h = ground arith
  coalesce-ok (e ∷ es) d m u a h = elim (Option-cases e.kv) [
    | inl bare ↦ absurd (ground arith)
    | inr (kv, pair) ↦ elim (Result-cases (coalesce_pair is_utf8 lossy p e.event_type kv d)) [
      | inl (n, one) ↦
          let (v, b) = coalesce_pair-ok e.event_type kv d n u a one in
          coalesce-ok es n m v b (ground arith)
      | inr (x, bad) ↦ absurd (ground arith)
    ]
  ]

  module _ (j : ResourceKey) (plain : IsPlain is_utf8 p j)
      (law : lossy (physical p j) ≡ physical p j) where
    coalesce-last_event :
        (es : List Event) (d m : Dict.Dict ResourceKey StoredChange)
        → is_dotted j.id ≡ false
        → coalesce is_utf8 lossy p es d ≡ ok m
        → targets (Dict.lookup j m)
          ≡ or_else (last_event (physical p j) es) (targets (Dict.lookup j d))
    unfolding coalesce coalesce_one
    coalesce-last_event [] d m clear h = ground arith
    coalesce-last_event (e ∷ es) d m clear h = elim (Option-cases e.kv) [
      | inl bare ↦ absurd (ground arith)
      | inr (kv, pair) ↦ elim (Result-cases (coalesce_pair is_utf8 lossy p e.event_type kv d)) [
        | inl (n, one) ↦ elim (bytes_eq.dec kv.key (physical p j)) [
          | yes same ↦ ground (
            arith,
            coalesce-last_event es n m clear,
            target-change_of e.event_type j kv,
            coalesce_pair-hit j e.event_type kv d n plain clear law same one,
          )
          | no differ ↦ ground (
            arith,
            coalesce-last_event es n m clear,
            coalesce_pair-miss j e.event_type kv d n differ one,
          )
        ]
        | inr (x, bad) ↦ absurd (ground arith)
      ]
    ]

    coalesce-hidden :
        (es : List Event) (d m : Dict.Dict ResourceKey StoredChange)
        → is_dotted j.id ≡ true
        → coalesce is_utf8 lossy p es d ≡ ok m
        → Dict.lookup j m ≡ Dict.lookup j d
    unfolding coalesce coalesce_one
    coalesce-hidden [] d m dotted h = ground arith
    coalesce-hidden (e ∷ es) d m dotted h = elim (Option-cases e.kv) [
      | inl bare ↦ absurd (ground arith)
      | inr (kv, pair) ↦ elim (Result-cases (coalesce_pair is_utf8 lossy p e.event_type kv d)) [
        | inl (n, one) ↦ elim (bytes_eq.dec kv.key (physical p j)) [
          | yes same ↦
              let meta =
                ap (is_metadata_key is_utf8) same
                ∙ is_metadata_key-physical is_utf8 p j plain
                ∙ dotted in
              ground (
                arith,
                coalesce-hidden es n m dotted,
                coalesce_pair-metadata e.event_type kv d n meta one,
              )
          | no differ ↦ ground (
            arith,
            coalesce-hidden es n m dotted,
            coalesce_pair-miss j e.event_type kv d n differ one,
          )
        ]
        | inr (x, bad) ↦ absurd (ground arith)
      ]
    ]

changes_coalesced :
    (is_utf8 : Bytes → Bool) (lossy : Bytes → Bytes) (p : Bytes) (es : List Event)
    (cs : List StoredChange)
    → graph_changes_from_events is_utf8 lossy es p ≡ ok cs
    → (d : Dict.Dict ResourceKey StoredChange) × (coalesce is_utf8 lossy p es [] ≡ ok d)
      × (cs ≡ values d)
unfolding graph_changes_from_events
changes_coalesced is_utf8 lossy p es cs h = elim (Result-cases (coalesce is_utf8 lossy p es [])) [
  | inl (d, e) ↦ (d, e, ground arith)
  | inr (x, e) ↦ absurd (ground arith)
]

-- The changes of a watch response say of each resource what the last event for its physical key
-- leaves, and nothing of a resource whose identifier begins with a dot. The decoding of bytes as
-- text keeps the physical key.
pub graph_changes_from_events-last_event :
    (is_utf8 : Bytes → Bool) (lossy : Bytes → Bytes) (p : Bytes) (j : ResourceKey) (es : List Event)
    (cs : List StoredChange)
    → IsPlain is_utf8 p j
    → lossy (physical p j) ≡ physical p j
    → graph_changes_from_events is_utf8 lossy es p ≡ ok cs
    → last_change j cs ≡ (if is_dotted j.id then none else last_event (physical p j) es)
graph_changes_from_events-last_event is_utf8 lossy p j es cs plain law h =
    let (d, made, same) = changes_coalesced is_utf8 lossy p es cs h in
    let (u, a) = coalesce-ok is_utf8 lossy p es [] d tt tt made in
    let told = ap (last_change j) same ∙ last_change-values j d u a in
    let empty = Dict.lookup-nil {V = StoredChange} j in
    elim (Bool-cases (is_dotted j.id)) [
      | inl dotted ↦ ground (arith, coalesce-hidden is_utf8 lossy p j plain law es [] d dotted made)
      | inr clear ↦
          ground (arith, coalesce-last_event is_utf8 lossy p j plain law es [] d clear made)
    ]
