-- ===== src/Etcd/View.antt =====
-- A list response against what each key of the namespace last had: the resources that the graph of
-- the response shows, and those that it does not.
use pingsix.Prelude.{
  ℕ, ◌≡◌, refl, ap, sym, ◌∙◌, Bool, true, false, Option, none, some, List, [], ◌∷◌, ◌++◌, ◌==◌, ◌≢◌,
  ◌↔◌, inl, inr, Bytes, bytes_eq, elem, is_nil, arith, Bool-cases, if◌then◌else◌,
}
use pingsix.Prelude.Dict
use pingsix.Graph.{ResourceKey, key_eq, StoredResource, StoredGraph, ok, logical_path, Result-cases}
use pingsix.Graph.Keys.{
  KeyError, strip_prefix-append, physical_key_to_resource_key, physical_key-logical_path,
}
use pingsix.Etcd.Names.{starts_with, is_metadata_key, is_dotted}
use pingsix.Etcd.Snapshot.{ListKv, stored_of, Listing, list_one, list_all, graph_snapshot_from_list}
use pingsix.Etcd.Physical.{
  physical_key-exact, physical_key-checked, leaf-logical_path, logical_path-guard,
}

abbrev pub physical : Bytes → ResourceKey → Bytes
physical p j = p ++ logical_path j

abbrev pub or_else {ℓ} : {A : Type ℓ} → Option A → Option A → Option A
or_else none b = b
or_else (some a) b = some a

abbrev holds_at : Bytes → ListKv → Option StoredResource
holds_at key kv = if kv.key == key then some (stored_of kv) else none

-- What the last pair of a physical key holds.
abbrev pub last_at : Bytes → List ListKv → Option StoredResource
last_at key [] = none
last_at key (kv ∷ kvs) = or_else (last_at key kvs) (holds_at key kv)

-- The keys of resources that keys.rs lets a writer name and the mapping reads.
pub record IsPlain (is_utf8 : Bytes → Bool) (p : Bytes) (j : ResourceKey) : Type 0 where
  pub utf8 : is_utf8 (physical p j) ≡ true
  pub nonempty : is_nil j.id ≡ false
  pub one_segment : elem b'/' j.id ≡ false

pub starts_with-physical : (p : Bytes) (j : ResourceKey) → starts_with p (physical p j) ≡ true
unfolding starts_with
starts_with-physical p j = rw (strip_prefix-append p (logical_path j)) refl

-- Whether the physical key of a resource is taken for metadata is whether its identifier begins
-- with a dot.
pub is_metadata_key-physical :
    (is_utf8 : Bytes → Bool) (p : Bytes) (j : ResourceKey)
    → IsPlain is_utf8 p j
    → is_metadata_key is_utf8 (physical p j) ≡ is_dotted j.id
unfolding is_metadata_key logical_path
is_metadata_key-physical is_utf8 p j plain =
    rw (is_metadata_key, plain.utf8, leaf-logical_path p j plain.one_segment) refl

physical_key-IsPlain :
    (is_utf8 : Bytes → Bool) (key p : Bytes) (j : ResourceKey)
    → physical_key_to_resource_key is_utf8 key p ≡ ok j
    → (key ≡ physical p j) × IsPlain is_utf8 p j
physical_key-IsPlain is_utf8 key p j h =
    let same = physical_key-exact is_utf8 key p j h in
    let (u, n, s) = physical_key-checked is_utf8 key p j h in
    (same, record { utf8 = ap is_utf8 (sym same) ∙ u; nonempty = n; one_segment = s })

-- A physical key is read as a resource exactly where it is the prefix followed by the logical path
-- of the resource, is UTF-8, and the identifier of the resource is not empty and has no slash.
pub physical_key_iff :
    (is_utf8 : Bytes → Bool) (key p : Bytes) (j : ResourceKey)
    → (physical_key_to_resource_key is_utf8 key p ≡ ok j)
      ↔ ((key ≡ physical p j) × IsPlain is_utf8 p j)
physical_key_iff is_utf8 key p j = (
  physical_key-IsPlain is_utf8 key p j,
  λ (same, plain).
      ap (λ k. physical_key_to_resource_key is_utf8 k p) same
      ∙ physical_key-logical_path is_utf8 p j plain.utf8 plain.nonempty plain.one_segment,
)

module _ {E : Type 0} (is_utf8 : Bytes → Bool) (lossy : Bytes → Bytes) (message : KeyError → Bytes)
    (p : Bytes) where
  -- What one step leaves at a resource whose identifier has no dot in front.
  list_one-hit :
      (j : ResourceKey) (kv : ListKv) (l m : Listing)
      → IsPlain is_utf8 p j
      → is_dotted j.id ≡ false
      → lossy (physical p j) ≡ physical p j
      → kv.key ≡ physical p j
      → list_one {E = E} is_utf8 lossy message p kv l ≡ ok m
      → Dict.lookup j m.resources ≡ some (stored_of kv)
  unfolding list_one
  list_one-hit j kv l m plain clear law at h = ground (
    arith,
    starts_with-physical p j,
    is_metadata_key-physical is_utf8 p j plain,
    logical_path-guard p j,
    physical_key-logical_path is_utf8 p j plain.utf8 plain.nonempty plain.one_segment,
    Dict.lookup-insert j j (stored_of kv) l.resources,
  )

  -- A pair of another key leaves the resource as it was.
  list_one-miss :
      (j : ResourceKey) (kv : ListKv) (l m : Listing)
      → kv.key ≢ physical p j
      → list_one {E = E} is_utf8 lossy message p kv l ≡ ok m
      → Dict.lookup j m.resources ≡ Dict.lookup j l.resources
  unfolding list_one
  list_one-miss j kv l m away h =
      elim (Result-cases (physical_key_to_resource_key is_utf8 kv.key p)) [
        | inl (k, e) ↦ ground (
          arith,
          physical_key-exact is_utf8 kv.key p k e,
          Dict.lookup-insert j k (stored_of kv) l.resources,
        )
        | inr (x, e) ↦ ground arith
      ]

  -- Nor does a pair of a key that is taken for metadata.
  list_one-metadata :
      (j : ResourceKey) (kv : ListKv) (l m : Listing)
      → is_metadata_key is_utf8 kv.key ≡ true
      → list_one {E = E} is_utf8 lossy message p kv l ≡ ok m
      → m.resources ≡ l.resources
  unfolding list_one
  list_one-metadata j kv l m meta h = ground arith

  list_all-last_at :
      (j : ResourceKey) (kvs : List ListKv) (l m : Listing)
      → IsPlain is_utf8 p j
      → is_dotted j.id ≡ false
      → lossy (physical p j) ≡ physical p j
      → list_all {E = E} is_utf8 lossy message p kvs l ≡ ok m
      → Dict.lookup j m.resources ≡ or_else (last_at (physical p j) kvs) (Dict.lookup j l.resources)
  unfolding list_all
  list_all-last_at j [] l m plain clear law h = ground arith
  list_all-last_at j (kv ∷ kvs) l m plain clear law h =
      elim (Result-cases (list_one {E = E} is_utf8 lossy message p kv l)) [
        | inl (n, e) ↦ elim (bytes_eq.dec kv.key (physical p j)) [
          | yes same ↦ ground (
            arith,
            list_all-last_at j kvs n m plain clear law,
            list_one-hit j kv l n plain clear law same e,
          )
          | no differ ↦
              ground
                (arith, list_all-last_at j kvs n m plain clear law, list_one-miss j kv l n differ e)
        ]
        | inr (x, e) ↦ absurd (ground arith)
      ]

  list_all-hidden :
      (j : ResourceKey) (kvs : List ListKv) (l m : Listing)
      → IsPlain is_utf8 p j
      → is_dotted j.id ≡ true
      → list_all {E = E} is_utf8 lossy message p kvs l ≡ ok m
      → Dict.lookup j m.resources ≡ Dict.lookup j l.resources
  unfolding list_all
  list_all-hidden j [] l m plain dotted h = ground arith
  list_all-hidden j (kv ∷ kvs) l m plain dotted h =
      elim (Result-cases (list_one {E = E} is_utf8 lossy message p kv l)) [
        | inl (n, e) ↦ elim (bytes_eq.dec kv.key (physical p j)) [
          | yes same ↦ ground (
            arith,
            list_all-hidden j kvs n m plain dotted,
            list_one-metadata j kv l n
                (ap (is_metadata_key is_utf8) same
                  ∙ is_metadata_key-physical is_utf8 p j plain
                  ∙ dotted)
                e,
          )
          | no differ ↦
              ground
                (arith, list_all-hidden j kvs n m plain dotted, list_one-miss j kv l n differ e)
        ]
        | inr (x, e) ↦ absurd (ground arith)
      ]

  snapshot_listing :
      (kvs : List ListKv) (header_revision : ℕ) (g : StoredGraph)
      → graph_snapshot_from_list {E = E} is_utf8 lossy message kvs header_revision p ≡ ok g
      → (l : Listing) × (list_all {E = E} is_utf8 lossy message p kvs
            (record { resources = []; guard_mod_revision = none })
          ≡ ok l)
        × (g.resources ≡ l.resources)
        × (g.guard_mod_revision ≡ l.guard_mod_revision)
        × (g.revision ≡ header_revision)
  unfolding graph_snapshot_from_list
  snapshot_listing kvs header_revision g h =
      elim (Result-cases (
        list_all {E = E} is_utf8 lossy message p kvs
          (record { resources = []; guard_mod_revision = none }))) [
            | inl (l, e) ↦ (l, e, ground arith, ground arith, ground arith)
            | inr (x, e) ↦ absurd (ground arith)
          ]

-- The graph of a list response has at each resource what the last pair with the resource's physical
-- key holds, and nothing at a resource whose identifier begins with a dot. Its revision is the
-- response's. The decoding of bytes as text keeps the physical key.
pub graph_snapshot_from_list-last_at :
    {E : Type 0} (is_utf8 : Bytes → Bool) (lossy : Bytes → Bytes) (message : KeyError → Bytes)
    (p : Bytes) (j : ResourceKey) (kvs : List ListKv) (header_revision : ℕ) (g : StoredGraph)
    → IsPlain is_utf8 p j
    → lossy (physical p j) ≡ physical p j
    → graph_snapshot_from_list {E = E} is_utf8 lossy message kvs header_revision p ≡ ok g
    → (Dict.lookup j g.resources ≡ (if is_dotted j.id then none else last_at (physical p j) kvs))
      × (g.revision ≡ header_revision)
graph_snapshot_from_list-last_at is_utf8 lossy message p j kvs revision g plain law h =
    let (l, listed, same, _, at) = snapshot_listing is_utf8 lossy message p kvs revision g h in
    elim (Bool-cases (is_dotted j.id)) [
      | inl dotted ↦ ground (
        arith,
        list_all-hidden is_utf8 lossy message p j kvs _ l plain dotted listed,
        Dict.lookup-nil {V = StoredResource} j,
      )
      | inr clear ↦ ground (
        arith,
        list_all-last_at is_utf8 lossy message p j kvs _ l plain clear law listed,
        Dict.lookup-nil {V = StoredResource} j,
      )
    ]
