-- ===== src/Etcd/Physical.antt =====
-- Which physical keys the mapping of keys.rs reads, and how they stand to the guard and to the
-- metadata keys.
use pingsix.Prelude.{
  ℕ, ◌≡◌, refl, ap, sym, ◌∙◌, Bool, true, false, ◌||◌, some, [], ◌∷◌, ◌++◌, nat_eq, Bytes,
  ℕ_discrete, bytes_eq, elem, is_nil, arith, Bool-cases, Option-cases, inl, inr, ◌≢◌,
}
use mathlib.Core.List.{append_assoc}
use pingsix.Graph.{
  ResourceKind, ResourceKey, as_str, ok, parse, new_key, logical_path, Result-cases,
}
use pingsix.Graph.Keys.{
  strip_prefix, split_once, parts_to_key, split_to_key, stripped_to_key,
  physical_key_to_resource_key,
}
use pingsix.Etcd.Names.{leaf, graph_revision_key}

strip_prefix-some : (p key rest : Bytes) → strip_prefix p key ≡ some rest → key ≡ p ++ rest
unfolding strip_prefix
strip_prefix-some [] key rest h = ground arith
strip_prefix-some (x ∷ p) [] rest h = absurd (ground arith)
strip_prefix-some (x ∷ p) (k ∷ key) rest h = ground (arith, strip_prefix-some p key rest)

split_once-some : (cs kind id : Bytes) → split_once cs ≡ some (kind, id) → cs ≡ kind ++ b'/' ∷ id
unfolding split_once
split_once-some [] kind id h = absurd (ground arith)
split_once-some (c ∷ cs) kind id h = elim (Option-cases (split_once cs)) [
  | inl e ↦ ground arith
  | inr ((a, b), e) ↦ ground (arith, split_once-some cs a b e)
]

parse-ok :
    (value : Bytes) (kind : ResourceKind) → parse {E = ⊥} value ≡ ok kind → as_str kind ≡ value
unfolding parse as_str
parse-ok value kind h = ground arith

new_key-ok :
    (kind : ResourceKind) (id : Bytes) (k : ResourceKey)
    → new_key {E = ⊥} kind id ≡ ok k
    → k ≡ record { kind = kind; id = id }
unfolding new_key
new_key-ok kind id k h = ground arith

parts_to_key-ok :
    (kind id : Bytes) (k : ResourceKey)
    → parts_to_key kind id ≡ ok k
    → kind ++ b'/' ∷ id ≡ logical_path k
unfolding parts_to_key logical_path
parts_to_key-ok kind id k h = elim (Bool-cases (is_nil kind || is_nil id || elem b'/' id)) [
  | inl bad ↦ absurd (ground arith)
  | inr good ↦ elim (Result-cases (parse {E = ⊥} kind)) [
    | inl (r, parsed) ↦ elim (Result-cases (new_key {E = ⊥} r id)) [
      | inl (j, made) ↦ ground (arith, parse-ok kind r parsed, new_key-ok r id j made)
      | inr (e, bad) ↦ absurd (ground arith)
    ]
    | inr (e, bad) ↦ absurd (ground arith)
  ]
]

split_to_key-ok :
    (rest : Bytes) (k : ResourceKey) → split_to_key (split_once rest) ≡ ok k → rest ≡ logical_path k
unfolding split_to_key
split_to_key-ok rest k h = elim (Option-cases (split_once rest)) [
  | inl e ↦ ground arith
  | inr ((a, b), e) ↦ ground (arith, split_once-some rest a b e, parts_to_key-ok a b k)
]

-- Only the physical key of a resource is read as the resource.
pub physical_key-exact :
    (is_utf8 : Bytes → Bool) (key canonical_prefix : Bytes) (k : ResourceKey)
    → physical_key_to_resource_key is_utf8 key canonical_prefix ≡ ok k
    → key ≡ canonical_prefix ++ logical_path k
unfolding physical_key_to_resource_key stripped_to_key
physical_key-exact is_utf8 key p k h = elim (Option-cases (strip_prefix p key)) [
  | inl e ↦ ground arith
  | inr (rest, e) ↦ ground (arith, strip_prefix-some p key rest e, split_to_key-ok rest k)
]

-- What has been checked of a key that is read.
new_key-checked :
    (kind : ResourceKind) (id : Bytes) (k : ResourceKey)
    → new_key {E = ⊥} kind id ≡ ok k
    → (is_nil k.id ≡ false) × (elem b'/' k.id ≡ false)
unfolding new_key
new_key-checked kind [] k h = absurd (ground arith)
new_key-checked kind (c ∷ id) k h = ground (arith, new_key-ok kind (c ∷ id) k h)

parts_to_key-checked :
    (kind id : Bytes) (k : ResourceKey)
    → parts_to_key kind id ≡ ok k
    → (is_nil k.id ≡ false) × (elem b'/' k.id ≡ false)
unfolding parts_to_key
parts_to_key-checked kind id k h = elim (Result-cases (parse {E = ⊥} kind)) [
  | inl (r, parsed) ↦ elim (Result-cases (new_key {E = ⊥} r id)) [
    | inl (j, made) ↦ ground (arith, new_key-checked r id j made)
    | inr (e, bad) ↦ absurd (ground arith)
  ]
  | inr (e, bad) ↦ absurd (ground arith)
]

pub physical_key-checked :
    (is_utf8 : Bytes → Bool) (key p : Bytes) (k : ResourceKey)
    → physical_key_to_resource_key is_utf8 key p ≡ ok k
    → (is_utf8 key ≡ true) × (is_nil k.id ≡ false) × (elem b'/' k.id ≡ false)
unfolding physical_key_to_resource_key stripped_to_key split_to_key
physical_key-checked is_utf8 key p k h = elim (Option-cases (strip_prefix p key)) [
  | inl e ↦ absurd (ground arith)
  | inr (rest, e) ↦ elim (Option-cases (split_once rest)) [
    | inl f ↦ absurd (ground arith)
    | inr ((a, b), f) ↦ ground (arith, parts_to_key-checked a b k)
  ]
]

elem-append : (b : ℕ) (xs ys : Bytes) → elem b (xs ++ ys) ≡ (elem b xs || elem b ys)
elem-append b [] ys = refl
elem-append b (x ∷ xs) ys = ground (arith, elem-append b xs ys)

leaf_plain : (id : Bytes) → elem b'/' id ≡ false → leaf id ≡ id
unfolding leaf
leaf_plain [] h = refl
leaf_plain (c ∷ cs) h = ground arith

-- The leaf of a key is what follows its last slash.
leaf-append : (xs id : Bytes) → elem b'/' id ≡ false → leaf (xs ++ b'/' ∷ id) ≡ id
unfolding leaf
leaf-append [] id h = ground (arith, leaf_plain id h)
leaf-append (x ∷ xs) id h = ground (arith, leaf-append xs id h, elem-append b'/' xs (b'/' ∷ id))

pub leaf-logical_path :
    (p : Bytes) (k : ResourceKey) → elem b'/' k.id ≡ false → leaf (p ++ logical_path k) ≡ k.id
unfolding logical_path
leaf-logical_path p k h =
    ap leaf (sym (append_assoc p (as_str k.kind) (b'/' ∷ k.id)))
    ∙ leaf-append (p ++ as_str k.kind) k.id h

append_cancel : (p xs ys : Bytes) → p ++ xs ≡ p ++ ys → xs ≡ ys
append_cancel [] xs ys h = h
append_cancel (x ∷ p) xs ys h = append_cancel p xs ys (ground arith)

guard_plain : elem b'/' graph_revision_key ≡ false
unfolding ℕ_discrete
guard_plain = refl

elem-logical_path : (k : ResourceKey) → elem b'/' (logical_path k) ≡ true
unfolding logical_path
elem-logical_path k = ground (arith, elem-append b'/' (as_str k.kind) (b'/' ∷ k.id))

-- The guard has no slash after the prefix.
pub logical_path-guard :
    (p : Bytes) (k : ResourceKey) → p ++ logical_path k ≢ p ++ graph_revision_key
logical_path-guard p k h =
    let same = append_cancel p (logical_path k) graph_revision_key h in
    absurd (ground (arith, elem-logical_path k, guard_plain, ap (elem b'/') same))
