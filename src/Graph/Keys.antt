-- ===== src/Graph/Keys.antt =====
-- Physical etcd keys (src/config/etcd/keys.rs), as UTF-8 bytes. `std::str::from_utf8` is the test
-- `is_utf8`, a parameter.
use pingsix.Prelude.{
  ◌≡◌, refl, ap, Bool, true, false, not, ◌||◌, Option, none, some, [], ◌∷◌, ◌++◌, if◌then◌else◌,
  ◌==◌, nat_eq, Bytes, Bytes-discrete, ℕ_discrete, bytes_eq, elem, is_nil, arith,
}
use pingsix.Graph.Vocabulary.{
  ResourceKind, upstream, service, global_rule, route, ssl, as_str, ResourceKey, GraphError, Result,
  ok, err, map_err, ◌>>=◌, parse, new_key, logical_path,
}

-- The error texts, by what they say.
pub data KeyError : Type 0 where
  not_utf8 outside_namespace invalid_format : KeyError
  refused : GraphError ⊥ → KeyError

-- `strip_prefix`
unfoldable pub strip_prefix : Bytes → Bytes → Option Bytes
strip_prefix [] key = some key
strip_prefix (p ∷ ps) [] = none
strip_prefix (p ∷ ps) (k ∷ key) = let rest = strip_prefix ps key in if p == k then rest else none

-- `split_once('/')`
unfoldable pub split_once : Bytes → Option (Bytes × Bytes)
split_once [] = none
split_once (c ∷ cs) =
    let rest = split_once cs in
    if c == b'/' then some ([], cs) else elim rest [ none ↦ none | some p ↦ some (c ∷ p.0, p.1) ]

-- The checks of the two parts.
unfoldable pub parts_to_key : Bytes → Bytes → Result KeyError ResourceKey
parts_to_key kind id =
    if is_nil kind || is_nil id || elem b'/' id
    then err invalid_format
    else map_err refused (parse kind) >>= λ k. map_err refused (new_key k id)

unfoldable pub split_to_key : Option (Bytes × Bytes) → Result KeyError ResourceKey
unfolding parts_to_key
split_to_key none = err invalid_format
split_to_key (some (kind, id)) = parts_to_key kind id

unfoldable pub stripped_to_key : Option Bytes → Result KeyError ResourceKey
unfolding split_to_key split_once
stripped_to_key none = err outside_namespace
stripped_to_key (some rest) = split_to_key (split_once rest)

unfoldable pub physical_key_to_resource_key :
    (Bytes → Bool) → Bytes → Bytes → Result KeyError ResourceKey
unfolding stripped_to_key strip_prefix
physical_key_to_resource_key is_utf8 key canonical_prefix =
    if not (is_utf8 key) then err not_utf8 else stripped_to_key (strip_prefix canonical_prefix key)

pub strip_prefix-append : (p key : Bytes) → strip_prefix p (p ++ key) ≡ some key
unfolding strip_prefix
strip_prefix-append [] key = refl
strip_prefix-append (x ∷ p) key = ground (arith, strip_prefix-append p key)

split_once-append :
    (kind id : Bytes) → elem b'/' kind ≡ false → split_once (kind ++ b'/' ∷ id) ≡ some (kind, id)
unfolding split_once
split_once-append [] id h = ground arith
split_once-append (c ∷ kind) id h = ground (arith, split_once-append kind id)

pub as_str-plain : (k : ResourceKind) → (elem b'/' (as_str k) ≡ false) × (is_nil (as_str k) ≡ false)
unfolding as_str ℕ_discrete
as_str-plain upstream = (refl, refl)
as_str-plain service = (refl, refl)
as_str-plain global_rule = (refl, refl)
as_str-plain route = (refl, refl)
as_str-plain ssl = (refl, refl)

parse-as_str : (k : ResourceKind) → parse {E = ⊥} (as_str k) ≡ ok k
unfolding parse as_str Bytes-discrete ℕ_discrete
parse-as_str upstream = refl
parse-as_str service = refl
parse-as_str global_rule = refl
parse-as_str route = refl
parse-as_str ssl = refl

new_key_plain :
    (kind : ResourceKind) (id : Bytes)
    → is_nil id ≡ false
    → elem b'/' id ≡ false
    → new_key {E = ⊥} kind id ≡ ok (record { kind = kind; id = id })
unfolding new_key
new_key_plain kind [] n h = absurd (ground arith)
new_key_plain kind (c ∷ id) n h = ground arith

parts_lem :
    (kind : ResourceKind) (id : Bytes)
    → is_nil id ≡ false
    → elem b'/' id ≡ false
    → parts_to_key (as_str kind) id ≡ ok (record { kind = kind; id = id })
unfolding parts_to_key
parts_lem kind id n h =
    let (_, some_kind) = as_str-plain kind in
    rw (parts_to_key, n, h, some_kind, parse-as_str kind)
      (ap (map_err refused) (new_key_plain kind id n h))

-- The key of a resource under a prefix reads back as the resource, where its identifier is neither
-- empty nor has a slash, as every `ResourceKey::new` has checked.
pub physical_key-logical_path :
    (is_utf8 : Bytes → Bool) (canonical_prefix : Bytes) (k : ResourceKey)
    → is_utf8 (canonical_prefix ++ logical_path k) ≡ true
    → is_nil k.id ≡ false
    → elem b'/' k.id ≡ false
    → physical_key_to_resource_key is_utf8 (canonical_prefix ++ logical_path k) canonical_prefix
      ≡ ok k
unfolding physical_key_to_resource_key logical_path stripped_to_key split_to_key parts_to_key
physical_key-logical_path is_utf8 p k valid n h =
    let (plain, _) = as_str-plain k.kind in
    rw
      (
        physical_key_to_resource_key,
        valid,
        strip_prefix-append p (as_str k.kind ++ b'/' ∷ k.id),
        stripped_to_key,
        split_once-append (as_str k.kind) k.id plain,
        split_to_key,
      )
      (parts_lem k.kind k.id n h)
