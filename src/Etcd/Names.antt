-- ===== src/Etcd/Names.antt =====
-- The prefix, the guard and the metadata keys of the namespace (src/config/etcd/keys.rs).
use pingsix.Prelude.{
  Bool, false, not, ◌&&◌, [], ◌∷◌, ◌++◌, if◌then◌else◌, ◌==◌, nat_eq, Bytes, bytes_eq, codes, elem,
  is_nil, is_some,
}
use pingsix.Graph.{StoreError, unsupported_protocol, Result, ok, err}
use pingsix.Graph.Keys.{strip_prefix}

-- `trim_end_matches('/')`
unfoldable pub trim_end : Bytes → Bytes
trim_end [] = []
trim_end (c ∷ cs) = let rest = trim_end cs in if is_nil rest && c == b'/' then [] else c ∷ rest

unfoldable pub canonicalize_prefix : Bytes → Bytes
unfolding trim_end
canonicalize_prefix prefix =
    let trimmed = trim_end prefix in if is_nil trimmed then b'/' ∷ [] else trimmed ++ b'/' ∷ []

-- `GRAPH_REVISION_KEY` and `GRAPH_PROTOCOL_VERSION`
abbrev pub graph_revision_key : Bytes
graph_revision_key = codes ".pingsix_graph_revision"

abbrev pub graph_protocol_version : Bytes
graph_protocol_version = codes "pingsix-graph-v1"

unfoldable pub validate_guard_value : {E : Type 0} → Bytes → Result (StoreError E) (Unit {0})
validate_guard_value value =
    if not (value == graph_protocol_version) && not (value == codes "1")
    then err unsupported_protocol
    else ok tt

-- `rsplit('/').next()`: what stands after the last slash.
unfoldable pub leaf : Bytes → Bytes
leaf [] = []
leaf (c ∷ cs) =
    let rest = leaf cs in if elem b'/' cs then rest else if c == b'/' then cs else c ∷ cs

-- `starts_with('.')`
abbrev pub is_dotted : Bytes → Bool
is_dotted [] = false
is_dotted (c ∷ cs) = c == b'.'

unfoldable pub is_metadata_key : (Bytes → Bool) → Bytes → Bool
unfolding leaf
is_metadata_key is_utf8 key = is_utf8 key && is_dotted (leaf key)

-- `starts_with`
unfoldable pub starts_with : Bytes → Bytes → Bool
unfolding strip_prefix
starts_with prefix key = is_some (strip_prefix prefix key)
