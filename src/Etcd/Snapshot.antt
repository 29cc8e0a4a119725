-- ===== src/Etcd/Snapshot.antt =====
-- `graph_snapshot_from_list` (src/config/etcd/sync.rs).
use pingsix.Prelude.{
  ℕ, Bool, not, Option, none, some, List, [], ◌∷◌, ◌++◌, if◌then◌else◌, ◌==◌, Bytes, bytes_eq,
}
use pingsix.Prelude.Dict
use pingsix.Graph.{
  ResourceKey, key_eq, StoredResource, StoredGraph, StoreError, invalid_response, Result, ok,
  map_err, ◌>>=◌,
}
use pingsix.Graph.Keys.{KeyError, physical_key_to_resource_key}
use pingsix.Etcd.Names.{graph_revision_key, validate_guard_value, is_metadata_key, starts_with}

-- One key-value pair of a response.
pub record ListKv : Type 0 where
  pub key : Bytes
  pub value : Bytes
  pub create_revision : ℕ
  pub mod_revision : ℕ

abbrev pub stored_of : ListKv → StoredResource
stored_of kv = record {
  value = kv.value;
  create_revision = kv.create_revision;
  mod_revision = kv.mod_revision;
}

-- The two locals of the loop.
pub record Listing : Type 0 where
  pub resources : Dict.Dict ResourceKey StoredResource
  pub guard_mod_revision : Option ℕ

-- `String::from_utf8_lossy`, `std::str::from_utf8` and the texts of errors are parameters.
module _ {E : Type 0} (is_utf8 : Bytes → Bool) (lossy : Bytes → Bytes)
    (message : KeyError → Bytes) where
  -- The body of the loop.
  unfoldable pub list_one : Bytes → ListKv → Listing → Result (StoreError E) Listing
  unfolding starts_with validate_guard_value is_metadata_key physical_key_to_resource_key
      Dict.insert
  list_one canonical_prefix kv l =
      let key = lossy kv.key in
      if not (starts_with canonical_prefix key)
      then ok l
      else if key == canonical_prefix ++ graph_revision_key
      then (validate_guard_value kv.value >>= λ _.
          ok (record l { guard_mod_revision = some kv.mod_revision }))
      else if is_metadata_key is_utf8 kv.key
      then ok l
      else map_err (λ e. invalid_response (message e))
          (physical_key_to_resource_key is_utf8 kv.key canonical_prefix)
        >>= λ resource_key.
            ok (record l { resources = Dict.insert resource_key (stored_of kv) l.resources })

  unfoldable pub list_all : Bytes → List ListKv → Listing → Result (StoreError E) Listing
  unfolding list_one
  list_all canonical_prefix [] l = ok l
  list_all canonical_prefix (kv ∷ kvs) l =
      list_one canonical_prefix kv l >>= λ m. list_all canonical_prefix kvs m

  unfoldable pub graph_snapshot_from_list :
      List ListKv → ℕ → Bytes → Result (StoreError E) StoredGraph
  unfolding list_all
  graph_snapshot_from_list kvs header_revision canonical_prefix =
      list_all canonical_prefix kvs (record { resources = []; guard_mod_revision = none }) >>= λ l.
      ok (record {
        resources = l.resources;
        guard_mod_revision = l.guard_mod_revision;
        revision = header_revision;
      })
