-- ===== src/Etcd/Events.antt =====
-- `graph_changes_from_events` (src/config/etcd/sync.rs).
use pingsix.Prelude.{Bool, not, Option, none, some, List, [], ◌∷◌, if◌then◌else◌, Bytes}
use pingsix.Prelude.Dict
use pingsix.Graph.{ResourceKey, key_eq, StoredChange, Result, ok, err, map_err, ◌>>=◌}
use pingsix.Graph.Keys.{KeyError, physical_key_to_resource_key}
use pingsix.Etcd.Names.{is_metadata_key, starts_with}
use pingsix.Etcd.Snapshot.{ListKv, stored_of}

pub data EventType : Type 0 where
  put delete : EventType

-- An event of a watch response; the client may return one without a pair.
pub record Event : Type 0 where
  pub kv : Option ListKv
  pub event_type : EventType

-- The two refusals of the mapping.
pub data EventError : Type 0 where
  missing_pair : EventError
  malformed : KeyError → EventError

abbrev pub change_of : EventType → ResourceKey → ListKv → StoredChange
change_of put key kv = StoredChange.put key (stored_of kv)
change_of delete key kv = StoredChange.delete key

-- `into_values`: the source's order is arbitrary; here it is that of the list.
unfoldable pub values : {V : Type 0} → Dict.Dict ResourceKey V → List V
values [] = []
values ((_, v) ∷ d) = v ∷ values d

module _ (is_utf8 : Bytes → Bool) (lossy : Bytes → Bytes) where
  -- The body of the loop, for an event with a pair.
  unfoldable pub coalesce_pair :
      Bytes
      → EventType
      → ListKv
      → Dict.Dict ResourceKey StoredChange
      → Result EventError (Dict.Dict ResourceKey StoredChange)
  unfolding starts_with is_metadata_key physical_key_to_resource_key Dict.insert
  coalesce_pair canonical_prefix event_type kv final_by_key =
      if is_metadata_key is_utf8 kv.key
      then ok final_by_key
      else if not (starts_with canonical_prefix (lossy kv.key))
      then ok final_by_key
      else map_err malformed (physical_key_to_resource_key is_utf8 kv.key canonical_prefix)
        >>= λ resource_key.
            ok (Dict.insert resource_key (change_of event_type resource_key kv) final_by_key)

  unfoldable pub coalesce_one :
      Bytes
      → Event
      → Dict.Dict ResourceKey StoredChange
      → Result EventError (Dict.Dict ResourceKey StoredChange)
  unfolding coalesce_pair
  coalesce_one canonical_prefix event final_by_key = elim event.kv [
    | none ↦ err missing_pair
    | some kv ↦ coalesce_pair canonical_prefix event.event_type kv final_by_key
  ]

  unfoldable pub coalesce :
      Bytes
      → List Event
      → Dict.Dict ResourceKey StoredChange
      → Result EventError (Dict.Dict ResourceKey StoredChange)
  unfolding coalesce_one
  coalesce canonical_prefix [] d = ok d
  coalesce canonical_prefix (e ∷ es) d =
      coalesce_one canonical_prefix e d >>= λ d'. coalesce canonical_prefix es d'

  unfoldable pub graph_changes_from_events :
      List Event → Bytes → Result EventError (List StoredChange)
  unfolding coalesce values
  graph_changes_from_events events canonical_prefix =
      coalesce canonical_prefix events [] >>= λ d. ok (values d)
