-- ===== src/Graph/Decode.antt =====
-- Watch batches and planned mutations (decode.rs). How stored bytes decode to typed resources, and
-- which sets of resources are valid, are parameters: `decode_graph` and `validate_stored_form` of
-- the source, with the keyring that they take.
pub mod Watch
pub mod Plan
use pingsix.Prelude.{ℕ, List, [], ◌∷◌, Option, none, some, Bytes}
use pingsix.Prelude.Dict
use pingsix.Graph.Vocabulary.{
  ResourceKey, key_eq, StoredResource, StoredGraph, StoredChange, WatchBatch, StoredMutation,
  GraphCommit, GraphError, invalid_candidate, referential_conflict, not_found, Result, ok, err,
  map_err, ◌>>=◌,
}
use pingsix.Graph.Memory.{mod_revision_of}

-- The body of the loop over the changes.
unfoldable pub apply_change :
    StoredChange → Dict.Dict ResourceKey StoredResource → Dict.Dict ResourceKey StoredResource
unfolding Dict.insert Dict.remove
apply_change (StoredChange.put key resource) d = Dict.insert key resource d
apply_change (StoredChange.delete key) d = Dict.remove key d

unfoldable pub apply_changes :
    List StoredChange → Dict.Dict ResourceKey StoredResource → Dict.Dict ResourceKey StoredResource
unfolding apply_change
apply_changes [] d = d
apply_changes (c ∷ cs) d = apply_changes cs (apply_change c d)

-- With no change the base is kept, its revision included.
unfoldable pub batch_graph : List StoredChange → ℕ → StoredGraph → StoredGraph
unfolding apply_changes
batch_graph [] revision base = base
batch_graph (c ∷ cs) revision base = record base {
  resources = apply_changes (c ∷ cs) base.resources;
  revision = revision;
}

-- The source's `Result` is always `Ok`.
unfoldable pub apply_watch_batch :
    {E : Type 0} → StoredGraph → WatchBatch → Result (GraphError E) StoredGraph
unfolding batch_graph
apply_watch_batch base batch = ok (batch_graph batch.changes batch.revision base)

pub data SecretMode : Type 0 where
  decrypt_for_runtime preserve_stored : SecretMode

-- The graph that a PUT would leave, its entry's revisions not yet known.
abbrev pub put_candidate : StoredGraph → ResourceKey → Bytes → StoredGraph
put_candidate snapshot key stored_value = record snapshot {
  resources =
      Dict.insert key (record { value = stored_value; create_revision = 0; mod_revision = 0 })
        snapshot.resources;
}

module _ {E Set : Type 0} (decode_graph : StoredGraph → SecretMode → Result E Set)
    (validate_stored_form : Set → Result E (Unit {0})) where
  -- Decode the candidate with its secrets left as they are, and validate the stored form.
  unfoldable pub check_candidate :
      (E → GraphError E) → StoredGraph → Result (GraphError E) (Unit {0})
  check_candidate wrap candidate = map_err wrap (decode_graph candidate preserve_stored) >>= λ set.
      map_err wrap (validate_stored_form set)

  unfoldable pub plan_put_mutation :
      StoredGraph → ResourceKey → Bytes → Result (GraphError E) GraphCommit
  unfolding check_candidate Dict.insert Dict.lookup
  plan_put_mutation snapshot key stored_value =
      check_candidate invalid_candidate (put_candidate snapshot key stored_value) >>= λ _.
      ok (record {
        mutation = StoredMutation.put key stored_value;
        expected_target_mod_revision = mod_revision_of (Dict.lookup key snapshot.resources);
        expected_guard_mod_revision = snapshot.guard_mod_revision;
      })

  unfoldable pub plan_delete_mutation :
      StoredGraph → ResourceKey → Result (GraphError E) GraphCommit
  unfolding check_candidate Dict.remove Dict.lookup
  plan_delete_mutation snapshot key = elim (Dict.lookup key snapshot.resources) [
    | none ↦ err (not_found key)
    | some existing ↦
        check_candidate referential_conflict
          (record snapshot { resources = Dict.remove key snapshot.resources })
        >>= λ _. ok (record {
          mutation = StoredMutation.delete key;
          expected_target_mod_revision = some existing.mod_revision;
          expected_guard_mod_revision = snapshot.guard_mod_revision;
        })
  ]
