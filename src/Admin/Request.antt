-- ===== src/Admin/Request.antt =====
-- `ConfigurationGraph::put` and `delete`. `V` is a JSON value; what reads and writes one is a parameter,
-- as are the decoding of graphs and their validation. `between` is what others do to the store while
-- the call waits for its commit.
use pingsix.Prelude.{ℕ, Bool, Option, none, some, if◌then◌else◌, Bytes, bytes_eq, ◌==◌}
use pingsix.Prelude.Dict
use pingsix.Graph.{
  ResourceKind, ResourceKey, key_eq, StoredGraph, GraphCommit, GraphError, invalid_key,
  invalid_resource, invalid_candidate, referential_conflict, not_found, cas_conflict,
  stale_revision, secret, worker_stopped, store, restore, encrypt, StoreError, conflict, Result, ok,
  err, map_err, ◌>>=◌,
}
use pingsix.Graph.Memory
use pingsix.Graph.Memory.{InMemoryState}
use pingsix.Graph.Decode.{SecretMode, plan_put_mutation, plan_delete_mutation}
use pingsix.Graph.Publication.{PublicationRegistry, mark_pending}

-- The trait `GraphStore`, as far as mutations use it.
pub record GraphStore (E S : Type 0) : Type 0 where
  pub snapshot : S → S × Result (StoreError E) StoredGraph
  pub compare_and_swap : GraphCommit → S → S × Result (StoreError E) ℕ

unfoldable pub in_memory_store : {E : Type 0} → GraphStore E InMemoryState
unfolding Memory.snapshot Memory.compare_and_swap
in_memory_store = record {
  snapshot = λ s. (s, ok (Memory.snapshot s));
  compare_and_swap = Memory.compare_and_swap;
}

-- What `put` calls on JSON values: `body_id` is the `id` member where it is a string, `set_id` the
-- assignment of `value["id"]`, with `none` where it panics, `parse` is serde's.
pub record Documents (E V : Type 0) : Type 0 where
  pub body_id : V → Option Bytes
  pub set_id : Bytes → V → Option V
  pub contains_redaction_sentinel : V → Bool
  pub parse : Bytes → Result E V
  pub decrypt_for_read : ResourceKind → V → Result E V
  pub restore_redacted_secrets : ResourceKind → V → V → V
  pub validate_resource_json : ResourceKind → V → Result E (Unit {0})
  pub encrypt_for_storage : ResourceKind → V → Result E Bytes

unfoldable pub map_store_error : {E : Type 0} → StoreError E → GraphError E
map_store_error conflict = cas_conflict
map_store_error other = store other

-- What a mutation leaves and returns.
pub record Answer (E S : Type 0) : Type 0 where
  pub state : S
  pub publications : PublicationRegistry
  pub result : Result (GraphError E) ℕ

-- `record_pending_publication`
unfoldable pub record_pending_publication : ℕ → PublicationRegistry → PublicationRegistry
unfolding mark_pending
record_pending_publication revision p = mark_pending revision p

-- The end of both mutations.
unfoldable pub committed :
    {E S : Type 0} → S × Result (StoreError E) ℕ → PublicationRegistry → Answer E S
unfolding map_store_error record_pending_publication
committed (s, err e) p = record { state = s; publications = p; result = err (map_store_error e) }
committed (s, ok revision) p = record {
  state = s;
  publications = record_pending_publication revision p;
  result = ok revision;
}

-- From the plan on.
unfoldable pub commit_plan :
    {E S : Type 0}
    → GraphStore E S
    → (S → S)
    → S
    → PublicationRegistry
    → Result (GraphError E) GraphCommit
    → Answer E S
unfolding committed
commit_plan graph_store between s p (err e) = record { state = s; publications = p; result = err e }
commit_plan graph_store between s p (ok commit) =
    committed (graph_store.compare_and_swap commit (between s)) p

-- The value under the key's id; serde_json panics where a member of an array, a string, a number or
-- a Boolean is assigned.
unfoldable pub with_id : {E V : Type 0} → Documents E V → Bytes → V → Option V
with_id json id value = elim (json.body_id value) [
  | none ↦ json.set_id id value
  | some b ↦ if b == id then some value else json.set_id id value
]

unfoldable pub restored_value :
    {E V : Type 0} → Documents E V → StoredGraph → ResourceKey → V → Result (GraphError E) V
unfolding Dict.lookup
restored_value json snapshot key value =
    if json.contains_redaction_sentinel value
    then (elim (Dict.lookup key snapshot.resources) [
      | none ↦ ok value
      | some stored ↦ map_err (invalid_resource key) (json.parse stored.value) >>= λ existing.
          map_err (secret key restore) (json.decrypt_for_read key.kind existing) >>= λ plain.
          ok (json.restore_redacted_secrets key.kind value plain)
    ])
    else ok value

-- The bytes to store, of a value that has its id.
unfoldable pub stored_value :
    {E V : Type 0} → Documents E V → StoredGraph → ResourceKey → V → Result (GraphError E) Bytes
unfolding restored_value
stored_value json snapshot key value = restored_value json snapshot key value >>= λ restored.
    map_err (invalid_resource key) (json.validate_resource_json key.kind restored) >>= λ _.
    map_err (secret key encrypt) (json.encrypt_for_storage key.kind restored)

module _ {E V S Set : Type 0} (json : Documents E V)
    (decode_graph : StoredGraph → SecretMode → Result E Set)
    (validate_stored_form : Set → Result E (Unit {0})) (graph_store : GraphStore E S) where
  -- `none` is a panic, here and in `put`.
  unfoldable pub plan_put :
      Result (StoreError E) StoredGraph
      → ResourceKey
      → V
      → Option (Result (GraphError E) GraphCommit)
  unfolding with_id stored_value plan_put_mutation
  plan_put (err e) key value = some (err (store e))
  plan_put (ok snapshot) key value = elim (with_id json key.id value) [
    | none ↦ none
    | some named ↦ some (
        stored_value json snapshot key named >>= λ bytes.
        plan_put_mutation decode_graph validate_stored_form snapshot key bytes)
  ]

  unfoldable pub put : (S → S) → ResourceKey → V → S → PublicationRegistry → Option (Answer E S)
  unfolding plan_put commit_plan
  put between key value s p =
      let r = graph_store.snapshot s in
      elim (plan_put r.1 key value) [
        | none ↦ none
        | some plan ↦ some (commit_plan graph_store between r.0 p plan)
      ]

  unfoldable pub plan_delete :
      Result (StoreError E) StoredGraph → ResourceKey → Result (GraphError E) GraphCommit
  unfolding plan_delete_mutation
  plan_delete observed key = map_err store observed >>= λ snapshot.
      plan_delete_mutation decode_graph validate_stored_form snapshot key

  unfoldable pub delete : (S → S) → ResourceKey → S → PublicationRegistry → Answer E S
  unfolding plan_delete commit_plan
  delete between key s p =
      let r = graph_store.snapshot s in commit_plan graph_store between r.0 p (plan_delete r.1 key)

-- The status of `ApiError::from(GraphError)`.
unfoldable pub status_of : {E : Type 0} → GraphError E → ℕ
status_of (not_found key) = 404
status_of cas_conflict = 409
status_of (referential_conflict e) = 409
status_of (invalid_key key message) = 400
status_of (invalid_resource key e) = 400
status_of (invalid_candidate e) = 400
status_of (secret key operation e) = 400
status_of (store e) = 503
status_of (stale_revision revision base) = 500
status_of worker_stopped = 500
