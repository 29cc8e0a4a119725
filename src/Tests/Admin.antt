-- ===== src/Tests/Admin.antt =====
-- Admin mutations over the in-memory store: a PUT whose body keeps its secret, and a refused one.
use pingsix.Prelude.{
  ◌≡◌, ◌≢◌, refl, true, none, some, ◌==◌, if◌then◌else◌, [], ◌∷◌, ◌++◌, String, Bytes, codes,
  bytes_eq, Bytes-discrete, ℕ_discrete, option_eq,
}
use pingsix.Prelude.Dict
use pingsix.Prelude.Ordered
use pingsix.Graph.{
  ResourceKey, ResourceKey-discrete, ResourceKind-discrete, key_eq, route, StoredGraph,
  StoredMutation, GraphCommit, GraphError, invalid_resource, cas_conflict, Result, ok, err,
}
use pingsix.Graph.Memory.{InMemoryState, new, snapshot, get_exact, compare_and_swap}
use pingsix.Graph.Memory.Cas.{run}
use pingsix.Graph.Memory.Effect
use pingsix.Graph.Decode.{SecretMode, put_candidate, plan_put_mutation, plan_delete_mutation}
use pingsix.Graph.Decode.Plan.{value_of, IsValidCandidate}
use pingsix.Graph.Publication.{empty}
use pingsix.Admin.{
  Documents, Answer, in_memory_store, with_id, put, delete, stored_value,
  record_pending_publication, status_of,
}
use pingsix.Admin.Answers
use pingsix.Admin.Answers.{IsRefusal}
use pingsix.Admin.Commits

unfoldable program : Unit {0}
unfolding with_id delete plan_delete_mutation ResourceKey-discrete ResourceKind-discrete
    Bytes-discrete ℕ_discrete option_eq new snapshot get_exact compare_and_swap run
    plan_put_mutation put in_memory_store empty Dict.lookup Ordered.insert
program = tt

abbrev key_a : ResourceKey
key_a = record { kind = route; id = codes "a" }

abbrev create_a : GraphCommit
create_a = record {
  mutation = StoredMutation.put key_a (codes "1");
  expected_target_mod_revision = none;
  expected_guard_mod_revision = none;
}

-- Documents are their bytes, with the id `a`, and the empty one is one that takes no id; the value that is read back takes the place of a redacted one.
abbrev json : Documents String Bytes
json = record {
  body_id = λ value. if value == [] then none else some (codes "a");
  set_id = λ id value. none;
  contains_redaction_sentinel = λ value. true;
  parse = λ bytes. ok bytes;
  decrypt_for_read = λ kind value. ok value;
  restore_redacted_secrets = λ kind value existing. existing ++ value;
  validate_resource_json = λ kind value. ok tt;
  encrypt_for_storage = λ kind value. ok value;
}

abbrev refusing : Documents String Bytes
refusing = record json { validate_resource_json = λ kind value. err "no" }

abbrev decode : StoredGraph → SecretMode → Result String StoredGraph
decode g mode = ok g

abbrev accept : StoredGraph → Result String (Unit {0})
accept g = ok tt

abbrev first : InMemoryState
first = run (create_a ∷ []) new

abbrev update_a : Bytes → Answer String InMemoryState
update_a value =
    elim (put json decode accept in_memory_store (run (create_a ∷ [])) key_a value first empty) [
      | some a ↦ a
      | none ↦ record { state = first; publications = empty; result = err cas_conflict }
    ]

put-commits_example :
    (run (create_a ∷ []) first ≡ first)
    × ((update_a (codes "2")).publications ≡ record_pending_publication 2 empty)
    × ((named : Bytes) × (with_id json (codes "a") (codes "2") ≡ some named)
        × ((bytes : Bytes) × (stored_value json (snapshot first) key_a named ≡ ok bytes)
            × IsValidCandidate decode accept (put_candidate (snapshot first) key_a bytes)
            × (value_of (get_exact key_a (update_a (codes "2")).state)
                ≡ value_of
                    (Dict.lookup key_a (put_candidate (snapshot first) key_a bytes).resources))))
unfolding program
put-commits_example =
    Commits.put-commits json decode accept first (create_a ∷ []) key_a key_a (codes "2") empty
      (update_a (codes "2")) 2 (Effect.run-new-IsSound (create_a ∷ [])) refl refl

-- A value that takes no id ends the call of `put` in a panic.
put_panics :
    put json decode accept in_memory_store (run (create_a ∷ [])) key_a [] first empty ≡ none
unfolding program
put_panics = refl

delete-commits_example :
    let a = delete json decode accept in_memory_store (run (create_a ∷ [])) key_a first empty in
    (run (create_a ∷ []) first ≡ first)
    × (a.publications ≡ record_pending_publication 2 empty)
    × (get_exact key_a first ≢ none)
    × IsValidCandidate decode accept
        (record first.graph { resources = Dict.remove key_a first.graph.resources })
    × (get_exact key_a a.state ≡ (if key_a == key_a then none else get_exact key_a first))
unfolding program
delete-commits_example =
    Commits.delete-commits json decode accept first (create_a ∷ []) key_a key_a empty 2
      (Effect.run-new-IsSound (create_a ∷ [])) refl

abbrev body_refused : GraphError String
body_refused = invalid_resource key_a "no"

abbrev refused : Answer String InMemoryState
refused = record { state = first; publications = empty; result = err body_refused }

put-status_example : IsRefusal (status_of body_refused)
unfolding program
put-status_example =
    Answers.put-status refusing decode accept in_memory_store (run []) key_a (codes "2") first empty
      refused body_refused refl refl
