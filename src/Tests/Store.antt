-- ===== src/Tests/Store.antt =====
-- Two Admin writers over the in-memory store.
use pingsix.Prelude.{
  ◌≡◌, refl, some, none, [], ◌∷◌, ℕ, if◌then◌else◌, codes, String, leb, length, Bytes-discrete,
  ℕ_discrete, option_eq,
}
use pingsix.Graph.{
  ResourceKey, ResourceKey-discrete, key_eq, route, upstream, StoredGraph, StoredResource,
  StoredChange, WatchBatch, StoredMutation, GraphCommit, conflict, Result, ok, err,
}
use pingsix.Graph.Memory.{InMemoryState, new, snapshot, get_exact, compare_and_swap}
use pingsix.Graph.Memory.Cas
use pingsix.Graph.Memory.Cas.{run}
use pingsix.Graph.Memory.Effect
use pingsix.Graph.Decode.{SecretMode, apply_watch_batch, plan_put_mutation, plan_delete_mutation}

program : Unit {0}
unfolding ResourceKey-discrete Bytes-discrete ℕ_discrete option_eq new snapshot get_exact
    compare_and_swap run apply_watch_batch plan_put_mutation plan_delete_mutation
program = tt

abbrev key_a : ResourceKey
key_a = record { kind = route; id = codes "a" }

abbrev key_b : ResourceKey
key_b = record { kind = upstream; id = codes "b" }

abbrev create_a : GraphCommit
create_a = record {
  mutation = StoredMutation.put key_a (codes "1");
  expected_target_mod_revision = none;
  expected_guard_mod_revision = none;
}

-- The same plan, made by another writer.
abbrev create_b : GraphCommit
create_b = record create_a { mutation = StoredMutation.put key_b (codes "2") }

first_wins : (compare_and_swap {E = ⊥} create_a new).1 ≡ ok 1
unfolding program
first_wins = refl

second_conflicts : (compare_and_swap {E = ⊥} create_b (run (create_a ∷ []) new)).1 ≡ err conflict
unfolding program
second_conflicts = refl

-- A decoder that takes every graph, and a validator that wants at most two resources.
abbrev decode : StoredGraph → SecretMode → Result String StoredGraph
decode g mode = ok g

abbrev at_most_two : StoredGraph → Result String (Unit {0})
at_most_two g = if leb (length g.resources) 2 then ok tt else err "too many"

abbrev later : InMemoryState
later = run (create_a ∷ []) new

abbrev update_a : GraphCommit
update_a = record {
  mutation = StoredMutation.put key_a (codes "3");
  expected_target_mod_revision = some 1;
  expected_guard_mod_revision = some 1;
}

compare_and_swap_serial_example : run (create_b ∷ []) later ≡ later
unfolding program
compare_and_swap_serial_example =
    Cas.compare_and_swap_serial {E = String} later (create_b ∷ []) update_a
      (Effect.run-new-IsSound (create_a ∷ [])) refl refl

abbrev entry : ℕ → StoredResource
entry n = record { value = codes "v"; create_revision = n; mod_revision = n }

abbrev batch : WatchBatch
batch = record {
  revision = 9;
  changes =
      StoredChange.put key_a (entry 8)
      ∷ StoredChange.delete key_b
      ∷ StoredChange.put key_a (entry 9)
      ∷ [];
}
