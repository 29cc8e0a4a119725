-- ===== src/Graph/Decode/Plan.antt =====
-- An Admin mutation from its plan to its commit, in the in-memory store.
use pingsix.Prelude.{
  ℕ, ◌≡◌, refl, ◌≢◌, List, Option, none, some, Option-cases, Bytes, ◌==◌, if◌then◌else◌, arith, inl,
  inr,
}
use pingsix.Prelude.Dict
use pingsix.Graph.Vocabulary.{
  ResourceKey, key_eq, StoredResource, StoredGraph, StoredMutation, GraphCommit, GraphError,
  invalid_candidate, referential_conflict, Result, Result-cases, ok,
}
use pingsix.Graph.Decode.{
  SecretMode, preserve_stored, check_candidate, put_candidate, plan_put_mutation,
  plan_delete_mutation,
}
use pingsix.Graph.Memory.{InMemoryState, snapshot, get_exact, compare_and_swap, mod_revision_of}
use pingsix.Graph.Memory.Cas.{IsSound, run, compare_and_swap_serial}
use pingsix.Graph.Memory.Effect.{compare_and_swap_iff, get_exact-compare_and_swap}

abbrev pub value_of : Option StoredResource → Option Bytes
value_of none = none
value_of (some r) = some r.value

module _ {E Set : Type 0} (decode_graph : StoredGraph → SecretMode → Result E Set)
    (validate_stored_form : Set → Result E (Unit {0})) where
  -- The candidate decodes, and the stored form of what it decodes to is valid.
  abbrev pub IsValidCandidate : StoredGraph → Type 0
  IsValidCandidate g =
      (set : Set) × (decode_graph g preserve_stored ≡ ok set) × (validate_stored_form set ≡ ok tt)

  check_candidate-IsValidCandidate :
      (wrap : E → GraphError E) (g : StoredGraph) {u : Unit {0}}
      → check_candidate decode_graph validate_stored_form wrap g ≡ ok u
      → IsValidCandidate g
  unfolding check_candidate
  check_candidate-IsValidCandidate wrap g h = elim (Result-cases (decode_graph g preserve_stored)) [
    | inl (set, decoded) ↦ elim (Result-cases (validate_stored_form set)) [
      | inl (_, valid) ↦ (set, decoded, valid)
      | inr (e, invalid) ↦ absurd (ground arith)
    ]
    | inr (e, broken) ↦ absurd (ground arith)
  ]

  plan_put-cases :
      (g : StoredGraph) (key : ResourceKey) (v : Bytes) {c : GraphCommit}
      → plan_put_mutation decode_graph validate_stored_form g key v ≡ ok c
      → IsValidCandidate (put_candidate g key v)
        × (c.mutation ≡ StoredMutation.put key v)
        × (c.expected_guard_mod_revision ≡ g.guard_mod_revision)
        × (c.expected_target_mod_revision ≡ mod_revision_of (Dict.lookup key g.resources))
  unfolding plan_put_mutation
  plan_put-cases g key v h =
      elim (Result-cases (
        check_candidate decode_graph validate_stored_form invalid_candidate
          (put_candidate g key v))) [
            | inl (u, checked) ↦ (
              check_candidate-IsValidCandidate invalid_candidate _ checked,
              ground arith,
              ground arith,
              ground arith,
            )
            | inr (e, failed) ↦ absurd (ground arith)
          ]

  -- A PUT that is planned from the in-memory store in a sound state and committed later, whatever
  -- other commits are tried in between: the store has not changed since the plan, the candidate graph was valid, and
  -- every key then holds the value that it has in the candidate.
  pub plan_put_mutation-commits :
      (s : InMemoryState) (cs : List GraphCommit) (key j : ResourceKey) (v : Bytes)
      {c : GraphCommit} {r : ℕ}
      → IsSound s
      → plan_put_mutation decode_graph validate_stored_form (snapshot s) key v ≡ ok c
      → (compare_and_swap {E = E} c (run cs s)).1 ≡ ok r
      → (run cs s ≡ s)
        × IsValidCandidate (put_candidate (snapshot s) key v)
        × (value_of (get_exact j (compare_and_swap {E = E} c (run cs s)).0)
            ≡ value_of (Dict.lookup j (put_candidate (snapshot s) key v).resources))
  unfolding snapshot get_exact
  plan_put_mutation-commits s cs key j v {c} sound planned done =
      let (valid, mutation, guard, target) = plan_put-cases (snapshot s) key v planned in
      let same = compare_and_swap_serial s cs c sound guard done in
      let effect = get_exact-compare_and_swap c (run cs s) j done in
      (
        same,
        valid,
        rw effect.0 (
            rw (same, mutation, Dict.lookup-insert)
              (ground (arith, Option-cases (Dict.lookup j s.graph.resources)))),
      )

  -- With no commit in between, every plan of a valid PUT is taken.
  pub plan_put_mutation-taken :
      (s : InMemoryState) (key : ResourceKey) (v : Bytes)
      → IsValidCandidate (put_candidate (snapshot s) key v)
      → (c : GraphCommit) × (plan_put_mutation decode_graph validate_stored_form (snapshot s) key v
          ≡ ok c)
        × ((compare_and_swap {E = E} c s).1 ≡ ok s.next_revision)
  unfolding plan_put_mutation check_candidate snapshot get_exact
  plan_put_mutation-taken s key v (set, decoded, valid) =
      let c : GraphCommit = record {
        mutation = StoredMutation.put key v;
        expected_target_mod_revision = mod_revision_of (Dict.lookup key s.graph.resources);
        expected_guard_mod_revision = s.graph.guard_mod_revision;
      } in
      (c, ground arith, (compare_and_swap_iff c s).0.1 (refl, refl))

  plan_delete-cases :
      (g : StoredGraph) (key : ResourceKey) {c : GraphCommit}
      → plan_delete_mutation decode_graph validate_stored_form g key ≡ ok c
      → IsValidCandidate (record g { resources = Dict.remove key g.resources })
        × (c.mutation ≡ StoredMutation.delete key)
        × (c.expected_guard_mod_revision ≡ g.guard_mod_revision)
        × (Dict.lookup key g.resources ≢ none)
  unfolding plan_delete_mutation
  plan_delete-cases g key h =
      elim (Result-cases (
        check_candidate decode_graph validate_stored_form referential_conflict
          (record g { resources = Dict.remove key g.resources }))) [
            | inl (u, checked) ↦ (
              check_candidate-IsValidCandidate referential_conflict _ checked,
              ground arith,
              ground arith,
              ground arith,
            )
            | inr (e, failed) ↦ absurd (ground arith)
          ]

  -- A DELETE that is planned from the in-memory store in a sound state and committed later: the
  -- store has not changed since the plan, it held the key, the graph without the key was valid, and
  -- the commit removes that key alone.
  pub plan_delete_mutation-commits :
      (s : InMemoryState) (cs : List GraphCommit) (key j : ResourceKey) {c : GraphCommit} {r : ℕ}
      → IsSound s
      → plan_delete_mutation decode_graph validate_stored_form (snapshot s) key ≡ ok c
      → (compare_and_swap {E = E} c (run cs s)).1 ≡ ok r
      → (run cs s ≡ s)
        × (get_exact key s ≢ none)
        × IsValidCandidate (record s.graph { resources = Dict.remove key s.graph.resources })
        × (get_exact j (compare_and_swap {E = E} c (run cs s)).0
            ≡ (if j == key then none else get_exact j s))
  unfolding snapshot get_exact
  plan_delete_mutation-commits s cs key j {c} sound planned done =
      let (valid, mutation, guard, found) = plan_delete-cases (snapshot s) key planned in
      let same = compare_and_swap_serial s cs c sound guard done in
      let effect = get_exact-compare_and_swap c (run cs s) j done in
      (same, found, valid, rw effect.0 (rw (same, mutation)))
