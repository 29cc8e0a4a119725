-- ===== src/Admin/Answers.antt =====
-- The statuses that mutations are refused with.
use pingsix.Prelude.{ℕ, ◌≡◌, refl, ap, ◌∙◌, some, arith, inl, inr, Option-cases, ◌⊎◌}
use pingsix.Prelude.Dict
use pingsix.Graph.{
  ResourceKey, key_eq, StoredGraph, GraphCommit, GraphError, invalid_candidate,
  referential_conflict, not_found, StoreError, conflict, unavailable, invalid_response,
  unsupported_protocol, Result, ok, err, Result-cases,
}
use pingsix.Graph.Decode.{
  SecretMode, check_candidate, plan_put_mutation, plan_delete_mutation, preserve_stored,
  put_candidate,
}
use pingsix.Graph.Publication.{PublicationRegistry}
use pingsix.Admin.Request.{
  GraphStore, Documents, Answer, with_id, map_store_error, committed, commit_plan, restored_value,
  stored_value, plan_put, put, plan_delete, delete, status_of,
}

map_store_error-status :
    {E : Type 0} (e : StoreError E)
    → (status_of (map_store_error e) ≡ 409) ⊎ (status_of (map_store_error e) ≡ 503)
unfolding map_store_error status_of
map_store_error-status conflict = inl refl
map_store_error-status (unavailable e) = inr refl
map_store_error-status (invalid_response m) = inr refl
map_store_error-status unsupported_protocol = inr refl

-- A refusal of the request, of a conflict, or of the store.
abbrev pub IsRefusal : ℕ → Type 0
IsRefusal n = (n ≡ 400) ⊎ (n ≡ 409) ⊎ (n ≡ 503)

commit_plan-status :
    {E S : Type 0} (graph_store : GraphStore E S) (between : S → S) (s : S)
    (p : PublicationRegistry) (plan : Result (GraphError E) GraphCommit) (e : GraphError E)
    → (commit_plan graph_store between s p plan).result ≡ err e
    → (plan ≡ err e) ⊎ IsRefusal (status_of e)
unfolding commit_plan committed
commit_plan-status graph_store between s p (err x) e h = inl (ground arith)
commit_plan-status graph_store between s p (ok c) e h =
    elim (Result-cases (graph_store.compare_and_swap c (between s)).1) [
      | inl (r, o) ↦ absurd (ground arith)
      | inr (x, o) ↦ ground (arith, map_store_error-status x)
    ]

restored_value-status :
    {E V : Type 0} (json : Documents E V) (g : StoredGraph) (key : ResourceKey) (v : V)
    (e : GraphError E)
    → restored_value json g key v ≡ err e
    → status_of e ≡ 400
unfolding restored_value status_of
restored_value-status json g key v e h = elim (Option-cases (Dict.lookup key g.resources)) [
  | inl n ↦ ground arith
  | inr (r, n) ↦ elim (Result-cases (json.parse r.value)) [
    | inr (x, m) ↦ ground arith
    | inl (w, m) ↦ ground arith
  ]
]

stored_value-status :
    {E V : Type 0} (json : Documents E V) (g : StoredGraph) (key : ResourceKey) (v : V)
    (e : GraphError E)
    → stored_value json g key v ≡ err e
    → status_of e ≡ 400
unfolding stored_value status_of
stored_value-status json g key v e h = elim (Result-cases (restored_value json g key v)) [
  | inr (x, m) ↦ ground (arith, restored_value-status json g key v x m)
  | inl (w, m) ↦ elim (Result-cases (json.validate_resource_json key.kind w)) [
    | inr (x, n) ↦ ground arith
    | inl (u, n) ↦ ground arith
  ]
]

module _ {E V S Set : Type 0} (json : Documents E V)
    (decode_graph : StoredGraph → SecretMode → Result E Set)
    (validate_stored_form : Set → Result E (Unit {0})) (graph_store : GraphStore E S) where
  check_candidate-wraps :
      (wrap : E → GraphError E) (g : StoredGraph) (e : GraphError E)
      → check_candidate decode_graph validate_stored_form wrap g ≡ err e
      → (x : E) × (e ≡ wrap x)
  unfolding check_candidate
  check_candidate-wraps wrap g e h = elim (Result-cases (decode_graph g preserve_stored)) [
    | inr (x, m) ↦ (x, ground arith)
    | inl (set, m) ↦ elim (Result-cases (validate_stored_form set)) [
      | inr (x, n) ↦ (x, ground arith)
      | inl (u, n) ↦ absurd (ground arith)
    ]
  ]

  plan_put-status :
      (observed : Result (StoreError E) StoredGraph) (key : ResourceKey) (v : V) (e : GraphError E)
      → plan_put json decode_graph validate_stored_form graph_store observed key v ≡ some (err e)
      → IsRefusal (status_of e)
  unfolding plan_put plan_put_mutation status_of
  plan_put-status (err x) key v e h = ground arith
  plan_put-status (ok g) key v e h = elim (Option-cases (with_id json key.id v)) [
    | inl n ↦ absurd (ground arith)
    | inr (named, n) ↦ elim (Result-cases (stored_value json g key named)) [
      | inr (x, m) ↦ ground (arith, stored_value-status json g key named x m)
      | inl (bytes, m) ↦
          elim (Result-cases (
            check_candidate decode_graph validate_stored_form invalid_candidate
              (put_candidate g key bytes))) [
                | inl (u, o) ↦ absurd (ground arith)
                | inr (x, o) ↦
                    let (y, wrapped) = check_candidate-wraps invalid_candidate _ x o in ground arith
              ]
    ]
  ]

  -- Where `ConfigurationGraph::put` returns an error (it may panic on the id instead), over any store
  -- and whatever others do to it, the error is answered with 400, 409 or 503, never with 404 or 500.
  -- The answers that the handler gives before it calls `put` are apart from this.
  pub put-status :
      (between : S → S) (key : ResourceKey) (v : V) (s : S) (p : PublicationRegistry)
      (a : Answer E S) (e : GraphError E)
      → put json decode_graph validate_stored_form graph_store between key v s p ≡ some a
      → a.result ≡ err e
      → IsRefusal (status_of e)
  unfolding put
  put-status between key v s p a e answered h =
      let r = graph_store.snapshot s in
      elim (Option-cases (plan_put json decode_graph validate_stored_form graph_store r.1 key v)) [
        | inl n ↦ absurd (ground arith)
        | inr (plan, n) ↦
            let same : commit_plan graph_store between r.0 p plan ≡ a = ground arith in
            elim (commit_plan-status graph_store between r.0 p plan e (ap Answer.result same ∙ h)) [
              | inl planned ↦ plan_put-status r.1 key v e (n ∙ ap some planned)
              | inr refused ↦ refused
            ]
      ]

  plan_delete-status :
      (observed : Result (StoreError E) StoredGraph) (key : ResourceKey) (e : GraphError E)
      → plan_delete json decode_graph validate_stored_form graph_store observed key ≡ err e
      → (e ≡ not_found key) ⊎ IsRefusal (status_of e)
  unfolding plan_delete plan_delete_mutation status_of
  plan_delete-status (err x) key e h = ground arith
  plan_delete-status (ok g) key e h = elim (Option-cases (Dict.lookup key g.resources)) [
    | inl n ↦ ground arith
    | inr (r, n) ↦
        elim (Result-cases (
          check_candidate decode_graph validate_stored_form referential_conflict
            (record g { resources = Dict.remove key g.resources }))) [
              | inl (u, m) ↦ absurd (ground arith)
              | inr (x, m) ↦
                  let (y, wrapped) = check_candidate-wraps referential_conflict _ x m in
                  ground arith
            ]
  ]

  -- A DELETE that is refused either does not find its key, or is answered with 400, 409 or 503.
  pub delete-status :
      (between : S → S) (key : ResourceKey) (s : S) (p : PublicationRegistry) (e : GraphError E)
      → (delete json decode_graph validate_stored_form graph_store between key s p).result ≡ err e
      → (e ≡ not_found key) ⊎ IsRefusal (status_of e)
  unfolding delete
  delete-status between key s p e h =
      let r = graph_store.snapshot s in
      elim (commit_plan-status graph_store between r.0 p
        (plan_delete json decode_graph validate_stored_form graph_store r.1 key) e h) [
          | inl planned ↦ plan_delete-status r.1 key e planned
          | inr refused ↦ inr refused
        ]
