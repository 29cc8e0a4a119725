-- ===== src/Admin/Commits.antt =====
-- Admin mutations over the in-memory store, with the commits of others before its own.
use pingsix.Prelude.{
  ℕ, ◌≡◌, ◌≢◌, refl, ap, sym, ◌∙◌, List, none, some, Option-cases, arith, inl, inr, Bytes, ◌==◌,
  if◌then◌else◌,
}
use pingsix.Prelude.Dict
use pingsix.Graph.{
  ResourceKey, key_eq, StoredGraph, GraphCommit, GraphError, StoreError, Result, ok, err,
  Result-cases,
}
use pingsix.Graph.Memory.{InMemoryState, snapshot, get_exact, compare_and_swap}
use pingsix.Graph.Memory.Cas.{IsSound, run}
use pingsix.Graph.Decode.{SecretMode, put_candidate, plan_put_mutation}
use pingsix.Graph.Decode.Plan.{
  value_of, IsValidCandidate, plan_put_mutation-commits, plan_delete_mutation-commits,
}
use pingsix.Graph.Publication.{PublicationRegistry}
use pingsix.Admin.Request.{
  in_memory_store, Documents, Answer, record_pending_publication, committed, commit_plan, with_id,
  stored_value, plan_put, put, plan_delete, delete,
}

module _ {E V Set : Type 0} (json : Documents E V)
    (decode_graph : StoredGraph → SecretMode → Result E Set)
    (validate_stored_form : Set → Result E (Unit {0})) where
  plan_put-ok :
      (g : StoredGraph) (key : ResourceKey) (v : V) (c : GraphCommit)
      → plan_put json decode_graph validate_stored_form in_memory_store (ok g) key v ≡ some (ok c)
      → (named : V) × (with_id json key.id v ≡ some named)
        × ((bytes : Bytes) × (stored_value json g key named ≡ ok bytes)
            × (plan_put_mutation decode_graph validate_stored_form g key bytes ≡ ok c))
  unfolding plan_put
  plan_put-ok g key v c h = elim (Option-cases (with_id json key.id v)) [
    | inl n ↦ absurd (ground arith)
    | inr (named, n) ↦ elim (Result-cases (stored_value json g key named)) [
      | inl (bytes, m) ↦ (named, n, (bytes, m, ground arith))
      | inr (x, m) ↦ absurd (ground arith)
    ]
  ]

  committed-ok :
      (r : InMemoryState × Result (StoreError E) ℕ) (p : PublicationRegistry) (revision : ℕ)
      → (committed r p).result ≡ ok revision
      → (r.1 ≡ ok revision)
        × ((committed r p).state ≡ r.0)
        × ((committed r p).publications ≡ record_pending_publication revision p)
  unfolding committed
  committed-ok (s, ok n) p revision h =
      let same : n ≡ revision = ground arith in
      (ap ok same, refl, ap (λ k. record_pending_publication k p) same)
  committed-ok (s, err e) p revision h = absurd (ground arith)

  -- A commit that a plan led to.
  commit_plan-ok :
      (between : InMemoryState → InMemoryState) (s : InMemoryState) (p : PublicationRegistry)
      (plan : Result (GraphError E) GraphCommit) (revision : ℕ)
      → (commit_plan in_memory_store between s p plan).result ≡ ok revision
      → (c : GraphCommit) × (plan ≡ ok c)
        × ((compare_and_swap {E = E} c (between s)).1 ≡ ok revision)
        × ((commit_plan in_memory_store between s p plan).state
            ≡ (compare_and_swap {E = E} c (between s)).0)
        × ((commit_plan in_memory_store between s p plan).publications
            ≡ record_pending_publication revision p)
  unfolding commit_plan in_memory_store
  commit_plan-ok between s p (err e) revision h = absurd (ground arith)
  commit_plan-ok between s p (ok c) revision h =
      let (done, left, recorded) = committed-ok (compare_and_swap c (between s)) p revision h in
      (c, refl, done, left, recorded)

  -- An Admin PUT over the in-memory store in a sound state, when it returns a revision, whatever
  -- compare-and-swaps of others came between its snapshot and its own: they left the store as it
  -- was; the value, with the key's id, has been restored, validated and encrypted against that snapshot; the
  -- graph with it was valid; every key then holds the value that it has there; and the revision is
  -- recorded as pending.
  pub put-commits :
      (s : InMemoryState) (cs : List GraphCommit) (key j : ResourceKey) (v : V)
      (p : PublicationRegistry) (a : Answer E InMemoryState) (revision : ℕ)
      → IsSound s
      → put json decode_graph validate_stored_form in_memory_store (run cs) key v s p ≡ some a
      → a.result ≡ ok revision
      → (run cs s ≡ s)
        × (a.publications ≡ record_pending_publication revision p)
        × ((named : V) × (with_id json key.id v ≡ some named)
            × ((bytes : Bytes) × (stored_value json (snapshot s) key named ≡ ok bytes)
                × IsValidCandidate decode_graph validate_stored_form
                    (put_candidate (snapshot s) key bytes)
                × (value_of (get_exact j a.state)
                    ≡ value_of (Dict.lookup j (put_candidate (snapshot s) key bytes).resources))))
  unfolding put
  put-commits s cs key j v p a revision sound answered h =
      elim (Option-cases
        (plan_put json decode_graph validate_stored_form in_memory_store (ok (snapshot s)) key v)) [
          | inl n ↦ absurd (unfold in_memory_store in ground arith)
          | inr (plan, n) ↦
              let same : commit_plan in_memory_store (run cs) s p plan ≡ a =
                unfold in_memory_store in ground arith in
              let (c, planned, done, left, recorded) =
                commit_plan-ok (run cs) s p plan revision (ap Answer.result same ∙ h) in
              let (named, given, (bytes, stored, put_plan)) =
                plan_put-ok (snapshot s) key v c (n ∙ ap some planned) in
              let (kept, valid, effect) =
                plan_put_mutation-commits decode_graph validate_stored_form s cs key j bytes sound
                  put_plan done in
              let stands = ap (λ t. value_of (get_exact j t)) (ap Answer.state (sym same) ∙ left) in
              (
                kept,
                ap Answer.publications (sym same) ∙ recorded,
                (named, given, (bytes, stored, valid, stands ∙ effect)),
              )
        ]

  -- An Admin DELETE over the in-memory store in a sound state, when it returns a revision, whatever
  -- compare-and-swaps of others came between its snapshot and its own: they left the store as it
  -- was; it held the key; the graph without the key was valid; that key alone is then gone; and the
  -- revision is recorded as pending.
  pub delete-commits :
      (s : InMemoryState) (cs : List GraphCommit) (key j : ResourceKey) (p : PublicationRegistry)
      (revision : ℕ)
      → IsSound s
      → (delete json decode_graph validate_stored_form in_memory_store (run cs) key s p).result
        ≡ ok revision
      → let a = delete json decode_graph validate_stored_form in_memory_store (run cs) key s p in
        (run cs s ≡ s)
        × (a.publications ≡ record_pending_publication revision p)
        × (get_exact key s ≢ none)
        × IsValidCandidate decode_graph validate_stored_form
            (record s.graph { resources = Dict.remove key s.graph.resources })
        × (get_exact j a.state ≡ (if j == key then none else get_exact j s))
  unfolding delete plan_delete in_memory_store
  delete-commits s cs key j p revision sound h =
      let plan =
        plan_delete json decode_graph validate_stored_form in_memory_store (ok (snapshot s)) key in
      let (c, planned, done, left, recorded) = commit_plan-ok (run cs) s p plan revision h in
      let (kept, found, valid, effect) =
        plan_delete_mutation-commits decode_graph validate_stored_form s cs key j sound planned
          done in
      (kept, recorded, found, valid, ap (λ t. get_exact j t) left ∙ effect)
