-- ===== src/Graph/Memory/Effect.antt =====
-- One guarded commit: when it is taken, and what it writes.
use pingsix.Prelude.{
  ℕ, suc, ◌<◌, ◌≡◌, ◌↔◌, ◌⊎◌, inl, inr, true, Option, none, some, ◌==◌, if◌then◌else◌, All, arith,
  option_eq, nat_eq, List, [], ◌∷◌,
}
use pingsix.Prelude.Dict
use pingsix.Prelude.Dict.{insert-All, remove-All, All-mono}
use pingsix.Graph.Vocabulary.{
  ResourceKey, key_eq, StoredResource, StoredMutation, put, delete, GraphCommit, conflict, ok, err,
  StoredGraph,
}
use pingsix.Graph.Memory.{
  InMemoryState, new, target_ok, guard_ok, write, compare_and_swap, mod_revision_of, target_key,
  get_exact,
}
use pingsix.Graph.Memory.Cas.{IsSound, run, step-cases, accepted}

target_ok_iff :
    (c : GraphCommit) (g : StoredGraph)
    → (target_ok c g ≡ true) ↔ (
        c.expected_target_mod_revision
        ≡ mod_revision_of (Dict.lookup (target_key c.mutation) g.resources))
unfolding target_ok Dict.contains_key option_eq
target_ok_iff c g = ground arith

guard_ok_iff :
    (c : GraphCommit) (g : StoredGraph)
    → (guard_ok c g ≡ true) ↔ (c.expected_guard_mod_revision ≡ g.guard_mod_revision)
unfolding guard_ok option_eq
guard_ok_iff c g = ground arith

-- A commit is taken exactly when the target and the guard still have the revisions that its plan
-- saw; it then gets the next revision. Otherwise the store is left as it was.
pub compare_and_swap_iff :
    {E : Type 0} (c : GraphCommit) (s : InMemoryState)
    → (((compare_and_swap {E = E} c s).1 ≡ ok s.next_revision) ↔ (
        (c.expected_target_mod_revision ≡ mod_revision_of (get_exact (target_key c.mutation) s))
        × (c.expected_guard_mod_revision ≡ s.graph.guard_mod_revision)))
      × (((compare_and_swap {E = E} c s).1 ≡ ok s.next_revision)
          ⊎ (compare_and_swap {E = E} c s ≡ (s, err conflict)))
unfolding compare_and_swap get_exact
compare_and_swap_iff c s =
    (ground (arith, target_ok_iff c s.graph, guard_ok_iff c s.graph), ground arith)

-- What a mutation leaves at its target.
abbrev pub written : ℕ → StoredMutation → Option StoredResource → Option StoredResource
written revision (put key value) none =
    some (record { value = value; create_revision = revision; mod_revision = revision })
written revision (put key value) (some old) =
    some (record { value = value; create_revision = old.create_revision; mod_revision = revision })
written revision (delete key) old = none

lookup-write :
    (r : ℕ) (m : StoredMutation) (d : Dict.Dict ResourceKey StoredResource) (j : ResourceKey)
    → Dict.lookup j (write r m d)
      ≡ (if j == target_key m then written r m (Dict.lookup j d) else Dict.lookup j d)
unfolding write
lookup-write r (put k v) d j = rw Dict.lookup-insert (ground arith)
lookup-write r (delete k) d j = ground (arith, Dict.lookup-remove j k d)

-- A commit that is taken changes its target alone: a put keeps the revision of creation, and a
-- delete leaves nothing. The guard and the graph move to the revision of the commit.
pub get_exact-compare_and_swap :
    {E : Type 0} (c : GraphCommit) (s : InMemoryState) (j : ResourceKey) {r : ℕ}
    → (compare_and_swap {E = E} c s).1 ≡ ok r
    → let t = (compare_and_swap {E = E} c s).0 in
      (get_exact j t ≡ (
        if j == target_key c.mutation then written r c.mutation (get_exact j s) else get_exact j s))
      × (t.graph.guard_mod_revision ≡ some r)
      × (t.graph.revision ≡ r)
unfolding compare_and_swap get_exact
get_exact-compare_and_swap c s j h =
    ground (arith, lookup-write s.next_revision c.mutation s.graph.resources j)

write-All :
    (r n : ℕ) (m : StoredMutation) (d : Dict.Dict ResourceKey StoredResource)
    → r < n
    → All (λ e. e.1.mod_revision < n) d
    → All (λ e. e.1.mod_revision < n) (write r m d)
unfolding write
write-All r n (put k v) d l h = insert-All (λ e. e.1.mod_revision < n) k _ d l h
write-All r n (delete k) d l h = remove-All (λ e. e.1.mod_revision < n) k d h

accepted-IsSound : (c : GraphCommit) (s : InMemoryState) → IsSound s → IsSound (accepted c s)
accepted-IsSound c s h = record {
  fresh = omega arith;
  current = omega arith;
  entries =
      write-All s.next_revision (suc s.next_revision) c.mutation s.graph.resources (omega arith) (
        All-mono (λ e. e.1.mod_revision < s.next_revision)
          (λ e. e.1.mod_revision < suc s.next_revision) (λ e p. omega arith) s.graph.resources
          h.entries);
}

run-IsSound : (cs : List GraphCommit) (s : InMemoryState) → IsSound s → IsSound (run cs s)
unfolding run
run-IsSound [] s h = h
run-IsSound (c ∷ cs) s h = elim (step-cases c s) [
  | inl same ↦ rw same (run-IsSound cs s h)
  | inr new ↦ rw new (run-IsSound cs (accepted c s) (accepted-IsSound c s h))
]

-- Every state that commits can reach from the empty store is sound: no guard, graph or entry has
-- a revision that a later commit could be given again.
pub run-new-IsSound : (cs : List GraphCommit) → IsSound (run cs new)
unfolding new
run-new-IsSound cs = run-IsSound cs new (record { fresh = tt; current = omega arith; entries = tt })
