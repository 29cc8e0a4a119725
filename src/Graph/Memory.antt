-- ===== src/Graph/Memory.antt =====
-- `InMemoryGraphStore` (store.rs): whole-graph snapshots and guarded compare-and-swap. The async
-- mutex makes each method one atomic step on `InMemoryState`.
pub mod Cas
pub mod Effect
use mathlib.Core.List.{filter}
use pingsix.Prelude.{
  ℕ, suc, Bool, true, false, not, ◌||◌, ◌&&◌, Option, none, some, List, [], ◌∷◌, ◌==◌, nat_eq,
  option_eq, is_none, if◌then◌else◌,
}
use pingsix.Prelude.Dict
use pingsix.Graph.Vocabulary.{
  ResourceKind, ResourceKey, kind_eq, key_eq, ResourceKind-discrete, StoredResource, StoredGraph,
  empty_graph, StoredMutation, put, delete, GraphCommit, StoreError, conflict, Result, ok, err,
}

pub record InMemoryState : Type 0 where
  pub graph : StoredGraph
  pub next_revision : ℕ

unfoldable pub new : InMemoryState
unfolding empty_graph
new = record { graph = empty_graph; next_revision = 1 }

unfoldable pub get_exact : ResourceKey → InMemoryState → Option StoredResource
unfolding Dict.lookup
get_exact key s = Dict.lookup key s.graph.resources

-- In the order of the map, which is arbitrary in the source.
unfoldable pub list_kind : ResourceKind → InMemoryState → List (ResourceKey × StoredResource)
list_kind kind s = filter (λ e. ResourceKind-discrete e.0.kind kind) s.graph.resources

unfoldable pub snapshot : InMemoryState → StoredGraph
snapshot s = s.graph

abbrev pub target_key : StoredMutation → ResourceKey
target_key (put key value) = key
target_key (delete key) = key

abbrev pub mod_revision_of : Option StoredResource → Option ℕ
mod_revision_of none = none
mod_revision_of (some r) = some r.mod_revision

abbrev create_revision_or : ℕ → Option StoredResource → ℕ
create_revision_or revision none = revision
create_revision_or revision (some r) = r.create_revision

-- `target_ok` and `guard_ok`
unfoldable pub target_ok : GraphCommit → StoredGraph → Bool
unfolding Dict.contains_key Dict.lookup
target_ok commit g = elim commit.expected_target_mod_revision [
  | none ↦ not (Dict.contains_key (target_key commit.mutation) g.resources)
  | some expected ↦
      mod_revision_of (Dict.lookup (target_key commit.mutation) g.resources) == some expected
]

unfoldable pub guard_ok : GraphCommit → StoredGraph → Bool
guard_ok commit g = elim commit.expected_guard_mod_revision [
  | none ↦ is_none g.guard_mod_revision
  | some expected ↦ g.guard_mod_revision == some expected
]

-- The `match` that writes the mutation at its commit revision.
unfoldable pub write :
    ℕ → StoredMutation → Dict.Dict ResourceKey StoredResource → Dict.Dict ResourceKey StoredResource
unfolding Dict.insert Dict.remove Dict.lookup
write revision (put key value) d =
    Dict.insert key
      (record {
        value = value;
        create_revision = create_revision_or revision (Dict.lookup key d);
        mod_revision = revision;
      })
      d
write revision (delete key) d = Dict.remove key d

-- The store after the call, and the revision of the commit.
unfoldable pub compare_and_swap :
    {E : Type 0} → GraphCommit → InMemoryState → InMemoryState × Result (StoreError E) ℕ
unfolding target_ok guard_ok write
compare_and_swap commit s =
    if not (target_ok commit s.graph) || not (guard_ok commit s.graph) then (s, err conflict) else (
      record {
        graph = record {
          resources = write s.next_revision commit.mutation s.graph.resources;
          guard_mod_revision = some s.next_revision;
          revision = s.next_revision;
        };
        next_revision = suc s.next_revision;
      },
      ok s.next_revision,
    )
