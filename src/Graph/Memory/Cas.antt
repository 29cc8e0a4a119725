-- ===== src/Graph/Memory/Cas.antt =====
-- Guarded commits: what a commit that was planned from a snapshot can do later.
use pingsix.Prelude.{
  ℕ, suc, ◌≤◌, ◌<◌, ◌≡◌, refl, ◌⊎◌, inl, inr, Bool-cases, true, not, ◌||◌, Option, none, some, List,
  [], ◌∷◌, All, arith, nat_eq, option_eq,
}
use pingsix.Graph.Vocabulary.{key_eq, StoredGraph, GraphCommit, ok}
use pingsix.Graph.Memory.{InMemoryState, new, target_ok, guard_ok, write, compare_and_swap}

-- The commits in order, each taken or refused.
unfoldable pub run : List GraphCommit → InMemoryState → InMemoryState
run [] s = s
run (c ∷ cs) s = run cs (compare_and_swap {E = ⊥} c s).0

abbrev GuardBelow : Option ℕ → ℕ → Type 0
GuardBelow none n = Unit {0}
GuardBelow (some g) n = g < n

-- The store's revision, its guard and every entry lie below the next revision.
pub record IsSound (s : InMemoryState) : Type 0 where
  pub fresh : GuardBelow s.graph.guard_mod_revision s.next_revision
  pub current : s.graph.revision < s.next_revision
  pub entries : All (λ e. e.1.mod_revision < s.next_revision) s.graph.resources

abbrev pub step : GraphCommit → InMemoryState → InMemoryState
step c s = (compare_and_swap {E = ⊥} c s).0

-- The state that an accepted commit leaves.
abbrev pub accepted : GraphCommit → InMemoryState → InMemoryState
accepted c s = record {
  graph = record {
    resources = write s.next_revision c.mutation s.graph.resources;
    guard_mod_revision = some s.next_revision;
    revision = s.next_revision;
  };
  next_revision = suc s.next_revision;
}

pub step-cases : (c : GraphCommit) (s : InMemoryState) → (step c s ≡ s) ⊎ (step c s ≡ accepted c s)
unfolding compare_and_swap
step-cases c s = elim (Bool-cases (not (target_ok c s.graph) || not (guard_ok c s.graph))) [
  | inl refused ↦ inl (rw (refused, step, compare_and_swap))
  | inr taken ↦ inr (rw (taken, step, compare_and_swap))
]

-- Some commit at `n` or later has set the guard.
record IsMoved (n : ℕ) (s : InMemoryState) : Type 0 where
  guard : ℕ
  written : s.graph.guard_mod_revision ≡ some guard
  recent : n ≤ guard
  later : n ≤ s.next_revision

IsMoved-step : (n : ℕ) (c : GraphCommit) (s : InMemoryState) → IsMoved n s → IsMoved n (step c s)
IsMoved-step n c s m = elim (step-cases c s) [
  | inl same ↦ rw same m
  | inr new ↦ rw new (record {
    guard = s.next_revision;
    written = refl;
    recent = m.later;
    later = omega (arith, m.later);
  })
]

IsMoved-run :
    (n : ℕ) (cs : List GraphCommit) (s : InMemoryState) → IsMoved n s → IsMoved n (run cs s)
unfolding run
IsMoved-run n [] s m = m
IsMoved-run n (c ∷ cs) s m = IsMoved-run n cs (step c s) (IsMoved-step n c s m)

run-cases :
    (cs : List GraphCommit) (s : InMemoryState)
    → (run cs s ≡ s) ⊎ IsMoved s.next_revision (run cs s)
unfolding run
run-cases [] s = inl refl
run-cases (c ∷ cs) s = elim (step-cases c s) [
  | inl same ↦ rw same (run-cases cs s)
  | inr new ↦ inr (
      rw new (
        IsMoved-run s.next_revision cs (accepted c s) (record {
          guard = s.next_revision;
          written = refl;
          recent = omega arith;
          later = omega arith;
        })))
]

guard_ok_of_ok :
    {E : Type 0} (c : GraphCommit) (s : InMemoryState) {r : ℕ}
    → (compare_and_swap {E = E} c s).1 ≡ ok r
    → guard_ok c s.graph ≡ true
unfolding compare_and_swap
guard_ok_of_ok c s h = ground arith

guard_ok-eq :
    (c : GraphCommit) (g : StoredGraph)
    → guard_ok c g ≡ true
    → c.expected_guard_mod_revision ≡ g.guard_mod_revision
unfolding guard_ok option_eq
guard_ok-eq c g h = ground arith

-- A commit that was planned from a snapshot of a sound store succeeds only if no other commit has
-- succeeded since: nothing that the plan was validated against has changed.
pub compare_and_swap_serial :
    {E : Type 0} (s : InMemoryState) (cs : List GraphCommit) (c : GraphCommit) {r : ℕ}
    → IsSound s
    → c.expected_guard_mod_revision ≡ s.graph.guard_mod_revision
    → (compare_and_swap {E = E} c (run cs s)).1 ≡ ok r
    → run cs s ≡ s
compare_and_swap_serial s cs c sound planned h = elim (run-cases cs s) [
  | inl same ↦ same
  | inr m ↦ absurd (
      ground (
        arith,
        sound.fresh,
        m.written,
        m.recent,
        guard_ok-eq c (run cs s).graph (guard_ok_of_ok c (run cs s) h),
      ))
]
