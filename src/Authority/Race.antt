-- ===== src/Authority/Race.antt =====
-- The window between the lifecycle check of `submit` and the rest of it: `shutdown` does not take
-- the write lock.
use pingsix.Prelude.{ℕ, ◌≡◌, some, List, [], ◌∷◌, arith}
use pingsix.Graph.{StoredGraph}
use pingsix.Status.{RuntimeStatusInner}
use pingsix.Authority.State.{stopped, with_state}
use pingsix.Authority.Worker.{
  received, target_read, target_cloned, prepared, prepare_failed, compiled, fenced, Event,
  submission_checked, submission_finished, shut_down, worker_moved, run,
}
use pingsix.Authority.Invariant.{initial_system}

module _ {L : Type 0} where
  -- The first submission is being prepared when the second passes its check; the shutdown falls
  -- before the rest of the second, and the first preparation then fails.
  abbrev pub race : StoredGraph → L → StoredGraph → L → ℕ → List (Event L)
  race first a second b now =
      submission_checked first a
      ∷ submission_finished
      ∷ worker_moved received
      ∷ worker_moved target_read
      ∷ worker_moved target_cloned
      ∷ submission_checked second b
      ∷ shut_down
      ∷ submission_finished
      ∷ worker_moved prepare_failed
      ∷ worker_moved target_read
      ∷ worker_moved target_cloned
      ∷ worker_moved prepared
      ∷ worker_moved compiled
      ∷ worker_moved (fenced now)
      ∷ []

  -- Where a first graph is submitted and is being prepared, a second submission passes its lifecycle
  -- check, the shutdown falls before the rest of that submission, and the first preparation then
  -- fails: the worker goes on with the second graph, prepares and compiles it, and publishes it after
  -- the shutdown, whatever the two graphs are.
  pub late_submission_publishes :
      (status : RuntimeStatusInner) (first second : StoredGraph) (a b : L) (now : ℕ)
      → let s = (run (race first a second b now) (initial_system status)).inner in
        (s.lifecycle ≡ stopped)
        × (s.committed ≡ some second)
        × (s.runtime_revision ≡ second.revision)
  unfolding run with_state
  late_submission_publishes status first second a b now = (ground arith, ground arith, ground arith)
