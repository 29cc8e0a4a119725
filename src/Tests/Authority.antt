-- ===== src/Tests/Authority.antt =====
-- Runs of the authority: a submission that is prepared and published, and a shutdown.
use pingsix.Prelude.{inl, true, ◌≡◌, refl, some, List, [], ◌∷◌, ℕ, ℕ_discrete, String}
use pingsix.Prelude.Dict
use pingsix.Prelude.Ordered
use pingsix.Graph.{StoredGraph, worker_stopped, err}
use pingsix.Status.{initial}
use pingsix.Authority.{
  stopped, waiting, with_state, submit, Event, System, submission_checked, submission_finished,
  shut_down, worker_moved, received, target_read, target_cloned, prepared, compiled, fenced, run,
  step,
}
use pingsix.Authority.Invariant
use pingsix.Authority.Invariant.{initial_system}
use pingsix.Authority.Fence
use pingsix.Authority.Shutdown
use pingsix.Authority.Race
use pingsix.Authority.Awake
use pingsix.Authority.Wakeup

program : Unit {0}
unfolding run with_state initial Dict.lookup Ordered.insert ℕ_discrete
program = tt

abbrev graph : ℕ → StoredGraph
graph n = record { resources = []; guard_mod_revision = some n; revision = n }

abbrev submission : List (Event String)
submission = submission_checked (graph 3) "three" ∷ submission_finished ∷ []

abbrev work : List (Event String)
work =
    worker_moved received
    ∷ worker_moved target_read
    ∷ worker_moved target_cloned
    ∷ worker_moved prepared
    ∷ worker_moved compiled
    ∷ worker_moved (fenced 8)
    ∷ []

abbrev published : List (Event String)
published =
    submission_checked (graph 3) "three"
    ∷ submission_finished
    ∷ worker_moved received
    ∷ worker_moved target_read
    ∷ worker_moved target_cloned
    ∷ worker_moved prepared
    ∷ worker_moved compiled
    ∷ worker_moved (fenced 8)
    ∷ []

submitted : System String
submitted = run submission (initial_system initial)

work_commits : (run work submitted).inner.committed ≡ some (graph 3)
unfolding program submitted
work_commits = refl

run-initial-Inv_example : Invariant.Inv (run published (initial_system initial)).inner
run-initial-Inv_example = Invariant.run-initial-Inv initial published

step-Publishes_example :
    Fence.Publishes
      (run published (initial_system initial)).inner
      (step (worker_moved received) (run published (initial_system initial))).inner
step-Publishes_example =
    Fence.step-Publishes (worker_moved received) (run published (initial_system initial))
      (Invariant.run-initial-Inv initial published)

shutdown_final_example :
    let t = (run work (step shut_down submitted)).inner in
    (t.committed ≡ submitted.inner.committed)
    × (t.runtime_revision ≡ submitted.inner.runtime_revision)
    × (submit {E = ⊥} true (graph 4) "four" t ≡ (t, err worker_stopped))
unfolding program submitted
shutdown_final_example =
    Shutdown.shutdown_final work submitted true (graph 4) "four"
      (Invariant.run-initial-Inv initial submission) refl refl

late_submission_publishes_example :
    let s =
      (run {L = String}
        (Race.race (graph 3) "three" (graph 4) "four" 9)
        (initial_system initial)).inner in
    (s.lifecycle ≡ stopped) × (s.committed ≡ some (graph 4)) × (s.runtime_revision ≡ 4)
late_submission_publishes_example =
    Race.late_submission_publishes initial (graph 3) (graph 4) "three" "four" 9

no_lost_wakeup_example :
    Awake.Settled
      (Wakeup.reached initial published).target
      (Wakeup.reached initial published).committed
      (Wakeup.reached initial published).runtime_revision
unfolding program
no_lost_wakeup_example = Wakeup.no_lost_wakeup initial published refl refl refl

-- A second submission, after the first was published.
submission_publishes_example :
    let u =
      (run
        (submission_checked (graph 4) "four" ∷ submission_finished ∷ Wakeup.attempt 9)
        (run published (initial_system initial))).inner in
    (u.worker ≡ waiting) × Wakeup.Served (graph 4) (Wakeup.reached initial published) u
unfolding program
submission_publishes_example =
    Wakeup.submission_publishes initial published (graph 4) "four" 9 refl refl (inl refl)
