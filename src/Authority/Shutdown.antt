-- ===== src/Authority/Shutdown.antt =====
-- After `shutdown`.
use pingsix.Prelude.{
  Bool, ℕ, ◌<◌, ◌≡◌, refl, ◌∙◌, ◌⊎◌, true, Option, none, some, List, [], ◌∷◌, elem, arith, nat_eq,
}
use pingsix.Graph.{StoredGraph, worker_stopped, err}
use pingsix.Authority.State.{
  PendingGraph, Phase, waiting, starting, entering, preparing, compiling, publishing, backoff,
  parked, Inner, running, stopped, ensure_worker_started, shutdown, submit,
}
use pingsix.Authority.Worker.{
  Outcome, received, target_read, target_cloned, prepared, prepare_failed, compiled, compile_failed,
  cancellation_seen, delay_elapsed, aborted, fenced, advance, abort, System, Event,
  submission_checked, submission_finished, shut_down, worker_moved, check_submission,
  finish_submission, move_worker, step, run,
}
use pingsix.Authority.Invariant.{Inv, attempt}

module _ {L : Type 0} where
  abbrev DeadTarget : List ℕ → Option (PendingGraph L) → Type 0
  DeadTarget cancelled none = Unit {0}
  DeadTarget cancelled (some t) = elem t.generation cancelled ≡ true

  abbrev DeadAttempt : ℕ → List ℕ → Option (PendingGraph L) → Type 0
  DeadAttempt latest cancelled none = Unit {0}
  DeadAttempt latest cancelled (some t) =
      (elem t.generation cancelled ≡ true) ⊎ (t.generation < latest)

  -- Stopped, with nothing left that could pass the fence.
  record IsClosed (s : Inner L) : Type 0 where
    over : s.lifecycle ≡ stopped
    target : DeadTarget s.cancelled s.target
    attempted : DeadAttempt s.latest_generation s.cancelled (attempt s.worker)

  -- What the data plane and the Admin API can see of the runtime.
  abbrev SamePlane : Inner L → Inner L → Type 0
  SamePlane s t = (t.committed ≡ s.committed) × (t.runtime_revision ≡ s.runtime_revision)

  advance-IsClosed :
      (p : Phase L) (o : Outcome) (s : Inner L)
      → DeadAttempt s.latest_generation s.cancelled (attempt p)
      → IsClosed s
      → IsClosed (advance p o s) × SamePlane s (advance p o s)
  unfolding advance
  advance-IsClosed waiting received s h c = ground arith
  advance-IsClosed (starting d) target_read s h c = ground arith
  advance-IsClosed (entering a d) target_cloned s h c = ground arith
  advance-IsClosed (preparing a t d) prepared s h c = ground arith
  advance-IsClosed (preparing a t d) prepare_failed s h c = ground arith
  advance-IsClosed (preparing a t d) cancellation_seen s h c = ground arith
  advance-IsClosed (compiling a t d) compiled s h c = ground arith
  advance-IsClosed (compiling a t d) compile_failed s h c = ground arith
  advance-IsClosed (compiling a t d) cancellation_seen s h c = ground arith
  advance-IsClosed (publishing t) (fenced now) s h c = ground arith
  advance-IsClosed (backoff g d) delay_elapsed s h c = ground arith
  advance-IsClosed (backoff g d) cancellation_seen s h c = ground arith
  advance-IsClosed (parked g) cancellation_seen s h c = ground arith
  advance-IsClosed _ _ s h c = (c, (refl, refl))

  step-IsClosed :
      (e : Event L) (s : System L)
      → s.admitted ≡ none
      → IsClosed s.inner
      → ((step e s).admitted ≡ none)
        × IsClosed (step e s).inner
        × SamePlane s.inner (step e s).inner
  unfolding step check_submission ensure_worker_started finish_submission shutdown move_worker abort
  step-IsClosed (submission_checked stored logical) s n c = ground arith
  step-IsClosed submission_finished s n c = ground arith
  step-IsClosed shut_down s n c = ground arith
  step-IsClosed (worker_moved aborted) s n c = ground arith
  step-IsClosed (worker_moved (fenced now)) s n c =
      ground (arith, advance-IsClosed s.inner.worker (fenced now) s.inner c.attempted c)
  step-IsClosed (worker_moved o) s n c =
      let moved = advance-IsClosed s.inner.worker o s.inner c.attempted c in (n, moved.0, moved.1)

  run-IsClosed :
      (es : List (Event L)) (s : System L)
      → s.admitted ≡ none
      → IsClosed s.inner
      → IsClosed (run es s).inner × SamePlane s.inner (run es s).inner
  unfolding run
  run-IsClosed [] s n c = (c, (refl, refl))
  run-IsClosed (e ∷ es) s n c =
      let (n', c', same) = step-IsClosed e s n c in
      let (c'', same') = run-IsClosed es (step e s) n' c' in
      (c'', (same'.0 ∙ same.0, same'.1 ∙ same.1))

  shutdown-IsClosed : (s : Inner L) → Inv s → s.lifecycle ≡ running → IsClosed (shutdown s)
  unfolding shutdown
  shutdown-IsClosed s v r = ground arith

  -- A shutdown that meets no submission past its lifecycle check is final: whatever happens next,
  -- nothing more is published, and every submission fails with `WorkerStopped` and changes nothing.
  pub shutdown_final :
      (es : List (Event L)) (s : System L) (shut : Bool) (stored : StoredGraph) (logical : L)
      → Inv s.inner
      → s.inner.lifecycle ≡ running
      → s.admitted ≡ none
      → let t = (run es (step shut_down s)).inner in
        (t.committed ≡ s.inner.committed)
        × (t.runtime_revision ≡ s.inner.runtime_revision)
        × (submit {E = ⊥} shut stored logical t ≡ (t, err worker_stopped))
  unfolding step submit ensure_worker_started
  shutdown_final es s shut stored logical v r n =
      let (closed, same) = run-IsClosed es (step shut_down s) n (shutdown-IsClosed s.inner v r) in
      (
        same.0 ∙ unfold shutdown in ground arith,
        same.1 ∙ unfold shutdown in ground arith,
        ground (arith, closed.over),
      )
