-- ===== src/Authority/Fence.antt =====
-- What the worker may publish, and when.
use pingsix.Prelude.{
  ℕ, ◌≤◌, ◌≡◌, refl, ◌⊎◌, inl, inr, false, some, List, [], ◌∷◌, elem, arith, nat_eq, Option-cases,
  Bool-cases, ltb, ℕ_discrete,
}
use pingsix.Authority.State.{
  PendingGraph, Phase, waiting, starting, entering, preparing, compiling, publishing, backoff,
  parked, Inner, ensure_worker_started, finish_submit, shutdown,
}
use pingsix.Authority.Worker.{
  Outcome, received, target_read, target_cloned, prepared, prepare_failed, compiled, compile_failed,
  cancellation_seen, delay_elapsed, aborted, fenced, receive, transient, permanent, fence, advance,
  abort, System, Event, submission_checked, submission_finished, shut_down, worker_moved,
  check_submission, finish_submission, move_worker, step, run,
}
use pingsix.Authority.Invariant.{Inv, AttemptInv, attempt, step-Inv}

module _ {L : Type 0} where
  -- A step publishes nothing, or publishes the target.
  abbrev pub Publishes : Inner L → Inner L → Type 0
  Publishes s t =
      ((t.committed ≡ s.committed) × (t.runtime_revision ≡ s.runtime_revision))
      ⊎ ((g : PendingGraph L) × (s.target ≡ some g)
          × (g.generation ≡ s.latest_generation)
          × (elem g.generation s.cancelled ≡ false)
          × (s.runtime_revision ≤ g.revision)
          × (t.committed ≡ some g.stored)
          × (t.runtime_revision ≡ g.revision))

  fence-Publishes :
      (now : ℕ) (g : PendingGraph L) (s : Inner L)
      → AttemptInv s.latest_generation s.target (some g)
      → Publishes s (fence now g s)
  unfolding fence
  fence-Publishes now g s (e, inl old) = ground arith
  fence-Publishes now g s (e, inr same) = elim (Bool-cases (elem g.generation s.cancelled)) [
    | inl gone ↦ ground arith
    | inr live ↦ elim (ℕ_discrete s.latest_generation g.generation) [
      | no other ↦ ground arith
      | yes latest ↦ elim (Bool-cases (ltb g.revision s.runtime_revision)) [
        | inl stale ↦ ground arith
        | inr fresh ↦ inr (g, same, ground arith, live, ground arith, ground arith, ground arith)
      ]
    ]
  ]

  advance-Publishes :
      (p : Phase L) (o : Outcome) (s : Inner L)
      → AttemptInv s.latest_generation s.target (attempt p)
      → Publishes s (advance p o s)
  unfolding advance
  advance-Publishes waiting received s h = unfold receive in ground arith
  advance-Publishes (preparing a t d) prepare_failed s h = unfold transient in ground arith
  advance-Publishes (preparing a t d) cancellation_seen s h = ground arith
  advance-Publishes (compiling a t d) compile_failed s h = unfold permanent in ground arith
  advance-Publishes (compiling a t d) cancellation_seen s h = ground arith
  advance-Publishes (publishing t) (fenced now) s h = fence-Publishes now t s h
  advance-Publishes (backoff g d) cancellation_seen s h = ground arith
  advance-Publishes (parked g) cancellation_seen s h = ground arith
  advance-Publishes (starting d) target_read s h = inl (refl, refl)
  advance-Publishes (entering a d) target_cloned s h = inl (refl, refl)
  advance-Publishes (preparing a t d) prepared s h = inl (refl, refl)
  advance-Publishes (compiling a t d) compiled s h = inl (refl, refl)
  advance-Publishes (backoff g d) delay_elapsed s h = inl (refl, refl)
  advance-Publishes _ _ s h = inl (refl, refl)

  move_worker-Publishes :
      (o : Outcome) (s : System L) → Inv s.inner → Publishes s.inner (move_worker o s).inner
  unfolding move_worker abort
  move_worker-Publishes aborted s v = ground arith
  move_worker-Publishes (fenced now) s v = elim (Option-cases s.admitted) [
    | inl free ↦ rw free (advance-Publishes s.inner.worker (fenced now) s.inner v.attempt_known)
    | inr (a, held) ↦ rw held (inl (refl, refl))
  ]
  move_worker-Publishes o s v = advance-Publishes s.inner.worker o s.inner v.attempt_known

  -- A step of any interleaving leaves the data plane as it was, or publishes the latest submission:
  -- its token is not cancelled, and its revision is not below the one that is published.
  pub step-Publishes :
      (e : Event L) (s : System L) → Inv s.inner → Publishes s.inner (step e s).inner
  unfolding step check_submission finish_submission ensure_worker_started finish_submit shutdown
  step-Publishes (submission_checked stored logical) s v = ground arith
  step-Publishes submission_finished s v = ground arith
  step-Publishes shut_down s v = ground arith
  step-Publishes (worker_moved o) s v = move_worker-Publishes o s v

  Publishes-le : (s t : Inner L) → Publishes s t → s.runtime_revision ≤ t.runtime_revision
  Publishes-le s t (inl (c, r)) = omega arith
  Publishes-le s t (inr (g, a, b, c, fresh, d, r)) = omega arith

  -- The published revision never goes back, whatever interleaves.
  pub run_monotone :
      (es : List (Event L)) (s : System L)
      → Inv s.inner
      → s.inner.runtime_revision ≤ (run es s).inner.runtime_revision
  unfolding run
  run_monotone [] s v = omega arith
  run_monotone (e ∷ es) s v = omega (
    arith,
    Publishes-le s.inner (step e s).inner (step-Publishes e s v),
    run_monotone es (step e s) (step-Inv e s v),
  )
