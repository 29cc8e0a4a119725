-- ===== src/Authority/Invariant.antt =====
-- What holds of the authority between any two steps.
use pingsix.Prelude.{
  ℕ, ◌<◌, ◌≡◌, ◌⊎◌, inl, inr, true, Option, none, some, List, [], ◌∷◌, elem, arith, nat_eq,
  Option-cases,
}
use pingsix.Graph.{StoredGraph, Result-cases, ok}
use pingsix.Status.{RuntimeStatusInner}
use pingsix.Authority.State.{
  PendingGraph, Phase, waiting, starting, entering, preparing, compiling, publishing, backoff,
  parked, Inner, with_state, ensure_worker_started, finish_submit, shutdown,
}
use pingsix.Authority.Worker.{
  Outcome, received, target_read, target_cloned, prepared, prepare_failed, compiled, compile_failed,
  cancellation_seen, delay_elapsed, aborted, fenced, receive, transient, permanent, fence, advance,
  abort, System, Event, submission_checked, submission_finished, shut_down, worker_moved,
  check_submission, finish_submission, move_worker, step, run,
}

-- The committed graph is that of the published snapshot.
abbrev pub CommittedInv : ℕ → Option StoredGraph → Type 0
CommittedInv revision none = Unit {0}
CommittedInv revision (some g) = g.revision ≡ revision

module _ {L : Type 0} where
  -- The target is the latest submission, and its token is the active one or is cancelled.
  abbrev pub TargetInv : ℕ → Option ℕ → List ℕ → Option (PendingGraph L) → Type 0
  TargetInv latest active cancelled none = Unit {0}
  TargetInv latest active cancelled (some t) =
      (t.generation ≡ latest)
      × (t.revision ≡ t.stored.revision)
      × ((elem t.generation cancelled ≡ true) ⊎ (active ≡ some t.generation))

  -- The target that the worker serves.
  abbrev pub attempt : Phase L → Option (PendingGraph L)
  attempt (preparing a t d) = some t
  attempt (compiling a t d) = some t
  attempt (publishing t) = some t
  attempt _ = none

  -- It is an older submission, or the latest.
  abbrev pub AttemptInv : ℕ → Option (PendingGraph L) → Option (PendingGraph L) → Type 0
  AttemptInv latest target none = Unit {0}
  AttemptInv latest target (some t) =
      (t.revision ≡ t.stored.revision) × ((t.generation < latest) ⊎ (target ≡ some t))

  pub record Inv (s : Inner L) : Type 0 where
    pub target_latest : TargetInv s.latest_generation s.active_cancellation s.cancelled s.target
    pub attempt_known : AttemptInv s.latest_generation s.target (attempt s.worker)
    pub committed_published : CommittedInv s.runtime_revision s.committed

  transient-Inv : (a : Option ℕ) (d : ℕ) (s : Inner L) → Inv s → Inv (transient a d s)
  unfolding transient
  transient-Inv a d s v = ground arith

  permanent-Inv : (a : Option ℕ) (s : Inner L) → Inv s → Inv (permanent a s)
  unfolding permanent
  permanent-Inv a s v = ground arith

  fence-Inv :
      (now : ℕ) (t : PendingGraph L) (s : Inner L)
      → AttemptInv s.latest_generation s.target (some t)
      → Inv s
      → Inv (fence now t s)
  unfolding fence
  fence-Inv now t s h v = ground arith

  receive-Inv : (s : Inner L) → Inv s → Inv (receive s)
  unfolding receive
  receive-Inv s v = ground arith

  advance-Inv :
      (p : Phase L) (o : Outcome) (s : Inner L)
      → AttemptInv s.latest_generation s.target (attempt p)
      → Inv s
      → Inv (advance p o s)
  unfolding advance
  advance-Inv waiting received s h v = receive-Inv s v
  advance-Inv (starting d) target_read s h v = ground arith
  advance-Inv (entering a d) target_cloned s h v = ground arith
  advance-Inv (preparing a t d) prepared s h v = ground arith
  advance-Inv (preparing a t d) prepare_failed s h v = transient-Inv a d s v
  advance-Inv (preparing a t d) cancellation_seen s h v = ground arith
  advance-Inv (compiling a t d) compiled s h v = ground arith
  advance-Inv (compiling a t d) compile_failed s h v = permanent-Inv a s v
  advance-Inv (compiling a t d) cancellation_seen s h v = ground arith
  advance-Inv (publishing t) (fenced now) s h v = fence-Inv now t s h v
  advance-Inv (backoff g d) delay_elapsed s h v = ground arith
  advance-Inv (backoff g d) cancellation_seen s h v = ground arith
  advance-Inv (parked g) cancellation_seen s h v = ground arith
  advance-Inv _ _ s h v = v

  started-Inv : (s : Inner L) {t : Inner L} → ensure_worker_started {E = ⊥} s ≡ ok t → Inv s → Inv t
  unfolding ensure_worker_started
  started-Inv s h v = ground arith

  submitted-Inv :
      (stored : StoredGraph) (logical : L) (s : Inner L)
      → Inv s
      → Inv (finish_submit {E = ⊥} stored logical s).0
  unfolding finish_submit
  submitted-Inv stored logical s v = ground arith

  shutdown-Inv : (s : Inner L) → Inv s → Inv (shutdown s)
  unfolding shutdown
  shutdown-Inv s v = ground arith

  abort-Inv : (s : Inner L) → Inv s → Inv (abort s)
  unfolding abort
  abort-Inv s v = ground arith

  move_worker-Inv : (o : Outcome) (s : System L) → Inv s.inner → Inv (move_worker o s).inner
  unfolding move_worker
  move_worker-Inv aborted s v = abort-Inv s.inner v
  move_worker-Inv (fenced now) s v =
      ground (arith, advance-Inv s.inner.worker (fenced now) s.inner v.attempt_known v)
  move_worker-Inv o s v = advance-Inv s.inner.worker o s.inner v.attempt_known v

  check_submission-Inv :
      (stored : StoredGraph) (logical : L) (s : System L)
      → Inv s.inner
      → Inv (check_submission stored logical s).inner
  unfolding check_submission
  check_submission-Inv stored logical s v = elim (Option-cases s.admitted) [
    | inr (a, held) ↦ ground arith
    | inl free ↦ elim (Result-cases (ensure_worker_started {E = ⊥} s.inner)) [
      | inl (t, begun) ↦ ground (arith, started-Inv s.inner begun v)
      | inr (e, refused) ↦ ground arith
    ]
  ]

  -- Every step of every interleaving keeps the invariant.
  pub step-Inv : (e : Event L) (s : System L) → Inv s.inner → Inv (step e s).inner
  unfolding step finish_submission
  step-Inv (submission_checked stored logical) s v = check_submission-Inv stored logical s v
  step-Inv submission_finished s v = elim (Option-cases s.admitted) [
    | inl none_held ↦ ground arith
    | inr ((stored, logical), held) ↦ ground (arith, submitted-Inv stored logical s.inner v)
  ]
  step-Inv shut_down s v = shutdown-Inv s.inner v
  step-Inv (worker_moved o) s v = move_worker-Inv o s v

  -- The authority as it is made, with no submission under way.
  abbrev pub initial_system : RuntimeStatusInner → System L
  initial_system status = record { inner = with_state status; admitted = none }

  run-Inv : (es : List (Event L)) (s : System L) → Inv s.inner → Inv (run es s).inner
  unfolding run
  run-Inv [] s v = v
  run-Inv (e ∷ es) s v = run-Inv es (step e s) (step-Inv e s v)

  -- Whatever submissions, outcomes and shutdowns interleave, the pending target is the latest
  -- submission, the worker serves it or an older one, and the committed graph is that of the
  -- revision which the data plane runs.
  pub run-initial-Inv :
      (status : RuntimeStatusInner) (es : List (Event L))
      → Inv (run es (initial_system status)).inner
  unfolding with_state
  run-initial-Inv status es =
      run-Inv es (initial_system status)
        (record { target_latest = tt; attempt_known = tt; committed_published = tt })
