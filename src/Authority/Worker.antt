-- ===== src/Authority/Worker.antt =====
-- The preparation worker (the task of `ensure_worker_started`, and `prepare_latest`), one step from
-- each suspension to the next, and its interleavings with the submissions and with `shutdown`. What
-- DNS preparation and compilation yield, and which branch of a `select!` is taken when both are
-- ready, are inputs.
use Prim.Native.Nat.{min}
use pingsix.Prelude.{
  ℕ, ◌*◌, Bool, true, false, not, ◌||◌, Option, none, some, List, [], ◌∷◌, ltb, elem, if◌then◌else◌,
  ◌==◌, nat_eq, String, is_none,
}
use pingsix.Graph.{StoredGraph, ok, err}
use pingsix.Graph.Publication.{mark_published, mark_rejected}
use pingsix.Status.{set_published_revision, record_preparation_error}
use pingsix.Authority.State.{
  PendingGraph, Phase, absent, waiting, starting, entering, preparing, compiling, publishing,
  backoff, parked, Inner, is_running, ensure_worker_started, finish_submit, shutdown,
}

-- `safe_preparation_error`
unfoldable pub safe_preparation_error : Bool → String
safe_preparation_error true = "candidate rejected during runtime preparation"
safe_preparation_error false = "candidate preparation temporarily unavailable"

pub data Outcome : Type 0 where
  received target_read target_cloned prepared prepare_failed compiled compile_failed : Outcome
  cancellation_seen delay_elapsed aborted : Outcome
  -- the fence is passed at an instant
  fenced : ℕ → Outcome

module _ {L : Type 0} where
  -- `current_target`
  abbrev pub generation_of : Option (PendingGraph L) → Option ℕ
  generation_of none = none
  generation_of (some t) = some t.generation

  abbrev pub goto : Phase L → Inner L → Inner L
  goto p s = record s { worker = p }

  abbrev pub is_cancelled : ℕ → Inner L → Bool
  is_cancelled token s = elem token s.cancelled

  unfoldable pub reject_publication : ℕ → String → Inner L → Inner L
  unfolding mark_rejected
  reject_publication generation error s = elim s.target [
    | none ↦ s
    | some t ↦
        if t.generation == generation
        then record s { publications = mark_rejected t.revision error s.publications }
        else s
  ]

  -- `PrepareOutcome::Transient`
  unfoldable pub transient : Option ℕ → ℕ → Inner L → Inner L
  unfolding safe_preparation_error record_preparation_error
  transient attempted delay s =
      let t = record s {
        status = record_preparation_error (safe_preparation_error false) s.status;
      } in
      elim attempted [
        | none ↦ goto waiting t
        | some failed ↦
            if s.latest_generation == failed
            then goto (backoff failed delay) t
            else goto (starting delay) t
      ]

  -- `PrepareOutcome::Permanent`
  unfoldable pub permanent : Option ℕ → Inner L → Inner L
  unfolding safe_preparation_error record_preparation_error reject_publication
  permanent attempted s =
      let summary = safe_preparation_error true in
      elim attempted [
        | none ↦ goto waiting (record s { status = record_preparation_error summary s.status })
        | some failed ↦
            let t = reject_publication failed summary s in
            goto (parked failed) (record t { status = record_preparation_error summary t.status })
      ]

  -- The end of `prepare_latest`, under the write lock.
  unfoldable pub fence : ℕ → PendingGraph L → Inner L → Inner L
  unfolding mark_published set_published_revision
  fence now t s =
      if is_cancelled t.generation s || not (s.latest_generation == t.generation)
      then goto waiting s
      else if ltb t.revision s.runtime_revision
      then goto waiting s
      else record s {
        runtime_revision = t.revision;
        status = set_published_revision now t.revision s.status;
        committed = some t.stored;
        publications = mark_published t.revision s.publications;
        pending_revision = 0;
        worker = waiting;
      }

  -- `rx.recv()`: a message, the end of the channel, or neither yet.
  unfoldable pub receive : Inner L → Inner L
  receive s =
      if s.signal
      then record s { signal = false; worker = starting 1 }
      else if s.worker_tx
      then s
      else goto absent s

  abbrev pub when_cancelled : ℕ → Inner L → Inner L
  when_cancelled token s = if is_cancelled token s then goto waiting s else s

  abbrev pub cloned : Option ℕ → ℕ → Option (PendingGraph L) → Phase L
  cloned attempted delay none = waiting
  cloned attempted delay (some t) = preparing attempted t delay

  -- An outcome that the phase cannot have changes nothing.
  unfoldable pub advance : Phase L → Outcome → Inner L → Inner L
  unfolding receive transient permanent fence
  advance waiting received s = receive s
  advance (starting d) target_read s = goto (entering (generation_of s.target) d) s
  advance (entering a d) target_cloned s = goto (cloned a d s.target) s
  advance (preparing a t d) prepared s = goto (compiling a t d) s
  advance (preparing a t d) prepare_failed s = transient a d s
  advance (preparing a t d) cancellation_seen s = when_cancelled t.generation s
  advance (compiling a t d) compiled s = goto (publishing t) s
  advance (compiling a t d) compile_failed s = permanent a s
  advance (compiling a t d) cancellation_seen s = when_cancelled t.generation s
  advance (publishing t) (fenced now) s = fence now t s
  advance (backoff g d) delay_elapsed s = goto (starting (min (d * 2) 30)) s
  advance (backoff g d) cancellation_seen s = when_cancelled g s
  advance (parked g) cancellation_seen s = when_cancelled g s
  advance _ _ s = s

  -- The abort at the deadline of `shutdown`, at any suspension.
  unfoldable pub abort : Inner L → Inner L
  abort s = if is_running s.lifecycle then s else goto absent s

-- The authority, and the submission that holds the write lock, past its lifecycle check.
pub record System (L : Type 0) : Type 0 where
  pub inner : Inner L
  pub admitted : Option (StoredGraph × L)

pub data Event (L : Type 0) : Type 0 where
  submission_checked : StoredGraph → L → Event L
  submission_finished : Event L
  shut_down : Event L
  worker_moved : Outcome → Event L

module _ {L : Type 0} where
  unfoldable pub check_submission : StoredGraph → L → System L → System L
  unfolding ensure_worker_started
  check_submission stored logical s = elim s.admitted [
    | some _ ↦ s
    | none ↦ elim (ensure_worker_started {E = ⊥} s.inner) [
      | ok t ↦ record { inner = t; admitted = some (stored, logical) }
      | err e ↦ s
    ]
  ]

  unfoldable pub finish_submission : System L → System L
  unfolding finish_submit
  finish_submission s = elim s.admitted [
    | none ↦ s
    | some (stored, logical) ↦ record {
      inner = (finish_submit {E = ⊥} stored logical s.inner).0;
      admitted = none;
    }
  ]

  -- The fence waits for the write lock.
  unfoldable pub move_worker : Outcome → System L → System L
  unfolding advance abort
  move_worker aborted s = record s { inner = abort s.inner }
  move_worker (fenced now) s =
      if is_none s.admitted
      then record s { inner = advance s.inner.worker (fenced now) s.inner }
      else s
  move_worker o s = record s { inner = advance s.inner.worker o s.inner }

  unfoldable pub step : Event L → System L → System L
  unfolding check_submission finish_submission shutdown move_worker
  step (submission_checked stored logical) s = check_submission stored logical s
  step submission_finished s = finish_submission s
  step shut_down s = record s { inner = shutdown s.inner }
  step (worker_moved o) s = move_worker o s

  unfoldable pub run : List (Event L) → System L → System L
  unfolding step
  run [] s = s
  run (e ∷ es) s = run es (step e s)
