-- ===== src/Authority/Awake.antt =====
-- What the worker knows of the latest submission, in each phase: either it is up to date, or a
-- message waits for it in the channel.
use pingsix.Prelude.{
  ℕ, suc, ◌≤◌, ◌<◌, ◌≡◌, refl, ◌∙◌, ◌⊎◌, inl, inr, Bool, true, false, Option, none, some, List, [],
  ◌∷◌, elem, leb, ◌&&◌, arith, nat_eq, Option-cases,
}
use pingsix.Graph.{StoredGraph, Result-cases, ok}
use pingsix.Authority.State.{
  PendingGraph, Phase, absent, waiting, starting, entering, preparing, compiling, publishing,
  backoff, parked, Inner, stopped, ensure_worker_started, finish_submit, shutdown,
}
use pingsix.Authority.Worker.{
  Outcome, received, target_read, target_cloned, prepared, prepare_failed, compiled, compile_failed,
  cancellation_seen, delay_elapsed, aborted, fenced, advance, abort, System, Event,
  submission_checked, submission_finished, shut_down, worker_moved, check_submission,
  finish_submission, move_worker, step, run, generation_of,
}

unfoldable pub all_at_most : ℕ → List ℕ → Bool
all_at_most n [] = true
all_at_most n (x ∷ xs) = leb x n && all_at_most n xs

elem-above : (n : ℕ) (xs : List ℕ) → all_at_most n xs ≡ true → elem (suc n) xs ≡ false
unfolding all_at_most
elem-above n [] h = refl
elem-above n (x ∷ xs) h = ground (arith, elem-above n xs)

all_at_most-suc : (n : ℕ) (xs : List ℕ) → all_at_most n xs ≡ true → all_at_most (suc n) xs ≡ true
unfolding all_at_most
all_at_most-suc n [] h = refl
all_at_most-suc n (x ∷ xs) h = ground (arith, all_at_most-suc n xs)

abbrev pub AtMost : ℕ → Option ℕ → Type 0
AtMost n none = Unit {0}
AtMost n (some x) = x ≤ n

module _ {L : Type 0} where
  -- The graph of the target is committed, or a later revision is published.
  abbrev pub Settled : Option (PendingGraph L) → Option StoredGraph → ℕ → Type 0
  Settled none committed revision = Unit {0}
  Settled (some t) committed revision = (committed ≡ some t.stored) ⊎ (t.revision < revision)

  abbrev pub LiveTarget : ℕ → List ℕ → Option (PendingGraph L) → Type 0
  LiveTarget latest cancelled none = Unit {0}
  LiveTarget latest cancelled (some t) =
      (t.generation ≡ latest) × (elem t.generation cancelled ≡ false)

  -- What the phase knows of the target is still so, or a message waits.
  abbrev pub Aware : Inner L → Phase L → Type 0
  Aware s absent = (s.target ≡ none) × (s.worker_tx ≡ false)
  Aware s waiting =
      (s.worker_tx ≡ true) × ((s.signal ≡ true) ⊎ Settled s.target s.committed s.runtime_revision)
  Aware s (starting d) = s.worker_tx ≡ true
  Aware s (entering a d) = (s.worker_tx ≡ true) × ((s.signal ≡ true) ⊎ (generation_of s.target ≡ a))
  Aware s (preparing a t d) =
      (s.worker_tx ≡ true)
      × ((s.signal ≡ true) ⊎ ((generation_of s.target ≡ a) × (s.target ≡ some t)))
  Aware s (compiling a t d) =
      (s.worker_tx ≡ true)
      × ((s.signal ≡ true) ⊎ ((generation_of s.target ≡ a) × (s.target ≡ some t)))
  Aware s (publishing t) = (s.worker_tx ≡ true) × ((s.signal ≡ true) ⊎ (s.target ≡ some t))
  Aware s (backoff g d) =
      (s.worker_tx ≡ true) × ((s.signal ≡ true) ⊎ (generation_of s.target ≡ some g))
  Aware s (parked g) =
      (s.worker_tx ≡ true) × ((s.signal ≡ true) ⊎ (generation_of s.target ≡ some g))

  pub record IsAwake (s : Inner L) : Type 0 where
    pub live : LiveTarget s.latest_generation s.cancelled s.target
    pub tokens : all_at_most s.latest_generation s.cancelled ≡ true
    pub active : AtMost s.latest_generation s.active_cancellation
    pub aware : Aware s s.worker

  advance-IsAwake :
      (p : Phase L) (o : Outcome) (s : Inner L)
      → Aware s p
      → s.worker ≡ p
      → IsAwake s
      → IsAwake (advance p o s)
  unfolding advance
  advance-IsAwake waiting received s h w v = ground arith
  advance-IsAwake (starting d) target_read s h w v = ground arith
  advance-IsAwake (entering a d) target_cloned s h w v = ground arith
  advance-IsAwake (preparing a t d) prepared s h w v = ground arith
  advance-IsAwake (preparing a t d) prepare_failed s h w v = ground arith
  advance-IsAwake (preparing a t d) cancellation_seen s h w v = ground arith
  advance-IsAwake (compiling a t d) compiled s h w v = ground arith
  advance-IsAwake (compiling a t d) compile_failed s h w v = ground arith
  advance-IsAwake (compiling a t d) cancellation_seen s h w v = ground arith
  advance-IsAwake (publishing t) (fenced now) s h w v = ground arith
  advance-IsAwake (backoff g d) delay_elapsed s h w v = ground arith
  advance-IsAwake (backoff g d) cancellation_seen s h w v = ground arith
  advance-IsAwake (parked g) cancellation_seen s h w v = ground arith
  advance-IsAwake _ _ s h w v = v

  -- The authority has stopped, or is awake and ready for the submission that it has admitted.
  abbrev pub SystemAwake : System L → Type 0
  SystemAwake s =
      (s.inner.lifecycle ≡ stopped)
      ⊎ (IsAwake s.inner × ((s.admitted ≡ none) ⊎ (s.inner.worker_tx ≡ true)))

  pub submitted-IsAwake :
      (stored : StoredGraph) (logical : L) (s : Inner L)
      → s.worker_tx ≡ true
      → IsAwake s
      → IsAwake (finish_submit {E = ⊥} stored logical s).0
  unfolding finish_submit all_at_most
  submitted-IsAwake stored logical s w v = ground (
    arith,
    elem-above s.latest_generation s.cancelled v.tokens,
    all_at_most-suc s.latest_generation s.cancelled v.tokens,
  )

  started-IsAwake :
      (s : Inner L) {t : Inner L}
      → ensure_worker_started {E = ⊥} s ≡ ok t
      → IsAwake s
      → IsAwake t × (t.worker_tx ≡ true)
  unfolding ensure_worker_started
  started-IsAwake s h v = ground arith

  checked-SystemAwake :
      (stored : StoredGraph) (logical : L) (s : System L)
      → SystemAwake s
      → SystemAwake (check_submission stored logical s)
  unfolding check_submission
  checked-SystemAwake stored logical s h = elim (Option-cases s.admitted) [
    | inr (a, held) ↦ ground arith
    | inl free ↦ elim (Result-cases (ensure_worker_started {E = ⊥} s.inner)) [
      | inr (e, refused) ↦ ground arith
      | inl (t, begun) ↦ elim h [
        | inl over ↦ absurd (unfold ensure_worker_started in ground arith)
        | inr (v, _) ↦
            let (v', tx) = started-IsAwake s.inner begun v in inr (ground arith, ground arith)
      ]
    ]
  ]

  finished-SystemAwake : (s : System L) → SystemAwake s → SystemAwake (finish_submission s)
  unfolding finish_submission
  finished-SystemAwake s (inl over) = unfold finish_submit in ground arith
  finished-SystemAwake s (inr (v, tx)) = elim (Option-cases s.admitted) [
    | inl free ↦ ground arith
    | inr ((stored, logical), held) ↦
        inr (ground (arith, submitted-IsAwake stored logical s.inner), ground arith)
  ]

  advance-keeps :
      (p : Phase L) (o : Outcome) (s : Inner L)
      → ((advance p o s).lifecycle ≡ s.lifecycle) × ((advance p o s).worker_tx ≡ s.worker_tx)
  unfolding advance
  advance-keeps waiting received s = ground arith
  advance-keeps (preparing a t d) prepare_failed s = ground arith
  advance-keeps (preparing a t d) cancellation_seen s = ground arith
  advance-keeps (compiling a t d) compile_failed s = ground arith
  advance-keeps (compiling a t d) cancellation_seen s = ground arith
  advance-keeps (publishing t) (fenced now) s = ground arith
  advance-keeps (backoff g d) cancellation_seen s = ground arith
  advance-keeps (parked g) cancellation_seen s = ground arith
  advance-keeps (starting d) target_read s = (refl, refl)
  advance-keeps (entering a d) target_cloned s = (refl, refl)
  advance-keeps (preparing a t d) prepared s = (refl, refl)
  advance-keeps (compiling a t d) compiled s = (refl, refl)
  advance-keeps (backoff g d) delay_elapsed s = (refl, refl)
  advance-keeps _ _ s = (refl, refl)

  advanced-SystemAwake :
      (o : Outcome) (s : System L)
      → SystemAwake s
      → SystemAwake (record s { inner = advance s.inner.worker o s.inner })
  advanced-SystemAwake o s (inl over) = inl ((advance-keeps s.inner.worker o s.inner).0 ∙ over)
  advanced-SystemAwake o s (inr (v, tx)) = inr (
    advance-IsAwake s.inner.worker o s.inner v.aware refl v,
    ground (arith, advance-keeps s.inner.worker o s.inner),
  )

  moved-SystemAwake : (o : Outcome) (s : System L) → SystemAwake s → SystemAwake (move_worker o s)
  unfolding move_worker
  moved-SystemAwake aborted s h = unfold abort in ground arith
  moved-SystemAwake (fenced now) s h = ground (arith, advanced-SystemAwake (fenced now) s h)
  moved-SystemAwake o s h = advanced-SystemAwake o s h

  step-SystemAwake : (e : Event L) (s : System L) → SystemAwake s → SystemAwake (step e s)
  unfolding step
  step-SystemAwake (submission_checked stored logical) s h = checked-SystemAwake stored logical s h
  step-SystemAwake submission_finished s h = finished-SystemAwake s h
  step-SystemAwake shut_down s h = unfold shutdown in ground arith
  step-SystemAwake (worker_moved o) s h = moved-SystemAwake o s h

  pub run-SystemAwake :
      (es : List (Event L)) (s : System L) → SystemAwake s → SystemAwake (run es s)
  unfolding run
  run-SystemAwake [] s h = h
  run-SystemAwake (e ∷ es) s h = run-SystemAwake es (step e s) (step-SystemAwake e s h)
