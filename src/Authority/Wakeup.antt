-- ===== src/Authority/Wakeup.antt =====
-- What becomes of the latest submission while the authority runs.
use pingsix.Prelude.{
  suc, ◌<◌, ◌∙◌, ◌⊎◌, ℕ, ◌≤◌, ◌≡◌, refl, inl, inr, true, false, none, some, List, [], ◌∷◌, elem,
  arith, nat_eq,
}
use native.Mathlib.Decide.{dec_lt}
use pingsix.Status.{RuntimeStatusInner}
use pingsix.Graph.{StoredGraph, ok}
use pingsix.Authority.State.{
  PendingGraph, absent, waiting, Inner, running, with_state, ensure_worker_started, finish_submit,
}
use pingsix.Authority.Worker.{
  received, target_read, target_cloned, prepared, compiled, fenced, System, Event, worker_moved,
  submission_checked, submission_finished, check_submission, finish_submission, step, run,
}
use pingsix.Authority.Awake.{Settled, IsAwake, run-SystemAwake, submitted-IsAwake, all_at_most}
use pingsix.Authority.Invariant.{initial_system}

module _ {L : Type 0} where
  -- What the authority comes to, from its making.
  abbrev pub reached : RuntimeStatusInner → List (Event L) → Inner L
  reached status es = (run es (initial_system status)).inner

  -- However submissions and the worker interleave: while the authority runs, a worker that waits
  -- for a message with none in the channel has published the latest submission, or that submission
  -- is older than what is published.
  pub no_lost_wakeup :
      (status : RuntimeStatusInner) (es : List (Event L))
      → (reached status es).lifecycle ≡ running
      → (reached status es).worker ≡ waiting
      → (reached status es).signal ≡ false
      → Settled
          (reached status es).target
          (reached status es).committed
          (reached status es).runtime_revision
  unfolding with_state all_at_most
  no_lost_wakeup status es r w n =
      elim (run-SystemAwake es (initial_system status)
        (inr (record { live = tt; tokens = refl; active = tt; aware = (refl, refl) }, inl refl))) [
          | inl over ↦ absurd (ground arith)
          | inr (v, tx) ↦ ground (arith, v.aware)
        ]

  -- One attempt of the worker whose preparation and compilation succeed.
  abbrev pub attempt : ℕ → List (Event L)
  attempt now =
      worker_moved received
      ∷ worker_moved target_read
      ∷ worker_moved target_cloned
      ∷ worker_moved prepared
      ∷ worker_moved compiled
      ∷ worker_moved (fenced now)
      ∷ []

  -- A message waits for the worker, and the target is the latest submission, not cancelled.
  record IsReady (s : System L) (t : PendingGraph L) : Type 0 where
    free : s.admitted ≡ none
    waits : s.inner.worker ≡ waiting
    signal : s.inner.signal ≡ true
    target : s.inner.target ≡ some t
    latest : t.generation ≡ s.inner.latest_generation
    live : elem t.generation s.inner.cancelled ≡ false

  attempt_publishes :
      (s : System L) (t : PendingGraph L) (now : ℕ)
      → IsReady s t
      → s.inner.runtime_revision ≤ t.revision
      → let u = (run (attempt now) s).inner in
        (u.committed ≡ some t.stored)
        × (u.runtime_revision ≡ t.revision)
        × (u.pending_revision ≡ 0)
        × (u.worker ≡ waiting)
  unfolding run
  attempt_publishes s t now v r = ground arith

  attempt_outdated :
      (s : System L) (t : PendingGraph L) (now : ℕ)
      → IsReady s t
      → t.revision < s.inner.runtime_revision
      → let u = (run (attempt now) s).inner in
        (u.committed ≡ s.inner.committed)
        × (u.runtime_revision ≡ s.inner.runtime_revision)
        × (u.worker ≡ waiting)
  unfolding run
  attempt_outdated s t now v r = ground arith

  -- A worker that can take a message, once the lifecycle check of a submission has been passed.
  started-waiting :
      (s : Inner L)
      → IsAwake s
      → s.lifecycle ≡ running
      → (s.worker ≡ waiting) ⊎ (s.worker ≡ absent)
      → (t : Inner L) × (ensure_worker_started {E = ⊥} s ≡ ok t)
        × (t.worker ≡ waiting)
        × (t.worker_tx ≡ true)
        × (t.committed ≡ s.committed)
        × (t.runtime_revision ≡ s.runtime_revision)
        × IsAwake t
  unfolding ensure_worker_started
  started-waiting s v r (inl w) =
      (s, ground (arith, v.aware), w, ground (arith, v.aware), refl, refl, v)
  started-waiting s v r (inr w) =
      let t : Inner L = record s { worker_tx = true; signal = false; worker = waiting } in
      (
        t,
        ground (arith, v.aware),
        refl,
        refl,
        refl,
        refl,
        ground (arith, v.aware, v.live, v.tokens, v.active),
      )

  finish_submit-IsReady :
      (stored : StoredGraph) (logical : L) (s : Inner L)
      → s.worker ≡ waiting
      → s.worker_tx ≡ true
      → IsAwake s
      → IsReady
          (record { inner = (finish_submit {E = ⊥} stored logical s).0; admitted = none })
          (record {
            generation = suc s.latest_generation;
            revision = stored.revision;
            stored = stored;
            logical = logical;
          })
  unfolding finish_submit
  finish_submit-IsReady stored logical s w tx v =
      let later = submitted-IsAwake stored logical s tx v in
      record {
        free = refl;
        waits = ground arith;
        signal = ground arith;
        target = ground arith;
        latest = ground arith;
        live = unfold finish_submit in ground (arith, later.live);
      }

  submission_taken :
      (stored : StoredGraph) (logical : L) (s : System L) {t : Inner L}
      → s.admitted ≡ none
      → ensure_worker_started {E = ⊥} s.inner ≡ ok t
      → finish_submission (check_submission stored logical s)
        ≡ record { inner = (finish_submit {E = ⊥} stored logical t).0; admitted = none }
  unfolding finish_submission check_submission
  submission_taken stored logical s free begun = ground arith

  finish_submit_published :
      (stored : StoredGraph) (logical : L) (s : Inner L)
      → ((finish_submit {E = ⊥} stored logical s).0.committed ≡ s.committed)
        × ((finish_submit {E = ⊥} stored logical s).0.runtime_revision ≡ s.runtime_revision)
  unfolding finish_submit
  finish_submit_published stored logical s = ground arith

  -- What a submission comes to: it is published, or a newer revision is and stays.
  abbrev pub Served : StoredGraph → Inner L → Inner L → Type 0
  Served stored s u =
      ((u.committed ≡ some stored)
        × (u.runtime_revision ≡ stored.revision)
        × (u.pending_revision ≡ 0))
      ⊎ ((stored.revision < s.runtime_revision)
          × (u.committed ≡ s.committed)
          × (u.runtime_revision ≡ s.runtime_revision))

  served :
      (s : System L) (stored : StoredGraph) (logical : L) (now : ℕ) (t : Inner L)
      → s.admitted ≡ none
      → ensure_worker_started {E = ⊥} s.inner ≡ ok t
      → t.worker ≡ waiting
      → t.worker_tx ≡ true
      → t.committed ≡ s.inner.committed
      → t.runtime_revision ≡ s.inner.runtime_revision
      → IsAwake t
      → let u = (run (attempt now) (finish_submission (check_submission stored logical s))).inner in
        (u.worker ≡ waiting) × Served stored s.inner u
  served s stored logical now t free begun waits sends committed revision awake =
      let w : System L = record {
        inner = (finish_submit {E = ⊥} stored logical t).0;
        admitted = none;
      } in
      let ready = finish_submit-IsReady stored logical t waits sends awake in
      let same = finish_submit_published stored logical t in
      rw (submission_taken stored logical s free begun)
        (elim (dec_lt stored.revision s.inner.runtime_revision) [
          | no newer ↦
              let done = attempt_publishes w _ now ready (omega (arith, same.1, revision)) in
              (done.3, inl (done.0, done.1, done.2))
          | yes older ↦
              let kept = attempt_outdated w _ now ready (omega (arith, same.1, revision)) in
              (kept.2, inr (older, kept.0 ∙ same.0 ∙ committed, kept.1 ∙ same.1 ∙ revision))
        ])

  -- In whatever the authority has come to, where it runs, no submission is under way, and the worker
  -- waits or has not been started: a graph that is submitted next is published by the attempt that
  -- follows, where its preparation and compilation succeed and no other event falls among these
  -- steps; or else a newer revision was published before, and stays. The worker then waits again.
  pub submission_publishes :
      (status : RuntimeStatusInner) (es : List (Event L)) (stored : StoredGraph) (logical : L)
      (now : ℕ)
      → (run es (initial_system status)).admitted ≡ none
      → (reached status es).lifecycle ≡ running
      → ((reached status es).worker ≡ waiting) ⊎ ((reached status es).worker ≡ absent)
      → let u =
          (run
            (submission_checked stored logical ∷ submission_finished ∷ attempt now)
            (run es (initial_system status))).inner in
        (u.worker ≡ waiting) × Served stored (reached status es) u
  unfolding run step with_state all_at_most
  submission_publishes status es stored logical now free live idle =
      let s = run es (initial_system status) in
      elim (run-SystemAwake es (initial_system status)
        (inr (record { live = tt; tokens = refl; active = tt; aware = (refl, refl) }, inl refl))) [
          | inl over ↦ absurd (ground arith)
          | inr (v, tx) ↦
              let (t, begun, waits, sends, committed, revision, awake) =
                started-waiting s.inner v live idle in
              served s stored logical now t free begun waits sends committed revision awake
        ]
