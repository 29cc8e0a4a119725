-- ===== src/Status/Reconnect.antt =====
-- Traces of the store: what holds after any sequence of method calls at any instants.
use pingsix.Prelude.{
  ℕ, ◌≡◌, refl, ◌⊎◌, inl, inr, true, false, none, some, List, [], ◌∷◌, All, arith,
}
use pingsix.Status.Store.{
  RuntimeStatusInner, initial, etcd, Event, configured, ready_marked, connected_marked, sync_begun,
  revision_set, revision_published, sync_succeeded, sync_failed, preparation_failed, step,
}
use pingsix.Status.View.{is_ready}

-- The calls in order, each at its instant.
unfoldable pub run : List (ℕ × Event) → RuntimeStatusInner → RuntimeStatusInner
run [] s = s
run ((now, e) ∷ es) s = run es (step now e s)

abbrev pub IsNotPublication : Event → Type 0
IsNotPublication (revision_published _) = ⊥
IsNotPublication _ = Unit {0}

fence-step :
    (now : ℕ) (e : Event) (s : RuntimeStatusInner)
    → IsNotPublication e
    → s.awaiting_publish_after_reconnect ≡ true
    → (step now e s).awaiting_publish_after_reconnect ≡ true
unfolding step
fence-step now (revision_published r) s n h = absurd n
fence-step now _ s n h = ground arith

fence-run :
    (es : List (ℕ × Event)) (s : RuntimeStatusInner)
    → All (λ e. IsNotPublication e.1) es
    → s.awaiting_publish_after_reconnect ≡ true
    → (run es s).awaiting_publish_after_reconnect ≡ true
unfolding run
fence-run [] s n h = h
fence-run ((now, e) ∷ es) s (n, ns) h = fence-run es (step now e s) ns (fence-step now e s n h)

-- After an outage of an initialized store, a list or a watch response that succeeds does not make
-- the service ready again, whatever other calls follow, until a snapshot is published.
pub reconnect_fence :
    (at revision later : ℕ) (es : List (ℕ × Event)) (s : RuntimeStatusInner)
    → s.initialized ≡ true
    → s.connected ≡ false
    → All (λ e. IsNotPublication e.1) es
    → is_ready later (run es (step at (sync_succeeded revision) s)) ≡ false
unfolding is_ready step
reconnect_fence at revision later es s i c n =
    ground (arith, fence-run es (step at (sync_succeeded revision) s) n)

-- A publication by an etcd-backed store that is connected opens the fence at once.
pub publication_reopens :
    (at later revision : ℕ) (s : RuntimeStatusInner)
    → s.config_source ≡ some etcd
    → s.connected ≡ true
    → (is_ready later (step at (revision_published revision) s) ≡ true)
      × ((step at (revision_published revision) s).last_error ≡ none)
unfolding is_ready step
publication_reopens at later revision s e c = ground arith

-- What can happen while etcd cannot be reached: failures, and the publication of a candidate that
-- was submitted before.
abbrev pub IsOutage : Event → Type 0
IsOutage (connected_marked false) = Unit {0}
IsOutage sync_begun = Unit {0}
IsOutage (revision_set _) = Unit {0}
IsOutage (revision_published _) = Unit {0}
IsOutage (sync_failed _) = Unit {0}
IsOutage (preparation_failed _) = Unit {0}
IsOutage _ = ⊥

-- An initialized etcd store that fails its readiness when stale, cut off since `since`.
record IsCutOff (since limit : ℕ) (s : RuntimeStatusInner) : Type 0 where
  running : s.initialized ≡ true
  backed : s.config_source ≡ some etcd
  open_fence : s.awaiting_publish_after_reconnect ≡ false
  strict : s.fail_readiness_when_stale ≡ true
  patience : s.config_stale_after ≡ limit
  cut : s.connected ≡ false
  clock : s.disconnected_since ≡ some since

-- An etcd gateway never calls `mark_ready`.
abbrev pub IsEtcdMode : Event → Type 0
IsEtcdMode (ready_marked _) = ⊥
IsEtcdMode _ = Unit {0}

abbrev NeedsPublication : RuntimeStatusInner → Type 0
NeedsPublication s = (s.initialized ≡ false) ⊎ ((r : ℕ) × (s.published_revision ≡ some r))

published-step :
    (now : ℕ) (e : Event) (s : RuntimeStatusInner)
    → IsEtcdMode e
    → NeedsPublication s
    → NeedsPublication (step now e s)
unfolding step
published-step now (revision_published r) s m h = inr (r, ground arith)
published-step now (ready_marked c) s m h = absurd m
published-step now (configured a b) s m h = h
published-step now (connected_marked b) s m h = h
published-step now sync_begun s m h = h
published-step now (revision_set r) s m h = h
published-step now (sync_succeeded r) s m h = h
published-step now (sync_failed e) s m h = h
published-step now (preparation_failed e) s m h = h

published-run :
    (es : List (ℕ × Event)) (s : RuntimeStatusInner)
    → All (λ e. IsEtcdMode e.1) es
    → NeedsPublication s
    → NeedsPublication (run es s)
unfolding run
published-run [] s m h = h
published-run ((now, e) ∷ es) s (m, ms) h =
    published-run es (step now e s) ms (published-step now e s m h)

-- A gateway that is backed by etcd is ready only if some revision has been published, whatever its
-- store has seen since it started.
pub ready_needs_publication :
    (later : ℕ) (es : List (ℕ × Event))
    → All (λ e. IsEtcdMode e.1) es
    → is_ready later (run es initial) ≡ true
    → (r : ℕ) × ((run es initial).published_revision ≡ some r)
unfolding is_ready initial
ready_needs_publication later es m h = elim (published-run es initial m (inl refl)) [
  | inl closed ↦ absurd (ground arith)
  | inr found ↦ found
]
