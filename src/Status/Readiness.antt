-- ===== src/Status/Readiness.antt =====
-- What the probes report, for every state of the store.
use text.Mathlib.TextEquality.{eq_iff}
use pingsix.Prelude.{ℕ, ◌≡◌, ◌≢◌, ◌↔◌, ◌⊎◌, true, false, none, some, arith}
use pingsix.Status.Store.{RuntimeStatusInner, etcd_unavailable}
use pingsix.Status.View.{is_ready, readiness, status_view}

-- The three probes agree on whether the service is ready; a reason is given exactly when it is
-- not; and the reason is never `config_invalid`, which no state of the store can give.
pub readiness-agrees :
    (now : ℕ) (s : RuntimeStatusInner)
    → ((readiness now s).0 ≡ is_ready now s)
      × ((status_view now s).ready ≡ is_ready now s)
      × (((readiness now s).1 ≡ none) ↔ (is_ready now s ≡ true))
      × ((readiness now s).1 ≢ some "config_invalid")
unfolding readiness is_ready status_view
readiness-agrees now s = (
  ground arith,
  ground arith,
  ground arith,
  ground (
    arith,
    eq_iff "not_initialized" "config_invalid",
    eq_iff "config_stale" "config_invalid",
    eq_iff "awaiting_publish_after_reconnect" "config_invalid",
  ),
)

-- A stale store is disconnected, so the view never gives staleness as the reason; and a degraded
-- view has a reason, unless the store is connected while a transport error stands.
pub status_view-degraded :
    (now : ℕ) (s : RuntimeStatusInner)
    → ((status_view now s).degraded_reason ≢ some "configuration sync is stale")
      × (((status_view now s).degraded ≡ false)
          ⊎ ((status_view now s).degraded_reason ≢ none)
          ⊎ ((s.connected ≡ true) × (s.error_kind ≡ some etcd_unavailable)))
unfolding status_view
status_view-degraded now s = (
  ground (
    arith,
    eq_iff "etcd disconnected" "configuration sync is stale",
    eq_iff "latest configuration candidate is invalid" "configuration sync is stale",
    eq_iff "awaiting publish after reconnect" "configuration sync is stale",
  ),
  ground arith,
)
