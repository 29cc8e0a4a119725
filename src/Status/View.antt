-- ===== src/Status/View.antt =====
-- The readers of `StatusStore`: readiness, its reason, and the view that the probes publish.
-- `elapsed` saturates at zero, as `-` does here.
use pingsix.Prelude.{
  ℕ, ◌-◌, ◌/◌, Bool, true, false, not, ◌&&◌, ◌||◌, Option, none, some, String, if◌then◌else◌, ltb,
  is_some,
}
use pingsix.Status.Store.{
  ConfigSource, ConfigErrorKind, as_str, RuntimeStatusInner, is_etcd, is_candidate, nanos_per_sec,
}

abbrev older_than : ℕ → ℕ → Option ℕ → Bool
older_than now limit none = false
older_than now limit (some t) = ltb limit (now - t)

unfoldable pub is_stale : ℕ → RuntimeStatusInner → Bool
is_stale now s =
    if not (is_etcd s.config_source)
    then false
    else if s.connected
    then false
    else older_than now s.config_stale_after s.disconnected_since

unfoldable pub compute_ready : ℕ → RuntimeStatusInner → Bool
unfolding is_stale
compute_ready now s =
    if not s.initialized || s.awaiting_publish_after_reconnect
    then false
    else if s.fail_readiness_when_stale && is_stale now s
    then false
    else true

-- `is_ready`
unfoldable pub is_ready : ℕ → RuntimeStatusInner → Bool
unfolding compute_ready
is_ready now s = compute_ready now s

-- The clock is read by each of the two calls; here once, since both happen under one lock.
unfoldable pub readiness : ℕ → RuntimeStatusInner → Bool × Option String
unfolding compute_ready is_stale
readiness now s =
    let ready = compute_ready now s in
    (
      ready,
      if ready
          then none
          else if not s.initialized
          then some "not_initialized"
          else if is_stale now s
          then some "config_stale"
          else if s.awaiting_publish_after_reconnect
          then some "awaiting_publish_after_reconnect"
          else some "config_invalid",
    )

pub record RuntimeStatusView : Type 0 where
  pub initialized : Bool
  pub ready : Bool
  pub config_source : Option String
  pub observed_revision : Option ℕ
  pub published_revision : Option ℕ
  pub revision : Option ℕ
  pub connected : Bool
  pub degraded : Bool
  pub degraded_reason : Option String
  pub last_success_age_secs : Option ℕ
  pub error_kind : Option ConfigErrorKind
  pub last_error : Option String

abbrev age : ℕ → Option ℕ → Option ℕ
age now none = none
age now (some t) = some ((now - t) / nanos_per_sec)

abbrev source_name : Option ConfigSource → Option String
source_name none = none
source_name (some c) = some (as_str c)

unfoldable pub status_view : ℕ → RuntimeStatusInner → RuntimeStatusView
unfolding compute_ready is_stale
status_view now s =
    let stale = is_stale now s in
    let awaiting = s.awaiting_publish_after_reconnect in
    record {
      initialized = s.initialized;
      ready = compute_ready now s;
      config_source = source_name s.config_source;
      observed_revision = s.revision;
      published_revision = s.published_revision;
      revision = s.revision;
      connected = s.connected;
      degraded = s.initialized && (not s.connected || stale || is_some s.error_kind || awaiting);
      degraded_reason =
          if not s.initialized
          then none
          else if not s.connected
          then some "etcd disconnected"
          else if stale
          then some "configuration sync is stale"
          else if is_candidate s.error_kind
          then some "latest configuration candidate is invalid"
          else if awaiting
          then some "awaiting publish after reconnect"
          else none;
      last_success_age_secs = age now s.last_success;
      error_kind = s.error_kind;
      last_error = s.last_error;
    }

abbrev or_zero : Option ℕ → ℕ
or_zero none = 0
or_zero (some n) = n

-- `published_revision`
unfoldable pub published : RuntimeStatusInner → ℕ
published s = or_zero s.published_revision
