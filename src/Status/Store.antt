-- ===== src/Status/Store.antt =====
-- `StatusStore`: a method that locks the store returns the new record. `Instant::now()` is an
-- argument, in nanoseconds of a monotonic clock.
use pingsix.Prelude.{
  ℕ, ◌*◌, Bool, true, false, not, ◌&&◌, ◌||◌, Option, none, some, String, if◌then◌else◌, is_some,
  Eq, option_eq,
}

pub data ConfigSource : Type 0 where
  yaml etcd : ConfigSource

pub data ConfigErrorKind : Type 0 where
  etcd_unavailable candidate_invalid : ConfigErrorKind

pub ConfigSource-discrete : Discrete ConfigSource
ConfigSource-discrete = hlevel

pub ConfigErrorKind-discrete : Discrete ConfigErrorKind
ConfigErrorKind-discrete = hlevel

instance abbrev pub source_eq : Eq ConfigSource
source_eq = record { dec = ConfigSource-discrete }

instance abbrev pub error_kind_eq : Eq ConfigErrorKind
error_kind_eq = record { dec = ConfigErrorKind-discrete }

-- `ConfigSource::as_str`
unfoldable pub as_str : ConfigSource → String
as_str yaml = "yaml"
as_str etcd = "etcd"

pub record RuntimeStatusInner : Type 0 where
  pub initialized : Bool
  pub config_source : Option ConfigSource
  pub revision : Option ℕ
  pub published_revision : Option ℕ
  pub last_success : Option ℕ
  pub error_kind : Option ConfigErrorKind
  pub last_error : Option String
  pub connected : Bool
  pub disconnected_since : Option ℕ
  pub awaiting_publish_after_reconnect : Bool
  pub config_stale_after : ℕ
  pub fail_readiness_when_stale : Bool

abbrev pub nanos_per_sec : ℕ
nanos_per_sec = 1000000000

-- `Default`
unfoldable pub initial : RuntimeStatusInner
initial = record {
  initialized = false;
  config_source = none;
  revision = none;
  published_revision = none;
  last_success = none;
  error_kind = none;
  last_error = none;
  connected = false;
  disconnected_since = none;
  awaiting_publish_after_reconnect = false;
  config_stale_after = 300 * nanos_per_sec;
  fail_readiness_when_stale = true;
}

abbrev pub is_etcd : Option ConfigSource → Bool
is_etcd (some etcd) = true
is_etcd _ = false

abbrev pub is_transport : Option ConfigErrorKind → Bool
is_transport (some etcd_unavailable) = true
is_transport _ = false

abbrev pub is_candidate : Option ConfigErrorKind → Bool
is_candidate (some candidate_invalid) = true
is_candidate _ = false

abbrev pub is_yaml : ConfigSource → Bool
is_yaml yaml = true
is_yaml etcd = false

unfoldable pub configure_policy : ℕ → Bool → RuntimeStatusInner → RuntimeStatusInner
configure_policy config_stale_after_secs fail s = record s {
  config_stale_after = config_stale_after_secs * nanos_per_sec;
  fail_readiness_when_stale = fail;
}

unfoldable pub mark_ready : ℕ → ConfigSource → RuntimeStatusInner → RuntimeStatusInner
mark_ready now source s = record s {
  initialized = true;
  config_source = some source;
  last_success = some now;
  error_kind = none;
  last_error = none;
  connected = if is_yaml source then true else s.connected;
}

-- The instant since which the store counts as disconnected: the first, while it stays so.
disconnect_time : ℕ → RuntimeStatusInner → Option ℕ
disconnect_time now s =
    if s.connected || not (is_some s.disconnected_since) then some now else s.disconnected_since

unfoldable pub mark_etcd_connected : ℕ → Bool → RuntimeStatusInner → RuntimeStatusInner
unfolding disconnect_time
mark_etcd_connected now connected s = record s {
  disconnected_since = if connected then none else disconnect_time now s;
  connected = connected;
}

unfoldable pub begin_etcd_sync : RuntimeStatusInner → RuntimeStatusInner
begin_etcd_sync s = record s { config_source = some etcd }

unfoldable pub set_revision : Option ℕ → RuntimeStatusInner → RuntimeStatusInner
set_revision revision s = record s { revision = revision }

unfoldable pub set_published_revision : ℕ → ℕ → RuntimeStatusInner → RuntimeStatusInner
set_published_revision now revision s =
    let t = record s { published_revision = some revision } in
    if is_etcd s.config_source
    then record t {
      initialized = true;
      last_success = some now;
      error_kind = none;
      last_error = none;
      awaiting_publish_after_reconnect = false;
    }
    else t

unfoldable pub record_sync_success : ℕ → ℕ → RuntimeStatusInner → RuntimeStatusInner
record_sync_success now revision s = record s {
  revision = some revision;
  last_success = some now;
  error_kind = if is_transport s.error_kind then none else s.error_kind;
  last_error = if is_transport s.error_kind then none else s.last_error;
  config_source = if is_some s.config_source then s.config_source else some etcd;
  awaiting_publish_after_reconnect =
      if not s.connected && s.initialized then true else s.awaiting_publish_after_reconnect;
  connected = true;
  disconnected_since = none;
}

unfoldable pub record_sync_error : ℕ → String → RuntimeStatusInner → RuntimeStatusInner
unfolding disconnect_time
record_sync_error now error s = record s {
  error_kind = some etcd_unavailable;
  last_error = some error;
  disconnected_since = disconnect_time now s;
  connected = false;
}

unfoldable pub record_preparation_error : String → RuntimeStatusInner → RuntimeStatusInner
record_preparation_error error s = record s {
  error_kind = some candidate_invalid;
  last_error = some error;
}

-- One call of a method that changes the store, at its instant.
pub data Event : Type 0 where
  configured : ℕ → Bool → Event
  ready_marked : ConfigSource → Event
  connected_marked : Bool → Event
  sync_begun : Event
  revision_set : Option ℕ → Event
  revision_published : ℕ → Event
  sync_succeeded : ℕ → Event
  sync_failed : String → Event
  preparation_failed : String → Event

unfoldable pub step : ℕ → Event → RuntimeStatusInner → RuntimeStatusInner
unfolding configure_policy mark_ready mark_etcd_connected begin_etcd_sync set_revision
    set_published_revision record_sync_success record_sync_error record_preparation_error
step now (configured after fail) s = configure_policy after fail s
step now (ready_marked source) s = mark_ready now source s
step now (connected_marked b) s = mark_etcd_connected now b s
step now sync_begun s = begin_etcd_sync s
step now (revision_set r) s = set_revision r s
step now (revision_published r) s = set_published_revision now r s
step now (sync_succeeded r) s = record_sync_success now r s
step now (sync_failed e) s = record_sync_error now e s
step now (preparation_failed e) s = record_preparation_error e s
