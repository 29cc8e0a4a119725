-- ===== src/Etcd/Loop.antt =====
-- `run_sync_loop` (src/config/etcd/sync.rs): where the loop stands between two of its suspensions,
-- and what each awaited event does to it. `shutdown` is the receiver that its `select!`s read first.
use pingsix.Prelude.{ℕ, Bool, Option, if◌then◌else◌, Bytes}
use pingsix.Status.{begin_etcd_sync}
use pingsix.Graph.{StoredGraph, Result, ok, err}
use pingsix.Etcd.Sync.{
  SyncError, ListResponse, WatchResponse, EtcdConfigSync, on_status, ErrorText, Flow, continues,
  ended, list, open_watch, watch_message, watch_tick, record_failure,
}

pub data Phase : Type 0 where
  -- in the first `select!`; in `sleep_or_shutdown` after it
  listing list_delay : Phase
  -- in the second, before and in the loop of `watch`; in `sleep_or_shutdown` after it
  opening watching watch_delay : Phase
  -- returned
  finished : Phase

-- What is awaited, with the instant where a clock is read, and whether the graph is shut down while
-- what arrives is submitted.
pub data Input (E C : Type 0) : Type 0 where
  -- the requests of `list`
  listed : Result E (Unit {0}) → Result C ListResponse → Bool → ℕ → Input E C
  -- the requests that open the watch
  opened : Result E (Unit {0}) → Result C (Unit {0}) → ℕ → Input E C
  messaged : Result C (Option WatchResponse) → Bool → ℕ → Input E C
  ticked : Result C (Unit {0}) → ℕ → Input E C
  slept : Input E C
  -- `shutdown.changed()` returned, with `Ok` or `Err`, and the value that is then borrowed
  signalled sender_gone : Bool → Input E C

pub record Service (L : Type 0) : Type 0 where
  pub sync : EtcdConfigSync L
  pub phase : Phase

-- `start_service`
unfoldable pub start_service : {L : Type 0} → EtcdConfigSync L → Service L
unfolding begin_etcd_sync
start_service s = record { sync = on_status begin_etcd_sync s; phase = listing }

-- The arm of a `select!` whose shutdown has changed: the other arm is dropped.
unfoldable pub select_shutdown : {L : Type 0} → Bool → Phase → EtcdConfigSync L → Service L
select_shutdown value next s = record { sync = s; phase = if value then finished else next }

module _ {E C L : Type 0} (decode_graph : StoredGraph → Result E L)
    (validate_runtime_form : L → Result E (Unit {0})) (is_utf8 : Bytes → Bool)
    (lossy : Bytes → Bytes) (text : ErrorText E C) where
  -- The arm of the first `select!` for `list`.
  unfoldable pub after_list : ℕ → EtcdConfigSync L × Result (SyncError E) (Unit {0}) → Service L
  unfolding record_failure
  after_list now r = elim r.1 [
    | ok _ ↦ record { sync = r.0; phase = opening }
    | err e ↦ record {
      sync = record_failure decode_graph validate_runtime_form is_utf8 lossy text now e r.0;
      phase = list_delay;
    }
  ]

  -- The arm of the second for a `watch` that has returned.
  unfoldable pub after_watch : ℕ → EtcdConfigSync L → Result (SyncError E) (Unit {0}) → Service L
  unfolding record_failure
  after_watch now s (ok _) = record { sync = s; phase = listing }
  after_watch now s (err e) = record {
    sync = record_failure decode_graph validate_runtime_form is_utf8 lossy text now e s;
    phase = watch_delay;
  }

  unfoldable pub after_open : ℕ → EtcdConfigSync L × Result (SyncError E) (Unit {0}) → Service L
  unfolding after_watch
  after_open now r = elim r.1 [
    | ok _ ↦ record { sync = r.0; phase = watching }
    | err e ↦ after_watch now r.0 (err e)
  ]

  unfoldable pub after_flow : ℕ → EtcdConfigSync L × Flow E → Service L
  unfolding after_watch
  after_flow now r = elim r.1 [
    | continues ↦ record { sync = r.0; phase = watching }
    | ended result ↦ after_watch now r.0 result
  ]

  -- An input that the phase does not await changes nothing.
  unfoldable pub advance : Phase → Input E C → EtcdConfigSync L → Service L
  unfolding after_list after_open after_flow select_shutdown list open_watch watch_message
      watch_tick
  advance listing (listed created got shut now) s =
      after_list now
        (list decode_graph validate_runtime_form is_utf8 lossy text created got shut now s)
  advance listing (signalled b) s = select_shutdown b opening s
  advance listing (sender_gone b) s = select_shutdown b opening s
  advance list_delay slept s = record { sync = s; phase = listing }
  advance list_delay (signalled b) s = select_shutdown b listing s
  advance list_delay (sender_gone b) s = record { sync = s; phase = finished }
  advance opening (opened created reply now) s =
      after_open now
        (open_watch decode_graph validate_runtime_form is_utf8 lossy text created reply now s)
  advance opening (signalled b) s = select_shutdown b listing s
  advance opening (sender_gone b) s = select_shutdown b listing s
  advance watching (messaged message shut now) s =
      after_flow now
        (watch_message decode_graph validate_runtime_form is_utf8 lossy text shut now message s)
  advance watching (ticked requested now) s =
      after_flow now (watch_tick decode_graph validate_runtime_form is_utf8 lossy text requested s)
  advance watching (signalled b) s = select_shutdown b listing s
  advance watching (sender_gone b) s = select_shutdown b listing s
  advance watch_delay slept s = record { sync = s; phase = listing }
  advance watch_delay (signalled b) s = select_shutdown b listing s
  advance watch_delay (sender_gone b) s = record { sync = s; phase = finished }
  advance p i s = record { sync = s; phase = p }

  unfoldable pub step : Input E C → Service L → Service L
  unfolding advance
  step i s = advance s.phase i s.sync
