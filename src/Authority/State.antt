-- ===== src/Authority/State.antt =====
-- `Inner`: the fields that its mutexes guard, and the channel and the worker that they own. A
-- cancellation token is named by the generation that it was made for, and `cancelled` lists the
-- tokens that are cancelled. `L` is `ResourceConfigSet`, `E` is `ProxyError`.
use pingsix.Prelude.{
  ℕ, suc, Bool, true, false, not, Option, none, some, List, [], ◌∷◌, ltb, if◌then◌else◌, is_nil,
}
use pingsix.Graph.{
  StoredGraph, WatchBatch, empty_graph, GraphError, invalid_candidate, stale_revision,
  worker_stopped, Result, ok, err, map_err, ◌>>=◌,
}
use pingsix.Graph.Decode.{apply_watch_batch}
use pingsix.Graph.Publication.{PublicationRegistry, mark_pending, supersede_pending_except, empty}
use pingsix.Status.{RuntimeStatusInner}

pub record PendingGraph (L : Type 0) : Type 0 where
  pub generation : ℕ
  pub revision : ℕ
  pub stored : StoredGraph
  pub logical : L

pub data Lifecycle : Type 0 where
  running stopped : Lifecycle

-- Where the worker stands. `attempted` is the generation that `current_target` read before the
-- attempt; a number of seconds is the backoff that the next failure would take.
pub data Phase (L : Type 0) : Type 0 where
  -- no worker, or one that has ended
  absent : Phase L
  -- in `rx.recv()`
  waiting : Phase L
  -- at the head of the inner loop
  starting : ℕ → Phase L
  -- after `current_target()`
  entering : Option ℕ → ℕ → Phase L
  -- in the `select!` around `prepare_candidate`, with the target that it cloned
  preparing : Option ℕ → PendingGraph L → ℕ → Phase L
  -- in the `select!` around the blocking compilation
  compiling : Option ℕ → PendingGraph L → ℕ → Phase L
  -- compiled, before the lock of the generation fence
  publishing : PendingGraph L → Phase L
  -- sleeping out the backoff of a generation
  backoff : ℕ → ℕ → Phase L
  -- waiting for the token of a generation that was rejected for good
  parked : ℕ → Phase L

pub record Inner (L : Type 0) : Type 0 where
  pub status : RuntimeStatusInner
  -- the revision of the published snapshot
  pub runtime_revision : ℕ
  pub committed : Option StoredGraph
  pub target : Option (PendingGraph L)
  pub latest_generation : ℕ
  -- whether the sender is there, and whether the channel, of capacity 1, holds a message
  pub worker_tx : Bool
  pub signal : Bool
  pub worker : Phase L
  pub active_cancellation : Option ℕ
  pub cancelled : List ℕ
  pub lifecycle : Lifecycle
  pub publications : PublicationRegistry
  -- the gauge `PENDING_REVISION`
  pub pending_revision : ℕ

-- `ConfigurationGraph::with_state`, over a runtime store that has published nothing
unfoldable pub with_state : {L : Type 0} → RuntimeStatusInner → Inner L
unfolding empty
with_state status = record {
  status = status;
  runtime_revision = 0;
  committed = none;
  target = none;
  latest_generation = 0;
  worker_tx = false;
  signal = false;
  worker = absent;
  active_cancellation = none;
  cancelled = [];
  lifecycle = running;
  publications = empty;
  pending_revision = 0;
}

abbrev pub is_running : Lifecycle → Bool
is_running running = true
is_running stopped = false

unfoldable pub ensure_worker_started : {E L : Type 0} → Inner L → Result (GraphError E) (Inner L)
ensure_worker_started s =
    if not (is_running s.lifecycle)
    then err worker_stopped
    else if s.worker_tx
    then ok s
    else ok (record s { worker_tx = true; signal = false; worker = waiting })

abbrev pub with_cancelled : Option ℕ → List ℕ → List ℕ
with_cancelled none tokens = tokens
with_cancelled (some token) tokens = token ∷ tokens

-- The rest of `submit`, after its lifecycle check. A full channel is as good as a sent message.
unfoldable pub finish_submit :
    {E L : Type 0} → StoredGraph → L → Inner L → Inner L × Result (GraphError E) (Unit {0})
unfolding mark_pending supersede_pending_except
finish_submit stored logical s =
    let generation = suc s.latest_generation in
    let t = record s {
      latest_generation = generation;
      publications =
          supersede_pending_except stored.revision (mark_pending stored.revision s.publications);
      cancelled = with_cancelled s.active_cancellation s.cancelled;
      active_cancellation = some generation;
      target = some (record {
        generation = generation;
        revision = stored.revision;
        stored = stored;
        logical = logical;
      });
      pending_revision = stored.revision;
    } in
    if s.worker_tx then (record t { signal = true }, ok tt) else (t, err worker_stopped)

-- `shutdown`, up to the wait for the worker, which the interleavings have as steps of their own.
unfoldable pub shutdown : {L : Type 0} → Inner L → Inner L
shutdown s = if not (is_running s.lifecycle) then s else record s {
  lifecycle = stopped;
  cancelled = with_cancelled s.active_cancellation s.cancelled;
  active_cancellation = none;
  worker_tx = false;
  pending_revision = 0;
}

-- `submit`; `shut` tells whether a call of `shutdown` falls into it, after its lifecycle check.
unfoldable pub submit :
    {E L : Type 0} → Bool → StoredGraph → L → Inner L → Inner L × Result (GraphError E) (Unit {0})
unfolding ensure_worker_started finish_submit shutdown
submit shut stored logical s = elim (ensure_worker_started s) [
  | ok t ↦ finish_submit stored logical (if shut then shutdown t else t)
  | err e ↦ (s, err e)
]

-- The graph that a watch batch layers on: the pending target's, or the committed one, or none.
abbrev pub base_of : {L : Type 0} → Option (PendingGraph L) → Option StoredGraph → StoredGraph
base_of (some t) c = t.stored
base_of none (some c) = c
base_of none none = empty_graph

-- `decode_graph` for the runtime and `validate_runtime_form`, with the keyring, are parameters.
module _ {E L : Type 0} (decode_graph : StoredGraph → Result E L)
    (validate_runtime_form : L → Result E (Unit {0})) where
  -- What `replace_all` and `apply_watch` do with a graph before they submit it.
  unfoldable pub admit : StoredGraph → Result (GraphError E) (StoredGraph × L)
  admit stored = map_err invalid_candidate (decode_graph stored) >>= λ logical.
      map_err invalid_candidate (validate_runtime_form logical) >>= λ _. ok (stored, logical)

  -- The checks of `replace_all`.
  unfoldable pub admit_snapshot : StoredGraph → Result (GraphError E) (Option (StoredGraph × L))
  unfolding admit
  admit_snapshot stored = admit stored >>= λ p. ok (some p)

  -- The checks of `apply_watch`; `none` is a batch with nothing to submit.
  unfoldable pub admit_watch :
      WatchBatch → Inner L → Result (GraphError E) (Option (StoredGraph × L))
  unfolding admit apply_watch_batch
  admit_watch batch s =
      if is_nil batch.changes
      then ok none
      else if ltb batch.revision s.runtime_revision
      then err (stale_revision batch.revision s.runtime_revision)
      else apply_watch_batch (base_of s.target s.committed) batch >>= λ stored.
          admit stored >>= λ p. ok (some p)

  unfoldable pub submit_admitted :
      Bool
      → Result (GraphError E) (Option (StoredGraph × L))
      → Inner L
      → Inner L × Result (GraphError E) (Unit {0})
  unfolding submit
  submit_admitted shut (err e) s = (s, err e)
  submit_admitted shut (ok none) s = (s, ok tt)
  submit_admitted shut (ok (some (stored, logical))) s = submit shut stored logical s

  unfoldable pub replace_all :
      Bool → StoredGraph → Inner L → Inner L × Result (GraphError E) (Unit {0})
  unfolding submit_admitted admit_snapshot
  replace_all shut snapshot s = submit_admitted shut (admit_snapshot snapshot) s

  unfoldable pub apply_watch :
      Bool → WatchBatch → Inner L → Inner L × Result (GraphError E) (Unit {0})
  unfolding submit_admitted admit_watch
  apply_watch shut batch s = submit_admitted shut (admit_watch batch s) s
