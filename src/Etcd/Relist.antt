-- ===== src/Etcd/Relist.antt =====
-- The synchronisation loop that lists again after a failure.
use pingsix.Prelude.{ℕ, ◌≡◌, refl, Bool, true, false, Option, none, some, List, arith, Bytes}
use pingsix.Status.{record_sync_success, set_revision}
use pingsix.Graph.{StoredGraph, Result, ok}
use pingsix.Authority.{
  Inner, PendingGraph, running, admit, admit_snapshot, ensure_worker_started, finish_submit, submit,
  submit_admitted, replace_all,
}
use pingsix.Etcd.Snapshot.{ListKv, graph_snapshot_from_list}
use pingsix.Etcd.Sync.{
  EtcdConfigSync, on_status, ErrorText, get_client, submit_snapshot, list_response, list,
}
use pingsix.Etcd.Loop.{
  Phase, listing, list_delay, opening, watch_delay, listed, slept, Service, after_list, advance,
  step,
}
use pingsix.Etcd.Recovery.{is_delay}

abbrev pub map_stored : {L : Type 0} → Option (PendingGraph L) → Option StoredGraph
map_stored none = none
map_stored (some t) = some t.stored

module _ {E C L : Type 0} (decode_graph : StoredGraph → Result E L)
    (validate_runtime_form : L → Result E (Unit {0})) (is_utf8 : Bytes → Bool)
    (lossy : Bytes → Bytes) (text : ErrorText E C) where
  submit_target :
      (g : StoredGraph) (l : L) (s : Inner L)
      → s.lifecycle ≡ running
      → ((submit {E = E} false g l s).1 ≡ ok tt)
        × (map_stored (submit {E = E} false g l s).0.target ≡ some g)
        × ((submit {E = E} false g l s).0.status ≡ s.status)
  unfolding submit ensure_worker_started finish_submit
  submit_target g l s h = (ground arith, ground arith, ground arith)

  replace_all_target :
      (g : StoredGraph) (l : L) (s : Inner L)
      → decode_graph g ≡ ok l
      → validate_runtime_form l ≡ ok tt
      → s.lifecycle ≡ running
      → replace_all decode_graph validate_runtime_form false g s ≡ submit {E = E} false g l s
  unfolding replace_all submit_admitted admit_snapshot admit
  replace_all_target g l s d v h = ground arith

  -- What a list that is taken leaves.
  abbrev Listed : ℕ → StoredGraph → EtcdConfigSync L → Type 0
  Listed revision g s =
      (s.revision ≡ revision)
      × (map_stored s.graph.target ≡ some g)
      × (s.graph.status.connected ≡ true)

  submit_snapshot-Listed :
      (revision : ℕ) (g : StoredGraph) (l : L) (s : EtcdConfigSync L)
      → decode_graph g ≡ ok l
      → validate_runtime_form l ≡ ok tt
      → s.graph.lifecycle ≡ running
      → s.graph.status.connected ≡ true
      → ((submit_snapshot decode_graph validate_runtime_form is_utf8 lossy text false revision g
            s).1
          ≡ ok tt)
        × Listed revision g
            (submit_snapshot decode_graph validate_runtime_form is_utf8 lossy text false revision g
              s).0
  unfolding submit_snapshot set_revision
  submit_snapshot-Listed revision g l s d v live c =
      let (taken, target, status) = submit_target g l s.graph live in
      let same = replace_all_target g l s.graph d v live in
      (ground arith, (ground arith, ground arith, ground arith))

  list-Listed :
      (kvs : List ListKv) (revision now : ℕ) (g : StoredGraph) (l : L) (s : EtcdConfigSync L)
      → graph_snapshot_from_list {E = E} is_utf8 lossy text.of_key kvs revision s.canonical_prefix
        ≡ ok g
      → decode_graph g ≡ ok l
      → validate_runtime_form l ≡ ok tt
      → s.graph.lifecycle ≡ running
      → let r =
          list decode_graph validate_runtime_form is_utf8 lossy text
            (ok tt)
            (ok (record { header = some revision; kvs = kvs }))
            false
            now
            s in
        (r.1 ≡ ok tt) × Listed revision g r.0
  unfolding list get_client list_response record_sync_success
  list-Listed kvs revision now g l s h d v live =
      let t = on_status (record_sync_success now revision) (record s { client = true }) in
      ground (arith, submit_snapshot-Listed revision g l t d v live refl)

  advance-slept :
      (p : Phase) (s : EtcdConfigSync L)
      → is_delay p ≡ true
      → advance {C = C} decode_graph validate_runtime_form is_utf8 lossy text p slept s
        ≡ record { sync = s; phase = listing }
  unfolding advance
  advance-slept list_delay s h = refl
  advance-slept watch_delay s h = refl
  advance-slept _ s h = absurd (ground arith)

  -- After a failure, the loop lists again once it has slept. Where the response maps to a graph that
  -- decodes and validates and the graph has not been shut down, nor is while that graph is submitted,
  -- then that graph is the target, the
  -- revision is the response's, etcd counts as connected, and the loop goes on to watch.
  pub relisted :
      (s : Service L) (kvs : List ListKv) (revision now : ℕ) (g : StoredGraph) (l : L)
      → is_delay s.phase ≡ true
      → graph_snapshot_from_list {E = E} is_utf8 lossy text.of_key kvs revision
          s.sync.canonical_prefix
        ≡ ok g
      → decode_graph g ≡ ok l
      → validate_runtime_form l ≡ ok tt
      → s.sync.graph.lifecycle ≡ running
      → let t =
          step decode_graph validate_runtime_form is_utf8 lossy text
            (listed (ok tt) (ok (record { header = some revision; kvs = kvs })) false now)
            (step decode_graph validate_runtime_form is_utf8 lossy text slept s) in
        (t.phase ≡ opening)
        × (t.sync.revision ≡ revision)
        × (map_stored t.sync.graph.target ≡ some g)
        × (t.sync.graph.status.connected ≡ true)
  unfolding step advance after_list
  relisted s kvs revision now g l d listed_graph decoded valid live =
      let slept_once = advance-slept s.phase s.sync d in
      ground (arith, list-Listed kvs revision now g l s.sync listed_graph decoded valid live)
