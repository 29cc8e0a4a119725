-- ===== src/Etcd/Mirror.antt =====
-- The graph that a watch response leaves against the list response that would follow it.
use pingsix.Prelude.{ℕ, ◌≡◌, Bool, List, inl, inr, Bytes, bytes_eq, arith, Bool-cases}
use pingsix.Prelude.Dict
use pingsix.Graph.{ResourceKey, key_eq, StoredGraph, StoredChange, ok}
use pingsix.Graph.Decode.{apply_watch_batch}
use pingsix.Graph.Decode.Watch.{changed_to, lookup-apply_watch_batch}
use pingsix.Graph.Keys.{KeyError}
use pingsix.Etcd.Names.{is_dotted}
use pingsix.Etcd.Snapshot.{ListKv, graph_snapshot_from_list}
use pingsix.Etcd.Events.{Event, graph_changes_from_events}
use pingsix.Etcd.View.{physical, last_at, IsPlain, graph_snapshot_from_list-last_at}
use pingsix.Etcd.Coalesced.{last_event, graph_changes_from_events-last_event}

-- Applying the changes of a watch response to the graph of a list response gives each resource what
-- the graph of a later list response gives it, where the later response differs from the earlier at
-- the resource's physical key as the last event for the key says.
pub apply_watch_batch-snapshot :
    {E : Type 0} (is_utf8 : Bytes → Bool) (lossy : Bytes → Bytes) (message : KeyError → Bytes)
    (p : Bytes) (j : ResourceKey) (kvs later : List ListKv) (r0 r1 : ℕ) (es : List Event)
    (base next relisted : StoredGraph) (cs : List StoredChange)
    → IsPlain is_utf8 p j
    → lossy (physical p j) ≡ physical p j
    → graph_snapshot_from_list {E = E} is_utf8 lossy message kvs r0 p ≡ ok base
    → graph_changes_from_events is_utf8 lossy es p ≡ ok cs
    → apply_watch_batch {E = E} base (record { revision = r1; changes = cs }) ≡ ok next
    → graph_snapshot_from_list {E = E} is_utf8 lossy message later r1 p ≡ ok relisted
    → last_at (physical p j) later
      ≡ changed_to (last_event (physical p j) es) (last_at (physical p j) kvs)
    → Dict.lookup j next.resources ≡ Dict.lookup j relisted.resources
apply_watch_batch-snapshot is_utf8 lossy message p j kvs later r0 r1 es base next relisted cs plain
      law h0 hc ha h1 follows =
    let (before, _) =
      graph_snapshot_from_list-last_at is_utf8 lossy message p j kvs r0 base plain law h0 in
    let (after, _) =
      graph_snapshot_from_list-last_at is_utf8 lossy message p j later r1 relisted plain law h1 in
    let told = graph_changes_from_events-last_event is_utf8 lossy p j es cs plain law hc in
    let (made, _) =
      lookup-apply_watch_batch base next (record { revision = r1; changes = cs }) j ha in
    elim (Bool-cases (is_dotted j.id)) [ inl dotted ↦ ground arith | inr clear ↦ ground arith ]
