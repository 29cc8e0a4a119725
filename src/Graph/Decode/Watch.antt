-- ===== src/Graph/Decode/Watch.antt =====
-- Watch batches against the last change of each key, and against the commits of the store.
use pingsix.Prelude.{ℕ, ◌≡◌, refl, List, [], ◌∷◌, Option, none, some, ◌==◌, if◌then◌else◌, arith}
use pingsix.Prelude.Dict
use pingsix.Graph.Vocabulary.{
  ResourceKey, key_eq, StoredResource, StoredGraph, StoredChange, WatchBatch, ok,
}
use pingsix.Graph.Decode.{apply_change, apply_changes, batch_graph, apply_watch_batch}

-- What one change says of a key: nothing, or what it leaves there.
abbrev pub says : ResourceKey → StoredChange → Option (Option StoredResource)
says j (StoredChange.put k r) = if j == k then some (some r) else none
says j (StoredChange.delete k) = if j == k then some none else none

abbrev or_else {ℓ} : {A : Type ℓ} → Option A → Option A → Option A
or_else none b = b
or_else (some a) b = some a

-- What the last change of a key leaves there.
abbrev pub last_change : ResourceKey → List StoredChange → Option (Option StoredResource)
last_change j [] = none
last_change j (c ∷ cs) = or_else (last_change j cs) (says j c)

abbrev pub changed_to :
    Option (Option StoredResource) → Option StoredResource → Option StoredResource
changed_to none old = old
changed_to (some new) old = new

lookup-apply_change :
    (j : ResourceKey) (c : StoredChange) (d : Dict.Dict ResourceKey StoredResource)
    → Dict.lookup j (apply_change c d) ≡ changed_to (says j c) (Dict.lookup j d)
unfolding apply_change
lookup-apply_change j (StoredChange.put k r) d = rw Dict.lookup-insert (ground arith)
lookup-apply_change j (StoredChange.delete k) d = rw Dict.lookup-remove (ground arith)

lookup-apply_changes :
    (j : ResourceKey) (cs : List StoredChange) (d : Dict.Dict ResourceKey StoredResource)
    → Dict.lookup j (apply_changes cs d) ≡ changed_to (last_change j cs) (Dict.lookup j d)
unfolding apply_changes
lookup-apply_changes j [] d = refl
lookup-apply_changes j (c ∷ cs) d =
    ground (arith, lookup-apply_changes j cs (apply_change c d), lookup-apply_change j c d)

lookup-batch_graph :
    (j : ResourceKey) (cs : List StoredChange) (revision : ℕ) (base : StoredGraph)
    → (Dict.lookup j (batch_graph cs revision base).resources
        ≡ changed_to (last_change j cs) (Dict.lookup j base.resources))
      × ((batch_graph cs revision base).guard_mod_revision ≡ base.guard_mod_revision)
unfolding batch_graph
lookup-batch_graph j [] revision base = (refl, refl)
lookup-batch_graph j (c ∷ cs) revision base = (lookup-apply_changes j (c ∷ cs) base.resources, refl)

-- After a batch each key has what the last change of the batch for it left, and what it had before
-- where no change names it. The guard's revision is kept.
pub lookup-apply_watch_batch :
    {E : Type 0} (base next : StoredGraph) (b : WatchBatch) (j : ResourceKey)
    → apply_watch_batch {E = E} base b ≡ ok next
    → (Dict.lookup j next.resources
        ≡ changed_to (last_change j b.changes) (Dict.lookup j base.resources))
      × (next.guard_mod_revision ≡ base.guard_mod_revision)
unfolding apply_watch_batch
lookup-apply_watch_batch base next b j h =
    ground (arith, lookup-batch_graph j b.changes b.revision base)
