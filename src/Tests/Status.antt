-- ===== src/Tests/Status.antt =====
-- The readiness of the gateway, on a store that was published at revision 7 and then cut off.
use pingsix.Prelude.{◌≡◌, ◌≢◌, ◌⊎◌, ◌↔◌, refl, true, false, some, none, List, [], ◌∷◌, ℕ}
use pingsix.Status.{
  RuntimeStatusInner, etcd_unavailable, Event, initial, sync_begun, sync_succeeded, sync_failed,
  revision_published, preparation_failed, step, is_ready, readiness, status_view,
}
use pingsix.Status.Readiness
use pingsix.Status.Reconnect
use pingsix.Status.Reconnect.{run}

program : Unit {0}
unfolding run step is_ready readiness status_view initial
program = tt

abbrev boot : List (ℕ × Event)
boot = (1, sync_begun) ∷ (2, sync_succeeded 7) ∷ (3, revision_published 7) ∷ []

booted : RuntimeStatusInner
unfolding program
booted = run boot initial

abbrev lost : RuntimeStatusInner
lost = step 4 (sync_failed "gone") booted

boot_ready : is_ready 5 (run boot initial) ≡ true
unfolding program
boot_ready = refl

-- Before the publication the listed graph is not served.
listed_not_ready : is_ready 5 (run ((1, sync_begun) ∷ (2, sync_succeeded 7) ∷ []) initial) ≡ false
unfolding program
listed_not_ready = refl

readiness-agrees_example :
    ((readiness 5 booted).0 ≡ is_ready 5 booted)
    × ((status_view 5 booted).ready ≡ is_ready 5 booted)
    × (((readiness 5 booted).1 ≡ none) ↔ (is_ready 5 booted ≡ true))
    × ((readiness 5 booted).1 ≢ some "config_invalid")
readiness-agrees_example = Readiness.readiness-agrees 5 booted

status_view-degraded_example :
    ((status_view 5 lost).degraded_reason ≢ some "configuration sync is stale")
    × (((status_view 5 lost).degraded ≡ false)
        ⊎ ((status_view 5 lost).degraded_reason ≢ none)
        ⊎ ((lost.connected ≡ true) × (lost.error_kind ≡ some etcd_unavailable)))
status_view-degraded_example = Readiness.status_view-degraded 5 lost

reconnect_fence_example :
    is_ready 9 (run ((6, preparation_failed "bad") ∷ []) (step 5 (sync_succeeded 8) lost)) ≡ false
unfolding program booted
reconnect_fence_example =
    Reconnect.reconnect_fence 5 8 9 ((6, preparation_failed "bad") ∷ []) lost refl refl (tt, tt)
