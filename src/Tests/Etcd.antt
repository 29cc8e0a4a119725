-- ===== src/Tests/Etcd.antt =====
-- The etcd adapter on a namespace of two routes.
use pingsix.Prelude.{
  ◌≡◌, ◌≢◌, ◌⊎◌, refl, ◌↔◌, ℕ, Bool, true, false, some, none, List, [], ◌∷◌, Bytes, Bytes-discrete,
  ℕ_discrete, codes, String, if◌then◌else◌,
}
use pingsix.Prelude.Dict
use pingsix.Status.{initial}
use pingsix.Graph.{
  ResourceKey, key_eq, ResourceKey-discrete, ResourceKind-discrete, route, StoredResource,
  StoredGraph, StoredChange, ok, logical_path, as_str, Result, parse, new_key,
}
use pingsix.Graph.Decode.{apply_watch_batch}
use pingsix.Graph.Keys.{physical_key_to_resource_key}
use pingsix.Authority.{stopped, with_state, replace_all}
use pingsix.Etcd.{
  ListKv, is_dotted, graph_snapshot_from_list, Event, put, graph_changes_from_events,
  canonicalize_prefix,
}
use pingsix.Etcd.View
use pingsix.Etcd.View.{physical, IsPlain, last_at}
use pingsix.Etcd.Mirror
use pingsix.Etcd.Sync.{ErrorText, new}
use pingsix.Etcd.Loop
use pingsix.Etcd.Loop.{Input, Service, listed, slept, start_service, step, opening, list_delay}
use pingsix.Etcd.Recovery
use pingsix.Etcd.Recovery.{is_delay, Failed}
use pingsix.Etcd.Relist
use pingsix.Etcd.Client
use pingsix.Etcd.Client.{HasClient, started, moved}

unfoldable program : Unit {0}
unfolding graph_snapshot_from_list graph_changes_from_events apply_watch_batch canonicalize_prefix
    logical_path Bytes-discrete ℕ_discrete ResourceKey-discrete ResourceKind-discrete Dict.lookup
    as_str initial with_state new start_service step parse new_key
program = tt

abbrev valid : Bytes → Bool
valid b = true

abbrev same : Bytes → Bytes
same b = b

abbrev prefix : Bytes
prefix = codes "/a/"

abbrev r1 : ResourceKey
r1 = record { kind = route; id = codes "r1" }

abbrev kv : String → String → ℕ → ListKv
kv key value revision = record {
  key = codes key;
  value = codes value;
  create_revision = revision;
  mod_revision = revision;
}

abbrev message : {K : Type 0} → K → Bytes
message k = []

abbrev before : List ListKv
before = kv "/a/routes/r1" "x" 3 ∷ kv "/a/routes/.r2" "y" 4 ∷ []

abbrev events : List Event
events = record { kv = some (kv "/a/routes/r1" "z" 5); event_type = put } ∷ []

abbrev after : List ListKv
after = kv "/a/routes/r1" "z" 5 ∷ []

abbrev entry : String → ℕ → StoredResource
entry value revision = record {
  value = codes value;
  create_revision = revision;
  mod_revision = revision;
}

abbrev graph_of : String → ℕ → ℕ → StoredGraph
graph_of value at revision = record {
  resources = (r1, entry value at) ∷ [];
  guard_mod_revision = none;
  revision = revision;
}

hidden : graph_snapshot_from_list {E = ⊥} valid same message before 9 prefix ≡ ok (graph_of "x" 3 9)
unfolding program
hidden = refl

r1-IsPlain : IsPlain valid prefix r1
unfolding ℕ_discrete
r1-IsPlain = record { utf8 = refl; nonempty = refl; one_segment = refl }

physical_key_iff_example :
    (physical_key_to_resource_key valid (codes "/a/routes/r1") prefix ≡ ok r1)
    ↔ ((codes "/a/routes/r1" ≡ physical prefix r1) × IsPlain valid prefix r1)
physical_key_iff_example = View.physical_key_iff valid (codes "/a/routes/r1") prefix r1

graph_snapshot_from_list-last_at_example :
    (Dict.lookup r1 (graph_of "x" 3 9).resources
      ≡ (if is_dotted r1.id then none else last_at (physical prefix r1) before))
    × ((graph_of "x" 3 9).revision ≡ 9)
unfolding program
graph_snapshot_from_list-last_at_example =
    View.graph_snapshot_from_list-last_at {E = ⊥} valid same message prefix r1 before 9
      (graph_of "x" 3 9) r1-IsPlain refl refl

abbrev changes : List StoredChange
changes = StoredChange.put r1 (entry "z" 5) ∷ []

apply_watch_batch-snapshot_example :
    Dict.lookup r1 (graph_of "z" 5 10).resources ≡ Dict.lookup r1 (graph_of "z" 5 10).resources
unfolding program
apply_watch_batch-snapshot_example =
    Mirror.apply_watch_batch-snapshot {E = ⊥} valid same message prefix r1 before after 9 10 events
      (graph_of "x" 3 9) (graph_of "z" 5 10) (graph_of "z" 5 10) changes r1-IsPlain refl refl refl
      refl refl refl

-- The loop, with texts that say nothing.
abbrev text : ErrorText Bytes Bytes
text = record {
  etcd_error = same;
  etcd_error_with_cause = λ b c. b;
  configuration = same;
  of_event = λ e. [];
  of_key = λ e. [];
  debug_store = λ e. [];
  display_graph = λ e. [];
  to_string = λ e. "failed";
}

abbrev decode : StoredGraph → Result Bytes ℕ
decode g = ok g.revision

abbrev validate : ℕ → Result Bytes (Unit {0})
validate n = ok tt

abbrev refuse : ℕ → Result Bytes (Unit {0})
refuse n = Result.err []

abbrev service : Service ℕ
service = start_service (new prefix (with_state initial))

abbrev response : Input Bytes Bytes
response = listed (ok tt) (ok (record { header = some 9; kvs = before })) false 50

-- A configuration that is refused.
abbrev refused : Service ℕ
refused = step decode refuse valid same text response service

-- A shutdown falls into the submission: the step fails, and the target has changed.
interrupted_submission :
    let t =
      step decode validate valid same text
        (listed (ok tt) (ok (record { header = some 9; kvs = before })) true 50)
        service in
    (is_delay t.phase ≡ true)
    × (Relist.map_stored t.sync.graph.target ≡ some (graph_of "x" 3 9))
    × (t.sync.graph.lifecycle ≡ stopped)
unfolding program replace_all
interrupted_submission = (refl, refl, refl)

step-Failed_example : Failed service.sync (step decode refuse valid same text response service).sync
unfolding program replace_all
step-Failed_example = Recovery.step-Failed decode refuse valid same text response service refl refl

relisted_example :
    let t =
      step decode validate valid same text response
        (step decode validate valid same text slept refused) in
    (t.phase ≡ opening)
    × (t.sync.revision ≡ 9)
    × (Relist.map_stored t.sync.graph.target ≡ some (graph_of "x" 3 9))
    × (t.sync.graph.status.connected ≡ true)
unfolding program replace_all
relisted_example =
    Relist.relisted decode validate valid same text refused before 9 50 (graph_of "x" 3 9) 9 refl
      refl refl refl refl

Reached-HasClient_example :
    HasClient refused.sync × ((refused.phase ≢ Loop.watching) ⊎ (refused.sync.client ≡ true))
unfolding program
Reached-HasClient_example =
    Client.Reached-HasClient decode refuse valid same text refused
      (moved response service (started prefix (with_state initial) refl))
