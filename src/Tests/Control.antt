-- ===== src/Tests/Control.antt =====
-- A service, a route with a `traffic-split` plugin, and a second candidate that adds an upstream.
use pingsix.Prelude.{
  ℕ, ◌+◌, map, ◌≢◌, ◌≡◌, refl, ◌<◌, ◌-◌, ◌^◌, false, none, some, List, [], ◌∷◌, Bytes,
  Bytes-discrete, bytes_eq, codes, ℕ_discrete, arith, All, Option,
}
use pingsix.Prelude.Dict.{Dict, lookup, lookup-All, NodupKeys}
use pingsix.Graph.{Result, ok, err}
use pingsix.Control.Config.{
  Upstream, Route, Service, ResourceConfigSet, Upstream-discrete, Route-discrete, Service-discrete,
  GlobalRule-discrete, Ssl-discrete, UpstreamOccurrence, named, Owner-discrete, Occurrence-discrete,
  ControlError, duplicate_id, plugin_failed, other, route_owner, service_owner,
}
use pingsix.Control.Registry.{
  Gateway, PluginMeta, PluginEntry, ProxyPlugin, ProxyUpstream, plain, plain_state, split_state,
  PreparedUpstreams, PluginBuildContext, CompiledRule, upstream_target, pass_through,
  WeightedTarget,
}
use pingsix.Control.TrafficSplit.{
  MatchRule, Readings, pick_target, pick_upstream, create_traffic_split,
  validate_traffic_split_config,
}
use pingsix.Control.SplitLocal
use pingsix.Control.SplitLocal.{traffic_split_meta, traffic_split_meta-IsLocal}
use pingsix.Control.Validate.{validate_config_set}
use pingsix.Control.Plan.{Snapshot, Plan, prepare_candidate, build_plan}
use pingsix.Control.Snapshot.{build_prepared}
use pingsix.Control.Compiled.{ProxyRoute, bound_service, ProxyService}
use pingsix.Control.Locality.{IsLocal}
use pingsix.Control.Passes.{IsKeyed}
use pingsix.Control.Failures.{is_dangling}
use pingsix.Control.Coherent.{IsCoherent, IsOf}
use pingsix.Control.Refined
use pingsix.Control.Refined.{Reached, start, publish, empty_snapshot}
use pingsix.Control.Executors
use pingsix.Control.Executors.{IsExecutor, service_plugins}
use pingsix.Control.Compiles
use pingsix.Control.Bootstrap
use pingsix.Control.Bootstrap.{AreCollected}
use pingsix.Control.Bootstrap.{from_yaml_sections}
use pingsix.Control.Weights

unfoldable program : Unit {0}
unfolding build_prepared prepare_candidate empty_snapshot traffic_split_meta Bytes-discrete
    ℕ_discrete Occurrence-discrete Owner-discrete Upstream-discrete Route-discrete Service-discrete
    GlobalRule-discrete Ssl-discrete pick_upstream
program = tt

abbrev rules : List MatchRule
rules =
    record {
      vars = [];
      weighted_upstreams =
          record { upstream_id = some (codes "u"); upstream = none; weight = 3 }
          ∷ record { upstream_id = none; upstream = none; weight = 1 }
          ∷ [];
    }
    ∷ []

abbrev readings : Readings
readings = record { deserialize = λ _. ok rules; validate = λ _. ok tt; raw = λ _. some [] }

-- What passes the validation of the Admin API, and what does not.
validated : validate_traffic_split_config readings [] ≡ ok tt
unfolding program validate_traffic_split_config
validated = refl

no_rules :
    validate_traffic_split_config (record readings { deserialize = λ _. ok [] }) []
    ≡ err (other "Traffic-split plugin requires at least one rule")
unfolding program validate_traffic_split_config
no_rules = refl

abbrev bare : Gateway
bare = record {
  plugin_metas = [];
  validate_upstream = λ _. ok tt;
  prepare_upstream = λ _. ok 7;
  from_prepared = λ _ m. ok m;
  new_uuid = λ _. [];
  parse_certificate = λ _. ok 1;
  hash_namespace = λ _ _. 0;
}

abbrev plain_meta : Bytes → ℕ → PluginMeta
plain_meta name priority = record {
  name = name;
  phases = 2;
  factory = plain (λ _. ok (record { name = name; priority = priority; state = plain_state 0 }));
  validate = λ _. ok tt;
  upstream_refs = none;
  upstream_jobs = none;
}

abbrev gateway : Gateway
gateway = record bare {
  plugin_metas =
      traffic_split_meta bare readings
      ∷ plain_meta (codes "cors") (2 ^ 31 + 4000)
      ∷ plain_meta (codes "echo") (2 ^ 31 + 412)
      ∷ [];
}

gateway_locals : All IsLocal gateway.plugin_metas
unfolding IsLocal
gateway_locals = (
  traffic_split_meta-IsLocal bare readings,
  ((λ cfg ids context vs h agree. refl), ((λ cfg ids context vs h agree. refl), tt)),
)

abbrev upstream : Bytes → Upstream
upstream id = record { id = id; rest = [] }

abbrev service : Service
service = record {
  id = codes "s";
  name = none;
  plugins = (codes "echo", []) ∷ (codes "cors", []) ∷ [];
  upstream = none;
  upstream_id = some (codes "u");
  hosts = codes "a.b" ∷ [];
}

abbrev route : Route
route = record {
  id = codes "r";
  name = none;
  uri = some (codes "/");
  uris = [];
  methods = [];
  host = none;
  hosts = [];
  priority = 0;
  plugins = (codes "echo", []) ∷ (codes "traffic-split", []) ∷ [];
  upstream = some (upstream []);
  upstream_id = none;
  service_id = some (codes "s");
  timeout = none;
  enable_websocket = false;
}

abbrev config : Dict Bytes Upstream → ResourceConfigSet
config upstreams = record {
  upstreams = upstreams;
  services = (codes "s", service) ∷ [];
  global_rules = [];
  routes = (codes "r", route) ∷ [];
  ssls = [];
}

abbrev first : ResourceConfigSet
first = config ((codes "u", upstream (codes "u")) ∷ [])

abbrev second : ResourceConfigSet
second = config ((codes "v", upstream (codes "v")) ∷ (codes "u", upstream (codes "u")) ∷ [])

abbrev value_of : {A : Type 0} → A → Result ControlError A → A
value_of d (ok a) = a
value_of d (err e) = d

abbrev no_plan : Plan
no_plan = record {
  reused_upstreams = [];
  reused_services = [];
  reused_global_rules = [];
  reused_routes = [];
  reused_ssls = [];
  jobs = [];
}

abbrev candidate : ResourceConfigSet → Snapshot → Plan × PreparedUpstreams
candidate c t = value_of (no_plan, []) (prepare_candidate gateway c t)

abbrev compiled : ResourceConfigSet → Snapshot → Snapshot
compiled c t =
    value_of empty_snapshot (build_prepared gateway c (candidate c t).0 (candidate c t).1)

abbrev published : Snapshot
published = compiled first empty_snapshot

abbrev republished : Snapshot
republished = compiled second published

prepared_first :
    prepare_candidate gateway first empty_snapshot ≡ ok (candidate first empty_snapshot)
unfolding program
prepared_first = refl

prepared_second : prepare_candidate gateway second published ≡ ok (candidate second published)
unfolding program
prepared_second = refl

-- Only the new upstream is prepared.
second_jobs :
    map (λ (j : UpstreamOccurrence × Upstream). j.0) (candidate second published).0.jobs
    ≡ named (codes "v") ∷ []
unfolding program
second_jobs = refl

-- The route and the service of the second snapshot are those of the first.
reused_route : lookup (codes "r") republished.routes ≡ lookup (codes "r") published.routes
unfolding program
reused_route = refl

built_first :
    build_prepared gateway first
      (candidate first empty_snapshot).0
      (candidate first empty_snapshot).1
    ≡ ok published
unfolding program
built_first = refl

built_second :
    build_prepared gateway second (candidate second published).0 (candidate second published).1
    ≡ ok republished
unfolding program
built_second = refl

config-IsKeyed :
    (us : Dict Bytes Upstream)
    → NodupKeys us
    → All (λ (e : Bytes × Upstream). e.1.id ≢ []) us
    → IsKeyed (config us)
unfolding lookup
config-IsKeyed us unique ids = record {
  upstreams = unique;
  services = (refl, tt);
  global_rules = tt;
  routes = (refl, tt);
  ssls = tt;
  named = λ id u h. lookup-All (λ (e : Bytes × Upstream). e.1.id ≢ []) us id u ids h;
  service_ids = λ id s h.
      lookup-All (λ (e : Bytes × Service). e.1.id ≡ e.0) ((codes "s", service) ∷ []) id s (refl, tt)
        h;
  route_ids = λ id r h.
      lookup-All (λ (e : Bytes × Route). e.1.id ≡ e.0) ((codes "r", route) ∷ []) id r (refl, tt) h;
}

first-IsKeyed : IsKeyed first
unfolding lookup
first-IsKeyed =
    config-IsKeyed ((codes "u", upstream (codes "u")) ∷ []) (refl, tt) ((λ h. absurd (cc)), tt)

second-IsKeyed : IsKeyed second
unfolding program
second-IsKeyed =
    config-IsKeyed ((codes "v", upstream (codes "v")) ∷ (codes "u", upstream (codes "u")) ∷ [])
      (refl, (refl, tt)) ((λ h. absurd cc), ((λ h. absurd cc), tt))

reached_first : Reached gateway published
reached_first =
    publish empty_snapshot first (candidate first empty_snapshot).0
      (candidate first empty_snapshot).1 published start first-IsKeyed prepared_first built_first

reached_second : Reached gateway republished
reached_second =
    publish published second (candidate second published).0 (candidate second published).1
      republished reached_first second-IsKeyed prepared_second built_second

planned_second : build_plan gateway published second ≡ ok (candidate second published).0
unfolding program
planned_second = refl

build_prepared-IsCoherent_example : IsCoherent gateway republished × IsOf second republished
build_prepared-IsCoherent_example =
    Refined.build_prepared-IsCoherent gateway published second (candidate second published).0
      (candidate second published).1 republished gateway_locals second-IsKeyed
      (Refined.Reached-IsCoherent gateway published gateway_locals reached_first) planned_second
      built_second

Reached-IsCoherent_example : IsCoherent gateway republished
Reached-IsCoherent_example =
    Refined.Reached-IsCoherent gateway republished gateway_locals reached_second

abbrev no_route : ProxyRoute
no_route = record {
  inner = route;
  plugins = [];
  resolved_upstream = none;
  effective_hosts = [];
  service_name = none;
  plugin_executor = [];
  inline_upstream = none;
  cache_namespace_fingerprint = 0;
  serves_preflight = false;
}

abbrev get_or : {A : Type 0} → A → Option A → A
get_or d none = d
get_or d (some a) = a

abbrev the_route : ProxyRoute
the_route = get_or no_route (lookup (codes "r") republished.routes)

found_route : lookup (codes "r") republished.routes ≡ some the_route
unfolding program
found_route = refl

Reached-IsExecutor_example :
    (service : Option ProxyService) × (bound_service gateway the_route.inner republished.services
      ≡ ok service)
    × IsExecutor the_route.plugin_executor the_route.plugins (service_plugins service)
Reached-IsExecutor_example =
    Executors.Reached-IsExecutor gateway republished (codes "r") the_route gateway_locals
      reached_second found_route

-- The service's `cors` comes first, and its `echo` gives way to the route's.
executor_names :
    map (λ (e : PluginEntry). e.plugin.name) the_route.plugin_executor
    ≡ codes "cors" ∷ codes "traffic-split" ∷ codes "echo" ∷ []
unfolding program
executor_names = refl

-- The factory of `echo` fails.
abbrev broken : Gateway
broken = record bare {
  plugin_metas =
      traffic_split_meta bare readings
      ∷ plain_meta (codes "cors") (2 ^ 31 + 4000)
      ∷ record (plain_meta (codes "echo") 0) { factory = plain (λ _. err (other "no body")) }
      ∷ [];
}

abbrev broken_candidate : Plan × PreparedUpstreams
broken_candidate = value_of (no_plan, []) (prepare_candidate broken first empty_snapshot)

valid_first : validate_config_set broken first ≡ ok tt
unfolding program
valid_first = refl

prepared_broken : prepare_candidate broken first empty_snapshot ≡ ok broken_candidate
unfolding program
prepared_broken = refl

abbrev failure : ControlError
failure = plugin_failed (service_owner (codes "s")) (codes "echo") (other "no body")

failed_first : build_prepared broken first broken_candidate.0 broken_candidate.1 ≡ err failure
unfolding program
failed_first = refl

build_prepared-reports_example : is_dangling failure ≡ false
build_prepared-reports_example =
    Compiles.build_prepared-reports broken empty_snapshot first broken_candidate.0
      broken_candidate.1 failure first-IsKeyed (λ c e h. absurd (ground arith)) valid_first
      prepared_broken failed_first

abbrev context : PluginBuildContext
context = record {
  upstreams = (codes "u", record { inner = upstream (codes "u"); allocation = 7 }) ∷ [];
  prepared = [];
  owner = route_owner (codes "r");
}

abbrev targets : List (ℕ × WeightedTarget)
targets =
    (3, upstream_target (record { inner = upstream (codes "u"); allocation = 7 }))
    ∷ (1, pass_through)
    ∷ []

abbrev split_rules : List CompiledRule
split_rules = record { targets = targets; total_weight = 4 } ∷ []

abbrev splitter : ProxyPlugin
splitter = record {
  name = codes "traffic-split";
  priority = 2 ^ 31 + 966;
  state = split_state split_rules;
}

built_splitter : create_traffic_split bare readings [] context ≡ ok splitter
unfolding program create_traffic_split
built_splitter = refl

create_traffic_split-picks_example :
    All
      (λ r.
        (r.total_weight < 2 ^ 64)
        × ((t : WeightedTarget) × (pick_upstream (λ m. m - 1) r ≡ some t)))
      split_rules
create_traffic_split-picks_example =
    Weights.create_traffic_split-picks bare readings [] context splitter split_rules (λ m. m - 1)
      (λ m h. omega arith) built_splitter refl

pick_target-share_example : pick_target 3 targets ≡ some pass_through
pick_target-share_example =
    Weights.pick_target-share
      ((3, upstream_target (record { inner = upstream (codes "u"); allocation = 7 })) ∷ []) 1
      pass_through [] 0 (omega arith)

abbrev more_upstreams : Dict Bytes ProxyUpstream
more_upstreams =
    (codes "v", record { inner = upstream (codes "v"); allocation = 8 }) ∷ context.upstreams

create_traffic_split-local_example :
    create_traffic_split bare readings [] context
    ≡ create_traffic_split bare readings [] (record context { upstreams = more_upstreams })
unfolding program
create_traffic_split-local_example =
    SplitLocal.create_traffic_split-local bare readings [] (codes "u" ∷ []) context more_upstreams
      refl (refl, tt)

abbrev loaded : Result ControlError ResourceConfigSet
loaded =
    from_yaml_sections gateway (route ∷ []) (upstream (codes "v") ∷ upstream (codes "u") ∷ [])
      (service ∷ []) [] []

abbrev loaded_set : ResourceConfigSet
loaded_set = value_of first loaded

loaded_ok : loaded ≡ ok loaded_set
unfolding program from_yaml_sections
loaded_ok = refl

from_yaml_sections-AreCollected_example : AreCollected loaded_set
from_yaml_sections-AreCollected_example =
    Bootstrap.from_yaml_sections-AreCollected gateway (route ∷ [])
      (upstream (codes "v") ∷ upstream (codes "u") ∷ []) (service ∷ []) [] [] loaded_set loaded_ok

loaded-IsKeyed : IsKeyed loaded_set
loaded-IsKeyed = Bootstrap.AreCollected-IsKeyed loaded_set (
    Bootstrap.from_yaml_sections-AreCollected gateway (route ∷ [])
      (upstream (codes "v") ∷ upstream (codes "u") ∷ []) (service ∷ []) [] [] loaded_set loaded_ok)

-- A second upstream of one id is refused.
duplicate_refused :
    from_yaml_sections gateway [] (upstream (codes "u") ∷ upstream (codes "u") ∷ []) [] [] []
    ≡ err (duplicate_id "Upstream" (codes "u"))
unfolding program from_yaml_sections
duplicate_refused = refl
