-- ===== src/Control/Config.antt =====
-- The resources of config/resources.rs and the set of them that the control plane compiles. An
-- upstream is its id and the rest of its fields as their text; a JSON value is its text. A priority
-- of a route is a `u32`.
use pingsix.Prelude.{
  ℕ, Bool, Option, none, some, List, [], ◌∷◌, String, Bytes, Bytes-discrete, Eq, ℕ_discrete,
}
use pingsix.Prelude.Dict.{Dict}

abbrev pub JsonValue : Type 0
JsonValue = Bytes

pub record Upstream : Type 0 where
  pub id : Bytes
  pub rest : Bytes

pub record Timeout : Type 0 where
  pub connect : ℕ
  pub send : ℕ
  pub read : ℕ

pub record Route : Type 0 where
  pub id : Bytes
  pub name : Option Bytes
  pub uri : Option Bytes
  pub uris : List Bytes
  pub methods : List Bytes
  pub host : Option Bytes
  pub hosts : List Bytes
  pub priority : ℕ
  pub plugins : Dict Bytes JsonValue
  pub upstream : Option Upstream
  pub upstream_id : Option Bytes
  pub service_id : Option Bytes
  pub timeout : Option Timeout
  pub enable_websocket : Bool

pub record Service : Type 0 where
  pub id : Bytes
  pub name : Option Bytes
  pub plugins : Dict Bytes JsonValue
  pub upstream : Option Upstream
  pub upstream_id : Option Bytes
  pub hosts : List Bytes

pub record GlobalRule : Type 0 where
  pub id : Bytes
  pub plugins : Dict Bytes JsonValue

pub record Ssl : Type 0 where
  pub id : Bytes
  pub cert : Bytes
  pub key : Bytes
  pub snis : List Bytes

unfoldable pub Upstream-discrete : Discrete Upstream
Upstream-discrete = hlevel Bytes-discrete

unfoldable pub Route-discrete : Discrete Route
Route-discrete = hlevel (Bytes-discrete, ℕ_discrete)

unfoldable pub Service-discrete : Discrete Service
Service-discrete = hlevel Bytes-discrete

unfoldable pub GlobalRule-discrete : Discrete GlobalRule
GlobalRule-discrete = hlevel Bytes-discrete

unfoldable pub Ssl-discrete : Discrete Ssl
Ssl-discrete = hlevel Bytes-discrete

instance abbrev pub upstream_eq : Eq Upstream
upstream_eq = record { dec = Upstream-discrete }

instance abbrev pub route_eq : Eq Route
route_eq = record { dec = Route-discrete }

instance abbrev pub service_eq : Eq Service
service_eq = record { dec = Service-discrete }

instance abbrev pub rule_eq : Eq GlobalRule
rule_eq = record { dec = GlobalRule-discrete }

instance abbrev pub ssl_eq : Eq Ssl
ssl_eq = record { dec = Ssl-discrete }

-- `get_hosts` and `get_uris`
unfoldable pub get_hosts : Route → List Bytes
get_hosts r = elim r.host [ none ↦ r.hosts | some host ↦ host ∷ [] ]

unfoldable pub get_uris : Route → List Bytes
get_uris r = elim r.uri [ none ↦ r.uris | some uri ↦ uri ∷ [] ]

pub record ResourceConfigSet : Type 0 where
  pub upstreams : Dict Bytes Upstream
  pub services : Dict Bytes Service
  pub global_rules : Dict Bytes GlobalRule
  pub routes : Dict Bytes Route
  pub ssls : Dict Bytes Ssl

-- The scope that owns an upstream which a plugin declares.
pub data TrafficSplitOwner : Type 0 where
  route_owner service_owner global_rule_owner : Bytes → TrafficSplitOwner

pub data UpstreamOccurrence : Type 0 where
  named : Bytes → UpstreamOccurrence
  route_inline : Bytes → UpstreamOccurrence
  service_inline : Bytes → UpstreamOccurrence
  traffic_split : TrafficSplitOwner → ℕ → ℕ → UpstreamOccurrence
  ai_proxy : TrafficSplitOwner → UpstreamOccurrence

unfoldable pub Owner-discrete : Discrete TrafficSplitOwner
Owner-discrete = hlevel Bytes-discrete

unfoldable pub Occurrence-discrete : Discrete UpstreamOccurrence
Occurrence-discrete = hlevel (Bytes-discrete, Owner-discrete, ℕ_discrete)

instance abbrev pub occurrence_eq : Eq UpstreamOccurrence
occurrence_eq = record { dec = Occurrence-discrete }

-- `ProxyError`, by the messages that the control plane gives; the text is that of the error below.
pub data ControlError : Type 0 where
  invalid_resource : String → Bytes → String → ControlError
  missing_service : Bytes → Bytes → ControlError
  missing_upstream : TrafficSplitOwner → Bytes → ControlError
  plugin_missing_upstream : TrafficSplitOwner → Bytes → Bytes → ControlError
  not_prepared : UpstreamOccurrence → ControlError
  upstream_failed : UpstreamOccurrence → String → ControlError
  plugin_failed : TrafficSplitOwner → Bytes → ControlError → ControlError
  unknown_plugin : Bytes → ControlError
  id_required : String → ControlError
  duplicate_id : String → Bytes → ControlError
  other : String → ControlError
