-- ===== src/Control/Validate.antt =====
-- Validation of a resource and of the whole set (config/resources.rs and control_plane/resources.rs).
-- The validator of an upstream's fields is the gateway's; a global rule has no field to validate.
use pingsix.Prelude.{
  ℕ, Bool, not, ◌&&◌, Option, none, some, List, [], ◌∷◌, ◌++◌, if◌then◌else◌, String, Bytes,
  bytes_eq, leb, is_some, is_none, is_nil,
}
use pingsix.Prelude.Dict.{Dict, contains_key}
use pingsix.Graph.{Result, ok, err, ◌>>=◌, map_err}
use pingsix.Control.Config.{
  JsonValue, Upstream, Timeout, Route, Service, GlobalRule, Ssl, ResourceConfigSet,
  TrafficSplitOwner, route_owner, service_owner, global_rule_owner, ControlError, invalid_resource,
  missing_service, missing_upstream, plugin_missing_upstream,
}
use pingsix.Control.Registry.{Gateway, validate_plugin_config, plugin_upstream_refs}

-- `for x in xs { f(x)?; }`
unfoldable pub try_each {ℓ} :
    {A : Type ℓ} → (A → Result ControlError (Unit {0})) → List A → Result ControlError (Unit {0})
try_each f [] = ok tt
try_each f (x ∷ xs) = f x >>= λ _. try_each f xs

abbrev pub in_range : ℕ → Bool
in_range n = leb 1 n && leb n 86400

abbrev pub guard : Bool → String → Result String (Unit {0})
guard b code = if b then ok tt else err code

unfoldable pub validate_timeout : Timeout → Result String (Unit {0})
validate_timeout t = guard (in_range t.connect && in_range t.send && in_range t.read) "range"

-- `Route::validate`
unfoldable pub validate_route_schema : Route → Result String (Unit {0})
validate_route_schema r =
    guard (not (is_none r.uri && is_nil r.uris)) "uri_or_uris_required" >>= λ _.
    guard (not (is_some r.uri && not (is_nil r.uris))) "uri_and_uris_mutually_exclusive" >>= λ _.
    guard (not (is_some r.host && not (is_nil r.hosts))) "host_and_hosts_mutually_exclusive"
    >>= λ _.
        guard (not (is_none r.upstream_id && is_none r.service_id && is_none r.upstream))
          "upstream_or_service_required"
        >>= λ _.
            guard (not (is_some r.upstream && is_some r.upstream_id))
              "upstream_and_upstream_id_mutually_exclusive"

-- `Service::validate_upstream`
unfoldable pub validate_service : Service → Result String (Unit {0})
validate_service s =
    guard (not (is_none s.upstream_id && is_none s.upstream)) "upstream_required" >>= λ _.
    guard (not (is_some s.upstream && is_some s.upstream_id))
      "upstream_and_upstream_id_mutually_exclusive"

unfoldable pub validate_ssl : Ssl → Result String (Unit {0})
validate_ssl s = guard (not (is_nil s.snis)) "length"

module _ (g : Gateway) where
  -- The fields that are validated with the route, and then its schema.
  unfoldable pub validate_route : Route → Result String (Unit {0})
  unfolding validate_route_schema validate_timeout
  validate_route r =
      elim r.upstream [ none ↦ ok tt | some upstream ↦ g.validate_upstream upstream ] >>= λ _.
      elim r.timeout [ none ↦ ok tt | some timeout ↦ validate_timeout timeout ] >>= λ _.
      validate_route_schema r

  -- One plugin that `validate_plugin_upstream_refs` visits
  unfoldable pub validate_plugin_ref :
      TrafficSplitOwner → Dict Bytes Upstream → Bytes × JsonValue → Result ControlError (Unit {0})
  unfolding try_each validate_plugin_config plugin_upstream_refs contains_key
  validate_plugin_ref owner upstreams (name, value) = validate_plugin_config g name value >>= λ _.
      plugin_upstream_refs g name value
      >>= try_each λ (id : Bytes).
        if contains_key id upstreams then ok tt else err (plugin_missing_upstream owner name id)

  unfoldable pub validate_plugin_upstream_refs :
      TrafficSplitOwner
      → Dict Bytes JsonValue
      → Dict Bytes Upstream
      → Result ControlError (Unit {0})
  unfolding try_each validate_plugin_ref
  validate_plugin_upstream_refs owner plugins upstreams =
      try_each (validate_plugin_ref owner upstreams) plugins

  unfoldable pub plugin_upstream_deps : Dict Bytes JsonValue → Result ControlError (List Bytes)
  unfolding plugin_upstream_refs
  plugin_upstream_deps [] = ok []
  plugin_upstream_deps ((name, cfg) ∷ plugins) = plugin_upstream_refs g name cfg >>= λ refs.
      plugin_upstream_deps plugins >>= λ rest. ok (refs ++ rest)

  -- The two `if let Some(id) = &….upstream_id { deps.insert(id.clone()); }`
  abbrev pub with_direct : Option Bytes → List Bytes → List Bytes
  with_direct none deps = deps
  with_direct (some id) deps = id ∷ deps

  unfoldable pub scope_upstream_deps : Service → Result ControlError (List Bytes)
  unfolding plugin_upstream_deps
  scope_upstream_deps s =
      plugin_upstream_deps s.plugins >>= λ deps. ok (with_direct s.upstream_id deps)

  unfoldable pub scope_upstream_deps_rule : Route → Result ControlError (List Bytes)
  unfolding plugin_upstream_deps
  scope_upstream_deps_rule r =
      plugin_upstream_deps r.plugins >>= λ deps. ok (with_direct r.upstream_id deps)

  -- The reference checks of one route and of one service
  abbrev pub check_direct :
      TrafficSplitOwner
      → Option Upstream
      → Option Bytes
      → Dict Bytes Upstream
      → Result ControlError (Unit {0})
  check_direct owner (some _) id upstreams = ok tt
  check_direct owner none none upstreams = ok tt
  check_direct owner none (some id) upstreams =
      if contains_key id upstreams then ok tt else err (missing_upstream owner id)

  abbrev pub check_service :
      Bytes → Option Bytes → Dict Bytes Service → Result ControlError (Unit {0})
  check_service route none services = ok tt
  check_service route (some id) services =
      if contains_key id services then ok tt else err (missing_service route id)

  unfoldable pub check_route_refs :
      ResourceConfigSet → Bytes × Route → Result ControlError (Unit {0})
  unfolding validate_plugin_upstream_refs contains_key
  check_route_refs set (_, r) = check_service r.id r.service_id set.services >>= λ _.
      check_direct (route_owner r.id) r.upstream r.upstream_id set.upstreams >>= λ _.
      validate_plugin_upstream_refs (route_owner r.id) r.plugins set.upstreams

  unfoldable pub check_service_refs :
      ResourceConfigSet → Bytes × Service → Result ControlError (Unit {0})
  unfolding validate_plugin_upstream_refs contains_key
  check_service_refs set (_, s) =
      check_direct (service_owner s.id) s.upstream s.upstream_id set.upstreams >>= λ _.
      validate_plugin_upstream_refs (service_owner s.id) s.plugins set.upstreams

  unfoldable pub check_rule_refs :
      ResourceConfigSet → Bytes × GlobalRule → Result ControlError (Unit {0})
  unfolding validate_plugin_upstream_refs
  check_rule_refs set (_, rule) =
      validate_plugin_upstream_refs (global_rule_owner rule.id) rule.plugins set.upstreams

  -- The passes over the resources, each by itself
  unfoldable pub validate_resources : ResourceConfigSet → Result ControlError (Unit {0})
  unfolding try_each validate_route validate_service validate_ssl
  validate_resources set =
      try_each
        (λ (e : Bytes × Upstream).
          map_err (invalid_resource "Upstream" e.1.id) (g.validate_upstream e.1))
        set.upstreams
      >>= λ _.
          try_each
            (λ (e : Bytes × Service).
              map_err (invalid_resource "Service" e.1.id) (validate_service e.1))
            set.services
          >>= λ _.
              try_each
                (λ (e : Bytes × Route).
                  map_err (invalid_resource "Route" e.1.id) (validate_route e.1))
                set.routes
              >>= λ _.
                  try_each
                    (λ (e : Bytes × Ssl).
                      map_err (invalid_resource "SSL" e.1.id) (validate_ssl e.1))
                    set.ssls

  -- The passes over the references between them
  unfoldable pub validate_references : ResourceConfigSet → Result ControlError (Unit {0})
  unfolding try_each check_route_refs check_service_refs check_rule_refs
  validate_references set = try_each (check_route_refs set) set.routes >>= λ _.
      try_each (check_service_refs set) set.services >>= λ _.
      try_each (check_rule_refs set) set.global_rules

  unfoldable pub validate_config_set : ResourceConfigSet → Result ControlError (Unit {0})
  unfolding validate_resources validate_references
  validate_config_set set = validate_resources set >>= λ _. validate_references set
