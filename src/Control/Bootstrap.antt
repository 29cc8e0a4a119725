-- ===== src/Control/Bootstrap.antt =====
-- The set that the static YAML sections give (control_plane/resources.rs).
use pingsix.Prelude.{
  ◌≡◌, ◌≢◌, refl, sym, Bool, true, false, List, [], ◌∷◌, if◌then◌else◌, String, Bytes, bytes_eq,
  ◌==◌, ==_iff, arith, All,
}
use pingsix.Prelude.Dict.{
  Dict, insert, contains_key, NodupKeys, insert-NodupKeys, insert-All, lookup-All,
}
use pingsix.Graph.{Result, ok, err, ◌>>=◌, map_err}
use pingsix.Control.Config.{
  Upstream, Route, Service, GlobalRule, Ssl, ResourceConfigSet, ControlError, invalid_resource,
  id_required, duplicate_id,
}
use pingsix.Control.Registry.{Gateway}
use pingsix.Control.Validate.{validate_route, validate_service, validate_ssl}
use pingsix.Control.Sections.{through, ok_inj}
use pingsix.Control.Passes.{IsKeyed}

-- `collect_by_id`, from a map on: `insert` answers what it replaced.
unfoldable pub collect_by_id :
    {A : Type 0}
    → (A → Bytes)
    → (A → Result String (Unit {0}))
    → String
    → List A
    → Dict Bytes A
    → Result ControlError (Dict Bytes A)
unfolding contains_key insert
collect_by_id id_of validate label [] map = ok map
collect_by_id id_of validate label (item ∷ items) map =
    if id_of item == []
    then err (id_required label)
    else (map_err (invalid_resource label (id_of item)) (validate item) >>= λ _.
        if contains_key (id_of item) map
        then err (duplicate_id label (id_of item))
        else collect_by_id id_of validate label items (insert (id_of item) item map))

-- `ResourceConfigSet::from_yaml_sections`; a global rule has no field to validate.
unfoldable pub from_yaml_sections :
    Gateway
    → List Route
    → List Upstream
    → List Service
    → List GlobalRule
    → List Ssl
    → Result ControlError ResourceConfigSet
unfolding collect_by_id validate_route validate_service validate_ssl
from_yaml_sections g routes upstreams services global_rules ssls =
    collect_by_id (λ u. u.id) g.validate_upstream "Upstream" upstreams [] >>= λ us.
    collect_by_id (λ s. s.id) validate_service "Service" services [] >>= λ ss.
    collect_by_id (λ r. r.id) (λ _. ok tt) "GlobalRule" global_rules [] >>= λ gs.
    collect_by_id (λ r. r.id) (validate_route g) "Route" routes [] >>= λ rs.
    collect_by_id (λ l. l.id) validate_ssl "SSL" ssls [] >>= λ ls.
    ok (record { upstreams = us; services = ss; global_rules = gs; routes = rs; ssls = ls })

module _ {A : Type 0} (id_of : A → Bytes) where
  -- Each id once, and each entry under its own id, which is not empty.
  abbrev pub IsCollected : Dict Bytes A → Type 0
  IsCollected map =
      NodupKeys map × All (λ (e : Bytes × A). (id_of e.1 ≡ e.0) × (id_of e.1 ≢ [])) map

  let_through :
      {B : Type 0} (b : Bool) (x : ControlError) (r : Result ControlError B) {y : B}
      → (if b then err x else r) ≡ ok y
      → (b ≡ false) × (r ≡ ok y)
  let_through true x r h = absurd (ground arith)
  let_through false x r h = (refl, h)

  collect_by_id-IsCollected :
      (validate : A → Result String (Unit {0})) (label : String) (items : List A)
      (map out : Dict Bytes A)
      → collect_by_id id_of validate label items map ≡ ok out
      → IsCollected map
      → IsCollected out
  unfolding collect_by_id
  collect_by_id-IsCollected validate label [] map out h collected = (rw (ok_inj h) at collected)
  collect_by_id-IsCollected validate label (item ∷ items) map out h (unique, entries) =
      let (given, h₁) = let_through (id_of item == []) _ _ h in
      through (map_err (invalid_resource label (id_of item)) (validate item)) _ h₁ λ _ _ h₂.
        let (_, h₃) = let_through (contains_key (id_of item) map) _ _ h₂ in
        collect_by_id-IsCollected validate label items (insert (id_of item) item map) out h₃ (
          insert-NodupKeys (id_of item) item map unique,
          insert-All (λ (e : Bytes × A). (id_of e.1 ≡ e.0) × (id_of e.1 ≢ [])) (id_of item) item map
              (
                refl,
                λ (empty : id_of item ≡ []).
                    absurd (ground (arith, (==_iff (id_of item) []).1 empty)),
              )
              entries,
        )

-- Each section of the set has each id once, and each of its resources under its own id, which is not
-- empty.
pub record AreCollected (set : ResourceConfigSet) : Type 0 where
  pub upstreams : IsCollected (λ (u : Upstream). u.id) set.upstreams
  pub services : IsCollected (λ (s : Service). s.id) set.services
  pub global_rules : IsCollected (λ (r : GlobalRule). r.id) set.global_rules
  pub routes : IsCollected (λ (r : Route). r.id) set.routes
  pub ssls : IsCollected (λ (l : Ssl). l.id) set.ssls

-- In each of the five sections of a set that the YAML sections give, each id stands once, and each
-- resource stands under its own id, which is not empty.
pub from_yaml_sections-AreCollected :
    (g : Gateway) (routes : List Route) (upstreams : List Upstream) (services : List Service)
    (global_rules : List GlobalRule) (ssls : List Ssl) (set : ResourceConfigSet)
    → from_yaml_sections g routes upstreams services global_rules ssls ≡ ok set
    → AreCollected set
unfolding from_yaml_sections
from_yaml_sections-AreCollected g routes upstreams services global_rules ssls set h =
    through (collect_by_id (λ (u : Upstream). u.id) g.validate_upstream "Upstream" upstreams []) _ h
      λ us u h₁.
        through (collect_by_id (λ (s : Service). s.id) validate_service "Service" services []) _ h₁
          λ ss s h₂.
            through
              (collect_by_id (λ (r : GlobalRule). r.id) (λ _. ok tt) "GlobalRule" global_rules []) _
              h₂
              λ gs r h₃.
                through (collect_by_id (λ (r : Route). r.id) (validate_route g) "Route" routes []) _
                  h₃
                  λ rs t h₄.
                    through (collect_by_id (λ (l : Ssl). l.id) validate_ssl "SSL" ssls []) _ h₄
                      λ ls l last. rw (sym (ok_inj last)) (record {
                        upstreams =
                            collect_by_id-IsCollected (λ (u : Upstream). u.id) g.validate_upstream
                              "Upstream" upstreams [] us u (tt, tt);
                        services =
                            collect_by_id-IsCollected (λ (s : Service). s.id) validate_service
                              "Service" services [] ss s (tt, tt);
                        global_rules =
                            collect_by_id-IsCollected (λ (r : GlobalRule). r.id) (λ _. ok tt)
                              "GlobalRule" global_rules [] gs r (tt, tt);
                        routes =
                            collect_by_id-IsCollected (λ (r : Route). r.id) (validate_route g)
                              "Route" routes [] rs t (tt, tt);
                        ssls =
                            collect_by_id-IsCollected (λ (l : Ssl). l.id) validate_ssl "SSL" ssls []
                              ls l (tt, tt);
                      })

-- What the incremental compilation asks of a set.
pub AreCollected-IsKeyed : (set : ResourceConfigSet) → AreCollected set → IsKeyed set
AreCollected-IsKeyed set v = record {
  upstreams = v.upstreams.0;
  services = v.services.0;
  global_rules = v.global_rules.0;
  routes = v.routes.0;
  ssls = v.ssls.0;
  named = λ id u found. (lookup-All _ set.upstreams id u v.upstreams.1 found).1;
  service_ids = λ id s found. (lookup-All _ set.services id s v.services.1 found).0;
  route_ids = λ id r found. (lookup-All _ set.routes id r v.routes.1 found).0;
}
