-- ===== src/Control/Coherent.antt =====
-- A compiled snapshot is coherent where each object is what its own configuration compiles to,
-- against the upstreams and services of the snapshot itself; and it is that of a configuration where
-- it has its entries and no others (plan.rs, compile.rs).
use pingsix.Prelude.{
  ℕ, ◌≡◌, ◌≢◌, refl, sym, ap, ◌∙◌, Option, none, some, [], Bytes, bytes_eq, arith,
}
use pingsix.Prelude.Dict.{Dict, lookup}
use pingsix.Graph.{ok}
use pingsix.Control.Config.{
  Upstream, Route, Service, GlobalRule, Ssl, ResourceConfigSet, named, route_inline, service_inline,
  route_owner, service_owner, not_prepared, occurrence_eq, upstream_eq, service_eq, rule_eq,
  route_eq, ssl_eq,
}
use pingsix.Control.Registry.{ProxyUpstream, PreparedUpstreams, Gateway, with_id, build_upstream}
use pingsix.Control.Compiled.{
  ProxyService, ProxyGlobalRule, ProxyRoute, ProxySsl, required, build_service, build_global_rule,
  build_route, build_ssl, bound_service, build_inline, resolve, build_plugins, service_upstream,
  assemble_route,
}
use pingsix.Control.Plan.{Snapshot}
use pingsix.Control.Snapshot.{build_named}
use pingsix.Control.Sections.{map_err-ok, through, ok_inj}

abbrev pub config_of : {A B : Type 0} → (B → A) → Option B → Option A
config_of inner none = none
config_of inner (some b) = some (inner b)

-- The snapshot has the resources of the configuration, and no others.
pub record IsOf (config : ResourceConfigSet) (t : Snapshot) : Type 0 where
  pub upstreams :
      (id : Bytes)
      → config_of (λ (e : ProxyUpstream). e.inner) (lookup id t.upstreams)
        ≡ lookup id config.upstreams
  pub services :
      (id : Bytes)
      → config_of (λ (e : ProxyService). e.inner) (lookup id t.services) ≡ lookup id config.services
  pub global_rules :
      (id : Bytes)
      → config_of (λ (e : ProxyGlobalRule). e.inner) (lookup id t.global_rules)
        ≡ lookup id config.global_rules
  pub routes :
      (id : Bytes)
      → config_of (λ (e : ProxyRoute). e.inner) (lookup id t.routes) ≡ lookup id config.routes
  pub ssls :
      (id : Bytes)
      → config_of (λ (e : ProxySsl). e.inner) (lookup id t.ssls) ≡ lookup id config.ssls

-- The entries of a section, from what is known of the objects and of their absence.
pub entries :
    {A B : Type 0} (inner : B → A) (entry : Option A) (found : Option B)
    → (found ≡ none → entry ≡ none)
    → ((b : B) → found ≡ some b → (a : A) × (entry ≡ some a) × (inner b ≡ a))
    → config_of inner found ≡ entry
entries inner entry none absent present = sym (absent refl)
entries inner entry (some b) absent present =
    let (a, listed, same) = present b refl in ap some same ∙ sym listed

module _ (g : Gateway) where
  abbrev pub IsUpstream : ProxyUpstream → Type 0
  IsUpstream p = (m : ℕ) × (build_upstream g p.inner m ≡ ok p)

  abbrev pub IsService : Snapshot → ProxyService → Type 0
  IsService t s =
      (prepared : PreparedUpstreams) × (build_service g s.inner t.upstreams prepared ≡ ok s)

  abbrev pub IsGlobalRule : Snapshot → ProxyGlobalRule → Type 0
  IsGlobalRule t r =
      (prepared : PreparedUpstreams) × (build_global_rule g r.inner t.upstreams prepared ≡ ok r)

  abbrev pub IsRoute : Snapshot → ProxyRoute → Type 0
  IsRoute t r =
      (prepared : PreparedUpstreams) × (build_route g r.inner t.upstreams t.services prepared
        ≡ ok r)

  pub record IsCoherent (t : Snapshot) : Type 0 where
    pub upstreams : (id : Bytes) (p : ProxyUpstream) → lookup id t.upstreams ≡ some p → IsUpstream p
    pub services : (id : Bytes) (s : ProxyService) → lookup id t.services ≡ some s → IsService t s
    pub global_rules :
        (id : Bytes) (r : ProxyGlobalRule) → lookup id t.global_rules ≡ some r → IsGlobalRule t r
    pub routes : (id : Bytes) (r : ProxyRoute) → lookup id t.routes ≡ some r → IsRoute t r
    pub ssls : (id : Bytes) (l : ProxySsl) → lookup id t.ssls ≡ some l → build_ssl g l.inner ≡ ok l

  -- An upstream that was given an id keeps it.
  with_id_again : (u : Upstream) (m : ℕ) → with_id g (with_id g u m) m ≡ with_id g u m
  unfolding with_id
  with_id_again u m = ground arith

  build_upstream_again :
      (u : Upstream) (m : ℕ) (p : ProxyUpstream)
      → build_upstream g u m ≡ ok p
      → build_upstream g p.inner m ≡ ok p
  unfolding build_upstream
  build_upstream_again u m p h =
      through (g.from_prepared (with_id g u m) m) _ h
        λ lb built last. rw (sym (ok_inj last)) (rw (with_id_again u m, built) refl)

  -- `build` of a named upstream gives one.
  pub build_named-IsUpstream :
      (prepared : PreparedUpstreams) (id : Bytes) (u : Upstream) (p : ProxyUpstream)
      → build_named g prepared id u ≡ ok p
      → IsUpstream p
  unfolding build_named
  build_named-IsUpstream prepared id u p h =
      through (required (not_prepared (named id)) (lookup (named id) prepared)) _ h
        λ m _ rest. (m, build_upstream_again u m p (map_err-ok _ (build_upstream g u m) rest))

  pub build_named-inner :
      (prepared : PreparedUpstreams) (id : Bytes) (u : Upstream) (p : ProxyUpstream)
      → u.id ≢ []
      → build_named g prepared id u ≡ ok p
      → p.inner ≡ u
  unfolding build_named build_upstream with_id
  build_named-inner prepared id u p given h =
      through (required (not_prepared (named id)) (lookup (named id) prepared)) _ h λ m _ rest.
        through (g.from_prepared (with_id g u m) m) _ (map_err-ok _ (build_upstream g u m) rest)
          λ lb _ last. ap (λ (x : ProxyUpstream). x.inner) (sym (ok_inj last)) ∙ ground arith

  -- A constructor keeps the configuration that it is given.
  pub build_service-inner :
      (c : Service) (us : Dict Bytes ProxyUpstream) (prepared : PreparedUpstreams)
      (s : ProxyService)
      → build_service g c us prepared ≡ ok s
      → s.inner ≡ c
  unfolding build_service
  build_service-inner c us prepared s h =
      through (build_inline g (service_inline c.id) c.upstream prepared) _ h λ inline _ h₁.
        through (resolve g (service_owner c.id) inline c.upstream_id none us) _ h₁ λ _ _ h₂.
          through (build_plugins g _ c.plugins) _ h₂
            λ _ _ last. ap (λ (x : ProxyService). x.inner) (sym (ok_inj last))

  pub build_global_rule-inner :
      (c : GlobalRule) (us : Dict Bytes ProxyUpstream) (prepared : PreparedUpstreams)
      (r : ProxyGlobalRule)
      → build_global_rule g c us prepared ≡ ok r
      → r.inner ≡ c
  unfolding build_global_rule
  build_global_rule-inner c us prepared r h =
      through (build_plugins g _ c.plugins) _ h
        λ _ _ last. ap (λ (x : ProxyGlobalRule). x.inner) (sym (ok_inj last))

  pub build_route-inner :
      (c : Route) (us : Dict Bytes ProxyUpstream) (ss : Dict Bytes ProxyService)
      (prepared : PreparedUpstreams) (r : ProxyRoute)
      → build_route g c us ss prepared ≡ ok r
      → r.inner ≡ c
  unfolding build_route assemble_route
  build_route-inner c us ss prepared r h = through (bound_service g c ss) _ h λ service _ h₀.
      through (build_inline g (route_inline c.id) c.upstream prepared) _ h₀ λ inline _ h₁.
        through (resolve g (route_owner c.id) inline c.upstream_id (service_upstream service) us) _
          h₁
          λ _ _ h₂.
            through (build_plugins g _ c.plugins) _ h₂
              λ _ _ last. ap (λ (x : ProxyRoute). x.inner) (sym (ok_inj last))

  pub build_ssl-inner : (c : Ssl) (l : ProxySsl) → build_ssl g c ≡ ok l → l.inner ≡ c
  unfolding build_ssl
  build_ssl-inner c l h =
      through (g.parse_certificate c) _ h
        λ _ _ last. ap (λ (x : ProxySsl). x.inner) (sym (ok_inj last))
