-- ===== src/Control/Plan.antt =====
-- The plan of a candidate (plan.rs): what is reused of the compiled snapshot, and which upstreams
-- must be prepared for the rest. The snapshot is that of compile.rs; that of the runtime has the
-- same maps beside its matcher and executor.
use pingsix.Prelude.{
  Bool, true, ◌&&◌, Option, none, some, List, [], ◌∷◌, ◌++◌, if◌then◌else◌, Bytes, bytes_eq, Eq,
  ◌==◌,
}
use pingsix.Prelude.Dict.{Dict, lookup, insert, contains_key}
use pingsix.Graph.{Result, ok, ◌>>=◌}
use pingsix.Control.Config.{
  Upstream, Route, Service, GlobalRule, Ssl, ResourceConfigSet, upstream_eq, route_eq, service_eq,
  rule_eq, ssl_eq, route_owner, service_owner, global_rule_owner, UpstreamOccurrence, named,
  route_inline, service_inline, occurrence_eq, ControlError,
}
use pingsix.Control.Registry.{ProxyUpstream, PreparedUpstreams, Gateway, plugin_upstream_jobs}
use pingsix.Control.Validate.{plugin_upstream_deps, scope_upstream_deps, scope_upstream_deps_rule}
use pingsix.Control.Compiled.{ProxyService, ProxyGlobalRule, ProxyRoute, ProxySsl}

-- `CandidateSnapshot`
pub record Snapshot : Type 0 where
  pub upstreams : Dict Bytes ProxyUpstream
  pub services : Dict Bytes ProxyService
  pub global_rules : Dict Bytes ProxyGlobalRule
  pub routes : Dict Bytes ProxyRoute
  pub ssls : Dict Bytes ProxySsl

abbrev pub Job : Type 0
Job = UpstreamOccurrence × Upstream

-- `CandidatePlan`
pub record Plan : Type 0 where
  pub reused_upstreams : Dict Bytes ProxyUpstream
  pub reused_services : Dict Bytes ProxyService
  pub reused_global_rules : Dict Bytes ProxyGlobalRule
  pub reused_routes : Dict Bytes ProxyRoute
  pub reused_ssls : Dict Bytes ProxySsl
  pub jobs : List Job

pub data ResourceDecision (T : Type 0) : Type 0 where
  reuse : T → ResourceDecision T
  rebuild : ResourceDecision T

-- The typed decision on an id
unfoldable pub decision : {T : Type 0} → Bytes → Dict Bytes T → ResourceDecision T
unfolding lookup
decision id reused = elim (lookup id reused) [ none ↦ rebuild | some existing ↦ reuse existing ]

-- `if … { reused.insert(id.clone(), existing.clone()); }`
abbrev pub enter : {B : Type 0} → Bytes → Option B → Dict Bytes B → Dict Bytes B
enter id none reused = reused
enter id (some b) reused = insert id b reused

-- One pass of `build` over a section: what the test answers is entered.
unfoldable pub reuse_section :
    {A B : Type 0}
    → (Bytes → A → Result ControlError (Option B))
    → Dict Bytes A
    → Result ControlError (Dict Bytes B)
unfolding insert
reuse_section test [] = ok []
reuse_section test ((id, a) ∷ section) =
    test id a >>= λ found. reuse_section test section >>= λ rest. ok (enter id found rest)

-- The existing object, where its configuration is the candidate's. The source compares maps and JSON
-- values without regard to order; here they are lists and texts, written in one order.
unfoldable pub unchanged : {A B : Type 0} → ⦃e : Eq A⦄ → (B → A) → A → Option B → Option B
unchanged inner a none = none
unchanged inner a (some existing) = if inner existing == a then some existing else none

-- `deps.iter().all(|dep| reused_upstreams.contains_key(dep))`
unfoldable pub all_reused : List Bytes → Dict Bytes ProxyUpstream → Bool
unfolding contains_key
all_reused [] reused = true
all_reused (dep ∷ deps) reused = contains_key dep reused && all_reused deps reused

-- The dependencies are derived for an unchanged configuration only.
unfoldable pub when_reused :
    {B : Type 0}
    → Result ControlError (List Bytes)
    → Dict Bytes ProxyUpstream
    → Option B
    → Result ControlError (Option B)
unfolding all_reused
when_reused deps reused none = ok none
when_reused deps reused (some existing) =
    deps >>= λ found. ok (if all_reused found reused then some existing else none)

-- The passes over the jobs of the scopes that are rebuilt
unfoldable pub section_jobs :
    {A B : Type 0}
    → (Bytes → A → Result ControlError (List Job))
    → Dict Bytes B
    → Dict Bytes A
    → Result ControlError (List Job)
unfolding contains_key
section_jobs jobs reused [] = ok []
section_jobs jobs reused ((id, a) ∷ section) =
    (if contains_key id reused then ok [] else jobs id a) >>= λ here.
    section_jobs jobs reused section >>= λ rest. ok (here ++ rest)

abbrev pub inline_job : UpstreamOccurrence → Option Upstream → List Job
inline_job o none = []
inline_job o (some upstream) = (o, upstream) ∷ []

module _ (g : Gateway) (previous : Snapshot) where
  unfoldable pub reuse_upstream : Bytes → Upstream → Result ControlError (Option ProxyUpstream)
  unfolding unchanged lookup
  reuse_upstream id upstream = ok (unchanged (λ e. e.inner) upstream (lookup id previous.upstreams))

  unfoldable pub reuse_service :
      Dict Bytes ProxyUpstream → Bytes → Service → Result ControlError (Option ProxyService)
  unfolding unchanged when_reused lookup scope_upstream_deps
  reuse_service reused id service =
      when_reused (scope_upstream_deps g service) reused
        (unchanged (λ e. e.inner) service (lookup id previous.services))

  unfoldable pub reuse_global_rule :
      Dict Bytes ProxyUpstream → Bytes → GlobalRule → Result ControlError (Option ProxyGlobalRule)
  unfolding unchanged when_reused lookup plugin_upstream_deps
  reuse_global_rule reused id rule =
      when_reused (plugin_upstream_deps g rule.plugins) reused
        (unchanged (λ e. e.inner) rule (lookup id previous.global_rules))

  abbrev pub service_ok : Option Bytes → Dict Bytes ProxyService → Bool
  service_ok none reused = true
  service_ok (some id) reused = contains_key id reused

  unfoldable pub reuse_route :
      Dict Bytes ProxyUpstream
      → Dict Bytes ProxyService
      → Bytes
      → Route
      → Result ControlError (Option ProxyRoute)
  unfolding unchanged when_reused lookup scope_upstream_deps_rule contains_key
  reuse_route reused services id route =
      if service_ok route.service_id services
      then when_reused (scope_upstream_deps_rule g route) reused
          (unchanged (λ e. e.inner) route (lookup id previous.routes))
      else ok none

  unfoldable pub reuse_ssl : Bytes → Ssl → Result ControlError (Option ProxySsl)
  unfolding unchanged lookup
  reuse_ssl id ssl = ok (unchanged (λ e. e.inner) ssl (lookup id previous.ssls))

  -- The five passes that decide
  unfoldable pub reuse_sections : ResourceConfigSet → Result ControlError Plan
  unfolding reuse_section reuse_upstream reuse_service reuse_global_rule reuse_route reuse_ssl
  reuse_sections config = reuse_section reuse_upstream config.upstreams >>= λ upstreams.
      reuse_section (reuse_service upstreams) config.services >>= λ services.
      reuse_section (reuse_global_rule upstreams) config.global_rules >>= λ rules.
      reuse_section (reuse_route upstreams services) config.routes >>= λ routes.
      reuse_section reuse_ssl config.ssls >>= λ ssls. ok (record {
        reused_upstreams = upstreams;
        reused_services = services;
        reused_global_rules = rules;
        reused_routes = routes;
        reused_ssls = ssls;
        jobs = [];
      })

module _ (g : Gateway) where
  abbrev pub upstream_jobs : Bytes → Upstream → Result ControlError (List Job)
  upstream_jobs id upstream = ok ((named id, upstream) ∷ [])

  unfoldable pub service_jobs : Bytes → Service → Result ControlError (List Job)
  unfolding plugin_upstream_jobs
  service_jobs id service = plugin_upstream_jobs g (service_owner id) service.plugins >>= λ jobs.
      ok (inline_job (service_inline id) service.upstream ++ jobs)

  unfoldable pub rule_jobs : Bytes → GlobalRule → Result ControlError (List Job)
  unfolding plugin_upstream_jobs
  rule_jobs id rule = plugin_upstream_jobs g (global_rule_owner id) rule.plugins

  unfoldable pub route_jobs : Bytes → Route → Result ControlError (List Job)
  unfolding plugin_upstream_jobs
  route_jobs id route = plugin_upstream_jobs g (route_owner id) route.plugins >>= λ jobs.
      ok (inline_job (route_inline id) route.upstream ++ jobs)

  unfoldable pub plan_jobs : ResourceConfigSet → Plan → Result ControlError (List Job)
  unfolding section_jobs service_jobs rule_jobs route_jobs
  plan_jobs config plan =
      section_jobs upstream_jobs plan.reused_upstreams config.upstreams >>= λ upstreams.
      section_jobs service_jobs plan.reused_services config.services >>= λ services.
      section_jobs rule_jobs plan.reused_global_rules config.global_rules >>= λ rules.
      section_jobs route_jobs plan.reused_routes config.routes >>= λ routes.
      ok (upstreams ++ (services ++ (rules ++ routes)))

  -- `CandidatePlan::build`
  unfoldable pub build_plan : Snapshot → ResourceConfigSet → Result ControlError Plan
  unfolding reuse_sections plan_jobs
  build_plan previous config = reuse_sections g previous config >>= λ plan.
      plan_jobs config plan >>= λ jobs. ok (record plan { jobs = jobs })

-- The jobs, each prepared, into a map. The source runs eight at a time, so that which of several
-- failures it answers is open.
unfoldable pub prepare_jobs : Gateway → List Job → Result ControlError PreparedUpstreams
unfolding insert
prepare_jobs g [] = ok []
prepare_jobs g ((o, upstream) ∷ jobs) = g.prepare_upstream upstream >>= λ material.
    prepare_jobs g jobs >>= λ rest. ok (insert o material rest)

-- `prepare_candidate`
unfoldable pub prepare_candidate :
    Gateway → ResourceConfigSet → Snapshot → Result ControlError (Plan × PreparedUpstreams)
unfolding build_plan prepare_jobs
prepare_candidate g config previous = build_plan g previous config >>= λ plan.
    prepare_jobs g plan.jobs >>= λ prepared. ok (plan, prepared)
