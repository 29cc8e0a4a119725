-- ===== src/Control/Snapshot.antt =====
-- Compilation of a candidate from its plan and the prepared material (compile.rs).
use pingsix.Prelude.{[], ◌∷◌, Bytes, bytes_eq}
use pingsix.Prelude.Dict.{Dict, lookup, insert}
use pingsix.Graph.{Result, ok, ◌>>=◌, map_err}
use pingsix.Control.Config.{
  Upstream, ResourceConfigSet, named, occurrence_eq, ControlError, not_prepared, upstream_failed,
}
use pingsix.Control.Registry.{ProxyUpstream, PreparedUpstreams, Gateway, build_upstream}
use pingsix.Control.Validate.{validate_config_set}
use pingsix.Control.Compiled.{required, build_service, build_global_rule, build_route, build_ssl}
use pingsix.Control.Plan.{Snapshot, Plan, ResourceDecision, reuse, rebuild, decision}

-- `match plan.…_decision(&id)`
abbrev pub compile_one :
    {A B : Type 0}
    → (Bytes → A → Result ControlError B)
    → ResourceDecision B
    → Bytes
    → A
    → Result ControlError B
compile_one build (reuse existing) id a = ok existing
compile_one build rebuild id a = build id a

-- The loop over one section
unfoldable pub compile_section :
    {A B : Type 0}
    → (Bytes → A → Result ControlError B)
    → Dict Bytes B
    → Dict Bytes A
    → Result ControlError (Dict Bytes B)
unfolding decision insert
compile_section build reused [] = ok []
compile_section build reused ((id, a) ∷ section) =
    compile_one build (decision id reused) id a >>= λ compiled.
    compile_section build reused section >>= λ rest. ok (insert id compiled rest)

module _ (g : Gateway) where
  -- A named upstream that is rebuilt
  unfoldable pub build_named :
      PreparedUpstreams → Bytes → Upstream → Result ControlError ProxyUpstream
  unfolding lookup build_upstream
  build_named prepared id upstream =
      required (not_prepared (named id)) (lookup (named id) prepared) >>= λ material.
      map_err (upstream_failed (named id)) (build_upstream g upstream material)

  -- The five passes, in the order of the dependencies
  unfoldable pub compile_sections :
      ResourceConfigSet → Plan → PreparedUpstreams → Result ControlError Snapshot
  unfolding compile_section build_named build_service build_global_rule build_route build_ssl
  compile_sections config plan prepared =
      compile_section (build_named prepared) plan.reused_upstreams config.upstreams >>= λ upstreams.
      compile_section (λ _ s. build_service g s upstreams prepared) plan.reused_services
        config.services
      >>= λ services.
          compile_section (λ _ rule. build_global_rule g rule upstreams prepared)
            plan.reused_global_rules config.global_rules
          >>= λ rules.
              compile_section (λ _ r. build_route g r upstreams services prepared)
                plan.reused_routes config.routes
              >>= λ routes.
                  compile_section (λ _ ssl. build_ssl g ssl) plan.reused_ssls config.ssls
                  >>= λ ssls. ok (record {
                    upstreams = upstreams;
                    services = services;
                    global_rules = rules;
                    routes = routes;
                    ssls = ssls;
                  })

  -- `CandidateSnapshot::build_prepared`
  unfoldable pub build_prepared :
      ResourceConfigSet → Plan → PreparedUpstreams → Result ControlError Snapshot
  unfolding validate_config_set compile_sections
  build_prepared config plan prepared =
      validate_config_set g config >>= λ _. compile_sections config plan prepared
