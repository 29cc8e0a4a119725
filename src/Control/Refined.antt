-- ===== src/Control/Refined.antt =====
-- Publications one after another: each candidate is planned against the snapshot before it
-- (plan.rs, compile.rs).
use pingsix.Prelude.{◌≡◌, sym, ap, ◌∙◌, [], bytes_eq, All}
use pingsix.Prelude.Dict.{lookup}
use mathlib.Core.Option.{none-ne-some}
use pingsix.Graph.{ok}
use pingsix.Control.Config.{ResourceConfigSet}
use pingsix.Control.Registry.{PreparedUpstreams, Gateway}
use pingsix.Control.Validate.{validate_config_set}
use pingsix.Control.Plan.{Snapshot, Plan, build_plan, prepare_jobs, prepare_candidate}
use pingsix.Control.Snapshot.{build_prepared}
use pingsix.Control.Sections.{through, ok_inj}
use pingsix.Control.Locality.{IsLocal}
use pingsix.Control.Passes.{IsKeyed, build_plan-IsPlan, compile_sections-IsBuilt}
use pingsix.Control.Coherent.{IsCoherent, IsOf}
use pingsix.Control.Whole.{next-IsCoherent, next-IsOf}

-- Where the resources of the set carry the ids that they are stored under, the snapshot before is
-- coherent, and each plugin reads only the upstreams that it declares to refer to, the snapshot
-- compiled from a plan against it is coherent too, whatever was prepared, and has exactly the
-- resources of the configuration: what is reused is what a compilation against the new snapshot
-- would give.
pub build_prepared-IsCoherent :
    (g : Gateway) (previous : Snapshot) (config : ResourceConfigSet) (plan : Plan)
    (prepared : PreparedUpstreams) (next : Snapshot)
    → All IsLocal g.plugin_metas
    → IsKeyed config
    → IsCoherent g previous
    → build_plan g previous config ≡ ok plan
    → build_prepared g config plan prepared ≡ ok next
    → IsCoherent g next × IsOf config next
unfolding build_prepared
build_prepared-IsCoherent g previous config plan prepared next locals keyed coherent planned h =
    through (validate_config_set g config) _ h λ _ _ compiled.
      let plan_facts = build_plan-IsPlan g previous config plan planned in
      let built = compile_sections-IsBuilt g config plan prepared next compiled in
      (
        next-IsCoherent g locals previous config plan prepared next keyed coherent plan_facts built,
        next-IsOf g locals previous config plan prepared next keyed coherent plan_facts built,
      )

-- `RuntimeSnapshot::empty`
unfoldable pub empty_snapshot : Snapshot
empty_snapshot = record { upstreams = []; services = []; global_rules = []; routes = []; ssls = [] }

-- The snapshots that publications reach from the empty one.
pub data Reached (g : Gateway) : Snapshot → Type 0 where
  start : Reached g empty_snapshot
  publish :
      (previous : Snapshot) (config : ResourceConfigSet) (plan : Plan)
      (prepared : PreparedUpstreams) (next : Snapshot)
      → Reached g previous
      → IsKeyed config
      → prepare_candidate g config previous ≡ ok (plan, prepared)
      → build_prepared g config plan prepared ≡ ok next
      → Reached g next

pub prepare_candidate-ok :
    (g : Gateway) (config : ResourceConfigSet) (previous : Snapshot) (plan : Plan)
    (prepared : PreparedUpstreams)
    → prepare_candidate g config previous ≡ ok (plan, prepared)
    → (build_plan g previous config ≡ ok plan) × (prepare_jobs g plan.jobs ≡ ok prepared)
unfolding prepare_candidate
prepare_candidate-ok g config previous plan prepared h =
    through (build_plan g previous config) _ h λ p planned rest.
      through (prepare_jobs g p.jobs) _ rest λ m done last.
        let same : p ≡ plan = ap (λ (x : Plan × PreparedUpstreams). x.0) (ok_inj last) in
        let material : m ≡ prepared = ap (λ (x : Plan × PreparedUpstreams). x.1) (ok_inj last) in
        (planned ∙ ap ok same, rw (sym same, sym material) done)

-- Every snapshot that publications reach is coherent, where each plugin reads only the upstreams that
-- it declares to refer to, and the resources of each set carry the ids that they are stored under.
pub Reached-IsCoherent :
    (g : Gateway) (t : Snapshot) → All IsLocal g.plugin_metas → Reached g t → IsCoherent g t
unfolding empty_snapshot lookup
Reached-IsCoherent g t locals start = record {
  upstreams = λ id p h. absurd (none-ne-some p h);
  services = λ id s h. absurd (none-ne-some s h);
  global_rules = λ id r h. absurd (none-ne-some r h);
  routes = λ id r h. absurd (none-ne-some r h);
  ssls = λ id l h. absurd (none-ne-some l h);
}
Reached-IsCoherent g t locals (publish previous config plan prepared next r keyed h k) =
    (build_prepared-IsCoherent g previous config plan prepared t locals keyed
      (Reached-IsCoherent g previous locals r)
      (prepare_candidate-ok g config previous plan prepared h).0 k).0
