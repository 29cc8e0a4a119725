-- ===== src/Control/Failures.antt =====
-- How a compilation can fail once its jobs are prepared and the set is valid (compile.rs): not for
-- a missing reference, and not for a lack of prepared material.
use pingsix.Prelude.{
  ◌≡◌, refl, sym, Bool, true, false, Option, none, some, [], ◌∷◌, Bytes, bytes_eq, arith, is_some,
}
use pingsix.Prelude.Dict.{Dict, lookup, NodupKeys}
use mathlib.Core.Option.{none-ne-some}
use mathlib.Core.Logic.{⊎_elim}
use pingsix.Graph.{Result, ok, err, ◌>>=◌, map_err}
use pingsix.Control.Config.{
  JsonValue, Upstream, TrafficSplitOwner, UpstreamOccurrence, occurrence_eq, ControlError,
  missing_service, missing_upstream, not_prepared, upstream_failed, plugin_failed,
}
use pingsix.Control.Registry.{
  ProxyUpstream, PreparedUpstreams, PluginBuildContext, Gateway, build_upstream,
  build_plugin_with_upstreams,
}
use pingsix.Control.Compiled.{required, build_inline, resolve, build_plugins}
use pingsix.Control.Snapshot.{compile_section}
use pingsix.Control.Sections.{bind-err, through, ok_inj}
use pingsix.Control.Prepared.{compile_section-err}

-- The error names a reference that leads nowhere, or material that was not prepared.
abbrev pub is_dangling : ControlError → Bool
is_dangling (missing_service _ _) = true
is_dangling (missing_upstream _ _) = true
is_dangling (not_prepared _) = true
is_dangling _ = false

-- What fails, fails for another reason.
abbrev pub IsSound : {A : Type 0} → Result ControlError A → Type 0
IsSound r = (e : ControlError) → r ≡ err e → is_dangling e ≡ false

pub IsSound-bind :
    {A B : Type 0} (r : Result ControlError A) (f : A → Result ControlError B)
    → IsSound r
    → ((a : A) → r ≡ ok a → IsSound (f a))
    → IsSound (r >>= f)
IsSound-bind {A = A} r f first rest e h =
    ⊎_elim (first e) (λ (s : (a : A) × (r ≡ ok a) × (f a ≡ err e)). rest s.0 s.1 e s.2)
      (bind-err r f h)

err_inj : {E A : Type 0} {x y : E} → ◌≡◌ {A = Result E A} (err x) (err y) → x ≡ y
err_inj h = cc

pub IsSound-ok : {A : Type 0} (a : A) → IsSound (ok a)
IsSound-ok a e h = absurd (ground arith)

pub required-IsSound :
    {A : Type 0} (x : ControlError) (o : Option A) → is_some o ≡ true → IsSound (required x o)
required-IsSound x none h e k = absurd (ground arith)
required-IsSound x (some a) h e k = absurd (ground arith)

pub map_err-IsSound :
    {E A : Type 0} (f : E → ControlError) (r : Result E A)
    → ((x : E) → is_dangling (f x) ≡ false)
    → IsSound (map_err f r)
map_err-IsSound f (ok a) sound e h = absurd (ground arith)
map_err-IsSound f (err x) sound e h = rw (sym (err_inj h)) (sound x)

pub compile_section-IsSound :
    {A B : Type 0} (build : Bytes → A → Result ControlError B) (reused : Dict Bytes B)
    (section : Dict Bytes A)
    → NodupKeys section
    → ((id : Bytes) (a : A)
        → lookup id section ≡ some a
        → lookup id reused ≡ none
        → IsSound (build id a))
    → IsSound (compile_section build reused section)
compile_section-IsSound build reused section u sound e h =
    let (id, a, found, fresh, why) = compile_section-err build reused section e u h in
    sound id a found fresh e why

module _ (g : Gateway) where
  pub build_inline-IsSound :
      (o : UpstreamOccurrence) (inline : Option Upstream) (prepared : PreparedUpstreams)
      → ((u : Upstream) → inline ≡ some u → is_some (lookup o prepared) ≡ true)
      → IsSound (build_inline g o inline prepared)
  unfolding build_inline
  build_inline-IsSound o none prepared there = IsSound-ok none
  build_inline-IsSound o (some u) prepared there =
      IsSound-bind (required (not_prepared o) (lookup o prepared)) _
        (required-IsSound (not_prepared o) (lookup o prepared) (there u refl))
        λ m _.
          IsSound-bind (map_err (upstream_failed o) (build_upstream g u m)) _
            (map_err-IsSound (upstream_failed o) (build_upstream g u m) (λ _. refl))
            λ p _. IsSound-ok (some p)

  pub build_inline-none :
      (o : UpstreamOccurrence) (inline : Option Upstream) (prepared : PreparedUpstreams)
      → build_inline g o inline prepared ≡ ok none
      → inline ≡ none
  unfolding build_inline
  build_inline-none o none prepared h = refl
  build_inline-none o (some u) prepared h =
      through (required (not_prepared o) (lookup o prepared)) _ h λ m _ h₁.
        through (map_err (upstream_failed o) (build_upstream g u m)) _ h₁
          λ p _ last. absurd (none-ne-some p (sym (ok_inj last)))

  pub resolve-IsSound :
      (owner : TrafficSplitOwner) (inline : Option ProxyUpstream) (id : Option Bytes)
      (default : Option ProxyUpstream) (us : Dict Bytes ProxyUpstream)
      → (inline ≡ none → (i : Bytes) → id ≡ some i → is_some (lookup i us) ≡ true)
      → IsSound (resolve g owner inline id default us)
  unfolding resolve
  resolve-IsSound owner (some p) id default us there = IsSound-ok (some p)
  resolve-IsSound owner none none default us there = IsSound-ok default
  resolve-IsSound owner none (some i) default us there =
      IsSound-bind (required (missing_upstream owner i) (lookup i us)) _
        (required-IsSound _ (lookup i us) (there refl i refl)) λ p _. IsSound-ok (some p)

  pub build_plugins-IsSound :
      (context : PluginBuildContext) (plugins : Dict Bytes JsonValue)
      → IsSound (build_plugins g context plugins)
  unfolding build_plugins
  build_plugins-IsSound context [] = IsSound-ok []
  build_plugins-IsSound context ((name, cfg) ∷ plugins) =
      IsSound-bind
        (map_err (plugin_failed context.owner name)
          (build_plugin_with_upstreams g name cfg context))
        _
        (map_err-IsSound (plugin_failed context.owner name)
          (build_plugin_with_upstreams g name cfg context) (λ _. refl))
        λ p _.
          IsSound-bind (build_plugins g context plugins) _ (build_plugins-IsSound context plugins)
            λ ps _. IsSound-ok (p ∷ ps)
