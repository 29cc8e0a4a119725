-- ===== src/Control/Prepared.antt =====
-- What a candidate needs is there when it is compiled: the material that its jobs prepared, and the
-- upstreams and services that validation found (plan.rs, resources.rs, compile.rs).
use pingsix.Prelude.{
  ◌≡◌, refl, sym, ap, ◌∙◌, ◌⊎◌, inl, inr, true, none, some, Option-cases, List, [], ◌∷◌, ◌++◌,
  Bytes, Bytes-discrete, bytes_eq, ◌==◌, arith, is_some, if◌then◌else◌,
}
use pingsix.Prelude.Dict.{
  Dict, lookup, insert, contains_key, lookup-insert, lookup_here, lookup_there, NodupKeys,
}
use mathlib.Core.Option.{none-ne-some, some-injective}
use mathlib.Core.Logic.{if_pos, if_neg, ⊎_elim}
use pingsix.Graph.{Result, ok, err, ◌>>=◌}
use pingsix.Control.Config.{UpstreamOccurrence, occurrence_eq, Occurrence-discrete, ControlError}
use pingsix.Control.Registry.{PreparedUpstreams, Gateway}
use pingsix.Control.Validate.{try_each}
use pingsix.Control.Plan.{Job, section_jobs, prepare_jobs, decision}
use pingsix.Control.Snapshot.{compile_one, compile_section}
use pingsix.Control.Sections.{bind-err, through, ok_inj}

-- There is a job for the occurrence.
abbrev pub IsListed : UpstreamOccurrence → List Job → Type 0
IsListed o [] = ⊥
IsListed o ((p, _) ∷ jobs) = (o ≡ p) ⊎ IsListed o jobs

pub IsListed-left :
    (o : UpstreamOccurrence) (is js : List Job) → IsListed o is → IsListed o (is ++ js)
IsListed-left o [] js h = absurd h
IsListed-left o ((p, _) ∷ is) js (inl e) = inl e
IsListed-left o ((p, _) ∷ is) js (inr h) = inr (IsListed-left o is js h)

pub IsListed-right :
    (o : UpstreamOccurrence) (is js : List Job) → IsListed o js → IsListed o (is ++ js)
IsListed-right o [] js h = h
IsListed-right o (_ ∷ is) js h = inr (IsListed-right o is js h)

-- What has a job is prepared.
pub prepare_jobs-IsListed :
    (g : Gateway) (jobs : List Job) (prepared : PreparedUpstreams) (o : UpstreamOccurrence)
    → prepare_jobs g jobs ≡ ok prepared
    → IsListed o jobs
    → is_some (lookup o prepared) ≡ true
unfolding prepare_jobs
prepare_jobs-IsListed g [] prepared o h listed = absurd listed
prepare_jobs-IsListed g ((p, u) ∷ jobs) prepared o h listed =
    through (g.prepare_upstream u) _ h λ m _ h₁.
      through (prepare_jobs g jobs) _ h₁ λ rest done last.
        let read : lookup o prepared ≡ (if o == p then some m else lookup o rest) =
          ap (lookup o) (sym (ok_inj last)) ∙ lookup-insert o p m rest in
        elim (Occurrence-discrete o p) [
          | yes same ↦ rw (read, if_pos _ same) refl
          | no differ ↦
              rw (read, if_neg _ differ)
                (prepare_jobs-IsListed g jobs rest o done (
                  ⊎_elim (λ (same : o ≡ p). absurd (differ same)) (λ (h : IsListed o jobs). h)
                    listed))
        ]

module _ {B : Type 0} where
  rest_err :
      (r : Result ControlError (Dict Bytes B)) (key : Bytes) (c : B) (e : ControlError)
      → (r >>= λ rest. ok (insert key c rest)) ≡ err e
      → r ≡ err e
  rest_err (ok d) key c e h = absurd (ground arith)
  rest_err (err x) key c e h = ground arith

module _ {A B : Type 0} where
  fresh_jobs :
      (jobs : Bytes → A → Result ControlError (List Job)) (reused : Dict Bytes B) (key : Bytes)
      (a : A) (here : List Job)
      → lookup key reused ≡ none
      → (if contains_key key reused then ok [] else jobs key a) ≡ ok here
      → jobs key a ≡ ok here
  unfolding contains_key
  fresh_jobs jobs reused key a here fresh h = ground arith

  compile_one-err :
      (build : Bytes → A → Result ControlError B) (reused : Dict Bytes B) (key : Bytes) (a : A)
      (e : ControlError)
      → compile_one build (decision key reused) key a ≡ err e
      → (lookup key reused ≡ none) × (build key a ≡ err e)
  unfolding decision
  compile_one-err build reused key a e h = elim (Option-cases (lookup key reused)) [
    | inl fresh ↦ (fresh, (rw (fresh, compile_one, decision) at h))
    | inr (b, there) ↦ absurd (ground (arith, (rw (there, compile_one, decision) at h)))
  ]

  -- The jobs of an entry that is not reused are among those of the section.
  pub section_jobs-IsListed :
      (jobs : Bytes → A → Result ControlError (List Job)) (reused : Dict Bytes B)
      (section : Dict Bytes A) (out : List Job)
      → section_jobs jobs reused section ≡ ok out
      → (id : Bytes) (a : A) → lookup id section ≡ some a
      → lookup id reused ≡ none
      → (js : List Job) × (jobs id a ≡ ok js)
        × ((o : UpstreamOccurrence) → IsListed o js → IsListed o out)
  unfolding section_jobs lookup contains_key
  section_jobs-IsListed jobs reused [] out h id a found fresh = absurd (none-ne-some a found)
  section_jobs-IsListed jobs reused ((key, b) ∷ section) out h id a found fresh =
      through (if contains_key key reused then ok [] else jobs key b) _ h λ here one h₁.
        through (section_jobs jobs reused section) _ h₁ λ rest done last.
          elim (Bytes-discrete id key) [
            | yes same ↦
                let entry : b ≡ a =
                  some-injective b a (sym (lookup_here id key b section same) ∙ found) in
                (
                  here,
                  rw (same, sym entry) (fresh_jobs jobs reused key b here (rw same at fresh) one),
                  λ o listed. rw (sym (ok_inj last)) (IsListed-left o here rest listed),
                )
            | no differ ↦
                let (js, listed, into) =
                  section_jobs-IsListed jobs reused section rest done id a
                    (sym (lookup_there id key b section differ) ∙ found) fresh in
                (js, listed, λ o l. rw (sym (ok_inj last)) (IsListed-right o here rest (into o l)))
          ]

  -- Where a section fails
  abbrev pub IsFailure :
      (Bytes → A → Result ControlError B) → Dict Bytes B → Dict Bytes A → ControlError → Type 0
  IsFailure build reused section e =
      (id : Bytes) × (a : A) × (lookup id section ≡ some a)
      × (lookup id reused ≡ none)
      × (build id a ≡ err e)

  later :
      (build : Bytes → A → Result ControlError B) (reused : Dict Bytes B) (section : Dict Bytes A)
      (key : Bytes) (b : A) (e : ControlError)
      → lookup key section ≡ none
      → IsFailure build reused section e
      → IsFailure build reused ((key, b) ∷ section) e
  later build reused section key b e fresh (id, a, found, absent, why) =
      elim (Bytes-discrete id key) [
        | yes same ↦ absurd (none-ne-some a (sym fresh ∙ (rw same at found)))
        | no differ ↦ (id, a, lookup_there id key b section differ ∙ found, absent, why)
      ]

  -- A section that fails does so at an entry that is not reused.
  pub compile_section-err :
      (build : Bytes → A → Result ControlError B) (reused : Dict Bytes B) (section : Dict Bytes A)
      (e : ControlError)
      → NodupKeys section
      → compile_section build reused section ≡ err e
      → IsFailure build reused section e
  unfolding compile_section
  compile_section-err build reused [] e u h = absurd (ground arith)
  compile_section-err build reused ((key, b) ∷ section) e (fresh, u) h =
      elim (bind-err (compile_one build (decision key reused) key b) _ h) [
        | inl failed ↦
            let (absent, why) = compile_one-err build reused key b e failed in
            (key, b, lookup_here key key b section refl, absent, why)
        | inr (c, _, rest) ↦ later build reused section key b e fresh (
            compile_section-err build reused section e u
              (rest_err (compile_section build reused section) key c e rest))
      ]

module _ {A : Type 0} where
  -- Each entry passed the test.
  pub try_each-lookup :
      (f : Bytes × A → Result ControlError (Unit {0})) (section : Dict Bytes A)
      → try_each f section ≡ ok tt
      → (id : Bytes) (a : A) → lookup id section ≡ some a
      → f (id, a) ≡ ok tt
  unfolding try_each lookup
  try_each-lookup f [] h id a found = absurd (none-ne-some a found)
  try_each-lookup f ((key, b) ∷ section) h id a found = through (f (key, b)) _ h λ _ one rest.
      elim (Bytes-discrete id key) [
        | yes same ↦
            rw (same, sym (some-injective b a (sym (lookup_here id key b section same) ∙ found)))
              one
        | no differ ↦
            try_each-lookup f section rest id a (sym (lookup_there id key b section differ) ∙ found)
      ]
