-- ===== src/Control/Sections.antt =====
-- What the loops over a section leave for each id (plan.rs, compile.rs).
use pingsix.Prelude.{
  ◌≡◌, refl, sym, ap, ◌∙◌, ◌⊎◌, inl, inr, Option, none, some, Option-cases, [], ◌∷◌, if◌then◌else◌,
  Bytes, Bytes-discrete, bytes_eq, ◌==◌, arith,
}
use pingsix.Prelude.Dict.{Dict, lookup, lookup-insert, NodupKeys}
use mathlib.Core.Option.{none-ne-some, some-injective}
use mathlib.Core.Logic.{if_pos, if_neg}
use pingsix.Graph.{Result, ok, err, ◌>>=◌, map_err, Result-cases}
use pingsix.Control.Config.{ControlError}
use pingsix.Control.Plan.{enter, reuse_section, decision}
use pingsix.Control.Snapshot.{compile_one, compile_section}

module _ {E A : Type 0} where
  pub ok_inj : {a b : A} → ◌≡◌ {A = Result E A} (ok a) (ok b) → a ≡ b
  ok_inj h = cc

pub map_err-ok :
    {E F A : Type 0} (f : E → F) (r : Result E A) {a : A} → map_err f r ≡ ok a → r ≡ ok a
map_err-ok f (ok b) h = ap ok (ok_inj h)
map_err-ok f (err e) h = absurd (ground arith)

module _ {E A B : Type 0} where
  -- Both parts of a chain that succeeds succeed.
  pub bind-ok :
      (r : Result E A) (f : A → Result E B) {b : B}
      → (r >>= f) ≡ ok b
      → (a : A) × (r ≡ ok a) × (f a ≡ ok b)
  bind-ok r f h = elim (Result-cases r) [
    | inl (a, e) ↦ (a, e, ground arith)
    | inr (x, e) ↦ absurd (ground arith)
  ]

  -- The same, to go on from.
  pub through :
      {P : Type 0} {b : B} (r : Result E A) (f : A → Result E B)
      → (r >>= f) ≡ ok b
      → ((a : A) → r ≡ ok a → f a ≡ ok b → P)
      → P
  through r f h go = let (a, e, k) = bind-ok r f h in go a e k

  -- A chain fails at its first part or after it.
  pub bind-err :
      (r : Result E A) (f : A → Result E B) {e : E}
      → (r >>= f) ≡ err e
      → (r ≡ err e) ⊎ ((a : A) × (r ≡ ok a) × (f a ≡ err e))
  bind-err (ok a) f h = inr (a, refl, h)
  bind-err (err x) f h = inl (ground arith)

  -- Two chains that go on in the same way are the same.
  pub bind_congr :
      (r : Result E A) (f h : A → Result E B) → ((a : A) → f a ≡ h a) → (r >>= f) ≡ (r >>= h)
  bind_congr (ok a) f h same = same a
  bind_congr (err e) f h same = refl

module _ {B : Type 0} where
  lookup-enter :
      (j id : Bytes) (found : Option B) (d : Dict Bytes B)
      → lookup id d ≡ none
      → lookup j (enter id found d) ≡ (if j == id then found else lookup j d)
  lookup-enter j id none d h = ground arith
  lookup-enter j id (some b) d h = lookup-insert j id b d

module _ {A B : Type 0} (test : Bytes → A → Result ControlError (Option B)) where
  -- Nothing, or what the test said of the entry of the id.
  abbrev pub IsTested : Bytes → Option A → Option B → Type 0
  IsTested j none found = found ≡ none
  IsTested j (some a) found = test j a ≡ ok found

  pub reuse_section-IsTested :
      (section : Dict Bytes A) (out : Dict Bytes B)
      → reuse_section test section ≡ ok out
      → NodupKeys section
      → (j : Bytes) → IsTested j (lookup j section) (lookup j out)
  unfolding reuse_section lookup
  reuse_section-IsTested [] out h u j = rw (sym (ok_inj h)) refl
  reuse_section-IsTested ((id, a) ∷ section) out h (fresh, u) j =
      let (found, tested, h₁) = bind-ok (test id a) _ h in
      let (rest, done, h₂) = bind-ok (reuse_section test section) _ h₁ in
      let below : (k : Bytes) → IsTested k (lookup k section) (lookup k rest) =
        reuse_section-IsTested section rest done u in
      let absent : lookup id rest ≡ none = rw fresh at (below id) in
      let read : lookup j out ≡ (if j == id then found else lookup j rest) =
        ap (lookup j) (sym (ok_inj h₂)) ∙ lookup-enter j id found rest absent in
      elim (Bytes-discrete j id) [
        | yes same ↦ rw (read, if_pos _ same) (rw same tested)
        | no differ ↦ rw (read, if_neg _ differ) (below j)
      ]

module _ {A B : Type 0} (build : Bytes → A → Result ControlError B) where
  -- Nothing, or the object that is reused, or else the one that is built.
  abbrev pub IsCompiled : Bytes → Option B → Option A → Option B → Type 0
  IsCompiled j reused none found = found ≡ none
  IsCompiled j none (some a) found = (b : B) × (found ≡ some b) × (build j a ≡ ok b)
  IsCompiled j (some b) (some a) found = found ≡ some b

  compile_one-IsCompiled :
      (reused : Dict Bytes B) (j : Bytes) (a : A) (b : B)
      → compile_one build (decision j reused) j a ≡ ok b
      → IsCompiled j (lookup j reused) (some a) (some b)
  unfolding decision
  compile_one-IsCompiled reused j a b h = elim (Option-cases (lookup j reused)) [
    | inl e ↦ rw e (b, refl, (rw (e, compile_one, decision) at h))
    | inr (c, e) ↦ rw e (sym (ap some (ok_inj (rw (e, compile_one, decision) at h))))
  ]

  pub compile_section-IsCompiled :
      (reused : Dict Bytes B) (section : Dict Bytes A) (out : Dict Bytes B)
      → compile_section build reused section ≡ ok out
      → (j : Bytes) → IsCompiled j (lookup j reused) (lookup j section) (lookup j out)
  unfolding compile_section lookup decision
  compile_section-IsCompiled reused [] out h j = rw (sym (ok_inj h)) refl
  compile_section-IsCompiled reused ((id, a) ∷ section) out h j =
      let (compiled, one, h₁) = bind-ok (compile_one build (decision id reused) id a) _ h in
      let (rest, done, h₂) = bind-ok (compile_section build reused section) _ h₁ in
      let below = compile_section-IsCompiled reused section rest done in
      let read : lookup j out ≡ (if j == id then some compiled else lookup j rest) =
        ap (lookup j) (sym (ok_inj h₂)) ∙ lookup-insert j id compiled rest in
      elim (Bytes-discrete j id) [
        | yes same ↦
            rw (read, if_pos _ same) (rw same (compile_one-IsCompiled reused id a compiled one))
        | no differ ↦ rw (read, if_neg _ differ) (below j)
      ]

module _ {A B : Type 0} (test : Bytes → A → Result ControlError (Option B))
    (build : Bytes → A → Result ControlError B) where
  -- Where an id has an object, its entry was reused or built.
  pub fate :
      (j : Bytes) (entry : Option A) (reused found : Option B) (b : B)
      → IsTested test j entry reused
      → IsCompiled build j reused entry found
      → found ≡ some b
      → (a : A) × (entry ≡ some a) × ((test j a ≡ ok (some b)) ⊎ (build j a ≡ ok b))
  fate j none reused found b tested compiled h = absurd (none-ne-some b (sym compiled ∙ h))
  fate j (some a) none found b tested (c, e, built) h =
      (a, refl, inr (rw (some-injective c b (sym e ∙ h)) at built))
  fate j (some a) (some c) found b tested compiled h =
      (a, refl, inl (rw (some-injective c b (sym compiled ∙ h)) at tested))

  -- What is reused is what was there.
  pub kept :
      (j : Bytes) (entry : Option A) (reused found : Option B) (b : B)
      → IsTested test j entry reused
      → IsCompiled build j reused entry found
      → reused ≡ some b
      → (a : A) × (entry ≡ some a) × (test j a ≡ ok (some b)) × (found ≡ some b)
  kept j none reused found b tested compiled h = absurd (none-ne-some b (sym tested ∙ h))
  kept j (some a) none found b tested compiled h = absurd (none-ne-some b h)
  kept j (some a) (some c) found b tested compiled h = (a, refl, tested ∙ ap ok h, compiled ∙ h)

module _ {A B : Type 0} (build : Bytes → A → Result ControlError B) where
  none_compiled :
      (j : Bytes) (entry : Option A) (reused found : Option B)
      → IsCompiled build j reused entry found
      → found ≡ none
      → entry ≡ none
  none_compiled j none reused found compiled h = refl
  none_compiled j (some a) none found (b, e, _) h = absurd (none-ne-some b (sym h ∙ e))
  none_compiled j (some a) (some b) found e h = absurd (none-ne-some b (sym h ∙ e))

  -- An id without an object has no entry.
  pub compile_section-none :
      (reused : Dict Bytes B) (section : Dict Bytes A) (out : Dict Bytes B)
      → compile_section build reused section ≡ ok out
      → (j : Bytes) → lookup j out ≡ none
      → lookup j section ≡ none
  compile_section-none reused section out h j =
      none_compiled j (lookup j section) (lookup j reused) (lookup j out)
        (compile_section-IsCompiled build reused section out h j)
