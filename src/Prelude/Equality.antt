-- ===== src/Prelude/Equality.antt =====
-- Rust's `==`, for every type whose equality can be decided.
use Prim.Native.Char.{code}
use Prim.Native.Nat.{ℕ}
use Prim.Native.String.{String}
use mathlib.Core.Path.{◌≡◌, refl, ap, ap₂}
use mathlib.Core.List.{List, [], ◌∷◌}
use mathlib.Core.Logic.{ite, dite, ◌↔◌}
use mathlib.Core.Bool.{Bool, true, false, Bool-discrete}
use mathlib.Core.Option.{Option, none, some, none-ne-some, some-ne-none, some-injective}
use native.Mathlib.Decide.{ℕ_discrete}
use native.Mathlib.Omega.{arith}
use text.Mathlib.Text
use text.Mathlib.TextEquality.{eq_iff}

pub record Eq {ℓ} (A : Type ℓ) : Type ℓ where
  pub dec : Discrete A

module _ {ℓ} {A : Type ℓ} ⦃e : Eq A⦄ where
  infix 50 ◌==◌
  abbrev pub ◌==◌ : A → A → Bool
  a == b = ite (e.dec a b) true false

  pub ==_iff : (a b : A) → ((a == b) ≡ true) ↔ (a ≡ b)
  ==_iff a b = ground arith

  option_dec : Discrete (Option A)
  option_dec none none = yes refl
  option_dec none (some b) = no (none-ne-some b)
  option_dec (some a) none = no (some-ne-none a)
  option_dec (some a) (some b) =
      dite (e.dec a b) (λ p. yes (ap some p)) (λ n. no (λ p. n (some-injective a b p)))

  instance unfoldable pub option_eq : Eq (Option A)
  unfolding option_dec
  option_eq = record { dec = option_dec }

instance abbrev pub nat_eq : Eq ℕ
nat_eq = record { dec = ℕ_discrete }

unfoldable pub String-discrete : Discrete String
String-discrete s t =
    dite (Bool-discrete (Text.◌==◌ s t) true) (λ same. yes ((eq_iff s t).0 same))
      (λ differ. no (λ p. differ ((eq_iff s t).1 p)))

instance abbrev pub string_eq : Eq String
string_eq = record { dec = String-discrete }

-- UTF-8 text that the program walks: its bytes.
abbrev pub Bytes : Type 0
Bytes = List ℕ

cons_head : {x y : ℕ} {xs ys : List ℕ} → x ∷ xs ≡ y ∷ ys → x ≡ y
cons_head p = cc

cons_tail : {x y : ℕ} {xs ys : List ℕ} → x ∷ xs ≡ y ∷ ys → xs ≡ ys
cons_tail p = cc

cons-ne-nil : {x : ℕ} {xs : List ℕ} → ¬ (x ∷ xs ≡ [])
cons-ne-nil p = cc

nil-ne-cons : {x : ℕ} {xs : List ℕ} → ¬ ([] ≡ x ∷ xs)
nil-ne-cons p = cc

unfoldable pub Bytes-discrete : Discrete Bytes
unfolding cons_head cons_tail cons-ne-nil nil-ne-cons
Bytes-discrete [] [] = yes refl
Bytes-discrete [] (y ∷ ys) = no nil-ne-cons
Bytes-discrete (x ∷ xs) [] = no cons-ne-nil
Bytes-discrete (x ∷ xs) (y ∷ ys) =
    let rest = Bytes-discrete xs ys in
    dite (ℕ_discrete x y) (λ p. dite rest (λ q. yes (ap₂ ◌∷◌ p q)) (λ q. no (λ r. q (cons_tail r))))
      (λ p. no (λ r. p (cons_head r)))

instance abbrev pub bytes_eq : Eq Bytes
bytes_eq = record { dec = Bytes-discrete }

-- The bytes of an ASCII literal.
abbrev pub codes : String → Bytes
codes String.[] = []
codes (String.◌∷◌ c s) = code c ∷ codes s
