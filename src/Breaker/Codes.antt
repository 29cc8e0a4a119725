-- ===== src/Breaker/Codes.antt =====
-- `StatusCodeSet`: ten words of 64 bits, a word as the list of its bits from the lowest.
use pingsix.Prelude.{
  ℕ, zero, suc, ◌/◌, ◌%◌, ◌<◌, ◌≡◌, refl, ap, dec_lt, Bool, true, false, ◌&&◌, ◌||◌, List, [], ◌∷◌,
  length, elem, if◌then◌else◌, ◌==◌, nat_eq, ltb, arith,
}

module _ {A : Type 0} where
  -- A list read at an index, and changed there.
  unfoldable at_or : A → ℕ → List A → A
  at_or d i [] = d
  at_or d zero (x ∷ xs) = x
  at_or d (suc i) (x ∷ xs) = at_or d i xs

  unfoldable change_at : ℕ → (A → A) → List A → List A
  change_at i f [] = []
  change_at zero f (x ∷ xs) = f x ∷ xs
  change_at (suc i) f (x ∷ xs) = x ∷ change_at i f xs

  unfoldable repeated : ℕ → A → List A
  repeated zero x = []
  repeated (suc n) x = x ∷ repeated n x

  at_or-change_at :
      (d : A) (f : A → A) (i j : ℕ) (xs : List A)
      → i < length xs
      → at_or d j (change_at i f xs) ≡ (if j == i then f (at_or d j xs) else at_or d j xs)
  unfolding at_or change_at
  at_or-change_at d f i j [] l = absurd (omega arith)
  at_or-change_at d f zero zero (x ∷ xs) l = ground arith
  at_or-change_at d f zero (suc j) (x ∷ xs) l = ground arith
  at_or-change_at d f (suc i) zero (x ∷ xs) l = ground arith
  at_or-change_at d f (suc i) (suc j) (x ∷ xs) l =
      ground (arith, at_or-change_at d f i j xs (omega arith))

  length-change_at : (i : ℕ) (f : A → A) (xs : List A) → length (change_at i f xs) ≡ length xs
  unfolding change_at
  length-change_at i f [] = refl
  length-change_at zero f (x ∷ xs) = refl
  length-change_at (suc i) f (x ∷ xs) = ap suc (length-change_at i f xs)

  length-repeated : (n : ℕ) (x : A) → length (repeated n x) ≡ n
  unfolding repeated
  length-repeated zero x = refl
  length-repeated (suc n) x = ap suc (length-repeated n x)

  at_or-repeated : (d x : A) (i n : ℕ) → at_or d i (repeated n x) ≡ (if ltb i n then x else d)
  unfolding at_or repeated
  at_or-repeated d x i zero = ground arith
  at_or-repeated d x zero (suc n) = ground arith
  at_or-repeated d x (suc i) (suc n) = ground (arith, at_or-repeated d x i n)

abbrev pub Word : Type 0
Word = List Bool

abbrev pub StatusCodeSet : Type 0
StatusCodeSet = List Word

-- `[0u64; 10]`
unfoldable no_bits : StatusCodeSet
unfolding repeated
no_bits = repeated 10 (repeated 64 false)

-- One round of the loop of `from_statuses`.
unfoldable pub add_status : ℕ → StatusCodeSet → StatusCodeSet
unfolding change_at
add_status idx bits =
    if ltb idx 640 then change_at (idx / 64) (change_at (idx % 64) (λ _. true)) bits else bits

unfoldable add_statuses : List ℕ → StatusCodeSet → StatusCodeSet
unfolding add_status
add_statuses [] bits = bits
add_statuses (status ∷ statuses) bits = add_statuses statuses (add_status status bits)

unfoldable pub from_statuses : List ℕ → StatusCodeSet
unfolding add_statuses no_bits
from_statuses statuses = add_statuses statuses no_bits

unfoldable pub contains : StatusCodeSet → ℕ → Bool
unfolding at_or
contains bits idx = ltb idx 640 && at_or false (idx % 64) (at_or [] (idx / 64) bits)

-- Ten words, each of 64 bits.
abbrev WellSized : StatusCodeSet → Type 0
WellSized bits = (length bits ≡ 10) × ((i : ℕ) → i < 10 → length (at_or [] i bits) ≡ 64)

same_index : (i j : ℕ) → (j / 64 ≡ i / 64) → (j % 64 ≡ i % 64) → i ≡ j
same_index i j q r = omega arith

contains-add_status :
    (idx j : ℕ) (bits : StatusCodeSet)
    → WellSized bits
    → contains (add_status idx bits) j ≡ (ltb j 640 && (idx == j || contains bits j))
unfolding contains add_status
contains-add_status idx j bits (n, w) = elim (dec_lt idx 640) [
  | no big ↦ ground arith
  | yes small ↦
      let row =
        at_or-change_at [] (change_at (idx % 64) (λ _. true)) (idx / 64) (j / 64) bits
          (omega arith) in
      let bit = at_or-change_at false (λ _. true) (idx % 64) (j % 64) (at_or [] (j / 64) bits) in
      let full = w (j / 64) in
      let unequal = same_index idx j in ground (arith, row, bit, full, unequal)
]

add_status-WellSized :
    (idx : ℕ) (bits : StatusCodeSet) → WellSized bits → WellSized (add_status idx bits)
unfolding add_status
add_status-WellSized idx bits (n, w) = elim (dec_lt idx 640) [
  | no big ↦ (ground arith, λ i l. ground (arith, w i l))
  | yes small ↦ (
    ground (arith, length-change_at (idx / 64) (change_at (idx % 64) (λ _. true)) bits),
    λ i l. ground (
      arith,
      w i l,
      at_or-change_at [] (change_at (idx % 64) (λ _. true)) (idx / 64) i bits (omega arith),
      length-change_at (idx % 64) (λ _. true) (at_or [] i bits),
    ),
  )
]

contains-add_statuses :
    (statuses : List ℕ) (j : ℕ) (bits : StatusCodeSet)
    → WellSized bits
    → contains (add_statuses statuses bits) j ≡ (ltb j 640 && (elem j statuses || contains bits j))
unfolding add_statuses
contains-add_statuses [] j bits w = unfold contains in ground arith
contains-add_statuses (x ∷ xs) j bits w = ground (
  arith,
  contains-add_statuses xs j (add_status x bits) (add_status-WellSized x bits w),
  contains-add_status x j bits w,
)

no_bits-WellSized : WellSized no_bits
unfolding no_bits at_or repeated
no_bits-WellSized = (refl, λ i l. ground (arith))

contains-no_bits : (status : ℕ) → contains no_bits status ≡ false
unfolding contains no_bits
contains-no_bits status = ground (
  arith,
  at_or-repeated [] (repeated 64 false) (status / 64) 10,
  at_or-repeated false false (status % 64) 64,
)

-- The bit set is the list: a status is in it exactly when the list has it and it is below 640.
pub contains-from_statuses :
    (statuses : List ℕ) (status : ℕ)
    → contains (from_statuses statuses) status ≡ (ltb status 640 && elem status statuses)
unfolding from_statuses
contains-from_statuses statuses status = ground (
  arith,
  contains-add_statuses statuses status no_bits no_bits-WellSized,
  contains-no_bits status,
)
