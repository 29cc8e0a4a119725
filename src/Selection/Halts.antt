-- ===== src/Selection/Halts.antt =====
-- The loop of `next` ends: what is left of the draws and of the groups falls in every round.
use pingsix.Prelude.{
  ℕ, zero, suc, ◌+◌, ◌-◌, ◌*◌, ◌/◌, ◌≤◌, ◌<◌, ◌≡◌, ◌≢◌, refl, Bool, true, false, Option, none, some,
  List, [], ◌∷◌, if◌then◌else◌, ltb, is_nil, length, get_elem?, All, arith, ◌⊎◌, inl, inr, is_some,
  Option-cases, Bool-cases,
}
use pingsix.Selection.Backends.{Backend, BackendSet, PriorityGroup}
use pingsix.Selection.Iterate.{
  group_draw_budget, group_rounds, rounds_from, set_bit, zeros, binary_search, Cursor, Round,
  continues, returned, unseen_from, cover, take_index, enter, draw_inner, draw_one, in_group, round,
  next_loop, next,
}

-- A group that `group_by_priority` makes has a member.
abbrev pub IsInhabited : PriorityGroup → Type 0
IsInhabited g = 0 < length g.backends

rounds_from-some :
    (n : ℕ) (groups : List PriorityGroup) (g : PriorityGroup)
    → get_elem? groups n ≡ some g
    → rounds_from n groups ≡ group_rounds g + rounds_from (suc n) groups
rounds_from-some n [] g h = absurd (ground arith)
rounds_from-some zero (x ∷ gs) g h = ground arith
rounds_from-some (suc n) (x ∷ gs) g h = rounds_from-some n gs g h

rounds_from-le : (n : ℕ) (groups : List PriorityGroup) → rounds_from n groups ≤ rounds_from 0 groups
rounds_from-le n [] = omega arith
rounds_from-le zero (g ∷ gs) = omega arith
rounds_from-le (suc n) (g ∷ gs) = omega (arith, rounds_from-le n gs)

pub All-get :
    (n : ℕ) (groups : List PriorityGroup) (g : PriorityGroup)
    → All IsInhabited groups
    → get_elem? groups n ≡ some g
    → IsInhabited g
All-get n [] g a h = absurd (ground arith)
All-get zero (x ∷ gs) g (i, a) h = ground arith
All-get (suc n) (x ∷ gs) g (i, a) h = All-get n gs g a h

Round-cases :
    {A : Type 0} (r : A × Round)
    → (r ≡ (r.0, continues)) ⊎ ((o : Option ℕ) × (r ≡ (r.0, returned o)))
Round-cases (a, continues) = inl refl
Round-cases (a, returned o) = inr (o, refl)

pub is_nil-set_bit : (i : ℕ) (bs : List Bool) → is_nil (set_bit i bs) ≡ is_nil bs
unfolding set_bit
is_nil-set_bit i [] = refl
is_nil-set_bit zero (b ∷ bs) = refl
is_nil-set_bit (suc i) (b ∷ bs) = refl

is_nil-zeros : (n : ℕ) → 0 < n → is_nil (zeros n) ≡ false
unfolding zeros
is_nil-zeros zero h = absurd (omega arith)
is_nil-zeros (suc n) h = refl

-- The second phase goes past the member that it returns.
unseen_from-some :
    (n next : ℕ) (seen : List Bool) (i : ℕ)
    → (unseen_from n next seen).1 ≡ some i
    → ((unseen_from n next seen).0 ≡ suc i) × (next ≤ i) × (i < next + n)
unfolding unseen_from
unseen_from-some zero next seen i h = absurd (ground arith)
unseen_from-some (suc n) next seen i h = ground (arith, unseen_from-some n (suc next) seen i)

-- What is left of the current group, once it is entered.
abbrev left_in : {Iter : Type 0} → PriorityGroup → Cursor Iter → ℕ
left_in g c =
    if is_nil c.seen
    then group_rounds g
    else suc ((group_draw_budget (length g.backends) - c.drawn) + (length g.backends - c.next))

-- What is left in all.
abbrev pub left : {Iter : Type 0} → List PriorityGroup → Cursor Iter → ℕ
left groups c = elim (get_elem? groups c.group) [
  | none ↦ 0
  | some g ↦ left_in g c + rounds_from (suc c.group) groups
]

left-fresh :
    {Iter : Type 0} (groups : List PriorityGroup) (c : Cursor Iter)
    → is_nil c.seen ≡ true
    → left groups c ≤ rounds_from c.group groups
left-fresh groups c h = elim (Option-cases (get_elem? groups c.group)) [
  | inl e ↦ ground arith
  | inr (g, e) ↦ ground (arith, rounds_from-some c.group groups g e)
]

module _ {Iter : Type 0} (iter : BackendSet → Iter) (draw : Iter → Iter × Option Backend) where
  pub enter-seen :
      (g : PriorityGroup) (c : Cursor Iter)
      → IsInhabited g
      → (is_nil (enter iter draw g c).seen ≡ false)
        × ((enter iter draw g c).group ≡ c.group)
        × (left_in g (enter iter draw g c) ≡ left_in g c)
  unfolding enter
  enter-seen g c h = elim (Bool-cases (is_nil c.seen)) [
    | inl e ↦
        let words : 0 < 64 * ((length g.backends + 63) / 64) = omega arith in
        (ground (arith, is_nil-zeros _ words), ground arith, ground (arith, is_nil-zeros _ words))
    | inr e ↦ (ground arith, ground arith, ground arith)
  ]

  pub take_index-left :
      (i : Option ℕ) (c d : Cursor Iter) (o : Round)
      → take_index i c ≡ (d, o)
      → (d.group ≡ c.group)
        × (is_nil d.seen ≡ is_nil c.seen)
        × (d.drawn ≡ c.drawn)
        × (d.next ≡ c.next)
  unfolding take_index
  take_index-left none c d o h = ground arith
  take_index-left (some i) c d o h = ground (arith, is_nil-set_bit i c.seen)

  draw_one-left :
      (g : PriorityGroup) (c d : Cursor Iter) (o : Round)
      → is_nil c.seen ≡ false
      → c.drawn < group_draw_budget (length g.backends)
      → draw_one iter draw g c ≡ (d, o)
      → (d.group ≡ c.group) × (left_in g d < left_in g c)
  unfolding draw_one
  draw_one-left g c d o s l h = elim (Option-cases (draw_inner iter draw c.inner).1) [
    | inl e ↦ ground arith
    | inr (b, e) ↦
        let c' = record c { inner = (draw_inner iter draw c.inner).0; drawn = suc c.drawn } in
        ground (arith, take_index-left (binary_search b g.backends) c' d o)
  ]

  cover-left :
      (groups : List PriorityGroup) (g : PriorityGroup) (c d : Cursor Iter) (o : Round)
      → get_elem? groups c.group ≡ some g
      → is_nil c.seen ≡ false
      → cover g c ≡ (d, o)
      → left groups d < left groups c
  unfolding cover
  cover-left groups g c d o at s h =
      elim (Option-cases (unseen_from (length g.backends - c.next) c.next c.seen).1) [
        | inl e ↦ ground (arith, left-fresh groups d)
        | inr (i, e) ↦ ground (
          arith,
          is_nil-set_bit i c.seen,
          unseen_from-some (length g.backends - c.next) c.next c.seen i e,
        )
      ]

  in_group-left :
      (groups : List PriorityGroup) (g : PriorityGroup) (c d : Cursor Iter) (o : Round)
      → get_elem? groups c.group ≡ some g
      → IsInhabited g
      → in_group iter draw g c ≡ (d, o)
      → left groups d < left groups c
  unfolding in_group
  in_group-left groups g c d o at i h =
      let e = enter iter draw g c in
      let (s, same, kept) = enter-seen g c i in
      elim (Bool-cases (ltb e.drawn (group_draw_budget (length g.backends)))) [
        | inl more ↦ ground (arith, draw_one-left g e d o s)
        | inr spent ↦ ground (arith, cover-left groups g e d o)
      ]

  -- Every round but the last.
  pub round-left :
      (groups : List PriorityGroup) (c d : Cursor Iter) (o : Round)
      → All IsInhabited groups
      → round iter draw groups c ≡ (d, o)
      → o ≢ returned none
      → left groups d < left groups c
  unfolding round
  round-left groups c d o a h n = elim (Option-cases (get_elem? groups c.group)) [
    | inl e ↦ absurd (ground arith)
    | inr (g, e) ↦ in_group-left groups g c d o e (All-get c.group groups g a e) (ground arith)
  ]

  pub round-cases :
      (groups : List PriorityGroup) (c : Cursor Iter)
      → (round iter draw groups c ≡ ((round iter draw groups c).0, continues))
        ⊎ ((r : Option ℕ) × (round iter draw groups c ≡ ((round iter draw groups c).0, returned r)))
  round-cases groups c = Round-cases (round iter draw groups c)

  next_loop-enough :
      (fuel : ℕ) (groups : List PriorityGroup) (c : Cursor Iter)
      → All IsInhabited groups
      → left groups c < fuel
      → is_some (next_loop iter draw fuel groups c) ≡ true
  unfolding next_loop
  next_loop-enough zero groups c a l = absurd (omega arith)
  next_loop-enough (suc fuel) groups c a l = elim (round-cases groups c) [
    | inl e ↦
        let d = (round iter draw groups c).0 in
        ground (arith, next_loop-enough fuel groups d a, round-left groups c d continues a e)
    | inr (r, e) ↦ ground arith
  ]

  pub left-bound :
      (groups : List PriorityGroup) (c : Cursor Iter) → left groups c ≤ rounds_from 0 groups
  left-bound groups c = elim (Option-cases (get_elem? groups c.group)) [
    | inl e ↦ ground arith
    | inr (g, e) ↦
        ground (arith, rounds_from-some c.group groups g e, rounds_from-le c.group groups)
  ]

  -- Where every group has a member, the rounds that `next` is given are enough for it to return, with
  -- a member or with the end.
  pub next-returns :
      (groups : List PriorityGroup) (c : Cursor Iter)
      → All IsInhabited groups
      → is_some (next iter draw groups c) ≡ true
  unfolding next
  next-returns groups c a =
      next_loop-enough (suc (rounds_from 0 groups)) groups c a (omega (arith, left-bound groups c))
