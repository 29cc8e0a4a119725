-- ===== src/Selection/Walk.antt =====
-- A selection that refuses every member that it is shown: the calls of `next` until the end.
use pingsix.Prelude.{
  ℕ, zero, suc, ◌+◌, ◌≤◌, ◌<◌, ◌≡◌, ap, ◌&&◌, Option, none, some, List, [], ◌∷◌, if◌then◌else◌,
  ◌==◌, nat_eq, get_elem?, arith, inl, inr, All, Option-cases,
}
use pingsix.Selection.Backends.{Backend, BackendSet, PriorityGroup, group_by_priority}
use pingsix.Selection.Iterate.{
  Cursor, Round, continues, returned, cover, enter, draw_one, in_group, round, next_loop,
  rounds_from, next, new_cursor, grouped, iter_groups, draw_inner, binary_search, group_draw_budget,
}
use pingsix.Selection.Halts.{
  IsInhabited, left, round-cases, round-left, left-bound, next-returns, take_index-left,
}
use pingsix.Selection.Coverage.{is_member, owed, Inv, next_loop-owed}
use pingsix.Selection.Grouping.{group_by_priority-IsInhabited}

abbrev pub count : ℕ → ℕ → List (ℕ × ℕ) → ℕ
count g i [] = 0
count g i ((h, j) ∷ ps) = (if h == g && j == i then 1 else 0) + count g i ps

-- The groups never fall behind one that was walked.
abbrev pub IsFrom : ℕ → List (ℕ × ℕ) → Type 0
IsFrom g [] = Unit {0}
IsFrom g ((h, j) ∷ ps) = (g ≤ h) × IsFrom h ps

module _ {Iter : Type 0} (iter : BackendSet → Iter) (draw : Iter → Iter × Option Backend) where
  -- The members returned, as the index of the group and the index in it; `none` is fuel that ran out.
  unfoldable pub walk : ℕ → List PriorityGroup → Cursor Iter → Option (List (ℕ × ℕ))
  unfolding next group_draw_budget
  walk zero groups c = none
  walk (suc n) groups c = elim (next iter draw groups c) [
    | none ↦ none
    | some (d, none) ↦ some []
    | some (d, some i) ↦
        let rest = walk n groups d in elim rest [ none ↦ none | some ps ↦ some ((d.group, i) ∷ ps) ]
  ]

  draw_one-group :
      (g : PriorityGroup) (c d : Cursor Iter) (o : Round)
      → draw_one iter draw g c ≡ (d, o)
      → d.group ≡ c.group
  unfolding draw_one
  draw_one-group g c d o h = elim (Option-cases (draw_inner iter draw c.inner).1) [
    | inl e ↦ ground arith
    | inr (b, e) ↦
        let c' : Cursor Iter = record c {
          inner = (draw_inner iter draw c.inner).0;
          drawn = suc c.drawn;
        } in
        ground (arith, take_index-left iter draw (binary_search b g.backends) c' d o)
  ]

  cover-group :
      (g : PriorityGroup) (c d : Cursor Iter) (o : Round) → cover g c ≡ (d, o) → c.group ≤ d.group
  unfolding cover
  cover-group g c d o h = ground arith

  enter-group : (g : PriorityGroup) (c : Cursor Iter) → (enter iter draw g c).group ≡ c.group
  unfolding enter
  enter-group g c = ground arith

  in_group-group :
      (g : PriorityGroup) (c d : Cursor Iter) (o : Round)
      → in_group iter draw g c ≡ (d, o)
      → c.group ≤ d.group
  unfolding in_group
  in_group-group g c d o h =
      let e = enter iter draw g c in
      ground (arith, enter-group g c, draw_one-group g e d o, cover-group g e d o)

  round-group :
      (groups : List PriorityGroup) (c d : Cursor Iter) (o : Round)
      → round iter draw groups c ≡ (d, o)
      → c.group ≤ d.group
  unfolding round
  round-group groups c d o h = elim (Option-cases (get_elem? groups c.group)) [
    | inl e ↦ ground arith
    | inr (g, e) ↦ ground (arith, in_group-group g c d o)
  ]

  next_loop-group :
      (fuel : ℕ) (groups : List PriorityGroup) (c d : Cursor Iter) (r : Option ℕ)
      → next_loop iter draw fuel groups c ≡ some (d, r)
      → c.group ≤ d.group
  unfolding next_loop
  next_loop-group zero groups c d r h = absurd (ground arith)
  next_loop-group (suc fuel) groups c d r h = elim (round-cases iter draw groups c) [
    | inl e ↦
        let m = (round iter draw groups c).0 in
        ground (arith, round-group groups c m continues e, next_loop-group fuel groups m d r)
    | inr (o, e) ↦
        let m = (round iter draw groups c).0 in
        ground (arith, round-group groups c m (returned o) e)
  ]

  next_loop-left :
      (fuel : ℕ) (groups : List PriorityGroup) (c d : Cursor Iter) (i : ℕ)
      → All IsInhabited groups
      → next_loop iter draw fuel groups c ≡ some (d, some i)
      → left groups d < left groups c
  unfolding next_loop
  next_loop-left zero groups c d i a h = absurd (ground arith)
  next_loop-left (suc fuel) groups c d i a h = elim (round-cases iter draw groups c) [
    | inl e ↦
        let m = (round iter draw groups c).0 in
        ground
          (arith, round-left iter draw groups c m continues a e, next_loop-left fuel groups m d i a)
    | inr (o, e) ↦
        let m = (round iter draw groups c).0 in
        ground (arith, round-left iter draw groups c m (returned o) a e)
  ]

  -- What a walk that ends has returned.
  abbrev Walked : List PriorityGroup → Cursor Iter → List (ℕ × ℕ) → Type 0
  Walked groups c ps = ((g i : ℕ) → count g i ps ≡ owed g i groups c) × IsFrom c.group ps

  walk-Walked :
      (n : ℕ) (groups : List PriorityGroup) (c : Cursor Iter)
      → All IsInhabited groups
      → Inv groups c
      → left groups c < n
      → (ps : List (ℕ × ℕ)) × (walk n groups c ≡ some ps) × Walked groups c ps
  unfolding walk next
  walk-Walked zero groups c a v l = absurd (omega arith)
  walk-Walked (suc n) groups c a v l =
      let fuel = suc (rounds_from 0 groups) in
      elim (Option-cases (next iter draw groups c)) [
        | inl e ↦ absurd (ground (arith, next-returns iter draw groups c a))
        | inr ((d, none), e) ↦ (
          [],
          ground arith,
          ((λ g i. ground (arith, next_loop-owed iter draw groups fuel g i c d none a v e)), tt),
        )
        | inr ((d, some i), e) ↦
            let (_, kept, _) = next_loop-owed iter draw groups fuel 0 0 c d (some i) a v e in
            let less = next_loop-left fuel groups c d i a e in
            let (ps, walked, (counts, from)) = walk-Walked n groups d a kept (omega arith) in
            (
              (d.group, i) ∷ ps,
              ground arith,
              (
                (λ g j. ground (
                  arith,
                  counts g j,
                  next_loop-owed iter draw groups fuel g j c d (some i) a v e,
                )),
                (next_loop-group fuel groups c d (some i) e, from),
              ),
            )
      ]

IsFrom-transport : {g h : ℕ} (ps : List (ℕ × ℕ)) → g ≡ h → IsFrom g ps → IsFrom h ps
IsFrom-transport ps same from = (rw same at from)

iter_groups-new_cursor :
    {Iter : Type 0} (iter : BackendSet → Iter) (draw : Iter → Iter × Option Backend)
    (groups : List PriorityGroup) (c : Cursor Iter)
    → iter_groups iter draw groups ≡ grouped c
    → c ≡ new_cursor iter draw
unfolding iter_groups
iter_groups-new_cursor iter draw [] c h = absurd (ground arith)
iter_groups-new_cursor iter draw (only ∷ []) c h = absurd (ground arith)
iter_groups-new_cursor iter draw (g ∷ g' ∷ gs) c h = ground arith

-- Over the groups of a set for which `iter` makes a grouped iterator, which it does for two groups or
-- more, and whatever the inner algorithm draws: the calls of the cursor's `next` come to an end,
-- return every member of every group exactly once and nothing else, and never return a member of a
-- group after one of a later group.
pub walk-once :
    {Iter : Type 0} (iter : BackendSet → Iter) (draw : Iter → Iter × Option Backend)
    (backends : BackendSet) (c : Cursor Iter)
    → iter_groups iter draw (group_by_priority backends) ≡ grouped c
    → let groups = group_by_priority backends in
      (ps : List (ℕ × ℕ)) × (walk iter draw (suc (rounds_from 0 groups)) groups c ≡ some ps)
      × ((g i : ℕ) → count g i ps ≡ (if is_member g i groups then 1 else 0))
      × IsFrom 0 ps
unfolding new_cursor
walk-once iter draw backends c made =
    let groups = group_by_priority backends in
    let new = iter_groups-new_cursor iter draw groups c made in
    let first : c.group ≡ 0 = ap Cursor.group new in
    let v : Inv groups c = record {
      wide = λ i m n. absurd (ground (arith, new));
      past = λ i l n. absurd (ground (arith, new));
    } in
    let (ps, walked, (counts, from)) =
      walk-Walked iter draw (suc (rounds_from 0 groups)) groups c
        (group_by_priority-IsInhabited backends) v (omega (arith, left-bound iter draw groups c)) in
    (ps, walked, (λ g i. ground (arith, counts g i, new)), IsFrom-transport ps first from)
