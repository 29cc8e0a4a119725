-- ===== src/Selection/Iterate.antt =====
-- `PriorityGroupedIter` (selection.rs). `Iter` is the iterator of the inner algorithm, `iter` makes
-- one for the backends of a group, `draw` is its `next`.
use pingsix.Prelude.{
  ℕ, zero, suc, ◌+◌, ◌-◌, ◌*◌, ◌/◌, ◌^◌, max, min, Bool, true, false, Option, none, some, List, [],
  ◌∷◌, if◌then◌else◌, ltb, is_nil, length, get_elem?,
}
use pingsix.Selection.Backends.{Backend, BackendSet, same_backend, PriorityGroup}

-- `group_len.saturating_mul(8).max(64)` on 64 bits.
unfoldable pub group_draw_budget : ℕ → ℕ
group_draw_budget group_len = max (min (group_len * 8) (2 ^ 64 - 1)) 64

-- The bits of `seen`, of all its words.
abbrev pub bit : ℕ → List Bool → Bool
bit i [] = false
bit zero (b ∷ bs) = b
bit (suc i) (b ∷ bs) = bit i bs

unfoldable pub set_bit : ℕ → List Bool → List Bool
set_bit i [] = []
set_bit zero (b ∷ bs) = true ∷ bs
set_bit (suc i) (b ∷ bs) = b ∷ set_bit i bs

unfoldable pub zeros : ℕ → List Bool
zeros zero = []
zeros (suc n) = false ∷ zeros n

-- `binary_search`: the members of a group are in order and differ.
unfoldable pub binary_search : Backend → BackendSet → Option ℕ
binary_search b [] = none
binary_search b (x ∷ xs) =
    let rest = binary_search b xs in
    if same_backend b x then some 0 else elim rest [ none ↦ none | some i ↦ some (suc i) ]

pub record Cursor (Iter : Type 0) : Type 0 where
  pub group : ℕ
  pub inner : Option Iter
  pub seen : List Bool
  pub drawn : ℕ
  pub next : ℕ

-- How a round of the loop of `next` ends; a member is given by its index in the group.
pub data Round : Type 0 where
  continues : Round
  returned : Option ℕ → Round

-- The second phase: the first index from `next` on that is not seen, of `n` that are left.
unfoldable pub unseen_from : ℕ → ℕ → List Bool → ℕ × Option ℕ
unseen_from zero next seen = (next, none)
unseen_from (suc n) next seen =
    let rest = unseen_from n (suc next) seen in
    if bit next seen then rest else (suc next, some next)

unfoldable pub cover : {Iter : Type 0} → PriorityGroup → Cursor Iter → Cursor Iter × Round
unfolding unseen_from set_bit
cover g c =
    let r = unseen_from (length g.backends - c.next) c.next c.seen in
    elim r.1 [
      | some index ↦ (record c { next = r.0; seen = set_bit index c.seen }, returned (some index))
      | none ↦ (record c { group = suc c.group; inner = none; seen = []; next = r.0 }, continues)
    ]

-- What a round does with the member that was drawn.
unfoldable pub take_index : {Iter : Type 0} → Option ℕ → Cursor Iter → Cursor Iter × Round
unfolding set_bit
take_index none c = (c, continues)
take_index (some index) c =
    if bit index c.seen
    then (c, continues)
    else (record c { seen = set_bit index c.seen }, returned (some index))

-- The rounds that a group can take, from its first draw to its last member, and the step to the next.
abbrev pub group_rounds : PriorityGroup → ℕ
group_rounds g = suc (group_draw_budget (length g.backends) + length g.backends)

-- The rounds of all the groups from an index on.
abbrev pub rounds_from : ℕ → List PriorityGroup → ℕ
rounds_from n [] = 0
rounds_from zero (g ∷ gs) = group_rounds g + rounds_from 0 gs
rounds_from (suc n) (g ∷ gs) = rounds_from n gs

module _ {Iter : Type 0} (iter : BackendSet → Iter) (draw : Iter → Iter × Option Backend) where
  -- The state of a group on entry: as many words as its members need.
  unfoldable pub enter : PriorityGroup → Cursor Iter → Cursor Iter
  unfolding zeros
  enter g c =
      if is_nil c.seen
      then record c {
        seen = zeros (64 * ((length g.backends + 63) / 64));
        drawn = 0;
        next = 0;
        inner = some (iter g.backends);
      }
      else c

  -- `cursor.inner.as_mut().and_then(BackendIter::next)`
  abbrev pub draw_inner : Option Iter → Option Iter × Option Backend
  draw_inner none = (none, none)
  draw_inner (some i) = let r = draw i in (some r.0, r.1)

  -- The first phase.
  unfoldable pub draw_one : PriorityGroup → Cursor Iter → Cursor Iter × Round
  unfolding group_draw_budget binary_search take_index
  draw_one g c =
      let r = draw_inner c.inner in
      let d = record c { inner = r.0 } in
      elim r.1 [
        | none ↦ (record d { drawn = group_draw_budget (length g.backends) }, continues)
        | some backend ↦
            take_index (binary_search backend g.backends) (record d { drawn = suc c.drawn })
      ]

  unfoldable pub in_group : PriorityGroup → Cursor Iter → Cursor Iter × Round
  unfolding draw_one cover enter group_draw_budget
  in_group g c =
      let e = enter g c in
      if ltb e.drawn (group_draw_budget (length g.backends)) then draw_one g e else cover g e

  unfoldable pub round : List PriorityGroup → Cursor Iter → Cursor Iter × Round
  unfolding in_group
  round groups c = elim (get_elem? groups c.group) [
    | none ↦ (c, returned none)
    | some g ↦ in_group g c
  ]

  -- The loop of `next`, on fuel; `none` is fuel that ran out.
  unfoldable pub next_loop : ℕ → List PriorityGroup → Cursor Iter → Option (Cursor Iter × Option ℕ)
  unfolding round
  next_loop zero groups c = none
  next_loop (suc fuel) groups c =
      let r = round groups c in
      let rest = next_loop fuel groups r.0 in
      elim r.1 [ continues ↦ rest | returned result ↦ some (r.0, result) ]

  -- `next` of a grouped cursor
  unfoldable pub next : List PriorityGroup → Cursor Iter → Option (Cursor Iter × Option ℕ)
  unfolding next_loop group_draw_budget
  next groups c = next_loop (suc (rounds_from 0 groups)) groups c

  -- `iter` of two groups or more
  unfoldable pub new_cursor : Cursor Iter
  new_cursor = record { group = 0; inner = none; seen = []; drawn = 0; next = 0 }

-- The member at an index of the cursor's group.
abbrev pub member_at :
    {Iter : Type 0} → List PriorityGroup → Cursor Iter → Option ℕ → Option Backend
member_at groups c none = none
member_at groups c (some i) = elim (get_elem? groups c.group) [
  | none ↦ none
  | some g ↦ get_elem? g.backends i
]

pub data PriorityGroupedIter (Iter : Type 0) : Type 0 where
  empty : PriorityGroupedIter Iter
  flat : Iter → PriorityGroupedIter Iter
  grouped : Cursor Iter → PriorityGroupedIter Iter

module _ {Iter : Type 0} (iter : BackendSet → Iter) (draw : Iter → Iter × Option Backend) where
  -- `PriorityGrouped::iter`
  unfoldable pub iter_groups : List PriorityGroup → PriorityGroupedIter Iter
  unfolding new_cursor
  iter_groups [] = empty
  iter_groups (only ∷ []) = flat (iter only.backends)
  iter_groups (g ∷ h ∷ gs) = grouped (new_cursor iter draw)

  -- `PriorityGroupedIter::next`, with `none` for the fuel of the loop.
  unfoldable pub next_backend :
      List PriorityGroup
      → PriorityGroupedIter Iter
      → Option (PriorityGroupedIter Iter × Option Backend)
  unfolding next group_draw_budget
  next_backend groups empty = some (empty, none)
  next_backend groups (flat inner) = let r = draw inner in some (flat r.0, r.1)
  next_backend groups (grouped c) = elim (next iter draw groups c) [
    | none ↦ none
    | some (d, r) ↦ some (grouped d, member_at groups d r)
  ]
