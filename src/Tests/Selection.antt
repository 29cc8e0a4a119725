-- ===== src/Tests/Selection.antt =====
-- The selection over three backends in two groups, with an algorithm that always draws the first.
use pingsix.Prelude.{
  ℕ, suc, ◌≡◌, refl, true, Option, none, some, List, [], ◌∷◌, All, is_some, ℕ_discrete,
  if◌then◌else◌,
}
use pingsix.Selection.{
  Backend, BackendSet, get, insert_backend, backend_priority, group_by_priority, rounds_from, next,
  new_cursor, iter_groups, next_backend, group_draw_budget,
}
use pingsix.Selection.Grouping
use pingsix.Selection.Grouping.{IsFalling, IsGroup, in_groups}
use pingsix.Selection.Coverage.{is_member}
use pingsix.Selection.Walk
use pingsix.Selection.Walk.{walk, count, IsFrom}

unfoldable program : Unit {0}
unfolding insert_backend group_by_priority iter_groups next_backend walk next group_draw_budget
    ℕ_discrete new_cursor backend_priority get
program = tt

abbrev primary : Backend
primary = record { addr = 1; weight = 5; priority = none }

abbrev other : Backend
other = record { addr = 2; weight = 5; priority = none }

abbrev backup : Backend
backup = record { addr = 3; weight = 1; priority = some 120 }

abbrev backends : BackendSet
backends = primary ∷ other ∷ backup ∷ []

-- The members that are still to be drawn.
abbrev iter : BackendSet → BackendSet
iter set = set

abbrev draw : BackendSet → BackendSet × Option Backend
draw [] = ([], none)
draw (b ∷ bs) = (b ∷ bs, some b)

two_groups :
    group_by_priority backends
    ≡ record { priority = 128; backends = primary ∷ other ∷ [] }
      ∷ record { priority = 120; backends = backup ∷ [] }
      ∷ []
unfolding program
two_groups = refl

-- The second member comes although the algorithm never draws it.
whole_walk :
    walk iter draw 5 (group_by_priority backends) (new_cursor iter draw)
    ≡ some ((0, 0) ∷ (0, 1) ∷ (1, 0) ∷ [])
unfolding program
whole_walk = refl

group_by_priority-next_example :
    is_some (next iter draw (group_by_priority backends) (new_cursor iter draw)) ≡ true
group_by_priority-next_example =
    Grouping.group_by_priority-next iter draw backends (new_cursor iter draw)

group_by_priority-IsGroup_example :
    IsFalling (group_by_priority backends)
    × All IsGroup (group_by_priority backends)
    × (in_groups backup (group_by_priority backends) ≡ is_some (get backup backends))
group_by_priority-IsGroup_example = Grouping.group_by_priority-IsGroup backends backup

walk-once_example :
    let groups = group_by_priority backends in
    let c = new_cursor iter draw in
    (ps : List (ℕ × ℕ)) × (walk iter draw (suc (rounds_from 0 groups)) groups c ≡ some ps)
    × ((g i : ℕ) → count g i ps ≡ (if is_member g i groups then 1 else 0))
    × IsFrom 0 ps
unfolding iter_groups group_by_priority program
walk-once_example = Walk.walk-once iter draw backends (new_cursor iter draw) refl

-- The first backend again, at a higher priority.
abbrev raised : Backend
raised = record { addr = 1; weight = 5; priority = some 130 }
