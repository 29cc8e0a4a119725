-- ===== src/Selection/Grouping.antt =====
-- The groups that are made of a set of backends.
use pingsix.Prelude.{
  ℕ, ◌<◌, ◌≡◌, refl, Bool, true, false, ◌||◌, Option, List, [], ◌∷◌, nat_eq, length, All, arith,
  is_some,
}
use pingsix.Selection.Backends.{
  Backend, BackendSet, backend_priority, same_backend, get, insert, PriorityGroup, enter_group,
  enter_groups, group_by_priority,
}
use pingsix.Selection.Iterate.{Cursor, next}
use pingsix.Selection.Halts.{IsInhabited, next-returns}

-- A group of members that have its priority, one at least.
abbrev pub IsGroup : PriorityGroup → Type 0
IsGroup g = IsInhabited g × All (λ b. backend_priority b ≡ g.priority) g.backends

-- The priorities fall.
abbrev IsBelow : ℕ → List PriorityGroup → Type 0
IsBelow p [] = Unit {0}
IsBelow p (g ∷ gs) = (g.priority < p) × IsBelow g.priority gs

abbrev pub IsFalling : List PriorityGroup → Type 0
IsFalling [] = Unit {0}
IsFalling (g ∷ gs) = IsBelow g.priority gs

-- Whether a group has a backend.
abbrev pub in_groups : Backend → List PriorityGroup → Bool
in_groups b [] = false
in_groups b (g ∷ gs) = is_some (get b g.backends) || in_groups b gs

insert-All :
    (P : Backend → Type 0) (b : Backend) (xs : BackendSet) → P b → All P xs → All P (insert b xs)
unfolding insert
insert-All P b [] p h = (p, tt)
insert-All P b (x ∷ xs) p (q, h) = ground (arith, insert-All P b xs p h)

insert-inhabited : (b : Backend) (xs : BackendSet) → 0 < length (insert b xs)
unfolding insert
insert-inhabited b [] = ground arith
insert-inhabited b (x ∷ xs) = ground arith

get-insert-some :
    (y b : Backend) (xs : BackendSet)
    → is_some (get y (insert b xs)) ≡ (same_backend y b || is_some (get y xs))
unfolding get insert
get-insert-some y b [] = ground arith
get-insert-some y b (x ∷ xs) = ground (arith, get-insert-some y b xs)

enter_group-IsBelow :
    (b : Backend) (p : ℕ) (gs : List PriorityGroup)
    → backend_priority b < p
    → IsBelow p gs
    → IsBelow p (enter_group b gs)
unfolding enter_group
enter_group-IsBelow b p [] l h = (l, tt)
enter_group-IsBelow b p (g ∷ gs) l (m, h) = ground (arith, enter_group-IsBelow b g.priority gs)

enter_group-IsFalling :
    (b : Backend) (gs : List PriorityGroup) → IsFalling gs → IsFalling (enter_group b gs)
unfolding enter_group
enter_group-IsFalling b [] h = tt
enter_group-IsFalling b (g ∷ gs) h = ground (arith, enter_group-IsBelow b g.priority gs)

enter_group-IsGroup :
    (b : Backend) (gs : List PriorityGroup) → All IsGroup gs → All IsGroup (enter_group b gs)
unfolding enter_group
enter_group-IsGroup b [] h = ground arith
enter_group-IsGroup b (g ∷ gs) ((i, m), h) = ground (
  arith,
  enter_group-IsGroup b gs h,
  insert-inhabited b g.backends,
  insert-All (λ x. backend_priority x ≡ g.priority) b g.backends,
)

in_groups-enter_group :
    (y b : Backend) (gs : List PriorityGroup)
    → in_groups y (enter_group b gs) ≡ (same_backend y b || in_groups y gs)
unfolding enter_group get
in_groups-enter_group y b [] = ground arith
in_groups-enter_group y b (g ∷ gs) =
    ground (arith, in_groups-enter_group y b gs, get-insert-some y b g.backends)

record IsGrouping (gs : List PriorityGroup) : Type 0 where
  falling : IsFalling gs
  groups : All IsGroup gs

enter_groups-IsGrouping :
    (bs : BackendSet) (gs : List PriorityGroup) → IsGrouping gs → IsGrouping (enter_groups bs gs)
unfolding enter_groups
enter_groups-IsGrouping [] gs h = h
enter_groups-IsGrouping (b ∷ bs) gs h = enter_groups-IsGrouping bs (enter_group b gs) (record {
  falling = enter_group-IsFalling b gs h.falling;
  groups = enter_group-IsGroup b gs h.groups;
})

in_groups-enter_groups :
    (y : Backend) (bs : BackendSet) (gs : List PriorityGroup)
    → in_groups y (enter_groups bs gs) ≡ (is_some (get y bs) || in_groups y gs)
unfolding enter_groups get
in_groups-enter_groups y [] gs = refl
in_groups-enter_groups y (b ∷ bs) gs =
    ground (arith, in_groups-enter_groups y bs (enter_group b gs), in_groups-enter_group y b gs)

-- The groups of a set fall in priority; each has a member at least, and all its members have its
-- priority; and a backend is in some group exactly when the set has it.
pub group_by_priority-IsGroup :
    (backends : BackendSet) (y : Backend)
    → IsFalling (group_by_priority backends)
      × All IsGroup (group_by_priority backends)
      × (in_groups y (group_by_priority backends) ≡ is_some (get y backends))
unfolding group_by_priority
group_by_priority-IsGroup backends y =
    let g = enter_groups-IsGrouping backends [] (record { falling = tt; groups = tt }) in
    (g.falling, g.groups, ground (arith, in_groups-enter_groups y backends []))

IsGroup-IsInhabited : (gs : List PriorityGroup) → All IsGroup gs → All IsInhabited gs
IsGroup-IsInhabited [] h = tt
IsGroup-IsInhabited (g ∷ gs) ((i, m), h) = (i, IsGroup-IsInhabited gs h)

pub group_by_priority-IsInhabited :
    (backends : BackendSet) → All IsInhabited (group_by_priority backends)
unfolding group_by_priority
group_by_priority-IsInhabited backends =
    let g = enter_groups-IsGrouping backends [] (record { falling = tt; groups = tt }) in
    IsGroup-IsInhabited _ g.groups

-- Over the groups of any set, whatever the inner algorithm draws and wherever the cursor stands,
-- `next` returns within the rounds that it is given, with a member or with the end.
pub group_by_priority-next :
    {Iter : Type 0} (iter : BackendSet → Iter) (draw : Iter → Iter × Option Backend)
    (backends : BackendSet) (c : Cursor Iter)
    → is_some (next iter draw (group_by_priority backends) c) ≡ true
group_by_priority-next iter draw backends c =
    next-returns iter draw (group_by_priority backends) c (group_by_priority-IsInhabited backends)
