-- ===== src/Selection/Backends.antt =====
-- Backends, the set that discovery builds, and the priority groups (selection.rs). An address is a
-- number, in the order of `SocketAddr`; a priority is the `i8` plus 128. A `BTreeSet` of backends is
-- their list in the order of Pingora's `Backend`, which compares the address and then the weight.
use pingsix.Prelude.{
  ℕ, Bool, ◌&&◌, ◌||◌, Option, none, some, List, [], ◌∷◌, if◌then◌else◌, ◌==◌, nat_eq, ltb,
}

pub record Backend : Type 0 where
  pub addr : ℕ
  pub weight : ℕ
  -- `NodePriority`, in `ext`
  pub priority : Option ℕ

unfoldable pub backend_priority : Backend → ℕ
backend_priority b = elim b.priority [ none ↦ 128 | some p ↦ p ]

unfoldable pub set_backend_priority : Backend → ℕ → Backend
set_backend_priority b p = record b { priority = some p }

-- `==` and `<` of `Backend`
abbrev pub same_backend : Backend → Backend → Bool
same_backend a b = a.addr == b.addr && a.weight == b.weight

abbrev pub before : Backend → Backend → Bool
before a b = ltb a.addr b.addr || (a.addr == b.addr && ltb a.weight b.weight)

abbrev pub BackendSet : Type 0
BackendSet = List Backend

-- `BTreeSet::get`
unfoldable pub get : Backend → BackendSet → Option Backend
get b [] = none
get b (x ∷ xs) = if same_backend b x then some x else get b xs

-- `BTreeSet::insert`, which keeps an equal member.
unfoldable pub insert : Backend → BackendSet → BackendSet
insert b [] = b ∷ []
insert b (x ∷ xs) =
    let rest = insert b xs in
    if same_backend b x then x ∷ xs else if before b x then b ∷ x ∷ xs else x ∷ rest

-- `BTreeSet::remove`
unfoldable pub remove : Backend → BackendSet → BackendSet
remove b [] = []
remove b (x ∷ xs) = let rest = remove b xs in if same_backend b x then xs else x ∷ rest

-- What `insert_backend` does where the set has an equal backend.
unfoldable pub replace_backend : BackendSet → Backend → Backend → BackendSet
unfolding backend_priority insert remove
replace_backend set backend existing =
    if backend_priority backend == backend_priority existing
    then set
    else if ltb (backend_priority existing) (backend_priority backend)
    then insert backend (remove existing set)
    else set

unfoldable pub insert_backend : BackendSet → Backend → BackendSet
unfolding get insert replace_backend
insert_backend set backend = elim (get backend set) [
  | none ↦ insert backend set
  | some existing ↦ replace_backend set backend existing
]

pub record PriorityGroup : Type 0 where
  pub priority : ℕ
  pub backends : BackendSet

-- `by_priority.entry(Reverse(priority)).or_default().insert(backend)`
unfoldable pub enter_group : Backend → List PriorityGroup → List PriorityGroup
unfolding backend_priority insert
enter_group b [] = record { priority = backend_priority b; backends = b ∷ [] } ∷ []
enter_group b (g ∷ gs) =
    let rest = enter_group b gs in
    if g.priority == backend_priority b
    then record g { backends = insert b g.backends } ∷ gs
    else if ltb g.priority (backend_priority b)
    then record { priority = backend_priority b; backends = b ∷ [] } ∷ g ∷ gs
    else g ∷ rest

unfoldable pub enter_groups : BackendSet → List PriorityGroup → List PriorityGroup
unfolding enter_group
enter_groups [] gs = gs
enter_groups (b ∷ bs) gs = enter_groups bs (enter_group b gs)

-- `group_by_priority`, less the selectors that it builds
unfoldable pub group_by_priority : BackendSet → List PriorityGroup
unfolding enter_groups
group_by_priority backends = enter_groups backends []
