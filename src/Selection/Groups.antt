-- ===== src/Selection/Groups.antt =====
-- The set that discovery builds and the groups that are made of it.
use pingsix.Prelude.{
  ℕ, ◌≡◌, refl, max, true, Option, none, some, [], ◌∷◌, if◌then◌else◌, nat_eq, arith, inl, inr,
  Option-cases,
}
use pingsix.Selection.Backends.{
  Backend, BackendSet, backend_priority, same_backend, before, get, insert, remove, replace_backend,
  insert_backend,
}

-- The members increase.
abbrev IsAfter : Backend → BackendSet → Type 0
IsAfter b [] = Unit {0}
IsAfter b (x ∷ xs) = (before b x ≡ true) × IsAfter x xs

abbrev pub IsSorted : BackendSet → Type 0
IsSorted [] = Unit {0}
IsSorted (x ∷ xs) = IsAfter x xs

insert-IsAfter :
    (a b : Backend) (xs : BackendSet) → before a b ≡ true → IsAfter a xs → IsAfter a (insert b xs)
unfolding insert
insert-IsAfter a b [] l h = (l, tt)
insert-IsAfter a b (x ∷ xs) l (m, h) = ground (arith, insert-IsAfter x b xs)

insert-IsSorted : (b : Backend) (xs : BackendSet) → IsSorted xs → IsSorted (insert b xs)
unfolding insert
insert-IsSorted b [] h = tt
insert-IsSorted b (x ∷ xs) h = ground (arith, insert-IsAfter x b xs)

IsAfter-weaken : (a b : Backend) (xs : BackendSet) → before a b ≡ true → IsAfter b xs → IsAfter a xs
IsAfter-weaken a b [] l h = tt
IsAfter-weaken a b (x ∷ xs) l (m, h) = ground arith

remove-IsAfter : (a b : Backend) (xs : BackendSet) → IsAfter a xs → IsAfter a (remove b xs)
unfolding remove
remove-IsAfter a b [] h = tt
remove-IsAfter a b (x ∷ xs) (m, h) =
    ground (arith, remove-IsAfter x b xs, IsAfter-weaken a x xs m h)

IsAfter-IsSorted : (a : Backend) (xs : BackendSet) → IsAfter a xs → IsSorted xs
IsAfter-IsSorted a [] h = tt
IsAfter-IsSorted a (x ∷ xs) (m, h) = h

remove-IsSorted : (b : Backend) (xs : BackendSet) → IsSorted xs → IsSorted (remove b xs)
unfolding remove
remove-IsSorted b [] h = tt
remove-IsSorted b (x ∷ xs) h = ground (arith, remove-IsAfter x b xs h, IsAfter-IsSorted x xs h)

-- A backend before all members is not one of them.
get-IsAfter :
    (a y : Backend) (xs : BackendSet) → IsAfter a xs → same_backend y a ≡ true → get y xs ≡ none
unfolding get
get-IsAfter a y [] h s = refl
get-IsAfter a y (x ∷ xs) (m, h) s = ground (arith, get-IsAfter a y xs, IsAfter-weaken a x xs m h)

get-insert :
    (y b : Backend) (xs : BackendSet)
    → get b xs ≡ none
    → get y (insert b xs) ≡ (if same_backend y b then some b else get y xs)
unfolding get insert
get-insert y b [] h = refl
get-insert y b (x ∷ xs) h = ground (arith, get-insert y b xs)

get-remove :
    (y b : Backend) (xs : BackendSet)
    → IsSorted xs
    → get y (remove b xs) ≡ (if same_backend y b then none else get y xs)
unfolding get remove
get-remove y b [] h = ground arith
get-remove y b (x ∷ xs) h =
    ground (arith, get-remove y b xs, IsAfter-IsSorted x xs h, get-IsAfter x y xs h)

-- The priority with which a set has a backend.
abbrev pub priority_at : Backend → BackendSet → Option ℕ
priority_at y set = elim (get y set) [ none ↦ none | some b ↦ some (backend_priority b) ]

-- The higher of a priority and one that may be there.
abbrev pub or_higher : ℕ → Option ℕ → ℕ
or_higher p none = p
or_higher p (some q) = max p q

get-same : (y b : Backend) (xs : BackendSet) → same_backend y b ≡ true → get y xs ≡ get b xs
unfolding get
get-same y b [] s = refl
get-same y b (x ∷ xs) s = ground (arith, get-same y b xs s)

get-found : (b e : Backend) (xs : BackendSet) → get b xs ≡ some e → same_backend b e ≡ true
unfolding get
get-found b e [] h = absurd (ground arith)
get-found b e (x ∷ xs) h = ground (arith, get-found b e xs)

-- `insert_backend` keeps the set in order and without two equal backends. A backend equal to the
-- inserted one is then there with the higher of the two priorities; no other backend changes.
pub insert_backend-priority :
    (set : BackendSet) (backend y : Backend)
    → IsSorted set
    → IsSorted (insert_backend set backend)
      × (priority_at y (insert_backend set backend) ≡ (
          if same_backend y backend
          then some (or_higher (backend_priority backend) (priority_at backend set))
          else priority_at y set))
unfolding insert_backend replace_backend
insert_backend-priority set backend y h = elim (Option-cases (get backend set)) [
  | inl e ↦
      (ground (arith, insert-IsSorted backend set h), ground (arith, get-insert y backend set e))
  | inr (old, e) ↦ (
    ground (arith, remove-IsSorted old set h, insert-IsSorted backend (remove old set)),
    ground (
      arith,
      get-same y backend set,
      get-found backend old set e,
      get-remove backend old set h,
      get-remove y old set h,
      get-insert y backend (remove old set),
    ),
  )
]
