-- ===== src/Control/Merged.antt =====
-- The order and the contents of sorted and of merged plugins (core/plugin/mod.rs, route.rs).
use pingsix.Prelude.{
  ℕ, ◌≤◌, ◌≡◌, refl, ap, ◌∙◌, inl, inr, Bool, true, false, ◌||◌, Bool-cases, List, [], ◌∷◌, ◌++◌,
  if◌then◌else◌, Bytes, bytes_eq, ◌==◌, leb, arith, All, nat_eq,
}
use mathlib.Core.List.{Perm, perm_middle}
use mathlib.Core.List.Perm
use pingsix.Control.Registry.{PluginEntry}
use pingsix.Control.Merge.{
  name_of, priority_of, goes_before, place, sort_plugins_by_priority_desc, place_name,
  build_plugin_name_index, route_overrides_plugin, merge_route_and_service_plugins, has_plugin,
}

-- The priorities do not increase.
abbrev pub IsDescending : List PluginEntry → Type 0
IsDescending [] = Unit
IsDescending (x ∷ xs) = All (λ y. priority_of y ≤ priority_of x) xs × IsDescending xs

place-All :
    (P : PluginEntry → Type 0) (x : PluginEntry) (xs : List PluginEntry)
    → P x
    → All P xs
    → All P (place x xs)
unfolding place
place-All P x [] p h = (p, tt)
place-All P x (y ∷ ys) p (q, h) =
    elim (goes_before y x) as (λ b. All P (if b then y ∷ place x ys else x ∷ y ∷ ys)) [
      | true ↦ (q, place-All P x ys p h)
      | false ↦ (p, (q, h))
    ]

All-le :
    (n m : ℕ) (xs : List PluginEntry)
    → n ≤ m
    → All (λ y. priority_of y ≤ n) xs
    → All (λ y. priority_of y ≤ m) xs
All-le n m [] l h = tt
All-le n m (x ∷ xs) l (p, h) = (omega arith, All-le n m xs l h)

ahead : (x y : PluginEntry) → goes_before y x ≡ true → priority_of x ≤ priority_of y
unfolding goes_before
ahead x y h = ground arith

behind : (x y : PluginEntry) → goes_before y x ≡ false → priority_of y ≤ priority_of x
unfolding goes_before
behind x y h = ground arith

if_true : {A : Type 0} (b : Bool) (x y : A) → b ≡ true → (if b then x else y) ≡ x
if_true b x y h = ground arith

if_false : {A : Type 0} (b : Bool) (x y : A) → b ≡ false → (if b then x else y) ≡ y
if_false b x y h = ground arith

place-IsDescending :
    (x : PluginEntry) (xs : List PluginEntry) → IsDescending xs → IsDescending (place x xs)
unfolding place
place-IsDescending x [] h = (tt, tt)
place-IsDescending x (y ∷ ys) (below, h) = elim (Bool-cases (goes_before y x)) [
  | inl first ↦ rw (if_true _ _ _ first) (
    place-All (λ z. priority_of z ≤ priority_of y) x ys (ahead x y first) below,
    place-IsDescending x ys h,
  )
  | inr last ↦
      let over = behind x y last in
      rw (if_false _ _ _ last)
        ((over, All-le (priority_of y) (priority_of x) ys over below), (below, h))
]

pub sort_plugins-IsDescending :
    (xs : List PluginEntry) → IsDescending (sort_plugins_by_priority_desc xs)
unfolding sort_plugins_by_priority_desc
sort_plugins-IsDescending [] = tt
sort_plugins-IsDescending (x ∷ xs) = place-IsDescending x _ (sort_plugins-IsDescending xs)

place-Perm : (x : PluginEntry) (xs : List PluginEntry) → Perm (place x xs) (x ∷ xs)
unfolding place
place-Perm x [] = Perm.refl (x ∷ [])
place-Perm x (y ∷ ys) =
    elim (goes_before y x) as (λ b. Perm (if b then y ∷ place x ys else x ∷ y ∷ ys) (x ∷ y ∷ ys)) [
      | true ↦ Perm.trans (Perm.cons y (place-Perm x ys)) (Perm.swap x y ys)
      | false ↦ Perm.refl (x ∷ y ∷ ys)
    ]

pub sort_plugins-Perm : (xs : List PluginEntry) → Perm (sort_plugins_by_priority_desc xs) xs
unfolding sort_plugins_by_priority_desc
sort_plugins-Perm [] = Perm.refl []
sort_plugins-Perm (x ∷ xs) =
    Perm.trans (place-Perm x (sort_plugins_by_priority_desc xs))
      (Perm.cons x (sort_plugins-Perm xs))

place_name-overrides :
    (n m : Bytes) (names : List Bytes)
    → route_overrides_plugin (place_name n names) m ≡ (n == m || route_overrides_plugin names m)
unfolding place_name route_overrides_plugin
place_name-overrides n m [] = refl
place_name-overrides n m (k ∷ names) = ground (arith, place_name-overrides n m names)

-- The index has the names of the plugins.
pub name_index-has_plugin :
    (es : List PluginEntry) (m : Bytes)
    → route_overrides_plugin (build_plugin_name_index es) m ≡ has_plugin m es
unfolding build_plugin_name_index has_plugin route_overrides_plugin
name_index-has_plugin [] m = refl
name_index-has_plugin (e ∷ es) m =
    place_name-overrides (name_of e) m (build_plugin_name_index es)
    ∙ ap (λ b. name_of e == m || b) (name_index-has_plugin es m)

-- The plugins of a service that the route does not have.
abbrev pub not_overridden : List Bytes → List PluginEntry → List PluginEntry
not_overridden names [] = []
not_overridden names (s ∷ ss) =
    let rest = not_overridden names ss in
    if route_overrides_plugin names (name_of s) then rest else s ∷ rest

merge-All :
    (P : PluginEntry → Type 0) (rs ss : List PluginEntry) (names : List Bytes)
    → All P rs
    → All P ss
    → All P (merge_route_and_service_plugins rs ss names)
unfolding merge_route_and_service_plugins
merge-All P [] [] names h k = tt
merge-All P (r ∷ rs) [] names (p, h) k = (p, merge-All P rs [] names h k)
merge-All P [] (s ∷ ss) names h (q, k) =
    let rest = merge-All P [] ss names h k in
    elim (route_overrides_plugin names (name_of s))
      as (λ b. All P (
        if b
        then merge_route_and_service_plugins [] ss names
        else s ∷ merge_route_and_service_plugins [] ss names)) [ true ↦ rest | false ↦ (q, rest) ]
merge-All P (r ∷ rs) (s ∷ ss) names (p, h) (q, k) =
    let left = merge-All P rs (s ∷ ss) names h (q, k) in
    let right = merge-All P (r ∷ rs) ss names (p, h) k in
    elim (leb (priority_of s) (priority_of r))
      as (λ b. All P (
        if b
        then r ∷ merge_route_and_service_plugins rs (s ∷ ss) names
        else if route_overrides_plugin names (name_of s)
        then merge_route_and_service_plugins (r ∷ rs) ss names
        else s ∷ merge_route_and_service_plugins (r ∷ rs) ss names)) [
          | true ↦ (p, left)
          | false ↦
              elim (route_overrides_plugin names (name_of s))
                as (λ b. All P (
                  if b
                  then merge_route_and_service_plugins (r ∷ rs) ss names
                  else s ∷ merge_route_and_service_plugins (r ∷ rs) ss names)) [
                    | true ↦ right
                    | false ↦ (q, right)
                  ]
        ]

-- Two lists in descending order merge into one.
pub merge-IsDescending :
    (rs ss : List PluginEntry) (names : List Bytes)
    → IsDescending rs
    → IsDescending ss
    → IsDescending (merge_route_and_service_plugins rs ss names)
unfolding merge_route_and_service_plugins
merge-IsDescending [] [] names h k = tt
merge-IsDescending (r ∷ rs) [] names (b, h) k =
    (merge-All _ rs [] names b tt, merge-IsDescending rs [] names h k)
merge-IsDescending [] (s ∷ ss) names h (c, k) =
    let rest = merge-IsDescending [] ss names h k in
    let below = merge-All (λ z. priority_of z ≤ priority_of s) [] ss names tt c in
    elim (route_overrides_plugin names (name_of s))
      as (λ b. IsDescending (
        if b
        then merge_route_and_service_plugins [] ss names
        else s ∷ merge_route_and_service_plugins [] ss names)) [
          | true ↦ rest
          | false ↦ (below, rest)
        ]
merge-IsDescending (r ∷ rs) (s ∷ ss) names (b, h) (c, k) =
    let left = merge-IsDescending rs (s ∷ ss) names h (c, k) in
    let right = merge-IsDescending (r ∷ rs) ss names (b, h) k in
    elim (Bool-cases (leb (priority_of s) (priority_of r))) [
      | inl first ↦
          let le : priority_of s ≤ priority_of r = ground arith in
          rw (if_true _ _ _ first) (
            merge-All (λ z. priority_of z ≤ priority_of r) rs (s ∷ ss) names b
                (le, All-le (priority_of s) (priority_of r) ss le c),
            left,
          )
      | inr second ↦
          let le : priority_of r ≤ priority_of s = ground arith in
          let below =
            merge-All (λ z. priority_of z ≤ priority_of s) (r ∷ rs) ss names
              (le, All-le (priority_of r) (priority_of s) rs le b) c in
          rw (if_false _ _ _ second)
            (elim (route_overrides_plugin names (name_of s))
              as (λ b. IsDescending (
                if b
                then merge_route_and_service_plugins (r ∷ rs) ss names
                else s ∷ merge_route_and_service_plugins (r ∷ rs) ss names)) [
                  | true ↦ right
                  | false ↦ (below, right)
                ])
    ]

-- The merge has the plugins of the route, and those of the service that the route does not have.
pub merge-Perm :
    (rs ss : List PluginEntry) (names : List Bytes)
    → Perm (merge_route_and_service_plugins rs ss names) (rs ++ not_overridden names ss)
unfolding merge_route_and_service_plugins
merge-Perm [] [] names = Perm.refl []
merge-Perm (r ∷ rs) [] names = Perm.cons r (merge-Perm rs [] names)
merge-Perm [] (s ∷ ss) names =
    let rest = merge-Perm [] ss names in
    elim (route_overrides_plugin names (name_of s))
      as (λ b.
        Perm
          (if b
            then merge_route_and_service_plugins [] ss names
            else s ∷ merge_route_and_service_plugins [] ss names)
          (if b then not_overridden names ss else s ∷ not_overridden names ss)) [
            | true ↦ rest
            | false ↦ Perm.cons s rest
          ]
merge-Perm (r ∷ rs) (s ∷ ss) names =
    let left = Perm.cons r (merge-Perm rs (s ∷ ss) names) in
    let right = merge-Perm (r ∷ rs) ss names in
    elim (leb (priority_of s) (priority_of r))
      as (λ b.
        Perm
          (if b
            then r ∷ merge_route_and_service_plugins rs (s ∷ ss) names
            else if route_overrides_plugin names (name_of s)
            then merge_route_and_service_plugins (r ∷ rs) ss names
            else s ∷ merge_route_and_service_plugins (r ∷ rs) ss names)
          ((r ∷ rs) ++ not_overridden names (s ∷ ss))) [
            | true ↦ left
            | false ↦
                elim (route_overrides_plugin names (name_of s))
                  as (λ b.
                    Perm
                      (if b
                        then merge_route_and_service_plugins (r ∷ rs) ss names
                        else s ∷ merge_route_and_service_plugins (r ∷ rs) ss names)
                      ((r ∷ rs)
                        ++ (if b then not_overridden names ss else s ∷ not_overridden names ss))) [
                          | true ↦ right
                          | false ↦
                              Perm.trans (Perm.cons s right)
                                (Perm.symm (perm_middle (r ∷ rs) (not_overridden names ss)))
                        ]
          ]
