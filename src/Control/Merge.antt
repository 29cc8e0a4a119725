-- ===== src/Control/Merge.antt =====
-- The order of plugins (core/plugin/mod.rs) and the merge of a route's plugins with its service's
-- (route.rs).
use pingsix.Prelude.{
  ℕ, Bool, true, false, ◌&&◌, ◌||◌, List, [], ◌∷◌, if◌then◌else◌, Bytes, bytes_eq, ◌==◌, nat_eq,
  ltb, leb,
}
use pingsix.Control.Registry.{PluginEntry}

-- `name()` and `priority()` of an entry
abbrev pub name_of : PluginEntry → Bytes
name_of e = e.plugin.name

abbrev pub priority_of : PluginEntry → ℕ
priority_of e = e.plugin.priority

-- `<` of two strings
unfoldable pub ltb_bytes : Bytes → Bytes → Bool
ltb_bytes [] [] = false
ltb_bytes [] (_ ∷ _) = true
ltb_bytes (_ ∷ _) [] = false
ltb_bytes (x ∷ xs) (y ∷ ys) = ltb x y || (x == y && ltb_bytes xs ys)

-- The comparison answers `Less`.
unfoldable pub goes_before : PluginEntry → PluginEntry → Bool
unfolding ltb_bytes
goes_before a b =
    ltb (priority_of b) (priority_of a)
    || (priority_of a == priority_of b && ltb_bytes (name_of a) (name_of b))

-- An entry is placed behind those that go before it, so that equal ones keep their order.
unfoldable pub place : PluginEntry → List PluginEntry → List PluginEntry
unfolding goes_before
place x [] = x ∷ []
place x (y ∷ ys) = let rest = place x ys in if goes_before y x then y ∷ rest else x ∷ y ∷ ys

-- `sort_by`, which is stable
unfoldable pub sort_plugins_by_priority_desc : List PluginEntry → List PluginEntry
unfolding place
sort_plugins_by_priority_desc [] = []
sort_plugins_by_priority_desc (x ∷ xs) = place x (sort_plugins_by_priority_desc xs)

unfoldable pub place_name : Bytes → List Bytes → List Bytes
unfolding ltb_bytes
place_name x [] = x ∷ []
place_name x (y ∷ ys) =
    let rest = place_name x ys in
    if x == y then y ∷ ys else if ltb_bytes y x then y ∷ rest else x ∷ y ∷ ys

-- `sort` and `dedup` of the names
unfoldable pub build_plugin_name_index : List PluginEntry → List Bytes
unfolding place_name
build_plugin_name_index [] = []
build_plugin_name_index (e ∷ es) = place_name (name_of e) (build_plugin_name_index es)

-- A binary search in the sorted names finds those that are there.
unfoldable pub route_overrides_plugin : List Bytes → Bytes → Bool
route_overrides_plugin [] name = false
route_overrides_plugin (n ∷ names) name = n == name || route_overrides_plugin names name

unfoldable pub merge_route_and_service_plugins :
    List PluginEntry → List PluginEntry → List Bytes → List PluginEntry
unfolding route_overrides_plugin
merge_route_and_service_plugins [] [] names = []
merge_route_and_service_plugins (r ∷ rs) [] names = r ∷ merge_route_and_service_plugins rs [] names
merge_route_and_service_plugins [] (s ∷ ss) names =
    let rest = merge_route_and_service_plugins [] ss names in
    if route_overrides_plugin names (name_of s) then rest else s ∷ rest
merge_route_and_service_plugins (r ∷ rs) (s ∷ ss) names =
    let from_route = merge_route_and_service_plugins rs (s ∷ ss) names in
    let from_service = merge_route_and_service_plugins (r ∷ rs) ss names in
    if leb (priority_of s) (priority_of r)
    then r ∷ from_route
    else if route_overrides_plugin names (name_of s)
    then from_service
    else s ∷ from_service

-- `ProxyPluginExecutor::has_plugin`
unfoldable pub has_plugin : Bytes → List PluginEntry → Bool
has_plugin name [] = false
has_plugin name (e ∷ es) = name_of e == name || has_plugin name es
