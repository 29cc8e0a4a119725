-- ===== src/Tests/Keys.antt =====
-- Keys of etcd.
use pingsix.Prelude.{◌≡◌, refl, true, Bytes-discrete, ℕ_discrete, codes}
use pingsix.Graph.{ResourceKey, route, as_str, err, logical_path}
use pingsix.Graph.Keys.{physical_key_to_resource_key, outside_namespace}

unfoldable program : Unit {0}
unfolding physical_key_to_resource_key as_str logical_path Bytes-discrete ℕ_discrete
program = tt

abbrev r1 : ResourceKey
r1 = record { kind = route; id = codes "r1" }

sibling :
    physical_key_to_resource_key (λ _. true) (codes "/apisix-other/routes/1") (codes "/apisix/")
    ≡ err outside_namespace
unfolding program
sibling = refl
