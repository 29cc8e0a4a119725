-- ===== src/Tests/Runtime.antt =====
-- A publication that keeps one check, replaces one and stops one.
use pingsix.Prelude.{
  ℕ, ◌≡◌, refl, none, some, [], ◌∷◌, String, string_eq, String-discrete, ℕ_discrete,
}
use pingsix.Prelude.Dict
use pingsix.Status.{initial}
use pingsix.Runtime.{
  HealthCheckSpec, ActiveHealthCheckEntry, RegisteredUpstream, RuntimeStore, publish,
}
use pingsix.Runtime.Reconciled

unfoldable program : Unit {0}
unfolding publish initial String-discrete ℕ_discrete
program = tt

abbrev active : ℕ → ℕ → ℕ → ActiveHealthCheckEntry
active f g lb = record { fingerprint = f; registration = g; service = lb }

abbrev registered : ℕ → ℕ → RegisteredUpstream
registered g lb = record { generation = g; load_balancer = lb }

abbrev before : RuntimeStore
before = record {
  current = 4;
  entries = ("a", active 10 1 100) ∷ ("b", active 20 2 200) ∷ ("c", active 30 3 300) ∷ [];
  registry = record {
    upstreams = ("a", registered 1 100) ∷ ("b", registered 2 200) ∷ ("c", registered 3 300) ∷ [];
    next_generation = 4;
    stopped = [];
    updates = [];
  };
  status = initial;
}

-- The load balancer of `b` was rebuilt, and `c` is gone.
abbrev desired : Dict.Dict String HealthCheckSpec
desired =
    ("a", record { fingerprint = 10; service = 100 })
    ∷ ("b", record { fingerprint = 20; service = 201 })
    ∷ []

registry_after :
    (publish 9 5 desired before).registry.upstreams
    ≡ ("a", registered 1 100) ∷ ("b", registered 4 201) ∷ []
unfolding program
registry_after = refl

stopped_after : (publish 9 5 desired before).registry.stopped ≡ 3 ∷ 2 ∷ []
unfolding program
stopped_after = refl

publish-Matches_example :
    let t = publish 9 5 desired before in
    (Dict.lookup "c" t.entries ≡ none)
    × (Dict.lookup "c" t.registry.upstreams ≡ Reconciled.registered_as (Dict.lookup "c" t.entries))
    × (t.current ≡ 5)
    × (t.status.published_revision ≡ some 5)
unfolding String-discrete Dict.lookup
publish-Matches_example = Reconciled.publish-Matches 9 5 desired before "c" (refl, (refl, tt)) refl
