-- ===== src/Runtime/Registry.antt =====
-- `HealthCheckRegistry`. An `Arc` of a load balancer is a number, equal for the same allocation;
-- `stopped` lists the generations whose shutdown signal was sent, `updates` what was broadcast, the latest first.
use pingsix.Prelude.{
  ℕ, suc, Option, none, some, List, ◌∷◌, String, if◌then◌else◌, ◌==◌, nat_eq, string_eq,
}
use pingsix.Prelude.Dict

pub record RegisteredUpstream : Type 0 where
  pub generation : ℕ
  pub load_balancer : ℕ

pub data RegistryUpdate : Type 0 where
  added removed : String → ℕ → RegistryUpdate

pub record HealthCheckRegistry : Type 0 where
  pub upstreams : Dict.Dict String RegisteredUpstream
  pub next_generation : ℕ
  pub stopped : List ℕ
  pub updates : List RegistryUpdate

pub record DisplacedHealthCheck : Type 0 where
  pub id : String
  pub registered : RegisteredUpstream

-- The registration that a replaced entry leaves.
abbrev pub displaced_of : String → Option RegisteredUpstream → Option DisplacedHealthCheck
displaced_of id none = none
displaced_of id (some old) = some (record { id = id; registered = old })

-- The registry, the generation of the registration, and what it displaced. The counter is far from
-- the end of a `u64`.
unfoldable pub register_upstream :
    String → ℕ → HealthCheckRegistry → HealthCheckRegistry × ℕ × Option DisplacedHealthCheck
unfolding Dict.lookup Dict.insert
register_upstream id load_balancer r =
    let generation = r.next_generation in
    (
      record r {
        upstreams =
            Dict.insert id (record { generation = generation; load_balancer = load_balancer })
              r.upstreams;
        next_generation = suc r.next_generation;
        updates = added id generation ∷ r.updates;
      },
      generation,
      displaced_of id (Dict.lookup id r.upstreams),
    )

unfoldable pub discard : DisplacedHealthCheck → HealthCheckRegistry → HealthCheckRegistry
discard d r = record r {
  stopped = d.registered.generation ∷ r.stopped;
  updates = removed d.id d.registered.generation ∷ r.updates;
}

unfoldable pub unregister_upstream : String → ℕ → HealthCheckRegistry → HealthCheckRegistry
unfolding Dict.lookup Dict.remove
unregister_upstream id generation r = elim (Dict.lookup id r.upstreams) [
  | none ↦ r
  | some current ↦
      if current.generation == generation
      then record r {
        upstreams = Dict.remove id r.upstreams;
        stopped = generation ∷ r.stopped;
        updates = removed id generation ∷ r.updates;
      }
      else r
]
