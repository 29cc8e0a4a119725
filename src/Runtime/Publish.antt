-- ===== src/Runtime/Publish.antt =====
-- `RuntimeStore::publish`. What `collect_health_checks` finds in a snapshot is an input.
use pingsix.Prelude.{
  ℕ, Bool, false, ◌&&◌, Option, none, some, List, [], ◌∷◌, ◌++◌, String, if◌then◌else◌, ◌==◌,
  nat_eq, string_eq,
}
use pingsix.Prelude.Dict
use pingsix.Status.{RuntimeStatusInner, set_published_revision}
use pingsix.Runtime.Registry.{
  HealthCheckRegistry, DisplacedHealthCheck, register_upstream, discard, unregister_upstream,
}

pub record HealthCheckSpec : Type 0 where
  pub fingerprint : ℕ
  pub service : ℕ

pub record ActiveHealthCheckEntry : Type 0 where
  pub fingerprint : ℕ
  pub registration : ℕ
  pub service : ℕ

-- `entries` is the active set, `current` the revision of the snapshot.
pub record RuntimeStore : Type 0 where
  pub current : ℕ
  pub entries : Dict.Dict String ActiveHealthCheckEntry
  pub registry : HealthCheckRegistry
  pub status : RuntimeStatusInner

-- The locals of `publish`.
pub record Progress : Type 0 where
  pub next_entries : Dict.Dict String ActiveHealthCheckEntry
  pub displaced : List DisplacedHealthCheck
  pub registry : HealthCheckRegistry

abbrev pub pushed :
    Option DisplacedHealthCheck → List DisplacedHealthCheck → List DisplacedHealthCheck
pushed none ds = ds
pushed (some d) ds = ds ++ d ∷ []

abbrev pub is_same : HealthCheckSpec → Option ActiveHealthCheckEntry → Bool
is_same spec none = false
is_same spec (some existing) =
    existing.fingerprint == spec.fingerprint && existing.service == spec.service

-- The first loop, for one spec: a registration is kept where the spec is the same.
unfoldable pub activate : String → HealthCheckSpec → Progress → Progress
unfolding register_upstream Dict.insert
activate key spec p =
    let r = register_upstream key spec.service p.registry in
    record {
      next_entries =
          Dict.insert key
            (record { fingerprint = spec.fingerprint; registration = r.1; service = spec.service })
            p.next_entries;
      displaced = pushed r.2 p.displaced;
      registry = r.0;
    }

unfoldable pub keep : String → ActiveHealthCheckEntry → Progress → Progress
unfolding Dict.insert
keep key existing p = record p { next_entries = Dict.insert key existing p.next_entries }

unfoldable pub start_check :
    Dict.Dict String ActiveHealthCheckEntry → String → HealthCheckSpec → Progress → Progress
unfolding activate keep Dict.lookup
start_check active key spec p = elim (Dict.lookup key active) [
  | none ↦ activate key spec p
  | some existing ↦
      if is_same spec (some existing) then keep key existing p else activate key spec p
]

unfoldable pub start_checks :
    Dict.Dict String ActiveHealthCheckEntry → Dict.Dict String HealthCheckSpec → Progress → Progress
unfolding start_check
start_checks active [] p = p
start_checks active ((key, spec) ∷ desired) p =
    start_checks active desired (start_check active key spec p)

-- The second loop: the entries whose keys are gone.
unfoldable pub removed_from :
    Dict.Dict String ActiveHealthCheckEntry
    → Dict.Dict String ActiveHealthCheckEntry
    → Dict.Dict String ℕ
unfolding Dict.contains_key
removed_from next [] = []
removed_from next ((key, entry) ∷ active) =
    let rest = removed_from next active in
    if Dict.contains_key key next then rest else (key, entry.registration) ∷ rest

unfoldable pub discard_all : List DisplacedHealthCheck → HealthCheckRegistry → HealthCheckRegistry
unfolding discard
discard_all [] r = r
discard_all (d ∷ ds) r = discard_all ds (discard d r)

unfoldable pub unregister_all : Dict.Dict String ℕ → HealthCheckRegistry → HealthCheckRegistry
unfolding unregister_upstream
unregister_all [] r = r
unregister_all ((key, registration) ∷ gone) r =
    unregister_all gone (unregister_upstream key registration r)

unfoldable pub publish : ℕ → ℕ → Dict.Dict String HealthCheckSpec → RuntimeStore → RuntimeStore
unfolding start_checks removed_from discard_all unregister_all set_published_revision
publish now revision desired s =
    let p =
      start_checks s.entries desired
        (record { next_entries = []; displaced = []; registry = s.registry }) in
    record {
      current = revision;
      entries = p.next_entries;
      registry =
          unregister_all (removed_from p.next_entries s.entries)
            (discard_all p.displaced p.registry);
      status = set_published_revision now revision s.status;
    }
