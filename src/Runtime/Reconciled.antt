-- ===== src/Runtime/Reconciled.antt =====
-- The health checks after a publication.
use pingsix.Prelude.{
  ℕ, ◌≡◌, refl, ap, ◌∙◌, sym, ◌⊎◌, inl, inr, true, false, Option, none, some, List, [], ◌∷◌, String,
  if◌then◌else◌, ◌==◌, nat_eq, string_eq, Bool-cases, Option-cases, arith,
}
use pingsix.Prelude.Dict
use pingsix.Status.{RuntimeStatusInner, set_published_revision}
use pingsix.Runtime.Registry.{
  RegisteredUpstream, HealthCheckRegistry, DisplacedHealthCheck, register_upstream, discard,
  unregister_upstream,
}
use pingsix.Runtime.Publish.{
  HealthCheckSpec, ActiveHealthCheckEntry, RuntimeStore, Progress, is_same, activate, keep,
  start_check, start_checks, removed_from, discard_all, unregister_all, publish,
}

-- The registry's view of an active entry.
abbrev pub registered_as : Option ActiveHealthCheckEntry → Option RegisteredUpstream
registered_as none = none
registered_as (some e) = some (record { generation = e.registration; load_balancer = e.service })

-- An entry that serves a spec.
abbrev pub Serves : HealthCheckSpec → Option ActiveHealthCheckEntry → Type 0
Serves spec none = ⊥
Serves spec (some e) = (e.fingerprint ≡ spec.fingerprint) × (e.service ≡ spec.service)

module _ {V : Type 0} where
  lookup_here :
      (k : String) (v : V) (d : Dict.Dict String V) → Dict.lookup k (Dict.insert k v d) ≡ some v
  lookup_here k v d = ground (arith, Dict.lookup-insert k k v d)

  lookup_there :
      (j k : String) (v : V) (d : Dict.Dict String V)
      → (j == k) ≡ false
      → Dict.lookup j (Dict.insert k v d) ≡ Dict.lookup j d
  lookup_there j k v d h = ground (arith, Dict.lookup-insert j k v d)

activated :
    (key : String) (spec : HealthCheckSpec) (p : Progress)
    → Serves spec (Dict.lookup key (activate key spec p).next_entries)
      × (Dict.lookup key (activate key spec p).registry.upstreams
          ≡ registered_as (Dict.lookup key (activate key spec p).next_entries))
unfolding activate register_upstream
activated key spec p =
    let e : ActiveHealthCheckEntry = record {
      fingerprint = spec.fingerprint;
      registration = p.registry.next_generation;
      service = spec.service;
    } in
    let r : RegisteredUpstream = record {
      generation = p.registry.next_generation;
      load_balancer = spec.service;
    } in
    let a : Dict.lookup key (activate key spec p).next_entries ≡ some e =
      lookup_here key e p.next_entries in
    let b : Dict.lookup key (activate key spec p).registry.upstreams ≡ some r =
      lookup_here key r p.registry.upstreams in
    rw (a, b) ((refl, refl), refl)

kept :
    (key : String) (spec : HealthCheckSpec) (e : ActiveHealthCheckEntry) (p : Progress)
    → is_same spec (some e) ≡ true
    → Dict.lookup key p.registry.upstreams ≡ registered_as (some e)
    → Serves spec (Dict.lookup key (keep key e p).next_entries)
      × (Dict.lookup key (keep key e p).registry.upstreams
          ≡ registered_as (Dict.lookup key (keep key e p).next_entries))
unfolding keep
kept key spec e p same h =
    let a : Dict.lookup key (keep key e p).next_entries ≡ some e =
      lookup_here key e p.next_entries in
    rw a (ground arith, h)

start_check-cases :
    (active : Dict.Dict String ActiveHealthCheckEntry) (key : String) (spec : HealthCheckSpec)
    (p : Progress)
    → (start_check active key spec p ≡ activate key spec p)
      ⊎ ((e : ActiveHealthCheckEntry) × (Dict.lookup key active ≡ some e)
          × (is_same spec (some e) ≡ true)
          × (start_check active key spec p ≡ keep key e p))
unfolding start_check
start_check-cases active key spec p = elim (Option-cases (Dict.lookup key active)) [
  | inl fresh ↦ inl (rw (start_check, fresh))
  | inr (e, old) ↦ elim (Bool-cases (is_same spec (some e))) [
    | inl same ↦ inr (e, old, same, rw (start_check, old, same))
    | inr changed ↦ inl (rw (start_check, old, changed))
  ]
]

start_check-same :
    (active : Dict.Dict String ActiveHealthCheckEntry) (key : String) (spec : HealthCheckSpec)
    (p : Progress)
    → Dict.lookup key p.registry.upstreams ≡ registered_as (Dict.lookup key active)
    → Serves spec (Dict.lookup key (start_check active key spec p).next_entries)
      × (Dict.lookup key (start_check active key spec p).registry.upstreams
          ≡ registered_as (Dict.lookup key (start_check active key spec p).next_entries))
start_check-same active key spec p h = elim (start_check-cases active key spec p) [
  | inl new ↦ rw new (activated key spec p)
  | inr (e, old, same, next) ↦ rw next (kept key spec e p same (h ∙ ap registered_as old))
]

-- A key keeps what it had.
abbrev IsUnchanged : String → Progress → Progress → Type 0
IsUnchanged j p q =
    (Dict.lookup j q.next_entries ≡ Dict.lookup j p.next_entries)
    × (Dict.lookup j q.registry.upstreams ≡ Dict.lookup j p.registry.upstreams)

start_check-IsUnchanged :
    (active : Dict.Dict String ActiveHealthCheckEntry) (j key : String) (spec : HealthCheckSpec)
    (p : Progress)
    → (j == key) ≡ false
    → IsUnchanged j p (start_check active key spec p)
unfolding activate keep register_upstream
start_check-IsUnchanged active j key spec p differ = elim (start_check-cases active key spec p) [
  | inl new ↦
      rw new (
        lookup_there j key _ p.next_entries differ,
        lookup_there j key _ p.registry.upstreams differ,
      )
  | inr (e, old, same, next) ↦ rw next (lookup_there j key e p.next_entries differ, refl)
]

start_checks-IsUnchanged :
    (active : Dict.Dict String ActiveHealthCheckEntry) (desired : Dict.Dict String HealthCheckSpec)
    (j : String) (p : Progress)
    → Dict.lookup j desired ≡ none
    → IsUnchanged j p (start_checks active desired p)
unfolding start_checks Dict.lookup
start_checks-IsUnchanged active [] j p h = (refl, refl)
start_checks-IsUnchanged active ((key, spec) ∷ desired) j p h = elim (Bool-cases (j == key)) [
  | inl same ↦ absurd (ground arith)
  | inr differ ↦
      let (a, b) = start_check-IsUnchanged active j key spec p differ in
      let (c, d) =
        start_checks-IsUnchanged active desired j (start_check active key spec p) (ground arith) in
      (c ∙ a, d ∙ b)
]

start_checks-Serves :
    (active : Dict.Dict String ActiveHealthCheckEntry) (desired : Dict.Dict String HealthCheckSpec)
    (j : String) (p : Progress) {spec : HealthCheckSpec}
    → Dict.NodupKeys desired
    → Dict.lookup j p.registry.upstreams ≡ registered_as (Dict.lookup j active)
    → Dict.lookup j desired ≡ some spec
    → Serves spec (Dict.lookup j (start_checks active desired p).next_entries)
      × (Dict.lookup j (start_checks active desired p).registry.upstreams
          ≡ registered_as (Dict.lookup j (start_checks active desired p).next_entries))
unfolding start_checks Dict.lookup
start_checks-Serves active [] j p u h e = absurd (ground arith)
start_checks-Serves active ((key, at_key) ∷ desired) j p {spec} (fresh, u) h e =
    let q = start_check active key at_key p in
    elim (string_eq.dec j key) [
      | yes same ↦
          let (a, b) = start_checks-IsUnchanged active desired key q fresh in
          let (c, d) = start_check-same active key at_key p (rw same at h) in
          let is_spec : at_key ≡ spec = ground arith in rw (same, a, b, sym is_spec) (c, d)
      | no differ ↦
          let (a, b) = start_check-IsUnchanged active j key at_key p (ground arith) in
          start_checks-Serves active desired j q u (b ∙ h) (ground arith)
    ]

discard_all-upstreams :
    (ds : List DisplacedHealthCheck) (r : HealthCheckRegistry)
    → (discard_all ds r).upstreams ≡ r.upstreams
unfolding discard_all discard
discard_all-upstreams [] r = refl
discard_all-upstreams (d ∷ ds) r = discard_all-upstreams ds (discard d r)

lookup-unregister_upstream :
    (j key : String) (generation : ℕ) (r : HealthCheckRegistry)
    → (Dict.lookup j (unregister_upstream key generation r).upstreams ≡ Dict.lookup j r.upstreams)
      ⊎ ((j ≡ key) × (Dict.lookup j (unregister_upstream key generation r).upstreams ≡ none))
unfolding unregister_upstream
lookup-unregister_upstream j key generation r =
    ground (arith, Dict.lookup-remove j key r.upstreams, Option-cases (Dict.lookup key r.upstreams))

unregister_upstream-own :
    (key : String) (r : HealthCheckRegistry) {x : RegisteredUpstream}
    → Dict.lookup key r.upstreams ≡ some x
    → Dict.lookup key (unregister_upstream key x.generation r).upstreams ≡ none
unfolding unregister_upstream
unregister_upstream-own key r h = ground (arith, Dict.lookup-remove key key r.upstreams)

-- Where no registration is taken back, and where there is none to take.
unregister_all-other :
    (gone : Dict.Dict String ℕ) (j : String) (r : HealthCheckRegistry)
    → (Dict.lookup j gone ≡ none) ⊎ (Dict.lookup j r.upstreams ≡ none)
    → Dict.lookup j (unregister_all gone r).upstreams ≡ Dict.lookup j r.upstreams
unfolding unregister_all Dict.lookup
unregister_all-other [] j r h = refl
unregister_all-other ((key, g) ∷ gone) j r h = ground (
  arith,
  lookup-unregister_upstream j key g r,
  unregister_all-other gone j (unregister_upstream key g r),
)

unregister_all-own :
    (gone : Dict.Dict String ℕ) (j : String) (r : HealthCheckRegistry) {x : RegisteredUpstream}
    → Dict.lookup j r.upstreams ≡ some x
    → Dict.lookup j gone ≡ some x.generation
    → Dict.lookup j (unregister_all gone r).upstreams ≡ none
unfolding unregister_all Dict.lookup
unregister_all-own [] j r h e = absurd (ground arith)
unregister_all-own ((key, g) ∷ gone) j r {x} h e = elim (string_eq.dec j key) [
  | yes same ↦
      let mine : x.generation ≡ g = ground arith in
      let out : Dict.lookup j (unregister_upstream key g r).upstreams ≡ none =
        rw (same, sym mine) (unregister_upstream-own key r (rw same at h)) in
      unregister_all-other gone j (unregister_upstream key g r) (inr out) ∙ out
  | no differ ↦
      unregister_all-own gone j (unregister_upstream key g r) {x = x}
        (ground (arith, lookup-unregister_upstream j key g r)) (ground arith)
]

-- The registration of an entry.
abbrev registration_of : Option ActiveHealthCheckEntry → Option ℕ
registration_of none = none
registration_of (some e) = some e.registration

lookup-removed_from :
    (next active : Dict.Dict String ActiveHealthCheckEntry) (j : String)
    → Dict.lookup j (removed_from next active)
      ≡ (if Dict.contains_key j next then none else registration_of (Dict.lookup j active))
unfolding removed_from Dict.contains_key Dict.lookup
lookup-removed_from next [] j = ground arith
lookup-removed_from next ((key, e) ∷ active) j = ground (arith, lookup-removed_from next active j)

-- A key without a spec.
abbrev pub Matches : Option HealthCheckSpec → Option ActiveHealthCheckEntry → Type 0
Matches none e = e ≡ none
Matches (some spec) e = Serves spec e

-- The registry at the end of a publication.
abbrev finished : Dict.Dict String ActiveHealthCheckEntry → Progress → HealthCheckRegistry
finished active p =
    unregister_all (removed_from p.next_entries active) (discard_all p.displaced p.registry)

finished-kept :
    (active : Dict.Dict String ActiveHealthCheckEntry) (p : Progress) (j : String)
    {e : ActiveHealthCheckEntry}
    → Dict.lookup j p.next_entries ≡ some e
    → Dict.lookup j (finished active p).upstreams ≡ Dict.lookup j p.registry.upstreams
unfolding Dict.contains_key
finished-kept active p j h =
    unregister_all-other (removed_from p.next_entries active) j (discard_all p.displaced p.registry)
      (inl (ground (arith, lookup-removed_from p.next_entries active j)))
    ∙ ap (Dict.lookup j) (discard_all-upstreams p.displaced p.registry)

finished-gone :
    (active : Dict.Dict String ActiveHealthCheckEntry) (p : Progress) (j : String)
    → Dict.lookup j p.next_entries ≡ none
    → Dict.lookup j p.registry.upstreams ≡ registered_as (Dict.lookup j active)
    → Dict.lookup j (finished active p).upstreams ≡ none
unfolding Dict.contains_key
finished-gone active p j h agree =
    let r = discard_all p.displaced p.registry in
    let gone = removed_from p.next_entries active in
    let listed = lookup-removed_from p.next_entries active j in
    let there : Dict.lookup j r.upstreams ≡ registered_as (Dict.lookup j active) =
      ap (Dict.lookup j) (discard_all-upstreams p.displaced p.registry) ∙ agree in
    elim (Option-cases (Dict.lookup j active)) [
      | inl absent ↦
          let out : Dict.lookup j r.upstreams ≡ none = there ∙ ap registered_as absent in
          unregister_all-other gone j r (inr out) ∙ out
      | inr (e, held) ↦
          unregister_all-own gone j r (there ∙ ap registered_as held) (ground (arith, listed))
    ]

served-agree :
    (active : Dict.Dict String ActiveHealthCheckEntry) (p : Progress) (j : String)
    (spec : HealthCheckSpec)
    → Serves spec (Dict.lookup j p.next_entries)
    → Dict.lookup j p.registry.upstreams ≡ registered_as (Dict.lookup j p.next_entries)
    → Dict.lookup j (finished active p).upstreams ≡ registered_as (Dict.lookup j p.next_entries)
served-agree active p j spec serves agree = elim (Option-cases (Dict.lookup j p.next_entries)) [
  | inl absent ↦ absurd (rw absent at serves)
  | inr (e, held) ↦ finished-kept active p j held ∙ agree
]

published :
    (now revision : ℕ) (status : RuntimeStatusInner)
    → (set_published_revision now revision status).published_revision ≡ some revision
unfolding set_published_revision
published now revision status = ground arith

-- Over a registry that agrees with the active set at a key, a publication of specs with distinct
-- keys leaves the key as the specs ask: a spec has an entry with its fingerprint and its load
-- balancer, registered under the entry's generation, and a key without one has neither entry nor
-- registration. The snapshot and the status have the revision.
pub publish-Matches :
    (now revision : ℕ) (desired : Dict.Dict String HealthCheckSpec) (s : RuntimeStore) (j : String)
    → Dict.NodupKeys desired
    → Dict.lookup j s.registry.upstreams ≡ registered_as (Dict.lookup j s.entries)
    → let t = publish now revision desired s in
      Matches (Dict.lookup j desired) (Dict.lookup j t.entries)
      × (Dict.lookup j t.registry.upstreams ≡ registered_as (Dict.lookup j t.entries))
      × (t.current ≡ revision)
      × (t.status.published_revision ≡ some revision)
unfolding publish
publish-Matches now revision desired s j u h =
    let p =
      start_checks s.entries desired
        (record { next_entries = []; displaced = []; registry = s.registry }) in
    elim (Option-cases (Dict.lookup j desired)) [
      | inl unwanted ↦
          let (a, b) = start_checks-IsUnchanged s.entries desired j _ unwanted in
          let none_next : Dict.lookup j p.next_entries ≡ none = a ∙ Dict.lookup-nil j in
          let out = finished-gone s.entries p j none_next (b ∙ h) in
          rw unwanted (
            none_next,
            out ∙ ap registered_as (sym none_next),
            refl,
            published now revision s.status,
          )
      | inr (spec, wanted) ↦
          let (serves, agree) = start_checks-Serves s.entries desired j _ u h wanted in
          rw wanted (
            serves,
            served-agree s.entries p j spec serves agree,
            refl,
            published now revision s.status,
          )
    ]
