-- ===== src/Graph/Vocabulary.antt =====
-- The vocabulary of store.rs. Text is the list of its UTF-8 bytes. Revisions are `i64` in the
-- source; etcd counts them up from 1, so they are natural numbers here. `E` is `ProxyError`.
use pingsix.Prelude.{
  ℕ, ◌||◌, Option, none, List, [], ◌∷◌, ◌++◌, if◌then◌else◌, Eq, ◌==◌, String, Bytes, ◌≡◌, refl,
  ◌⊎◌, inl, inr, Bytes-discrete, bytes_eq, codes, elem,
}
use pingsix.Prelude.Dict.{Dict}

pub data ResourceKind : Type 0 where
  upstream service global_rule route ssl : ResourceKind

unfoldable pub ResourceKind-discrete : Discrete ResourceKind
ResourceKind-discrete = hlevel

instance abbrev pub kind_eq : Eq ResourceKind
kind_eq = record { dec = ResourceKind-discrete }

-- `ResourceKind::as_str`
unfoldable pub as_str : ResourceKind → Bytes
as_str upstream = codes "upstreams"
as_str service = codes "services"
as_str global_rule = codes "global_rules"
as_str route = codes "routes"
as_str ssl = codes "ssls"

pub record ResourceKey : Type 0 where
  pub kind : ResourceKind
  pub id : Bytes

unfoldable pub ResourceKey-discrete : Discrete ResourceKey
ResourceKey-discrete = hlevel Bytes-discrete

instance abbrev pub key_eq : Eq ResourceKey
key_eq = record { dec = ResourceKey-discrete }

pub data StoreError (E : Type 0) : Type 0 where
  unavailable : E → StoreError E
  invalid_response : Bytes → StoreError E
  unsupported_protocol conflict : StoreError E

pub data SecretOperation : Type 0 where
  encrypt decrypt redact restore : SecretOperation

pub data GraphError (E : Type 0) : Type 0 where
  invalid_key : Bytes → String → GraphError E
  invalid_resource : ResourceKey → E → GraphError E
  invalid_candidate : E → GraphError E
  referential_conflict : E → GraphError E
  not_found : ResourceKey → GraphError E
  cas_conflict : GraphError E
  stale_revision : ℕ → ℕ → GraphError E
  secret : ResourceKey → SecretOperation → E → GraphError E
  worker_stopped : GraphError E
  store : StoreError E → GraphError E

-- Rust's `Result`.
pub data Result (E : Type 0) (A : Type 0) : Type 0 where
  ok : A → Result E A
  err : E → Result E A

infixl 5 ◌>>=◌
abbrev pub ◌>>=◌ : {E A B : Type 0} → Result E A → (A → Result E B) → Result E B
ok a >>= f = f a
err e >>= f = err e

abbrev pub map_err : {E F A : Type 0} → (E → F) → Result E A → Result F A
map_err f (ok a) = ok a
map_err f (err e) = err (f e)

-- `ResourceKind::parse`
unfoldable pub parse : {E : Type 0} → Bytes → Result (GraphError E) ResourceKind
parse value =
    if value == codes "upstreams"
    then ok upstream
    else if value == codes "services"
    then ok service
    else if value == codes "global_rules"
    then ok global_rule
    else if value == codes "routes"
    then ok route
    else if value == codes "ssls"
    then ok ssl
    else err (invalid_key value "unknown resource kind")

-- `ResourceKey::new`
unfoldable pub new_key : {E : Type 0} → ResourceKind → Bytes → Result (GraphError E) ResourceKey
unfolding as_str
new_key kind id =
    if id == [] || elem b'/' id
    then err (
        invalid_key (as_str kind ++ b'/' ∷ id)
          "resource id must be non-empty and must not contain '/'")
    else ok (record { kind = kind; id = id })

-- `ResourceKey::logical_path`
unfoldable pub logical_path : ResourceKey → Bytes
unfolding as_str
logical_path k = as_str k.kind ++ b'/' ∷ k.id

pub record StoredResource : Type 0 where
  pub value : Bytes
  pub create_revision : ℕ
  pub mod_revision : ℕ

pub record StoredGraph : Type 0 where
  pub resources : Dict ResourceKey StoredResource
  pub guard_mod_revision : Option ℕ
  pub revision : ℕ

-- `StoredGraph::default`
unfoldable pub empty_graph : StoredGraph
empty_graph = record { resources = []; guard_mod_revision = none; revision = 0 }

pub data StoredChange : Type 0 where
  put : ResourceKey → StoredResource → StoredChange
  delete : ResourceKey → StoredChange

pub record WatchBatch : Type 0 where
  pub revision : ℕ
  pub changes : List StoredChange

pub data StoredMutation : Type 0 where
  put : ResourceKey → Bytes → StoredMutation
  delete : ResourceKey → StoredMutation

pub record GraphCommit : Type 0 where
  pub mutation : StoredMutation
  pub expected_target_mod_revision : Option ℕ
  pub expected_guard_mod_revision : Option ℕ

pub Result-cases :
    {E A : Type 0} (r : Result E A) → ((a : A) × (r ≡ ok a)) ⊎ ((e : E) × (r ≡ err e))
Result-cases (ok a) = inl (a, refl)
Result-cases (err e) = inr (e, refl)
