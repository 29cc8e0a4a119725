-- ===== src/Breaker/States.antt =====
-- `BreakerStates`: the states by route, at most `MAX_BREAKER_KEYS` of them, and the two filters.
use pingsix.Prelude.{ℕ, Bool, not, ◌&&◌, none, some, String, length, leb, if◌then◌else◌, string_eq}
use pingsix.Prelude.Dict
use pingsix.Limiter.{Shard, evict_oldest, touch, or_insert}
use pingsix.Breaker.Codes.{contains, from_statuses}
use pingsix.Breaker.Config.{PluginConfig}
use pingsix.Breaker.State.{BreakerState, closed, state_is_open, observe}

abbrev pub max_breaker_keys : ℕ
max_breaker_keys = 1024

-- Room for a new key.
unfoldable pub make_room : String → Shard BreakerState → Shard BreakerState
unfolding Dict.contains_key evict_oldest
make_room key s =
    if not (Dict.contains_key key s.entries) && leb max_breaker_keys (length s.entries)
    then evict_oldest s
    else s

-- The states with an entry for the key.
unfoldable pub entry : String → Shard BreakerState → Shard BreakerState
unfolding make_room touch or_insert
entry key s =
    let t = make_room key s in
    or_insert key closed (record t { touch_order = touch key t.touch_order })

-- What the entry of the key holds.
unfoldable pub state_of : String → Shard BreakerState → BreakerState
unfolding Dict.lookup
state_of key s = elim (Dict.lookup key s.entries) [ none ↦ closed | some state ↦ state ]

unfoldable pub is_open : PluginConfig → String → ℕ → Shard BreakerState → Shard BreakerState × Bool
unfolding entry state_of state_is_open
is_open config key now s = let t = entry key s in (t, state_is_open config now (state_of key t))

unfoldable pub response_filter :
    PluginConfig → String → ℕ → ℕ → Shard BreakerState → Shard BreakerState
unfolding entry state_of observe contains from_statuses Dict.insert
response_filter config key status now s =
    let is_unhealthy = contains (from_statuses config.unhealthy.http_statuses) status in
    let is_healthy = contains (from_statuses config.healthy.http_statuses) status in
    let t = entry key s in
    record t {
      entries =
          Dict.insert key (observe config is_unhealthy is_healthy now (state_of key t)) t.entries;
    }
