-- ===== src/AuthBroker/Cache.antt =====
-- auth-broker/src/cache.rs and auth-broker/src/caps.rs: the unlocked master keys and the
-- capabilities minted under them, with their expiry and the background prune. An `Instant` and a
-- duration are numbers, a key of 32 bytes is a number, and the counters of the metrics are u64 that
-- never come near their bound.
pub mod Expiry
pub mod AdminKey
mod Tests
use botwork.Common.{
  ℕ, ◌+◌, ◌-◌, Bool, not, ◌&&◌, ◌||◌, Option, none, some, List, [], ◌∷◌, ltb, leb, if◌then◌else◌,
  length, any, ◌==◌, nat_eq, list_eq, option_eq,
}
use botwork.Common.Text.{Text}
use botwork.Common.Map
use botwork.Common.Map.{Map}

pub record CacheEntry : Type 0 where
  pub tenant : Text
  pub vault_root : Text
  pub master : Text
  pub suite_version : ℕ
  pub expires_at : ℕ
  pub last_used : ℕ
  pub created_at : ℕ
  pub idle_ttl : ℕ

pub record CapEntry : Type 0 where
  pub cache_key : ℕ
  pub namespace : Text
  pub plugin : Text
  pub expires_at : ℕ
  pub lease_id : ℕ

pub record Metrics : Type 0 where
  pub eviction_idle : ℕ
  pub eviction_absolute : ℕ

abbrev pub Cache : Type 0
Cache = Map ℕ CacheEntry

abbrev pub CapMap : Type 0
CapMap = Map ℕ CapEntry

-- `now > entry.expires_at || now.duration_since(entry.last_used) > entry.idle_ttl`
pub is_expired : ℕ → CacheEntry → Bool
is_expired now entry = ltb entry.expires_at now || ltb entry.idle_ttl (now - entry.last_used)

pub data EvictReason : Type 0 where
  idle absolute : EvictReason

pub classify_eviction : CacheEntry → ℕ → EvictReason
classify_eviction entry now = if ltb entry.expires_at now then absolute else idle

abbrev pub count_eviction : EvictReason → Metrics → Metrics
count_eviction idle m = record m { eviction_idle = m.eviction_idle + 1 }
count_eviction absolute m = record m { eviction_absolute = m.eviction_absolute + 1 }

-- The lookup and the removal under one lock: the entry that was seen is the one that goes.
pub evict_if_expired : Cache → ℕ → ℕ → Metrics → Option ℕ × Cache × Metrics
unfolding is_expired classify_eviction
evict_if_expired cache key now metrics = elim (Map.get key cache) [
  | none ↦ (none, cache, metrics)
  | some entry ↦
      if not (is_expired now entry)
      then (none, cache, metrics)
      else (some key, Map.remove key cache, count_eviction (classify_eviction entry now) metrics)
]

abbrev pub cap_is_expired : CapEntry → ℕ → Bool
cap_is_expired entry now = leb entry.expires_at now

pub evict_caps_from_map : CapMap → ℕ → ℕ × CapMap
evict_caps_from_map caps lease_id =
    let kept = Map.retain (λ _ entry. not (entry.lease_id == lease_id)) caps in
    (length caps - length kept, kept)

pub evict_caps_for_cache_key : CapMap → ℕ → ℕ × CapMap
evict_caps_for_cache_key caps key =
    let kept = Map.retain (λ _ entry. not (entry.cache_key == key)) caps in
    (length caps - length kept, kept)

abbrev pub contains : List ℕ → ℕ → Bool
contains keys key = any (λ k. k == key) keys

abbrev pub keeps_cap : List ℕ → ℕ → CapEntry → Bool
keeps_cap evicted now entry =
    not (contains evicted entry.cache_key) && not (cap_is_expired entry now)

pub prune_caps_once : CapMap → List ℕ → ℕ → CapMap
prune_caps_once caps evicted now = Map.retain (λ _ entry. keeps_cap evicted now entry) caps

-- The stale keys, with the reason of each.
pub stale_of : ℕ → Cache → List (ℕ × EvictReason)
unfolding is_expired classify_eviction
stale_of now [] = []
stale_of now ((key, entry) ∷ cache) =
    let rest = stale_of now cache in
    if is_expired now entry then (key, classify_eviction entry now) ∷ rest else rest

-- The loop over them: every key is still there, so that each is counted.
abbrev pub evict_all : List (ℕ × EvictReason) → Cache → Metrics → List ℕ × Cache × Metrics
evict_all [] cache metrics = ([], cache, metrics)
evict_all ((key, reason) ∷ stale) cache metrics =
    let (keys, cache', metrics') =
      evict_all stale (Map.remove key cache) (count_eviction reason metrics) in
    let (keys_left, cache_left, metrics_left) = evict_all stale cache metrics in
    elim (Map.get key cache) [
      | none ↦ (keys_left, cache_left, metrics_left)
      | some entry ↦ (key ∷ keys, cache', metrics')
    ]

pub record Pruned : Type 0 where
  pub cache : Cache
  pub caps : CapMap
  pub metrics : Metrics

-- `prune_once`, without the sweeps of the other maps (`AuthBroker.Pending` has one of them).
pub prune_once : Pruned → ℕ → Pruned
unfolding stale_of prune_caps_once
prune_once state now =
    let (keys, cache, metrics) = evict_all (stale_of now state.cache) state.cache state.metrics in
    record { cache = cache; caps = prune_caps_once state.caps keys now; metrics = metrics }
