-- ===== src/AuthBroker/Cache/Expiry.antt =====
-- What expires and what goes with it (auth-broker/src/cache.rs).
use botwork.Common.{
  ℕ, ◌+◌, ◌≡◌, refl, ◌∙◌, inl, inr, Bool, false, not, ◌&&◌, Option, none, some, List, [], ◌∷◌,
  arith, if◌then◌else◌, eqb_iff, Bool-cases, Option-cases, is_some, length, any, ◌==◌, nat_eq,
  list_eq, option_eq,
}
use botwork.Common.Map
use botwork.Common.Map.{Map}
use botwork.AuthBroker.Cache.{
  CacheEntry, CapEntry, Metrics, Cache, is_expired, EvictReason, count_eviction, evict_if_expired,
  cap_is_expired, contains, keeps_cap, prune_caps_once, stale_of, evict_all, Pruned, prune_once,
  idle, absolute,
}

-- Whether a lookup found an expired entry.
abbrev pub found_expired : ℕ → Option CacheEntry → Bool
found_expired now none = false
found_expired now (some entry) = is_expired now entry

abbrev pub evictions : Metrics → ℕ
evictions m = m.eviction_idle + m.eviction_absolute

abbrev is_stale : List (ℕ × EvictReason) → ℕ → Bool
is_stale stale key = any (λ s. s.0 == key) stale

-- An eviction on access removes and reports the entry under the key exactly if it has expired,
-- counts it once, and leaves every other entry as it was.
pub evict_if_expired_lem :
    (cache : Cache) (key j now : ℕ) (metrics : Metrics)
    → let stale = found_expired now (Map.get key cache) in
      let (reported, cache', metrics') = evict_if_expired cache key now metrics in
      (reported ≡ (if stale then some key else none))
      × (Map.get j cache' ≡ (if stale && key == j then none else Map.get j cache))
      × (evictions metrics' ≡ evictions metrics + (if stale then 1 else 0))
unfolding evict_if_expired
evict_if_expired_lem cache key j now metrics = elim (Option-cases (Map.get key cache)) [
  | inl e ↦ (ground (arith, e), ground (arith, e), ground (arith, e))
  | inr (entry, e) ↦ elim (Bool-cases (is_expired now entry)) [
    | inr g ↦ (ground (arith, e, g), ground (arith, e, g), ground (arith, e, g))
    | inl g ↦ (
      ground (arith, e, g),
      ground (arith, e, g, Map.get-remove key j cache),
      ground (arith, e, g),
    )
  ]
]

is_stale-stale_of :
    (now key : ℕ) (cache : Cache)
    → Map.Distinct cache
    → is_stale (stale_of now cache) key ≡ found_expired now (Map.get key cache)
unfolding stale_of
is_stale-stale_of now key [] d = refl
is_stale-stale_of now key ((k, entry) ∷ cache) d =
    ground (arith, is_stale-stale_of now key cache d.1, eqb_iff k key)

get-evict_all :
    (stale : List (ℕ × EvictReason)) (cache : Cache) (metrics : Metrics) (key : ℕ)
    → let (keys, cache', metrics') = evict_all stale cache metrics in
      (Map.get key cache' ≡ (if is_stale stale key then none else Map.get key cache))
      × (contains keys key ≡ (is_stale stale key && is_some (Map.get key cache)))
get-evict_all [] cache metrics key = (refl, refl)
get-evict_all ((k, reason) ∷ stale) cache metrics key = elim (Option-cases (Map.get k cache)) [
  | inl e ↦
      let (same, kept) = get-evict_all stale cache metrics key in
      (ground (arith, e, same, eqb_iff k key), ground (arith, e, kept, eqb_iff k key))
  | inr (entry, e) ↦
      let (same, kept) =
        get-evict_all stale (Map.remove k cache) (count_eviction reason metrics) key in
      (
        ground (arith, e, same, eqb_iff k key, Map.get-remove k key cache),
        ground (arith, e, kept, eqb_iff k key, Map.get-remove k key cache),
      )
]

evictions-count_eviction :
    (reason : EvictReason) (m : Metrics) → evictions (count_eviction reason m) ≡ evictions m + 1
evictions-count_eviction idle m = omega arith
evictions-count_eviction absolute m = omega arith

evictions-evict_all :
    (stale : List (ℕ × EvictReason)) (cache : Cache) (metrics : Metrics)
    → Map.Distinct cache
    → let (keys, cache', metrics') = evict_all stale cache metrics in
      evictions metrics' + length cache' ≡ evictions metrics + length cache
evictions-evict_all [] cache metrics d = refl
evictions-evict_all ((k, reason) ∷ stale) cache metrics d = elim (Option-cases (Map.get k cache)) [
  | inl e ↦ ground (arith, e, evictions-evict_all stale cache metrics d)
  | inr (entry, e) ↦ ground (
    arith,
    e,
    evictions-evict_all stale (Map.remove k cache) (count_eviction reason metrics)
        (Map.remove-Distinct k cache d),
    Map.length-remove k entry cache d e,
    evictions-count_eviction reason metrics,
  )
]

-- A cap goes if its master key went.
keeps_cap-pruned :
    (state : Pruned) (now : ℕ) (c : CapEntry)
    → Map.Distinct state.cache
    → keeps_cap (evict_all (stale_of now state.cache) state.cache state.metrics).0 now c
      ≡ (not (found_expired now (Map.get c.cache_key state.cache)) && not (cap_is_expired c now))
keeps_cap-pruned state now c d =
    let stale = stale_of now state.cache in
    elim (Option-cases (Map.get c.cache_key state.cache)) [
      | inl e ↦ ground (arith, e, (get-evict_all stale state.cache state.metrics c.cache_key).1)
      | inr (entry, e) ↦ ground (
        arith,
        e,
        (get-evict_all stale state.cache state.metrics c.cache_key).1,
        is_stale-stale_of now c.cache_key state.cache d,
      )
    ]

keep_if-agrees :
    (p q : CapEntry → Bool) (cap : ℕ) (found : Option CapEntry)
    → ((c : CapEntry) → p c ≡ q c)
    → Map.keep_if (λ _ c. p c) cap found ≡ Map.keep_if (λ _ c. q c) cap found
keep_if-agrees p q cap none same = refl
keep_if-agrees p q cap (some c) same = rw (same c) refl

-- A prune keeps exactly the master keys that have not expired, and exactly the capabilities that
-- have not expired and whose master key was not dropped by this prune; and each dropped master key
-- is counted once as an eviction.
pub prune_once_lem :
    (state : Pruned) (now key cap : ℕ)
    → Map.Distinct state.cache
    → Map.Distinct state.caps
    → let after = prune_once state now in
      (Map.get key after.cache
        ≡ Map.keep_if (λ _ entry. not (is_expired now entry)) key (Map.get key state.cache))
      × (Map.get cap after.caps
          ≡ Map.keep_if
              (λ _ c.
                not (found_expired now (Map.get c.cache_key state.cache))
                && not (cap_is_expired c now))
              cap
              (Map.get cap state.caps))
      × (evictions after.metrics + length after.cache
          ≡ evictions state.metrics + length state.cache)
unfolding prune_once prune_caps_once
prune_once_lem state now key cap d d' =
    let stale = stale_of now state.cache in
    let keys = (evict_all stale state.cache state.metrics).0 in
    (
      ground (
        arith,
        get-evict_all stale state.cache state.metrics key,
        is_stale-stale_of now key state.cache d,
      ),
      Map.get-retain (λ _ c. keeps_cap keys now c) cap state.caps d'
          ∙ keep_if-agrees (keeps_cap keys now)
              (λ c.
                not (found_expired now (Map.get c.cache_key state.cache))
                && not (cap_is_expired c now))
              cap (Map.get cap state.caps) (λ c. keeps_cap-pruned state now c d),
      evictions-evict_all stale state.cache state.metrics d,
    )
