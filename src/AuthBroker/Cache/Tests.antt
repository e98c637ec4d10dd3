-- ===== src/AuthBroker/Cache/Tests.antt =====
-- The prune and the admin key at concrete inputs.
use botwork.Common.{
  ℕ, ◌≡◌, refl, Option, none, some, [], ◌∷◌, if◌then◌else◌, ◌==◌, nat_eq, list_eq, option_eq,
  pair_eq,
}
use botwork.Common.Text.{Text, bytes, split}
use botwork.AuthBroker.Cache.{
  CacheEntry, CapEntry, is_expired, classify_eviction, stale_of, prune_caps_once, Pruned,
  prune_once,
}
use botwork.AuthBroker.Cache.AdminKey.{Observed, new, parse_admin_key_from_content}
use botwork.AuthBroker.Cache.AdminKey.Current.{key_in, answers, answers_are_current}

abbrev entry : CacheEntry
entry = record {
  tenant = bytes "acme";
  vault_root = bytes "/v";
  master = bytes "k";
  suite_version = 1;
  expires_at = 100;
  last_used = 10;
  created_at = 0;
  idle_ttl = 300;
}

abbrev cap : CapEntry
cap = record {
  cache_key = 1;
  namespace = bytes "main";
  plugin = bytes "shell";
  expires_at = 500;
  lease_id = 9;
}

abbrev state : Pruned
state = record {
  cache = (1, entry) ∷ (2, record entry { expires_at = 1000 }) ∷ [];
  caps = (5, cap) ∷ (6, record cap { cache_key = 2 }) ∷ [];
  metrics = record { eviction_idle = 0; eviction_absolute = 0 };
}

-- The capability of the dropped key goes, the other stays.
pruned_caps : (prune_once state 101).caps ≡ (6, record cap { cache_key = 2 }) ∷ []
unfolding prune_once prune_caps_once stale_of is_expired classify_eviction
pruned_caps = refl

abbrev file : Text
file = 35 ∷ 10 ∷ bytes " BOTWORK_ADMIN_API_KEY= k1 "

key_parsed : parse_admin_key_from_content file ≡ some (bytes "k1")
unfolding parse_admin_key_from_content split
key_parsed = refl

abbrev content_at : ℕ → Option Text
content_at t = if t == 1 then some file else none

abbrev shown : Option Observed
shown = some (record { modified = some 1; content = some file })

answers_are_current_example :
    answers new (shown ∷ none ∷ shown ∷ []) ≡ key_in shown ∷ none ∷ key_in shown ∷ []
answers_are_current_example =
    answers_are_current content_at (shown ∷ none ∷ shown ∷ []) (refl, (tt, (refl, tt)))
