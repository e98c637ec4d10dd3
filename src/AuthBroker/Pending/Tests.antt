-- ===== src/AuthBroker/Pending/Tests.antt =====
-- The handshake map at concrete inputs, with a codec that stores the state as it is.
use botwork.Common.{
  ℕ, ◌≡◌, refl, ◌⊎◌, Option, some, List, [], ◌∷◌, arith, nat_eq, list_eq, option_eq, pair_eq, ok,
  err,
}
use botwork.AuthBroker.Pending.{
  LoginStates, not_found, expired, collision, Pending, PendingMap, sweep, insert, take, inserts,
  takes, sweeps, run,
}
use botwork.AuthBroker.Pending.Laws.{take-run-take, take-sweep}

identity_round_trip : (s : List ℕ) → ◌≡◌ {A = Option (List ℕ)} (some s) (some s)
identity_round_trip s = refl

abbrev plain : LoginStates
plain = record {
  State = List ℕ;
  to_bytes = λ s. s;
  from_bytes = some;
  from_bytes-to_bytes = identity_round_trip;
}

abbrev alice : Pending (List ℕ)
alice = record {
  tenant_id = some 7;
  state = 1 ∷ 2 ∷ [];
  lease_seconds_requested = 600;
  created_at = 1000;
}

abbrev one_entry : PendingMap
one_entry =
    (
      5,
      record {
        tenant_id = some 7;
        state_bytes = 1 ∷ 2 ∷ [];
        lease_seconds_requested = 600;
        created_at = 1000;
      },
    )
    ∷ []

insert_collides : insert plain one_entry 5 alice ≡ (err collision, one_entry)
unfolding insert
insert_collides = refl

insert_stores : insert plain [] 5 alice ≡ (ok tt, one_entry)
unfolding insert
insert_stores = refl

take-run-take_example :
    (take plain
      (run plain
        (take plain one_entry 5 2000).1
        (inserts 6 alice ∷ sweeps 2500 ∷ takes 5 2600 ∷ []))
      5
      3000).0
    ≡ err not_found
take-run-take_example =
    take-run-take plain one_entry 5 2000 3000 (inserts 6 alice ∷ sweeps 2500 ∷ takes 5 2600 ∷ [])
      (refl, tt) (omega arith, tt)

take-sweep_example :
    ((take plain (sweep one_entry 2000).1 5 3000).0 ≡ (take plain one_entry 5 3000).0)
    ⊎ (((take plain one_entry 5 3000).0 ≡ err expired)
        × ((take plain (sweep one_entry 2000).1 5 3000).0 ≡ err not_found))
take-sweep_example = take-sweep plain one_entry 5 2000 3000 (refl, tt) (omega arith)
