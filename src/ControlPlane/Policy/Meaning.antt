-- ===== src/ControlPlane/Policy/Meaning.antt =====
-- What envoy permits under the policies of control-plane/src/policy.rs, by the ALLOW action that the
-- head of that file describes, beside a reading of the egress settings that builds no policies.
use botwork.Common.{
  ℕ, ◌≡◌, refl, ◌≢◌, inl, inr, Bool, true, false, not, ◌&&◌, ◌||◌, Option, none, some, List, [],
  ◌∷◌, ◌++◌, arith, eqb, Option-cases, any, All, ◌==◌, nat_eq, list_eq, option_eq, ok,
}
use botwork.Common.Text.{Text, bytes, text_iff}
use botwork.Common.Map
use botwork.Common.Map.{Map}
use botwork.Common.Json.{JsonApi}
use botwork.ControlPlane.Sessions.{SessionRecord}
use botwork.ControlPlane.Handler.{PostBody, validate, egress-validate}
use botwork.ControlPlane.Policy.{
  Permission, any_true, authority, Policy, authority_of, authority_header_match, policy_name,
  egress_mode, port_permissions, host_of, ports_of, entry_permissions, allow_permissions, allow_of,
  allow_list, permissions_for_egress, principal_for_ip, policy_of, collect, build_rbac_policies,
}

-- envoy's side: a request carries the peer's address and an `:authority`. A policy matches when one
-- of its principals and one of its permissions do, and one matching policy is enough.
abbrev pub grants : Text → Permission → Bool
grants target any_true = true
grants target (authority t) = t == target

abbrev pub matches : ℕ → Text → Policy → Bool
matches ip target p = any (λ q. eqb q ip) p.principals && any (grants target) p.permissions

abbrev pub permits : Map Text Policy → ℕ → Text → Bool
permits policies ip target = any (λ entry. matches ip target entry.1) policies

any-append :
    (p : Permission → Bool) (xs ys : List Permission) → any p (xs ++ ys) ≡ (any p xs || any p ys)
any-append p [] ys = refl
any-append p (x ∷ xs) ys = ground (arith, any-append p xs ys)

module _ (api : JsonApi) where
  open api use {Json, as_str, as_u64, as_array, null}

  -- The egress setting of a session, read without policies: `all` opens every target, `none` no
  -- target, and an allow list the pairs of a host and one of its ports.
  abbrev pub port_opens : Text → Text → Json → Bool
  port_opens target host port = elim (as_u64 port) [
    | none ↦ false
    | some p ↦ authority_of host p == target
  ]

  abbrev pub entry_opens : Text → Json → Bool
  entry_opens target entry = elim (host_of api entry) [
    | none ↦ false
    | some host ↦ elim (ports_of api entry) [
      | none ↦ false
      | some ports ↦ any (port_opens target host) ports
    ]
  ]

  abbrev pub list_opens : Text → Option (List Json) → Bool
  list_opens target none = false
  list_opens target (some entries) = any (entry_opens target) entries

  abbrev pub egress_opens : Text → Json → Bool
  egress_opens target egress =
      egress_mode api egress == some (bytes "all")
      || (not (egress_mode api egress == some (bytes "none"))
          && list_opens target (allow_of api egress))

  abbrev pub HaveDistinctIds : List (SessionRecord Json) → Type 0
  HaveDistinctIds [] = Unit
  HaveDistinctIds (r ∷ records) =
      All (λ s. r.session_id ≢ s.session_id) records × HaveDistinctIds records

  any-port_permissions :
      (target host : Text) (ports : List Json)
      → any (grants target) (port_permissions api host ports) ≡ any (port_opens target host) ports
  unfolding port_permissions authority_header_match
  any-port_permissions target host [] = refl
  any-port_permissions target host (port ∷ ports) =
      ground (arith, any-port_permissions target host ports)

  any-entry_permissions :
      (target : Text) (entry : Json)
      → any (grants target) (entry_permissions api entry) ≡ entry_opens target entry
  unfolding entry_permissions
  any-entry_permissions target entry = elim (Option-cases (host_of api entry)) [
    | inl no_host ↦ ground (arith, no_host)
    | inr (host, h) ↦ elim (Option-cases (ports_of api entry)) [
      | inl no_ports ↦ ground (arith, h, no_ports)
      | inr (ports, g) ↦ ground (arith, h, g, any-port_permissions target host ports)
    ]
  ]

  any-allow_permissions :
      (target : Text) (entries : List Json)
      → any (grants target) (allow_permissions api entries) ≡ any (entry_opens target) entries
  unfolding allow_permissions
  any-allow_permissions target [] = refl
  any-allow_permissions target (entry ∷ entries) = ground (
    arith,
    any-append (grants target) (entry_permissions api entry) (allow_permissions api entries),
    any-entry_permissions target entry,
    any-allow_permissions target entries,
  )

  any-permissions_for_egress :
      (target : Text) (egress : Json)
      → egress_opens target egress ≡ elim (permissions_for_egress api egress) [
        | none ↦ false
        | some permissions ↦ any (grants target) permissions
      ]
  unfolding permissions_for_egress allow_list
  any-permissions_for_egress target egress = elim (Option-cases (allow_of api egress)) [
    | inl no_list ↦ ground (arith, no_list)
    | inr (entries, h) ↦ ground (arith, h, any-allow_permissions target entries)
  ]

  IsFresh : Map Text Policy → List (SessionRecord Json) → Type 0
  IsFresh policies records = All (λ s. Map.get (policy_name s.session_id) policies ≡ none) records

  policy_name-injective : (i j : Text) → policy_name i ≡ policy_name j → i ≡ j
  policy_name-injective i j h = cc

  insert-IsFresh :
      (id : Text) (p : Policy) (policies : Map Text Policy) (records : List (SessionRecord Json))
      → All (λ s. id ≢ s.session_id) records
      → IsFresh policies records
      → IsFresh (Map.insert (policy_name id) p policies) records
  unfolding IsFresh
  insert-IsFresh id p policies [] others fresh = tt
  insert-IsFresh id p policies (s ∷ records) others fresh = (
    ground (
      arith,
      Map.get-insert (policy_name id) (policy_name s.session_id) p policies,
      text_iff (policy_name id) (policy_name s.session_id),
      policy_name-injective id s.session_id,
      others.0,
      fresh.0,
    ),
    insert-IsFresh id p policies records others.1 fresh.1,
  )

  permits-collect :
      (ip : ℕ) (target : Text) (records : List (SessionRecord Json)) (policies : Map Text Policy)
      → HaveDistinctIds records
      → IsFresh policies records
      → permits (collect api policies records) ip target ≡ (
          permits policies ip target
          || any (λ r. eqb r.container_ip ip && egress_opens target r.egress_policy) records)
  unfolding collect policy_of principal_for_ip IsFresh
  permits-collect ip target [] policies distinct fresh = ground arith
  permits-collect ip target (r ∷ records) policies distinct fresh =
      elim (Option-cases (permissions_for_egress api r.egress_policy)) [
        | inl closed ↦ ground (
          arith,
          closed,
          any-permissions_for_egress target r.egress_policy,
          permits-collect ip target records policies distinct.1 fresh.1,
        )
        | inr (permissions, h) ↦
            let p : Policy = record {
              permissions = permissions;
              principals = r.container_ip ∷ [];
            } in
            ground (
              arith,
              h,
              any-permissions_for_egress target r.egress_policy,
              Map.remove_absent (policy_name r.session_id) policies fresh.0,
              permits-collect ip target records (Map.insert (policy_name r.session_id) p policies)
                  distinct.1 (insert-IsFresh r.session_id p policies records distinct.0 fresh.1),
            )
      ]

  nil-IsFresh : (records : List (SessionRecord Json)) → IsFresh [] records
  unfolding IsFresh
  nil-IsFresh [] = tt
  nil-IsFresh (s ∷ records) = (refl, nil-IsFresh records)

  -- Under the policies compiled from sessions with distinct ids, envoy permits a request exactly if
  -- one of the sessions has the peer's address and an egress setting that opens the target.
  pub permits-build_rbac_policies :
      (records : List (SessionRecord Json)) (ip : ℕ) (target : Text)
      → HaveDistinctIds records
      → permits (build_rbac_policies api records) ip target
        ≡ any (λ r. eqb r.container_ip ip && egress_opens target r.egress_policy) records
  unfolding build_rbac_policies
  permits-build_rbac_policies records ip target distinct =
      ground (arith, permits-collect ip target records [] distinct (nil-IsFresh records))

  null_opens : (target : Text) → egress_opens target null ≡ false
  unfolding egress_mode allow_of
  null_opens target =
      ground (arith, api.as_str-null, api.get-null (bytes "mode"), api.get-null (bytes "allow"))

  -- A session posted with a valid body that has no egress policy opens no target: with its record
  -- alone in the table, envoy permits no request at all.
  pub no_policy_is_denied :
      (body : PostBody Json) (r : SessionRecord Json) (ip : ℕ) (target : Text)
      → body.egress_policy ≡ none
      → validate null (some body) ≡ ok r
      → permits (build_rbac_policies api (r ∷ [])) ip target ≡ false
  no_policy_is_denied body r ip target open_end valid =
      let setting = egress-validate null body r open_end valid in
      ground
        (arith, permits-build_rbac_policies (r ∷ []) ip target (tt, tt), setting, null_opens target)
