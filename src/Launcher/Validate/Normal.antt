-- ===== src/Launcher/Validate/Normal.antt =====
-- Paths built from parts are in their normal form (launcher/src/validate.rs).
use botwork.Common.{
  ℕ, ◌≡◌, refl, Bool, true, false, not, List, [], ◌∷◌, ◌++◌, arith, eqb, all, nat_eq, list_eq,
  option_eq,
}
use botwork.Common.Text.{Text, bytes, split, is_piece, split-append, split_whole}
use botwork.Launcher.Validate.{
  tenants, is_tenant_byte, tenant_re, is_hex, is_token, is_agent_byte, is_agent, component, pushed,
  normalize_path,
}

-- A segment that is one piece and no dot: what `component` pushes.
abbrev pub IsPart : Text → Type 0
IsPart s = (is_piece b'/' s ≡ true) × ((stack : List Text) → component stack s ≡ s ∷ stack)

pieces_of_bytes :
    (p : ℕ → Bool) (s : Text)
    → ((c : ℕ) → p c ≡ true → not (eqb c b'/') ≡ true)
    → all p s ≡ true
    → is_piece b'/' s ≡ true
pieces_of_bytes p [] no_slash h = refl
pieces_of_bytes p (c ∷ s) no_slash h = ground (arith, no_slash c, pieces_of_bytes p s no_slash)

-- A first byte other than a dot makes a part.
IsPart-first :
    (c : ℕ) (s : Text) → eqb c b'.' ≡ false → is_piece b'/' (c ∷ s) ≡ true → IsPart (c ∷ s)
IsPart-first c s no_dot piece = (piece, λ stack. ground arith)

pub tenant-IsPart : (t : Text) → tenant_re t ≡ true → IsPart t
tenant-IsPart [] h = cc
tenant-IsPart (c ∷ s) h =
    IsPart-first c s (ground arith)
      (ground (arith, pieces_of_bytes is_tenant_byte s (λ d g. ground arith)))

pub token-IsPart : (k : Text) → is_token k ≡ true → IsPart k
token-IsPart [] h = ground arith
token-IsPart (c ∷ s) h =
    IsPart-first c s (ground arith) (ground (arith, pieces_of_bytes is_hex s (λ d g. ground arith)))

pub agent-IsPart : (a : Text) → is_agent a ≡ true → IsPart a
agent-IsPart [] h = ground arith
agent-IsPart (c ∷ s) h =
    IsPart-first c s (ground arith)
      (ground (arith, pieces_of_bytes is_agent_byte s (λ d g. ground arith)))

abbrev pub staging_path : Text → Text → Text
staging_path t token = tenants ++ b'/' ∷ (t ++ (b'/' ∷ (bytes "staging" ++ (b'/' ∷ token))))

abbrev pub agent_path : Text → Text → Text → Text
agent_path t w agent =
    tenants
    ++ b'/'
      ∷ (t
          ++ (b'/'
              ∷ (bytes "workspaces"
                  ++ (b'/' ∷ (w ++ (b'/' ∷ (bytes "agents" ++ (b'/' ∷ agent))))))))

pub normalize-staging :
    (t token : Text)
    → IsPart t
    → IsPart token
    → normalize_path (staging_path t token) ≡ staging_path t token
unfolding normalize_path pushed split
normalize-staging t token (piece, push) (piece', push') =
    rw
      (
        split-append b'/' t (bytes "staging" ++ (b'/' ∷ token)) piece,
        split_whole b'/' token piece',
        push (bytes "tenants" ∷ bytes "botwork" ∷ bytes "lib" ∷ bytes "var" ∷ []),
        push' (
            bytes "staging"
            ∷ t
            ∷ bytes "tenants"
            ∷ bytes "botwork"
            ∷ bytes "lib"
            ∷ bytes "var"
            ∷ []),
      )
      refl

pub normalize-agent :
    (t w agent : Text)
    → IsPart t
    → IsPart w
    → IsPart agent
    → normalize_path (agent_path t w agent) ≡ agent_path t w agent
unfolding normalize_path pushed split
normalize-agent t w agent (piece, push) (piece', push') (piece'', push'') =
    let base = bytes "tenants" ∷ bytes "botwork" ∷ bytes "lib" ∷ bytes "var" ∷ [] in
    let below_t = bytes "workspaces" ∷ t ∷ base in
    rw
      (
        split-append b'/' t
            (bytes "workspaces" ++ (b'/' ∷ (w ++ (b'/' ∷ (bytes "agents" ++ (b'/' ∷ agent))))))
            piece,
        split-append b'/' w (bytes "agents" ++ (b'/' ∷ agent)) piece',
        split_whole b'/' agent piece'',
        push base,
        push' below_t,
        push'' (bytes "agents" ∷ w ∷ below_t),
      )
      refl
