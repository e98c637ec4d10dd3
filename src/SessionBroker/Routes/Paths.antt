-- ===== src/SessionBroker/Routes/Paths.antt =====
-- The paths that a client can write, and what is forwarded for them.
use botwork.Common.{
  ℕ, ◌≡◌, refl, Bool, true, false, not, some, List, [], ◌∷◌, ◌++◌, arith, eqb, all, any, nat_eq,
  list_eq, option_eq, pair_eq,
}
use botwork.Common.Text.{Text}
use botwork.SessionBroker.Routes.{
  is_part_byte, is_part, span, part, captures, parse_tenant_workspace_plugin, parse_full_path,
  forward_path, body_of,
}

abbrev pub is_free_of : ℕ → Text → Bool
is_free_of stop s = all (λ c. not (eqb c stop)) s

-- Empty, or starting with a byte.
abbrev pub opens_with : ℕ → Text → Bool
opens_with c [] = true
opens_with c (d ∷ s) = eqb d c

all-append :
    {A : Type 0} (p : A → Bool) (xs ys : List A)
    → all p xs ≡ true
    → all p ys ≡ true
    → all p (xs ++ ys) ≡ true
all-append p [] ys h g = g
all-append p (x ∷ xs) ys h g = ground (arith, all-append p xs ys)

all_implies :
    {A : Type 0} (p q : A → Bool) (xs : List A)
    → ((x : A) → p x ≡ true → q x ≡ true)
    → all p xs ≡ true
    → all q xs ≡ true
all_implies p q [] f h = refl
all_implies p q (x ∷ xs) f h = ground (arith, f x, all_implies p q xs f)

span-append :
    (stop : ℕ) (s rest : Text)
    → is_free_of stop s ≡ true
    → opens_with stop rest ≡ true
    → span stop (s ++ rest) ≡ (s, rest)
unfolding span
span-append stop [] [] free opens = refl
span-append stop [] (c ∷ rest) free opens = ground (arith, opens)
span-append stop (c ∷ s) rest free opens = ground (arith, span-append stop s rest)

part_free :
    (stop : ℕ) (s : Text) → is_part s ≡ true → is_part_byte stop ≡ false → is_free_of stop s ≡ true
part_free stop [] h g = cc
part_free stop (c ∷ s) h g =
    ground (arith, all_implies is_part_byte (λ d. not (eqb d stop)) s (λ d k. ground arith))

abbrev pub base_path : Text → Text → Text → Text → Text
base_path tenant workspace plugin rest =
    b'/' ∷ (tenant ++ (b'/' ∷ (workspace ++ (b'/' ∷ (plugin ++ rest)))))

part-append :
    (name rest : Text)
    → is_part name ≡ true
    → opens_with b'/' rest ≡ true
    → part (b'/' ∷ (name ++ rest)) ≡ some (name, rest)
part-append name rest h g =
    ground (arith, span-append b'/' name rest (part_free b'/' name h refl) g)

newline_free : (rest : Text) → is_free_of 10 rest ≡ true → any (λ c. eqb c 10) rest ≡ false
newline_free [] h = refl
newline_free (c ∷ rest) h = ground (arith, newline_free rest)

-- The names between the slashes, and what stands behind them.
pub captures-base_path :
    (tenant workspace plugin rest : Text)
    → is_part tenant ≡ true
    → is_part workspace ≡ true
    → is_part plugin ≡ true
    → opens_with b'/' rest ≡ true
    → is_free_of 10 rest ≡ true
    → captures (base_path tenant workspace plugin rest)
      ≡ some (record { tenant = tenant; workspace = workspace; plugin = plugin; rest = rest })
unfolding captures
captures-base_path tenant workspace plugin rest t w p opens free =
    let third = part-append plugin rest p opens in
    let second = part-append workspace (b'/' ∷ (plugin ++ rest)) w refl in
    let first = part-append tenant (b'/' ∷ (workspace ++ (b'/' ∷ (plugin ++ rest)))) t refl in
    rw (first, second, third) (ground (arith, newline_free rest free))

base_path-free :
    (tenant workspace plugin rest : Text)
    → is_part tenant ≡ true
    → is_part workspace ≡ true
    → is_part plugin ≡ true
    → is_free_of b'?' rest ≡ true
    → is_free_of b'?' (base_path tenant workspace plugin rest) ≡ true
base_path-free tenant workspace plugin rest t w p free =
    let q = λ (c : ℕ). not (eqb c b'?') in
    all-append q tenant _ (part_free b'?' tenant t refl) (
      all-append q workspace _ (part_free b'?' workspace w refl)
        (all-append q plugin rest (part_free b'?' plugin p refl) free))

-- A path of a tenant, a workspace and a plugin, with what follows and with a query, is taken apart into
-- these three names, and its forwarded form is the plugin's own path with what followed and the
-- query. The names are a small letter and at most thirty small letters, digits and dashes each; what
-- follows is empty or starts with a slash, and has neither a question mark nor a newline; the query
-- is empty or starts with a question mark.
pub parse_full_path-base_path :
    (tenant workspace plugin rest query plugin_path : Text)
    → is_part tenant ≡ true
    → is_part workspace ≡ true
    → is_part plugin ≡ true
    → opens_with b'/' rest ≡ true
    → is_free_of b'?' rest ≡ true
    → is_free_of 10 rest ≡ true
    → opens_with b'?' query ≡ true
    → let path = base_path tenant workspace plugin rest ++ query in
      (parse_tenant_workspace_plugin path ≡ some (tenant, workspace, plugin))
      × (parse_full_path path plugin_path
          ≡ some (tenant, workspace, plugin, body_of plugin_path rest ++ query))
      × (forward_path path plugin_path ≡ body_of plugin_path rest ++ query)
unfolding parse_tenant_workspace_plugin parse_full_path forward_path
parse_full_path-base_path tenant workspace plugin rest query plugin_path t w p slash free line
      mark =
    let base = base_path tenant workspace plugin rest in
    let halves =
      span-append b'?' base query (base_path-free tenant workspace plugin rest t w p free) mark in
    let names = captures-base_path tenant workspace plugin rest t w p slash line in
    ground (arith, halves, names)
