-- ===== src/AuthBroker/Cache/AdminKey.antt =====
-- auth-broker/src/cache.rs, `AdminKeyFile`: the admin key is read again when the file's time of
-- change differs. What the file system shows at a call is an input, and the file is ASCII text.
pub mod Current
use botwork.Common.{
  ℕ, Bool, false, ◌&&◌, ◌||◌, Option, none, some, List, [], ◌∷◌, ◌++◌, eqb, if◌then◌else◌, is_some,
  is_empty, ◌==◌, nat_eq, list_eq, option_eq, pair_eq,
}
use botwork.Common.Text.{Text, bytes, strip_prefix, split, trim}

-- The time of change where the platform has one, and the content where the file can be read.
pub record Observed : Type 0 where
  pub modified : Option ℕ
  pub content : Option Text

pub record AdminKeyFile : Type 0 where
  pub key : Option Text
  pub mtime : Option ℕ

abbrev pub new : AdminKeyFile
new = record { key = none; mtime = none }

abbrev admin_key_env_var : Text
admin_key_env_var = bytes "BOTWORK_ADMIN_API_KEY"

-- `line.strip_prefix(ADMIN_KEY_ENV_VAR)?.strip_prefix('=')`, for a value that is not empty.
key_of_line : Text → Option Text
key_of_line line = elim (strip_prefix (admin_key_env_var ++ b'=' ∷ []) line) [
  | none ↦ none
  | some val ↦ if is_empty (trim val) then none else some (trim val)
]

-- The loop over the lines.
key_of_lines : List Text → Option Text
unfolding key_of_line
key_of_lines [] = none
key_of_lines (raw ∷ lines) =
    let line = trim raw in
    let rest = key_of_lines lines in
    if is_empty line || eqb_first line
    then rest
    else elim (key_of_line line) [ none ↦ rest | some key ↦ some key ]
  where
    eqb_first : Text → Bool
    eqb_first [] = false
    eqb_first (c ∷ s) = eqb c b'#'

-- `str::lines` is a split at line feeds: a carriage return goes with `trim`, and an empty last
-- piece is passed over like an empty line.
unfoldable pub parse_admin_key_from_content : Text → Option Text
unfolding key_of_lines split
parse_admin_key_from_content content = key_of_lines (split 10 content)

pub parsed : Option Text → Option Text
unfolding parse_admin_key_from_content
parsed none = none
parsed (some content) = parse_admin_key_from_content content

pub reread : Observed → Option Text × AdminKeyFile
unfolding parsed
reread seen = let key = parsed seen.content in (key, record { key = key; mtime = seen.modified })

-- `none` is a file that `metadata` does not find.
pub current_key : AdminKeyFile → Option Observed → Option Text × AdminKeyFile
unfolding reread
current_key file none = (none, new)
current_key file (some seen) =
    let again = reread seen in
    if is_some seen.modified && file.mtime == seen.modified then (file.key, file) else again
