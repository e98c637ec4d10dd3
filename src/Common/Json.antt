-- ===== src/Common/Json.antt =====
-- What the program uses of `serde_json::Value`, as an interface. The laws are those of the
-- documentation: `get` at a key reads objects only, and `null` is neither a text, an array, a
-- number nor an object.
pub mod Values
use Prim.Native.Nat.{ℕ}
use mathlib.Core.Path.{◌≡◌}
use mathlib.Core.Option.{Option, none, some}
use mathlib.Core.List.{List}
use botwork.Common.Text.{Text}

pub record JsonApi : Type 1 where
  pub Json : Type 0
  pub null : Json
  pub as_str : Json → Option Text
  pub as_u64 : Json → Option ℕ
  pub as_array : Json → Option (List Json)
  pub get : Text → Json → Option Json
  pub get_of_str : (j : Json) (k s : Text) → as_str j ≡ some s → get k j ≡ none
  pub as_str-null : as_str null ≡ none
  pub get-null : (k : Text) → get k null ≡ none
