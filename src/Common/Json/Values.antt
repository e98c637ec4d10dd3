-- ===== src/Common/Json/Values.antt =====
-- JSON values that meet the interface, for runs on concrete inputs. Numbers are the u64 ones.
use Prim.Native.Nat.{ℕ}
use mathlib.Core.Path.{◌≡◌, refl}
use mathlib.Core.Option.{Option, none, some}
use mathlib.Core.List.{List, [], ◌∷◌}
use botwork.Common.Tests.{if◌then◌else◌}
use botwork.Common.Classes.{◌==◌, nat_eq, list_eq}
use botwork.Common.Text.{Text}
use botwork.Common.Json.{JsonApi}

mutual
  pub data Value : Type 0 where
    null : Value
    num : ℕ → Value
    str : Text → Value
    arr : Items → Value
    obj : Fields → Value

  pub data Items : Type 0 where
    nil : Items
    cons : Value → Items → Items

  pub data Fields : Type 0 where
    end : Fields
    field : Text → Value → Fields → Fields

abbrev pub as_str : Value → Option Text
as_str (str s) = some s
as_str null = none
as_str _ = none

abbrev pub as_u64 : Value → Option ℕ
as_u64 (num n) = some n
as_u64 null = none
as_u64 _ = none

abbrev pub items : Items → List Value
items nil = []
items (cons v vs) = v ∷ items vs

abbrev pub as_array : Value → Option (List Value)
as_array (arr vs) = some (items vs)
as_array null = none
as_array _ = none

abbrev pub lookup : Text → Fields → Option Value
lookup k end = none
lookup k (field j v fs) = if j == k then some v else lookup k fs

abbrev pub get : Text → Value → Option Value
get k (obj fs) = lookup k fs
get k null = none
get k _ = none

pub get_of_str : (j : Value) (k s : Text) → as_str j ≡ some s → get k j ≡ none
get_of_str (str t) k s h = refl
get_of_str null k s h = refl
get_of_str (num n) k s h = refl
get_of_str (arr vs) k s h = refl
get_of_str (obj fs) k s h = cc

pub get-null : (k : Text) → get k null ≡ none
get-null k = refl

abbrev pub values : JsonApi
values = record {
  Json = Value;
  null = null;
  as_str = as_str;
  as_u64 = as_u64;
  as_array = as_array;
  get = get;
  get_of_str = get_of_str;
  as_str-null = refl;
  get-null = get-null;
}
