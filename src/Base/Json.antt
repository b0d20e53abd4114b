-- ===== src/Base/Json.antt =====
-- A value of Go's `interface{}` as the code meets it in a decoded object: JSON, with the
-- `map[string]string` that the code itself stores. `float` stands for the numbers that are no int64.
use appwrapper.Base.Text.{Text, StringMap, text_eq}
use appwrapper.Base.{ℤ, ◌≡◌, refl, Bool, Option, none, some, if◌then◌else◌, List, [], ◌∷◌}

mutual
  pub data Json : Type 0 where
    null : Json
    bool : Bool → Json
    int : ℤ → Json
    float : Text → Json
    str : Text → Json
    arr : Items → Json
    obj : Fields → Json
    str_map : StringMap → Json

  pub data Items : Type 0 where
    nil : Items
    cons : Json → Items → Items

  pub data Fields : Type 0 where
    end : Fields
    field : Text → Json → Fields → Fields

-- `m[key]` with its `ok`, on a map[string]interface{}.
unfoldable pub get_field : Text → Fields → Option Json
get_field k end = none
get_field k (field j v m) = if text_eq j k then some v else get_field k m

-- `m[key] = v`
unfoldable pub set_field : Text → Json → Fields → Fields
set_field k v end = field k v end
set_field k v (field j w m) = if text_eq j k then field k v m else field j w (set_field k v m)

abbrev pub items : Items → List Json
items nil = []
items (cons x xs) = x ∷ items xs

abbrev pub from_items : List Json → Items
from_items [] = nil
from_items (x ∷ xs) = cons x (from_items xs)

-- The type assertions `v.(map[string]interface{})`, `v.([]interface{})` and `v.(string)`.
abbrev pub as_map : Json → Option Fields
as_map (obj m) = some m
as_map _ = none

abbrev pub as_array : Json → Option (List Json)
as_array (arr xs) = some (items xs)
as_array _ = none

abbrev pub as_string : Json → Option Text
as_string (str s) = some s
as_string _ = none

pub items-from_items : (xs : List Json) → items (from_items xs) ≡ xs
items-from_items [] = refl
items-from_items (x ∷ xs) = λ i. x ∷ items-from_items xs i
