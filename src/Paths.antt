-- ===== src/Paths.antt =====
-- The paths of pkg/utils/utils.go: getValueAtPath, GetRawTemplate, GetReplicas and inferReplicas.
-- An error is the test that failed, without its text.
pub mod Ends
pub mod RoundTrip
use appwrapper.Base.{
  ℤ, pos, negsuc, ℕ, zero, suc, Bool, true, false, ◌&&◌, Option, none, some, List, [], ◌∷◌, ltb,
  ◌==◌, int32, if◌then◌else◌, length, take, drop, get_elem?, set,
}
use appwrapper.Base.Text.{Text, codes}
use appwrapper.Base.Json.{
  Json, Fields, get_field, set_field, from_items, as_map, as_array, int, null, bool, float, str,
  arr, obj, str_map,
}
use appwrapper.Base.Result.{Result, ok, err, ◌>>=◌, require}
use appwrapper.Base.Strings.{atoi, index_of, after_prefix, cut_last}

pub data PathError : Type 0 where
  no_template_prefix unclosed_index bad_index not_array out_of_bounds : PathError
  not_map missing_field bad_element out_of_fuel not_int no_spec bad_pod_spec : PathError

abbrev pub template_string : Text
template_string = codes "template"

-- `asArray[index]`, for an index of either sign
abbrev element : List Json → ℤ → Option Json
element xs (pos i) = get_elem? xs i
element xs (negsuc i) = none

-- An index expression; `s` is what follows its bracket.
index_step : Text → Json → Result PathError (Text × Json)
index_step s cursor = do
  end ← require unclosed_index (index_of b']' s)
  index ← require bad_index (atoi (take end s))
  xs ← require not_array (as_array cursor)
  x ← require out_of_bounds (element xs index)
  ok (drop (suc end) s, x)

-- Where the key of a field reference ends: at the first dot or bracket, unless that stands first.
abbrev positive_or : Option ℕ → ℕ → ℕ
positive_or none d = d
positive_or (some zero) d = d
positive_or (some (suc i)) d = suc i

abbrev earlier : Option ℕ → ℕ → ℕ
earlier none d = d
earlier (some i) d = if ltb 0 i && ltb i d then i else d

key_end : Text → ℕ
key_end s = earlier (index_of b'[' s) (positive_or (index_of b'.' s) (length s))

-- A field reference; `s` is what follows its dot.
field_step : Text → Json → Result PathError (Text × Json)
unfolding key_end
field_step s cursor = do
  m ← require not_map (as_map cursor)
  x ← require missing_field (get_field (take (key_end s) s) m)
  ok (drop (key_end s) s, x)

-- One round of the loop, on a path that is not empty.
path_step : Text → Json → Result PathError (Text × Json)
unfolding index_step field_step
path_step [] cursor = err bad_element
path_step (c ∷ s) cursor =
    if c == b'['
    then index_step s cursor
    else if c == b'.'
    then field_step s cursor
    else err bad_element

-- The loop, on fuel.
walk : ℕ → Text → Json → Result PathError Json
walk fuel [] cursor = ok cursor
walk zero (c ∷ s) cursor = err out_of_fuel
walk (suc fuel) (c ∷ s) cursor = elim (path_step (c ∷ s) cursor) [
  | ok (rest, x) ↦ walk fuel rest x
  | err e ↦ err e
]

-- Each round shortens the path, so its length is fuel enough.
unfoldable pub get_value_at_path : Fields → Text → Result PathError Json
unfolding walk path_step
get_value_at_path m path = do
  remaining ← require no_template_prefix (after_prefix template_string path)
  walk (length remaining) remaining (obj m)

unfoldable pub get_raw_template : Fields → Text → Result PathError Fields
get_raw_template m path = do value ← get_value_at_path m path; require not_map (as_map value)

-- The write that follows GetRawTemplate: the map it gave is part of the object, so that a change of
-- that map changes the object at the path. A step that the read took finds its place again.
abbrev set_element : ℤ → Json → List Json → List Json
set_element (pos i) v xs = set xs i v
set_element (negsuc i) v xs = xs

write_index : (Text → Json → Json) → Text → Json → Json
unfolding index_step
write_index below s cursor = elim (index_of b']' s) [
  | none ↦ cursor
  | some end ↦ elim (atoi (take end s)) [
    | none ↦ cursor
    | some i ↦ elim (index_step s cursor) [
      | err e ↦ cursor
      | ok (rest, x) ↦ elim (as_array cursor) [
        | none ↦ cursor
        | some xs ↦ arr (from_items (set_element i (below rest x) xs))
      ]
    ]
  ]
]

write_field : (Text → Json → Json) → Text → Json → Json
unfolding field_step key_end
write_field below s cursor = elim (field_step s cursor) [
  | err e ↦ cursor
  | ok (rest, x) ↦ elim (as_map cursor) [
    | none ↦ cursor
    | some m ↦ obj (set_field (take (key_end s) s) (below rest x) m)
  ]
]

write : ℕ → Json → Text → Json → Json
unfolding write_index write_field
write fuel v [] cursor = v
write zero v (c ∷ s) cursor = cursor
write (suc fuel) v (c ∷ s) cursor =
    if c == b'['
    then write_index (write fuel v) s cursor
    else if c == b'.'
    then write_field (write fuel v) s cursor
    else cursor

-- The object after a change of the map at a path.
unfoldable pub put_raw_template : Fields → Text → Fields → Fields
unfolding write
put_raw_template m path p = elim (after_prefix template_string path) [
  | none ↦ m
  | some remaining ↦ elim (as_map (write (length remaining) (obj p) remaining (obj m))) [
    | none ↦ m
    | some m' ↦ m'
  ]
]

abbrev int_value : Json → Result PathError ℤ
int_value (int v) = ok (int32 v)
int_value _ = err not_int

unfoldable pub get_replicas : Fields → Text → Result PathError ℤ
get_replicas m path = do value ← get_value_at_path m path; int_value value

-- The type switch of inferReplicas, where a missing value is nil.
abbrev replicas_value : Option Json → Result PathError ℤ
replicas_value none = ok (pos 1)
replicas_value (some null) = ok (pos 1)
replicas_value (some (int v)) = ok (int32 v)
replicas_value (some _) = err not_int

replicas_at : Fields → Option (Text × Text) → Text → Result PathError ℤ
replicas_at m none path = replicas_value (get_field path m)
replicas_at m (some (parent, key)) path = do
  inner ← get_raw_template m parent
  replicas_value (get_field key inner)

unfoldable pub infer_replicas : Fields → Text → Result PathError ℤ
unfolding replicas_at
infer_replicas m [] = ok (pos 1)
infer_replicas m (c ∷ path) = replicas_at m (cut_last b'.' (c ∷ path)) (c ∷ path)
