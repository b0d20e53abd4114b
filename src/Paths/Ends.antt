-- ===== src/Paths/Ends.antt =====
-- The loop of getValueAtPath (pkg/utils/utils.go) and its fuel.
use appwrapper.Base.{
  ℕ, zero, suc, ◌≤◌, ◌<◌, ◌≡◌, ◌≢◌, arith, inl, inr, Option-cases, [], ◌∷◌, length, length-drop,
}
use appwrapper.Base.Text.{Text}
use appwrapper.Base.Json.{Json, Fields, obj}
use appwrapper.Base.Result.{ok, err, Result-cases}
use appwrapper.Base.Strings.{index_of, after_prefix}
use appwrapper.Paths.{
  out_of_fuel, index_step, field_step, key_end, path_step, walk, get_value_at_path, template_string,
}

index_step_shortens :
    (s : Text) (cursor : Json) (rest : Text) (x : Json)
    → index_step s cursor ≡ ok (rest, x)
    → length rest ≤ length s
unfolding index_step
index_step_shortens s cursor rest x h = elim (Option-cases (index_of b']' s)) [
  | inl e ↦ ground arith
  | inr (end, e) ↦ ground (arith, length-drop (suc end) s)
]

field_step_shortens :
    (s : Text) (cursor : Json) (rest : Text) (x : Json)
    → field_step s cursor ≡ ok (rest, x)
    → length rest ≤ length s
unfolding field_step
field_step_shortens s cursor rest x h = ground (arith, length-drop (key_end s) s)

-- One round consumes at least one byte of the path.
path_step_shortens :
    (p : Text) (cursor : Json) (rest : Text) (x : Json)
    → path_step p cursor ≡ ok (rest, x)
    → length rest < length p
unfolding path_step
path_step_shortens [] cursor rest x h = cc
path_step_shortens (c ∷ s) cursor rest x h =
    ground (arith, index_step_shortens s cursor rest x, field_step_shortens s cursor rest x)

path_step-ne-fuel : (p : Text) (cursor : Json) → path_step p cursor ≢ err out_of_fuel
unfolding path_step
path_step-ne-fuel [] cursor h = cc
path_step-ne-fuel (c ∷ s) cursor h = ground arith

walk-ne-fuel :
    (fuel : ℕ) (p : Text) (cursor : Json) → length p ≤ fuel → walk fuel p cursor ≢ err out_of_fuel
unfolding walk
walk-ne-fuel fuel [] cursor h e = cc
walk-ne-fuel zero (c ∷ s) cursor h e = absurd (omega arith)
walk-ne-fuel (suc fuel) (c ∷ s) cursor h e = elim (Result-cases (path_step (c ∷ s) cursor)) [
  | inl ((rest, x), q) ↦
      walk-ne-fuel fuel rest x (omega (arith, path_step_shortens (c ∷ s) cursor rest x q))
        (rw (q, walk) at e)
  | inr (f, q) ↦ path_step-ne-fuel (c ∷ s) cursor (rw q (ground arith))
]

-- getValueAtPath ends for every object and every path: the loop's fuel, the length of the path,
-- never runs out.
pub get_value_at_path_ends : (m : Fields) (path : Text) → get_value_at_path m path ≢ err out_of_fuel
unfolding get_value_at_path
get_value_at_path_ends m path h = elim (Option-cases (after_prefix template_string path)) [
  | inl e ↦ ground arith
  | inr (r, e) ↦ walk-ne-fuel (length r) r (obj m) (omega arith) (ground arith)
]
