-- ===== src/Paths/RoundTrip.antt =====
-- What a change of the map at a path puts there (GetRawTemplate of pkg/utils/utils.go and its use in
-- createComponent).
use appwrapper.Base.{
  ℤ, pos, negsuc, ℕ, zero, suc, ◌≡◌, refl, sym, ap, ◌∙◌, true, false, some, List, [], ◌∷◌, ◌==◌,
  take, drop, get_elem?, set, length, Bool-cases, inl, inr,
}
use appwrapper.Base.Text.{Text, text_eq, text_eq_refl}
use appwrapper.Base.Json.{
  Json, Fields, end, field, get_field, set_field, from_items, items-from_items, as_map, as_array,
  arr, obj,
}
use appwrapper.Base.Result.{ok, err, require, bind_ok, require_ok, ok_injective, Result-cases}
use appwrapper.Base.Strings.{atoi, index_of, after_prefix}
use appwrapper.Paths.{
  unclosed_index, bad_index, not_array, out_of_bounds, not_map, missing_field, bad_element,
  no_template_prefix, element, index_step, field_step, key_end, path_step, walk, get_value_at_path,
  get_raw_template, set_element, write_index, write_field, write, put_raw_template, template_string,
}

pub get_field-set_field :
    (key : Text) (v : Json) (m : Fields) → get_field key (set_field key v m) ≡ some v
unfolding get_field set_field
get_field-set_field key v end = rw (text_eq_refl key) refl
get_field-set_field key v (field j w m) = elim (Bool-cases (text_eq j key)) [
  | inl p ↦ rw p (rw (text_eq_refl key) refl)
  | inr p ↦ rw p (rw p (get_field-set_field key v m))
]

element-set_element :
    (i : ℤ) (x y : Json) (xs : List Json)
    → element xs i ≡ some x
    → element (set_element i y xs) i ≡ some y
element-set_element (negsuc n) x y xs h = absurd cc
element-set_element (pos n) x y xs h = at n xs h
  where
    at : (n : ℕ) (xs : List Json) → get_elem? xs n ≡ some x → get_elem? (set xs n y) n ≡ some y
    at n [] h = absurd cc
    at zero (z ∷ xs) h = refl
    at (suc n) (z ∷ xs) h = at n xs h

-- The step again, on what was written.
field_again :
    (below : Text → Json → Json) (s rest : Text) (cursor x : Json)
    → field_step s cursor ≡ ok (rest, x)
    → (n : Fields) × (write_field below s cursor ≡ obj n)
      × (field_step s (obj n) ≡ ok (rest, below rest x))
unfolding field_step write_field
field_again below s rest cursor x h =
    let (m, is_map, h1) = bind_ok (require not_map (as_map cursor)) _ (rest, x) h in
    let (y, has, h2) =
      bind_ok (require missing_field (get_field (take (key_end s) s) m)) _ (rest, x) h1 in
    let both : (drop (key_end s) s, y) ≡ (rest, x) = ok_injective h2 in
    let m_eq = require_ok not_map (as_map cursor) m is_map in
    let y_eq = require_ok missing_field (get_field (take (key_end s) s) m) y has in
    let n = set_field (take (key_end s) s) (below rest x) m in
    (
      n,
      rw (write_field, h, m_eq) refl,
      rw (field_step, get_field-set_field (take (key_end s) s) (below rest x) m)
          (ap (λ (p : Text × Json). ok (p.0, below rest x)) both),
    )

index_again :
    (below : Text → Json → Json) (s rest : Text) (cursor x : Json)
    → index_step s cursor ≡ ok (rest, x)
    → index_step s (write_index below s cursor) ≡ ok (rest, below rest x)
unfolding index_step write_index
index_again below s rest cursor x h =
    let (end_at, e1, h1) = bind_ok (require unclosed_index (index_of b']' s)) _ (rest, x) h in
    let (i, e2, h2) = bind_ok (require bad_index (atoi (take end_at s))) _ (rest, x) h1 in
    let (xs, e3, h3) = bind_ok (require not_array (as_array cursor)) _ (rest, x) h2 in
    let (y, e4, h4) = bind_ok (require out_of_bounds (element xs i)) _ (rest, x) h3 in
    let both : (drop (suc end_at) s, y) ≡ (rest, x) = ok_injective h4 in
    let q1 = require_ok unclosed_index (index_of b']' s) end_at e1 in
    let q2 = require_ok bad_index (atoi (take end_at s)) i e2 in
    let q3 = require_ok not_array (as_array cursor) xs e3 in
    let q4 = require_ok out_of_bounds (element xs i) y e4 in
    let new = set_element i (below rest x) xs in
    let wrote : write_index below s cursor ≡ arr (from_items new) =
      rw (write_index, q1, q2, h, q3) refl in
    rw
      (
        wrote,
        index_step,
        q1,
        q2,
        items-from_items new,
        element-set_element i y (below rest x) xs q4,
      )
      (ap (λ (p : Text × Json). ok (p.0, below rest x)) both)

-- One round of the read and of the write.
walk_step :
    (fuel c : ℕ) (s rest : Text) (cursor y : Json)
    → path_step (c ∷ s) cursor ≡ ok (rest, y)
    → walk (suc fuel) (c ∷ s) cursor ≡ walk fuel rest y
unfolding walk
walk_step fuel c s rest cursor y h = rw (walk, h) refl

walk_split :
    (fuel c : ℕ) (s : Text) (cursor x : Json)
    → walk (suc fuel) (c ∷ s) cursor ≡ ok x
    → (rest : Text) × (y : Json) × (path_step (c ∷ s) cursor ≡ ok (rest, y))
      × (walk fuel rest y ≡ ok x)
unfolding walk
walk_split fuel c s cursor x h = elim (Result-cases (path_step (c ∷ s) cursor)) [
  | inl ((rest, y), p) ↦ (rest, y, p, rw (walk, p) at h)
  | inr (e, p) ↦ absurd (let z : err e ≡ ok x = rw (walk, p) at h in cc)
]

step_index :
    (c : ℕ) (s : Text) (cursor : Json)
    → (c == b'[') ≡ true
    → path_step (c ∷ s) cursor ≡ index_step s cursor
unfolding path_step
step_index c s cursor p = rw p refl

step_field :
    (c : ℕ) (s : Text) (cursor : Json)
    → (c == b'[') ≡ false
    → (c == b'.') ≡ true
    → path_step (c ∷ s) cursor ≡ field_step s cursor
unfolding path_step
step_field c s cursor p d = rw (p, d) refl

step_bad :
    (c : ℕ) (s : Text) (cursor : Json)
    → (c == b'[') ≡ false
    → (c == b'.') ≡ false
    → path_step (c ∷ s) cursor ≡ err bad_element
unfolding path_step
step_bad c s cursor p d = rw (p, d) refl

write_at_index :
    (fuel c : ℕ) (v : Json) (s : Text) (cursor : Json)
    → (c == b'[') ≡ true
    → write (suc fuel) v (c ∷ s) cursor ≡ write_index (write fuel v) s cursor
unfolding write
write_at_index fuel c v s cursor p = rw p refl

write_at_field :
    (fuel c : ℕ) (v : Json) (s : Text) (cursor : Json)
    → (c == b'[') ≡ false
    → (c == b'.') ≡ true
    → write (suc fuel) v (c ∷ s) cursor ≡ write_field (write fuel v) s cursor
unfolding write
write_at_field fuel c v s cursor p d = rw (p, d) refl

-- The round of the read again, on what its round of the write left.
step_again :
    (fuel c : ℕ) (v : Json) (s rest : Text) (cursor y : Json)
    → path_step (c ∷ s) cursor ≡ ok (rest, y)
    → path_step (c ∷ s) (write (suc fuel) v (c ∷ s) cursor) ≡ ok (rest, write fuel v rest y)
step_again fuel c v s rest cursor y h = elim (Bool-cases (c == b'[')) [
  | inl p ↦
      step_index c s _ p
      ∙ ap (index_step s) (write_at_index fuel c v s cursor p)
      ∙ index_again (write fuel v) s rest cursor y (sym (step_index c s cursor p) ∙ h)
  | inr p ↦ elim (Bool-cases (c == b'.')) [
    | inr d ↦
        absurd (let z : err bad_element ≡ ok (rest, y) = sym (step_bad c s cursor p d) ∙ h in cc)
    | inl d ↦
        let (n, wrote, again) =
          field_again (write fuel v) s rest cursor y (sym (step_field c s cursor p d) ∙ h) in
        step_field c s _ p d
        ∙ ap (field_step s) (write_at_field fuel c v s cursor p d ∙ wrote)
        ∙ again
  ]
]

walk_again :
    (fuel : ℕ) (v : Json) (path : Text) (cursor x : Json)
    → walk fuel path cursor ≡ ok x
    → walk fuel path (write fuel v path cursor) ≡ ok v
unfolding walk write
walk_again fuel v [] cursor x h = refl
walk_again zero v (c ∷ s) cursor x h = absurd cc
walk_again (suc fuel) v (c ∷ s) cursor x h =
    let (rest, y, step, below) = walk_split fuel c s cursor x h in
    walk_step fuel c s rest (write (suc fuel) v (c ∷ s) cursor) (write fuel v rest y)
      (step_again fuel c v s rest cursor y step)
    ∙ walk_again fuel v rest y x below

-- An index expression does not start at a map.
no_index : (s rest : Text) (m : Fields) (y : Json) → index_step s (obj m) ≡ ok (rest, y) → ⊥
unfolding index_step
no_index s rest m y h =
    let (end_at, e1, h1) = bind_ok (require unclosed_index (index_of b']' s)) _ (rest, y) h in
    let (i, e2, h2) = bind_ok (require bad_index (atoi (take end_at s))) _ (rest, y) h1 in
    let z : err not_array ≡ ok (rest, y) = h2 in absurd cc

-- Written into a map, the result is a map.
write_map :
    (fuel : ℕ) (p m : Fields) (path : Text) (x : Json)
    → walk fuel path (obj m) ≡ ok x
    → (n : Fields) × (write fuel (obj p) path (obj m) ≡ obj n)
unfolding walk write
write_map fuel p m [] x h = (p, refl)
write_map zero p m (c ∷ s) x h = absurd cc
write_map (suc fuel) p m (c ∷ s) x h =
    let (rest, y, step, below) = walk_split fuel c s (obj m) x h in
    elim (Bool-cases (c == b'[')) [
      | inl i ↦ absurd (no_index s rest m y (sym (step_index c s (obj m) i) ∙ step))
      | inr i ↦ elim (Bool-cases (c == b'.')) [
        | inr d ↦
            absurd
              (let z : err bad_element ≡ ok (rest, y) = sym (step_bad c s (obj m) i d) ∙ step in cc)
        | inl d ↦
            let (n, wrote, again) =
              field_again (write fuel (obj p)) s rest (obj m) y
                (sym (step_field c s (obj m) i d) ∙ step) in
            (n, write_at_field fuel c (obj p) s (obj m) i d ∙ wrote)
      ]
    ]

-- When there is a template at a path of an object, writing any template there and reading the
-- path again gives the template that was written.
pub get_raw_template-put_raw_template :
    (m p q : Fields) (path : Text)
    → get_raw_template m path ≡ ok q
    → get_raw_template (put_raw_template m path p) path ≡ ok p
unfolding get_raw_template get_value_at_path put_raw_template
get_raw_template-put_raw_template m p q path h =
    let (value, found, is_map) = bind_ok (get_value_at_path m path) _ q h in
    let (remaining, cut, walked) =
      bind_ok (require no_template_prefix (after_prefix template_string path)) _ value found in
    let prefix = require_ok no_template_prefix (after_prefix template_string path) remaining cut in
    let (n, wrote) = write_map (length remaining) p m remaining value walked in
    let again : walk (length remaining) remaining (obj n) ≡ ok (obj p) =
      ap (walk (length remaining) remaining) (sym wrote)
      ∙ walk_again (length remaining) (obj p) remaining (obj m) value walked in
    rw (get_raw_template, get_value_at_path, put_raw_template, prefix, wrote, again) refl
