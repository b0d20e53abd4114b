-- ===== src/Base/Tables.antt =====
-- Lists of names as sets, and maps that are compared by their entries.
use appwrapper.Base.Tests.{if◌then◌else◌, Bool-cases}
use mathlib.Core.Path.{◌≡◌, refl, sym, ◌∙◌}
use mathlib.Core.Logic.{inl, inr}
use mathlib.Core.Bool.{Bool, true, false, ◌&&◌}
use mathlib.Core.Option.{Option, none, some}
use mathlib.Core.List.{List, [], ◌∷◌}
use native.Mathlib.Omega.{arith}
use appwrapper.Base.Int.{ℤ, eqb_ℤ, eqb_ℤ_iff}
use appwrapper.Base.Text.{Text, text_eq, text_eq_sound, lookup}

unfoldable pub member : Text → List Text → Bool
member t [] = false
member t (s ∷ ss) = if text_eq s t then true else member t ss

-- `s.Insert(t)` on a set
abbrev pub add : Text → List Text → List Text
add t ss = if member t ss then ss else t ∷ ss

-- One set or one map has what the other has.
unfoldable pub subset : List Text → List Text → Bool
subset [] ts = true
subset (s ∷ ss) ts = member s ts && subset ss ts

abbrev has_value : ℤ → Option ℤ → Bool
has_value n none = false
has_value n (some m) = eqb_ℤ n m

unfoldable pub submap : List (Text × ℤ) → List (Text × ℤ) → Bool
submap [] m = true
submap ((k, n) ∷ l) m = has_value n (lookup k m) && submap l m

-- `s.Equal(t)` of two sets, and maps.Equal of two maps
abbrev pub same_set : List Text → List Text → Bool
same_set a b = subset a b && subset b a

abbrev pub same_map : List (Text × ℤ) → List (Text × ℤ) → Bool
same_map a b = submap a b && submap b a

subset_lem :
    (ss ts : List Text) (t : Text) → subset ss ts ≡ true → member t ss ≡ true → member t ts ≡ true
unfolding subset member
subset_lem [] ts t h e = absurd cc
subset_lem (s ∷ ss) ts t h e = elim (Bool-cases (text_eq s t)) [
  | inl p ↦
      let same : s ≡ t = text_eq_sound s t p in
      let a : member s ts ≡ true = ground arith in rw (sym same) a
  | inr p ↦ subset_lem ss ts t (ground arith) (rw (member, p) at e)
]

pub same_set-member : (a b : List Text) (t : Text) → same_set a b ≡ true → member t a ≡ member t b
same_set-member a b t h =
    let ab : subset a b ≡ true = ground arith in
    let ba : subset b a ≡ true = ground arith in
    elim (Bool-cases (member t a)) [
      | inl p ↦ p ∙ sym (subset_lem a b t ab p)
      | inr p ↦ elim (Bool-cases (member t b)) [
        | inl q ↦ absurd (let r = subset_lem b a t ba q in cc)
        | inr q ↦ p ∙ sym q
      ]
    ]

has_value_lem : (n : ℤ) (o : Option ℤ) → has_value n o ≡ true → o ≡ some n
has_value_lem n none h = absurd cc
has_value_lem n (some m) h = let e : n ≡ m = (eqb_ℤ_iff n m).0 h in cc

submap_lem :
    (l m : List (Text × ℤ)) (t : Text) (n : ℤ)
    → submap l m ≡ true
    → lookup t l ≡ some n
    → lookup t m ≡ some n
unfolding submap lookup
submap_lem [] m t n h e = absurd cc
submap_lem ((k, v) ∷ l) m t n h e = elim (Bool-cases (text_eq k t)) [
  | inl p ↦
      let same : k ≡ t = text_eq_sound k t p in
      let a : has_value v (lookup k m) ≡ true = ground arith in
      let here : some v ≡ some n = rw (lookup, p) at e in
      rw (sym same) (has_value_lem v (lookup k m) a ∙ here)
  | inr p ↦ submap_lem l m t n (ground arith) (rw (lookup, p) at e)
]

pub same_map-lookup :
    (a b : List (Text × ℤ)) (t : Text) → same_map a b ≡ true → lookup t a ≡ lookup t b
same_map-lookup a b t h =
    let ab : submap a b ≡ true = ground arith in
    let ba : submap b a ≡ true = ground arith in
    go (lookup t a) (lookup t b) (λ n e. submap_lem a b t n ab e) (λ n e. submap_lem b a t n ba e)
  where
    go :
        (o p : Option ℤ)
        → ((n : ℤ) → o ≡ some n → p ≡ some n)
        → ((n : ℤ) → p ≡ some n → o ≡ some n)
        → o ≡ p
    go none none f g = refl
    go none (some n) f g = g n refl
    go (some n) p f g = sym (f n refl)
