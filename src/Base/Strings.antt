-- ===== src/Base/Strings.antt =====
-- strings.Split at a one-byte separator, and strconv.Atoi on a 64-bit machine.
use appwrapper.Base.{
  ℤ, pos, negsuc, ℕ, ◌+◌, ◌-◌, ◌*◌, ◌^◌, ◌/◌, ◌%◌, zero, suc, leb, ltb, ◌==◌, Bool, true, false,
  ◌&&◌, Option, none, some, List, [], ◌∷◌, if◌then◌else◌, ◌≡◌, refl,
}
use mathlib.Core.Option
use appwrapper.Base.Text.{Text, codes}

abbrev push_front : ℕ → List Text → List Text
push_front c [] = (c ∷ []) ∷ []
push_front c (p ∷ ps) = (c ∷ p) ∷ ps

unfoldable pub split : ℕ → Text → List Text
split sep [] = [] ∷ []
split sep (c ∷ s) = let rest = split sep s in if c == sep then [] ∷ rest else push_front c rest

digits_value : ℕ → Text → Option ℕ
digits_value acc [] = some acc
digits_value acc (c ∷ s) =
    let rest = digits_value (acc * 10 + (c - b'0')) s in
    if leb b'0' c && leb c b'9' then rest else none

unsigned : Text → Option ℕ
unfolding digits_value
unsigned [] = none
unsigned (c ∷ s) = digits_value 0 (c ∷ s)

in_range : Bool → Option ℕ → Option ℤ
in_range negative none = none
in_range false (some n) = if ltb n (2 ^ 63) then some (pos n) else none
in_range true (some n) =
    if leb n (2 ^ 63) then some (if n == 0 then pos 0 else negsuc (n - 1)) else none

-- `none` is the error of a text that is no int64.
unfoldable pub atoi : Text → Option ℤ
unfolding in_range unsigned
atoi [] = none
atoi (c ∷ s) =
    if c == b'-'
    then in_range true (unsigned s)
    else if c == b'+'
    then in_range false (unsigned s)
    else in_range false (unsigned (c ∷ s))

-- strings.Index of a byte.
unfoldable pub index_of : ℕ → Text → Option ℕ
index_of c [] = none
index_of c (b ∷ s) = if b == c then some 0 else Option.map suc (index_of c s)

-- `strings.HasPrefix(s, p)` with the rest of `s` after it.
unfoldable pub after_prefix : Text → Text → Option Text
after_prefix [] s = some s
after_prefix (c ∷ p) [] = none
after_prefix (c ∷ p) (b ∷ s) = if c == b then after_prefix p s else none

-- strings.LastIndex of a byte, with `s[:i]` and `s[i+1:]`.
unfoldable pub cut_last : ℕ → Text → Option (Text × Text)
cut_last c [] = none
cut_last c (b ∷ s) = elim (cut_last c s) [
  | some (l, r) ↦ some (b ∷ l, r)
  | none ↦ if b == c then some ([], s) else none
]

-- The decimal digits that `%v` prints, for a number below 10 ^ fuel.
digits : ℕ → ℕ → Text → Text
digits zero n acc = acc
digits (suc fuel) n acc =
    let rest = digits fuel (n / 10) ((b'0' + n % 10) ∷ acc) in
    if ltb n 10 then (b'0' + n) ∷ acc else rest

unfoldable pub decimal : ℕ → Text
unfolding digits
decimal n = digits (suc n) n []

decimal_120 : decimal 120 ≡ codes "120"
unfolding decimal
decimal_120 = refl

atoi_negative : atoi (codes "-120") ≡ some (negsuc 119)
unfolding atoi
atoi_negative = refl

split-codes : split b',' (codes "3,,41") ≡ codes "3" ∷ [] ∷ codes "41" ∷ []
unfolding split
split-codes = refl
