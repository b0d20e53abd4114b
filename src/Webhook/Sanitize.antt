-- ===== src/Webhook/Sanitize.antt =====
-- SanitizeLabel of pkg/utils/utils.go, on the bytes of a text. The regular expression reads runes,
-- so that the bytes of one rune outside ASCII, or one byte that begins none, become one underscore.
use appwrapper.Base.{
  ℕ, zero, suc, ◌≤◌, Bool, true, false, ◌&&◌, ◌||◌, not, [], ◌∷◌, leb, ◌==◌, if◌then◌else◌, length,
  take, ◌≡◌, refl, arith, Bool-cases, inl, inr,
}
use appwrapper.Base.Text.{Text, codes}

abbrev between : ℕ → ℕ → ℕ → Bool
between a b c = leb a c && leb c b

pub alphanumeric : ℕ → Bool
alphanumeric c = between b'0' b'9' c || between b'A' b'Z' c || between b'a' b'z' c

-- The cutset of strings.Trim.
trimmed : ℕ → Bool
trimmed c = c == b'-' || c == b'_' || c == b'.'

-- The characters that `[^-_.\w]` does not match.
pub allowed : ℕ → Bool
unfolding alphanumeric trimmed
allowed c = alphanumeric c || trimmed c

abbrev continues : Text → Bool
continues [] = false
continues (c ∷ s) = between 128 191 c

abbrev rest_of : Text → Text
rest_of [] = []
rest_of (c ∷ s) = s

abbrev next_between : ℕ → ℕ → Text → Bool
next_between a b [] = false
next_between a b (c ∷ s) = between a b c

-- The bytes of the first rune after its first byte, as utf8.DecodeRune counts them.
rune_tail : ℕ → Text → ℕ
rune_tail c s =
    let two = continues (rest_of s) in
    let three = two && continues (rest_of (rest_of s)) in
    if between 194 223 c && continues s
    then 1
    else if c == 224 && next_between 160 191 s && two
    then 2
    else if c == 237 && next_between 128 159 s && two
    then 2
    else if between 225 239 c && not (c == 237) && continues s && two
    then 2
    else if c == 240 && next_between 144 191 s && three
    then 3
    else if between 241 243 c && continues s && three
    then 3
    else if c == 244 && next_between 128 143 s && three
    then 3
    else 0

-- The bytes to skip after this one.
abbrev skip_after : ℕ → ℕ → Text → ℕ
skip_after zero c s = if allowed c then 0 else rune_tail c s
skip_after (suc n) c s = n

emitted : ℕ → ℕ → Text → Text
emitted zero c rest = (if allowed c then c else b'_') ∷ rest
emitted (suc n) c rest = rest

-- labelRegex.ReplaceAllString(label, "_"), after `skip` bytes.
replace_invalid : ℕ → Text → Text
unfolding emitted rune_tail
replace_invalid skip [] = []
replace_invalid skip (c ∷ s) = emitted skip c (replace_invalid (skip_after skip c s) s)

trim_left : Text → Text
trim_left [] = []
trim_left (c ∷ s) = let rest = trim_left s in if trimmed c then rest else c ∷ s

abbrev keep_or_drop : ℕ → Text → Text
keep_or_drop c [] = if trimmed c then [] else c ∷ []
keep_or_drop c (d ∷ s) = c ∷ d ∷ s

trim_right : Text → Text
trim_right [] = []
trim_right (c ∷ s) = keep_or_drop c (trim_right s)

pub sanitize_label : Text → Text
unfolding replace_invalid trim_left trim_right
sanitize_label label = trim_right (trim_left (replace_invalid 0 (take 63 label)))

-- A label value of Kubernetes: at most 63 of the characters, an alphanumeric one at both ends.
abbrev last_ok : Text → Bool
last_ok [] = true
last_ok (c ∷ []) = alphanumeric c
last_ok (c ∷ d ∷ s) = last_ok (d ∷ s)

abbrev first_ok : Text → Bool
first_ok [] = true
first_ok (c ∷ s) = alphanumeric c

abbrev all_allowed : Text → Bool
all_allowed [] = true
all_allowed (c ∷ s) = allowed c && all_allowed s

abbrev pub IsLabelValue : Text → Type 0
IsLabelValue s = (length s ≤ 63) × (all_allowed s ≡ true) × (first_ok s ≡ true) × (last_ok s ≡ true)

length-take : (n : ℕ) (s : Text) → length (take n s) ≤ n
length-take zero s = omega arith
length-take (suc n) [] = omega arith
length-take (suc n) (c ∷ s) = omega (arith, length-take n s)

allowed_underscore : allowed b'_' ≡ true
unfolding allowed
allowed_underscore = refl

replace_invalid_allowed : (k : ℕ) (s : Text) → all_allowed (replace_invalid k s) ≡ true
unfolding replace_invalid emitted
replace_invalid_allowed k [] = refl
replace_invalid_allowed zero (c ∷ s) =
    let rest = replace_invalid_allowed (skip_after 0 c s) s in
    elim (Bool-cases (allowed c)) [
      | inl p ↦ rw (rest, p) (rw p refl)
      | inr p ↦ rw (rest, p) (rw allowed_underscore refl)
    ]
replace_invalid_allowed (suc k) (c ∷ s) = replace_invalid_allowed k s

length-replace_invalid : (k : ℕ) (s : Text) → length (replace_invalid k s) ≤ length s
unfolding replace_invalid emitted
length-replace_invalid k [] = omega arith
length-replace_invalid zero (c ∷ s) = omega (arith, length-replace_invalid (skip_after 0 c s) s)
length-replace_invalid (suc k) (c ∷ s) = omega (arith, length-replace_invalid k s)

-- A character that is kept and not trimmed is alphanumeric.
alphanumeric_end : (c : ℕ) → allowed c ≡ true → trimmed c ≡ false → alphanumeric c ≡ true
unfolding allowed
alphanumeric_end c h t = ground arith

trim_left_lem :
    (s : Text)
    → all_allowed s ≡ true
    → (length (trim_left s) ≤ length s)
      × (all_allowed (trim_left s) ≡ true)
      × (first_ok (trim_left s) ≡ true)
unfolding trim_left
trim_left_lem [] h = (omega arith, refl, refl)
trim_left_lem (c ∷ s) h =
    let both : (allowed c ≡ true) × (all_allowed s ≡ true) = ground arith in
    let (short, all, first) = trim_left_lem s both.1 in
    elim (Bool-cases (trimmed c)) [
      | inl p ↦ rw p (omega arith, all, first)
      | inr p ↦ rw p (omega arith, h, alphanumeric_end c both.0 p)
    ]

keep_or_drop_lem :
    (c : ℕ) (s : Text)
    → allowed c ≡ true
    → all_allowed s ≡ true
    → last_ok s ≡ true
    → (length (keep_or_drop c s) ≤ suc (length s))
      × (all_allowed (keep_or_drop c s) ≡ true)
      × (alphanumeric c ≡ true → first_ok (keep_or_drop c s) ≡ true)
      × (last_ok (keep_or_drop c s) ≡ true)
keep_or_drop_lem c (d ∷ s) hc hs hl = (omega arith, ground arith, λ e. e, hl)
keep_or_drop_lem c [] hc hs hl = elim (Bool-cases (trimmed c)) [
  | inl p ↦ rw p (omega arith, refl, λ e. refl, refl)
  | inr p ↦ rw p (omega arith, ground arith, λ e. e, alphanumeric_end c hc p)
]

trim_right_lem :
    (s : Text)
    → all_allowed s ≡ true
    → (length (trim_right s) ≤ length s)
      × (all_allowed (trim_right s) ≡ true)
      × (first_ok s ≡ true → first_ok (trim_right s) ≡ true)
      × (last_ok (trim_right s) ≡ true)
unfolding trim_right
trim_right_lem [] h = (omega arith, refl, λ e. refl, refl)
trim_right_lem (c ∷ s) h =
    let both : (allowed c ≡ true) × (all_allowed s ≡ true) = ground arith in
    let (short, all, first, last) = trim_right_lem s both.1 in
    let (short', all', first', last') = keep_or_drop_lem c (trim_right s) both.0 all last in
    (omega arith, all', first', last')

-- For any bytes, SanitizeLabel gives a valid label value: at most 63 characters, each
-- alphanumeric, '-', '_' or '.', with an alphanumeric one at both ends, or the empty text.
pub sanitize_label-IsLabelValue : (s : Text) → IsLabelValue (sanitize_label s)
unfolding sanitize_label
sanitize_label-IsLabelValue s =
    let valid = replace_invalid 0 (take 63 s) in
    let (short, all, first) = trim_left_lem valid (replace_invalid_allowed 0 (take 63 s)) in
    let (short', all', first', last') = trim_right_lem (trim_left valid) all in
    (
      omega (arith, length-replace_invalid 0 (take 63 s), length-take 63 s),
      all',
      first' first,
      last',
    )

sanitize_label_run :
    sanitize_label (codes "system:serviceaccount:a/b.") ≡ codes "system_serviceaccount_a_b"
unfolding sanitize_label alphanumeric trimmed allowed
sanitize_label_run = refl
