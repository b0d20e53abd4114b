-- ===== src/Components/Render/Gates.antt =====
-- The scheduling gates that createComponent injects
-- (internal/controller/appwrapper/resource_management.go).
use appwrapper.Base.{
  ℕ, zero, suc, ◌+◌, ltb, ◌≡◌, refl, sym, ap, ◌∙◌, arith, Bool, true, false, ◌||◌, Bool-cases, inl,
  inr, List, [], ◌∷◌, ◌++◌, any, if◌then◌else◌,
}
use appwrapper.Base.Text.{Text, codes, text_eq, text_eq_refl, text_eq_iff}
use appwrapper.Base.Json.{Json, end, field, obj, str, get_field}
use appwrapper.Components.Render.{has_name, add_gates}

-- Is a gate of this name in the list?
abbrev pub is_gated : Text → List Json → Bool
is_gated name gates = any (has_name name) gates

abbrev gate : Text → Json
gate name = obj (field (codes "name") (str name) end)

gate-has_name : (name : Text) → has_name name (gate name) ≡ true
unfolding has_name get_field text_eq
gate-has_name name = text_eq_refl name

any-++ : (f : Json → Bool) (xs ys : List Json) → any f (xs ++ ys) ≡ (any f xs || any f ys)
any-++ f [] ys = refl
any-++ f (x ∷ xs) ys = ground (arith, any-++ f xs ys)

-- One round keeps the gates that are there, and adds the name's.
added : Text → List Json → List Json
added name gates = if is_gated name gates then gates else gates ++ (gate name ∷ [])

-- The number of gates of a name.
abbrev pub gate_count : Text → List Json → ℕ
gate_count n [] = 0
gate_count n (g ∷ gs) = if has_name n g then suc (gate_count n gs) else gate_count n gs

-- The number of gates there are to be: no gate of a name is taken away, and one is added if the name
-- is asked for and none is there.
abbrev pub wanted : Bool → ℕ → ℕ
wanted asked zero = if asked then 1 else 0
wanted asked (suc m) = suc m

gate_count-++ :
    (n : Text) (xs ys : List Json) → gate_count n (xs ++ ys) ≡ gate_count n xs + gate_count n ys
gate_count-++ n [] ys = omega arith
gate_count-++ n (x ∷ xs) ys = ground (arith, gate_count-++ n xs ys)

is_gated-gate_count : (n : Text) (gs : List Json) → is_gated n gs ≡ ltb 0 (gate_count n gs)
is_gated-gate_count n [] = refl
is_gated-gate_count n (g ∷ gs) = ground (arith, is_gated-gate_count n gs)

gate-other : (n name : Text) → has_name n (gate name) ≡ text_eq name n
unfolding has_name get_field text_eq
gate-other n name = refl

wanted_none : (m : ℕ) → wanted false m ≡ m
wanted_none zero = refl
wanted_none (suc m) = refl

wanted_more : (b : Bool) (m : ℕ) → ltb 0 m ≡ true → wanted b m ≡ m
wanted_more b zero h = absurd cc
wanted_more b (suc m) h = refl

append_nil : (xs : List Json) → (xs ++ []) ≡ xs
append_nil [] = refl
append_nil (x ∷ xs) = ap (λ ys. x ∷ ys) (append_nil xs)

append_assoc : (xs ys zs : List Json) → ((xs ++ ys) ++ zs) ≡ (xs ++ (ys ++ zs))
append_assoc [] ys zs = refl
append_assoc (x ∷ xs) ys zs = ap (λ l. x ∷ l) (append_assoc xs ys zs)

-- One round, by whether there is a gate of the name and whether it is the name counted.
gate_count-added :
    (n name : Text) (gs : List Json)
    → gate_count n (added name gs) ≡ wanted (text_eq name n) (gate_count n gs)
unfolding added
gate_count-added n name gs = elim (Bool-cases (text_eq name n)) [
  | inl t ↦
      let same : name ≡ n = (text_eq_iff name n).0 t in
      elim (Bool-cases (is_gated name gs)) [
        | inl g ↦
            let some_gate : ltb 0 (gate_count n gs) ≡ true =
              sym (is_gated-gate_count n gs) ∙ (rw same at g) in
            rw (added, g) (sym (wanted_more (text_eq name n) (gate_count n gs) some_gate))
        | inr g ↦
            let no_gate : ltb 0 (gate_count n gs) ≡ false =
              sym (is_gated-gate_count n gs) ∙ (rw same at g) in
            let none_there : gate_count n gs ≡ 0 = ground arith in
            rw (added, g, gate_count-++ n gs (gate name ∷ []), none_there, t, gate-other n name, t)
              refl
      ]
  | inr t ↦ elim (Bool-cases (is_gated name gs)) [
    | inl g ↦ rw (added, g, t) (sym (wanted_none (gate_count n gs)))
    | inr g ↦
        rw (added, g, gate_count-++ n gs (gate name ∷ []), gate-other n name, t)
          (omega (arith, wanted_none (gate_count n gs)))
  ]
]

wanted-wanted : (a b : Bool) (m : ℕ) → wanted a (wanted b m) ≡ wanted (b || a) m
wanted-wanted a true zero = refl
wanted-wanted a false zero = refl
wanted-wanted a b (suc m) = refl

counted :
    (names : List Text) (gates : List Json) (n : Text)
    → gate_count n (add_gates names gates)
      ≡ wanted (any (λ name. text_eq name n) names) (gate_count n gates)
unfolding add_gates added
counted [] gates n = sym (wanted_none (gate_count n gates))
counted (name ∷ names) gates n =
    counted names (added name gates) n
    ∙ ap (wanted (any (λ x. text_eq x n) names)) (gate_count-added n name gates)
    ∙ wanted-wanted (any (λ x. text_eq x n) names) (text_eq name n) (gate_count n gates)

kept :
    (names : List Text) (gates : List Json)
    → (more : List Json) × (add_gates names gates ≡ gates ++ more)
unfolding add_gates
kept [] gates = ([], sym (append_nil gates))
kept (name ∷ names) gates = elim (Bool-cases (is_gated name gates)) [
  | inl g ↦ rw (add_gates, g) (kept names gates)
  | inr g ↦
      let (more, e) = kept names (gates ++ (gate name ∷ [])) in
      rw (add_gates, g) (gate name ∷ more, e ∙ append_assoc gates (gate name ∷ []) more)
]

-- The injection of scheduling gates keeps the list of gates that is there and appends to it; and
-- for every name, the number of gates of that name stays, but for a name that is asked for and
-- has none, which has one gate afterwards.
pub add_gates_lem :
    (names : List Text) (gates : List Json)
    → ((more : List Json) × (add_gates names gates ≡ gates ++ more))
      × ((n : Text)
          → gate_count n (add_gates names gates)
            ≡ wanted (any (λ name. text_eq name n) names) (gate_count n gates))
add_gates_lem names gates = (kept names gates, counted names gates)
