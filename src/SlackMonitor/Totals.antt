-- ===== src/SlackMonitor/Totals.antt =====
-- The totals of unschedulable quantities over the nodes (the first loop of Reconcile,
-- internal/controller/appwrapper/slackcq_monitor.go).
use appwrapper.Base.{
  ℤ, pos, ◌+ℤ◌, ◌≤ℤ◌, ◌<ℤ◌, eqb_ℤ, eqb_ℤ_iff, eq_of_parts, +ℤ_parts, Bool, false, Option, none,
  some, List, [], ◌∷◌, ◌≡◌, refl, sym, ◌∙◌, ap, if◌then◌else◌, Bool-cases, inl, inr, arith, All,
}
use appwrapper.Base.Text.{Text, text_eq, text_eq_sound, lookup, lookup-insert}
use appwrapper.NodeMonitor.{ResourceList}
use appwrapper.SlackMonitor.{raised, add_quantity, add_quantities, unschedulable_quantities}

-- The sum of the quantities of a resource.
abbrev pub amount : Text → ResourceList → ℤ
amount r [] = pos 0
amount r ((k, n) ∷ l) = (if text_eq k r then n else pos 0) +ℤ amount r l

abbrev pub total : Text → List (Text × ResourceList) → ℤ
total r [] = pos 0
total r ((node, l) ∷ nodes) = amount r l +ℤ total r nodes

abbrev pub NoNegative : ResourceList → Type 0
NoNegative l = All (λ (e : Text × ℤ). pos 0 ≤ℤ e.1) l

abbrev tally : Option ℤ → ℤ
tally none = pos 0
tally (some n) = n

add_zero : (a : ℤ) → a ≡ a +ℤ pos 0
add_zero a = eq_of_parts a (a +ℤ pos 0) (omega (arith, +ℤ_parts a (pos 0)))

zero_add : (a : ℤ) → pos 0 +ℤ a ≡ a
zero_add a = eq_of_parts (pos 0 +ℤ a) a (omega (arith, +ℤ_parts (pos 0) a))

add_assoc : (a b c : ℤ) → (a +ℤ b) +ℤ c ≡ a +ℤ (b +ℤ c)
add_assoc a b c =
    eq_of_parts ((a +ℤ b) +ℤ c) (a +ℤ (b +ℤ c))
      (omega (arith, +ℤ_parts a b, +ℤ_parts (a +ℤ b) c, +ℤ_parts b c, +ℤ_parts a (b +ℤ c)))

tally-raised : (n : ℤ) (o : Option ℤ) → raised n o ≡ tally o +ℤ n
tally-raised n none = sym (zero_add n)
tally-raised n (some m) = refl

tally-add_quantity :
    (r k : Text) (n : ℤ) (acc : ResourceList)
    → tally (lookup r (add_quantity k n acc))
      ≡ tally (lookup r acc) +ℤ (if text_eq k r then n else pos 0)
tally-add_quantity r k n acc = elim (Bool-cases (eqb_ℤ n (pos 0))) [
  | inl z ↦
      let same : n ≡ pos 0 = (eqb_ℤ_iff n (pos 0)).0 z in
      rw (z, same)
        (add_zero (tally (lookup r acc))
          ∙ ap (λ x. tally (lookup r acc) +ℤ x) (either (text_eq k r)))
  | inr z ↦ elim (Bool-cases (text_eq k r)) [
    | inl p ↦
        let same : k ≡ r = text_eq_sound k r p in
        rw (z, lookup-insert k r (raised n (lookup k acc)) acc, p)
          (ap (λ x. raised n (lookup x acc)) same ∙ tally-raised n (lookup r acc))
    | inr p ↦
        rw (z, lookup-insert k r (raised n (lookup k acc)) acc, p) (add_zero (tally (lookup r acc)))
  ]
]
  where
    either : (b : Bool) → pos 0 ≡ (if b then pos 0 else pos 0)
    either b = ground arith

tally-add_quantities :
    (r : Text) (l acc : ResourceList)
    → tally (lookup r (add_quantities l acc)) ≡ tally (lookup r acc) +ℤ amount r l
unfolding add_quantities
tally-add_quantities r [] acc = add_zero (tally (lookup r acc))
tally-add_quantities r ((k, n) ∷ l) acc =
    tally-add_quantities r l (add_quantity k n acc)
    ∙ ap (λ x. x +ℤ amount r l) (tally-add_quantity r k n acc)
    ∙ add_assoc (tally (lookup r acc)) (if text_eq k r then n else pos 0) (amount r l)

pub tally-unschedulable_quantities :
    (r : Text) (nodes : List (Text × ResourceList)) (acc : ResourceList)
    → tally (lookup r (unschedulable_quantities nodes acc)) ≡ tally (lookup r acc) +ℤ total r nodes
unfolding unschedulable_quantities
tally-unschedulable_quantities r [] acc = add_zero (tally (lookup r acc))
tally-unschedulable_quantities r ((node, l) ∷ nodes) acc =
    tally-unschedulable_quantities r nodes (add_quantities l acc)
    ∙ ap (λ x. x +ℤ total r nodes) (tally-add_quantities r l acc)
    ∙ add_assoc (tally (lookup r acc)) (amount r l) (total r nodes)

-- An entry of the totals is positive.
abbrev Positive : ResourceList → Type 0
Positive acc = (r : Text) (n : ℤ) → lookup r acc ≡ some n → pos 0 <ℤ n

raised_positive :
    (n : ℤ) (o : Option ℤ) → pos 0 <ℤ n → ((m : ℤ) → o ≡ some m → pos 0 <ℤ m) → pos 0 <ℤ raised n o
raised_positive n none h p = h
raised_positive n (some m) h p = let q = p m refl in omega (arith, h, q, +ℤ_parts m n)

not_zero : (n : ℤ) → pos 0 ≤ℤ n → eqb_ℤ n (pos 0) ≡ false → pos 0 <ℤ n
not_zero n h z = ground arith

add_quantity-Positive :
    (k : Text) (n : ℤ) (acc : ResourceList)
    → pos 0 ≤ℤ n
    → Positive acc
    → Positive (add_quantity k n acc)
add_quantity-Positive k n acc h p r m e = elim (Bool-cases (eqb_ℤ n (pos 0))) [
  | inl z ↦ p r m (rw z at e)
  | inr z ↦ elim (Bool-cases (text_eq k r)) [
    | inl q ↦
        let e' : some (raised n (lookup k acc)) ≡ some m =
          rw (z, lookup-insert k r (raised n (lookup k acc)) acc, q) at e in
        let same : raised n (lookup k acc) ≡ m = cc in
        rw (sym same) (raised_positive n (lookup k acc) (not_zero n h z) (p k))
    | inr q ↦ p r m (rw (z, lookup-insert k r (raised n (lookup k acc)) acc, q) at e)
  ]
]

add_quantities-Positive :
    (l acc : ResourceList) → NoNegative l → Positive acc → Positive (add_quantities l acc)
unfolding add_quantities
add_quantities-Positive [] acc h p = p
add_quantities-Positive ((k, n) ∷ l) acc (hn, hl) p =
    add_quantities-Positive l (add_quantity k n acc) hl (add_quantity-Positive k n acc hn p)

unschedulable_quantities-Positive :
    (nodes : List (Text × ResourceList)) (acc : ResourceList)
    → All (λ (e : Text × ResourceList). NoNegative e.1) nodes
    → Positive acc
    → Positive (unschedulable_quantities nodes acc)
unfolding unschedulable_quantities
unschedulable_quantities-Positive [] acc h p = p
unschedulable_quantities-Positive ((node, l) ∷ nodes) acc (hl, hn) p =
    unschedulable_quantities-Positive nodes (add_quantities l acc) hn
      (add_quantities-Positive l acc hl p)

abbrev pub entry : ℤ → Option ℤ
entry n = if eqb_ℤ n (pos 0) then none else some n

entry_of_tally : (o : Option ℤ) → ((n : ℤ) → o ≡ some n → pos 0 <ℤ n) → o ≡ entry (tally o)
entry_of_tally none h = refl
entry_of_tally (some n) h = let p = h n refl in ground arith

no_totals : Positive []
unfolding lookup
no_totals r n e = absurd cc

no_tally : (r : Text) → tally (lookup r []) ≡ pos 0
unfolding lookup
no_tally r = refl

-- The totals have an entry exactly where the sum is not zero, and it is the sum.
pub lookup-unschedulable_quantities :
    (r : Text) (nodes : List (Text × ResourceList))
    → All (λ (e : Text × ResourceList). NoNegative e.1) nodes
    → lookup r (unschedulable_quantities nodes []) ≡ entry (total r nodes)
lookup-unschedulable_quantities r nodes h =
    entry_of_tally _ (unschedulable_quantities-Positive nodes [] h no_totals r)
    ∙ ap entry (
        tally-unschedulable_quantities r nodes []
        ∙ ap (λ x. x +ℤ total r nodes) (no_tally r)
        ∙ zero_add (total r nodes))
