-- ===== src/Exec/Returns.antt =====
-- Total correctness of an action: it does not panic, and its result satisfies a relation.
use appwrapper.Base.{Bool, true, false, Option, none, some, ◌≡◌, refl, if◌then◌else◌}
use appwrapper.Exec.{State, M}

pub record Returns {W A : Type 0} (r : Option (A × State W)) (P : A → State W → Type 0)
    : Type 0 where
  pub value : A
  pub state : State W
  pub eq : r ≡ some (value, state)
  pub holds : P value state

pub returned :
    {W A : Type 0} {P : A → State W → Type 0} (a : A) (s : State W)
    → P a s
    → Returns (some (a, s)) P
returned a s h = record { value = a; state = s; eq = refl; holds = h }

-- From what the first action ensures to what the rest does.
pub bind-Returns :
    {W A B : Type 0} {P : A → State W → Type 0} {Q : B → State W → Type 0}
    (r : Option (A × State W)) (f : A → M W B)
    → Returns r P
    → ((a : A) (s : State W) → P a s → Returns (f a s) Q)
    → Returns (elim r [ none ↦ none | some (a, s') ↦ f a s' ]) Q
bind-Returns r f h g = rw h.eq (g h.value h.state h.holds)

pub Returns-map :
    {W A : Type 0} {P Q : A → State W → Type 0} {r : Option (A × State W)}
    → Returns r P
    → ((a : A) (s : State W) → P a s → Q a s)
    → Returns r Q
Returns-map h g = record {
  value = h.value;
  state = h.state;
  eq = h.eq;
  holds = g h.value h.state h.holds;
}

pub if-Returns :
    {W A : Type 0} {Q : A → State W → Type 0} (b : Bool) (m n : M W A) (s : State W)
    → (b ≡ true → Returns (m s) Q)
    → (b ≡ false → Returns (n s) Q)
    → Returns ((if b then m else n) s) Q
if-Returns true m n s hm hn = hm refl
if-Returns false m n s hm hn = hn refl
