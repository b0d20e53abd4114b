-- ===== src/Pods/Exits.antt =====
-- The exit codes that make the failure of a pod terminal, described without the code's loops
-- (getPodStatus, internal/controller/appwrapper/appwrapper_controller.go).
use appwrapper.Base.{
  ℤ, pos, ◌≡◌, ◌≢◌, ◌↔◌, ◌⊎◌, inl, inr, refl, arith, Bool, true, false, ◌&&◌, ◌||◌, not, Option,
  none, some, List, [], ◌∷◌, is_nil, any, eqb_ℤ, eqb_ℤ_iff, Bool-cases,
}
use appwrapper.Cluster.{Pod}
use appwrapper.Pods.{nonzero_exit, exits_in, is_terminal_failure}

-- There is an element of the list with the property.
abbrev pub AnyOf : {A : Type 0} → (A → Type 0) → List A → Type 0
AnyOf P [] = ⊥
AnyOf P (x ∷ xs) = P x ⊎ AnyOf P xs

pub any_iff :
    {A : Type 0} {p : A → Bool} {P : A → Type 0}
    → ((x : A) → (p x ≡ true) ↔ P x)
    → (xs : List A) → (any p xs ≡ true) ↔ AnyOf P xs
any_iff h [] = (λ e. absurd cc, λ x. absurd x)
any_iff {p = p} h (x ∷ xs) = (
  λ e. elim (Bool-cases (p x)) [
    | inl t ↦ inl ((h x).0 t)
    | inr f ↦ inr ((any_iff h xs).0 (ground arith))
  ],
  λ s. elim s [
    | inl q ↦ let t = (h x).1 q in ground arith
    | inr q ↦ let t = (any_iff h xs).1 q in ground arith
  ],
)

abbrev pub Listed : ℤ → List ℤ → Type 0
Listed code codes = AnyOf (λ (ec : ℤ). ec ≡ code) codes

-- A container that ended with a code other than zero, of which `P` holds.
abbrev pub Ended : (ℤ → Type 0) → Option ℤ → Type 0
Ended P exit = (code : ℤ) × (exit ≡ some code) × (code ≢ pos 0) × P code

-- A container ended with a terminal code, or retryable codes are given and a container ended with a
-- code that is not among them.
abbrev pub Terminal : List ℤ → List ℤ → Pod → Type 0
Terminal terminal retryable p =
    AnyOf (Ended (λ code. Listed code terminal)) p.container_statuses
    ⊎ ((retryable ≢ []) × AnyOf (Ended (λ code. ¬ Listed code retryable)) p.container_statuses)

some_injective : {a b : ℤ} → some a ≡ some b → a ≡ b
some_injective e = cc

exits_in-Listed :
    (code : ℤ) (codes : List ℤ) → (exits_in codes (some code) ≡ true) ↔ Listed code codes
exits_in-Listed code codes = any_iff (λ ec. eqb_ℤ_iff ec code) codes

nonzero_iff : (code : ℤ) → (nonzero_exit (some code) ≡ true) ↔ (code ≢ pos 0)
nonzero_iff code = (
  λ h. λ e. let t = (eqb_ℤ_iff code (pos 0)).1 e in ground arith,
  λ n. elim (Bool-cases (eqb_ℤ code (pos 0))) [
    | inl t ↦ absurd (n ((eqb_ℤ_iff code (pos 0)).0 t))
    | inr f ↦ ground arith
  ],
)

-- A test on the exit of a container, from a test on its code.
nonzero_exit-Ended :
    (t : Option ℤ → Bool) (P : ℤ → Type 0)
    → ((code : ℤ) → (t (some code) ≡ true) ↔ P code)
    → (exit : Option ℤ) → ((nonzero_exit exit && t exit) ≡ true) ↔ Ended P exit
nonzero_exit-Ended t P h none = (λ e. absurd cc, λ (code, e, _, _). absurd cc)
nonzero_exit-Ended t P h (some c) = (
  λ e.
      let both : (nonzero_exit (some c) ≡ true) × (t (some c) ≡ true) = ground arith in
      (c, refl, (nonzero_iff c).0 both.0, (h c).0 both.1),
  λ (code, e, n, p).
      let same : c ≡ code = some_injective e in
      let a : nonzero_exit (some c) ≡ true = rw same ((nonzero_iff code).1 n) in
      let b : t (some c) ≡ true = rw same ((h code).1 p) in ground arith,
)

unlisted_iff :
    (code : ℤ) (codes : List ℤ) → (not (exits_in codes (some code)) ≡ true) ↔ (¬ Listed code codes)
unlisted_iff code codes = (
  λ h. λ l. let t = (exits_in-Listed code codes).1 l in ground arith,
  λ n. elim (Bool-cases (exits_in codes (some code))) [
    | inl t ↦ absurd (n ((exits_in-Listed code codes).0 t))
    | inr f ↦ ground arith
  ],
)

terminal_any :
    (terminal : List ℤ) (p : Pod)
    → (any (λ s. nonzero_exit s && exits_in terminal s) p.container_statuses ≡ true)
      ↔ AnyOf (Ended (λ code. Listed code terminal)) p.container_statuses
terminal_any terminal p =
    any_iff (nonzero_exit-Ended (exits_in terminal) _ (λ code. exits_in-Listed code terminal))
      p.container_statuses

retryable_any :
    (retryable : List ℤ) (p : Pod)
    → (any (λ s. nonzero_exit s && not (exits_in retryable s)) p.container_statuses ≡ true)
      ↔ AnyOf (Ended (λ code. ¬ Listed code retryable)) p.container_statuses
retryable_any retryable p =
    any_iff
      (nonzero_exit-Ended (λ s. not (exits_in retryable s)) _ (λ code. unlisted_iff code retryable))
      p.container_statuses

-- No code is in the empty list.
none_terminal : (exits : List (Option ℤ)) → AnyOf (Ended (λ code. Listed code [])) exits → ⊥
none_terminal [] x = x
none_terminal (e ∷ es) (inl (_, _, _, x)) = x
none_terminal (e ∷ es) (inr x) = none_terminal es x

terminal_half :
    (terminal : List ℤ) (p : Pod)
    → ((not (is_nil terminal)
          && any (λ s. nonzero_exit s && exits_in terminal s) p.container_statuses)
        ≡ true)
      ↔ AnyOf (Ended (λ code. Listed code terminal)) p.container_statuses
terminal_half [] p = (λ e. absurd cc, λ x. absurd (none_terminal p.container_statuses x))
terminal_half (c ∷ cs) p = terminal_any (c ∷ cs) p

retryable_half :
    (retryable : List ℤ) (p : Pod)
    → ((not (is_nil retryable)
          && any (λ s. nonzero_exit s && not (exits_in retryable s)) p.container_statuses)
        ≡ true)
      ↔ ((retryable ≢ []) × AnyOf (Ended (λ code. ¬ Listed code retryable)) p.container_statuses)
retryable_half [] p = (λ e. absurd cc, λ x. absurd (x.0 refl))
retryable_half (c ∷ cs) p =
    (λ e. (λ z. cc, (retryable_any (c ∷ cs) p).0 e), λ x. (retryable_any (c ∷ cs) p).1 x.1)

or_iff :
    {P Q : Type 0} (a b : Bool) → ((a ≡ true) ↔ P) → ((b ≡ true) ↔ Q) → ((a || b) ≡ true) ↔ (P ⊎ Q)
or_iff true b h g = (λ _. inl (h.0 refl), λ _. refl)
or_iff false b h g =
    (λ e. inr (g.0 e), λ s. elim s [ inl p ↦ absurd (let z = h.1 p in cc) | inr q ↦ g.1 q ])

pub is_terminal_failure-Terminal :
    (terminal retryable : List ℤ) (p : Pod)
    → (is_terminal_failure terminal retryable p ≡ true) ↔ Terminal terminal retryable p
unfolding is_terminal_failure
is_terminal_failure-Terminal terminal retryable p =
    or_iff _ _ (terminal_half terminal p) (retryable_half retryable p)
