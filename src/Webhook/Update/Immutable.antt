-- ===== src/Webhook/Update/Immutable.antt =====
-- What an accepted update keeps (validateAppWrapperUpdate, internal/webhook/appwrapper_webhook.go).
use appwrapper.Base.{
  ℤ, ℕ, suc, Bool, true, false, Option, none, List, [], ◌∷◌, ◌++◌, ◌==◌, ◌≡◌, refl, ap, sym, ◌∙◌,
  ◌↔◌, map, arith, length, cons_injective, if◌then◌else◌, ==_iff, eqb_ℤ_iff, Bool-cases, inl, inr,
}
use appwrapper.Base.Text.{Text, text_eq_iff}
use appwrapper.Api.{AppWrapper, Component, PodSet}
use appwrapper.PodSets.{replicas}
use appwrapper.Webhook.{
  FieldError, forbidden, pod_sets, app_wrapper_username_label, app_wrapper_user_id_label,
}
use appwrapper.Webhook.Update.{
  unless, same_pointer, label_of, pod_set_changes, component_changes, components_changes,
  validate_app_wrapper_update,
}

-- What the create validation looked at, of a pod set and of a component.
abbrev pub admitted_pod_set : PodSet → ℤ × Text
admitted_pod_set ps = (replicas ps, ps.path)

abbrev pub admitted_component : Component → Text × List (ℤ × Text)
admitted_component c = (c.template, map admitted_pod_set c.declared_pod_sets)

-- The new object has what was validated of the old one, and neither names who manages it.
pub record SameAdmitted (old new : AppWrapper) : Type 0 where
  pub same_components :
      map admitted_component old.spec.components ≡ map admitted_component new.spec.components
  pub same_user : label_of app_wrapper_username_label old ≡ label_of app_wrapper_username_label new
  pub same_user_id : label_of app_wrapper_user_id_label old ≡ label_of app_wrapper_user_id_label new
  pub old_unmanaged : old.spec.managed_by ≡ none
  pub new_unmanaged : new.spec.managed_by ≡ none

-- A list of errors that is empty exactly when a property holds.
abbrev Reports : List FieldError → Type 0 → Type 0
Reports es P = (es ≡ []) ↔ P

append-Reports :
    {P Q : Type 0} (xs ys : List FieldError)
    → Reports xs P
    → Reports ys Q
    → Reports (xs ++ ys) (P × Q)
append-Reports [] ys p q = (λ h. (p.0 refl, q.0 h), λ h. q.1 h.1)
append-Reports (x ∷ xs) ys p q = (λ h. elim (cons_nil h) [ ], λ h. elim (cons_nil (p.1 h.0)) [ ])
  where
    cons_nil : {zs : List FieldError} → (x ∷ zs) ≡ [] → ⊥
    cons_nil e = cc

unless-Reports :
    {P : Type 0} (b : Bool) (e : FieldError) → ((b ≡ true) ↔ P) → Reports (unless b e) P
unless-Reports true e (f, g) = (λ h. f refl, λ p. refl)
unless-Reports false e (f, g) = (λ h. f cc, λ p. ground (arith, g p))

follows : {es : List FieldError} {P Q : Type 0} → Reports es P → (P → Q) → (Q → P) → Reports es Q
follows (f, g) to from = (λ h. to (f h), λ q. g (from q))

same_pointer_iff :
    {A : Type 0} (a b : Option A) → (same_pointer a b ≡ true) ↔ ((a ≡ none) × (b ≡ none))
same_pointer_iff a b = ground arith

length-map : {A B : Type 0} (f : A → B) (xs : List A) → length (map f xs) ≡ length xs
length-map f [] = refl
length-map f (x ∷ xs) = ap suc (length-map f xs)

pair_injective :
    {A B : Type 0} {a a' : A} {b b' : B} → ◌≡◌ {A = A × B} (a, b) (a', b') → (a ≡ a') × (b ≡ b')
pair_injective e = (ap (λ p. p.0) e, ap (λ p. p.1) e)

same_length :
    {A B : Type 0} (f : A → B) (xs ys : List A) → map f xs ≡ map f ys → length xs ≡ length ys
same_length f xs ys h = sym (length-map f xs) ∙ ap length h ∙ length-map f ys

pod_sets-Reports :
    (idx i : ℕ) (xs ys : List PodSet)
    → length xs ≡ length ys
    → Reports (pod_set_changes idx i xs ys) (map admitted_pod_set xs ≡ map admitted_pod_set ys)
unfolding pod_set_changes
pod_sets-Reports idx i [] [] h = (λ _. refl, λ _. refl)
pod_sets-Reports idx i [] (y ∷ ys) h = absurd (ground arith)
pod_sets-Reports idx i (x ∷ xs) [] h = absurd (ground arith)
pod_sets-Reports idx i (x ∷ xs) (y ∷ ys) h =
    follows
      (append-Reports _ _ (unless-Reports _ _ (eqb_ℤ_iff (replicas x) (replicas y))) (
        append-Reports _ _ (unless-Reports _ _ (text_eq_iff x.path y.path))
          (pod_sets-Reports idx (suc i) xs ys (omega (arith, h)))))
      (λ (n, (p, r)). cc)
      (λ e. let (a, r) = cons_injective e in let (n, p) = pair_injective a in (n, (p, r)))

component-Reports :
    (idx : ℕ) (x y : Component)
    → Reports (component_changes idx x y) (admitted_component x ≡ admitted_component y)
unfolding component_changes
component-Reports idx x y =
    follows (append-Reports _ _ (unless-Reports _ _ (text_eq_iff x.template y.template)) sets)
      (λ (t, s). cc) pair_injective
  where
    xs : List PodSet
    xs = x.declared_pod_sets

    ys : List PodSet
    ys = y.declared_pod_sets

    sets :
        Reports
          (if length xs == length ys
            then pod_set_changes idx 0 xs ys
            else forbidden (pod_sets idx) ∷ [])
          (map admitted_pod_set xs ≡ map admitted_pod_set ys)
    sets = elim (Bool-cases (length xs == length ys)) [
      | inl p ↦ rw p (pod_sets-Reports idx 0 xs ys ((==_iff _ _).0 p))
      | inr p ↦
          rw p (λ h. cc, λ h. let q = (==_iff _ _).1 (same_length admitted_pod_set xs ys h) in cc)
    ]

components-Reports :
    (idx : ℕ) (xs ys : List Component)
    → length xs ≡ length ys
    → Reports (components_changes idx xs ys) (map admitted_component xs ≡ map admitted_component ys)
unfolding components_changes
components-Reports idx [] [] h = (λ _. refl, λ _. refl)
components-Reports idx [] (y ∷ ys) h = absurd (ground arith)
components-Reports idx (x ∷ xs) [] h = absurd (ground arith)
components-Reports idx (x ∷ xs) (y ∷ ys) h =
    follows
      (append-Reports _ _ (component-Reports idx x y)
        (components-Reports (suc idx) xs ys (omega (arith, h))))
      (λ (c, r). cc) cons_injective

-- validateAppWrapperUpdate reports no error if and only if the old and the new object have
-- components with the same templates and declared pod sets of the same replicas and paths, in the
-- same order, and the same values of the two user labels, and neither of them sets managedBy. The
-- objects are decoded apart, so that two pointers that are both set differ.
pub validate_app_wrapper_update_lem :
    (old new : AppWrapper) → (validate_app_wrapper_update old new ≡ []) ↔ SameAdmitted old new
unfolding validate_app_wrapper_update
validate_app_wrapper_update_lem old new = elim (Bool-cases (length xs == length ys)) [
  | inr p ↦ rw p (
    λ h. cc,
    λ s. let q = (==_iff _ _).1 (same_length admitted_component xs ys s.same_components) in cc,
  )
  | inl p ↦ rw p (
      follows
        (append-Reports _ _ (components-Reports 0 xs ys ((==_iff _ _).0 p)) (
          append-Reports _ _ (unless-Reports _ _ (text_eq_iff _ _)) (
            append-Reports _ _ (unless-Reports _ _ (text_eq_iff _ _))
              (unless-Reports _ _ (same_pointer_iff old.spec.managed_by new.spec.managed_by)))))
        (λ (c, (u, (i, (a, b)))). record {
          same_components = c;
          same_user = u;
          same_user_id = i;
          old_unmanaged = a;
          new_unmanaged = b;
        })
        (λ s.
          (s.same_components, (s.same_user, (s.same_user_id, (s.old_unmanaged, s.new_unmanaged))))))
]
  where
    xs : List Component
    xs = old.spec.components

    ys : List Component
    ys = new.spec.components
