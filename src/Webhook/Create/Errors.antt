-- ===== src/Webhook/Create/Errors.antt =====
-- The checks of validateAppWrapperCreate (internal/webhook/appwrapper_webhook.go), read back from an
-- empty list of errors.
use appwrapper.Base.{
  ℕ, suc, ◌≤◌, ◌==◌, ltb, Bool, true, false, not, Option, none, List, [], ◌∷◌, ◌++◌, ◌≡◌, ◌≢◌, refl,
  arith, length, is_nil, All, ◌⊎◌, inl, inr, if◌then◌else◌, ap,
}
use appwrapper.Base.Text.{Text, text_eq_iff}
use appwrapper.Base.Json.{Fields}
use appwrapper.Base.Result.{Result, ok, err, is_ok}
use appwrapper.Api.{PodSet}
use appwrapper.Cluster.{Library, Reply, Error}
use appwrapper.Paths.{PathError}
use appwrapper.PodSets.{check_pod_template_spec, validate_pod_sets}
use appwrapper.Webhook.{UserInfo, FieldError}
use appwrapper.Webhook.Update.{unless}
use appwrapper.Webhook.Create.{
  namespace_allowed, declared_errors, larger, inferred_errors, requested, answer_errors,
  count_errors, has_no_error,
}

abbrev pub counted : List PodSet → Result PathError (List PodSet) → ℕ
counted declared (err e) = 0
counted declared (ok inferred) = larger (length declared) (length inferred)

pub append_nil : {xs ys : List FieldError} → (xs ++ ys) ≡ [] → (xs ≡ []) × (ys ≡ [])
append_nil {xs = []} h = (refl, h)
append_nil {xs = x ∷ xs} h = absurd cc

pub unless_nil : (b : Bool) (e : FieldError) → unless b e ≡ [] → b ≡ true
unless_nil b e h = ground arith

pub not_nil : (t : Text) → not (is_nil t) ≡ true → t ≢ []
not_nil t h = λ e. cc

pub not-true : (b : Bool) → not b ≡ true → b ≡ false
not-true b h = ground arith

pub is_ok_unit : (r : Result PathError Unit) → is_ok r ≡ true → r ≡ ok tt
is_ok_unit (ok tt) h = refl
is_ok_unit (err e) h = absurd cc

pub has_no_error-none : {o : Option Error} → has_no_error o ≡ true → o ≡ none
has_no_error-none h = ground arith

pub allowed_namespace : (own ns : Text) → namespace_allowed own ns ≡ true → (ns ≡ []) ⊎ (ns ≡ own)
allowed_namespace own [] h = inl refl
allowed_namespace own (c ∷ ns) h = inr ((text_eq_iff (c ∷ ns) own).0 h)

pub declared_lem :
    (l : Library) (m : Fields) (idx i : ℕ) (pss : List PodSet)
    → declared_errors l m idx i pss ≡ []
    → All (λ ps. (ps.path ≢ []) × (check_pod_template_spec l m ps.path ≡ ok tt)) pss
unfolding declared_errors
declared_lem l m idx i [] h = tt
declared_lem l m idx i (ps ∷ pss) h =
    let (a, bc) = append_nil h in
    let (b, c) = append_nil bc in
    (
      (not_nil ps.path (unless_nil _ _ a), is_ok_unit _ (unless_nil _ _ b)),
      declared_lem l m idx (suc i) pss c,
    )

pub inferred_lem :
    (idx : ℕ) (declared : List PodSet) (r : Result PathError (List PodSet))
    → (inferred_errors idx declared r).0 ≡ []
    → (inferred : List PodSet) × (r ≡ ok inferred) × (validate_pod_sets declared inferred ≡ none)
unfolding inferred_errors
inferred_lem idx declared (err e) h = absurd cc
inferred_lem idx declared (ok inferred) h =
    (inferred, refl, let p = unless_nil _ _ h in ground arith)

pub counted_lem :
    (idx : ℕ) (declared : List PodSet) (r : Result PathError (List PodSet))
    → (inferred_errors idx declared r).1 ≡ counted declared r
unfolding inferred_errors
counted_lem idx declared (err e) = refl
counted_lem idx declared (ok inferred) = refl

pub answer_lem : (idx : ℕ) (r : Reply Bool) → answer_errors idx r ≡ [] → r ≡ ok true
unfolding answer_errors
answer_lem idx (err e) h = absurd cc
answer_lem idx (ok b) h = ap ok (unless_nil _ _ h)

pub request_lem :
    (request : Reply UserInfo) → (requested request).0 ≡ [] → request ≡ ok (requested request).1
unfolding requested
request_lem (ok user) h = refl
request_lem (err e) h = absurd cc

pub count_lem : (n : ℕ) → count_errors n ≡ [] → (1 ≤ n) × (n ≤ 8)
unfolding count_errors
count_lem n h =
    let (a, b) = append_nil h in
    let p : not (n == 0) ≡ true = unless_nil _ _ a in
    let q : not (ltb 8 n) ≡ true = unless_nil _ _ b in ground arith

pub if_on : {A : Type 0} (b : Bool) → b ≡ true → (x y : A) → (if b then x else y) ≡ x
if_on b on x y = rw on refl
