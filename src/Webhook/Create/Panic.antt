-- ===== src/Webhook/Create/Panic.antt =====
-- The panic of ValidateCreate at a template whose decoding gives no kind
-- (internal/webhook/appwrapper_webhook.go).
use appwrapper.Base.{
  ℕ, suc, ◌+◌, none, some, List, [], ◌∷◌, ◌++◌, ◌≡◌, ◌≢◌, refl, All, ◌↔◌, inl, inr, Option-cases,
}
use appwrapper.Base.Text.{Text}
use appwrapper.Api.{AppWrapper, Component}
use appwrapper.Cluster.{Reply}
use appwrapper.Webhook.{Server, AppWrapperWebhook, UserInfo}
use appwrapper.Webhook.Create.{
  Session, requested, decoded_errors, validate_components, count_errors,
  validate_app_wrapper_create, with_kueue, validate_create,
}

module _ {W : Type 0} (srv : Server W) (wh : AppWrapperWebhook) where
  -- The template is decoded with a kind.
  abbrev pub HasKind : Component → Type 0
  HasKind c = (srv.decode c.template).kind ≢ none

  loop_runs :
      (idx : ℕ) (user : UserInfo) (ns : Text) (cs : List Component) (s : Session W)
      → (validate_components srv wh idx user ns cs s ≢ none) ↔ All HasKind cs
  unfolding validate_components
  loop_runs idx user ns [] s = (λ _. tt, λ _. λ e. cc)
  loop_runs idx user ns (c ∷ cs) s = elim (Option-cases (srv.decode c.template).kind) [
    | inl p ↦ (λ h. absurd (h (rw (validate_components, p) refl)), λ all. absurd (all.0 p))
    | inr (g, p) ↦
        let here = decoded_errors srv wh idx user ns c (srv.decode c.template) g s in
        let rest = loop_runs (suc idx) user ns cs here.1 in
        elim (Option-cases (validate_components srv wh (suc idx) user ns cs here.1)) [
          | inl q ↦ (
            λ h. absurd (h (rw (validate_components, p, q) refl)),
            λ all. absurd (rest.1 all.1 q),
          )
          | inr (((es, m), s'), q) ↦ (
            λ _. (λ e. cc, rest.0 (λ e. cc)),
            λ _. λ e.
                let z : some ((here.0.0 ++ es, here.0.1 + m), s') ≡ none =
                  rw (validate_components, p, q) at e in
                cc,
          )
        ]
  ]

  -- ValidateCreate does not panic if and only if the decoding of the template of every component
  -- gives a kind, also where it gives an error.
  pub validate_create-HasKind :
      (request : Reply UserInfo) (aw : AppWrapper) (s : Session W)
      → (validate_create srv wh request aw s ≢ none) ↔ All HasKind aw.spec.components
  unfolding validate_create validate_app_wrapper_create
  validate_create-HasKind request aw s =
      let user = (requested request).1 in
      let rest = loop_runs 0 user aw.metadata.namespace aw.spec.components s in
      elim (Option-cases
        (validate_components srv wh 0 user aw.metadata.namespace aw.spec.components s)) [
          | inl q ↦ (
            λ h. absurd (h (rw (validate_create, validate_app_wrapper_create, q) refl)),
            λ all. absurd (rest.1 all q),
          )
          | inr (((es, m), s'), q) ↦ (
            λ _. rest.0 (λ e. cc),
            λ _. λ e.
                let z : some
                      (with_kueue srv wh aw ((requested request).0 ++ (es ++ count_errors m)), s')
                    ≡ none =
                  rw (validate_create, validate_app_wrapper_create, q) at e in
                cc,
          )
        ]
