-- ===== src/Webhook/Owner.antt =====
-- The labels with the user that Default injects, and their life under accepted updates
-- (internal/webhook/appwrapper_webhook.go).
use appwrapper.Base.{
  Bool, true, false, Option, none, some, List, [], ◌∷◌, ◌++◌, ◌≡◌, refl, sym, ap, ◌∙◌, map,
  if◌then◌else◌,
}
use appwrapper.Base.Text.{Text, StringMap, lookup, text_eq}
use appwrapper.Base.Result.{ok}
use appwrapper.Api.{AppWrapper}
use appwrapper.Cluster.{Error, Library}
use appwrapper.Webhook.{
  Server, AppWrapperWebhook, UserInfo, FieldError, default, default_queue, after_queue, inject_user,
  user_labels, sanitize_label, app_wrapper_username_label, app_wrapper_user_id_label,
}
use appwrapper.Webhook.Update.{label_of, validate_update}
use appwrapper.Webhook.Update.Immutable.{
  SameAdmitted, admitted_component, validate_app_wrapper_update_lem,
}

abbrev or_next : Option Text → Option Text → Option Text
or_next none b = b
or_next (some a) b = some a

-- MergeKeepFirst: a key of both maps has the value of the first.
abbrev pub KeepsFirst : Library → Type 0
KeepsFirst l =
    (a b : StringMap) (key : Text)
    → lookup key (l.merge_keep_first a b) ≡ or_next (lookup key a) (lookup key b)

-- The labels name the user of the request that created the object.
abbrev pub Owned : UserInfo → AppWrapper → Type 0
Owned user aw =
    (label_of app_wrapper_username_label aw ≡ sanitize_label user.username)
    × (label_of app_wrapper_user_id_label aw ≡ user.uid)

module _ {W : Type 0} (srv : Server W) (wh : AppWrapperWebhook) where
  -- The second object comes from the first by updates that ValidateUpdate accepts.
  pub data Updates : AppWrapper → AppWrapper → Type 0 where
    unchanged : (aw : AppWrapper) → Updates aw aw
    accepted :
        (aw old new : AppWrapper)
        → Updates aw old
        → validate_update srv wh old new ≡ []
        → Updates aw new

  user_id_found :
      (user : UserInfo) → lookup app_wrapper_user_id_label (user_labels srv wh user) ≡ some user.uid
  unfolding user_labels lookup text_eq
  user_id_found user = refl

  username_found :
      (user : UserInfo)
      → lookup app_wrapper_username_label (user_labels srv wh user)
        ≡ some (sanitize_label user.username)
  unfolding user_labels lookup text_eq
  username_found user = refl

  inject_user-Owned :
      KeepsFirst srv.lib
      → (user : UserInfo) (aw : AppWrapper) → Owned user (inject_user srv wh (ok user) aw).0
  unfolding inject_user
  inject_user-Owned first user aw = (
    rw
        (
          first (user_labels srv wh user) aw.metadata.labels app_wrapper_username_label,
          username_found user,
        )
        refl,
    rw
        (
          first (user_labels srv wh user) aw.metadata.labels app_wrapper_user_id_label,
          user_id_found user,
        )
        refl,
  )

  after_queue-Owned :
      KeepsFirst srv.lib
      → (user : UserInfo) (aw aw' : AppWrapper) (e : Option Error)
      → after_queue srv wh (ok user) aw e ≡ (aw', none)
      → Owned user aw'
  unfolding after_queue
  after_queue-Owned first user aw aw' (some e) h = absurd cc
  after_queue-Owned first user aw aw' none h =
      let same : (inject_user srv wh (ok user) aw).0 ≡ aw' =
        ap (λ (p : AppWrapper × Option Error). p.0) h in
      rw (sym same) (inject_user-Owned first user aw)

  update-SameAdmitted :
      (old new : AppWrapper) → validate_update srv wh old new ≡ [] → SameAdmitted old new
  unfolding validate_update
  update-SameAdmitted old new h =
      (validate_app_wrapper_update_lem old new).0
        (first_nil wh.enable_kueue_integrations _ (srv.validate_job_on_update old new) h)
    where
      first_nil : (b : Bool) (xs ys : List FieldError) → (if b then xs ++ ys else xs) ≡ [] → xs ≡ []
      first_nil b [] ys e = refl
      first_nil true (x ∷ xs) ys e = absurd cc
      first_nil false (x ∷ xs) ys e = e

  -- Where MergeKeepFirst keeps the entries of its first map: when Default returns without an
  -- error, then after any updates that ValidateUpdate accepts, the two user labels are the
  -- sanitized name and the id of the user of the first request, whatever labels the object came
  -- with, and the templates and the replicas and paths of the declared pod sets are those that
  -- Default returned.
  pub default-Owned :
      KeepsFirst srv.lib
      → (user : UserInfo) (aw created later : AppWrapper) (w w' : W)
      → default srv wh (ok user) aw w ≡ ((created, none), w')
      → Updates created later
      → Owned user later
        × (map admitted_component created.spec.components
            ≡ map admitted_component later.spec.components)
  unfolding default
  default-Owned first user aw created later w w' h (unchanged _) = (
    after_queue-Owned first user (default_queue srv wh aw w).0.0 created
        (default_queue srv wh aw w).0.1 (ap (λ (p : (AppWrapper × Option Error) × W). p.0) h),
    refl,
  )
  default-Owned first user aw created later w w' h (accepted _ old new before ok_now) =
      let ((name, uid), same) = default-Owned first user aw created old w w' h before in
      let s = update-SameAdmitted old new ok_now in
      ((sym s.same_user ∙ name, sym s.same_user_id ∙ uid), same ∙ s.same_components)
