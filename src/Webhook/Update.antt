-- ===== src/Webhook/Update.antt =====
-- ValidateUpdate and validateAppWrapperUpdate of internal/webhook/appwrapper_webhook.go. The two
-- objects of a request are decoded apart, so a pointer of one equals a pointer of the other when both
-- are nil and at no other time.
pub mod Immutable
use appwrapper.Base.{
  ℕ, suc, zero, Bool, true, false, Option, none, some, List, [], ◌∷◌, ◌++◌, ◌==◌, not, eqb_ℤ,
  if◌then◌else◌, length,
}
use appwrapper.Base.Text.{Text, StringMap, text_eq, lookup}
use appwrapper.Api.{AppWrapper, Component, PodSet}
use appwrapper.PodSets.{replicas}
use appwrapper.Webhook.{
  Server, AppWrapperWebhook, FieldError, Place, forbidden, components, managed_by, username_label,
  user_id_label, template_raw, pod_sets, pod_set_path, pod_set_replicas, app_wrapper_username_label,
  app_wrapper_user_id_label,
}

abbrev pub unless : Bool → FieldError → List FieldError
unless true e = []
unless false e = e ∷ []

-- `!=` of two `*string` fields of objects that were decoded apart.
abbrev pub same_pointer : {A : Type 0} → Option A → Option A → Bool
same_pointer none none = true
same_pointer none (some b) = false
same_pointer (some a) none = false
same_pointer (some a) (some b) = false

-- The value of a label, which is empty where there is none.
abbrev or_blank : Option Text → Text
or_blank none = []
or_blank (some t) = t

abbrev pub label_of : Text → AppWrapper → Text
label_of key aw = or_blank (lookup key aw.metadata.labels)

-- The loop over the pod sets of two components that have as many of them.
unfoldable pod_set_changes : ℕ → ℕ → List PodSet → List PodSet → List FieldError
pod_set_changes idx ps (old ∷ olds) (new ∷ news) =
    unless (eqb_ℤ (replicas old) (replicas new)) (forbidden (pod_set_replicas idx ps))
    ++ (unless (text_eq old.path new.path) (forbidden (pod_set_path idx ps))
        ++ pod_set_changes idx (suc ps) olds news)
pod_set_changes idx ps _ _ = []

unfoldable component_changes : ℕ → Component → Component → List FieldError
unfolding pod_set_changes
component_changes idx old new =
    unless (text_eq old.template new.template) (forbidden (template_raw idx))
    ++ (if length old.declared_pod_sets == length new.declared_pod_sets
        then pod_set_changes idx 0 old.declared_pod_sets new.declared_pod_sets
        else forbidden (pod_sets idx) ∷ [])

-- The loop over the components of two objects that have as many of them.
unfoldable components_changes : ℕ → List Component → List Component → List FieldError
unfolding component_changes
components_changes idx (old ∷ olds) (new ∷ news) =
    component_changes idx old new ++ components_changes (suc idx) olds news
components_changes idx _ _ = []

-- validateAppWrapperUpdate
unfoldable pub validate_app_wrapper_update : AppWrapper → AppWrapper → List FieldError
unfolding components_changes
validate_app_wrapper_update old new =
    if length old.spec.components == length new.spec.components
    then components_changes 0 old.spec.components new.spec.components
      ++ (unless
            (text_eq (label_of app_wrapper_username_label old)
              (label_of app_wrapper_username_label new))
            (forbidden username_label)
          ++ (unless
                (text_eq (label_of app_wrapper_user_id_label old)
                  (label_of app_wrapper_user_id_label new))
                (forbidden user_id_label)
              ++ unless (same_pointer old.spec.managed_by new.spec.managed_by)
                  (forbidden managed_by)))
    else forbidden components ∷ []

module _ {W : Type 0} (srv : Server W) (wh : AppWrapperWebhook) where
  -- ValidateUpdate
  unfoldable pub validate_update : AppWrapper → AppWrapper → List FieldError
  validate_update old new =
      if wh.enable_kueue_integrations
      then validate_app_wrapper_update old new ++ srv.validate_job_on_update old new
      else validate_app_wrapper_update old new
