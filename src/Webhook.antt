-- ===== src/Webhook.antt =====
-- internal/webhook/appwrapper_webhook.go: what the admission webhook reads, and Default. The lists
-- of errors are those whose aggregate the handlers return, which is nil for the empty list. The
-- children: Create and Update are the two validations, Owner is about the labels of the user.
mod Sanitize
pub mod Create
pub mod Update
pub mod Owner
pub use Sanitize.*
use appwrapper.Base.{
  ℕ, Bool, true, false, Option, none, some, List, [], ◌∷◌, not, is_nil, if◌then◌else◌,
}
use appwrapper.Base.Text.{Text, StringMap, codes}
use appwrapper.Base.Json.{Fields}
use appwrapper.Base.Result.{ok, err}
use appwrapper.Config.{AppWrapperConfig}
use appwrapper.Api.{AppWrapper}
use appwrapper.Cluster.{Gvk, Library, Reply, Error}

abbrev pub app_wrapper_username_label : Text
app_wrapper_username_label = codes "workload.codeflare.dev/user"

abbrev pub app_wrapper_user_id_label : Text
app_wrapper_user_id_label = codes "workload.codeflare.dev/userid"

abbrev pub queue_name_label : Text
queue_name_label = codes "kueue.x-k8s.io/queue-name"

-- The user of an admission request.
pub record UserInfo : Type 0 where
  pub username : Text
  pub uid : Text
  pub groups : List Text
  pub extra : List (Text × List Text)

pub record AppWrapperWebhook : Type 0 where
  pub default_queue_name : Text
  pub enable_kueue_integrations : Bool
  pub manage_jobs_without_queue_name : Bool
  pub user_rbac_admission_check : Bool

-- The settings that SetupAppWrapperWebhook gives the webhook, once the selector is parsed and the
-- clients are made.
abbrev pub app_wrapper_webhook : AppWrapperConfig → AppWrapperWebhook
app_wrapper_webhook config = record {
  default_queue_name = config.default_queue_name;
  enable_kueue_integrations = config.enable_kueue_integrations;
  manage_jobs_without_queue_name = config.kueue_job_reconciller.manage_jobs_without_queue_name;
  user_rbac_admission_check = config.user_rbac_admission_check;
}

-- Where in the object an error stands, by the index of the component and of its pod set.
pub data Place : Type 0 where
  components managed_by username_label user_id_label : Place
  template template_raw template_namespace pod_sets : ℕ → Place
  pod_set_path pod_set_replicas : ℕ → ℕ → Place

pub data FieldError : Type 0 where
  internal_error invalid_value forbidden required : Place → FieldError

-- The attributes and the user of a SubjectAccessReview to create a resource.
pub record AccessReview : Type 0 where
  pub namespace : Text
  pub group : Text
  pub version : Text
  pub resource : Text
  pub user : UserInfo

-- What UnstructuredJSONScheme.Decode leaves: the object, a pointer to the kind, and the error.
pub record Decoded : Type 0 where
  pub object : Fields
  pub kind : Option Gvk
  pub error : Option Error

-- What the webhook takes from other packages, over worlds `W`.
pub record Server (W : Type 0) : Type 0 where
  pub lib : Library
  pub decode : Text → Decoded
  -- String of a GroupVersionKind and of its GroupVersion
  pub gvk_string : Gvk → Text
  pub group_version_string : Gvk → Text
  -- discovery: the kind and the name of each resource of a group version
  pub server_resources : Text → W → Reply (List (Text × Text)) × W
  -- the answer `Status.Allowed` to a SubjectAccessReview
  pub review_access : AccessReview → W → Reply Bool × W
  -- Kueue's jobframework: ApplyDefaultForSuspend changes the object it is given
  pub apply_default_for_suspend : Bool → AppWrapper → W → (AppWrapper × Option Error) × W
  pub validate_job_on_create : AppWrapper → List FieldError
  pub validate_job_on_update : AppWrapper → AppWrapper → List FieldError

abbrev pub set_labels : AppWrapper → StringMap → AppWrapper
set_labels aw ls = record aw { metadata = record aw.metadata { labels = ls } }

module _ {W : Type 0} (srv : Server W) (wh : AppWrapperWebhook) where
  inject_queue_name : AppWrapper → AppWrapper
  inject_queue_name aw =
      if not (is_nil wh.default_queue_name)
      then set_labels aw (
          srv.lib.merge_keep_first aw.metadata.labels
            ((queue_name_label, wh.default_queue_name) ∷ []))
      else aw

  default_queue : AppWrapper → W → (AppWrapper × Option Error) × W
  unfolding inject_queue_name
  default_queue aw w =
      if wh.enable_kueue_integrations
      then srv.apply_default_for_suspend wh.manage_jobs_without_queue_name (inject_queue_name aw) w
      else ((aw, none), w)

  user_labels : UserInfo → StringMap
  user_labels user =
      (app_wrapper_username_label, sanitize_label user.username)
      ∷ (app_wrapper_user_id_label, user.uid)
      ∷ []

  inject_user : Reply UserInfo → AppWrapper → AppWrapper × Option Error
  unfolding user_labels
  inject_user (err e) aw = (aw, some e)
  inject_user (ok user) aw =
      (set_labels aw (srv.lib.merge_keep_first (user_labels user) aw.metadata.labels), none)

  after_queue : Reply UserInfo → AppWrapper → Option Error → AppWrapper × Option Error
  unfolding inject_user
  after_queue request aw (some e) = (aw, some e)
  after_queue request aw none = inject_user request aw

  -- Default, on the request that its context carries: the object and the error.
  unfoldable pub default : Reply UserInfo → AppWrapper → W → (AppWrapper × Option Error) × W
  unfolding default_queue after_queue
  default request aw w = let ((aw', e), w') = default_queue aw w in (after_queue request aw' e, w')
