-- ===== src/Tests/Admission.antt =====
-- The admission webhook on small objects.
use appwrapper.Base.{ℕ, suc, ◌≡◌, ◌≢◌, ◌↔◌, ◌≤◌, refl, true, false, none, some, [], ◌∷◌, All, map}
use appwrapper.Base.Text.{codes, text_eq, lookup, insert}
use appwrapper.Base.Json.{Fields, field, end, obj, get_field}
use appwrapper.Base.Result.{ok}
use appwrapper.Base.Strings.{after_prefix}
use appwrapper.Config.{new_app_wrapper_config}
use appwrapper.Api.{AppWrapper, suspended}
use appwrapper.Cluster.{Gvk, Reply}
use appwrapper.PodSets.{
  gvk, infer_pod_sets, candidate_pod_sets, check_pod_template_spec, validate_pod_sets, replicas,
}
use appwrapper.PodSets.Templates.{get_pod_template_spec}
use appwrapper.Paths.{get_value_at_path, get_raw_template, infer_replicas}
use appwrapper.Webhook.{
  Server, AppWrapperWebhook, app_wrapper_webhook, UserInfo, default, sanitize_label, IsLabelValue,
  sanitize_label-IsLabelValue,
}
use appwrapper.Webhook.Update.{validate_app_wrapper_update}
use appwrapper.Webhook.Update.Immutable.{
  SameAdmitted, validate_app_wrapper_update_lem, admitted_component,
}
use appwrapper.Webhook.Create.{
  Session, validate_app_wrapper_create, validate_create, lookup_resource, find_resource,
}
use appwrapper.Webhook.Create.Admitted.{
  AdmittedComponent, pod_spec_count, validate_app_wrapper_create-AdmittedComponent,
}
use appwrapper.Webhook.Create.Resources.{Faithful}
use appwrapper.Webhook.Create.Panic.{HasKind, validate_create-HasKind}
use appwrapper.Webhook.Create.Cache.{lookups, lookup_resource-lookups}
use appwrapper.Webhook.Owner.{Owned, unchanged, default-Owned}
use appwrapper.Tests.World.{library-KeepsFirst, library, app_wrapper, status_of}

abbrev pod_object : Fields
pod_object = field (codes "spec") (obj end) end

abbrev pod_gvk : Gvk
pod_gvk = gvk [] (codes "v1") (codes "Pod")

-- Every template is a pod, every kind is that of pods, and every user may create everything.
abbrev server : Server ℕ
server = record {
  lib = library;
  decode = λ t. record { object = pod_object; kind = some pod_gvk; error = none };
  gvk_string = λ g. g.kind;
  group_version_string = λ g. g.version;
  server_resources = λ v w. (ok ((codes "Pod", codes "pods") ∷ []), suc w);
  review_access = λ r w. (ok true, suc w);
  apply_default_for_suspend = λ b aw w. ((aw, none), w);
  validate_job_on_create = λ aw. [];
  validate_job_on_update = λ old new. [];
}

abbrev webhook : AppWrapperWebhook
webhook = app_wrapper_webhook (record new_app_wrapper_config { default_queue_name = codes "q" })

abbrev user : UserInfo
user = record { username = codes "a:b"; uid = codes "7"; groups = []; extra = [] }

abbrev wrapper : AppWrapper
wrapper = app_wrapper suspended false false (status_of ∷ [])

abbrev session : Session ℕ
session = record { cache = []; world = 0 }

sanitize_label-IsLabelValue_example : IsLabelValue (sanitize_label (codes "-system:node."))
sanitize_label-IsLabelValue_example = sanitize_label-IsLabelValue (codes "-system:node.")

validate_app_wrapper_update_lem_example :
    (validate_app_wrapper_update wrapper wrapper ≡ []) ↔ SameAdmitted wrapper wrapper
validate_app_wrapper_update_lem_example = validate_app_wrapper_update_lem wrapper wrapper

accepted :
    validate_app_wrapper_create server webhook (ok user) wrapper session
    ≡ some ([], record { cache = (codes "Pod", codes "pods") ∷ []; world = 2 })
unfolding validate_app_wrapper_create lookup_resource infer_pod_sets candidate_pod_sets
    check_pod_template_spec validate_pod_sets replicas get_value_at_path get_raw_template
    infer_replicas lookup insert text_eq get_field after_prefix find_resource get_pod_template_spec
accepted = refl

empty-Faithful : Faithful server session
unfolding lookup
empty-Faithful key name h = absurd cc

validate_app_wrapper_create-AdmittedComponent_example :
    (u : UserInfo) × (◌≡◌ {A = Reply UserInfo} (ok user) (ok u))
    × All (AdmittedComponent server webhook u (codes "ns")) wrapper.spec.components
    × (1 ≤ pod_spec_count server webhook wrapper.spec.components)
    × (pod_spec_count server webhook wrapper.spec.components ≤ 8)
    × Faithful server (record { cache = (codes "Pod", codes "pods") ∷ []; world = 2 })
validate_app_wrapper_create-AdmittedComponent_example =
    validate_app_wrapper_create-AdmittedComponent server webhook (ok user) wrapper session
      (record { cache = (codes "Pod", codes "pods") ∷ []; world = 2 }) empty-Faithful accepted

validate_create-HasKind_example :
    (validate_create server webhook (ok user) wrapper session ≢ none)
    ↔ All (HasKind server webhook) wrapper.spec.components
validate_create-HasKind_example = validate_create-HasKind server webhook (ok user) wrapper session

pods_found : (lookup_resource server pod_gvk session).0 ≢ codes "*"
unfolding lookup_resource find_resource lookup insert text_eq
pods_found = λ e. cc

lookup_resource-lookups_example :
    lookup_resource server pod_gvk
      (lookups server (pod_gvk ∷ []) (lookup_resource server pod_gvk session).1)
    ≡ (
      (lookup_resource server pod_gvk session).0,
      lookups server (pod_gvk ∷ []) (lookup_resource server pod_gvk session).1,
    )
lookup_resource-lookups_example =
    lookup_resource-lookups server pod_gvk (pod_gvk ∷ []) session pods_found

abbrev created : AppWrapper
created = (default server webhook (ok user) wrapper 0).0.0

defaulted : default server webhook (ok user) wrapper 0 ≡ ((created, none), 0)
unfolding default
defaulted = refl

default-Owned_example :
    Owned user created
    × (map admitted_component created.spec.components
        ≡ map admitted_component created.spec.components)
default-Owned_example =
    default-Owned server webhook library-KeepsFirst user wrapper created created 0 0 defaulted
      (unchanged created)
