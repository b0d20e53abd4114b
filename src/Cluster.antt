-- ===== src/Cluster.antt =====
-- What the controllers take from packages outside the repository: the API server behind
-- controller-runtime's client, the condition helpers of apimachinery, the finalizer helpers of
-- controllerutil and time.ParseDuration. They are the fields of `Kit`, over any type `W` of worlds.
pub mod Laws
use appwrapper.Base.{ℤ, ℕ, Bool, true, false, Option, List, String}
use appwrapper.Base.Text.{Text, StringMap}
use appwrapper.Base.Json.{Fields, Json}
use appwrapper.Base.Result.{Result}
use appwrapper.Api.{AppWrapper, Condition, ConditionType, Phase, Message}
use appwrapper.Config.{AppWrapperConfig}

-- An error of the API server by its reason, or one that the code makes.
pub data Error : Type 0 where
  not_found already_exists conflict invalid no_match : Error
  api_error : ℕ → Error
  internal : Message → Error

abbrev pub is_not_found : Error → Bool
is_not_found not_found = true
is_not_found _ = false

abbrev pub Reply : Type 0 → Type 0
Reply A = Result Error A

abbrev pub is_already_exists : Error → Bool
is_already_exists already_exists = true
is_already_exists _ = false

-- meta.IsNoMatchError(err) || apierrors.IsInvalid(err)
abbrev pub is_fatal : Error → Bool
is_fatal no_match = true
is_fatal invalid = true
is_fatal _ = false

pub data DeleteOption : Type 0 where
  propagation_background : DeleteOption
  grace_period_seconds : ℕ → DeleteOption

pub record ObjectRef : Type 0 where
  pub api_version : Text
  pub kind : Text
  pub name : Text
  pub namespace : Text

-- An object as `Get` finds it: its content, or the type and status of each condition of a Job.
pub record Object : Type 0 where
  pub deletion_timestamp : Option ℤ
  pub content : Fields
  pub job_conditions : List (Text × Text)

pub data PodPhase : Type 0 where
  pod_pending pod_running pod_succeeded pod_failed pod_unknown : PodPhase

-- A quantity of a resource, as a number of its smallest unit.
pub record Container : Type 0 where
  pub limits : List (Text × ℤ)
  pub requests : List (Text × ℤ)

-- A container's status is the exit code under `state.terminated`, if that is set.
pub record Pod : Type 0 where
  pub name : Text
  pub phase : PodPhase
  pub deletion_timestamp : Option ℤ
  pub node_name : Text
  pub containers : List Container
  pub container_statuses : List (Option ℤ)

-- The resources of each node that carry a NoExecute taint (`noExecuteNodes`).
abbrev pub NodeTable : Type 0
NodeTable = List (Text × List Text)

-- A schema.GroupVersionKind.
pub record Gvk : Type 0 where
  pub group : Text
  pub version : Text
  pub kind : Text

abbrev pub ResourceAmounts : Type 0
ResourceAmounts = List (Text × ℤ)

-- The part of a v1.Container of a pod template that the code copies.
pub record TemplateContainer : Type 0 where
  pub name : Text
  pub image : Text
  pub command : List Text
  pub args : List Text
  pub requests : ResourceAmounts
  pub limits : ResourceAmounts
  pub termination_message_path : Text
  pub termination_message_policy : Text
  pub image_pull_policy : Text
  pub security_context : Option Json

-- The part of a v1.PodSpec that the code copies. A `Json` is a value that it only passes on.
pub record PodSpec : Type 0 where
  pub init_containers : List TemplateContainer
  pub containers : List TemplateContainer
  pub restart_policy : Text
  pub termination_grace_period_seconds : Option ℤ
  pub dns_policy : Text
  pub node_selector : StringMap
  pub node_name : Text
  pub security_context : Option Json
  pub affinity : Option Json
  pub scheduler_name : Text
  pub tolerations : List Json
  pub priority_class_name : Text
  pub preemption_policy : Option Text
  pub overhead : ResourceAmounts
  pub topology_spread_constraints : List Json

-- The tag and the digest of an image, empty where there is none.
pub record Image : Type 0 where
  pub tag : Text
  pub digest : Text

-- The packages that need no cluster.
pub record Library : Type 0 where
  -- unstructured.UnstructuredJSONScheme.Decode
  pub decode : Text → Reply Fields
  -- the GroupVersionKind of an unstructured object
  pub group_version_kind : Fields → Gvk
  -- FromUnstructuredWithValidation into a v1.PodSpec
  pub parse_pod_spec : Fields → Reply PodSpec
  -- RoundUp of a quantity at the scale of thousandths
  pub round_up_milli : ℤ → ℤ
  -- ParseNormalizedNamed of an image
  pub parse_image : Text → Option Image
  -- Kueue's PodSetTopologyRequest, from the annotations of a template
  pub topology_request : StringMap → Option Json
  -- the name, the kind and the API version of an unstructured object
  pub name_of : Fields → Text
  pub kind_of : Fields → Text
  pub api_version_of : Fields → Text
  -- the name of the owner that metav1.GetControllerOf finds
  pub controller_of : Fields → Option Text
  -- the namespace and the labels of an unstructured object, read and set
  pub namespace_of : Fields → Text
  pub with_namespace : Fields → Text → Fields
  pub labels_of : Fields → StringMap
  pub with_labels : Fields → StringMap → Fields
  -- resource.ParseQuantity, as a number of the smallest unit
  pub parse_quantity : Text → Option ℤ
  -- fmt.Sprint
  pub sprint : Json → Text
  -- Kueue's HaveConflict and MergeKeepFirst
  pub have_conflict : StringMap → StringMap → Option Error
  pub merge_keep_first : StringMap → StringMap → StringMap
  -- a NodeSelectorRequirement with the operator NotIn, marshalled and unmarshalled
  pub not_in : Text → List Text → Json
  -- controllerutil.SetControllerReference
  pub set_controller_reference : AppWrapper → Fields → Reply Fields

pub record Kit (W : Type 0) : Type 0 where
  pub config : AppWrapperConfig
  pub lib : Library
  pub parse_duration : Text → Option ℤ
  -- meta.FindStatusCondition, meta.IsStatusConditionTrue; meta.SetStatusCondition at a time
  pub find_status_condition : List Condition → ConditionType → Option Condition
  pub is_status_condition_true : List Condition → ConditionType → Bool
  pub set_status_condition : ℤ → List Condition → Condition → List Condition
  -- controllerutil, on the object's finalizers
  pub contains_finalizer : List Text → Text → Bool
  pub add_finalizer : List Text → Text → Bool × List Text
  pub remove_finalizer : List Text → Text → Bool × List Text
  -- time.Now
  pub now : W → ℤ × W
  -- the variable `noExecuteNodes`, as each pod of a list finds it under the lock
  pub no_execute_nodes : W → ℕ → NodeTable
  -- the client; the first AppWrapper of a patch is the modified one
  pub get_app_wrapper : Text → Text → W → Reply AppWrapper × W
  pub patch_status : AppWrapper → AppWrapper → W → Reply AppWrapper × W
  pub update : AppWrapper → W → Reply AppWrapper × W
  pub get_object : ObjectRef → W → Reply Object × W
  pub create_object : Fields → W → Reply Fields × W
  pub read_object : Fields → W → Reply Fields × W
  pub list_pods : Text → Text → Text → W → Reply (List Pod) × W
  pub delete_object : ObjectRef → DeleteOption → W → Option Error × W
  pub delete_pod : Pod → DeleteOption → W → Option Error × W
  -- the event recorder and the phase counter of internal/metrics
  pub event : AppWrapper → String → Message → W → W
  pub count_phase : Text → Phase → W → W
