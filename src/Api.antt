-- ===== src/Api.antt =====
-- The custom resource of api/v1beta2/appwrapper_types.go, with the metav1.Condition that its
-- status holds. A string type with named constants is a data type of these constants; int32 is ℤ,
-- and the code that computes with it wraps around by `int32`. A time is a number of nanoseconds.
mod Keys
pub use Keys.*
use appwrapper.Base.{ℤ, String, List, Option, Bool, true, false, ◌≡◌, ◌↔◌, arith}
use appwrapper.Base.Text.{Text, StringMap}
use appwrapper.Base.Json.{Json}

pub data Phase : Type 0 where
  empty suspended resuming running resetting suspending succeeded failed terminating : Phase

pub data ConditionType : Type 0 where
  quota_reserved resources_deployed pods_ready unhealthy deleting_resources : ConditionType

pub data ConditionStatus : Type 0 where
  condition_true condition_false condition_unknown : ConditionStatus

-- A message before it is printed: the pieces of its format; `cause` is the text of an error.
pub data Piece : Type 0 where
  lit : String → Piece
  num : ℤ → Piece
  text : Text → Piece
  names : List Text → Piece
  cause : Piece

abbrev pub Message : Type 0
Message = List Piece

pub record Condition : Type 0 where
  pub type : ConditionType
  pub status : ConditionStatus
  pub reason : String
  pub message : Message
  pub last_transition_time : ℤ

pub record PodSet : Type 0 where
  pub replicas : Option ℤ
  pub path : Text

-- A toleration is kept as the value that is injected; a scheduling gate is its name.
pub record PodSetInfo : Type 0 where
  pub annotations : StringMap
  pub labels : StringMap
  pub node_selector : StringMap
  pub tolerations : List Json
  pub scheduling_gates : List Text

pub record Component : Type 0 where
  pub annotations : StringMap
  pub declared_pod_sets : List PodSet
  pub pod_set_infos : List PodSetInfo
  pub template : Text

pub record ComponentStatus : Type 0 where
  pub name : Text
  pub kind : Text
  pub api_version : Text
  pub pod_sets : List PodSet
  pub conditions : List Condition

pub record Spec : Type 0 where
  pub components : List Component
  pub suspend : Bool
  pub managed_by : Option Text

pub record Status : Type 0 where
  pub phase : Phase
  pub retries : ℤ
  pub conditions : List Condition
  pub component_status : List ComponentStatus

-- The part of metav1.ObjectMeta that the code reads or writes.
pub record Metadata : Type 0 where
  pub name : Text
  pub namespace : Text
  pub labels : StringMap
  pub annotations : StringMap
  pub finalizers : List Text
  pub deletion_timestamp : Option ℤ

pub record AppWrapper : Type 0 where
  pub metadata : Metadata
  pub spec : Spec
  pub status : Status

abbrev pub same_status : ConditionStatus → ConditionStatus → Bool
same_status condition_true condition_true = true
same_status condition_false condition_false = true
same_status condition_unknown condition_unknown = true
same_status _ _ = false

abbrev pub same_type : ConditionType → ConditionType → Bool
same_type quota_reserved quota_reserved = true
same_type resources_deployed resources_deployed = true
same_type pods_ready pods_ready = true
same_type unhealthy unhealthy = true
same_type deleting_resources deleting_resources = true
same_type _ _ = false

pub Phase-discrete : Discrete Phase
Phase-discrete = hlevel
