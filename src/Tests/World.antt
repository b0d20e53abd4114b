-- ===== src/Tests/World.antt =====
-- A small cluster: its world is the time, every object that is read is there, nothing is created
-- or deleted, and the pods are those of a list.
use appwrapper.Base.{
  ◌++◌, ℤ, pos, ℕ, suc, ◌≡◌, refl, Bool, true, false, Option, none, some, List, [], ◌∷◌, arith,
  if◌then◌else◌, inl, inr, Bool-cases,
}
use appwrapper.Base.Text.{Text, codes, text_eq, text_eq_refl, lookup}
use appwrapper.Base.Strings.{atoi}
use appwrapper.Base.Json.{str, end, get_field}
use appwrapper.Base.Result.{Result, ok, err}
use appwrapper.Config.{new_app_wrapper_config}
use appwrapper.Api.{
  AppWrapper, Phase, Component, ComponentStatus, Condition, ConditionType, ConditionStatus,
  condition_true, condition_false, quota_reserved, resources_deployed, unhealthy, same_type,
  app_wrapper_finalizer,
}
use appwrapper.Cluster.{
  PodSpec, TemplateContainer, Kit, Library, Object, Pod, Error, not_found, api_error, pod_running,
}
use appwrapper.Cluster.Laws.{MetaLaws, FinalizerLaws, ClientLaws, stamped, status_is_true}
use appwrapper.Exec.{State}
use appwrapper.Webhook.Owner.{KeepsFirst}
use appwrapper.Health.{failures, type_of}
use appwrapper.Reconcile.Reads.{Readable}
use appwrapper.Reconcile.Invariant.{PhaseOk, Coherent}

abbrev find : List Condition → ConditionType → Option Condition
find [] x = none
find (c ∷ cs) x = if same_type c.type x then some c else find cs x

abbrev set_cond : ℤ → List Condition → Condition → List Condition
set_cond t cs c = stamped t (find cs c.type) c ∷ cs

unfoldable pub holds : List Text → Text → Bool
holds [] f = false
holds (g ∷ fs) f = if text_eq g f then true else holds fs f

unfoldable pub without : List Text → Text → List Text
without [] f = []
without (g ∷ fs) f = if text_eq g f then without fs f else g ∷ without fs f

holds-without : (fs : List Text) (f : Text) → holds (without fs f) f ≡ false
unfolding holds without
holds-without [] f = refl
holds-without (g ∷ fs) f = ground (arith, holds-without fs f)

abbrev pub blank_container : TemplateContainer
blank_container = record {
  name = codes "c";
  image = codes "i";
  command = [];
  args = [];
  requests = [];
  limits = [];
  termination_message_path = [];
  termination_message_policy = [];
  image_pull_policy = [];
  security_context = none;
}

abbrev pub blank_spec : PodSpec
blank_spec = record {
  init_containers = [];
  containers = blank_container ∷ [];
  restart_policy = [];
  termination_grace_period_seconds = none;
  dns_policy = [];
  node_selector = [];
  node_name = [];
  security_context = none;
  affinity = none;
  scheduler_name = [];
  tolerations = [];
  priority_class_name = [];
  preemption_policy = none;
  overhead = [];
  topology_spread_constraints = [];
}

abbrev pub library : Library
library = record {
  decode = λ t. ok end;
  group_version_kind = λ m. record { group = []; version = codes "v1"; kind = codes "Pod" };
  parse_pod_spec = λ m. ok blank_spec;
  round_up_milli = λ n. n;
  parse_image = λ t. some (record { tag = codes "latest"; digest = [] });
  topology_request = λ m. none;
  name_of = λ m. codes "p";
  kind_of = λ m. codes "Pod";
  api_version_of = λ m. codes "v1";
  controller_of = λ m. none;
  namespace_of = λ m. [];
  with_namespace = λ m ns. m;
  labels_of = λ m. [];
  with_labels = λ m ls. m;
  parse_quantity = atoi;
  sprint = λ j. [];
  have_conflict = λ a b. none;
  merge_keep_first = λ a b. a ++ b;
  not_in = λ key vs. str key;
  set_controller_reference = λ aw m. ok m;
}

pub library-KeepsFirst : KeepsFirst library
unfolding lookup
library-KeepsFirst [] b key = refl
library-KeepsFirst ((k, v) ∷ a) b key = elim (Bool-cases (text_eq k key)) [
  | inl p ↦ rw (lookup, p) refl
  | inr p ↦ rw (lookup, p) (library-KeepsFirst a b key)
]

abbrev pub cluster : Result Error (List Pod) → Kit ℕ
cluster pods = record {
  config = new_app_wrapper_config;
  lib = library;
  parse_duration = λ t. none;
  find_status_condition = find;
  is_status_condition_true = λ cs x. status_is_true (find cs x);
  set_status_condition = set_cond;
  contains_finalizer = holds;
  add_finalizer = λ fs f. (true, f ∷ fs);
  remove_finalizer = λ fs f. (true, without fs f);
  now = λ w. (pos w, suc w);
  no_execute_nodes = λ w i. [];
  get_app_wrapper = λ ns n w. (err not_found, w);
  patch_status = λ aw orig w. (ok aw, w);
  update = λ aw w. (ok aw, w);
  get_object =
      λ ref w. (ok (record { deletion_timestamp = none; content = end; job_conditions = [] }), w);
  create_object = λ m w. (ok m, w);
  read_object = λ m w. (ok m, w);
  list_pods = λ ns l n w. (pods, w);
  delete_object = λ ref opt w. (some not_found, w);
  delete_pod = λ p opt w. (none, w);
  event = λ aw r m w. w;
  count_phase = λ ns p w. w;
}

abbrev pub one_pod : List Pod
one_pod =
    record {
      name = codes "p";
      phase = pod_running;
      deletion_timestamp = none;
      node_name = codes "n";
      containers = [];
      container_statuses = [];
    }
    ∷ []

abbrev pub kit : Kit ℕ
kit = cluster (ok one_pod)

abbrev pub failing_kit : Kit ℕ
failing_kit = cluster (err (api_error 500))

stamped_type : (n : ℤ) (o : Option Condition) (c : Condition) → (stamped n o c).type ≡ c.type
stamped_type n none c = refl
stamped_type n (some old) c = refl

pub kit_meta : MetaLaws kit
kit_meta = record {
  find_set = λ t cs c x. rw (stamped_type t (find cs c.type) c) refl;
  is_true_find = λ cs x. refl;
}

pub kit_finalizers : FinalizerLaws kit
unfolding holds
kit_finalizers = record {
  contains_add = λ fs f. rw (text_eq_refl f) refl;
  contains_remove = λ fs f. holds-without fs f;
}

pub kit_client : ClientLaws kit
kit_client = record {
  patched = λ aw orig aw' w e. ground arith;
  updated = λ aw aw' w e. ground arith;
}

abbrev blank : Object
blank = record { deletion_timestamp = none; content = end; job_conditions = [] }

read_blank : (kind : Text) → (n : ℕ) × (failures kind blank ≡ some n)
unfolding failures get_field
read_blank kind = elim (Bool-cases (text_eq kind (codes "batch/v1:Job"))) [
  | inl p ↦ rw (p, failures) (_, refl)
  | inr p ↦ elim (Bool-cases (text_eq kind (codes "kubeflow.org/v1:PyTorchJob"))) [
    | inl q ↦ rw (p, failures, q) (_, refl)
    | inr q ↦ rw (p, failures, q) (_, refl)
  ]
]

pub kit-Readable : Readable kit
kit-Readable ns cs w obj e alive =
    let same : obj ≡ blank = ground arith in rw same (read_blank (type_of cs))

-- An AppWrapper of one component, in a phase.
abbrev pub component : Component
component = record {
  annotations = [];
  declared_pod_sets = record { replicas = none; path = codes "template" } ∷ [];
  pod_set_infos = [];
  template = codes "{}";
}

abbrev condition : ConditionType → ConditionStatus → Condition
condition t b = record {
  type = t;
  status = b;
  reason = "Resuming";
  message = [];
  last_transition_time = pos 0;
}

abbrev pub status_of : ComponentStatus
status_of = record {
  name = codes "p";
  kind = codes "Pod";
  api_version = codes "v1";
  pod_sets = component.declared_pod_sets;
  conditions = condition resources_deployed condition_true ∷ [];
}

abbrev pub app_wrapper : Phase → Bool → Bool → List ComponentStatus → AppWrapper
app_wrapper p quota deployed css = record {
  metadata = record {
    name = codes "aw";
    namespace = codes "ns";
    labels = [];
    annotations = [];
    finalizers = app_wrapper_finalizer ∷ [];
    deletion_timestamp = none;
  };
  spec = record { components = component ∷ []; suspend = false; managed_by = none };
  status = record {
    phase = p;
    retries = pos 0;
    conditions =
        condition quota_reserved (if quota then condition_true else condition_false)
        ∷ condition resources_deployed (if deployed then condition_true else condition_false)
        ∷ condition unhealthy condition_true
        ∷ [];
    component_status = css;
  };
}

abbrev pub at_phase : Phase → Bool → Bool → State ℕ
at_phase p quota deployed = record { aw = app_wrapper p quota deployed (status_of ∷ []); world = 5 }

-- The invariant holds of it, where its conditions fit the phase.
pub coherent :
    (p : Phase) (quota deployed : Bool)
    → PhaseOk kit (app_wrapper p quota deployed (status_of ∷ [])) p
    → Coherent kit (app_wrapper p quota deployed (status_of ∷ []))
unfolding holds
coherent p quota deployed h = record {
  phase_ok = h;
  statuses = λ _. refl;
  guarded = λ d. rw (text_eq_refl app_wrapper_finalizer) refl;
}
