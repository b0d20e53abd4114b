-- ===== src/PodSets/Templates.antt =====
-- GetPodTemplateSpec of pkg/utils/utils.go: the pod template that Kueue sees, with the defaults of the
-- API server, and getImageTag.
pub mod Defaults
use appwrapper.Base.{
  ℤ, pos, ℕ, Bool, true, false, ◌&&◌, Option, none, some, List, [], ◌∷◌, is_nil, if◌then◌else◌,
}
use appwrapper.Base.Text.{Text, StringMap, codes, text_eq}
use appwrapper.Base.Json.{
  Json, Fields, get_field, as_map, obj, end, str_map, null, bool, int, float, str, arr,
}
use appwrapper.Base.Result.{Result, ok, err, ◌>>=◌, require}
use appwrapper.Cluster.{Library, TemplateContainer, PodSpec, Image, ResourceAmounts, Reply}
use appwrapper.Paths.{PathError, no_spec, bad_pod_spec, get_raw_template}

-- The parts of a v1.PodTemplateSpec that are set.
pub record PodTemplateSpec : Type 0 where
  pub labels : StringMap
  pub annotations : StringMap
  pub spec : PodSpec

-- A value, or the default where it is empty or nil.
abbrev pub or_default : Text → Text → Text
or_default d [] = d
or_default d (c ∷ t) = c ∷ t

abbrev pub or_value : {A : Type 0} → A → Option A → A
or_value d none = d
or_value d (some a) = a

abbrev tag_or_latest : Image → Text
tag_or_latest i = if is_nil i.tag && is_nil i.digest then codes "latest" else i.tag

abbrev tag_of : Option Image → Text
tag_of none = []
tag_of (some i) = tag_or_latest i

module _ (l : Library) where
  get_image_tag : Text → Text
  get_image_tag image = tag_of (l.parse_image image)

  default_resource_list : ResourceAmounts → ResourceAmounts
  default_resource_list [] = []
  default_resource_list ((r, n) ∷ rs) = (r, l.round_up_milli n) ∷ default_resource_list rs

  pull_policy : Text → Text
  unfolding get_image_tag
  pull_policy image =
      if text_eq (get_image_tag image) (codes "latest")
      then codes "Always"
      else codes "IfNotPresent"

  -- The body of the loop of copyContainers.
  unfoldable copy_container : TemplateContainer → TemplateContainer
  unfolding default_resource_list pull_policy
  copy_container c = record {
    name = c.name;
    image = c.image;
    command = c.command;
    args = c.args;
    requests = default_resource_list c.requests;
    limits = default_resource_list c.limits;
    termination_message_path = or_default (codes "/dev/termination-log") c.termination_message_path;
    termination_message_policy = or_default (codes "File") c.termination_message_policy;
    image_pull_policy = or_default (pull_policy c.image) c.image_pull_policy;
    security_context = c.security_context;
  }

  copy_containers : List TemplateContainer → List TemplateContainer
  unfolding copy_container
  copy_containers [] = []
  copy_containers (c ∷ cs) = copy_container c ∷ copy_containers cs

  -- The grace period is set where the source has none, and left nil where it has one.
  abbrev grace_period : Option ℤ → Option ℤ
  grace_period none = some (pos 30)
  grace_period (some n) = none

  -- The copy of the pod spec.
  unfoldable copy_spec : PodSpec → PodSpec
  unfolding copy_containers
  copy_spec src = record {
    init_containers = copy_containers src.init_containers;
    containers = copy_containers src.containers;
    restart_policy = or_default (codes "Always") src.restart_policy;
    termination_grace_period_seconds = grace_period src.termination_grace_period_seconds;
    dns_policy = or_default (codes "ClusterFirst") src.dns_policy;
    node_selector = src.node_selector;
    node_name = src.node_name;
    security_context = some (or_value (obj end) src.security_context);
    affinity = src.affinity;
    scheduler_name = or_default (codes "default-scheduler") src.scheduler_name;
    tolerations = src.tolerations;
    priority_class_name = src.priority_class_name;
    preemption_policy = some (or_value (codes "PreemptLowerPriority") src.preemption_policy);
    overhead = default_resource_list src.overhead;
    topology_spread_constraints = src.topology_spread_constraints;
  }

  -- The type assertion `v.(map[string]string)`.
  abbrev as_string_map : Json → Option StringMap
  as_string_map (str_map m) = some m
  as_string_map _ = none

  -- `metadata[key]`, where the assertions hold.
  abbrev map_or_empty : Option StringMap → StringMap
  map_or_empty none = []
  map_or_empty (some m) = m

  string_map_at : Text → Option Json → StringMap
  string_map_at key none = []
  string_map_at key (some v) = elim (as_map v) [
    | none ↦ []
    | some md ↦ elim (get_field key md) [ none ↦ [] | some w ↦ map_or_empty (as_string_map w) ]
  ]

  abbrev parsed_spec : Reply PodSpec → Result PathError PodSpec
  parsed_spec (ok src) = ok src
  parsed_spec (err e) = err bad_pod_spec

  -- GetPodTemplateSpec
  unfoldable pub get_pod_template_spec : Fields → Text → Result PathError PodTemplateSpec
  unfolding copy_spec string_map_at
  get_pod_template_spec m path = do
    candidate ← get_raw_template m path
    field ← require no_spec (get_field (codes "spec") candidate)
    spec ← require no_spec (as_map field)
    src ← parsed_spec (l.parse_pod_spec spec)
    ok (record {
      labels = string_map_at (codes "labels") (get_field (codes "metadata") candidate);
      annotations = string_map_at (codes "annotations") (get_field (codes "metadata") candidate);
      spec = copy_spec src;
    })
