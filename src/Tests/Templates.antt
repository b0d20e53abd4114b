-- ===== src/Tests/Templates.antt =====
-- The pod templates of a small cluster, as Kueue sees them.
use appwrapper.Base.{◌≡◌, refl, sym, pos, true, false, none, some, [], ◌∷◌, All}
use appwrapper.Base.Text.{codes, text_eq}
use appwrapper.Base.Json.{Json, Fields, field, end, obj, get_field, as_map}
use appwrapper.Base.Result.{ok, is_ok, ok_injective}
use appwrapper.Base.Strings.{after_prefix, decimal}
use appwrapper.Api.{AppWrapper, PodSet, PodSetInfo, empty}
use appwrapper.Cluster.{Library, PodSpec}
use appwrapper.Paths.{get_value_at_path, get_raw_template}
use appwrapper.PodSets.{ensure_component_status_initialized, replicas}
use appwrapper.PodSets.Templates.{PodTemplateSpec, get_pod_template_spec}
use appwrapper.PodSets.Templates.Defaults.{Defaulted, get_pod_template_spec-Defaulted}
use appwrapper.PodSets.Kueue.{
  KueuePodSet, template_pod_sets, component_pod_sets, all_pod_sets, get_pod_sets,
}
use appwrapper.Workload.{run_with_pod_sets_info}
use appwrapper.Workload.Counts.{run_with_pod_sets_info_accepts}
use appwrapper.Tests.World.{library, blank_container, blank_spec, app_wrapper, status_of}

abbrev pod : Fields
pod = field (codes "spec") (obj end) end

abbrev pods : Library
pods = record library { decode = λ t. ok pod }

-- What the copy of a blank container has.
abbrev filled_template : PodTemplateSpec
filled_template = record {
  labels = [];
  annotations = [];
  spec = record blank_spec {
    containers =
        record blank_container {
          termination_message_path = codes "/dev/termination-log";
          termination_message_policy = codes "File";
          image_pull_policy = codes "Always";
        }
        ∷ [];
    restart_policy = codes "Always";
    termination_grace_period_seconds = some (pos 30);
    dns_policy = codes "ClusterFirst";
    security_context = some (obj end);
    scheduler_name = codes "default-scheduler";
    preemption_policy = some (codes "PreemptLowerPriority");
  };
}

filled : get_pod_template_spec library pod (codes "template") ≡ ok filled_template
unfolding get_pod_template_spec get_raw_template get_value_at_path after_prefix get_field text_eq
filled = refl

get_pod_template_spec-Defaulted_example :
    (candidate spec : Fields) × (src : PodSpec) × (get_raw_template pod (codes "template")
      ≡ ok candidate)
    × ((j : Json) × (get_field (codes "spec") candidate ≡ some j) × (as_map j ≡ some spec))
    × (library.parse_pod_spec spec ≡ ok src)
    × Defaulted library src filled_template.spec
get_pod_template_spec-Defaulted_example =
    get_pod_template_spec-Defaulted library pod (codes "template") filled_template filled

abbrev wrapper : AppWrapper
wrapper = app_wrapper empty true false (status_of ∷ [])

abbrev kueue_pod_set : KueuePodSet
kueue_pod_set = record {
  name = codes "aw-0-0";
  template = filled_template;
  count = pos 1;
  topology_request = none;
}

abbrev info : PodSetInfo
info = record {
  annotations = [];
  labels = (codes "zone", codes "a") ∷ [];
  node_selector = [];
  tolerations = [];
  scheduling_gates = [];
}

listed : get_pod_sets pods wrapper ≡ some (ok (kueue_pod_set ∷ []), wrapper)
unfolding get_pod_sets all_pod_sets component_pod_sets template_pod_sets get_pod_template_spec
    get_raw_template get_value_at_path after_prefix get_field text_eq
    ensure_component_status_initialized decimal replicas
listed = refl

parseable :
    (m : Fields)
    → pods.decode (codes "{}") ≡ ok m
    → All (λ (ps : PodSet). is_ok (get_pod_template_spec pods m ps.path) ≡ true) status_of.pod_sets
unfolding get_pod_template_spec get_raw_template get_value_at_path after_prefix get_field text_eq
parseable m e = let same : pod ≡ m = ok_injective e in rw (sym same) (refl, tt)

run_with_pod_sets_info_accepts_example :
    (running : AppWrapper) × (run_with_pod_sets_info pods wrapper (info ∷ [])
      ≡ some (running, none))
    × (running.spec.suspend ≡ false)
run_with_pod_sets_info_accepts_example =
    run_with_pod_sets_info_accepts pods wrapper wrapper (kueue_pod_set ∷ []) (info ∷ []) listed
      (parseable, tt) refl
