-- ===== src/Tests/Parts.antt =====
-- The smaller parts on concrete inputs.
use appwrapper.Base.{
  List, ◌++◌, true, Option, some, pos, ◌≡◌, ◌≢◌, ◌↔◌, refl, false, [], ◌∷◌, none, arith, length,
  ◌<ℤ◌, ◌≤ℤ◌, any,
}
use appwrapper.Base.Text.{Text, codes, lookup, insert, text_eq}
use appwrapper.Base.Json.{Json, end}
use appwrapper.Components.{with_component_status}
use appwrapper.Base.Result.{err}
use appwrapper.Config.{new_app_wrapper_config, validate_app_wrapper_config}
use appwrapper.Config.Laws.{IsConsistent, validate_iff}
use appwrapper.Api.{AppWrapper, PodSetInfo, empty}
use appwrapper.Durations.{
  admission_grace_duration, warmup_grace_duration, failure_grace_duration, retry_pause_duration,
  forceful_deletion_grace_duration, deletion_on_failure_grace_duration,
  time_to_live_after_succeeded_duration, terminal_exit_codes, retryable_exit_codes,
}
use appwrapper.Durations.Bounds.{InLimits, grace_periods_bounded, success_ttl_bounded}
use appwrapper.Paths.{get_value_at_path, out_of_fuel}
use appwrapper.Paths.Ends.{get_value_at_path_ends}
use appwrapper.PodSets.{
  ensure_component_status_initialized, set_pod_set_infos, cleared, validate_pod_sets, replicas,
}
use appwrapper.PodSets.Initialized.{Fresh, ensure_component_status_initialized_lem}
use appwrapper.PodSets.Assign.{gathered, set_pod_set_infos_lem}
use appwrapper.PodSets.Valid.{Fits, validate_pod_sets-Fits}
use appwrapper.Cluster.{Error, pod_failed}
use appwrapper.Pods.Exits.{AnyOf, Terminal}
use appwrapper.Pods.{summarize}
use appwrapper.Pods.Counts.{count, is_pending, is_running, is_succeeded, is_failed, summarize_exact}
use appwrapper.Components.Render.{add_gates}
use appwrapper.Components.Render.Gates.{gate_count, wanted, add_gates_lem}
use appwrapper.Tests.World.{component, kit, library, one_pod, app_wrapper, status_of}

abbrev aw : AppWrapper
aw = app_wrapper empty false false []

abbrev started : AppWrapper
started =
    app_wrapper empty false false
      (record status_of { name = []; kind = []; api_version = []; conditions = [] } ∷ [])

abbrev info : PodSetInfo
info = record {
  annotations = [];
  labels = (codes "zone", codes "a") ∷ [];
  node_selector = [];
  tolerations = [];
  scheduling_gates = [];
}

validate_iff_example :
    (validate_app_wrapper_config new_app_wrapper_config ≡ none)
    ↔ IsConsistent new_app_wrapper_config
validate_iff_example = validate_iff new_app_wrapper_config

grace_periods_bounded_example :
    InLimits kit (admission_grace_duration kit aw)
    × InLimits kit (warmup_grace_duration kit aw)
    × InLimits kit (failure_grace_duration kit aw)
    × InLimits kit (retry_pause_duration kit aw)
    × InLimits kit (forceful_deletion_grace_duration kit aw)
    × InLimits kit (deletion_on_failure_grace_duration kit aw)
grace_periods_bounded_example = grace_periods_bounded kit (omega arith) aw

success_ttl_bounded_example :
    (pos 0 <ℤ time_to_live_after_succeeded_duration kit aw)
    × (time_to_live_after_succeeded_duration kit aw ≤ℤ kit.config.fault_tolerance.success_ttl)
unfolding validate_app_wrapper_config
success_ttl_bounded_example = success_ttl_bounded kit aw refl

get_value_at_path_ends_example : get_value_at_path end (codes "template.spec[0]") ≢ err out_of_fuel
get_value_at_path_ends_example = get_value_at_path_ends end (codes "template.spec[0]")

ensure_component_status_initialized_lem_example :
    (length aw.status.component_status ≡ length aw.spec.components → started ≡ aw)
    × (length aw.status.component_status ≢ length aw.spec.components
        → (started ≡ with_component_status aw started.status.component_status)
          × Fresh library aw.spec.components started.status.component_status)
unfolding ensure_component_status_initialized
ensure_component_status_initialized_lem_example =
    ensure_component_status_initialized_lem library aw started refl

summarize_exact_example :
    let s = summarize kit aw 5 (pos 1) one_pod in
    (s.pending ≡ pos (count is_pending one_pod))
    × (s.running ≡ pos (count is_running one_pod))
    × (s.succeeded ≡ pos (count is_succeeded one_pod))
    × (s.failed ≡ pos (count is_failed one_pod))
    × ((s.terminal_failure ≡ true)
        ↔ AnyOf
            (λ p.
              (p.phase ≡ pod_failed)
              × Terminal (terminal_exit_codes aw) (retryable_exit_codes aw) p)
            one_pod)
summarize_exact_example = summarize_exact kit aw 5 (pos 1) one_pod (omega arith)

set_pod_set_infos_lem_example :
    (r : AppWrapper × Option Error) × (set_pod_set_infos library aw (info ∷ []) ≡ some r)
    × (r.1 ≡ none
        → (gathered r.0.spec.components ≡ info ∷ [])
          × (cleared r.0.spec.components ≡ cleared aw.spec.components)
          × (r.0.metadata ≡ aw.metadata))
set_pod_set_infos_lem_example = set_pod_set_infos_lem library aw (info ∷ [])

validate_pod_sets-Fits_example : Fits component.declared_pod_sets component.declared_pod_sets
unfolding validate_pod_sets lookup insert text_eq replicas
validate_pod_sets-Fits_example =
    validate_pod_sets-Fits component.declared_pod_sets component.declared_pod_sets refl refl

add_gates_lem_example :
    ((more : List Json) × (add_gates (codes "a" ∷ codes "b" ∷ []) [] ≡ [] ++ more))
    × ((n : Text)
        → gate_count n (add_gates (codes "a" ∷ codes "b" ∷ []) [])
          ≡ wanted (any (λ name. text_eq name n) (codes "a" ∷ codes "b" ∷ [])) (gate_count n []))
add_gates_lem_example = add_gates_lem (codes "a" ∷ codes "b" ∷ []) []
