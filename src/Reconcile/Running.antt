-- ===== src/Reconcile/Running.antt =====
-- The case of Reconcile for the phase Running, and the two functions that move an AppWrapper to
-- another phase (internal/controller/appwrapper/appwrapper_controller.go).
use appwrapper.Base.{
  ℤ, pos, ◌*◌, Bool, false, ◌&&◌, not, Option, none, some, [], ◌∷◌, ◌++◌, ◌+ℤ◌, ◌-ℤ◌, ltb_ℤ, leb_ℤ,
  eqb_ℤ, int32, is_nil, if◌then◌else◌, String,
}
use appwrapper.Base.Result.{ok, err}
use appwrapper.Config.{second, minute}
use appwrapper.Api.{
  AppWrapper, Phase, suspending, resetting, failed, succeeded, condition_true, condition_false,
  quota_reserved, resources_deployed, pods_ready, unhealthy, Message, lit, num, names,
}
use appwrapper.Cluster.{Kit, Error, Reply}
use appwrapper.Exec.{
  M, ◌>>=◌, ◌>>◌, pure, deref, get_aw, time_now, set_condition, patch, record_event, with_phase,
  with_status,
}
use appwrapper.Durations.{
  admission_grace_duration, warmup_grace_duration, failure_grace_duration, retry_limit,
}
use appwrapper.Components.{clear_condition}
use appwrapper.Health.{ComponentStatusSummary, get_component_status}
use appwrapper.Pods.{PodStatusSummary, get_pod_status}

-- A ctrl.Result and an error.
pub record Outcome : Type 0 where
  pub requeue_after : Option ℤ
  pub error : Option Error

abbrev pub ended : Option Error → Outcome
ended e = record { requeue_after = none; error = e }

-- requeueAfter
abbrev pub requeue : ℤ → Option Error → Outcome
requeue d none = record { requeue_after = some d; error = none }
requeue d (some e) = record { requeue_after = none; error = some e }

abbrev pub five_seconds : ℤ
five_seconds = pos (5 * second)

module _ {W : Type 0} (k : Kit W) where
  abbrev set_phase : Phase → M W Unit
  set_phase p s = some (tt, record s { aw = with_phase s.aw p })

  abbrev pub count_transition : AppWrapper → Phase → Option Error → M W Outcome
  count_transition orig p (some e) s = some (ended (some e), s)
  count_transition orig p none s =
      some (ended none, record s { world = k.count_phase orig.metadata.namespace p s.world })

  -- transitionToPhase
  unfoldable pub transition_to_phase : AppWrapper → Phase → M W Outcome
  transition_to_phase orig p = do set_phase p; e ← patch k orig; count_transition orig p e

  abbrev add_retries : ℤ → M W Unit
  add_retries n s = some (
    tt,
    record s {
      aw = with_status s.aw (record s.aw.status { retries = int32 (s.aw.status.retries +ℤ n) });
    },
  )

  -- resetOrFail
  unfoldable pub reset_or_fail : AppWrapper → Bool → ℤ → M W Outcome
  unfolding transition_to_phase
  reset_or_fail orig terminal increment = do
    aw ← get_aw
    if not terminal && ltb_ℤ aw.status.retries (retry_limit k aw)
        then (do add_retries increment; transition_to_phase orig resetting)
        else transition_to_phase orig failed

  -- A patch of the status, and a requeue.
  unfoldable pub patch_and_requeue : AppWrapper → ℤ → M W Outcome
  patch_and_requeue orig d = do e ← patch k orig; pure (requeue d e)

  -- The condition of an unhealthy AppWrapper, and the event with its message behind a prefix.
  unfoldable pub report_unhealthy : String → Message → Message → M W Unit
  report_unhealthy reason prefix message = do
    set_condition k unhealthy condition_true reason message
    record_event k "Unhealthy" (prefix ++ message)

  unfoldable pub complete : AppWrapper → PodStatusSummary → M W Outcome
  complete orig ps = do
    let msg = num ps.succeeded ∷ lit " pods succeeded and no running, pending, or failed pods" ∷ []
    set_condition k quota_reserved condition_false "Succeeded" msg
    set_condition k resources_deployed condition_true "Succeeded" msg
    transition_to_phase orig succeeded

  unfoldable pub handle_failed_pods : AppWrapper → PodStatusSummary → M W Outcome
  unfolding patch_and_requeue
  handle_failed_pods orig ps = do
    set_condition k unhealthy condition_true "FoundFailedPods" []
    aw ← get_aw
    detected ← deref (k.find_status_condition aw.status.conditions unhealthy)
    now ← time_now k
    let deadline = detected.last_transition_time +ℤ failure_grace_duration k aw
    if ltb_ℤ now deadline then patch_and_requeue orig (deadline -ℤ now) else (do
      record_event k "Unhealthy" (lit "FoundFailedPods: " ∷ num ps.failed ∷ lit " failed pods" ∷ [])
      reset_or_fail orig ps.terminal_failure (pos 1))

  abbrev pub pods_message : PodStatusSummary → Message
  pods_message ps =
      num ps.pending
      ∷ lit " pods pending; "
      ∷ num ps.running
      ∷ lit " pods running; "
      ∷ num ps.succeeded
      ∷ lit " pods succeeded"
      ∷ []

  abbrev pub pending_period : AppWrapper → PodStatusSummary → ℤ
  pending_period aw ps =
      if leb_ℤ ps.expected (int32 (int32 (ps.pending +ℤ ps.running) +ℤ ps.succeeded))
      then warmup_grace_duration k aw
      else admission_grace_duration k aw

  unfoldable pub await_ready : AppWrapper → PodStatusSummary → M W Outcome
  unfolding patch_and_requeue report_unhealthy
  await_ready orig ps = do
    aw ← get_aw
    deployed ← deref (k.find_status_condition aw.status.conditions resources_deployed)
    now ← time_now k
    if ltb_ℤ now (deployed.last_transition_time +ℤ pending_period aw ps)
        then patch_and_requeue orig five_seconds
        else (do
          report_unhealthy "InsufficientPodsReady" (lit "InsufficientPodsReady: " ∷ [])
              (pods_message ps)
          reset_or_fail orig ps.terminal_failure (pos 1))

  unfoldable pub wait_for_pods : AppWrapper → PodStatusSummary → M W Outcome
  unfolding await_ready
  wait_for_pods orig ps = do
    clear_condition k pods_ready "InsufficientPodsReady" (pods_message ps)
    await_ready orig ps

  unfoldable pub stay_healthy : AppWrapper → PodStatusSummary → M W Outcome
  unfolding wait_for_pods patch_and_requeue
  stay_healthy orig ps = do
    clear_condition k unhealthy "FoundNoFailedPods" []
    if leb_ℤ ps.expected (int32 (ps.running +ℤ ps.succeeded))
        then (do
          set_condition k pods_ready condition_true "SufficientPodsReady" (
              num ps.running
              ∷ lit " pods running; "
              ∷ num ps.succeeded
              ∷ lit " pods succeeded"
              ∷ [])
          patch_and_requeue orig (pos (1 * minute)))
        else wait_for_pods orig ps

  -- Every expected pod has succeeded, and no pod is in another state.
  abbrev pub all_succeeded : PodStatusSummary → Bool
  all_succeeded ps =
      leb_ℤ ps.expected ps.succeeded
      && eqb_ℤ (int32 (int32 (ps.pending +ℤ ps.running) +ℤ ps.failed)) (pos 0)

  -- What Reconcile decides from the two summaries.
  unfoldable pub judge : AppWrapper → ComponentStatusSummary → PodStatusSummary → M W Outcome
  unfolding report_unhealthy complete handle_failed_pods stay_healthy
  judge orig cs ps =
      if not (eqb_ℤ cs.deployed cs.expected)
      then (do
        report_unhealthy "MissingComponent" (lit "MissingComponent: " ∷ []) (
            lit "Only found "
            ∷ num cs.deployed
            ∷ lit " deployed components, but was expecting "
            ∷ num cs.expected
            ∷ [])
        transition_to_phase orig failed)
      else if ltb_ℤ (pos 0) cs.failed
      then (do
        report_unhealthy "FailedComponent" (lit "FailedComponent: " ∷ [])
            (lit "Found " ∷ num cs.failed ∷ lit " failed components" ∷ [])
        reset_or_fail orig ps.terminal_failure (pos 1))
      else if all_succeeded ps
      then complete orig ps
      else if ltb_ℤ (pos 0) ps.failed
      then handle_failed_pods orig ps
      else if not (is_nil ps.no_execute_nodes)
      then (do
        report_unhealthy "AutopilotNoExecute" [] (
            lit "Workload contains pods using NoExecute resources on Nodes: "
            ∷ names ps.no_execute_nodes
            ∷ [])
        reset_or_fail orig false (pos 0))
      else stay_healthy orig ps

  -- The status of the pods, or its error.
  unfoldable pub after_pods :
      AppWrapper → ComponentStatusSummary → Reply PodStatusSummary → M W Outcome
  after_pods orig cs (err e) = pure (ended (some e))
  after_pods orig cs (ok ps) = judge orig cs ps

  -- The status of the components, or its error.
  unfoldable pub after_components : AppWrapper → Reply ComponentStatusSummary → M W Outcome
  after_components orig (err e) = pure (ended (some e))
  after_components orig (ok cs) = do rp ← get_pod_status k; after_pods orig cs rp

  unfoldable pub reconcile_running : M W Outcome
  reconcile_running = do
    orig ← get_aw
    if orig.spec.suspend
        then transition_to_phase orig suspending
        else (do rc ← get_component_status k; after_components orig rc)
