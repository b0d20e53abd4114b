-- ===== src/Reconcile/Teardown.antt =====
-- The cases of Reconcile that take the resources of an AppWrapper down: the phases Suspending,
-- Resetting, Failed and Succeeded (internal/controller/appwrapper/appwrapper_controller.go).
use appwrapper.Base.{
  ℤ, pos, Bool, true, false, ◌&&◌, not, none, [], ◌∷◌, ◌+ℤ◌, ◌-ℤ◌, ltb_ℤ, if◌then◌else◌, String,
}
use appwrapper.Api.{
  AppWrapper, suspended, resuming, suspending, condition_true, condition_false, quota_reserved,
  resources_deployed, pods_ready, unhealthy, deleting_resources, Message, lit, num, text,
  deletion_on_failure_grace_period_annotation,
}
use appwrapper.Cluster.{Kit}
use appwrapper.Exec.{M, ◌>>=◌, ◌>>◌, pure, deref, get_aw, time_now, set_condition, patch}
use appwrapper.Durations.{
  retry_pause_duration, deletion_on_failure_grace_duration, time_to_live_after_succeeded_duration,
}
use appwrapper.Reconcile.Running.{
  Outcome, ended, requeue, five_seconds, transition_to_phase, patch_and_requeue,
}
use appwrapper.Components.{clear_condition, delete_components}

module _ {W : Type 0} (k : Kit W) where
  -- deleteComponents where resources are deployed, and the condition that they no longer are.
  -- The answer says whether nothing is deployed any more.
  unfoldable pub undeploy : String → Message → M W Bool
  undeploy reason message = do
    aw ← get_aw
    if k.is_status_condition_true aw.status.conditions resources_deployed
        then (do
          gone ← delete_components k
          if gone
              then (do set_condition k resources_deployed condition_false reason message; pure true)
              else pure false)
        else pure true

  unfoldable pub reconcile_suspending : M W Outcome
  unfolding undeploy
  reconcile_suspending = do
    orig ← get_aw
    gone ← undeploy "Suspended" (lit "Suspend is true" ∷ [])
    if gone
        then (do
          set_condition k quota_reserved condition_false "Suspended" (lit "Suspend is true" ∷ [])
          clear_condition k pods_ready "Suspended" []
          clear_condition k unhealthy "Suspended" []
          transition_to_phase k orig suspended)
        else patch_and_requeue k orig five_seconds

  -- The pause between a reset and the next attempt.
  unfoldable pub resume_after_pause : AppWrapper → M W Outcome
  resume_after_pause orig = do
    aw ← get_aw
    reset ← deref (k.find_status_condition aw.status.conditions unhealthy)
    now ← time_now k
    let deadline = reset.last_transition_time +ℤ retry_pause_duration k aw
    if ltb_ℤ now deadline then patch_and_requeue k orig (deadline -ℤ now) else (do
      set_condition k resources_deployed condition_true "Resuming"
          (lit "Reset complete; resuming" ∷ [])
      transition_to_phase k orig resuming)

  unfoldable pub reconcile_resetting : M W Outcome
  unfolding undeploy resume_after_pause
  reconcile_resetting = do
    orig ← get_aw
    if orig.spec.suspend then transition_to_phase k orig suspending else (do
      clear_condition k pods_ready "Resetting" []
      gone ← undeploy "Resetting" (lit "Resources deleted for resetting AppWrapper" ∷ [])
      if gone then resume_after_pause orig else patch_and_requeue k orig five_seconds)

  unfoldable pub failed_message : AppWrapper → ℤ → Message
  failed_message aw delay =
      if ltb_ℤ (pos 0) delay && aw.spec.suspend
      then lit "Kueue forced resource deletion by suspending AppWrapper" ∷ []
      else lit "Resources deleted for failed AppWrapper" ∷ []

  unfoldable pub clean_up_failed : AppWrapper → ℤ → M W Outcome
  unfolding undeploy failed_message
  clean_up_failed orig delay = do
    gone ← undeploy "Failed" (failed_message orig delay)
    if gone
        then (do
          set_condition k quota_reserved condition_false "Failed" (lit "No resources deployed" ∷ [])
          e ← patch k orig
          pure (ended e))
        else patch_and_requeue k orig five_seconds

  -- The delay that an annotation asks for, to debug a failed workload.
  unfoldable pub reconcile_failed : M W Outcome
  unfolding clean_up_failed
  reconcile_failed = do
    orig ← get_aw
    let delay = deletion_on_failure_grace_duration k orig
    if ltb_ℤ (pos 0) delay && not orig.spec.suspend
        then (do
          set_condition k deleting_resources condition_false "DeletionPaused" (
              text deletion_on_failure_grace_period_annotation ∷ lit " has value " ∷ num delay ∷ [])
          aw ← get_aw
          delayed ← deref (k.find_status_condition aw.status.conditions deleting_resources)
          now ← time_now k
          let deadline = delayed.last_transition_time +ℤ delay
          if ltb_ℤ now deadline
              then patch_and_requeue k orig (deadline -ℤ now)
              else clean_up_failed orig delay)
        else clean_up_failed orig delay

  unfoldable pub reconcile_succeeded : M W Outcome
  reconcile_succeeded = do
    orig ← get_aw
    if k.is_status_condition_true orig.status.conditions resources_deployed
        then (do
          let delay = time_to_live_after_succeeded_duration k orig
          done ← deref (k.find_status_condition orig.status.conditions resources_deployed)
          now ← time_now k
          let deadline = done.last_transition_time +ℤ delay
          if ltb_ℤ now deadline then pure (requeue (deadline -ℤ now) none) else (do
            gone ← delete_components k
            if gone
                then (do
                  set_condition k resources_deployed condition_false "Succeeded"
                      (lit "Time to live after success of " ∷ num delay ∷ lit " expired" ∷ [])
                  e ← patch k orig
                  pure (ended e))
                else patch_and_requeue k orig five_seconds))
        else pure (ended none)
