-- ===== src/Reconcile.antt =====
-- Reconcile of internal/controller/appwrapper/appwrapper_controller.go.
mod Running
mod Teardown
pub mod Invariant
pub mod Frame
pub mod RunningStep
pub mod Reads
pub mod RunningPhase
pub mod Undeploy
pub mod Down
pub mod Reset
pub mod Finished
pub mod Start
pub mod Deletion
pub mod Resume
pub mod Every
unfoldable pub use Running.*
unfoldable pub use Teardown.*
use appwrapper.Base.{
  ℤ, pos, ℕ, ◌*◌, Bool, true, false, ◌&&◌, not, Option, none, some, List, [], ◌∷◌, ◌+ℤ◌, ◌-ℤ◌,
  ltb_ℤ, if◌then◌else◌, String,
}
use appwrapper.Base.Text.{Text, text_eq}
use appwrapper.Base.Json.{Fields}
use appwrapper.Base.Result.{Result, ok, err}
use appwrapper.Config.{second}
use appwrapper.Api.{
  AppWrapper, Phase, empty, suspended, resuming, running, resetting, suspending, succeeded, failed,
  terminating, condition_true, condition_false, quota_reserved, resources_deployed, pods_ready,
  unhealthy, deleting_resources, Message, Piece, lit, num, text, cause, app_wrapper_finalizer,
  app_wrapper_controller_name, deletion_on_failure_grace_period_annotation,
}
use appwrapper.Cluster.{Kit, Error, Reply}
use appwrapper.Exec.{
  State, M, ◌>>=◌, ◌>>◌, pure, deref, get_aw, time_now, set_condition, patch, update_object,
  with_phase,
}
use appwrapper.Durations.{
  admission_grace_duration, retry_pause_duration, deletion_on_failure_grace_duration,
  time_to_live_after_succeeded_duration,
}
use appwrapper.PodSets.{ensure_component_status_initialized}
use appwrapper.Pods.{is_set}
use appwrapper.Components.{clear_condition, delete_components}
use appwrapper.Components.Render.{render}
use appwrapper.Components.Create.{Failure, create_components}

abbrev pub with_finalizers : AppWrapper → List Text → AppWrapper
with_finalizers aw fs = record aw { metadata = record aw.metadata { finalizers = fs } }

abbrev is_terminating : Phase → Bool
is_terminating terminating = true
is_terminating _ = false

abbrev set_aw : {W : Type 0} → AppWrapper → M W Unit
set_aw aw s = some (tt, record s { aw = aw })

-- The rest, unless there was an error.
abbrev unless_error : {W : Type 0} → Option Error → M W Outcome → M W Outcome
unless_error none rest = rest
unless_error (some e) rest = pure (ended (some e))

module _ {W : Type 0} (k : Kit W) where
  -- RemoveFinalizer, and the update that frees the object.
  unfoldable drop_finalizer : M W Outcome
  drop_finalizer = do
    aw ← get_aw
    let (changed, fs) = k.remove_finalizer aw.metadata.finalizers app_wrapper_finalizer
    set_aw (with_finalizers aw fs)
    if changed then (do e ← update_object k; pure (ended e)) else pure (ended none)

  unfoldable write_release : AppWrapper → Bool → M W Outcome
  unfolding drop_finalizer
  write_release orig updated =
      if updated then (do e ← patch k orig; unless_error e drop_finalizer) else drop_finalizer

  -- The second half of the deletion: the quota is released.
  unfoldable release_quota : AppWrapper → Bool → M W Outcome
  unfolding write_release
  release_quota orig updated = do
    aw ← get_aw
    if k.is_status_condition_true aw.status.conditions quota_reserved
        then (do
          set_condition k quota_reserved condition_false "Terminating"
              (lit "No resources deployed" ∷ [])
          write_release orig true)
        else write_release orig updated

  unfoldable still_terminating : AppWrapper → M W Outcome
  still_terminating orig = do
    aw ← get_aw
    if is_terminating aw.status.phase then pure (requeue five_seconds none) else (do
      set_aw (with_phase aw terminating)
      _ ← patch k orig
      pure (requeue five_seconds none))

  -- An AppWrapper that is being deleted.
  unfoldable pub reconcile_deletion : M W Outcome
  unfolding release_quota still_terminating
  reconcile_deletion = do
    orig ← get_aw
    if k.contains_finalizer orig.metadata.finalizers app_wrapper_finalizer
        then (if k.is_status_condition_true orig.status.conditions resources_deployed
            then (do
              gone ← delete_components k
              if gone
                  then (do
                    set_condition k resources_deployed condition_false "Terminating"
                        (lit "Resources successfully deleted" ∷ [])
                    release_quota orig true)
                  else still_terminating orig)
            else release_quota orig false)
        else pure (ended none)

  unfoldable pub reconcile_empty : M W Outcome
  reconcile_empty s = elim (ensure_component_status_initialized k.lib s.aw) [
    | err e ↦ some (ended (some e), s)
    | ok aw ↦ transition_to_phase k s.aw suspended (record s { aw = aw })
  ]

  abbrev deploy_message : Message
  deploy_message = lit "Suspend is false" ∷ []

  unfoldable begin_deployment : M W Outcome
  begin_deployment = do
    orig ← get_aw
    set_condition k quota_reserved condition_true "Resuming" deploy_message
    set_condition k resources_deployed condition_true "Resuming" deploy_message
    set_condition k pods_ready condition_false "Resuming" deploy_message
    set_condition k unhealthy condition_false "Resuming" deploy_message
    transition_to_phase k orig resuming

  unfoldable pub reconcile_suspended : M W Outcome
  unfolding begin_deployment
  reconcile_suspended = do
    aw ← get_aw
    if aw.spec.suspend then pure (ended none) else (do
      let (changed, fs) = k.add_finalizer aw.metadata.finalizers app_wrapper_finalizer
      set_aw (with_finalizers aw fs)
      if changed
          then (do e ← update_object k; unless_error e begin_deployment)
          else begin_deployment)

  unfoldable report_create_failure : AppWrapper → Bool → M W Outcome
  report_create_failure orig fatal = do
    report_unhealthy k "CreateFailed" (lit "CreateFailed: " ∷ [])
        (lit "error creating components: " ∷ cause ∷ [])
    if fatal then transition_to_phase k orig failed else reset_or_fail k orig false (pos 1)

  unfoldable create_failed : AppWrapper → Bool → M W Outcome
  unfolding report_create_failure
  create_failed orig fatal = if fatal then report_create_failure orig true else (do
    started ← deref (k.find_status_condition orig.status.conditions resources_deployed)
    now ← time_now k
    if ltb_ℤ now (started.last_transition_time +ℤ admission_grace_duration k orig)
        then pure (requeue (pos (1 * second)) none)
        else report_create_failure orig false)

  -- What follows the call of createComponents.
  unfoldable after_components_created : Failure → M W Outcome
  unfolding create_failed
  after_components_created failure = do
    orig ← get_aw
    elim failure [
      | none ↦ transition_to_phase k orig running
      | some (e, fatal) ↦ create_failed orig fatal
    ]

  module _ (render : AppWrapper → ℕ → Option (Result Error Fields)) where
    unfoldable pub reconcile_resuming : M W Outcome
    unfolding after_components_created
    reconcile_resuming = do
      aw ← get_aw
      if aw.spec.suspend
          then transition_to_phase k aw suspending
          else (do failure ← create_components k render; after_components_created failure)

    -- The switch on the phase.
    unfoldable pub reconcile_phase : Phase → M W Outcome
    reconcile_phase empty = reconcile_empty
    reconcile_phase suspended = reconcile_suspended
    reconcile_phase resuming = reconcile_resuming
    reconcile_phase running = reconcile_running k
    reconcile_phase suspending = reconcile_suspending k
    reconcile_phase resetting = reconcile_resetting k
    reconcile_phase failed = reconcile_failed k
    reconcile_phase succeeded = reconcile_succeeded k
    reconcile_phase terminating = pure (ended none)

    abbrev managed_here : Option Text → Bool
    managed_here none = true
    managed_here (some m) = text_eq m app_wrapper_controller_name

    -- Reconcile, on the AppWrapper that it has read.
    unfoldable pub reconcile_object : M W Outcome
    unfolding reconcile_phase
    reconcile_object = do
      aw ← get_aw
      if managed_here aw.spec.managed_by
          then (if is_set aw.metadata.deletion_timestamp
              then reconcile_deletion
              else reconcile_phase aw.status.phase)
          else pure (ended none)

    -- Reconcile, for a namespace and a name.
    unfoldable pub reconcile : Text → Text → W → Option (Outcome × W)
    unfolding reconcile_object
    reconcile ns name w =
        let (r, w') = k.get_app_wrapper ns name w in
        elim r [
          | err e ↦ some (ended none, w')
          | ok aw ↦ elim (reconcile_object (record { aw = aw; world = w' })) [
            | none ↦ none
            | some (o, s) ↦ some (o, s.world)
          ]
        ]

  -- Reconcile, with the objects that createComponent renders.
  unfoldable pub reconcile_app_wrapper : Text → Text → W → Option (Outcome × W)
  reconcile_app_wrapper = reconcile (render k)
