-- ===== src/Tests/Runs.antt =====
-- Runs of Reconcile on the small cluster.
use appwrapper.Base.{pos, ◌≡◌, ◌⊎◌, length, some, refl, true, false, arith}
use appwrapper.Base.Text.{text_eq_refl}
use appwrapper.Api.{
  empty, suspended, running, resetting, suspending, failed, succeeded, app_wrapper_finalizer,
}
use appwrapper.Base.Result.{err}
use appwrapper.Cluster.{Error}
use appwrapper.PodSets.{ensure_component_status_initialized}
use appwrapper.Exec.Returns.{Returns}
use appwrapper.Components.{delete_components}
use appwrapper.Components.Deleted.{Deletion, delete_components_lem}
use appwrapper.Reconcile.{
  ended, reconcile_empty, reconcile_suspended, reconcile_running, reset_or_fail,
  reconcile_suspending, reconcile_resetting, reconcile_failed, reconcile_succeeded,
  reconcile_deletion,
}
use appwrapper.Components.ListError.{answering, delete_components-answering}
use appwrapper.Reconcile.Invariant.{Step}
use appwrapper.Reconcile.Frame.{reset_result, reset_or_fail_lem}
use appwrapper.Reconcile.RunningPhase.{reconcile_running-Step}
use appwrapper.Reconcile.Down.{Suspends, reconcile_suspending-Step}
use appwrapper.Reconcile.Reset.{Resets, reconcile_resetting-Step}
use appwrapper.Reconcile.Finished.{reconcile_failed-Step, reconcile_succeeded-Step}
use appwrapper.Reconcile.Start.{reconcile_empty-Step, reconcile_suspended-Step}
use appwrapper.Reconcile.Deletion.{Ends, reconcile_deletion_lem}
use appwrapper.Tests.World.{
  kit, failing_kit, kit_meta, kit_finalizers, kit_client, kit-Readable, at_phase, coherent, holds,
}

reconcile_running-Step_example :
    Returns
      (reconcile_running kit (at_phase running true true))
      λ o s'. Step kit (at_phase running true true).aw s'.aw
reconcile_running-Step_example =
    reconcile_running-Step kit kit_meta kit_client kit-Readable (at_phase running true true)
      (coherent running true true (refl, refl)) refl

reconcile_resetting-Step_example :
    Returns
      (reconcile_resetting kit (at_phase resetting true true))
      λ o s'. Resets kit (at_phase resetting true true).aw s'.aw
unfolding holds
reconcile_resetting-Step_example =
    reconcile_resetting-Step kit kit_meta kit_client (at_phase resetting true true)
      (coherent resetting true true (refl, (_, refl), rw (text_eq_refl app_wrapper_finalizer) refl))
      refl

reconcile_suspending-Step_example :
    Returns
      (reconcile_suspending kit (at_phase suspending true true))
      λ o s'. Suspends kit (at_phase suspending true true).aw s'.aw
reconcile_suspending-Step_example =
    reconcile_suspending-Step kit kit_meta kit_client (at_phase suspending true true)
      (coherent suspending true true refl) refl

reconcile_suspended-Step_example :
    Returns
      (reconcile_suspended kit (at_phase suspended false false))
      λ o s'. Step kit (at_phase suspended false false).aw s'.aw
reconcile_suspended-Step_example =
    reconcile_suspended-Step kit kit_meta kit_finalizers kit_client (at_phase suspended false false)
      (coherent suspended false false (refl, refl)) refl

reconcile_empty-Step_example : Returns (reconcile_empty kit (at_phase empty false false)) λ o s'.
    Step kit (at_phase empty false false).aw s'.aw
    × (((s'.aw.status.phase ≡ suspended)
          × (length s'.aw.status.component_status ≡ length s'.aw.spec.components))
        ⊎ ((e : Error) × (ensure_component_status_initialized kit.lib
                (at_phase empty false false).aw
              ≡ err e)
            × (o ≡ ended (some e))
            × (s'.aw ≡ (at_phase empty false false).aw)))
reconcile_empty-Step_example =
    reconcile_empty-Step kit kit_client (at_phase empty false false)
      (coherent empty false false (refl, refl)) refl

reconcile_failed-Step_example :
    Returns
      (reconcile_failed kit (at_phase failed true true))
      λ o s'. Step kit (at_phase failed true true).aw s'.aw
reconcile_failed-Step_example =
    reconcile_failed-Step kit kit_meta kit_client (at_phase failed true true)
      (coherent failed true true refl) refl

reconcile_succeeded-Step_example :
    Returns
      (reconcile_succeeded kit (at_phase succeeded false true))
      λ o s'. Step kit (at_phase succeeded false true).aw s'.aw × (s'.aw.status.phase ≡ succeeded)
reconcile_succeeded-Step_example =
    reconcile_succeeded-Step kit kit_meta kit_client (at_phase succeeded false true)
      (coherent succeeded false true refl) refl

reconcile_deletion_lem_example :
    Returns
      (reconcile_deletion kit (at_phase running true true))
      λ o s'. Ends kit (at_phase running true true).aw s'.aw
reconcile_deletion_lem_example =
    reconcile_deletion_lem kit kit_meta kit_client (at_phase running true true) refl

delete_components_lem_example :
    Returns
      (delete_components kit (at_phase running true true))
      (Deletion kit kit_meta (at_phase running true true))
delete_components_lem_example =
    delete_components_lem kit kit_meta (at_phase running true true) (omega arith)

delete_components-answering_example :
    delete_components (answering failing_kit) (at_phase suspending true true)
    ≡ delete_components failing_kit (at_phase suspending true true)
delete_components-answering_example =
    delete_components-answering failing_kit (at_phase suspending true true)

reset_or_fail_lem_example :
    Returns
      (reset_or_fail kit (at_phase running true true).aw false (pos 1) (at_phase running true true))
      λ o s'. s'.aw ≡ reset_result kit false (pos 1) (at_phase running true true).aw
reset_or_fail_lem_example =
    reset_or_fail_lem kit kit_client (at_phase running true true).aw false (pos 1)
      (at_phase running true true)
