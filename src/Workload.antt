-- ===== src/Workload.antt =====
-- internal/controller/workload/workload_controller.go: the AppWrapper as a job of Kueue, which asks
-- for its pod sets, starts it, suspends it and asks whether it is done.
pub mod Reachable
pub mod Counts
use appwrapper.Base.{Bool, true, false, Option, none, some, List, [], ◌∷◌, if◌then◌else◌, String}
use appwrapper.Api.{
  AppWrapper, Phase, succeeded, failed, PodSetInfo, quota_reserved, resources_deployed, pods_ready,
}
use appwrapper.Base.Result.{ok, err}
use appwrapper.Cluster.{Kit, Library, Error, Reply}
use appwrapper.PodSets.Kueue.{KueuePodSet, get_pod_sets}
use appwrapper.PodSets.{set_pod_set_infos, clear_pod_set_infos}

abbrev pub with_suspend : Bool → AppWrapper → AppWrapper
with_suspend b aw = record aw { spec = record aw.spec { suspend = b } }

abbrev pub is_suspended : AppWrapper → Bool
is_suspended aw = aw.spec.suspend

-- Suspend
abbrev pub suspend : AppWrapper → AppWrapper
suspend aw = with_suspend true aw

-- The message, and the values `success` and `finished`.
pub record Finish : Type 0 where
  pub message : String
  pub success : Bool
  pub finished : Bool

abbrev finish : String → Bool → Bool → Finish
finish m s f = record { message = m; success = s; finished = f }

abbrev when_stored : AppWrapper × Option Error → AppWrapper × Option Error
when_stored (aw, some e) = (aw, some e)
when_stored (aw, none) = (with_suspend false aw, none)

-- The loop over the pod sets.
abbrev with_topology : Library → List KueuePodSet → List KueuePodSet
with_topology l [] = []
with_topology l (ps ∷ pss) =
    record ps { topology_request = l.topology_request ps.template.annotations }
    ∷ with_topology l pss

abbrev or_nothing : Library → Reply (List KueuePodSet) → List KueuePodSet
or_nothing l (err e) = []
or_nothing l (ok pss) = with_topology l pss

-- PodSets, with the AppWrapper that it may have initialised.
unfoldable pub pod_sets : Library → AppWrapper → Option (List KueuePodSet × AppWrapper)
pod_sets l aw = elim (get_pod_sets l aw) [
  | none ↦ none
  | some (r, aw') ↦ some (or_nothing l r, aw')
]

unfoldable pub run_with_pod_sets_info :
    Library → AppWrapper → List PodSetInfo → Option (AppWrapper × Option Error)
run_with_pod_sets_info l aw infos = elim (set_pod_set_infos l aw infos) [
  | none ↦ none
  | some r ↦ some (when_stored r)
]

abbrev pub restore_pod_sets_info : AppWrapper → AppWrapper × Bool
restore_pod_sets_info aw = clear_pod_set_infos aw

module _ {W : Type 0} (k : Kit W) where
  abbrev pub is_active : AppWrapper → Bool
  is_active aw = k.is_status_condition_true aw.status.conditions quota_reserved

  abbrev pub is_pods_ready : AppWrapper → Bool
  is_pods_ready aw = k.is_status_condition_true aw.status.conditions pods_ready

  abbrev finished_in : AppWrapper → Phase → Finish
  finished_in aw succeeded = finish "AppWrapper finished successfully" true true
  finished_in aw failed =
      if k.is_status_condition_true aw.status.conditions resources_deployed
      then finish "Still deleting resources for failed AppWrapper" false false
      else finish "AppWrapper failed" false true
  finished_in aw _ = finish "" false false

  -- Finished
  unfoldable pub finished : AppWrapper → Finish
  finished aw = finished_in aw aw.status.phase
