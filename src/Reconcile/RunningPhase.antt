-- ===== src/Reconcile/RunningPhase.antt =====
-- The whole case of Reconcile for the phase Running.
use appwrapper.Base.{◌≡◌, ◌≢◌, refl, ◌∙◌, true, false}
use appwrapper.Base.Result.{ok, err}
use appwrapper.Api.{empty, running, suspending, quota_reserved, resources_deployed}
use appwrapper.Cluster.{Kit, Reply}
use appwrapper.Cluster.Laws.{MetaLaws, ClientLaws}
use appwrapper.Exec.{State}
use appwrapper.Exec.Returns.{Returns, returned, bind-Returns, Returns-map, if-Returns}
use appwrapper.Health.{ComponentStatusSummary, get_component_status}
use appwrapper.Pods.{PodStatusSummary, get_pod_status}
use appwrapper.Reconcile.Running.{
  transition_to_phase, judge, after_pods, after_components, reconcile_running,
}
use appwrapper.Reconcile.Invariant.{preempt, flag, Coherent, Step}
use appwrapper.Reconcile.Frame.{Alike-refl, moved_to, transition_lem}
use appwrapper.Reconcile.RunningStep.{stayed, judge-Step}
use appwrapper.Reconcile.Reads.{Readable, get_component_status_lem, get_pod_status_lem}

module _ {W : Type 0} (k : Kit W) (meta : MetaLaws k) (client : ClientLaws k)
    (readable : Readable k) (s : State W) (c : Coherent k s.aw)
    (phase : s.aw.status.phase ≡ running) where
  both_flags : (flag k s.aw quota_reserved ≡ true) × (flag k s.aw resources_deployed ≡ true)
  both_flags = rw phase at c.phase_ok

  not_empty : s.aw.status.phase ≢ empty
  not_empty e = cc

  same_Step : (s' : State W) → s'.aw ≡ s.aw → Step k s.aw s'.aw
  same_Step s' e = rw e (stayed k s.aw s.aw c not_empty (Alike-refl k s.aw) c.phase_ok)

  judged :
      (s' : State W) (cs : ComponentStatusSummary) (ps : PodStatusSummary)
      (active : s.aw.spec.suspend ≡ false)
      → s'.aw ≡ s.aw
      → Returns (judge k s.aw cs ps s') λ o s''. Step k s.aw s''.aw
  judged s' cs ps active e =
      judge-Step k meta client s.aw c phase active both_flags.0 both_flags.1 s.aw cs ps s'
        (rw e (Alike-refl k s.aw))

  judge_pods :
      (r : Reply PodStatusSummary) (s' : State W) (cs : ComponentStatusSummary)
      (active : s.aw.spec.suspend ≡ false)
      → s'.aw ≡ s.aw
      → Returns (after_pods k s.aw cs r s') λ o s''. Step k s.aw s''.aw
  unfolding after_pods
  judge_pods (err e) s' cs active q = returned _ s' (same_Step s' q)
  judge_pods (ok ps) s' cs active q = judged s' cs ps active q

  judge_components :
      (r : Reply ComponentStatusSummary) (s' : State W) (active : s.aw.spec.suspend ≡ false)
      → s'.aw ≡ s.aw
      → Returns (after_components k s.aw r s') λ o s''. Step k s.aw s''.aw
  unfolding after_components
  judge_components (err e) s' active q = returned _ s' (same_Step s' q)
  judge_components (ok cs) s' active q =
      bind-Returns (get_pod_status k s') _ (get_pod_status_lem k s' (rw q (c.statuses not_empty)))
        (λ rp s2 q2. judge_pods rp s2 cs active (q2 ∙ q))

  -- From an AppWrapper in the phase Running for which the invariant holds, and where the objects
  -- of the cluster have the types that the code asserts, under the laws of the condition helpers
  -- and of the client, Reconcile returns without a panic whatever the cluster answers, the phase
  -- has moved along an edge of the state machine or stayed, and the invariant holds again of the
  -- AppWrapper in memory.
  pub reconcile_running-Step : Returns (reconcile_running k s) λ o s'. Step k s.aw s'.aw
  unfolding reconcile_running
  reconcile_running-Step =
      if-Returns s.aw.spec.suspend (transition_to_phase k s.aw suspending) _ s
        (λ p. Returns-map (transition_lem k client s.aw suspending s) (λ o s' e. rw e (
          moved_to k s.aw s.aw suspending c not_empty (Alike-refl k s.aw) (preempt p phase refl)
            both_flags.0)))
        (λ p.
          bind-Returns (get_component_status k s) (after_components k s.aw)
            (get_component_status_lem k readable s) (λ rc s1 q. judge_components rc s1 p q))
