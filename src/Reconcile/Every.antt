-- ===== src/Reconcile/Every.antt =====
-- Reconcile in all phases together, on an AppWrapper that is not being deleted.
use appwrapper.Base.{ℤ, arith, ◌≡◌, refl, ℕ, true, Option, none}
use appwrapper.Base.Json.{Fields}
use appwrapper.Base.Result.{Result}
use appwrapper.Api.{
  AppWrapper, Phase, empty, suspended, resuming, running, resetting, suspending, succeeded, failed,
  terminating,
}
use appwrapper.Cluster.{Kit, Error}
use appwrapper.Cluster.Laws.{MetaLaws, FinalizerLaws, ClientLaws}
use appwrapper.Exec.{State, pure}
use appwrapper.Exec.Returns.{Returns, Returns-map, returned, if-Returns}
use appwrapper.Pods.{is_set}
use appwrapper.Components.Create.All.{Renders}
use appwrapper.Reconcile.{reconcile_deletion, reconcile_phase, reconcile_object, managed_here}
use appwrapper.Reconcile.Running.{ended}
use appwrapper.Reconcile.Invariant.{stay, Coherent, Step}
use appwrapper.Reconcile.Reads.{Readable}
use appwrapper.Reconcile.RunningPhase.{reconcile_running-Step}
use appwrapper.Reconcile.Down.{reconcile_suspending-Step}
use appwrapper.Reconcile.Reset.{reconcile_resetting-Step}
use appwrapper.Reconcile.Finished.{reconcile_failed-Step, reconcile_succeeded-Step}
use appwrapper.Reconcile.Start.{reconcile_empty-Step, reconcile_suspended-Step}
use appwrapper.Reconcile.Resume.{reconcile_resuming-Step}

not_set : (o : Option ℤ) → o ≡ none → is_set o ≡ true → ⊥
not_set o h p = ground arith

module _ {W : Type 0} (k : Kit W) (meta : MetaLaws k) (fin : FinalizerLaws k)
    (client : ClientLaws k) (readable : Readable k)
    (render : AppWrapper → ℕ → Option (Result Error Fields)) where
  phase-Step :
      (s : State W) (p : Phase)
      → Coherent k s.aw
      → s.aw.status.phase ≡ p
      → (p ≡ resuming → Renders render s.aw)
      → Returns (reconcile_phase k render p s) λ o s'. Step k s.aw s'.aw
  unfolding reconcile_phase
  phase-Step s empty c h r = Returns-map (reconcile_empty-Step k client s c h) (λ o s' p. p.0)
  phase-Step s suspended c h r = reconcile_suspended-Step k meta fin client s c h
  phase-Step s resuming c h r = reconcile_resuming-Step k meta client render s c h (r refl)
  phase-Step s running c h r = reconcile_running-Step k meta client readable s c h
  phase-Step s suspending c h r =
      Returns-map (reconcile_suspending-Step k meta client s c h) (λ o s' p. p.step)
  phase-Step s resetting c h r =
      Returns-map (reconcile_resetting-Step k meta client s c h) (λ o s' p. p.step)
  phase-Step s failed c h r = reconcile_failed-Step k meta client s c h
  phase-Step s succeeded c h r =
      Returns-map (reconcile_succeeded-Step k meta client s c h) (λ o s' p. p.0)
  phase-Step s terminating c h r =
      returned (ended none) s (record { edge = stay refl; coherent = c })

  -- From an AppWrapper that is not being deleted and for which the invariant holds, under the
  -- laws of the condition helpers, the finalizers and the client, where reading the status of a
  -- wrapped object does not panic, and in the phase Resuming its components are rendered without
  -- a panic: Reconcile returns without a panic whatever the cluster answers, the phase has moved
  -- along an edge of the state machine or stayed, and the invariant holds again of the AppWrapper
  -- in memory.
  pub reconcile_object-Step :
      (s : State W)
      → Coherent k s.aw
      → s.aw.metadata.deletion_timestamp ≡ none
      → (s.aw.status.phase ≡ resuming → Renders render s.aw)
      → Returns (reconcile_object k render s) λ o s'. Step k s.aw s'.aw
  unfolding reconcile_object
  reconcile_object-Step s c alive r =
      if-Returns (managed_here k render s.aw.spec.managed_by) _ (pure (ended none)) s
        (λ _.
          if-Returns (is_set s.aw.metadata.deletion_timestamp) (reconcile_deletion k)
            (reconcile_phase k render s.aw.status.phase) s
            (λ p. absurd (not_set s.aw.metadata.deletion_timestamp alive p))
            (λ _. phase-Step s s.aw.status.phase c refl r))
        (λ _. returned (ended none) s (record { edge = stay refl; coherent = c }))
