-- ===== src/Reconcile/Resume.antt =====
-- Reconcile in the phase Resuming.
use appwrapper.Base.{
  ◌≡◌, ◌≢◌, ap, refl, sym, ◌∙◌, ℕ, Bool, true, false, Option, none, some, arith, if◌then◌else◌, [],
  ◌∷◌, pos, ◌*◌,
}
use appwrapper.Base.Json.{Fields}
use appwrapper.Base.Result.{Result}
use appwrapper.Config.{second}
use appwrapper.Api.{
  AppWrapper, empty, resuming, running, failed, suspending, quota_reserved, resources_deployed,
  Message, lit, cause,
}
use appwrapper.Cluster.{Kit, Error}
use appwrapper.Cluster.Laws.{MetaLaws, ClientLaws}
use appwrapper.Exec.{State, pure}
use appwrapper.Exec.Returns.{Returns, returned, bind-Returns, Returns-map, if-Returns}
use appwrapper.Components.Create.{Failure, create_components}
use appwrapper.Components.Create.All.{SameButComponents, Renders, create_components_lem}
use appwrapper.Reconcile.{
  report_create_failure, create_failed, after_components_created, reconcile_resuming,
}
use appwrapper.Reconcile.Running.{requeue, report_unhealthy, transition_to_phase, reset_or_fail}
use appwrapper.Reconcile.Invariant.{
  start, abort, retry_create, give_up_create, flag, Coherent, Step, flag_found,
}
use appwrapper.Reconcile.Frame.{
  Alike, Alike-refl, Alike-trans, moved_to, transition_lem, reset_or_fail_lem,
}
use appwrapper.Reconcile.RunningStep.{stayed, reset_Step, Marked, report_lem}

module _ {W : Type 0} (k : Kit W) where
  SameButComponents-Alike : (aw aw' : AppWrapper) → SameButComponents aw aw' → Alike k aw aw'
  SameButComponents-Alike aw aw' p = record {
    metadata_eq = p.metadata_eq;
    spec_eq = p.spec_eq;
    phase_eq = p.phase_eq;
    length_eq = p.length_eq;
    quota_eq = ap (λ cs. k.is_status_condition_true cs quota_reserved) p.conditions_eq;
    deployed_eq = ap (λ cs. k.is_status_condition_true cs resources_deployed) p.conditions_eq;
  }

module _ {W : Type 0} (k : Kit W) (meta : MetaLaws k) (client : ClientLaws k) (aw : AppWrapper)
    (c : Coherent k aw) (phase : aw.status.phase ≡ resuming) (active : aw.spec.suspend ≡ false)
    (held : (flag k aw quota_reserved ≡ true) × (flag k aw resources_deployed ≡ true)) where
  not_empty : aw.status.phase ≢ empty
  not_empty e = cc

  move_on :
      (orig : AppWrapper) (fatal : Bool) (s : State W)
      → Marked k meta client aw s.aw
      → Returns
          ((if fatal then transition_to_phase k orig failed else reset_or_fail k orig false (pos 1))
            s)
          λ o s'. Step k aw s'.aw
  move_on orig true s m = Returns-map (transition_lem k client orig failed s) (λ o s' e. rw e (
      moved_to k aw s.aw failed c not_empty m.alike (give_up_create active phase refl)
        (m.alike.quota_eq ∙ held.0 ∙ sym (m.alike.deployed_eq ∙ held.1))))
  move_on orig false s m = Returns-map (reset_or_fail_lem k client orig false (pos 1) s) (λ o s' e.
      rw e (
        reset_Step k aw s.aw false (pos 1) c not_empty m.alike m.found held.0 held.1
          (retry_create active phase refl) (give_up_create active phase refl)))

  report-Step :
      (orig : AppWrapper) (fatal : Bool) (s : State W)
      → Alike k aw s.aw
      → Returns (report_create_failure k orig fatal s) λ o s'. Step k aw s'.aw
  unfolding report_create_failure
  report-Step orig fatal s a =
      let msg : Message = lit "error creating components: " ∷ cause ∷ [] in
      bind-Returns (report_unhealthy k "CreateFailed" (lit "CreateFailed: " ∷ []) msg s) _
        (report_lem k meta client "CreateFailed" (lit "CreateFailed: " ∷ []) msg s)
        (λ _ s1 x.
          move_on orig fatal s1
            (record { alike = Alike-trans k aw s.aw s1.aw a x.alike; found = x.found }))

  patient :
      (orig : AppWrapper) (waits : Bool) (s : State W)
      → Alike k aw s.aw
      → Returns
          ((if waits
              then pure (requeue (pos (1 * second)) none)
              else report_create_failure k orig false)
            s)
          λ o s'. Step k aw s'.aw
  patient orig true s a =
      returned _ s
        (stayed k aw s.aw c not_empty a (rw phase (a.quota_eq ∙ held.0, a.deployed_eq ∙ held.1)))
  patient orig false s a = report-Step orig false s a

  create_failed-Step :
      (fatal : Bool) (s : State W)
      → Alike k aw s.aw
      → Returns (create_failed k s.aw fatal s) λ o s'. Step k aw s'.aw
  unfolding create_failed
  create_failed-Step true s a = report-Step s.aw true s a
  create_failed-Step false s a =
      let (started, e) = flag_found k meta s.aw resources_deployed (a.deployed_eq ∙ held.1) in
      rw e (patient s.aw _ (record s { world = (k.now s.world).1 }) a)

  after_create-Step :
      (f : Failure) (s : State W)
      → Alike k aw s.aw
      → Returns (after_components_created k f s) λ o s'. Step k aw s'.aw
  unfolding after_components_created
  after_create-Step none s a = Returns-map (transition_lem k client s.aw running s) (λ o s' e.
      rw e (
        moved_to k aw s.aw running c not_empty a (start active phase refl)
          (a.quota_eq ∙ held.0, a.deployed_eq ∙ held.1)))
  after_create-Step (some (e, fatal)) s a = create_failed-Step fatal s a

module _ {W : Type 0} (k : Kit W) (meta : MetaLaws k) (client : ClientLaws k)
    (render : AppWrapper → ℕ → Option (Result Error Fields)) where
  -- From an AppWrapper in the phase Resuming for which the invariant holds, and whose components
  -- are rendered without a panic, under the laws of the condition helpers and of the client:
  -- Reconcile returns, the phase has moved along an edge of the state machine or stayed, and the
  -- invariant holds again of the AppWrapper in memory.
  pub reconcile_resuming-Step :
      (s : State W)
      → Coherent k s.aw
      → s.aw.status.phase ≡ resuming
      → Renders render s.aw
      → Returns (reconcile_resuming k render s) λ o s'. Step k s.aw s'.aw
  unfolding reconcile_resuming after_components_created
  reconcile_resuming-Step s c phase total =
      let held : (flag k s.aw quota_reserved ≡ true) × (flag k s.aw resources_deployed ≡ true) =
        (rw phase at c.phase_ok) in
      if-Returns s.aw.spec.suspend (transition_to_phase k s.aw suspending) _ s
        (λ p. Returns-map (transition_lem k client s.aw suspending s) (λ o s' e. rw e (
          moved_to k s.aw s.aw suspending c (λ x. cc) (Alike-refl k s.aw) (abort p phase refl)
            held.0)))
        (λ p.
          bind-Returns (create_components k render s) (after_components_created k)
            (create_components_lem k meta client render s total
              (let h = c.statuses (λ x. cc) in omega arith))
            (λ f s1 q.
              after_create-Step k meta client s.aw c phase p held f s1
                (SameButComponents-Alike k s.aw s1.aw q.same)))
