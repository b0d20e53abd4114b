-- ===== src/Reconcile/RunningStep.antt =====
-- Reconcile in the phase Running.
use appwrapper.Base.{
  ℤ, pos, ◌≡◌, ◌≢◌, refl, sym, ◌∙◌, Bool, true, false, ◌&&◌, not, [], ◌∷◌, String, if◌then◌else◌,
  Bool-cases, inl, inr, int32, ltb_ℤ, eqb_ℤ, ◌+ℤ◌, is_nil, ◌*◌,
}
use appwrapper.Config.{minute}
use appwrapper.Api.{
  AppWrapper, empty, running, resetting, failed, succeeded, condition_true, quota_reserved,
  resources_deployed, unhealthy, pods_ready, Message, lit, num, names,
}
use appwrapper.Cluster.{Kit}
use appwrapper.Cluster.Laws.{MetaLaws, ClientLaws}
use appwrapper.Exec.{State, ◌>>◌, new_condition, with_status, set_condition, record_event}
use appwrapper.Exec.Returns.{Returns, returned, bind-Returns, Returns-map}
use appwrapper.Durations.{retry_limit}
use appwrapper.Components.{clear_condition}
use appwrapper.Health.{ComponentStatusSummary}
use appwrapper.Pods.{PodStatusSummary}
use appwrapper.Reconcile.Running.{
  transition_to_phase, reset_or_fail, patch_and_requeue, report_unhealthy, complete,
  handle_failed_pods, await_ready, wait_for_pods, pods_message, five_seconds, stay_healthy, judge,
  all_succeeded,
}
use appwrapper.Reconcile.Invariant.{
  Edge, reset, give_up, succeed, stay, flag, Found, PhaseOk, Coherent, Step, flag_set, flag_found,
}
use appwrapper.Reconcile.Frame.{
  Alike, Alike-trans, moved_to, set_Alike, clear_Alike, reset_result, requeue_lem, transition_lem,
  reset_or_fail_lem,
}

module _ {W : Type 0} (k : Kit W) where
  pub stayed :
      (aw aw' : AppWrapper)
      → Coherent k aw
      → aw.status.phase ≢ empty
      → Alike k aw aw'
      → PhaseOk k aw' aw.status.phase
      → Step k aw aw'
  stayed aw aw' c n a o = record {
    edge = stay a.phase_eq;
    coherent = record {
      phase_ok = rw a.phase_eq o;
      statuses = λ _. rw (a.spec_eq, a.length_eq) (c.statuses n);
      guarded = λ d. rw a.metadata_eq (c.guarded (sym a.deployed_eq ∙ d));
    };
  }

  -- resetOrFail keeps the invariant when Unhealthy has been set and the quota is reserved.
  pub reset_Step :
      (aw aw' : AppWrapper) (terminal : Bool) (increment : ℤ)
      → Coherent k aw
      → aw.status.phase ≢ empty
      → Alike k aw aw'
      → Found k aw' unhealthy
      → flag k aw quota_reserved ≡ true
      → flag k aw resources_deployed ≡ true
      → Edge aw.spec.suspend aw.status.phase resetting
      → Edge aw.spec.suspend aw.status.phase failed
      → Step k aw (reset_result k terminal increment aw')
  reset_Step aw aw' terminal increment c n a u q d er ef =
      elim (Bool-cases (not terminal && ltb_ℤ aw'.status.retries (retry_limit k aw'))) [
        | inl p ↦ rw p (
            moved_to k aw
              (with_status aw'
                (record aw'.status { retries = int32 (aw'.status.retries +ℤ increment) }))
              resetting c n
              (record {
                metadata_eq = a.metadata_eq;
                spec_eq = a.spec_eq;
                phase_eq = a.phase_eq;
                length_eq = a.length_eq;
                quota_eq = a.quota_eq;
                deployed_eq = a.deployed_eq;
              })
              er (a.quota_eq ∙ q, u, rw a.metadata_eq (c.guarded d)))
        | inr p ↦
            rw p (moved_to k aw aw' failed c n a ef (a.quota_eq ∙ q ∙ sym (a.deployed_eq ∙ d)))
      ]

module _ {W : Type 0} (k : Kit W) (meta : MetaLaws k) (client : ClientLaws k) where
  -- The AppWrapper as a run has changed it so far, with Unhealthy set.
  pub record Marked (aw aw' : AppWrapper) : Type 0 where
    pub alike : Alike k aw aw'
    pub found : Found k aw' unhealthy

  pub report_lem :
      (r : String) (p m : Message) (s : State W)
      → Returns (report_unhealthy k r p m s) λ _ s'. Marked s.aw s'.aw
  unfolding report_unhealthy
  report_lem r p m s = returned tt _ (record {
    alike = set_Alike k meta (k.now s.world).0 s.aw unhealthy condition_true r m refl refl;
    found = (_, meta.find_set (k.now s.world).0 s.aw.status.conditions _ unhealthy);
  })

  -- The AppWrapper that the run began with, in the phase Running.
  module _ (aw : AppWrapper) (c : Coherent k aw) (phase : aw.status.phase ≡ running)
      (active : aw.spec.suspend ≡ false) (q : flag k aw quota_reserved ≡ true)
      (d : flag k aw resources_deployed ≡ true) where
    not_empty : aw.status.phase ≢ empty
    not_empty e = cc

    reset_running :
        (orig : AppWrapper) (terminal : Bool) (increment : ℤ) (s : State W)
        → Marked aw s.aw
        → Returns (reset_or_fail k orig terminal increment s) λ o s'. Step k aw s'.aw
    reset_running orig terminal increment s m =
        Returns-map (reset_or_fail_lem k client orig terminal increment s) (λ o s' e. rw e (
          reset_Step k aw s.aw terminal increment c not_empty m.alike m.found q d
            (reset active phase refl) (give_up active phase refl)))

    stay_running : (s : State W) → Alike k aw s.aw → Step k aw s.aw
    stay_running s a = stayed k aw s.aw c not_empty a (rw phase (a.quota_eq ∙ q, a.deployed_eq ∙ d))

    requeue_running :
        (orig : AppWrapper) (t : ℤ) (s : State W)
        → Alike k aw s.aw
        → Returns (patch_and_requeue k orig t s) λ o s'. Step k aw s'.aw
    requeue_running orig t s a =
        Returns-map (requeue_lem k client orig t s) (λ o s' e. rw e (stay_running s a))

    report_reset :
        (orig : AppWrapper) (terminal : Bool) (increment : ℤ) (r : String) (p m : Message)
        (s : State W)
        → Alike k aw s.aw
        → Returns
            ((report_unhealthy k r p m >> reset_or_fail k orig terminal increment) s)
            λ o s'. Step k aw s'.aw
    report_reset orig terminal increment r p m s a =
        bind-Returns (report_unhealthy k r p m s) (λ _. reset_or_fail k orig terminal increment)
          (report_lem r p m s)
          (λ _ s1 x.
            reset_running orig terminal increment s1
              (record { alike = Alike-trans k aw s.aw s1.aw a x.alike; found = x.found }))

    report_fail :
        (orig : AppWrapper) (r : String) (p m : Message) (s : State W)
        → Alike k aw s.aw
        → Returns
            ((report_unhealthy k r p m >> transition_to_phase k orig failed) s)
            λ o s'. Step k aw s'.aw
    report_fail orig r p m s a =
        bind-Returns (report_unhealthy k r p m s) (λ _. transition_to_phase k orig failed)
          (report_lem r p m s)
          (λ _ s1 x. Returns-map (transition_lem k client orig failed s1) (λ o s' e. rw e (
            moved_to k aw s1.aw failed c not_empty (Alike-trans k aw s.aw s1.aw a x.alike)
              (give_up active phase refl)
              (x.alike.quota_eq ∙ a.quota_eq ∙ q ∙ sym (x.alike.deployed_eq ∙ a.deployed_eq ∙ d)))))

    complete-Step :
        (orig : AppWrapper) (ps : PodStatusSummary) (s : State W)
        → Alike k aw s.aw
        → Returns (complete k orig ps s) λ o s'. Step k aw s'.aw
    unfolding complete
    complete-Step orig ps s a = Returns-map (transition_lem k client orig succeeded _) (λ o s' e.
        rw e (record {
          edge = succeed active phase refl;
          coherent = record {
            phase_ok = simp (flag_set k meta);
            statuses = λ _. rw (a.spec_eq, a.length_eq) (c.statuses not_empty);
            guarded = λ _. rw a.metadata_eq (c.guarded d);
          };
        }))

    -- Wait, or tell of the failed pods and reset.
    wait_or_reset :
        (b : Bool) (orig : AppWrapper) (t : ℤ) (r : String) (m : Message) (terminal : Bool)
        (s : State W)
        → Marked aw s.aw
        → Returns
            ((if b
                then patch_and_requeue k orig t
                else record_event k r m >> reset_or_fail k orig terminal (pos 1))
              s)
            λ o s'. Step k aw s'.aw
    wait_or_reset true orig t r m terminal s x = requeue_running orig t s x.alike
    wait_or_reset false orig t r m terminal s x =
        reset_running orig terminal (pos 1) (record s { world = k.event s.aw r m s.world })
          (record { alike = x.alike; found = x.found })

    failed_pods-Step :
        (orig : AppWrapper) (ps : PodStatusSummary) (s : State W)
        → Alike k aw s.aw
        → Returns (handle_failed_pods k orig ps s) λ o s'. Step k aw s'.aw
    unfolding handle_failed_pods
    failed_pods-Step orig ps s a =
        let (n, w) = k.now s.world in
        let found =
          meta.find_set n s.aw.status.conditions
            (new_condition unhealthy condition_true "FoundFailedPods" []) unhealthy in
        rw (found, handle_failed_pods)
          (wait_or_reset _ orig _ _ _ ps.terminal_failure _ (record {
            alike =
                Alike-trans k aw s.aw _ a
                  (set_Alike k meta n s.aw unhealthy condition_true "FoundFailedPods" [] refl refl);
            found = (_, found);
          }))

    -- Wait, or report that the pods are not ready and reset.
    wait_or_report :
        (b : Bool) (orig : AppWrapper) (r : String) (p m : Message) (terminal : Bool) (s : State W)
        → Alike k aw s.aw
        → Returns
            ((if b
                then patch_and_requeue k orig five_seconds
                else report_unhealthy k r p m >> reset_or_fail k orig terminal (pos 1))
              s)
            λ o s'. Step k aw s'.aw
    wait_or_report true orig r p m terminal s a = requeue_running orig five_seconds s a
    wait_or_report false orig r p m terminal s a = report_reset orig terminal (pos 1) r p m s a

    await_pods :
        (orig : AppWrapper) (ps : PodStatusSummary) (s : State W)
        → Alike k aw s.aw
        → Returns (await_ready k orig ps s) λ o s'. Step k aw s'.aw
    unfolding await_ready
    await_pods orig ps s a =
        let (x, e) = flag_found k meta s.aw resources_deployed (a.deployed_eq ∙ d) in
        rw (e, await_ready)
          (wait_or_report _ orig "InsufficientPodsReady" (lit "InsufficientPodsReady: " ∷ [])
            (pods_message k ps) ps.terminal_failure (record s { world = (k.now s.world).1 })
            (record {
              metadata_eq = a.metadata_eq;
              spec_eq = a.spec_eq;
              phase_eq = a.phase_eq;
              length_eq = a.length_eq;
              quota_eq = a.quota_eq;
              deployed_eq = a.deployed_eq;
            }))

    wait-Step :
        (orig : AppWrapper) (ps : PodStatusSummary) (s : State W)
        → Alike k aw s.aw
        → Returns (wait_for_pods k orig ps s) λ o s'. Step k aw s'.aw
    unfolding wait_for_pods
    wait-Step orig ps s a =
        bind-Returns (clear_condition k pods_ready "InsufficientPodsReady" (pods_message k ps) s)
          (λ _. await_ready k orig ps)
          (clear_Alike k meta pods_ready "InsufficientPodsReady" (pods_message k ps) s refl refl)
          (λ _ s1 x. await_pods orig ps s1 (Alike-trans k aw s.aw s1.aw a x))

    ready_or_wait :
        (b : Bool) (orig : AppWrapper) (m : Message) (ps : PodStatusSummary) (s : State W)
        → Alike k aw s.aw
        → Returns
            ((if b
                then set_condition k pods_ready condition_true "SufficientPodsReady" m
                  >> patch_and_requeue k orig (pos (1 * minute))
                else wait_for_pods k orig ps)
              s)
            λ o s'. Step k aw s'.aw
    ready_or_wait true orig m ps s a = requeue_running orig (pos (1 * minute)) _ (
        Alike-trans k aw s.aw _ a (
          set_Alike k meta (k.now s.world).0 s.aw pods_ready condition_true "SufficientPodsReady" m
            refl refl))
    ready_or_wait false orig m ps s a = wait-Step orig ps s a

    healthy-Step :
        (orig : AppWrapper) (ps : PodStatusSummary) (s : State W)
        → Alike k aw s.aw
        → Returns (stay_healthy k orig ps s) λ o s'. Step k aw s'.aw
    unfolding stay_healthy
    healthy-Step orig ps s a =
        bind-Returns (clear_condition k unhealthy "FoundNoFailedPods" [] s) _
          (clear_Alike k meta unhealthy "FoundNoFailedPods" [] s refl refl)
          (λ _ s1 x.
            ready_or_wait _ orig
              (num ps.running
                ∷ lit " pods running; "
                ∷ num ps.succeeded
                ∷ lit " pods succeeded"
                ∷ [])
              ps s1 (Alike-trans k aw s.aw s1.aw a x))

    pub judge-Step :
        (orig : AppWrapper) (cs : ComponentStatusSummary) (ps : PodStatusSummary) (s : State W)
        → Alike k aw s.aw
        → Returns (judge k orig cs ps s) λ o s'. Step k aw s'.aw
    unfolding judge
    judge-Step orig cs ps s a = elim (Bool-cases (not (eqb_ℤ cs.deployed cs.expected))) [
      | inl p1 ↦
          rw (p1, judge)
            (report_fail orig "MissingComponent" (lit "MissingComponent: " ∷ [])
              (lit "Only found "
                ∷ num cs.deployed
                ∷ lit " deployed components, but was expecting "
                ∷ num cs.expected
                ∷ [])
              s a)
      | inr p1 ↦ elim (Bool-cases (ltb_ℤ (pos 0) cs.failed)) [
        | inl p2 ↦
            rw (p1, judge, p2)
              (report_reset orig ps.terminal_failure (pos 1) "FailedComponent"
                (lit "FailedComponent: " ∷ [])
                (lit "Found " ∷ num cs.failed ∷ lit " failed components" ∷ []) s a)
        | inr p2 ↦ elim (Bool-cases (all_succeeded k ps)) [
          | inl p3 ↦ rw (p1, judge, p2, p3) (complete-Step orig ps s a)
          | inr p3 ↦ elim (Bool-cases (ltb_ℤ (pos 0) ps.failed)) [
            | inl p4 ↦ rw (p1, judge, p2, p3, p4) (failed_pods-Step orig ps s a)
            | inr p4 ↦ elim (Bool-cases (not (is_nil ps.no_execute_nodes))) [
              | inl p5 ↦
                  rw (p1, judge, p2, p3, p4, p5)
                    (report_reset orig false (pos 0) "AutopilotNoExecute" []
                      (lit "Workload contains pods using NoExecute resources on Nodes: "
                        ∷ names ps.no_execute_nodes
                        ∷ [])
                      s a)
              | inr p5 ↦ rw (p1, judge, p2, p3, p4, p5) (healthy-Step orig ps s a)
            ]
          ]
        ]
      ]
    ]
