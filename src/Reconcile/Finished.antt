-- ===== src/Reconcile/Finished.antt =====
-- Reconcile in the phases Failed and Succeeded.
use appwrapper.Base.{
  ◌≡◌, refl, sym, ◌∙◌, Bool, true, false, ◌&&◌, not, none, arith, if◌then◌else◌, String, ℤ, pos,
  ltb_ℤ, [], ◌∷◌,
}
use appwrapper.Api.{
  AppWrapper, Phase, failed, succeeded, condition_false, quota_reserved, resources_deployed,
  unhealthy, deleting_resources, Message, lit, num, text,
  deletion_on_failure_grace_period_annotation,
}
use appwrapper.Cluster.{Kit}
use appwrapper.Cluster.Laws.{MetaLaws, ClientLaws}
use appwrapper.Exec.{State, ◌>>=◌, ◌>>◌, pure, patch, set_condition, new_condition, with_conditions}
use appwrapper.Exec.Returns.{Returns, returned, bind-Returns, Returns-map, if-Returns}
use appwrapper.Durations.{deletion_on_failure_grace_duration}
use appwrapper.Components.{delete_components}
use appwrapper.Components.Deleted.{SameButDeletion, AllAbsent, delete_components_lem}
use appwrapper.Reconcile.{
  undeploy, failed_message, clean_up_failed, reconcile_failed, reconcile_succeeded,
}
use appwrapper.Reconcile.Running.{ended, requeue, five_seconds, patch_and_requeue}
use appwrapper.Reconcile.Invariant.{
  Edge, stay, initialize, resume, start, abort, preempt, preempt_reset, retry_create,
  give_up_create, reset, give_up, succeed, restart, undeployed, flag, PhaseOk, Coherent, Step,
  flag_set, flag_found,
}
use appwrapper.Reconcile.Frame.{patch_lem, requeue_lem}
use appwrapper.Reconcile.Undeploy.{Undeployed, undeploy_lem, deleted, taken_down}
use appwrapper.Reconcile.Down.{Kept-stays, Undeployed-Kept, Undeployed-guarded, wait-Step}
use appwrapper.Reconcile.Reset.{Undeployed-after}

module _ {W : Type 0} (k : Kit W) (meta : MetaLaws k) (client : ClientLaws k) where
  patch-ended :
      (orig : AppWrapper) (s : State W)
      → Returns ((do e ← patch k orig; pure (ended e)) s) λ o s'. s'.aw ≡ s.aw
  patch-ended orig s =
      bind-Returns (patch k orig s) (λ e. pure (ended e)) (patch_lem k client orig s)
        (λ e s1 q. returned (ended e) s1 q)

  -- The AppWrapper once deletionOnFailureGracePeriod has been noted.
  noted :
      (n : ℤ) (aw : AppWrapper) (r : String) (m : Message)
      → Undeployed k aw false (
          with_conditions aw (
            k.set_status_condition n aw.status.conditions
              (new_condition deleting_resources condition_false r m)))
  noted n aw r m = record {
    metadata_eq = refl;
    spec_eq = refl;
    phase_eq = refl;
    length_eq = refl;
    quota_eq =
        flag_set k meta n aw.status.conditions deleting_resources condition_false r m
          quota_reserved;
    unhealthy_eq =
        meta.find_set n aw.status.conditions (new_condition deleting_resources condition_false r m)
          unhealthy;
    deployed_eq =
        flag_set k meta n aw.status.conditions deleting_resources condition_false r m
          resources_deployed;
    absent = λ e. absurd cc;
  }

  module _ (aw : AppWrapper) (c : Coherent k aw) (phase : aw.status.phase ≡ failed) where
    both_or_none : flag k aw quota_reserved ≡ flag k aw resources_deployed
    both_or_none = rw phase at c.phase_ok

    -- The quota is held exactly while the resources are there.
    still_failed : (aw' : AppWrapper) → Undeployed k aw false aw' → PhaseOk k aw' aw.status.phase
    still_failed aw' u = rw phase (u.quota_eq ∙ both_or_none ∙ sym u.deployed_eq)

    quota_released :
        (orig : AppWrapper) (gone : Bool) (s : State W)
        → Undeployed k aw gone s.aw
        → Returns
            ((if gone
                then (do
                  set_condition k quota_reserved condition_false "Failed"
                      (lit "No resources deployed" ∷ [])
                  e ← patch k orig
                  pure (ended e))
                else patch_and_requeue k orig five_seconds)
              s)
            λ o s'. Step k aw s'.aw
    quota_released orig true s u =
        let (n, w) = k.now s.world in
        let cs = k.set_status_condition n s.aw.status.conditions (
          new_condition quota_reserved condition_false "Failed"
            (lit "No resources deployed" ∷ [])) in
        let no : flag k (with_conditions s.aw cs) resources_deployed ≡ false =
          flag_set k meta n s.aw.status.conditions quota_reserved condition_false "Failed"
            (lit "No resources deployed" ∷ []) resources_deployed
          ∙ u.deployed_eq in
        let released : flag k (with_conditions s.aw cs) quota_reserved ≡ false =
          flag_set k meta n s.aw.status.conditions quota_reserved condition_false "Failed"
            (lit "No resources deployed" ∷ []) quota_reserved in
        Returns-map (patch-ended orig (record { aw = with_conditions s.aw cs; world = w }))
          (λ o s' e.
            Kept-stays k aw (with_conditions s.aw cs) s'.aw c (λ x. cc)
              (record {
                metadata_eq = u.metadata_eq;
                spec_eq = u.spec_eq;
                phase_eq = u.phase_eq;
                length_eq = u.length_eq;
              })
              e (rw phase (released ∙ sym no)) (λ d. absurd (ground (arith, no))))
    quota_released orig false s u =
        wait-Step k meta client aw c orig s (λ x. cc) u (still_failed s.aw u)

    clean_up-Step :
        (orig : AppWrapper) (d : ℤ) (s : State W)
        → Undeployed k aw false s.aw
        → Returns (clean_up_failed k orig d s) λ o s'. Step k aw s'.aw
    unfolding clean_up_failed
    clean_up-Step orig d s u =
        bind-Returns (undeploy k "Failed" (failed_message k orig d) s) _
          (undeploy_lem k meta "Failed" (failed_message k orig d) s
            (rw (u.spec_eq, u.length_eq) (c.statuses (λ x. cc))))
          (λ gone s1 u1.
            quota_released orig gone s1 (Undeployed-after k meta gone aw s.aw s1.aw u u1))

    wait_or_clean :
        (orig : AppWrapper) (waits : Bool) (t d : ℤ) (s : State W)
        → Undeployed k aw false s.aw
        → Returns
            ((if waits then patch_and_requeue k orig t else clean_up_failed k orig d) s)
            λ o s'. Step k aw s'.aw
    wait_or_clean orig true t d s u = Returns-map (requeue_lem k client orig t s) (λ o s' e.
        Kept-stays k aw s.aw s'.aw c (λ x. cc) (Undeployed-Kept k false aw s.aw u) e
          (still_failed s.aw u) (Undeployed-guarded k aw s.aw c u))
    wait_or_clean orig false t d s u = clean_up-Step orig d s u

  -- From an AppWrapper in the phase Failed for which the invariant holds, and under the laws of
  -- the condition helpers and of the client, Reconcile returns without a panic whatever the
  -- cluster answers, the phase has moved along an edge of the state machine or stayed, and the
  -- invariant holds again of the AppWrapper in memory.
  pub reconcile_failed-Step :
      (s : State W)
      → Coherent k s.aw
      → s.aw.status.phase ≡ failed
      → Returns (reconcile_failed k s) λ o s'. Step k s.aw s'.aw
  unfolding reconcile_failed
  reconcile_failed-Step s c phase =
      let delay = deletion_on_failure_grace_duration k s.aw in
      let (n, w) = k.now s.world in
      let m : Message =
        text deletion_on_failure_grace_period_annotation ∷ lit " has value " ∷ num delay ∷ [] in
      let s1 : State W = record {
        aw = with_conditions s.aw (
            k.set_status_condition n s.aw.status.conditions
              (new_condition deleting_resources condition_false "DeletionPaused" m));
        world = w;
      } in
      if-Returns (ltb_ℤ (pos 0) delay && not s.aw.spec.suspend) _ (clean_up_failed k s.aw delay) s
        (λ p.
          rw
            (meta.find_set n s.aw.status.conditions
              (new_condition deleting_resources condition_false "DeletionPaused" m)
              deleting_resources)
            (wait_or_clean s.aw c phase s.aw _ _ delay (record s1 { world = (k.now s1.world).1 })
              (noted n s.aw "DeletionPaused" m)))
        (λ p. clean_up-Step s.aw c phase s.aw delay s (record {
          metadata_eq = refl;
          spec_eq = refl;
          phase_eq = refl;
          length_eq = refl;
          quota_eq = refl;
          unhealthy_eq = refl;
          deployed_eq = refl;
          absent = λ e. absurd cc;
        }))

  module _ (aw : AppWrapper) (c : Coherent k aw) (phase : aw.status.phase ≡ succeeded) where
    no_quota : flag k aw quota_reserved ≡ false
    no_quota = rw phase at c.phase_ok

    succeeded_deletion :
        (orig : AppWrapper) (gone : Bool) (m : Message) (s : State W)
        → SameButDeletion k aw s.aw
        → (gone ≡ true → AllAbsent k aw.spec.components s.aw.status.component_status)
        → Returns
            ((if gone
                then (do
                  set_condition k resources_deployed condition_false "Succeeded" m
                  e ← patch k orig
                  pure (ended e))
                else patch_and_requeue k orig five_seconds)
              s)
            λ o s'. Step k aw s'.aw
    succeeded_deletion orig true m s p a =
        let (n, w) = k.now s.world in
        let aw1 = with_conditions s.aw (
          k.set_status_condition n s.aw.status.conditions
            (new_condition resources_deployed condition_false "Succeeded" m)) in
        let u = taken_down k meta n aw s.aw "Succeeded" m p (a refl) in
        Returns-map (patch-ended orig (record { aw = aw1; world = w })) (λ o s' e.
          Kept-stays k aw aw1 s'.aw c (λ x. cc) (Undeployed-Kept k true aw aw1 u) e
            (rw phase (u.quota_eq ∙ no_quota)) (λ d. absurd (ground (arith, u.deployed_eq))))
    succeeded_deletion orig false m s p a =
        let u = deleted k meta aw s.aw p in
        wait-Step k meta client aw c orig s (λ x. cc) u (rw phase (u.quota_eq ∙ no_quota))

    wait_or_delete :
        (waits : Bool) (t : ℤ) (m : Message) (w : W)
        → Returns
            ((if waits then pure (requeue t none) else (do
              gone ← delete_components k
              if gone
                  then (do
                    set_condition k resources_deployed condition_false "Succeeded" m
                    e ← patch k aw
                    pure (ended e))
                  else patch_and_requeue k aw five_seconds))
              (record { aw = aw; world = w }))
            λ o s'. Step k aw s'.aw
    wait_or_delete true t m w = returned _ _ (
        Kept-stays k aw aw aw c (λ x. cc)
          (record { metadata_eq = refl; spec_eq = refl; phase_eq = refl; length_eq = refl }) refl
          c.phase_ok c.guarded)
    wait_or_delete false t m w =
        bind-Returns (delete_components k (record { aw = aw; world = w })) _
          (delete_components_lem k meta (record { aw = aw; world = w })
            (let h = c.statuses (λ x. cc) in omega arith))
          (λ gone s1 q. succeeded_deletion aw gone m s1 q.same q.absent)

  succeeded_run :
      (s : State W)
      → Coherent k s.aw
      → s.aw.status.phase ≡ succeeded
      → Returns (reconcile_succeeded k s) λ o s'. Step k s.aw s'.aw
  unfolding reconcile_succeeded
  succeeded_run s c phase =
      if-Returns (flag k s.aw resources_deployed) _ (pure (ended none)) s
        (λ d.
          let (done, e) = flag_found k meta s.aw resources_deployed d in
          rw e (wait_or_delete s.aw c phase _ _ _ (k.now s.world).1))
        (λ d. returned (ended none) s (
          Kept-stays k s.aw s.aw s.aw c (λ x. cc)
            (record { metadata_eq = refl; spec_eq = refl; phase_eq = refl; length_eq = refl }) refl
            c.phase_ok c.guarded))

  -- From Succeeded no edge leads to another phase.
  succeeded_stays : {b : Bool} {p q : Phase} → p ≡ succeeded → Edge b p q → q ≡ succeeded
  succeeded_stays h (stay e) = e ∙ h
  succeeded_stays h (initialize e _) = absurd cc
  succeeded_stays h (resume _ e _) = absurd cc
  succeeded_stays h (start _ e _) = absurd cc
  succeeded_stays h (abort _ e _) = absurd cc
  succeeded_stays h (preempt _ e _) = absurd cc
  succeeded_stays h (preempt_reset _ e _) = absurd cc
  succeeded_stays h (retry_create _ e _) = absurd cc
  succeeded_stays h (give_up_create _ e _) = absurd cc
  succeeded_stays h (reset _ e _) = absurd cc
  succeeded_stays h (give_up _ e _) = absurd cc
  succeeded_stays h (succeed _ e _) = absurd cc
  succeeded_stays h (restart _ e _) = absurd cc
  succeeded_stays h (undeployed e _) = absurd cc

  -- From an AppWrapper in the phase Succeeded for which the invariant holds, and under the laws
  -- of the condition helpers and of the client, Reconcile returns without a panic whatever the
  -- cluster answers, the phase stays Succeeded, and the invariant holds again of the AppWrapper
  -- in memory.
  pub reconcile_succeeded-Step :
      (s : State W)
      → Coherent k s.aw
      → s.aw.status.phase ≡ succeeded
      → Returns
          (reconcile_succeeded k s)
          λ o s'. Step k s.aw s'.aw × (s'.aw.status.phase ≡ succeeded)
  reconcile_succeeded-Step s c phase =
      Returns-map (succeeded_run s c phase) (λ o s' step. (step, succeeded_stays phase step.edge))
