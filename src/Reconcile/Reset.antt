-- ===== src/Reconcile/Reset.antt =====
-- Reconcile in the phase Resetting.
use appwrapper.Base.{
  ◌≡◌, ap, refl, sym, ◌∙◌, Bool, true, false, inl, inr, Bool-cases, if◌then◌else◌, String, ℤ, [],
  ◌∷◌, ltb_ℤ, ◌+ℤ◌, some,
}
use appwrapper.Api.{
  AppWrapper, Condition, suspending, resuming, resetting, condition_true, condition_false,
  quota_reserved, resources_deployed, unhealthy, pods_ready, Message, lit,
}
use appwrapper.Cluster.{Kit}
use appwrapper.Cluster.Laws.{MetaLaws, ClientLaws}
use appwrapper.Exec.{State, ◌>>◌, set_condition, new_condition, with_conditions, with_phase}
use appwrapper.Exec.Returns.{Returns, returned, bind-Returns, Returns-map, if-Returns}
use appwrapper.Components.{clear_condition}
use appwrapper.Components.Deleted.{AllAbsent}
use appwrapper.Durations.{retry_pause_duration}
use appwrapper.Reconcile.{undeploy, resume_after_pause, reconcile_resetting}
use appwrapper.Reconcile.Running.{five_seconds, patch_and_requeue, transition_to_phase}
use appwrapper.Reconcile.Invariant.{
  preempt_reset, restart, flag, has_finalizer, Found, PhaseOk, Coherent, Step, flag_set,
}
use appwrapper.Reconcile.Frame.{Alike-refl, moved_to, requeue_lem, transition_lem}
use appwrapper.Reconcile.Undeploy.{Undeployed, undeploy_lem}
use appwrapper.Reconcile.Down.{Kept-Step, Kept-stays, Undeployed-Kept, Undeployed-guarded}

module _ {W : Type 0} (k : Kit W) (meta : MetaLaws k) where
  unchanged : (aw : AppWrapper) → Undeployed k aw false aw
  unchanged aw = record {
    metadata_eq = refl;
    spec_eq = refl;
    phase_eq = refl;
    length_eq = refl;
    quota_eq = refl;
    unhealthy_eq = refl;
    deployed_eq = refl;
    absent = λ e. absurd cc;
  }

  cleared :
      (n : ℤ) (aw : AppWrapper) (r : String) (m : Message)
      → Undeployed k aw false (
          with_conditions aw (
            k.set_status_condition n aw.status.conditions
              (new_condition pods_ready condition_false r m)))
  cleared n aw r m = record {
    metadata_eq = refl;
    spec_eq = refl;
    phase_eq = refl;
    length_eq = refl;
    quota_eq = flag_set k meta n aw.status.conditions pods_ready condition_false r m quota_reserved;
    unhealthy_eq =
        meta.find_set n aw.status.conditions (new_condition pods_ready condition_false r m)
          unhealthy;
    deployed_eq =
        flag_set k meta n aw.status.conditions pods_ready condition_false r m resources_deployed;
    absent = λ e. absurd cc;
  }

  clear_pods_ready :
      (r : String) (m : Message) (s : State W)
      → Returns (clear_condition k pods_ready r m s) λ _ s'. Undeployed k s.aw false s'.aw
  unfolding clear_condition
  clear_pods_ready r m s =
      elim (Bool-cases (k.is_status_condition_true s.aw.status.conditions pods_ready)) [
        | inl p ↦ rw (p, clear_condition) (returned tt _ (cleared (k.now s.world).0 s.aw r m))
        | inr p ↦ rw (p, clear_condition) (returned tt _ (unchanged s.aw))
      ]

  pub Undeployed-after :
      (gone : Bool) (a b c : AppWrapper)
      → Undeployed k a false b
      → Undeployed k b gone c
      → Undeployed k a gone c
  Undeployed-after gone a b c p q = record {
    metadata_eq = q.metadata_eq ∙ p.metadata_eq;
    spec_eq = q.spec_eq ∙ p.spec_eq;
    phase_eq = q.phase_eq ∙ p.phase_eq;
    length_eq = q.length_eq ∙ p.length_eq;
    quota_eq = q.quota_eq ∙ p.quota_eq;
    unhealthy_eq = q.unhealthy_eq ∙ p.unhealthy_eq;
    deployed_eq = q.deployed_eq ∙ ap (λ x. if gone then false else x) p.deployed_eq;
    absent = λ g d. rw (sym p.spec_eq) (q.absent g (p.deployed_eq ∙ d));
  }

module _ {W : Type 0} (k : Kit W) where
  -- The pause after the reset of `aw` is over at some time that the clock gives.
  abbrev pub Paused : AppWrapper → Type 0
  Paused aw =
      (reset : Condition) × (w : W) × (k.find_status_condition aw.status.conditions unhealthy
        ≡ some reset)
      × (ltb_ℤ (k.now w).0 (reset.last_transition_time +ℤ retry_pause_duration k aw) ≡ false)

  -- A run in the phase Resetting: a step that resumes only where the pause is over and every
  -- component of deployed resources is marked as gone.
  pub record Resets (aw aw' : AppWrapper) : Type 0 where
    pub step : Step k aw aw'
    pub paused : aw'.status.phase ≡ resuming → Paused aw
    pub gone :
        aw'.status.phase ≡ resuming
        → flag k aw resources_deployed ≡ true
        → AllAbsent k aw.spec.components aw'.status.component_status

  -- The pause depends on the metadata alone.
  pause_same :
      (aw aw' : AppWrapper)
      → aw'.metadata ≡ aw.metadata
      → retry_pause_duration k aw' ≡ retry_pause_duration k aw
  unfolding retry_pause_duration
  pause_same aw aw' h = rw h refl

module _ {W : Type 0} (k : Kit W) (meta : MetaLaws k) (client : ClientLaws k) (aw : AppWrapper)
    (c : Coherent k aw) (phase : aw.status.phase ≡ resetting)
    (ok : (flag k aw quota_reserved ≡ true)
      × Found k aw unhealthy
      × (has_finalizer k aw ≡ true)) where
  -- What Resetting asks of the conditions stays while they are not touched.
  still_resetting :
      (gone : Bool) (aw' : AppWrapper) → Undeployed k aw gone aw' → PhaseOk k aw' aw.status.phase
  still_resetting gone aw' u =
      rw phase (u.quota_eq ∙ ok.0, (ok.1.0, u.unhealthy_eq ∙ ok.1.1), rw u.metadata_eq ok.2)

  restart_Step :
      (n : ℤ) (r : String) (m : Message) (aw' aw'' : AppWrapper)
      → Undeployed k aw true aw'
      → aw.spec.suspend ≡ false
      → aw''
        ≡ with_phase
            (with_conditions aw' (
              k.set_status_condition n aw'.status.conditions
                (new_condition resources_deployed condition_true r m)))
            resuming
      → Step k aw aw''
  restart_Step n r m aw' aw'' u active e =
      Kept-Step k aw
        (with_conditions aw' (
          k.set_status_condition n aw'.status.conditions
            (new_condition resources_deployed condition_true r m)))
        aw'' resuming c (λ x. cc)
        (record {
          metadata_eq = u.metadata_eq;
          spec_eq = u.spec_eq;
          phase_eq = u.phase_eq;
          length_eq = u.length_eq;
        })
        e (restart active phase refl)
        (
          flag_set k meta n aw'.status.conditions resources_deployed condition_true r m
                quota_reserved
              ∙ (u.quota_eq ∙ ok.0),
          flag_set k meta n aw'.status.conditions resources_deployed condition_true r m
              resources_deployed,
        )
        (λ d. rw u.metadata_eq ok.2)

  still_waiting :
      (gone : Bool) (aw' aw'' : AppWrapper)
      → Undeployed k aw gone aw'
      → aw'' ≡ aw'
      → Step k aw aw''
      → Resets k aw aw''
  still_waiting gone aw' aw'' u e step =
      let stays : aw''.status.phase ≡ resetting = ap (λ x. x.status.phase) e ∙ u.phase_eq ∙ phase in
      record {
        step = step;
        paused = λ p. absurd (let z : resetting ≡ resuming = sym stays ∙ p in cc);
        gone = λ p. absurd (let z : resetting ≡ resuming = sym stays ∙ p in cc);
      }

  pause_or_restart :
      (orig : AppWrapper) (waits : Bool) (d : ℤ) (s : State W)
      → Undeployed k aw true s.aw
      → aw.spec.suspend ≡ false
      → (waits ≡ false → Paused k aw)
      → Returns
          ((if waits then patch_and_requeue k orig d else (do
            set_condition k resources_deployed condition_true "Resuming"
                (lit "Reset complete; resuming" ∷ [])
            transition_to_phase k orig resuming))
            s)
          λ o s'. Resets k aw s'.aw
  pause_or_restart orig true d s u active over =
      Returns-map (requeue_lem k client orig d s) (λ o s' e. still_waiting true s.aw s'.aw u e (
        Kept-stays k aw s.aw s'.aw c (λ x. cc) (Undeployed-Kept k true aw s.aw u) e
          (still_resetting true s.aw u) (λ d. rw u.metadata_eq ok.2)))
  pause_or_restart orig false d s u active over =
      let (n, w) = k.now s.world in
      let s1 : State W = record {
        aw = with_conditions s.aw (
            k.set_status_condition n s.aw.status.conditions (
              new_condition resources_deployed condition_true "Resuming"
                (lit "Reset complete; resuming" ∷ [])));
        world = w;
      } in
      Returns-map (transition_lem k client orig resuming s1) (λ o s' e. record {
        step =
            restart_Step n "Resuming" (lit "Reset complete; resuming" ∷ []) s.aw s'.aw u active e;
        paused = λ _. over refl;
        gone = λ _ d. rw e (u.absent refl d);
      })

  pause-Step :
      (orig : AppWrapper) (s : State W)
      → Undeployed k aw true s.aw
      → aw.spec.suspend ≡ false
      → Returns (resume_after_pause k orig s) λ o s'. Resets k aw s'.aw
  unfolding resume_after_pause
  pause-Step orig s u active =
      let (reset, e) = ok.1 in
      let over : ltb_ℤ (k.now s.world).0 (reset.last_transition_time +ℤ retry_pause_duration k s.aw)
            ≡ false
          → Paused k aw =
        λ t. (reset, s.world, e, rw (sym (pause_same k aw s.aw u.metadata_eq)) t) in
      rw (u.unhealthy_eq, resume_after_pause, e)
        (pause_or_restart orig _ _ (record s { world = (k.now s.world).1 }) u active over)

  undeployed_or_wait :
      (orig : AppWrapper) (gone : Bool) (s : State W)
      → Undeployed k aw gone s.aw
      → aw.spec.suspend ≡ false
      → Returns
          ((if gone then resume_after_pause k orig else patch_and_requeue k orig five_seconds) s)
          λ o s'. Resets k aw s'.aw
  undeployed_or_wait orig true s u active = pause-Step orig s u active
  undeployed_or_wait orig false s u active =
      Returns-map (requeue_lem k client orig five_seconds s) (λ o s' e.
        still_waiting false s.aw s'.aw u e (
          Kept-stays k aw s.aw s'.aw c (λ x. cc) (Undeployed-Kept k false aw s.aw u) e
            (still_resetting false s.aw u) (Undeployed-guarded k aw s.aw c u)))

module _ {W : Type 0} (k : Kit W) (meta : MetaLaws k) (client : ClientLaws k) where
  -- From an AppWrapper in the phase Resetting for which the invariant holds, and under the laws
  -- of the condition helpers and of the client, Reconcile returns without a panic whatever the
  -- cluster answers, the phase has moved along an edge of the state machine or stayed, and the
  -- invariant holds again of the AppWrapper in memory. If the phase is then Resuming, the clock
  -- has given a time that is no earlier than the last transition of the condition Unhealthy plus
  -- the retry pause; and if ResourcesDeployed was true, the status of each component says that
  -- its object is gone.
  pub reconcile_resetting-Step :
      (s : State W)
      → Coherent k s.aw
      → s.aw.status.phase ≡ resetting
      → Returns (reconcile_resetting k s) λ o s'. Resets k s.aw s'.aw
  unfolding reconcile_resetting
  reconcile_resetting-Step s c phase =
      let held : (flag k s.aw quota_reserved ≡ true)
          × Found k s.aw unhealthy
          × (has_finalizer k s.aw ≡ true) =
        (rw phase at c.phase_ok) in
      if-Returns s.aw.spec.suspend (transition_to_phase k s.aw suspending) _ s
        (λ p. Returns-map (transition_lem k client s.aw suspending s) (λ o s' e. rw e (record {
          step =
              moved_to k s.aw s.aw suspending c (λ x. cc) (Alike-refl k s.aw)
                (preempt_reset p phase refl) held.0;
          paused = λ q. absurd cc;
          gone = λ q. absurd cc;
        })))
        (λ p.
          bind-Returns (clear_condition k pods_ready "Resetting" [] s) _
            (clear_pods_ready k meta "Resetting" [] s)
            (λ _ s1 u1.
              bind-Returns
                (undeploy k "Resetting" (lit "Resources deleted for resetting AppWrapper" ∷ []) s1)
                _
                (undeploy_lem k meta "Resetting"
                  (lit "Resources deleted for resetting AppWrapper" ∷ []) s1
                  (rw (u1.spec_eq, u1.length_eq) (c.statuses (λ x. cc))))
                (λ gone s2 u2.
                  undeployed_or_wait k meta client s.aw c phase held s.aw gone s2
                    (Undeployed-after k meta gone s.aw s1.aw s2.aw u1 u2) p)))
