-- ===== src/Reconcile/Down.antt =====
-- Reconcile in the phase Suspending.
use appwrapper.Base.{
  ◌≡◌, ◌≢◌, refl, sym, ◌∙◌, Bool, true, false, arith, if◌then◌else◌, length, String, ℤ, [], ◌∷◌,
  Bool-cases, inl, inr,
}
use appwrapper.Api.{
  AppWrapper, Phase, ConditionType, same_type, empty, suspended, suspending, condition_false,
  quota_reserved, resources_deployed, unhealthy, pods_ready, Message, lit,
}
use appwrapper.Cluster.{Kit}
use appwrapper.Cluster.Laws.{MetaLaws, ClientLaws}
use appwrapper.Exec.{State, ◌>>◌, set_condition, new_condition, with_conditions, with_phase}
use appwrapper.Exec.Returns.{Returns, returned, bind-Returns, Returns-map}
use appwrapper.Components.{clear_condition}
use appwrapper.Components.Deleted.{AllAbsent}
use appwrapper.Reconcile.{undeploy, reconcile_suspending}
use appwrapper.Reconcile.Running.{five_seconds, patch_and_requeue, transition_to_phase}
use appwrapper.Reconcile.Invariant.{
  Edge, undeployed, stay, flag, has_finalizer, PhaseOk, Coherent, Step, flag_set,
}
use appwrapper.Reconcile.Frame.{Alike, Alike-refl, set_Alike, requeue_lem, transition_lem}
use appwrapper.Reconcile.Undeploy.{Undeployed, undeploy_lem}

module _ {W : Type 0} (k : Kit W) where
  -- The fields that no run but an initialisation or a deletion writes.
  pub record Kept (aw aw' : AppWrapper) : Type 0 where
    pub metadata_eq : aw'.metadata ≡ aw.metadata
    pub spec_eq : aw'.spec ≡ aw.spec
    pub phase_eq : aw'.status.phase ≡ aw.status.phase
    pub length_eq : length aw'.status.component_status ≡ length aw.status.component_status

  pub Kept-Step :
      (aw aw' aw'' : AppWrapper) (p : Phase)
      → Coherent k aw
      → aw.status.phase ≢ empty
      → Kept aw aw'
      → aw'' ≡ with_phase aw' p
      → Edge aw.spec.suspend aw.status.phase p
      → PhaseOk k (with_phase aw' p) p
      → (flag k aw' resources_deployed ≡ true → has_finalizer k aw' ≡ true)
      → Step k aw aw''
  Kept-Step aw aw' aw'' p c n a q e o g = rw q (record {
    edge = e;
    coherent = record {
      phase_ok = o;
      statuses = λ _. rw (a.spec_eq, a.length_eq) (c.statuses n);
      guarded = g;
    };
  })

  pub Kept-stays :
      (aw aw' aw'' : AppWrapper)
      → Coherent k aw
      → aw.status.phase ≢ empty
      → Kept aw aw'
      → aw'' ≡ aw'
      → PhaseOk k aw' aw.status.phase
      → (flag k aw' resources_deployed ≡ true → has_finalizer k aw' ≡ true)
      → Step k aw aw''
  Kept-stays aw aw' aw'' c n a q o g = rw q (record {
    edge = stay a.phase_eq;
    coherent = record {
      phase_ok = rw a.phase_eq o;
      statuses = λ _. rw (a.spec_eq, a.length_eq) (c.statuses n);
      guarded = g;
    };
  })

  pub Undeployed-Kept : (b : Bool) (aw aw' : AppWrapper) → Undeployed k aw b aw' → Kept aw aw'
  Undeployed-Kept b aw aw' u = record {
    metadata_eq = u.metadata_eq;
    spec_eq = u.spec_eq;
    phase_eq = u.phase_eq;
    length_eq = u.length_eq;
  }

  -- The finalizer is there while the resources are being deleted.
  pub Undeployed-guarded :
      (aw aw' : AppWrapper)
      → Coherent k aw
      → Undeployed k aw false aw'
      → flag k aw' resources_deployed ≡ true
      → has_finalizer k aw' ≡ true
  Undeployed-guarded aw aw' c u d = rw u.metadata_eq (c.guarded (sym u.deployed_eq ∙ d))

  -- Neither the quota nor the resources are held.
  record Released (aw aw' : AppWrapper) : Type 0 where
    kept : Kept aw aw'
    quota : flag k aw' quota_reserved ≡ false
    deployed : flag k aw' resources_deployed ≡ false
    absent :
        flag k aw resources_deployed ≡ true
        → AllAbsent k aw.spec.components aw'.status.component_status

  Released-Alike :
      (aw aw' aw'' : AppWrapper)
      → Released aw aw'
      → Alike k aw' aw''
      → aw''.status.component_status ≡ aw'.status.component_status
      → Released aw aw''
  Released-Alike aw aw' aw'' r a same = record {
    kept = record {
      metadata_eq = a.metadata_eq ∙ r.kept.metadata_eq;
      spec_eq = a.spec_eq ∙ r.kept.spec_eq;
      phase_eq = a.phase_eq ∙ r.kept.phase_eq;
      length_eq = a.length_eq ∙ r.kept.length_eq;
    };
    quota = a.quota_eq ∙ r.quota;
    deployed = a.deployed_eq ∙ r.deployed;
    absent = λ d. rw same (r.absent d);
  }

  -- A run in the phase Suspending: a step that releases the quota of deployed resources only where
  -- every component is marked as gone.
  pub record Suspends (aw aw' : AppWrapper) : Type 0 where
    pub step : Step k aw aw'
    pub gone :
        flag k aw' quota_reserved ≡ false
        → flag k aw resources_deployed ≡ true
        → AllAbsent k aw.spec.components aw'.status.component_status

module _ {W : Type 0} (k : Kit W) (meta : MetaLaws k) (client : ClientLaws k) where
  clear_same :
      (t : ConditionType) (r : String) (m : Message) (s : State W)
      → same_type t quota_reserved ≡ false
      → same_type t resources_deployed ≡ false
      → Returns (clear_condition k t r m s) λ _ s'.
        Alike k s.aw s'.aw × (s'.aw.status.component_status ≡ s.aw.status.component_status)
  unfolding clear_condition
  clear_same t r m s hq hd =
      elim (Bool-cases (k.is_status_condition_true s.aw.status.conditions t)) [
        | inl p ↦
            rw (p, clear_condition)
              (returned tt _
                (set_Alike k meta (k.now s.world).0 s.aw t condition_false r m hq hd, refl))
        | inr p ↦ rw (p, clear_condition) (returned tt _ (Alike-refl k s.aw, refl))
      ]

  release :
      (n : ℤ) (aw aw' : AppWrapper) (r : String) (m : Message)
      → Undeployed k aw true aw'
      → Released k aw (
          with_conditions aw' (
            k.set_status_condition n aw'.status.conditions
              (new_condition quota_reserved condition_false r m)))
  release n aw aw' r m u = record {
    kept = record {
      metadata_eq = u.metadata_eq;
      spec_eq = u.spec_eq;
      phase_eq = u.phase_eq;
      length_eq = u.length_eq;
    };
    quota =
        flag_set k meta n aw'.status.conditions quota_reserved condition_false r m quota_reserved;
    deployed =
        flag_set k meta n aw'.status.conditions quota_reserved condition_false r m
          resources_deployed
        ∙ u.deployed_eq;
    absent = u.absent refl;
  }

  module _ (aw : AppWrapper) (c : Coherent k aw) where
    suspended-Step :
        (orig : AppWrapper) (s : State W)
        → aw.status.phase ≡ suspending
        → Released k aw s.aw
        → Returns
            ((do
              clear_condition k pods_ready "Suspended" []
              clear_condition k unhealthy "Suspended" []
              transition_to_phase k orig suspended)
              s)
            λ o s'. Suspends k aw s'.aw
    suspended-Step orig s phase r =
        bind-Returns (clear_condition k pods_ready "Suspended" [] s) _
          (clear_same pods_ready "Suspended" [] s refl refl)
          (λ _ s1 a1.
            bind-Returns (clear_condition k unhealthy "Suspended" [] s1) _
              (clear_same unhealthy "Suspended" [] s1 refl refl)
              (λ _ s2 a2.
                let r1 = Released-Alike k aw s.aw s1.aw r a1.0 a1.1 in
                let r2 = Released-Alike k aw s1.aw s2.aw r1 a2.0 a2.1 in
                Returns-map (transition_lem k client orig suspended s2) (λ o s3 e. record {
                  step =
                      Kept-Step k aw s2.aw s3.aw suspended c (λ x. cc) r2.kept e
                        (undeployed phase refl) (r2.quota, r2.deployed)
                        (λ d. absurd (ground (arith, r2.deployed)));
                  gone = λ _ d. rw e (r2.absent d);
                })))

    -- While resources are being deleted, the phase stays.
    pub wait-Step :
        (orig : AppWrapper) (s : State W)
        → aw.status.phase ≢ empty
        → Undeployed k aw false s.aw
        → PhaseOk k s.aw aw.status.phase
        → Returns (patch_and_requeue k orig five_seconds s) λ o s'. Step k aw s'.aw
    wait-Step orig s n u o = Returns-map (requeue_lem k client orig five_seconds s) (λ x s' e.
        Kept-stays k aw s.aw s'.aw c n (Undeployed-Kept k false aw s.aw u) e o
          (Undeployed-guarded k aw s.aw c u))

    after_undeploy :
        (orig : AppWrapper) (gone : Bool) (s : State W)
        → aw.status.phase ≡ suspending
        → Undeployed k aw gone s.aw
        → Returns
            ((if gone
                then (do
                  set_condition k quota_reserved condition_false "Suspended"
                      (lit "Suspend is true" ∷ [])
                  clear_condition k pods_ready "Suspended" []
                  clear_condition k unhealthy "Suspended" []
                  transition_to_phase k orig suspended)
                else patch_and_requeue k orig five_seconds)
              s)
            λ o s'. Suspends k aw s'.aw
    after_undeploy orig true s phase u =
        suspended-Step orig
          (record {
            aw = with_conditions s.aw (
                k.set_status_condition (k.now s.world).0 s.aw.status.conditions (
                  new_condition quota_reserved condition_false "Suspended"
                    (lit "Suspend is true" ∷ [])));
            world = (k.now s.world).1;
          })
          phase (release (k.now s.world).0 aw s.aw "Suspended" (lit "Suspend is true" ∷ []) u)
    after_undeploy orig false s phase u =
        let held : flag k s.aw quota_reserved ≡ true = u.quota_eq ∙ (rw phase at c.phase_ok) in
        Returns-map (requeue_lem k client orig five_seconds s) (λ o s' e. record {
          step =
              Kept-stays k aw s.aw s'.aw c (λ x. cc) (Undeployed-Kept k false aw s.aw u) e
                (rw phase held) (Undeployed-guarded k aw s.aw c u);
          gone = λ q d. absurd (let z : true ≡ false = sym held ∙ (rw e at q) in cc);
        })

  -- From an AppWrapper in the phase Suspending for which the invariant holds, and under the laws
  -- of the condition helpers and of the client, Reconcile returns without a panic whatever the
  -- cluster answers, the phase has moved along an edge of the state machine or stayed, and the
  -- invariant holds again of the AppWrapper in memory. If QuotaReserved is then not true, and
  -- ResourcesDeployed was true, the status of each component says that its object is gone.
  pub reconcile_suspending-Step :
      (s : State W)
      → Coherent k s.aw
      → s.aw.status.phase ≡ suspending
      → Returns (reconcile_suspending k s) λ o s'. Suspends k s.aw s'.aw
  unfolding reconcile_suspending
  reconcile_suspending-Step s c phase =
      bind-Returns (undeploy k "Suspended" (lit "Suspend is true" ∷ []) s) _
        (undeploy_lem k meta "Suspended" (lit "Suspend is true" ∷ []) s (c.statuses (λ x. cc)))
        (λ gone s1 u. after_undeploy s.aw c s.aw gone s1 phase u)
