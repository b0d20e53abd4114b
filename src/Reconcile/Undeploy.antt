-- ===== src/Reconcile/Undeploy.antt =====
-- The part of Reconcile that takes the resources of an AppWrapper down, in the phases Suspending and
-- Resetting.
use appwrapper.Base.{◌≡◌, refl, sym, ◌∙◌, Bool, true, false, arith, if◌then◌else◌, length, String}
use appwrapper.Api.{
  AppWrapper, condition_false, quota_reserved, resources_deployed, unhealthy, Message,
}
use appwrapper.Cluster.{Kit}
use appwrapper.Cluster.Laws.{MetaLaws}
use appwrapper.Exec.{State, ◌>>◌, pure, set_condition, new_condition, with_conditions}
use appwrapper.Exec.Returns.{Returns, returned, bind-Returns, if-Returns}
use appwrapper.Components.{delete_components}
use appwrapper.Components.Deleted.{SameButDeletion, AllAbsent, delete_components_lem}
use appwrapper.Reconcile.{undeploy}
use appwrapper.Reconcile.Invariant.{flag, flag_set, flag_same}

module _ {W : Type 0} (k : Kit W) where
  -- The AppWrapper once its resources are, or are not yet, gone.
  pub record Undeployed (aw : AppWrapper) (gone : Bool) (aw' : AppWrapper) : Type 0 where
    pub metadata_eq : aw'.metadata ≡ aw.metadata
    pub spec_eq : aw'.spec ≡ aw.spec
    pub phase_eq : aw'.status.phase ≡ aw.status.phase
    pub length_eq : length aw'.status.component_status ≡ length aw.status.component_status
    pub quota_eq : flag k aw' quota_reserved ≡ flag k aw quota_reserved
    pub unhealthy_eq :
        k.find_status_condition aw'.status.conditions unhealthy
        ≡ k.find_status_condition aw.status.conditions unhealthy
    pub deployed_eq :
        flag k aw' resources_deployed ≡ (if gone then false else flag k aw resources_deployed)
    pub absent :
        gone ≡ true
        → flag k aw resources_deployed ≡ true
        → AllAbsent k aw.spec.components aw'.status.component_status

module _ {W : Type 0} (k : Kit W) (meta : MetaLaws k) where
  pub deleted : (aw aw' : AppWrapper) → SameButDeletion k aw aw' → Undeployed k aw false aw'
  deleted aw aw' p = record {
    metadata_eq = p.metadata_eq;
    spec_eq = p.spec_eq;
    phase_eq = p.phase_eq;
    length_eq = p.length_eq;
    quota_eq = flag_same k meta p quota_reserved refl;
    unhealthy_eq = p.others unhealthy refl;
    deployed_eq = flag_same k meta p resources_deployed refl;
    absent = λ e. absurd cc;
  }

  pub taken_down :
      (n : _) (aw aw' : AppWrapper) (r : String) (m : Message)
      → SameButDeletion k aw aw'
      → AllAbsent k aw.spec.components aw'.status.component_status
      → Undeployed k aw true (
          with_conditions aw' (
            k.set_status_condition n aw'.status.conditions
              (new_condition resources_deployed condition_false r m)))
  taken_down n aw aw' r m p gone = record {
    metadata_eq = p.metadata_eq;
    spec_eq = p.spec_eq;
    phase_eq = p.phase_eq;
    length_eq = p.length_eq;
    quota_eq =
        rw
          (flag_set k meta n aw'.status.conditions resources_deployed condition_false r m
            quota_reserved)
          (flag_same k meta p quota_reserved refl);
    unhealthy_eq =
        meta.find_set n aw'.status.conditions (new_condition resources_deployed condition_false r m)
          unhealthy
        ∙ p.others unhealthy refl;
    deployed_eq =
        flag_set k meta n aw'.status.conditions resources_deployed condition_false r m
          resources_deployed;
    absent = λ _ _. gone;
  }

  after_deletion :
      (gone : Bool) (r : String) (m : Message) (aw : AppWrapper) (s : State W)
      → SameButDeletion k aw s.aw
      → (gone ≡ true → AllAbsent k aw.spec.components s.aw.status.component_status)
      → Returns
          ((if gone
              then (do set_condition k resources_deployed condition_false r m; pure true)
              else pure false)
            s)
          λ g s'. Undeployed k aw g s'.aw
  after_deletion true r m aw s p a =
      returned true _ (taken_down (k.now s.world).0 aw s.aw r m p (a refl))
  after_deletion false r m aw s p a = returned false s (deleted aw s.aw p)

  pub undeploy_lem :
      (r : String) (m : Message) (s : State W)
      → length s.aw.spec.components ≡ length s.aw.status.component_status
      → Returns (undeploy k r m s) λ gone s'. Undeployed k s.aw gone s'.aw
  unfolding undeploy
  undeploy_lem r m s h =
      if-Returns (flag k s.aw resources_deployed) _ (pure true) s
        (λ d.
          bind-Returns (delete_components k s) _ (delete_components_lem k meta s (omega arith))
            (λ gone s1 q. after_deletion gone r m s.aw s1 q.same q.absent))
        (λ d. returned true s (record {
          metadata_eq = refl;
          spec_eq = refl;
          phase_eq = refl;
          length_eq = refl;
          quota_eq = refl;
          unhealthy_eq = refl;
          deployed_eq = d;
          absent = λ _ e. absurd (let z : true ≡ false = sym e ∙ d in cc);
        }))
