-- ===== src/Reconcile/Deletion.antt =====
-- Reconcile on an AppWrapper that is being deleted.
use appwrapper.Base.{
  ◌≡◌, ap, refl, ◌∙◌, Bool, true, false, Option, none, some, arith, if◌then◌else◌, length, [], ◌∷◌,
}
use appwrapper.Api.{
  AppWrapper, terminating, condition_false, quota_reserved, resources_deployed, Message, lit,
  app_wrapper_finalizer,
}
use appwrapper.Cluster.{Kit, Error}
use appwrapper.Cluster.Laws.{MetaLaws, ClientLaws}
use appwrapper.Exec.{
  State, ◌>>◌, pure, patch, update_object, set_condition, new_condition, with_conditions,
  with_phase,
}
use appwrapper.Exec.Returns.{Returns, returned, bind-Returns, Returns-map, if-Returns}
use appwrapper.Components.{delete_components}
use appwrapper.Components.Deleted.{SameButDeletion, AllAbsent, delete_components_lem}
use appwrapper.Reconcile.{
  drop_finalizer, write_release, release_quota, still_terminating, reconcile_deletion,
  with_finalizers, unless_error, is_terminating,
}
use appwrapper.Reconcile.Running.{ended, requeue, five_seconds}
use appwrapper.Reconcile.Invariant.{flag, has_finalizer, flag_set}
use appwrapper.Reconcile.Frame.{patch_lem}
use appwrapper.Reconcile.Start.{update_lem}

module _ {W : Type 0} (k : Kit W) where
  -- Neither resources nor quota are held, and the component statuses are those of another.
  record Freed (aw aw' : AppWrapper) : Type 0 where
    deployed : flag k aw' resources_deployed ≡ false
    quota : flag k aw' quota_reserved ≡ false
    spec_eq : aw'.spec ≡ aw.spec
    statuses_eq : aw'.status.component_status ≡ aw.status.component_status

  -- The finalizers stay, or nothing is held any more. In the second case the resources were not
  -- deployed before, or the status of each component says that its object is gone.
  pub data Ends (aw aw' : AppWrapper) : Type 0 where
    keeps : aw'.metadata ≡ aw.metadata → Ends aw aw'
    frees :
        flag k aw' resources_deployed ≡ false
        → flag k aw' quota_reserved ≡ false
        → (flag k aw resources_deployed ≡ true
            → AllAbsent k aw'.spec.components aw'.status.component_status)
        → Ends aw aw'

module _ {W : Type 0} (k : Kit W) (meta : MetaLaws k) (client : ClientLaws k) where
  drop_lem :
      (aw : AppWrapper) (s : State W)
      → Freed k aw s.aw
      → Returns (drop_finalizer k s) λ o s'. Freed k aw s'.aw
  unfolding drop_finalizer
  drop_lem aw s f =
      let (changed, fs) = k.remove_finalizer s.aw.metadata.finalizers app_wrapper_finalizer in
      let s1 : State W = record s { aw = with_finalizers s.aw fs } in
      let f1 : Freed k aw s1.aw = record {
        deployed = f.deployed;
        quota = f.quota;
        spec_eq = f.spec_eq;
        statuses_eq = f.statuses_eq;
      } in
      if-Returns changed _ (pure (ended none)) s1
        (λ p.
          bind-Returns (update_object k s1) (λ e. pure (ended e)) (update_lem k client s1)
            (λ e s2 q. returned (ended e) s2 (rw q f1)))
        (λ p. returned (ended none) s1 f1)

  unless_lem :
      (aw : AppWrapper) (e : Option Error) (s : State W)
      → Freed k aw s.aw
      → Returns (unless_error e (drop_finalizer k) s) λ o s'. Freed k aw s'.aw
  unless_lem aw none s f = drop_lem aw s f
  unless_lem aw (some x) s f = returned _ s f

  write_lem :
      (aw orig : AppWrapper) (updated : Bool) (s : State W)
      → Freed k aw s.aw
      → Returns (write_release k orig updated s) λ o s'. Freed k aw s'.aw
  unfolding write_release
  write_lem aw orig true s f =
      bind-Returns (patch k orig s) (λ e. unless_error e (drop_finalizer k))
        (patch_lem k client orig s) (λ e s1 q. unless_lem aw e s1 (rw q f))
  write_lem aw orig false s f = drop_lem aw s f

  -- Once the resources are gone, the quota is released.
  release_lem :
      (orig : AppWrapper) (updated : Bool) (s : State W)
      → flag k s.aw resources_deployed ≡ false
      → Returns (release_quota k orig updated s) λ o s'. Freed k s.aw s'.aw
  unfolding release_quota
  release_lem orig updated s d =
      let (n, w) = k.now s.world in
      let m : Message = lit "No resources deployed" ∷ [] in
      let cs =
        k.set_status_condition n s.aw.status.conditions
          (new_condition quota_reserved condition_false "Terminating" m) in
      if-Returns (flag k s.aw quota_reserved) _ (write_release k orig updated) s
        (λ p.
          write_lem s.aw orig true (record { aw = with_conditions s.aw cs; world = w })
            (record {
              deployed =
                  flag_set k meta n s.aw.status.conditions quota_reserved condition_false
                    "Terminating" m resources_deployed
                  ∙ d;
              quota =
                  flag_set k meta n s.aw.status.conditions quota_reserved condition_false
                    "Terminating" m quota_reserved;
              spec_eq = refl;
              statuses_eq = refl;
            }))
        (λ p.
          write_lem s.aw orig updated s
            (record { deployed = d; quota = p; spec_eq = refl; statuses_eq = refl }))

  terminating_lem :
      (orig : AppWrapper) (s : State W)
      → Returns (still_terminating k orig s) λ o s'. s'.aw.metadata ≡ s.aw.metadata
  unfolding still_terminating
  terminating_lem orig s =
      let s1 : State W = record s { aw = with_phase s.aw terminating } in
      if-Returns (is_terminating s.aw.status.phase) (pure (requeue five_seconds none)) _ s
        (λ p. returned _ s refl)
        (λ p.
          bind-Returns (patch k orig s1) (λ _. pure (requeue five_seconds none))
            (patch_lem k client orig s1) (λ e s2 q. returned _ s2 (ap (λ x. x.metadata) q)))

  deleted_or_not :
      (orig : AppWrapper) (m : Message) (gone : Bool) (aw : AppWrapper) (s : State W)
      → SameButDeletion k aw s.aw
      → (gone ≡ true → AllAbsent k aw.spec.components s.aw.status.component_status)
      → Returns
          ((if gone
              then (do
                set_condition k resources_deployed condition_false "Terminating" m
                release_quota k orig true)
              else still_terminating k orig)
            s)
          λ o s'. Ends k aw s'.aw
  deleted_or_not orig m true aw s p a =
      let (n, w) = k.now s.world in
      let cs =
        k.set_status_condition n s.aw.status.conditions
          (new_condition resources_deployed condition_false "Terminating" m) in
      Returns-map
        (release_lem orig true (record { aw = with_conditions s.aw cs; world = w })
          (flag_set k meta n s.aw.status.conditions resources_deployed condition_false "Terminating"
            m resources_deployed))
        (λ o s' f.
          frees f.deployed f.quota (λ _. rw (f.spec_eq, f.statuses_eq, p.spec_eq) (a refl)))
  deleted_or_not orig m false aw s p a =
      Returns-map (terminating_lem orig s) (λ o s' q. keeps (q ∙ p.metadata_eq))

  -- Under the laws of the condition helpers and of the client, on an AppWrapper with as many
  -- component statuses as components, the deletion returns without a panic; and it leaves the
  -- metadata, the finalizers with it, as it is, or neither ResourcesDeployed nor QuotaReserved is
  -- true afterwards. In the second case, where ResourcesDeployed was true before, the status of
  -- each component says that its object is gone.
  pub reconcile_deletion_lem :
      (s : State W)
      → length s.aw.spec.components ≡ length s.aw.status.component_status
      → Returns (reconcile_deletion k s) λ o s'. Ends k s.aw s'.aw
  unfolding reconcile_deletion
  reconcile_deletion_lem s h =
      if-Returns (has_finalizer k s.aw) _ (pure (ended none)) s
        (λ p.
          if-Returns (flag k s.aw resources_deployed) _ (release_quota k s.aw false) s
            (λ d.
              bind-Returns (delete_components k s) _ (delete_components_lem k meta s (omega arith))
                (λ gone s1 q.
                  deleted_or_not s.aw (lit "Resources successfully deleted" ∷ []) gone s.aw s1
                    q.same q.absent))
            (λ d.
              Returns-map (release_lem s.aw false s d)
                (λ o s' f. frees f.deployed f.quota (λ t. absurd (ground (arith, d))))))
        (λ p. returned (ended none) s (keeps refl))
