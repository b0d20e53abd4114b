-- ===== src/Workload/Reachable.antt =====
-- The life of an AppWrapper under its two controllers: runs of Reconcile
-- (internal/controller/appwrapper/appwrapper_controller.go) in any order with the calls of Kueue
-- (internal/controller/workload/workload_controller.go), until its deletion is requested.
use appwrapper.Base.{
  ◌≡◌, ◌≢◌, refl, sym, ap, ◌∙◌, ◌⊎◌, inl, inr, suc, true, false, Option, none, some, List, [], ◌∷◌,
  length, Bool-cases,
}
use appwrapper.Api.{
  AppWrapper, Phase, empty, suspended, resuming, running, resetting, suspending, succeeded, failed,
  terminating, Component, ComponentStatus, PodSetInfo, quota_reserved, resources_deployed,
}
use appwrapper.Cluster.{Kit, Error}
use appwrapper.Cluster.Laws.{MetaLaws, FinalizerLaws, ClientLaws}
use appwrapper.Exec.{State}
use appwrapper.PodSets.{cleared, clear_pod_set_infos}
use appwrapper.PodSets.Assign.{set_pod_set_infos_lem, set_pod_set_infos_status}
use appwrapper.Components.{with_component_status}
use appwrapper.Components.Render.{render}
use appwrapper.Components.Create.All.{Renders}
use appwrapper.Reconcile.{Outcome, reconcile_object, with_finalizers}
use appwrapper.Reconcile.Reads.{Readable}
use appwrapper.Reconcile.Invariant.{flag, PhaseOk, Coherent}
use appwrapper.Reconcile.Every.{reconcile_object-Step}
use appwrapper.Workload.{
  suspend, with_suspend, when_stored, run_with_pod_sets_info, restore_pod_sets_info, is_active,
  finished, finished_in,
}

-- What the API server holds after a run from `a` that ends in memory as `b`. Without an error the
-- last patch went through. With an error it did not, or there was none; before it, the phase Suspended
-- may have stored the finalizer, and the phase Resuming the statuses of some components.
pub data Stored (a : AppWrapper) (o : Outcome) (b : AppWrapper) : AppWrapper → Type 0 where
  written :
      (css : List ComponentStatus)
      → o.error ≡ none
      → length css ≡ length b.status.component_status
      → Stored a o b (with_component_status b css)
  unwritten :
      (css : List ComponentStatus)
      → o.error ≢ none
      → length css ≡ length a.status.component_status
      → Stored a o b (with_component_status a css)
  finalized :
      o.error ≢ none
      → a.status.phase ≡ suspended
      → Stored a o b (with_finalizers a b.metadata.finalizers)

module _ {W : Type 0} (k : Kit W) where
  pub data Reachable : AppWrapper → Type 0 where
    created :
        (aw : AppWrapper)
        → aw.status.phase ≡ empty
        → flag k aw quota_reserved ≡ false
        → flag k aw resources_deployed ≡ false
        → Reachable aw
    reconciled :
        (s : State W) (o : Outcome) (s' : State W) (aw : AppWrapper)
        → Reachable s.aw
        → s.aw.metadata.deletion_timestamp ≡ none
        → (s.aw.status.phase ≡ resuming → Renders (render k) s.aw)
        → reconcile_object k (render k) s ≡ some (o, s')
        → Stored s.aw o s'.aw aw
        → Reachable aw
    stopped : (aw : AppWrapper) → Reachable aw → Reachable (suspend aw)
    admitted :
        (aw aw' : AppWrapper) (infos : List PodSetInfo)
        → Reachable aw
        → run_with_pod_sets_info k.lib aw infos ≡ some (aw', none)
        → Reachable aw'
    restored : (aw : AppWrapper) → Reachable aw → Reachable (restore_pod_sets_info aw).0

length-cleared : (cs : List Component) → length (cleared cs) ≡ length cs
length-cleared [] = refl
length-cleared (c ∷ cs) = ap (λ n. suc n) (length-cleared cs)

when_stored_ok :
    (r : AppWrapper × Option Error) (aw : AppWrapper)
    → when_stored r ≡ (aw, none)
    → (r.1 ≡ none) × (with_suspend false r.0 ≡ aw)
when_stored_ok (x, none) aw h = (refl, ap (λ (p : AppWrapper × Option Error). p.0) h)
when_stored_ok (x, some e) aw h =
    absurd (let z : some e ≡ none = ap (λ (p : AppWrapper × Option Error). p.1) h in cc)

module _ {W : Type 0} (k : Kit W) where
  PhaseOk-same :
      (aw aw' : AppWrapper) (q p : Phase)
      → q ≡ p
      → aw'.status.conditions ≡ aw.status.conditions
      → aw'.metadata ≡ aw.metadata
      → PhaseOk k aw p
      → PhaseOk k aw' q
  PhaseOk-same aw aw' q p e c m h = rw e (go p h)
    where
      go : (p : Phase) → PhaseOk k aw p → PhaseOk k aw' p
      go empty h = rw c h
      go suspended h = rw c h
      go resuming h = rw c h
      go running h = rw c h
      go resetting h = rw (c, m) h
      go suspending h = rw c h
      go succeeded h = rw c h
      go failed h = rw c h
      go terminating h = tt

  -- A change of the spec that keeps the number of components.
  respecified :
      (aw aw' : AppWrapper)
      → Coherent k aw
      → aw'.status.phase ≡ aw.status.phase
      → aw'.status.conditions ≡ aw.status.conditions
      → aw'.metadata ≡ aw.metadata
      → (aw.status.phase ≢ empty → length aw'.spec.components ≡ length aw'.status.component_status)
      → Coherent k aw'
  respecified aw aw' c phase conditions metadata lengths = record {
    phase_ok =
        PhaseOk-same aw aw' aw'.status.phase aw.status.phase phase conditions metadata c.phase_ok;
    statuses = λ n. lengths (λ e. n (phase ∙ e));
    guarded = rw (conditions, metadata) c.guarded;
  }

  -- The invariant does not depend on what the component statuses say.
  with_statuses-Coherent :
      (aw : AppWrapper) (css : List ComponentStatus)
      → Coherent k aw
      → length css ≡ length aw.status.component_status
      → Coherent k (with_component_status aw css)
  with_statuses-Coherent aw css c h = record {
    phase_ok =
        PhaseOk-same aw (with_component_status aw css) _ aw.status.phase refl refl refl c.phase_ok;
    statuses = λ n. c.statuses n ∙ sym h;
    guarded = c.guarded;
  }

  stored-Coherent :
      (a b aw : AppWrapper) (o : Outcome)
      → Coherent k a
      → Coherent k b
      → Stored a o b aw
      → Coherent k aw
  stored-Coherent a b aw o ca cb (written css e h) = with_statuses-Coherent b css cb h
  stored-Coherent a b aw o ca cb (unwritten css e h) = with_statuses-Coherent a css ca h
  stored-Coherent a b aw o ca cb (finalized e phase) =
      let no : (flag k a quota_reserved ≡ false) × (flag k a resources_deployed ≡ false) =
        (rw phase at ca.phase_ok) in
      record {
        phase_ok = rw phase no;
        statuses = ca.statuses;
        guarded = λ d. absurd (let z : true ≡ false = sym d ∙ no.1 in cc);
      }

  with_infos :
      (aw aw' : AppWrapper) (infos : List PodSetInfo)
      → run_with_pod_sets_info k.lib aw infos ≡ some (aw', none)
      → (aw'.status.phase ≡ aw.status.phase)
        × (aw'.status.conditions ≡ aw.status.conditions)
        × (aw'.metadata ≡ aw.metadata)
        × (length aw'.spec.components ≡ length aw'.status.component_status)
  unfolding run_with_pod_sets_info
  with_infos aw aw' infos h =
      let (r, run, facts) = set_pod_set_infos_lem k.lib aw infos in
      let q : when_stored r ≡ (aw', none) =
        (let z : some (when_stored r) ≡ some (aw', none) = rw (run_with_pod_sets_info, run) at h in
          cc) in
      let (fine, same) = when_stored_ok r aw' q in
      let (infos_eq, cleared_eq, metadata) = facts fine in
      let (phase, conditions, lengths) = set_pod_set_infos_status k.lib aw r.0 infos r.1 run fine in
      rw (sym same) (
        phase,
        conditions,
        metadata,
        sym (length-cleared r.0.spec.components)
            ∙ ap length cleared_eq
            ∙ length-cleared aw.spec.components
            ∙ lengths,
      )

  module _ (meta : MetaLaws k) (fin : FinalizerLaws k) (client : ClientLaws k)
      (readable : Readable k) where
    -- Under the same laws, the invariant holds of every AppWrapper that is reached from a new one
    -- (in the phase Empty, with neither QuotaReserved nor ResourcesDeployed true), before its
    -- deletion is requested, by runs of Reconcile (with renderings that do not panic in the phase
    -- Resuming) and by calls of Suspend, RunWithPodSetsInfo and RestorePodSetsInfo, in any order.
    -- A run goes on from what the server holds: the AppWrapper in memory when the run ended
    -- without an error, and otherwise the one before it, where the finalizer may have been added
    -- in the phase Suspended; the component statuses may say anything in both cases.
    pub Reachable-Coherent : (aw : AppWrapper) → Reachable k aw → Coherent k aw
    unfolding clear_pod_set_infos
    Reachable-Coherent aw (created _ phase quota deployed) = record {
      phase_ok = rw phase (quota, deployed);
      statuses = λ n. absurd (n phase);
      guarded = λ d. absurd cc;
    }
    Reachable-Coherent aw (reconciled s o s' _ before alive renders run stored) =
        let c = Reachable-Coherent s.aw before in
        let r = reconcile_object-Step k meta fin client readable (render k) s c alive renders in
        let same : r.state ≡ s' =
          (let e : some (r.value, r.state) ≡ some (o, s') = sym r.eq ∙ run in cc) in
        stored-Coherent s.aw s'.aw aw o c (rw same at r.holds.coherent) stored
    Reachable-Coherent aw (stopped old before) =
        let c = Reachable-Coherent old before in
        respecified old (suspend old) c refl refl refl c.statuses
    Reachable-Coherent aw (admitted old _ infos before run) =
        let (phase, conditions, metadata, lengths) = with_infos old aw infos run in
        respecified old aw (Reachable-Coherent old before) phase conditions metadata (λ _. lengths)
    Reachable-Coherent aw (restored old before) =
        let c = Reachable-Coherent old before in
        respecified old (restore_pod_sets_info old).0 c refl refl refl
          (λ n. length-cleared old.spec.components ∙ c.statuses n)

    -- Under the laws of the condition helpers, the finalizers and the client, and where no status
    -- of a Job or PyTorchJob makes the reading of it panic: in every AppWrapper that is reached
    -- from a new one by runs of Reconcile (with renderings that do not panic in the phase
    -- Resuming) and by calls of Kueue, before its deletion is requested: if Kueue is told that
    -- the job is finished, QuotaReserved is not true; and if ResourcesDeployed is true, then
    -- QuotaReserved is true, or the phase is Succeeded or Terminating. A run goes on from what
    -- the server holds: the AppWrapper in memory when the run ended without an error, and
    -- otherwise the one before it, where the finalizer may have been added in the phase
    -- Suspended; the component statuses may say anything in both cases.
    pub quota_accounting :
        (aw : AppWrapper)
        → Reachable k aw
        → ((finished k aw).finished ≡ true → is_active k aw ≡ false)
          × (flag k aw resources_deployed ≡ true
              → (is_active k aw ≡ true)
                ⊎ (aw.status.phase ≡ succeeded)
                ⊎ (aw.status.phase ≡ terminating))
    unfolding finished
    quota_accounting aw r = go aw.status.phase (Reachable-Coherent aw r).phase_ok
      where
        go :
            (p : Phase)
            → PhaseOk k aw p
            → ((finished_in k aw p).finished ≡ true → is_active k aw ≡ false)
              × (flag k aw resources_deployed ≡ true
                  → (is_active k aw ≡ true) ⊎ (p ≡ succeeded) ⊎ (p ≡ terminating))
        go empty h = (λ f. absurd cc, λ d. absurd (let (a, b) = h in cc))
        go suspended h = (λ f. absurd cc, λ d. absurd (let (a, b) = h in cc))
        go resuming h = (λ f. absurd cc, λ d. inl h.0)
        go running h = (λ f. absurd cc, λ d. inl h.0)
        go resetting h = (λ f. absurd cc, λ d. inl h.0)
        go suspending h = (λ f. absurd cc, λ d. inl h)
        go succeeded h = (λ f. h, λ d. inr (inl refl))
        go failed h = elim (Bool-cases (flag k aw resources_deployed)) [
          | inl d ↦ rw d (λ f. absurd cc, λ _. inl (h ∙ d))
          | inr d ↦ rw d (λ f. h ∙ d, λ x. absurd cc)
        ]
        go terminating h = (λ f. absurd cc, λ d. inr (inr refl))
