-- ===== src/Reconcile/Start.antt =====
-- Reconcile in the phase that an AppWrapper starts in, and in the phase Suspended.
use appwrapper.Base.{
  ◌≡◌, refl, sym, true, false, Option, none, some, inl, inr, arith, List, ◌⊎◌, length,
}
use appwrapper.Base.Text.{Text}
use appwrapper.Base.Result.{ok, err, Result-cases}
use appwrapper.Api.{
  AppWrapper, empty, suspended, resuming, quota_reserved, resources_deployed, app_wrapper_finalizer,
}
use appwrapper.Cluster.{Kit, Error}
use appwrapper.Cluster.Laws.{MetaLaws, FinalizerLaws, ClientLaws}
use appwrapper.Exec.{State, pure, update_object, with_phase}
use appwrapper.Exec.Returns.{Returns, returned, bind-Returns, Returns-map, if-Returns}
use appwrapper.PodSets.{ensure_component_status_initialized}
use appwrapper.PodSets.Initialized.{ensure-length}
use appwrapper.Reconcile.{
  begin_deployment, reconcile_empty, reconcile_suspended, with_finalizers, unless_error,
}
use appwrapper.Reconcile.Running.{ended}
use appwrapper.Reconcile.Invariant.{initialize, resume, stay, flag, Coherent, Step, flag_set}
use appwrapper.Reconcile.Frame.{transition_lem}

module _ {W : Type 0} (k : Kit W) (client : ClientLaws k) where
  initialized :
      (aw aw1 aw2 : AppWrapper)
      → Coherent k aw
      → aw.status.phase ≡ empty
      → ensure_component_status_initialized k.lib aw ≡ ok aw1
      → aw2 ≡ with_phase aw1 suspended
      → Step k aw aw2
  initialized aw aw1 aw2 c phase e q =
      let (l, m, sp, ph, _, cs) = ensure-length k.lib aw aw1 e in
      let no : (flag k aw quota_reserved ≡ false) × (flag k aw resources_deployed ≡ false) =
        (rw phase at c.phase_ok) in
      rw q (record {
        edge = initialize phase refl;
        coherent = record {
          phase_ok = rw cs no;
          statuses = λ _. sym l;
          guarded = rw (m, cs) c.guarded;
        };
      })

  -- From a new AppWrapper (in the phase Empty) for which the invariant holds, and under the laws
  -- of the client, Reconcile returns without a panic whatever the cluster answers, and the
  -- invariant holds again of the AppWrapper in memory; it is in the phase Suspended with one
  -- status for each component, or EnsureComponentStatusInitialized failed, and Reconcile returns
  -- its error and leaves the AppWrapper as it was.
  pub reconcile_empty-Step :
      (s : State W)
      → Coherent k s.aw
      → s.aw.status.phase ≡ empty
      → Returns (reconcile_empty k s) λ o s'.
        Step k s.aw s'.aw
        × (((s'.aw.status.phase ≡ suspended)
              × (length s'.aw.status.component_status ≡ length s'.aw.spec.components))
            ⊎ ((e : Error) × (ensure_component_status_initialized k.lib s.aw ≡ err e)
                × (o ≡ ended (some e))
                × (s'.aw ≡ s.aw)))
  unfolding reconcile_empty
  reconcile_empty-Step s c phase =
      elim (Result-cases (ensure_component_status_initialized k.lib s.aw)) [
        | inl (aw, e) ↦
            rw (e, reconcile_empty)
              (Returns-map (transition_lem k client s.aw suspended (record s { aw = aw }))
                (λ o s' q. (
                  initialized s.aw aw s'.aw c phase e q,
                  rw q (inl (refl, (ensure-length k.lib s.aw aw e).0)),
                )))
        | inr (x, e) ↦
            rw (e, reconcile_empty)
              (returned _ s (record { edge = stay refl; coherent = c }, inr (x, refl, refl, refl)))
      ]

module _ {W : Type 0} (k : Kit W) (meta : MetaLaws k) (fin : FinalizerLaws k)
    (client : ClientLaws k) (aw : AppWrapper) (c : Coherent k aw)
    (phase : aw.status.phase ≡ suspended) where
  no_flags : (flag k aw quota_reserved ≡ false) × (flag k aw resources_deployed ≡ false)
  no_flags = rw phase at c.phase_ok

  begin-Step :
      (fs : List Text) (w : W)
      → aw.spec.suspend ≡ false
      → k.contains_finalizer fs app_wrapper_finalizer ≡ true
      → Returns
          (begin_deployment k (record { aw = with_finalizers aw fs; world = w }))
          λ o s'. Step k aw s'.aw
  unfolding begin_deployment
  begin-Step fs w active h =
      Returns-map (transition_lem k client (with_finalizers aw fs) resuming _) (λ o s' e.
        rw e (record {
          edge = resume active phase refl;
          coherent = record {
            phase_ok = simp (flag_set k meta) (refl, refl);
            statuses = λ _. c.statuses (λ x. cc);
            guarded = λ _. h;
          };
        }))

  still_suspended : (fs : List Text) → Step k aw (with_finalizers aw fs)
  still_suspended fs = record {
    edge = stay refl;
    coherent = record {
      phase_ok = rw phase no_flags;
      statuses = c.statuses;
      guarded = λ d. absurd (ground (arith, no_flags));
    };
  }

  after_update :
      (fs : List Text) (e : Option Error) (s : State W)
      → s.aw ≡ with_finalizers aw fs
      → aw.spec.suspend ≡ false
      → k.contains_finalizer fs app_wrapper_finalizer ≡ true
      → Returns (unless_error e (begin_deployment k) s) λ o s'. Step k aw s'.aw
  after_update fs none s q active h = rw q (begin-Step fs s.world active h)
  after_update fs (some x) s q active h = returned _ s (rw q (still_suspended fs))

module _ {W : Type 0} (k : Kit W) (client : ClientLaws k) where
  pub update_lem : (s : State W) → Returns (update_object k s) λ e s'. s'.aw ≡ s.aw
  update_lem s = elim (Result-cases (k.update s.aw s.world).0) [
    | inl (aw, e) ↦ rw e (returned none _ (client.updated s.aw aw s.world e))
    | inr (x, e) ↦ rw e (returned (some x) _ refl)
  ]

module _ {W : Type 0} (k : Kit W) (meta : MetaLaws k) (fin : FinalizerLaws k)
    (client : ClientLaws k) where
  -- From an AppWrapper in the phase Suspended for which the invariant holds, and under the laws
  -- of the condition helpers, of the finalizer helpers and of the client, Reconcile returns
  -- without a panic whatever the cluster answers, the phase has moved along an edge of the state
  -- machine or stayed, and the invariant holds again of the AppWrapper in memory.
  pub reconcile_suspended-Step :
      (s : State W)
      → Coherent k s.aw
      → s.aw.status.phase ≡ suspended
      → Returns (reconcile_suspended k s) λ o s'. Step k s.aw s'.aw
  unfolding reconcile_suspended
  reconcile_suspended-Step s c phase =
      let (changed, fs) = k.add_finalizer s.aw.metadata.finalizers app_wrapper_finalizer in
      let h = fin.contains_add s.aw.metadata.finalizers app_wrapper_finalizer in
      let s1 : State W = record s { aw = with_finalizers s.aw fs } in
      if-Returns s.aw.spec.suspend (pure (ended none)) _ s
        (λ p. returned (ended none) s (record { edge = stay refl; coherent = c }))
        (λ p.
          if-Returns changed _ (begin_deployment k) s1
            (λ q.
              bind-Returns (update_object k s1) (λ e. unless_error e (begin_deployment k))
                (update_lem k client s1)
                (λ e s2 r. after_update k meta fin client s.aw c phase fs e s2 r p h))
            (λ q. begin-Step k meta fin client s.aw c phase fs s.world p h))
