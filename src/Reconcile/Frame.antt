-- ===== src/Reconcile/Frame.antt =====
-- What the shared parts of Reconcile change: the conditions, the phase and the retries.
use appwrapper.Base.{
  ℤ, ◌≡◌, ◌≢◌, refl, sym, ◌∙◌, arith, Bool, false, ◌&&◌, not, Option, none, some, length, String,
  if◌then◌else◌, Bool-cases, inl, inr, int32, ltb_ℤ, ◌+ℤ◌,
}
use appwrapper.Base.Result.{Result-cases}
use appwrapper.Api.{
  AppWrapper, Phase, empty, resetting, failed, ConditionType, ConditionStatus, condition_false,
  quota_reserved, resources_deployed, same_type, Message,
}
use appwrapper.Cluster.{Kit, Error}
use appwrapper.Cluster.Laws.{MetaLaws, ClientLaws}
use appwrapper.Exec.{State, pure, new_condition, with_conditions, with_phase, with_status, patch}
use appwrapper.Exec.Returns.{Returns, returned, bind-Returns}
use appwrapper.Durations.{retry_limit}
use appwrapper.Components.{clear_condition}
use appwrapper.Reconcile.Running.{
  ended, requeue, count_transition, transition_to_phase, reset_or_fail, patch_and_requeue,
}
use appwrapper.Reconcile.Invariant.{Edge, flag, PhaseOk, Coherent, Step, flag_set}

module _ {W : Type 0} (k : Kit W) where
  -- The same but for conditions other than the two that the invariant ties to the phase, for the
  -- retries and for the component statuses, of which there are as many.
  pub record Alike (aw aw' : AppWrapper) : Type 0 where
    pub metadata_eq : aw'.metadata ≡ aw.metadata
    pub spec_eq : aw'.spec ≡ aw.spec
    pub phase_eq : aw'.status.phase ≡ aw.status.phase
    pub length_eq : length aw'.status.component_status ≡ length aw.status.component_status
    pub quota_eq : flag k aw' quota_reserved ≡ flag k aw quota_reserved
    pub deployed_eq : flag k aw' resources_deployed ≡ flag k aw resources_deployed

  pub Alike-refl : (a : AppWrapper) → Alike a a
  Alike-refl a = ground arith

  pub Alike-trans : (a b c : AppWrapper) → Alike a b → Alike b c → Alike a c
  Alike-trans a b c p q = record {
    metadata_eq = q.metadata_eq ∙ p.metadata_eq;
    spec_eq = q.spec_eq ∙ p.spec_eq;
    phase_eq = q.phase_eq ∙ p.phase_eq;
    length_eq = q.length_eq ∙ p.length_eq;
    quota_eq = q.quota_eq ∙ p.quota_eq;
    deployed_eq = q.deployed_eq ∙ p.deployed_eq;
  }

  -- A move to another phase, from an AppWrapper that the run has changed a little.
  pub moved_to :
      (aw aw' : AppWrapper) (p : Phase)
      → Coherent k aw
      → aw.status.phase ≢ empty
      → Alike aw aw'
      → Edge aw.spec.suspend aw.status.phase p
      → PhaseOk k (with_phase aw' p) p
      → Step k aw (with_phase aw' p)
  moved_to aw aw' p c n a e o = record {
    edge = e;
    coherent = record {
      phase_ok = o;
      statuses = λ _. rw (a.spec_eq, a.length_eq) (c.statuses n);
      guarded = λ d. rw a.metadata_eq (c.guarded (sym a.deployed_eq ∙ d));
    };
  }

module _ {W : Type 0} (k : Kit W) (meta : MetaLaws k) where
  -- A condition that the invariant does not tie to the phase.
  pub set_Alike :
      (n : ℤ) (aw : AppWrapper) (t : ConditionType) (b : ConditionStatus) (r : String) (m : Message)
      → same_type t quota_reserved ≡ false
      → same_type t resources_deployed ≡ false
      → Alike k aw (
          with_conditions aw
            (k.set_status_condition n aw.status.conditions (new_condition t b r m)))
  set_Alike n aw t b r m hq hd = record {
    metadata_eq = refl;
    spec_eq = refl;
    phase_eq = refl;
    length_eq = refl;
    quota_eq = rw (flag_set k meta n aw.status.conditions t b r m quota_reserved, hq);
    deployed_eq = rw (flag_set k meta n aw.status.conditions t b r m resources_deployed, hd);
  }

  pub clear_Alike :
      (t : ConditionType) (r : String) (m : Message) (s : State W)
      → same_type t quota_reserved ≡ false
      → same_type t resources_deployed ≡ false
      → Returns (clear_condition k t r m s) λ _ s'. Alike k s.aw s'.aw
  unfolding clear_condition
  clear_Alike t r m s hq hd =
      elim (Bool-cases (k.is_status_condition_true s.aw.status.conditions t)) [
        | inl p ↦
            rw (p, clear_condition)
              (returned tt _ (set_Alike (k.now s.world).0 s.aw t condition_false r m hq hd))
        | inr p ↦ rw (p, clear_condition) (returned tt _ (Alike-refl k s.aw))
      ]

-- The AppWrapper after resetOrFail.
abbrev pub reset_result : {W : Type 0} → Kit W → Bool → ℤ → AppWrapper → AppWrapper
reset_result k terminal increment aw =
    if not terminal && ltb_ℤ aw.status.retries (retry_limit k aw)
    then with_phase
        (with_status aw (record aw.status { retries = int32 (aw.status.retries +ℤ increment) }))
        resetting
    else with_phase aw failed

module _ {W : Type 0} (k : Kit W) (client : ClientLaws k) where
  pub patch_lem : (orig : AppWrapper) (s : State W) → Returns (patch k orig s) λ e s'. s'.aw ≡ s.aw
  patch_lem orig s = elim (Result-cases (k.patch_status s.aw orig s.world).0) [
    | inl (aw, e) ↦ rw e (returned none _ (client.patched s.aw orig aw s.world e))
    | inr (x, e) ↦ rw e (returned (some x) _ refl)
  ]

  pub requeue_lem :
      (orig : AppWrapper) (d : ℤ) (s : State W)
      → Returns (patch_and_requeue k orig d s) λ o s'. s'.aw ≡ s.aw
  unfolding patch_and_requeue
  requeue_lem orig d s =
      bind-Returns (patch k orig s) (λ e. pure (requeue d e)) (patch_lem orig s)
        (λ e s1 q. returned (requeue d e) s1 q)

  counted :
      (orig : AppWrapper) (p : Phase) (e : Option Error) (s : State W) {aw : AppWrapper}
      → s.aw ≡ aw
      → Returns (count_transition k orig p e s) λ o s'. s'.aw ≡ aw
  counted orig p none s q = returned (ended none) _ q
  counted orig p (some x) s q = returned (ended (some x)) s q

  pub transition_lem :
      (orig : AppWrapper) (p : Phase) (s : State W)
      → Returns (transition_to_phase k orig p s) λ o s'. s'.aw ≡ with_phase s.aw p
  unfolding transition_to_phase
  transition_lem orig p s =
      let s1 : State W = record s { aw = with_phase s.aw p } in
      bind-Returns (patch k orig s1) (count_transition k orig p) (patch_lem orig s1)
        (λ e s2 q. counted orig p e s2 q)

  -- Where a write that the server accepts comes back as it was sent, resetOrFail returns without
  -- a panic, with an AppWrapper in memory that is in the phase Resetting with the increment added
  -- to its retries, if the failure is not terminal and retries are left, and otherwise in the
  -- phase Failed; nothing else of it changes.
  pub reset_or_fail_lem :
      (orig : AppWrapper) (terminal : Bool) (increment : ℤ) (s : State W)
      → Returns
          (reset_or_fail k orig terminal increment s)
          λ o s'. s'.aw ≡ reset_result k terminal increment s.aw
  unfolding reset_or_fail
  reset_or_fail_lem orig terminal increment s =
      elim (Bool-cases (not terminal && ltb_ℤ s.aw.status.retries (retry_limit k s.aw))) [
        | inl p ↦
            rw (p, reset_or_fail)
              (transition_lem orig resetting (record s {
                aw =
                    with_status s.aw
                      (record s.aw.status { retries = int32 (s.aw.status.retries +ℤ increment) });
              }))
        | inr p ↦ rw (p, reset_or_fail) (transition_lem orig failed s)
      ]
