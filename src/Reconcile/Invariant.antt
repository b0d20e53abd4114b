-- ===== src/Reconcile/Invariant.antt =====
-- The invariant of an AppWrapper between two runs of Reconcile, and the transitions of its phase.
use appwrapper.Base.{
  ℤ, ◌≡◌, ◌≢◌, refl, arith, Bool, true, false, Option, none, some, List, length, String,
  if◌then◌else◌, Option-cases, inl, inr,
}
use appwrapper.Api.{
  AppWrapper, Phase, empty, suspended, resuming, running, resetting, suspending, succeeded, failed,
  terminating, Condition, ConditionType, ConditionStatus, condition_true, quota_reserved,
  resources_deployed, unhealthy, deleting_resources, same_type, same_status, Message,
  app_wrapper_finalizer,
}
use appwrapper.Cluster.{Kit}
use appwrapper.Cluster.Laws.{MetaLaws, stamped}
use appwrapper.Exec.{new_condition}
use appwrapper.Components.Deleted.{SameButDeletion}

-- The transitions of the phase: the first argument is `spec.suspend`. A run of Reconcile that
-- waits leaves the phase. The deletion, which makes the phase Terminating, is not among them.
pub data Edge (b : Bool) (p q : Phase) : Type 0 where
  stay : q ≡ p → Edge b p q
  initialize : p ≡ empty → q ≡ suspended → Edge b p q
  resume : b ≡ false → p ≡ suspended → q ≡ resuming → Edge b p q
  start : b ≡ false → p ≡ resuming → q ≡ running → Edge b p q
  abort : b ≡ true → p ≡ resuming → q ≡ suspending → Edge b p q
  preempt : b ≡ true → p ≡ running → q ≡ suspending → Edge b p q
  preempt_reset : b ≡ true → p ≡ resetting → q ≡ suspending → Edge b p q
  retry_create : b ≡ false → p ≡ resuming → q ≡ resetting → Edge b p q
  give_up_create : b ≡ false → p ≡ resuming → q ≡ failed → Edge b p q
  reset : b ≡ false → p ≡ running → q ≡ resetting → Edge b p q
  give_up : b ≡ false → p ≡ running → q ≡ failed → Edge b p q
  succeed : b ≡ false → p ≡ running → q ≡ succeeded → Edge b p q
  restart : b ≡ false → p ≡ resetting → q ≡ resuming → Edge b p q
  undeployed : p ≡ suspending → q ≡ suspended → Edge b p q

module _ {W : Type 0} (k : Kit W) where
  -- IsStatusConditionTrue on the AppWrapper
  abbrev pub flag : AppWrapper → ConditionType → Bool
  flag aw t = k.is_status_condition_true aw.status.conditions t

  abbrev pub has_finalizer : AppWrapper → Bool
  has_finalizer aw = k.contains_finalizer aw.metadata.finalizers app_wrapper_finalizer

  abbrev pub Found : AppWrapper → ConditionType → Type 0
  Found aw t = (c : Condition) × (k.find_status_condition aw.status.conditions t ≡ some c)

  -- What holds of the quota, the deployed resources and Unhealthy in each phase.
  abbrev pub PhaseOk : AppWrapper → Phase → Type 0
  PhaseOk aw empty = (flag aw quota_reserved ≡ false) × (flag aw resources_deployed ≡ false)
  PhaseOk aw suspended = (flag aw quota_reserved ≡ false) × (flag aw resources_deployed ≡ false)
  PhaseOk aw resuming = (flag aw quota_reserved ≡ true) × (flag aw resources_deployed ≡ true)
  PhaseOk aw running = (flag aw quota_reserved ≡ true) × (flag aw resources_deployed ≡ true)
  PhaseOk aw resetting =
      (flag aw quota_reserved ≡ true) × Found aw unhealthy × (has_finalizer aw ≡ true)
  PhaseOk aw suspending = flag aw quota_reserved ≡ true
  PhaseOk aw succeeded = flag aw quota_reserved ≡ false
  PhaseOk aw failed = flag aw quota_reserved ≡ flag aw resources_deployed
  PhaseOk aw terminating = Unit

  -- The invariant: the conditions agree with the phase, there is a status for each component once
  -- the AppWrapper is initialised, and while resources are deployed the finalizer is there.
  pub record Coherent (aw : AppWrapper) : Type 0 where
    pub phase_ok : PhaseOk aw aw.status.phase
    pub statuses :
        aw.status.phase ≢ empty → length aw.spec.components ≡ length aw.status.component_status
    pub guarded : flag aw resources_deployed ≡ true → has_finalizer aw ≡ true

  -- One run of Reconcile.
  pub record Step (aw aw' : AppWrapper) : Type 0 where
    pub edge : Edge aw.spec.suspend aw.status.phase aw'.status.phase
    pub coherent : Coherent aw'

module _ {W : Type 0} (k : Kit W) (meta : MetaLaws k) where
  stamped_status :
      (n : ℤ) (o : Option Condition) (c : Condition) → (stamped n o c).status ≡ c.status
  stamped_status n none c = refl
  stamped_status n (some old) c = refl

  -- SetStatusCondition sets the flag of its type and leaves the others.
  pub flag_set :
      (n : ℤ) (cs : List Condition) (t : ConditionType) (b : ConditionStatus) (r : String)
      (m : Message) (x : ConditionType)
      → k.is_status_condition_true (k.set_status_condition n cs (new_condition t b r m)) x
        ≡ (if same_type t x then same_status b condition_true else k.is_status_condition_true cs x)
  flag_set n cs t b r m x =
      rw (meta.is_true_find, meta.find_set, meta.is_true_find)
        (ground (arith, stamped_status n (k.find_status_condition cs t) (new_condition t b r m)))

  pub flag_found : (aw : AppWrapper) (x : ConditionType) → flag k aw x ≡ true → Found k aw x
  flag_found aw x h = elim (Option-cases (k.find_status_condition aw.status.conditions x)) [
    | inl e ↦ absurd (ground (arith, meta.is_true_find aw.status.conditions x))
    | inr f ↦ f
  ]

  pub flag_same :
      {aw aw' : AppWrapper}
      → SameButDeletion k aw aw'
      → (x : ConditionType) → same_type deleting_resources x ≡ false
      → flag k aw' x ≡ flag k aw x
  flag_same {aw} {aw'} p x h = rw (meta.is_true_find, p.others x h, meta.is_true_find)
