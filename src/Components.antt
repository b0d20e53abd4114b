-- ===== src/Components.antt =====
-- deleteComponents of internal/controller/appwrapper/resource_management.go.
pub mod Deleted
pub mod Render
pub mod Create
pub mod ListError
use appwrapper.Base.{
  ℤ, ℕ, zero, suc, Bool, true, false, ◌&&◌, ◌||◌, not, Option, none, some, List, [], ◌∷◌, ◌+ℤ◌,
  ltb_ℤ, is_nil, if◌then◌else◌, String,
}
use appwrapper.Base.Text.{Text}
use appwrapper.Base.Result.{ok, err}
use appwrapper.Api.{
  AppWrapper, Component, ComponentStatus, Condition, ConditionType, ConditionStatus, condition_true,
  condition_false, condition_unknown, resources_deployed, deleting_resources, app_wrapper_label,
  Message,
}
use appwrapper.Cluster.{
  Kit, Error, Reply, Pod, DeleteOption, propagation_background, grace_period_seconds, ObjectRef,
  is_not_found,
}
use appwrapper.Exec.{
  State, M, ◌>>=◌, ◌>>◌, pure, deref, get_aw, new_condition, time_now, set_condition, with_status,
}
use appwrapper.Durations.{forceful_deletion_grace_duration}

-- Does the component's condition say that the object is not there?
abbrev pub is_absent : Option Condition → Text → Bool
is_absent none name = true
is_absent (some rd) name = elim rd.status [
  | condition_true ↦ false
  | condition_false ↦ true
  | condition_unknown ↦ is_nil name
]

abbrev pub ref_of : Text → ComponentStatus → ObjectRef
ref_of ns cs = record {
  api_version = cs.api_version;
  kind = cs.kind;
  name = cs.name;
  namespace = ns;
}

abbrev pub with_component_status : AppWrapper → List ComponentStatus → AppWrapper
with_component_status aw css = with_status aw (record aw.status { component_status = css })

module _ {W : Type 0} (k : Kit W) where
  -- clearCondition
  unfoldable pub clear_condition : ConditionType → String → Message → M W Unit
  clear_condition t reason message s =
      if k.is_status_condition_true s.aw.status.conditions t
      then set_condition k t condition_false reason message s
      else some (tt, s)

  -- SetStatusCondition on the conditions of a component
  abbrev pub set_component_condition :
      ConditionStatus → String → ComponentStatus → W → ComponentStatus × W
  set_component_condition b reason cs w =
      let (n, w') = k.now w in
      (
        record cs {
          conditions =
              k.set_status_condition n cs.conditions (new_condition resources_deployed b reason []);
        },
        w',
      )

  after_delete : Option Error → ComponentStatus → W → Bool × ComponentStatus × W
  after_delete none cs w = (true, cs, w)
  after_delete (some e) cs w =
      if is_not_found e
      then (let (cs', w') = set_component_condition condition_false "CompononetDeleted" cs w in
          (false, cs', w'))
      else (true, cs, w)

  -- deleteIfPresent: is the object still present, the component's new status, and the world.
  unfoldable pub delete_if_present :
      DeleteOption → Text → ComponentStatus → W → Bool × ComponentStatus × W
  unfolding after_delete
  delete_if_present opt ns cs w =
      if is_absent (k.find_status_condition cs.conditions resources_deployed) cs.name
      then (false, cs, w)
      else (let (r, w') = k.delete_object (ref_of ns cs) opt w in after_delete r cs w')

  -- The loop over the components, whose statuses stand at the same indices; `none` is an index
  -- out of range.
  unfoldable pub delete_loop :
      DeleteOption
      → Text
      → List Component
      → List ComponentStatus
      → W
      → Option (Bool × List ComponentStatus × W)
  delete_loop opt ns [] css w = some (false, css, w)
  delete_loop opt ns (c ∷ cs) [] w = none
  delete_loop opt ns (c ∷ cs) (s ∷ css) w =
      let (present, s', w') = delete_if_present opt ns s w in
      elim (delete_loop opt ns cs css w') [
        | none ↦ none
        | some (others, css', w'') ↦ some (present || others, s' ∷ css', w'')
      ]

  unfoldable pub delete_each : DeleteOption → M W Bool
  delete_each opt s =
      elim (delete_loop opt s.aw.metadata.namespace s.aw.spec.components
        s.aw.status.component_status s.world) [
          | none ↦ none
          | some (present, css, w) ↦
              some (present, record { aw = with_component_status s.aw css; world = w })
        ]

  unfoldable pub delete_pods : List Pod → M W Unit
  delete_pods [] s = some (tt, s)
  delete_pods (p ∷ ps) s =
      let (r, w) = k.delete_pod p (grace_period_seconds 0) s.world in
      delete_pods ps (record s { world = w })

  abbrev pub pods_or_nil : Reply (List Pod) → List Pod
  pods_or_nil (ok pods) = pods
  pods_or_nil (err e) = []

  -- The pods with the AppWrapper's label; an error of the list is only logged.
  unfoldable pub list_remaining_pods : M W (List Pod)
  list_remaining_pods s =
      let (r, w) =
        k.list_pods s.aw.metadata.namespace app_wrapper_label s.aw.metadata.name s.world in
      some (pods_or_nil r, record s { world = w })

  -- The forceful deletion once the grace period has expired.
  unfoldable pub force_deletion : List Pod → M W Bool
  force_deletion pods =
      if is_nil pods
      then (do _ ← delete_each (grace_period_seconds 0); pure false)
      else (do delete_pods pods; pure false)

  -- What is done with the pods that are left.
  unfoldable pub after_list : Bool → Bool → List Pod → M W Bool
  after_list remaining expired pods =
      if not remaining && is_nil pods
      then (do clear_condition deleting_resources "DeletionComplete" []; pure true)
      else if expired
      then force_deletion pods
      else pure false

  unfoldable pub finish_deletion : Bool → Bool → M W Bool
  finish_deletion remaining expired = do
    pods ← list_remaining_pods
    after_list remaining expired pods

  -- Resources are left and the deadline has not expired, or the pods are looked at.
  unfoldable pub check_deadline : Bool → Bool → M W Bool
  check_deadline remaining expired =
      if remaining && not expired then pure false else finish_deletion remaining expired

  unfoldable pub await_deletion : Bool → M W Bool
  await_deletion remaining = do
    aw ← get_aw
    initiated ← deref (k.find_status_condition aw.status.conditions deleting_resources)
    now ← time_now k
    check_deadline remaining
        (ltb_ℤ (initiated.last_transition_time +ℤ forceful_deletion_grace_duration k aw) now)

  -- deleteComponents: true when no object and no pod is left.
  unfoldable pub delete_components : M W Bool
  delete_components = do
    set_condition k deleting_resources condition_true "DeletionInitiated" []
    remaining ← delete_each propagation_background
    await_deletion remaining
