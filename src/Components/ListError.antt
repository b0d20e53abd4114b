-- ===== src/Components/ListError.antt =====
-- deleteComponents where the list of the pods fails
-- (internal/controller/appwrapper/resource_management.go).
use appwrapper.Base.{
  ◌≡◌, refl, Bool, true, false, none, some, List, [], ◌∷◌, ◌&&◌, not, is_nil, if◌then◌else◌, ltb_ℤ,
  ◌+ℤ◌,
}
use appwrapper.Base.Text.{Text}
use appwrapper.Base.Result.{ok}
use appwrapper.Api.{Component, ComponentStatus, deleting_resources, condition_true}
use appwrapper.Cluster.{Kit, Pod, DeleteOption, propagation_background, grace_period_seconds}
use appwrapper.Exec.{State, ◌>>=◌, ◌>>◌, pure, deref, get_aw, time_now, set_condition}
use appwrapper.Durations.{forceful_deletion_grace_duration}
use appwrapper.Components.{
  with_component_status, pods_or_nil, clear_condition, after_delete, delete_if_present, delete_loop,
  delete_each, delete_pods, list_remaining_pods, force_deletion, after_list, finish_deletion,
  check_deadline, await_deletion, delete_components,
}

-- The cluster that answers a failing list of pods with no pods, and is the same otherwise.
abbrev pub answering : {W : Type 0} → Kit W → Kit W
answering k = record k {
  list_pods = λ ns l n w. (ok (pods_or_nil k (k.list_pods ns l n w).0), (k.list_pods ns l n w).1);
}

module _ {W : Type 0} (k : Kit W) where
  same_loop :
      (opt : DeleteOption) (ns : Text) (cs : List Component) (css : List ComponentStatus) (w : W)
      → delete_loop (answering k) opt ns cs css w ≡ delete_loop k opt ns cs css w
  unfolding delete_loop delete_if_present after_delete
  same_loop opt ns [] css w = refl
  same_loop opt ns (c ∷ cs) [] w = refl
  same_loop opt ns (c ∷ cs) (s ∷ css) w =
      let (present, s', w') = delete_if_present k opt ns s w in
      rw (delete_loop, same_loop opt ns cs css w') refl

  same_each : (opt : DeleteOption) → delete_each (answering k) opt ≡ delete_each k opt
  unfolding delete_each
  same_each opt = λ i s.
      elim (same_loop opt s.aw.metadata.namespace s.aw.spec.components s.aw.status.component_status
        s.world i) [
          | none ↦ none
          | some (present, css, w) ↦
              some (present, record { aw = with_component_status s.aw css; world = w })
        ]

  same_pods : (ps : List Pod) → delete_pods (answering k) ps ≡ delete_pods k ps
  unfolding delete_pods
  same_pods [] = refl
  same_pods (p ∷ ps) = λ i s.
      same_pods ps i (record s { world = (k.delete_pod p (grace_period_seconds 0) s.world).1 })

  same_force : (ps : List Pod) → force_deletion (answering k) ps ≡ force_deletion k ps
  unfolding force_deletion
  same_force [] = λ i. do _ ← same_each (grace_period_seconds 0) i; pure false
  same_force (p ∷ ps) = λ i. do same_pods (p ∷ ps) i; pure false

  same_after :
      (remaining expired : Bool) (ps : List Pod)
      → after_list (answering k) remaining expired ps ≡ after_list k remaining expired ps
  unfolding after_list clear_condition
  same_after remaining true ps = λ i.
      if not remaining && is_nil ps
      then (do clear_condition k deleting_resources "DeletionComplete" []; pure true)
      else same_force ps i
  same_after remaining false ps = refl

  same_finish :
      (remaining expired : Bool)
      → finish_deletion (answering k) remaining expired ≡ finish_deletion k remaining expired
  unfolding finish_deletion list_remaining_pods
  same_finish remaining expired =
      λ i. do pods ← list_remaining_pods k; same_after remaining expired pods i

  same_check :
      (remaining expired : Bool)
      → check_deadline (answering k) remaining expired ≡ check_deadline k remaining expired
  unfolding check_deadline
  same_check remaining expired =
      λ i. if remaining && not expired then pure false else same_finish remaining expired i

  same_await :
      (remaining : Bool) → await_deletion (answering k) remaining ≡ await_deletion k remaining
  unfolding await_deletion forceful_deletion_grace_duration appwrapper.Durations.limit_duration
  same_await remaining = λ i. do
    aw ← get_aw
    initiated ← deref (k.find_status_condition aw.status.conditions deleting_resources)
    now ← time_now k
    same_check remaining
        (ltb_ℤ (initiated.last_transition_time +ℤ forceful_deletion_grace_duration k aw) now) i

  same_deletion : delete_components (answering k) ≡ delete_components k
  unfolding delete_components
  same_deletion = λ i. do
    set_condition k deleting_resources condition_true "DeletionInitiated" []
    remaining ← same_each propagation_background i
    same_await remaining i

  -- A run of deleteComponents is the same, in its answer, the AppWrapper and the cluster, as on
  -- the cluster that answers each list of pods that fails with no pods and is the same otherwise:
  -- no error of the list reaches the caller.
  pub delete_components-answering :
      (s : State W) → delete_components (answering k) s ≡ delete_components k s
  delete_components-answering s = λ i. same_deletion i s
