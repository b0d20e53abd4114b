-- ===== src/Components/Deleted.antt =====
-- What deleteComponents leaves behind
-- (internal/controller/appwrapper/resource_management.go).
use appwrapper.Base.{
  ℤ, String, suc, ◌≤◌, ◌≡◌, refl, ap, ◌∙◌, arith, Bool, true, false, ◌||◌, Option, none, some, List,
  [], ◌∷◌, length, ltb_ℤ, ◌+ℤ◌, if◌then◌else◌, Bool-cases, inl, inr,
}
use appwrapper.Base.Text.{Text}
use appwrapper.Api.{
  AppWrapper, Component, ComponentStatus, Condition, ConditionType, ConditionStatus, condition_true,
  condition_false, resources_deployed, deleting_resources, same_type, Message, app_wrapper_label,
}
use appwrapper.Cluster.{
  Kit, Pod, DeleteOption, Error, is_not_found, propagation_background, grace_period_seconds,
}
use appwrapper.Cluster.Laws.{MetaLaws}
use appwrapper.Exec.{State, pure, new_condition, with_conditions}
use appwrapper.Durations.{forceful_deletion_grace_duration}
use appwrapper.Exec.Returns.{Returns, returned, bind-Returns, Returns-map}
use appwrapper.Components.{
  is_absent, pods_or_nil, clear_condition, after_delete, delete_if_present, delete_loop,
  delete_each, delete_pods, list_remaining_pods, force_deletion, after_list, finish_deletion,
  check_deadline, await_deletion, delete_components,
}

module _ {W : Type 0} (k : Kit W) where
  -- The component's status says that its object is not in the cluster.
  abbrev pub IsAbsent : ComponentStatus → Type 0
  IsAbsent cs = is_absent (k.find_status_condition cs.conditions resources_deployed) cs.name ≡ true

  -- So it is for the status of each component.
  abbrev pub AllAbsent : List Component → List ComponentStatus → Type 0
  AllAbsent [] css = Unit
  AllAbsent (c ∷ cs) [] = ⊥
  AllAbsent (c ∷ cs) (s ∷ css) = IsAbsent s × AllAbsent cs css

  -- The same AppWrapper, but for the condition DeletingResources and the component statuses.
  pub record SameButDeletion (aw aw' : AppWrapper) : Type 0 where
    pub metadata_eq : aw'.metadata ≡ aw.metadata
    pub spec_eq : aw'.spec ≡ aw.spec
    pub phase_eq : aw'.status.phase ≡ aw.status.phase
    pub retries_eq : aw'.status.retries ≡ aw.status.retries
    pub length_eq : length aw'.status.component_status ≡ length aw.status.component_status
    pub others :
        (x : ConditionType)
        → same_type deleting_resources x ≡ false
        → k.find_status_condition aw'.status.conditions x
          ≡ k.find_status_condition aw.status.conditions x

  SameButDeletion-refl : (aw : AppWrapper) → SameButDeletion aw aw
  SameButDeletion-refl aw = record {
    metadata_eq = refl;
    spec_eq = refl;
    phase_eq = refl;
    retries_eq = refl;
    length_eq = refl;
    others = λ x h. refl;
  }

  SameButDeletion-trans :
      (a b c : AppWrapper) → SameButDeletion a b → SameButDeletion b c → SameButDeletion a c
  SameButDeletion-trans a b c p q = record {
    metadata_eq = q.metadata_eq ∙ p.metadata_eq;
    spec_eq = q.spec_eq ∙ p.spec_eq;
    phase_eq = q.phase_eq ∙ p.phase_eq;
    retries_eq = q.retries_eq ∙ p.retries_eq;
    length_eq = q.length_eq ∙ p.length_eq;
    others = λ x h. q.others x h ∙ p.others x h;
  }

module _ {W : Type 0} (k : Kit W) (laws : MetaLaws k) where
  after_delete-IsAbsent :
      (r : Option Error) (cs : ComponentStatus) (w : W)
      → (after_delete k r cs w).0 ≡ false
      → IsAbsent k (after_delete k r cs w).1
  unfolding after_delete
  after_delete-IsAbsent none cs w h = cc
  after_delete-IsAbsent (some e) cs w h = elim (Bool-cases (is_not_found e)) [
    | inl p ↦ rw p (rw laws.find_set (ground arith))
    | inr p ↦ ground arith
  ]

  delete_if_present-IsAbsent :
      (opt : DeleteOption) (ns : Text) (cs : ComponentStatus) (w : W)
      → (delete_if_present k opt ns cs w).0 ≡ false
      → IsAbsent k (delete_if_present k opt ns cs w).1
  unfolding delete_if_present
  delete_if_present-IsAbsent opt ns cs w h =
      elim (Bool-cases
        (is_absent (k.find_status_condition cs.conditions resources_deployed) cs.name)) [
          | inl p ↦ rw p p
          | inr p ↦ rw p (after_delete-IsAbsent _ cs _ (rw p at h))
        ]

  delete_loop_lem :
      (opt : DeleteOption) (ns : Text) (cs : List Component) (css : List ComponentStatus) (w : W)
      → length cs ≤ length css
      → (p : Bool) × (css' : List ComponentStatus) × (w' : W) × (delete_loop k opt ns cs css w
          ≡ some (p, css', w'))
        × (length css' ≡ length css)
        × (p ≡ false → AllAbsent k cs css')
  unfolding delete_loop
  delete_loop_lem opt ns [] css w h = (false, css, w, refl, refl, λ e. tt)
  delete_loop_lem opt ns (c ∷ cs) [] w h = absurd (omega arith)
  delete_loop_lem opt ns (c ∷ cs) (s ∷ css) w h =
      let (present, s', w1) = delete_if_present k opt ns s w in
      let (others, css', w2, e, l, a) = delete_loop_lem opt ns cs css w1 (omega arith) in
      (
        present || others,
        s' ∷ css',
        w2,
        rw e,
        ap suc l,
        λ q. (delete_if_present-IsAbsent opt ns s w (ground arith), a (ground arith)),
      )

  set_deleting :
      (n : ℤ) (aw : AppWrapper) (b : ConditionStatus) (r : String) (m : Message)
      → SameButDeletion k aw (
          with_conditions aw (
            k.set_status_condition n aw.status.conditions (new_condition deleting_resources b r m)))
  set_deleting n aw b r m = record {
    metadata_eq = refl;
    spec_eq = refl;
    phase_eq = refl;
    retries_eq = refl;
    length_eq = refl;
    others = λ x h. rw laws.find_set (rw h);
  }

  -- The AppWrapper is the same, and its component statuses too, but for DeletingResources.
  clear_deleting :
      (r : String) (m : Message) (s : State W)
      → Returns (clear_condition k deleting_resources r m s) λ _ s'.
        SameButDeletion k s.aw s'.aw
        × (s'.aw.status.component_status ≡ s.aw.status.component_status)
  unfolding clear_condition
  clear_deleting r m s =
      elim (Bool-cases (k.is_status_condition_true s.aw.status.conditions deleting_resources)) [
        | inl p ↦
            rw (p, clear_condition) (returned _ _ (set_deleting _ s.aw condition_false r m, refl))
        | inr p ↦ rw (p, clear_condition) (returned _ _ (SameButDeletion-refl k s.aw, refl))
      ]

  delete_each_lem :
      (opt : DeleteOption) (s : State W)
      → length s.aw.spec.components ≤ length s.aw.status.component_status
      → Returns (delete_each k opt s) λ b s'.
        SameButDeletion k s.aw s'.aw
        × (s'.aw.status.conditions ≡ s.aw.status.conditions)
        × (b ≡ false → AllAbsent k s.aw.spec.components s'.aw.status.component_status)
  unfolding delete_each
  delete_each_lem opt s h =
      let (p, css, w, e, l, a) =
        delete_loop_lem opt s.aw.metadata.namespace s.aw.spec.components
          s.aw.status.component_status s.world h in
      rw (e, delete_each)
        (returned _ _ (
          record {
            metadata_eq = refl;
            spec_eq = refl;
            phase_eq = refl;
            retries_eq = refl;
            length_eq = l;
            others = λ x h. refl;
          },
          refl,
          a,
        ))

  delete_pods_lem :
      (ps : List Pod) (s : State W) → Returns (delete_pods k ps s) λ _ s'. s'.aw ≡ s.aw
  unfolding delete_pods
  delete_pods_lem [] s = returned _ _ refl
  delete_pods_lem (p ∷ ps) s =
      delete_pods_lem ps (record s { world = (k.delete_pod p (grace_period_seconds 0) s.world).1 })

  -- Only component statuses may change.
  force_deletion_lem :
      (pods : List Pod) (s : State W)
      → length s.aw.spec.components ≤ length s.aw.status.component_status
      → Returns (force_deletion k pods s) λ b s'. (b ≡ false) × SameButDeletion k s.aw s'.aw
  unfolding force_deletion
  force_deletion_lem [] s h =
      bind-Returns (delete_each k (grace_period_seconds 0) s) (λ _. pure false)
        (delete_each_lem (grace_period_seconds 0) s h) (λ b s' q. returned false s' (refl, q.0))
  force_deletion_lem (p ∷ ps) s h =
      bind-Returns (delete_pods k (p ∷ ps) s) (λ _. pure false) (delete_pods_lem (p ∷ ps) s)
        (λ b s' q. returned false s' (refl, rw q (SameButDeletion-refl k s.aw)))

  -- The list of the pods that the code asks for comes back empty, or fails.
  abbrev pub FoundNoPods : AppWrapper → Type 0
  FoundNoPods aw =
      (w : W) × (pods_or_nil k
          (k.list_pods aw.metadata.namespace app_wrapper_label aw.metadata.name w).0
        ≡ [])

  not_done :
      (pods : List Pod) (expired : Bool) (s : State W)
      → length s.aw.spec.components ≤ length s.aw.status.component_status
      → Returns
          ((if expired then force_deletion k pods else pure false) s)
          λ b s'. (b ≡ false) × SameButDeletion k s.aw s'.aw
  not_done pods true s h = force_deletion_lem pods s h
  not_done pods false s h = returned false s (refl, SameButDeletion-refl k s.aw)

  abbrev Finished : Bool → List Pod → State W → Bool → State W → Type 0
  Finished remaining pods s b s' =
      SameButDeletion k s.aw s'.aw
      × (b ≡ true
          → (remaining ≡ false)
            × (pods ≡ [])
            × (s'.aw.status.component_status ≡ s.aw.status.component_status))

  after_list_lem :
      (remaining expired : Bool) (pods : List Pod) (s : State W)
      → length s.aw.spec.components ≤ length s.aw.status.component_status
      → Returns (after_list k remaining expired pods s) (Finished remaining pods s)
  unfolding after_list
  after_list_lem false expired [] s h =
      bind-Returns (clear_condition k deleting_resources "DeletionComplete" [] s) (λ _. pure true)
        (clear_deleting "DeletionComplete" [] s)
        (λ b s' q. returned true s' (q.0, λ _. (refl, refl, q.1)))
  after_list_lem remaining expired pods s h =
      Returns-map (not_done pods expired s h) (λ b s' q. (q.1, λ e. cc (q.0)))

  -- What deleteComponents ensures: it changes nothing but DeletingResources and the component
  -- statuses, and when it answers true, no component and no pod was found.
  pub record Deletion (s : State W) (b : Bool) (s' : State W) : Type 0 where
    pub same : SameButDeletion k s.aw s'.aw
    pub absent : b ≡ true → AllAbsent k s.aw.spec.components s'.aw.status.component_status
    pub no_pods : b ≡ true → FoundNoPods s.aw

  finish_deletion_lem :
      (remaining expired : Bool) (s : State W)
      → length s.aw.spec.components ≤ length s.aw.status.component_status
      → (remaining ≡ false → AllAbsent k s.aw.spec.components s.aw.status.component_status)
      → Returns (finish_deletion k remaining expired s) (Deletion s)
  unfolding finish_deletion list_remaining_pods
  finish_deletion_lem remaining expired s h a =
      let (r, w) =
        k.list_pods s.aw.metadata.namespace app_wrapper_label s.aw.metadata.name s.world in
      Returns-map (after_list_lem remaining expired (pods_or_nil k r) (record s { world = w }) h)
        (λ b s' q. record {
          same = q.0;
          absent = λ e. rw ((q.1 e).2) (a (q.1 e).0);
          no_pods = λ e. (s.world, (q.1 e).1);
        })

  check_deadline_lem :
      (remaining expired : Bool) (s : State W)
      → length s.aw.spec.components ≤ length s.aw.status.component_status
      → (remaining ≡ false → AllAbsent k s.aw.spec.components s.aw.status.component_status)
      → Returns (check_deadline k remaining expired s) (Deletion s)
  unfolding check_deadline
  check_deadline_lem true false s h a =
      returned false s
        (record { same = SameButDeletion-refl k s.aw; absent = λ e. cc; no_pods = λ e. cc })
  check_deadline_lem remaining expired s h a = finish_deletion_lem remaining expired s h a

  await_deletion_lem :
      (remaining : Bool) (s : State W) {c : Condition}
      → k.find_status_condition s.aw.status.conditions deleting_resources ≡ some c
      → length s.aw.spec.components ≤ length s.aw.status.component_status
      → (remaining ≡ false → AllAbsent k s.aw.spec.components s.aw.status.component_status)
      → Returns (await_deletion k remaining s) (Deletion s)
  unfolding await_deletion
  await_deletion_lem remaining s {c} e h a =
      rw (e, await_deletion)
        (Returns-map
          (check_deadline_lem remaining
            (ltb_ℤ (c.last_transition_time +ℤ forceful_deletion_grace_duration k s.aw)
              (k.now s.world).0)
            (record s { world = (k.now s.world).1 }) h a)
          (λ b s' d. record { same = d.same; absent = d.absent; no_pods = d.no_pods }))

  await_after :
      (s s1 s2 : State W) (remaining : Bool) {c : Condition}
      → length s.aw.spec.components ≤ length s.aw.status.component_status
      → SameButDeletion k s.aw s1.aw
      → k.find_status_condition s1.aw.status.conditions deleting_resources ≡ some c
      → SameButDeletion k s1.aw s2.aw
      → s2.aw.status.conditions ≡ s1.aw.status.conditions
      → (remaining ≡ false → AllAbsent k s1.aw.spec.components s2.aw.status.component_status)
      → Returns (await_deletion k remaining s2) (Deletion s)
  await_after s s1 s2 remaining {c} h p e q r a =
      let pq = SameButDeletion-trans k s.aw s1.aw s2.aw p q in
      Returns-map
        (await_deletion_lem remaining s2 {c = c} (rw r e) (rw (pq.spec_eq, pq.length_eq) h)
          (rw q.spec_eq a))
        (λ b s' d. record {
          same = SameButDeletion-trans k s.aw s2.aw s'.aw pq d.same;
          absent = rw pq.spec_eq at d.absent;
          no_pods = rw pq.metadata_eq at d.no_pods;
        })

  -- Under the laws of the condition helpers, where each component has a status, deleteComponents
  -- returns without a panic. It changes nothing of the AppWrapper but the condition
  -- DeletingResources and the component statuses, whose number stays; and when it answers that
  -- the deletion is complete, each component's status says that its object is gone, and in some
  -- state of the cluster a list of the AppWrapper's pods is empty or fails.
  pub delete_components_lem :
      (s : State W)
      → length s.aw.spec.components ≤ length s.aw.status.component_status
      → Returns (delete_components k s) (Deletion s)
  unfolding delete_components
  delete_components_lem s h =
      let (n, w) = k.now s.world in
      let s1 : State W = record {
        aw = with_conditions s.aw (
            k.set_status_condition n s.aw.status.conditions
              (new_condition deleting_resources condition_true "DeletionInitiated" []));
        world = w;
      } in
      bind-Returns (delete_each k propagation_background s1) (await_deletion k)
        (delete_each_lem propagation_background s1 h)
        (λ remaining s2 q.
          await_after s s1 s2 remaining h
            (set_deleting n s.aw condition_true "DeletionInitiated" [])
            (laws.find_set n s.aw.status.conditions _ deleting_resources) q.0 q.1 q.2)
