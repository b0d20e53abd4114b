-- ===== src/Reconcile/Reads.antt =====
-- The reads of the cluster leave the AppWrapper as it is.
use appwrapper.Base.{
  ℤ, ℕ, ◌≡◌, refl, sym, some, false, List, [], ◌∷◌, length, inl, inr, Bool-cases, ==_iff,
}
use appwrapper.Base.Text.{Text}
use appwrapper.Base.Result.{ok, err, Result-cases}
use appwrapper.Api.{AppWrapper, ComponentStatus, app_wrapper_label}
use appwrapper.Cluster.{Kit, Object, is_not_found, Library}
use appwrapper.Exec.{State}
use appwrapper.Components.{ref_of}
use appwrapper.Exec.Returns.{Returns, returned}
use appwrapper.PodSets.{ensure_component_status_initialized, expected_pod_count}
use appwrapper.Pods.{get_pod_status, is_set}
use appwrapper.Health.{
  ComponentStatusSummary, failures, add_object, type_of, check_components, get_component_status,
}

-- The contents that the API server returns have the types that the code asserts for their kind:
-- reading the failures of an object that is not being deleted does not panic.
abbrev pub Readable : {W : Type 0} → Kit W → Type 0
Readable {W} k =
    (ns : Text) (cs : ComponentStatus) (w : W) (obj : Object)
    → (k.get_object (ref_of ns cs) w).0 ≡ ok obj
    → is_set obj.deletion_timestamp ≡ false
    → (n : ℕ) × (failures (type_of cs) obj ≡ some n)

add_object_total :
    (kind : Text) (obj : Object) (sum : ComponentStatusSummary)
    → (is_set obj.deletion_timestamp ≡ false → (n : ℕ) × (failures kind obj ≡ some n))
    → (sum' : ComponentStatusSummary) × (add_object kind obj sum ≡ some sum')
unfolding add_object
add_object_total kind obj sum read = elim (Bool-cases (is_set obj.deletion_timestamp)) [
  | inl p ↦ rw (p, add_object) (sum, refl)
  | inr p ↦ let (n, e) = read p in rw (p, add_object, e) (_, refl)
]

module _ {W : Type 0} (k : Kit W) (readable : Readable k) where
  check_lem :
      (ns : Text) (css : List ComponentStatus) (sum : ComponentStatusSummary) (s : State W)
      → Returns (check_components k ns css sum s) λ r s'. s'.aw ≡ s.aw
  unfolding check_components
  check_lem ns [] sum s = returned (ok sum) s refl
  check_lem ns (cs ∷ css) sum s =
      let ref = ref_of ns cs in
      let s1 : State W = record s { world = (k.get_object ref s.world).1 } in
      elim (Result-cases (k.get_object ref s.world).0) [
        | inl (obj, e) ↦
            let (sum', g) = add_object_total (type_of cs) obj sum (readable ns cs s.world obj e) in
            rw (e, check_components, g) (check_lem ns css sum' s1)
        | inr (x, e) ↦ elim (Bool-cases (is_not_found x)) [
          | inl p ↦ rw (e, check_components, p) (check_lem ns css sum s1)
          | inr p ↦ rw (e, check_components, p) (returned (err x) s1 refl)
        ]
      ]

  pub get_component_status_lem :
      (s : State W) → Returns (get_component_status k s) λ r s'. s'.aw ≡ s.aw
  unfolding get_component_status
  get_component_status_lem s = check_lem s.aw.metadata.namespace s.aw.status.component_status _ s

expected_keeps :
    (l : Library) (aw : AppWrapper)
    → length aw.spec.components ≡ length aw.status.component_status
    → (n : ℤ) × (expected_pod_count l aw ≡ ok (aw, n))
unfolding expected_pod_count ensure_component_status_initialized
expected_keeps l aw h =
    rw
      (
        (==_iff (length aw.status.component_status) (length aw.spec.components)).1 (sym h),
        expected_pod_count,
      )
      (_, refl)

module _ {W : Type 0} (k : Kit W) where
  pub get_pod_status_lem :
      (s : State W)
      → length s.aw.spec.components ≡ length s.aw.status.component_status
      → Returns (get_pod_status k s) λ r s'. s'.aw ≡ s.aw
  unfolding get_pod_status
  get_pod_status_lem s h =
      let (n, e) = expected_keeps k.lib s.aw h in
      let (reply, w) =
        k.list_pods s.aw.metadata.namespace app_wrapper_label s.aw.metadata.name s.world in
      elim (Result-cases reply) [
        | inl (pods, p) ↦ rw (p, get_pod_status, e) (returned _ (record s { world = w }) refl)
        | inr (x, p) ↦ rw (p, get_pod_status) (returned (err x) (record s { world = w }) refl)
      ]
