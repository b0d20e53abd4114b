-- ===== src/PodSets/Assign.antt =====
-- SetPodSetInfos of pkg/utils/utils.go, against the list of the infos that are stored.
use appwrapper.Base.{
  ℕ, ◌+◌, ◌≤◌, ◌≡◌, refl, sym, ap, ◌∙◌, arith, inl, inr, Option, none, some, List, [], ◌∷◌, ◌++◌,
  length, Option-cases,
}
use appwrapper.Base.Result.{ok, Result-cases}
use appwrapper.Api.{AppWrapper, Component, ComponentStatus, PodSet, PodSetInfo}
use appwrapper.Cluster.{Library, Error}
use appwrapper.PodSets.{
  fresh_infos, resized, fill, assign, cleared, with_components, length_error,
  ensure_component_status_initialized, set_pod_set_infos,
}
use appwrapper.PodSets.Initialized.{ensure-length}

-- The infos of all components, in order.
abbrev pub gathered : List Component → List PodSetInfo
gathered [] = []
gathered (c ∷ cs) = c.pod_set_infos ++ gathered cs

length-fresh_infos : (pss : List PodSet) → length (fresh_infos pss) ≡ length pss
length-fresh_infos [] = refl
length-fresh_infos (ps ∷ pss) = ground (arith, length-fresh_infos pss)

length-resized :
    (infos : List PodSetInfo) (pss : List PodSet) → length (resized infos pss) ≡ length pss
length-resized infos pss = ground (arith, length-fresh_infos pss)

-- Where there are enough infos, the loop takes the first of them.
fill-++ :
    (olds queue : List PodSetInfo)
    → length olds ≤ length queue
    → (let r = fill olds queue in r.0 ++ r.1 ≡ queue)
      × (length (fill olds queue).1 + length olds ≡ length queue)
unfolding fill
fill-++ [] queue h = (refl, omega arith)
fill-++ (o ∷ olds) [] h = absurd (omega arith)
fill-++ (o ∷ olds) (i ∷ queue) h =
    let e = fill-++ olds queue (omega arith) in (ap (λ x. i ∷ x) e.0, omega arith)

-- The loop over the components does not panic where the statuses line up.
assign-total :
    (cs : List Component) (css : List ComponentStatus) (queue : List PodSetInfo) (index : ℕ)
    → length cs ≤ length css
    → (r : List Component × ℕ) × (assign cs css queue index ≡ some r)
unfolding assign
assign-total [] css queue index h = (_, refl)
assign-total (c ∷ cs) [] queue index h = absurd (omega arith)
assign-total (c ∷ cs) (s ∷ css) queue index h =
    let (r, e) =
      assign-total cs css (fill (resized c.pod_set_infos s.pod_sets) queue).1
        (index + length s.pod_sets) (omega arith) in
    rw (e, assign) (_, refl)

record Assigned (cs : List Component) (queue : List PodSetInfo) (index : ℕ) (cs' : List Component)
    (index' : ℕ) : Type 0 where
  grows : index ≤ index'
  stored : index' ≡ index + length queue → gathered cs' ≡ queue
  kept : cleared cs' ≡ cleared cs

-- With nothing left to count, no info is left.
no_rest : (queue : List PodSetInfo) (index : ℕ) → index ≡ index + length queue → [] ≡ queue
no_rest [] index h = refl
no_rest (i ∷ queue) index h = absurd (omega arith)

-- One component, from what holds of the rest.
Assigned-cons :
    (c : Component) (cs cs1 : List Component) (pss : List PodSet) (queue : List PodSetInfo)
    (index j : ℕ)
    → (let filled = fill (resized c.pod_set_infos pss) queue in
        Assigned cs filled.1 (index + length pss) cs1 j)
    → Assigned
        (c ∷ cs)
        queue
        index
        (record c { pod_set_infos = (fill (resized c.pod_set_infos pss) queue).0 } ∷ cs1)
        j
Assigned-cons c cs cs1 pss queue index j a = record {
  grows = let g = a.grows in omega arith;
  stored = λ h.
      let l = length-resized c.pod_set_infos pss in
      let g = a.grows in
      let (e, m) = fill-++ (resized c.pod_set_infos pss) queue (omega arith) in
      ap (λ x. (fill (resized c.pod_set_infos pss) queue).0 ++ x) (a.stored (omega arith)) ∙ e;
  kept = ap (λ x. record c { pod_set_infos = [] } ∷ x) a.kept;
}

assign_lem :
    (cs : List Component) (css : List ComponentStatus) (queue : List PodSetInfo) (index : ℕ)
    (r : List Component × ℕ)
    → assign cs css queue index ≡ some r
    → Assigned cs queue index r.0 r.1
unfolding assign
assign_lem [] css queue index r e =
    let q : r ≡ ([], index) = ground arith in
    rw q (record { grows = omega arith; stored = λ h. no_rest queue index h; kept = refl })
assign_lem (c ∷ cs) [] queue index r e = cc
assign_lem (c ∷ cs) (s ∷ css) queue index r e =
    let olds = resized c.pod_set_infos s.pod_sets in
    let filled = fill olds queue in
    elim (Option-cases (assign cs css filled.1 (index + length s.pod_sets))) [
      | inl p ↦ absurd (ground arith)
      | inr ((cs1, j), p) ↦
          let q : r ≡ (record c { pod_set_infos = filled.0 } ∷ cs1, j) = ground arith in
          rw q (
            Assigned-cons c cs cs1 s.pod_sets queue index j
              (assign_lem cs css filled.1 (index + length s.pod_sets) (cs1, j) p))
    ]

-- The error of the lengths is nil when they agree.
agreed : (index n : ℕ) → length_error index n ≡ none → index ≡ 0 + n
agreed index n h = ground arith

module _ (l : Library) where
  -- SetPodSetInfos does not panic; and when it returns no error, the infos of the components, one
  -- after the other, are those it was given, the components are otherwise as before, and so is
  -- the metadata.
  pub set_pod_set_infos_lem :
      (aw : AppWrapper) (infos : List PodSetInfo)
      → (r : AppWrapper × Option Error) × (set_pod_set_infos l aw infos ≡ some r)
        × (r.1 ≡ none
            → (gathered r.0.spec.components ≡ infos)
              × (cleared r.0.spec.components ≡ cleared aw.spec.components)
              × (r.0.metadata ≡ aw.metadata))
  unfolding set_pod_set_infos
  set_pod_set_infos_lem aw infos = elim (Result-cases (ensure_component_status_initialized l aw)) [
    | inr (x, p) ↦ rw (p, set_pod_set_infos) ((aw, some x), refl, λ h. cc)
    | inl (aw1, p) ↦
        let (le, me, se, _, _, _) = ensure-length l aw aw1 p in
        let ((cs, index), q) =
          assign-total aw1.spec.components aw1.status.component_status infos 0 (omega arith) in
        let a = assign_lem aw1.spec.components aw1.status.component_status infos 0 (cs, index) q in
        rw (p, set_pod_set_infos, q)
          (
            (with_components aw1 cs, length_error index (length infos)),
            refl,
            λ h. (
              a.stored (agreed index (length infos) h),
              a.kept ∙ ap (λ x. cleared x.components) se,
              me,
            ),
          )
  ]

  -- The status afterwards, and that it has an entry for each component.
  pub set_pod_set_infos_status :
      (aw aw' : AppWrapper) (infos : List PodSetInfo) (e : Option Error)
      → set_pod_set_infos l aw infos ≡ some (aw', e)
      → e ≡ none
      → (aw'.status.phase ≡ aw.status.phase)
        × (aw'.status.conditions ≡ aw.status.conditions)
        × (length aw.spec.components ≡ length aw'.status.component_status)
  unfolding set_pod_set_infos
  set_pod_set_infos_status aw aw' infos e h fine =
      elim (Result-cases (ensure_component_status_initialized l aw)) [
        | inr (x, p) ↦
            let q : some (aw, some x) ≡ some (aw', e) = rw (set_pod_set_infos, p) at h in
            let z : some x ≡ e = cc in absurd cc
        | inl (aw1, p) ↦
            let (le, me, se, phase, re, conditions) = ensure-length l aw aw1 p in
            let ((cs, index), found) =
              assign-total aw1.spec.components aw1.status.component_status infos 0 (omega arith) in
            let q : some (with_components aw1 cs, length_error index (length infos))
                ≡ some (aw', e) =
              rw (set_pod_set_infos, p, found) at h in
            let same : with_components aw1 cs ≡ aw' = cc in
            rw (sym same) (phase, conditions, ap (λ x. length x.components) (sym se) ∙ sym le)
      ]

abbrev pub pod_set_count : List ComponentStatus → ℕ
pod_set_count [] = 0
pod_set_count (s ∷ css) = length s.pod_sets + pod_set_count css

assign_index :
    (cs : List Component) (css : List ComponentStatus) (queue : List PodSetInfo) (index : ℕ)
    (r : List Component × ℕ)
    → length css ≡ length cs
    → assign cs css queue index ≡ some r
    → r.1 ≡ index + pod_set_count css
unfolding assign
assign_index [] [] queue index r h e = let q : ([], index) ≡ r = cc in rw (sym q) (omega arith)
assign_index [] (s ∷ css) queue index r h e = absurd (omega (arith, h))
assign_index (c ∷ cs) [] queue index r h e = absurd (omega (arith, h))
assign_index (c ∷ cs) (s ∷ css) queue index r h e =
    let filled = fill (resized c.pod_set_infos s.pod_sets) queue in
    elim (Option-cases (assign cs css filled.1 (index + length s.pod_sets))) [
      | inl p ↦ absurd (let z : none ≡ some r = rw (assign, p) at e in cc)
      | inr ((cs1, j), p) ↦
          let z : some (record c { pod_set_infos = filled.0 } ∷ cs1, j) ≡ some r =
            rw (assign, p) at e in
          let q : (record c { pod_set_infos = filled.0 } ∷ cs1, j) ≡ r = cc in
          let i =
            assign_index cs css filled.1 (index + length s.pod_sets) (cs1, j) (omega (arith, h))
              p in
          rw (sym q) (omega (arith, i))
    ]

same_count : (n m : ℕ) → n ≡ m → length_error n m ≡ none
same_count n m h = ground arith

-- SetPodSetInfos accepts as many infos as there are pod sets.
pub set_pod_set_infos_accepts :
    (l : Library) (aw : AppWrapper) (infos : List PodSetInfo)
    → ensure_component_status_initialized l aw ≡ ok aw
    → length aw.status.component_status ≡ length aw.spec.components
    → length infos ≡ pod_set_count aw.status.component_status
    → (aw' : AppWrapper) × (set_pod_set_infos l aw infos ≡ some (aw', none))
unfolding set_pod_set_infos
set_pod_set_infos_accepts l aw infos fixed lengths count =
    let ((cs, index), q) =
      assign-total aw.spec.components aw.status.component_status infos 0 (omega (arith, lengths)) in
    let i =
      assign_index aw.spec.components aw.status.component_status infos 0 (cs, index) lengths q in
    (
      with_components aw cs,
      rw (set_pod_set_infos, fixed, q)
          (ap (λ e. some (with_components aw cs, e))
            (same_count index (length infos) (omega (arith, i, count)))),
    )
