-- ===== src/Workload/Counts.antt =====
-- The numbers of pod sets that Kueue is given and of infos that it gives back
-- (internal/controller/workload/workload_controller.go, pkg/utils/utils.go).
use appwrapper.Base.{
  ℕ, suc, ◌≡◌, refl, sym, ap, ◌∙◌, true, false, none, some, List, [], ◌∷◌, ◌++◌, length,
  length-append, All, arith, is_nil, Option-cases, Bool-cases, inl, inr,
}
use appwrapper.Base.Text.{Text}
use appwrapper.Base.Json.{Fields}
use appwrapper.Base.Result.{ok, err, is_ok, Result-cases, ok_injective, bind_ok, ◌>>=◌}
use appwrapper.Api.{AppWrapper, Component, ComponentStatus, PodSet, PodSetInfo}
use appwrapper.Cluster.{Library}
use appwrapper.PodSets.{ensure_component_status_initialized}
use appwrapper.PodSets.Assign.{pod_set_count, set_pod_set_infos_accepts}
use appwrapper.PodSets.Initialized.{ensure-length, ensure_idem}
use appwrapper.PodSets.Templates.{get_pod_template_spec}
use appwrapper.PodSets.Kueue.{
  KueuePodSet, template_pod_sets, component_pod_sets, all_pod_sets, get_pod_sets,
}
use appwrapper.Workload.{with_topology, run_with_pod_sets_info, with_suspend}

some_injective : {A : Type 0} {a b : A} → some a ≡ some b → a ≡ b
some_injective e = cc

module _ (l : Library) where
  -- The pod sets of every component have parseable templates.
  abbrev pub Parseable : List Component → List ComponentStatus → Type 0
  Parseable (c ∷ cs) (s ∷ css) =
      ((m : Fields)
        → l.decode c.template ≡ ok m
        → All (λ (ps : PodSet). is_ok (get_pod_template_spec l m ps.path) ≡ true) s.pod_sets)
      × Parseable cs css
  Parseable _ _ = Unit

  length-template_pod_sets :
      (name : Text) (idx : ℕ) (m : Fields) (i : ℕ) (pss : List PodSet)
      → All (λ (ps : PodSet). is_ok (get_pod_template_spec l m ps.path) ≡ true) pss
      → length (template_pod_sets l name idx m i pss) ≡ length pss
  unfolding template_pod_sets
  length-template_pod_sets name idx m i [] h = refl
  length-template_pod_sets name idx m i (ps ∷ pss) (hp, hs) =
      elim (Result-cases (get_pod_template_spec l m ps.path)) [
        | inl (t, p) ↦ rw p (ap suc (length-template_pod_sets name idx m (suc i) pss hs))
        | inr (e, p) ↦ absurd (let z : false ≡ true = rw p at hp in cc)
      ]

  length-with_topology : (pss : List KueuePodSet) → length (with_topology l pss) ≡ length pss
  length-with_topology [] = refl
  length-with_topology (ps ∷ pss) = ap suc (length-with_topology pss)

  length-component_pod_sets :
      (name : Text) (idx : ℕ) (c : Component) (s : ComponentStatus) (pss : List KueuePodSet)
      → ((m : Fields)
          → l.decode c.template ≡ ok m
          → All (λ (ps : PodSet). is_ok (get_pod_template_spec l m ps.path) ≡ true) s.pod_sets)
      → component_pod_sets l name idx c s ≡ ok pss
      → length pss ≡ length s.pod_sets
  unfolding component_pod_sets
  length-component_pod_sets name idx c s pss h run = elim (Bool-cases (is_nil s.pod_sets)) [
    | inl p ↦
        let q : [] ≡ pss = ok_injective (rw (component_pod_sets, p) at run) in
        rw (sym q) (nil_length s.pod_sets p)
    | inr p ↦
        let z : (do m ← l.decode c.template; ok (template_pod_sets l name idx m 0 s.pod_sets))
            ≡ ok pss =
          rw (component_pod_sets, p) at run in
        let (m, decoded, made) = bind_ok (l.decode c.template) _ pss z in
        rw (sym (ok_injective made))
          (length-template_pod_sets name idx m 0 s.pod_sets (h m decoded))
  ]
    where
      nil_length : (xs : List PodSet) → is_nil xs ≡ true → 0 ≡ length xs
      nil_length [] e = refl
      nil_length (x ∷ xs) e = absurd cc

  length-all_pod_sets :
      (name : Text) (idx : ℕ) (cs : List Component) (css : List ComponentStatus)
      (pss : List KueuePodSet)
      → length css ≡ length cs
      → Parseable cs css
      → all_pod_sets l name idx cs css ≡ some (ok pss)
      → length pss ≡ pod_set_count css
  unfolding all_pod_sets
  length-all_pod_sets name idx cs [] pss e h run =
      let q = ok_injective (some_injective run) in rw (sym q) refl
  length-all_pod_sets name idx [] (s ∷ css) pss e h run = absurd (omega (arith, e))
  length-all_pod_sets name idx (c ∷ cs) (s ∷ css) pss e (here, rest) run =
      elim (Result-cases (component_pod_sets l name idx c s)) [
        | inr (x, p) ↦
            absurd (let z : some (err x) ≡ some (ok pss) = rw (all_pod_sets, p) at run in cc)
        | inl (first, p) ↦ elim (Option-cases (all_pod_sets l name (suc idx) cs css)) [
          | inl q ↦ absurd (let z : none ≡ some (ok pss) = rw (all_pod_sets, p, q) at run in cc)
          | inr (err x, q) ↦
              absurd (let z : some (err x) ≡ some (ok pss) = rw (all_pod_sets, p, q) at run in cc)
          | inr (ok others, q) ↦
              let z : some (ok (first ++ others)) ≡ some (ok pss) =
                rw (all_pod_sets, p, q) at run in
              let whole : (first ++ others) ≡ pss = ok_injective (some_injective z) in
              let i = length-all_pod_sets name (suc idx) cs css others (omega (arith, e)) rest q in
              let f = length-component_pod_sets name idx c s first here p in
              rw (sym whole) (omega (arith, length-append first others, f, i))
        ]
      ]

  -- What GetPodSets ensures when it returns no error.
  counted :
      (aw aw' : AppWrapper) (pss : List KueuePodSet)
      → get_pod_sets l aw ≡ some (ok pss, aw')
      → (ensure_component_status_initialized l aw ≡ ok aw')
        × (all_pod_sets l aw'.metadata.name 0 aw'.spec.components aw'.status.component_status
            ≡ some (ok pss))
  unfolding get_pod_sets
  counted aw aw' pss run = elim (Result-cases (ensure_component_status_initialized l aw)) [
    | inr (x, p) ↦
        absurd (let z : some (err x, aw) ≡ some (ok pss, aw') = rw (get_pod_sets, p) at run in cc)
    | inl (aw1, p) ↦
        elim (Option-cases
          (all_pod_sets l aw1.metadata.name 0 aw1.spec.components aw1.status.component_status)) [
            | inl q ↦
                absurd (let z : none ≡ some (ok pss, aw') = rw (get_pod_sets, p, q) at run in cc)
            | inr (r, q) ↦
                let z : some (r, aw1) ≡ some (ok pss, aw') = rw (get_pod_sets, p, q) at run in
                let same : aw1 ≡ aw' = cc in
                let result : r ≡ ok pss = cc in named aw1 aw' same p (q ∙ ap some result)
          ]
  ]
    where
      named :
          (a b : AppWrapper)
          → a ≡ b
          → ensure_component_status_initialized l aw ≡ ok a
          → all_pod_sets l a.metadata.name 0 a.spec.components a.status.component_status
            ≡ some (ok pss)
          → (ensure_component_status_initialized l aw ≡ ok b)
            × (all_pod_sets l b.metadata.name 0 b.spec.components b.status.component_status
                ≡ some (ok pss))
      named a b e p q = rw (sym e) (p, q)

  -- When GetPodSets returns pod sets, and GetPodTemplateSpec returns a template for every pod set
  -- in the component statuses, then RunWithPodSetsInfo, given as many infos as there are pod
  -- sets, returns no error, does not panic, and unsuspends the AppWrapper.
  pub run_with_pod_sets_info_accepts :
      (aw aw' : AppWrapper) (pss : List KueuePodSet) (infos : List PodSetInfo)
      → get_pod_sets l aw ≡ some (ok pss, aw')
      → Parseable aw'.spec.components aw'.status.component_status
      → length infos ≡ length pss
      → (running : AppWrapper) × (run_with_pod_sets_info l aw' infos ≡ some (running, none))
        × (running.spec.suspend ≡ false)
  unfolding run_with_pod_sets_info
  run_with_pod_sets_info_accepts aw aw' pss infos run h count =
      let (ensured, listed) = counted aw aw' pss run in
      let (lengths, _, _, _, _, _) = ensure-length l aw aw' ensured in
      let total =
        length-all_pod_sets aw'.metadata.name 0 aw'.spec.components aw'.status.component_status pss
          lengths h listed in
      let (stored, accepted) =
        set_pod_set_infos_accepts l aw' infos (ensure_idem l aw aw' ensured) lengths
          (count ∙ total) in
      (with_suspend false stored, rw (run_with_pod_sets_info, accepted) refl, refl)
