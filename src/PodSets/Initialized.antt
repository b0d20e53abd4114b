-- ===== src/PodSets/Initialized.antt =====
-- The statuses that EnsureComponentStatusInitialized of pkg/utils/utils.go leaves.
use appwrapper.Base.{
  ◌≡◌, ◌≢◌, ◌==◌, ==_iff, refl, sym, ap, ◌∙◌, suc, Bool-cases, inl, inr, arith, List, [], ◌∷◌,
  length,
}
use appwrapper.Base.Json.{Fields}
use appwrapper.Base.Result.{Result, ok, err, ◌>>=◌, bind_ok, ok_injective, Result-cases}
use appwrapper.Api.{AppWrapper, Component, ComponentStatus, PodSet}
use appwrapper.Paths.{PathError}
use appwrapper.Components.{with_component_status}
use appwrapper.Cluster.{Library}
use appwrapper.PodSets.{
  initial_status, lifted, infer_pod_sets, initialize_component, initialize_components,
  ensure_component_status_initialized,
}

module _ (l : Library) where
  -- The pod sets of a new status: those that the component declares, or else the inferred ones.
  abbrev pub DefinitivePodSets : Component → List PodSet → Type 0
  DefinitivePodSets c pss =
      (c.declared_pod_sets ≢ [] → pss ≡ c.declared_pod_sets)
      × (c.declared_pod_sets ≡ []
          → (m : Fields) × (l.decode c.template ≡ ok m) × (infer_pod_sets l m ≡ ok pss))

  -- New statuses, in the order of the components: with their pod sets, and empty otherwise.
  abbrev pub Fresh : List Component → List ComponentStatus → Type 0
  Fresh [] [] = Unit
  Fresh (c ∷ cs) (s ∷ css) =
      DefinitivePodSets c s.pod_sets
      × (s.name ≡ [])
      × (s.kind ≡ [])
      × (s.api_version ≡ [])
      × (s.conditions ≡ [])
      × Fresh cs css
  Fresh _ _ = ⊥

  lifted_ok :
      (r : Result PathError (List PodSet)) (pss : List PodSet) → lifted r ≡ ok pss → r ≡ ok pss
  lifted_ok (ok x) pss h = let e : x ≡ pss = ok_injective h in ap ok e
  lifted_ok (err e) pss h = absurd cc

  initialize_component_lem :
      (c : Component) (s : ComponentStatus)
      → initialize_component l c ≡ ok s
      → DefinitivePodSets c s.pod_sets
        × (s.name ≡ [])
        × (s.kind ≡ [])
        × (s.api_version ≡ [])
        × (s.conditions ≡ [])
  unfolding initialize_component
  initialize_component_lem c s h = go c.declared_pod_sets refl
    where
      go :
          (pss : List PodSet)
          → c.declared_pod_sets ≡ pss
          → DefinitivePodSets c s.pod_sets
            × (s.name ≡ [])
            × (s.kind ≡ [])
            × (s.api_version ≡ [])
            × (s.conditions ≡ [])
      go (x ∷ xs) e =
          let same : initial_status (x ∷ xs) ≡ s =
            ok_injective (rw (initialize_component, e) at h) in
          rw (sym same) (
            (λ _. sym e, λ n. absurd (let z : x ∷ xs ≡ [] = sym e ∙ n in cc)),
            refl,
            refl,
            refl,
            refl,
          )
      go [] e =
          let z : (do
            m ← l.decode c.template
            pss ← lifted (infer_pod_sets l m)
            ok (initial_status pss))
              ≡ ok s =
            rw (initialize_component, e) at h in
          let (m, decoded, h1) = bind_ok (l.decode c.template) _ s z in
          let (pss, inferred, h2) = bind_ok (lifted (infer_pod_sets l m)) _ s h1 in
          let same : initial_status pss ≡ s = ok_injective h2 in
          rw (sym same) (
            (λ n. absurd (n e), λ _. (m, decoded, lifted_ok (infer_pod_sets l m) pss inferred)),
            refl,
            refl,
            refl,
            refl,
          )

  initialize_components-Fresh :
      (cs : List Component) (css : List ComponentStatus)
      → initialize_components l cs ≡ ok css
      → Fresh cs css
  unfolding initialize_components
  initialize_components-Fresh [] css h = let e : [] ≡ css = ok_injective h in rw (sym e) tt
  initialize_components-Fresh (c ∷ cs) css h =
      let (s, first, h1) = bind_ok (initialize_component l c) _ css h in
      let (rest, others, h2) = bind_ok (initialize_components l cs) _ css h1 in
      let e : s ∷ rest ≡ css = ok_injective h2 in
      let (pod_sets, name, kind, version, conditions) = initialize_component_lem c s first in
      rw (sym e)
        (pod_sets, name, kind, version, conditions, initialize_components-Fresh cs rest others)

  length-Fresh :
      (cs : List Component) (css : List ComponentStatus) → Fresh cs css → length css ≡ length cs
  length-Fresh [] [] h = refl
  length-Fresh [] (s ∷ css) h = absurd h
  length-Fresh (c ∷ cs) [] h = absurd h
  length-Fresh (c ∷ cs) (s ∷ css) (_, _, _, _, _, h) = ap suc (length-Fresh cs css h)

  -- When EnsureComponentStatusInitialized succeeds: an AppWrapper with as many statuses as
  -- components is unchanged; in any other, only the statuses change, and there is a new one for
  -- each component, in order, with the declared pod sets, or where none are declared the ones
  -- that are inferred from the decoded template, and with no name, kind, version or condition.
  pub ensure_component_status_initialized_lem :
      (aw aw' : AppWrapper)
      → ensure_component_status_initialized l aw ≡ ok aw'
      → (length aw.status.component_status ≡ length aw.spec.components → aw' ≡ aw)
        × (length aw.status.component_status ≢ length aw.spec.components
            → (aw' ≡ with_component_status aw aw'.status.component_status)
              × Fresh aw.spec.components aw'.status.component_status)
  unfolding ensure_component_status_initialized
  ensure_component_status_initialized_lem aw aw' h =
      elim (Bool-cases (length aw.status.component_status == length aw.spec.components)) [
        | inl p ↦ (
          λ _. sym (ok_injective (rw (ensure_component_status_initialized, p) at h)),
          λ n. absurd (n ((==_iff _ _).0 p)),
        )
        | inr p ↦
            let z : (do
              css ← initialize_components l aw.spec.components
              ok (with_component_status aw css))
                ≡ ok aw' =
              rw (ensure_component_status_initialized, p) at h in
            let (css, made, h1) = bind_ok (initialize_components l aw.spec.components) _ aw' z in
            let same : with_component_status aw css ≡ aw' = ok_injective h1 in
            (
              λ n. absurd (let t = (==_iff _ _).1 n in ground arith),
              λ _. rw (sym same) (refl, initialize_components-Fresh aw.spec.components css made),
            )
      ]

  -- There is one status for each component, and the rest is as before.
  pub ensure-length :
      (aw aw' : AppWrapper)
      → ensure_component_status_initialized l aw ≡ ok aw'
      → (length aw'.status.component_status ≡ length aw'.spec.components)
        × (aw'.metadata ≡ aw.metadata)
        × (aw'.spec ≡ aw.spec)
        × (aw'.status.phase ≡ aw.status.phase)
        × (aw'.status.retries ≡ aw.status.retries)
        × (aw'.status.conditions ≡ aw.status.conditions)
  unfolding ensure_component_status_initialized
  ensure-length aw aw' h = elim (Result-cases (initialize_components l aw.spec.components)) [
    | inr (e, p) ↦ ground arith
    | inl (css, p) ↦
        let same =
          length-Fresh aw.spec.components css
            (initialize_components-Fresh aw.spec.components css p) in
        ground arith
  ]

  -- A second call succeeds and changes nothing.
  pub ensure_idem :
      (aw aw' : AppWrapper)
      → ensure_component_status_initialized l aw ≡ ok aw'
      → ensure_component_status_initialized l aw' ≡ ok aw'
  unfolding ensure_component_status_initialized
  ensure_idem aw aw' h = ground (arith, ensure-length aw aw' h)
