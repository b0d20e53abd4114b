-- ===== src/Components/Create/All.antt =====
-- What createComponents ensures
-- (internal/controller/appwrapper/resource_management.go).
use Prim.Native.Nat.add
use appwrapper.Base.{
  ℕ, zero, suc, ◌+◌, ◌<◌, ◌≤◌, ◌≡◌, refl, sym, ◌∙◌, arith, ap, true, Option, none, some, List, [],
  ◌∷◌, length, get_elem?, set, length-set, get_elem?-lt, Bool-cases, inl, inr,
}
use appwrapper.Base.Json.{Fields}
use appwrapper.Base.Result.{Result}
use appwrapper.Api.{AppWrapper, Component, ComponentStatus, resources_deployed}
use appwrapper.Cluster.{Kit, Error}
use appwrapper.Cluster.Laws.{MetaLaws, ClientLaws}
use appwrapper.Exec.{State, M, pure}
use appwrapper.Exec.Returns.{Returns, returned, bind-Returns, Returns-map}
use appwrapper.Components.Create.{Failure, attempt, create_from, create_components}
use appwrapper.Components.Create.Frame.{At, pod_sets_of, create_component_lem}

-- The same AppWrapper, but for the component statuses.
pub record SameButComponents (aw aw' : AppWrapper) : Type 0 where
  pub metadata_eq : aw'.metadata ≡ aw.metadata
  pub spec_eq : aw'.spec ≡ aw.spec
  pub phase_eq : aw'.status.phase ≡ aw.status.phase
  pub retries_eq : aw'.status.retries ≡ aw.status.retries
  pub conditions_eq : aw'.status.conditions ≡ aw.status.conditions
  pub length_eq : length aw'.status.component_status ≡ length aw.status.component_status
  pub pod_sets_eq : pod_sets_of aw' ≡ pod_sets_of aw

pub SameButComponents-refl : (a : AppWrapper) → SameButComponents a a
SameButComponents-refl a = ground arith

SameButComponents-trans :
    (a b c : AppWrapper) → SameButComponents a b → SameButComponents b c → SameButComponents a c
SameButComponents-trans a b c p q = record {
  metadata_eq = q.metadata_eq ∙ p.metadata_eq;
  spec_eq = q.spec_eq ∙ p.spec_eq;
  phase_eq = q.phase_eq ∙ p.phase_eq;
  retries_eq = q.retries_eq ∙ p.retries_eq;
  conditions_eq = q.conditions_eq ∙ p.conditions_eq;
  length_eq = q.length_eq ∙ p.length_eq;
  pod_sets_eq = q.pod_sets_eq ∙ p.pod_sets_eq;
}

At-SameButComponents : (idx : ℕ) (a b : AppWrapper) → At idx a b → SameButComponents a b
At-SameButComponents idx a b p = record {
  metadata_eq = ap (λ (x : AppWrapper). x.metadata) p.eq;
  spec_eq = ap (λ (x : AppWrapper). x.spec) p.eq;
  phase_eq = ap (λ (x : AppWrapper). x.status.phase) p.eq;
  retries_eq = ap (λ (x : AppWrapper). x.status.retries) p.eq;
  conditions_eq = ap (λ (x : AppWrapper). x.status.conditions) p.eq;
  length_eq =
      ap (λ (x : AppWrapper). length x.status.component_status) p.eq
      ∙ length-set a.status.component_status idx p.entry;
  pod_sets_eq = p.kept;
}

module _ {W : Type 0} (k : Kit W) where
  -- The statuses below an index are those of deployed components.
  abbrev pub DeployedBelow : ℕ → List ComponentStatus → Type 0
  DeployedBelow zero css = Unit
  DeployedBelow (suc n) [] = ⊥
  DeployedBelow (suc n) (s ∷ css) =
      (k.is_status_condition_true s.conditions resources_deployed ≡ true) × DeployedBelow n css

  DeployedBelow-set :
      (n : ℕ) (css : List ComponentStatus) (c : ComponentStatus)
      → n < length css
      → DeployedBelow n css
      → k.is_status_condition_true c.conditions resources_deployed ≡ true
      → DeployedBelow (suc n) (set css n c)
  DeployedBelow-set n [] c h d e = elim h [ ]
  DeployedBelow-set zero (s ∷ css) c h d e = (e, tt)
  DeployedBelow-set (suc n) (s ∷ css) c h d e = (d.0, DeployedBelow-set n css c (omega arith) d.1 e)

  DeployedBelow-next :
      (n : ℕ) (css : List ComponentStatus) (c : ComponentStatus)
      → get_elem? css n ≡ some c
      → DeployedBelow n css
      → k.is_status_condition_true c.conditions resources_deployed ≡ true
      → DeployedBelow (suc n) css
  DeployedBelow-next n [] c h d e = cc
  DeployedBelow-next zero (s ∷ css) c h d e = ground arith
  DeployedBelow-next (suc n) (s ∷ css) c h d e = (d.0, DeployedBelow-next n css c h d.1 e)

  -- What createComponents ensures: only component statuses change, and without an error the
  -- first n of them are deployed.
  pub record Created (n : ℕ) (s : State W) (f : Failure) (s' : State W) : Type 0 where
    pub same : SameButComponents s.aw s'.aw
    pub deployed : f ≡ none → DeployedBelow n s'.aw.status.component_status

-- The rendering of the components of an AppWrapper does not panic, whatever else their statuses say
-- than the pod sets.
abbrev pub Renders : (AppWrapper → ℕ → Option (Result Error Fields)) → AppWrapper → Type 0
Renders render start =
    (aw : AppWrapper)
    → SameButComponents start aw
    → (idx : ℕ) → idx < length aw.status.component_status
    → (r : Result Error Fields) × (render aw idx ≡ some r)

module _ {W : Type 0} (k : Kit W) (meta : MetaLaws k) (client : ClientLaws k)
    (render : AppWrapper → ℕ → Option (Result Error Fields)) (start : AppWrapper)
    (total : Renders render start) where
  attempt_lem :
      (idx : ℕ) (s : State W)
      → SameButComponents start s.aw
      → idx < length s.aw.status.component_status
      → DeployedBelow k idx s.aw.status.component_status
      → Returns (attempt k render idx s) (Created k (suc idx) s)
  unfolding attempt
  attempt_lem idx s same h d =
      let (c, e) = get_elem?-lt s.aw.status.component_status idx h in
      let (r, p) = total s.aw same idx h in
      elim (Bool-cases (k.is_status_condition_true c.conditions resources_deployed)) [
        | inl q ↦
            rw (e, attempt, q)
              (returned none s (record {
                same = SameButComponents-refl s.aw;
                deployed = λ _. DeployedBelow-next k idx s.aw.status.component_status c e d q;
              }))
        | inr q ↦
            rw (e, attempt, q)
              (Returns-map (create_component_lem k meta client render idx s r p h) (λ f s' m.
                record {
                  same = At-SameButComponents idx s.aw s'.aw m.at;
                  deployed = λ x. rw m.at.eq (
                      DeployedBelow-set k idx s.aw.status.component_status m.at.entry h d
                        (m.deployed x));
                }))
      ]

  after_attempt :
      (rest : M W Failure) (idx n : ℕ) (s s1 : State W) (f : Failure)
      → Created k (suc idx) s f s1
      → (DeployedBelow k (suc idx) s1.aw.status.component_status
          → Returns (rest s1) (Created k n s1))
      → Returns
          (let next : M W Failure = elim f [ some x ↦ pure (some x) | none ↦ rest ] in next s1)
          (Created k n s)
  after_attempt rest idx n s s1 none c h = Returns-map (h (c.deployed refl)) (λ f s' d. record {
    same = SameButComponents-trans s.aw s1.aw s'.aw c.same d.same;
    deployed = d.deployed;
  })
  after_attempt rest idx n s s1 (some x) c h =
      returned (some x) s1 (record { same = c.same; deployed = λ e. cc })

  create_from_lem :
      (cs : List Component) (idx n : ℕ) (s : State W)
      → SameButComponents start s.aw
      → length cs + idx ≤ length s.aw.status.component_status
      → length cs + idx ≡ n
      → DeployedBelow k idx s.aw.status.component_status
      → Returns (create_from k render cs idx s) (Created k n s)
  unfolding create_from
  create_from_lem [] idx n s same h e d =
      returned none s
        (record { same = SameButComponents-refl s.aw; deployed = λ _. rw (sym e ∙ add.zero idx) d })
  create_from_lem (c ∷ cs) idx n s same h e d =
      bind-Returns (attempt k render idx s)
        (λ f. elim f [ some x ↦ pure (some x) | none ↦ create_from k render cs (suc idx) ])
        (attempt_lem idx s same (omega arith) d)
        (λ f s1 m. after_attempt (create_from k render cs (suc idx)) idx n s s1 f m (
          create_from_lem cs (suc idx) n s1 (SameButComponents-trans start s.aw s1.aw same m.same)
            (omega (arith, m.same.length_eq)) (omega arith)))

module _ {W : Type 0} (k : Kit W) (meta : MetaLaws k) (client : ClientLaws k)
    (render : AppWrapper → ℕ → Option (Result Error Fields)) where
  -- Where each component has a status, and the rendering of a component does not panic whatever
  -- else the statuses say than the pod sets, createComponents does not panic; it changes nothing
  -- of the AppWrapper but component statuses, whose pod sets it keeps, and when it returns no
  -- error, the status of each component says that it is deployed. The laws of the condition
  -- helpers and of the client are assumed.
  pub create_components_lem :
      (s : State W)
      → Renders render s.aw
      → length s.aw.spec.components ≤ length s.aw.status.component_status
      → Returns (create_components k render s) (Created k (length s.aw.spec.components) s)
  unfolding create_components
  create_components_lem s total h =
      create_from_lem k meta client render s.aw total s.aw.spec.components 0
        (length s.aw.spec.components) s (SameButComponents-refl s.aw) (omega arith) (omega arith) tt
