-- ===== src/SlackMonitor/Limits.antt =====
-- The lending limits that a run of the slack monitor leaves
-- (internal/controller/appwrapper/slackcq_monitor.go).
use appwrapper.Base.{
  ℤ, pos, ◌-ℤ◌, ltb_ℤ, eqb_ℤ, eqb_ℤ_iff, Option, none, some, List, [], ◌∷◌, ◌≡◌, ◌≢◌, refl, sym,
  ◌∙◌, ap, map, if◌then◌else◌, Bool-cases, inl, inr, ◌↔◌, All, cons_injective,
}
use appwrapper.Base.Text.{Text, text_eq, lookup, insert}
use appwrapper.NodeMonitor.{ResourceList}
use appwrapper.SlackMonitor.{
  ResourceQuota, ClusterQueue, limit_for, change, with_limit, note_change, adjust, adjust_queue,
  unschedulable_quantities,
}
use appwrapper.SlackMonitor.Totals.{total, entry, NoNegative, lookup-unschedulable_quantities}

-- What may be lent of a nominal quota while some of the resource is unschedulable.
abbrev pub lendable : ℤ → ℤ → Option ℤ
lendable nominal lost =
    if eqb_ℤ lost (pos 0)
    then none
    else if ltb_ℤ lost nominal
    then some (nominal -ℤ lost)
    else some (pos 0)

module _ (nodes : List (Text × ResourceList)) where
  abbrev pub lent : ResourceQuota → ResourceQuota
  lent q = record q { lending_limit = lendable q.nominal_quota (total q.name nodes) }

  -- The queue whose first flavor has these limits.
  abbrev pub lent_queue : ClusterQueue → ClusterQueue
  lent_queue cq = elim cq.resource_groups [
    | [] ↦ cq
    | [] ∷ groups ↦ cq
    | (resources ∷ flavors) ∷ groups ↦ record {
      resource_groups = (map lent resources ∷ flavors) ∷ groups;
    }
  ]

abbrev pub HasFlavor : ClusterQueue → Type 0
HasFlavor cq =
    (resources : List ResourceQuota) × (flavors : List (List ResourceQuota)) × (groups : List
      (List (List ResourceQuota)))
    × (cq.resource_groups ≡ (resources ∷ flavors) ∷ groups)

limit_for_entry : (nominal lost : ℤ) → limit_for nominal (entry lost) ≡ lendable nominal lost
limit_for_entry nominal lost = elim (Bool-cases (eqb_ℤ lost (pos 0))) [
  | inl p ↦ rw p refl
  | inr p ↦ rw p refl
]

-- A quota changes exactly when its limit does.
changed :
    (q : ResourceQuota) (limit : Option ℤ)
    → with_limit q limit (change q.nominal_quota q.lending_limit limit)
      ≡ record q { lending_limit = limit }
changed q limit = go q.lending_limit limit
  where
    go :
        (old new : Option ℤ)
        → with_limit (record q { lending_limit = old }) new (change q.nominal_quota old new)
          ≡ record q { lending_limit = new }
    go none none = refl
    go none (some n) = refl
    go (some o) none = refl
    go (some o) (some n) = elim (Bool-cases (eqb_ℤ o n)) [
      | inl p ↦
          let same : o ≡ n = (eqb_ℤ_iff o n).0 p in
          rw p (ap (λ x. record q { lending_limit = some x }) same)
      | inr p ↦ rw p refl
    ]

-- `delta` grows exactly then.
unchanged_limit : (nominal : ℤ) (old new : Option ℤ) → (change nominal old new ≡ none) ↔ (old ≡ new)
unchanged_limit nominal none none = (λ _. refl, λ _. refl)
unchanged_limit nominal none (some n) = (λ h. absurd cc, λ h. absurd cc)
unchanged_limit nominal (some o) none = (λ h. absurd cc, λ h. absurd cc)
unchanged_limit nominal (some o) (some n) = elim (Bool-cases (eqb_ℤ o n)) [
  | inl p ↦ rw p (λ _. ap some ((eqb_ℤ_iff o n).0 p), λ _. refl)
  | inr p ↦
      rw p (λ h. absurd cc, λ h. absurd (let e : o ≡ n = cc in let q = (eqb_ℤ_iff o n).1 e in cc))
]

abbrev limits_of : ResourceList → List ResourceQuota → List ResourceQuota
limits_of totals qs =
    map
      (λ (q : ResourceQuota). record q {
        lending_limit = limit_for q.nominal_quota (lookup q.name totals);
      })
      qs

adjust_limits :
    (totals : ResourceList) (qs : List ResourceQuota) (delta : ResourceList)
    → (adjust totals qs delta).0 ≡ limits_of totals qs
unfolding adjust
adjust_limits totals [] delta = refl
adjust_limits totals (q ∷ qs) delta =
    rw
      (
        changed q (limit_for q.nominal_quota (lookup q.name totals)),
        adjust_limits totals qs (
            note_change q.name
              (change q.nominal_quota q.lending_limit
                (limit_for q.nominal_quota (lookup q.name totals)))
              delta),
      )
      refl

insert_not_nil : (r : Text) (n : ℤ) (delta : ResourceList) → insert r n delta ≢ []
unfolding insert
insert_not_nil r n [] = λ e. cc
insert_not_nil r n ((k, m) ∷ delta) = elim (Bool-cases (text_eq k r)) [
  | inl p ↦ rw p (λ e. cc)
  | inr p ↦ rw p (λ e. cc)
]

note_change_nil :
    (r : Text) (d : Option ℤ) (delta : ResourceList)
    → (note_change r d delta ≡ []) ↔ ((d ≡ none) × (delta ≡ []))
note_change_nil r none delta = (λ h. (refl, h), λ h. h.1)
note_change_nil r (some n) delta =
    (λ h. absurd (insert_not_nil r n delta h), λ h. let e : some n ≡ none = h.0 in absurd cc)

adjust_delta :
    (totals : ResourceList) (qs : List ResourceQuota) (delta : ResourceList)
    → ((adjust totals qs delta).1 ≡ []) ↔ ((delta ≡ []) × (limits_of totals qs ≡ qs))
unfolding adjust
adjust_delta totals [] delta = (λ h. (h, refl), λ h. h.0)
adjust_delta totals (q ∷ qs) delta =
    let limit = limit_for q.nominal_quota (lookup q.name totals) in
    let rest =
      adjust_delta totals qs
        (note_change q.name (change q.nominal_quota q.lending_limit limit) delta) in
    let here = note_change_nil q.name (change q.nominal_quota q.lending_limit limit) delta in
    let same = unchanged_limit q.nominal_quota q.lending_limit limit in
    (
      λ h.
          let (grown, below) = rest.0 h in
          let (still, before) = here.0 grown in
          let e : q.lending_limit ≡ limit = same.0 still in
          (before, λ i. record q { lending_limit = sym e i } ∷ below i),
      λ h.
          let head : record q { lending_limit = limit } ≡ q = (cons_injective h.1).0 in
          rest.1 (
            here.1 (same.1 (sym (ap (λ (x : ResourceQuota). x.lending_limit) head)), h.0),
            (cons_injective h.1).1,
          ),
    )

module _ (nodes : List (Text × ResourceList))
    (positive : All (λ (e : Text × ResourceList). NoNegative e.1) nodes) where
  limits-lent :
      (qs : List ResourceQuota)
      → limits_of (unschedulable_quantities nodes []) qs ≡ map (lent nodes) qs
  limits-lent [] = refl
  limits-lent (q ∷ qs) = λ i. record q { lending_limit = limit_ok i } ∷ limits-lent qs i
    where
      limit_ok :
          limit_for q.nominal_quota (lookup q.name (unschedulable_quantities nodes []))
          ≡ lendable q.nominal_quota (total q.name nodes)
      limit_ok =
          ap (limit_for q.nominal_quota) (lookup-unschedulable_quantities q.name nodes positive)
          ∙ limit_for_entry q.nominal_quota (total q.name nodes)

  -- `adjust_queue` gives the lent queue, and a delta exactly where that differs.
  pub adjust_queue_lem :
      (cq : ClusterQueue)
      → HasFlavor cq
      → (delta : ResourceList) × (adjust_queue (unschedulable_quantities nodes []) cq
          ≡ some (lent_queue nodes cq, delta))
        × ((delta ≡ []) ↔ (lent_queue nodes cq ≡ cq))
  unfolding adjust_queue
  adjust_queue_lem cq (qs, flavors, groups, shape) =
      let totals = unschedulable_quantities nodes [] in
      let same = adjust_limits totals qs [] ∙ limits-lent qs in
      let queue : lent_queue nodes cq
          ≡ record { resource_groups = (map (lent nodes) qs ∷ flavors) ∷ groups } =
        rw shape refl in
      let whole : cq ≡ record { resource_groups = (qs ∷ flavors) ∷ groups } =
        λ i. record { resource_groups = shape i } in
      let grown = adjust_delta totals qs [] in
      (
        (adjust totals qs []).1,
        rw (adjust_queue, shape, same) refl,
        (
          λ h.
              queue
              ∙ (λ i. record {
                resource_groups = ((sym (limits-lent qs) ∙ (grown.0 h).1) i ∷ flavors) ∷ groups;
              })
              ∙ sym whole,
          λ h.
              let groups_same =
                ap (λ (x : ClusterQueue). x.resource_groups) (sym queue ∙ h ∙ whole) in
              grown.1 (refl, limits-lent qs ∙ (cons_injective (cons_injective groups_same).0).0),
        ),
      )
