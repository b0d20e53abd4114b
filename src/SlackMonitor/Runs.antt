-- ===== src/SlackMonitor/Runs.antt =====
-- Runs of the slack monitor (Reconcile, internal/controller/appwrapper/slackcq_monitor.go).
use appwrapper.Base.{
  ℤ, pos, ◌+ℤ◌, ◌-ℤ◌, ◌≤ℤ◌, ltb_ℤ, eqb_ℤ, -ℤ_parts, +ℤ_parts, Bool, true, false, none, some, List,
  [], ◌∷◌, ◌≡◌, ◌≢◌, refl, sym, ◌∙◌, ap, map, if◌then◌else◌, Bool-cases, inl, inr, ◌⊎◌, arith, All,
}
use appwrapper.Base.Text.{Text, text_eq, text_eq_refl}
use appwrapper.Base.Result.{ok}
use appwrapper.NodeMonitor.{ResourceList}
use appwrapper.SlackMonitor.{
  ResourceQuota, ClusterQueue, QueueClient, done, adjust_queue, updated, store, stored, found,
  reconcile_slack_queue, unschedulable_quantities,
}
use appwrapper.SlackMonitor.Totals.{total, NoNegative, amount}
use appwrapper.SlackMonitor.Limits.{lendable, lent, lent_queue, HasFlavor, adjust_queue_lem}

module _ {W : Type 0} (k : QueueClient W) (slack : Text) (nodes : List (Text × ResourceList))
    (positive : All (λ (e : Text × ResourceList). NoNegative e.1) nodes) where
  run_lem :
      (w w' : W) (cq : ClusterQueue)
      → k.get_cluster_queue slack w ≡ (ok cq, w')
      → reconcile_slack_queue k slack slack nodes w
        ≡ stored k (adjust_queue (unschedulable_quantities nodes []) cq) w'
  unfolding reconcile_slack_queue found
  run_lem w w' cq h = rw (reconcile_slack_queue, text_eq_refl slack, h) refl

  store_nonempty :
      (cq : ClusterQueue) (delta : ResourceList) (w : W)
      → delta ≢ []
      → store k cq delta w
        ≡ (updated (k.update_cluster_queue cq w).0, (k.update_cluster_queue cq w).1)
  unfolding store
  store_nonempty cq [] w h = absurd (h refl)
  store_nonempty cq (d ∷ delta) w h = refl

  store_empty :
      (cq : ClusterQueue) (delta : ResourceList) (w : W)
      → delta ≡ []
      → store k cq delta w ≡ (done false, w)
  unfolding store
  store_empty cq [] w h = refl
  store_empty cq (d ∷ delta) w h = absurd cc

  nil_cases : (delta : ResourceList) → (delta ≡ []) ⊎ (delta ≢ [])
  nil_cases [] = inl refl
  nil_cases (d ∷ delta) = inr (λ e. cc)

  -- Where the tables of unschedulable nodes hold no negative quantity, and the client gives a
  -- queue that has a first flavor: let the limits of that flavor be none for a resource of which
  -- nothing is unschedulable, and otherwise the nominal quota less the total over the nodes, or
  -- zero if the total is no less. If the queue has these limits, the run ends with no update; if
  -- it has not, the run sends the queue with these limits and otherwise as it was, and ends as
  -- the answer says.
  pub reconcile_slack_queue_lem :
      (w w' : W) (cq : ClusterQueue)
      → k.get_cluster_queue slack w ≡ (ok cq, w')
      → HasFlavor cq
      → ((lent_queue nodes cq ≡ cq)
          × (reconcile_slack_queue k slack slack nodes w ≡ some (done false, w')))
        ⊎ ((lent_queue nodes cq ≢ cq)
            × (reconcile_slack_queue k slack slack nodes w
                ≡ some (
                  updated (k.update_cluster_queue (lent_queue nodes cq) w').0,
                  (k.update_cluster_queue (lent_queue nodes cq) w').1,
                )))
  unfolding stored
  reconcile_slack_queue_lem w w' cq h flavor =
      let (delta, adjusted, grown) = adjust_queue_lem nodes positive cq flavor in
      let run : reconcile_slack_queue k slack slack nodes w
          ≡ some (store k (lent_queue nodes cq) delta w') =
        run_lem w w' cq h ∙ ap (λ o. stored k o w') adjusted in
      elim (nil_cases delta) [
        | inl p ↦ inl (grown.0 p, run ∙ ap some (store_empty (lent_queue nodes cq) delta w' p))
        | inr p ↦
            inr
              (λ e. p (grown.1 e), run ∙ ap some (store_nonempty (lent_queue nodes cq) delta w' p))
      ]

-- The limit of a quota, if it has one, is no more than may be lent, and withholds no more than is lost.
abbrev pub Bounded : List (Text × ResourceList) → ResourceQuota → Type 0
Bounded nodes q =
    (l : ℤ)
    → q.lending_limit ≡ some l
    → (pos 0 ≤ℤ l) × (l ≤ℤ q.nominal_quota) × (q.nominal_quota ≤ℤ (l +ℤ total q.name nodes))

lendable_lem :
    (nominal lost l : ℤ)
    → pos 0 ≤ℤ nominal
    → pos 0 ≤ℤ lost
    → lendable nominal lost ≡ some l
    → (pos 0 ≤ℤ l) × (l ≤ℤ nominal) × (nominal ≤ℤ (l +ℤ lost))
lendable_lem nominal lost l hn hl e = elim (Bool-cases (eqb_ℤ lost (pos 0))) [
  | inl p ↦ absurd (let z : none ≡ some l = rw p at e in cc)
  | inr p ↦ elim (Bool-cases (ltb_ℤ lost nominal)) [
    | inl q ↦
        let z : some (nominal -ℤ lost) ≡ some l = rw (p, q) at e in
        let same : nominal -ℤ lost ≡ l = cc in
        let less = lt_of nominal lost q in
        rw (sym same) (
          omega (arith, hn, hl, less, -ℤ_parts nominal lost),
          omega (arith, hn, hl, less, -ℤ_parts nominal lost),
          omega (arith, hn, hl, less, -ℤ_parts nominal lost, +ℤ_parts (nominal -ℤ lost) lost),
        )
    | inr q ↦
        let z : some (pos 0) ≡ some l = rw (p, q) at e in
        let same : pos 0 ≡ l = cc in
        let more = le_of nominal lost q in
        rw (sym same) (omega arith, hn, omega (arith, more, +ℤ_parts (pos 0) lost))
  ]
]
  where
    lt_of : (a b : ℤ) → ltb_ℤ b a ≡ true → b ≤ℤ a
    lt_of a b h = ground arith

    le_of : (a b : ℤ) → ltb_ℤ b a ≡ false → a ≤ℤ b
    le_of a b h = ground arith

amount_nonnegative : (r : Text) (l : ResourceList) → NoNegative l → pos 0 ≤ℤ amount r l
amount_nonnegative r [] h = omega arith
amount_nonnegative r ((t, n) ∷ l) (hn, hl) =
    let rest = amount_nonnegative r l hl in
    let here : pos 0 ≤ℤ (if text_eq t r then n else pos 0) = pick (text_eq t r) in
    omega (arith, rest, here, +ℤ_parts (if text_eq t r then n else pos 0) (amount r l))
  where
    pick : (b : Bool) → pos 0 ≤ℤ (if b then n else pos 0)
    pick true = hn
    pick false = omega arith

total_nonnegative :
    (r : Text) (nodes : List (Text × ResourceList))
    → All (λ (e : Text × ResourceList). NoNegative e.1) nodes
    → pos 0 ≤ℤ total r nodes
total_nonnegative r [] h = omega arith
total_nonnegative r ((node, l) ∷ nodes) (hl, hn) =
    let rest = total_nonnegative r nodes hn in
    let here = amount_nonnegative r l hl in
    omega (arith, rest, here, +ℤ_parts (amount r l) (total r nodes))

module _ (nodes : List (Text × ResourceList))
    (positive : All (λ (e : Text × ResourceList). NoNegative e.1) nodes) where
  quotas-Bounded :
      (qs : List ResourceQuota)
      → All (λ (q : ResourceQuota). pos 0 ≤ℤ q.nominal_quota) qs
      → All (Bounded nodes) (map (lent nodes) qs)
  quotas-Bounded [] h = tt
  quotas-Bounded (q ∷ qs) (hq, hqs) = (
    λ l e.
        lendable_lem q.nominal_quota (total q.name nodes) l hq
          (total_nonnegative q.name nodes positive) e,
    quotas-Bounded qs hqs,
  )

  -- Where neither the nominal quotas nor the quantities of the tables are negative: the loop
  -- leaves everything but the first flavor of the first group, and there a limit that is set lies
  -- between zero and the nominal quota, and withholds no more of the quota than the total of the
  -- unschedulable quantities of its resource.
  pub adjust_queue-Bounded :
      (resources : List ResourceQuota) (flavors : List (List ResourceQuota))
      (groups : List (List (List ResourceQuota)))
      → All (λ (q : ResourceQuota). pos 0 ≤ℤ q.nominal_quota) resources
      → (bounded : List ResourceQuota) × (delta : ResourceList) × (adjust_queue
            (unschedulable_quantities nodes [])
            (record { resource_groups = (resources ∷ flavors) ∷ groups })
          ≡ some (record { resource_groups = (bounded ∷ flavors) ∷ groups }, delta))
        × All (Bounded nodes) bounded
  adjust_queue-Bounded resources flavors groups h =
      let (delta, adjusted, grown) =
        adjust_queue_lem nodes positive
          (record { resource_groups = (resources ∷ flavors) ∷ groups })
          (resources, flavors, groups, refl) in
      (map (lent nodes) resources, delta, adjusted, quotas-Bounded resources h)
