-- ===== src/SlackMonitor.antt =====
-- internal/controller/appwrapper/slackcq_monitor.go: the lending limits of the slack ClusterQueue.
-- A quantity is a number of its smallest unit. `none` is the panic of an index out of range.
pub mod Totals
pub mod Limits
pub mod Runs
use appwrapper.Base.{
  ℤ, pos, ◌+ℤ◌, ◌-ℤ◌, ltb_ℤ, eqb_ℤ, Bool, true, false, Option, none, some, List, [], ◌∷◌, is_nil,
  if◌then◌else◌,
}
use appwrapper.Base.Text.{Text, text_eq, lookup, insert}
use appwrapper.Base.Result.{Result, ok, err}
use appwrapper.Cluster.{Reply, Error, conflict, is_not_found}
use appwrapper.NodeMonitor.{ResourceList}

pub record ResourceQuota : Type 0 where
  pub name : Text
  pub nominal_quota : ℤ
  pub lending_limit : Option ℤ

-- A flavor is its quotas, and a resource group is its flavors.
pub record ClusterQueue : Type 0 where
  pub resource_groups : List (List (List ResourceQuota))

-- `unschedulableQuantities[r]` after the addition of a quantity
abbrev pub raised : ℤ → Option ℤ → ℤ
raised n none = n
raised n (some m) = m +ℤ n

abbrev add_quantity : Text → ℤ → ResourceList → ResourceList
add_quantity r n acc = if eqb_ℤ n (pos 0) then acc else insert r (raised n (lookup r acc)) acc

add_quantities : ResourceList → ResourceList → ResourceList
add_quantities [] acc = acc
add_quantities ((r, n) ∷ l) acc = add_quantities l (add_quantity r n acc)

-- The loop over `noScheduleNodes`.
pub unschedulable_quantities : List (Text × ResourceList) → ResourceList → ResourceList
unfolding add_quantities
unschedulable_quantities [] acc = acc
unschedulable_quantities ((node, l) ∷ nodes) acc =
    unschedulable_quantities nodes (add_quantities l acc)

abbrev limit_for : ℤ → Option ℤ → Option ℤ
limit_for nominal none = none
limit_for nominal (some u) = if ltb_ℤ u nominal then some (nominal -ℤ u) else some (pos 0)

abbrev pub negated : ℤ → ℤ
negated n = pos 0 -ℤ n

-- The entry of a quota in `delta`, where its limit changes.
abbrev change : ℤ → Option ℤ → Option ℤ → Option ℤ
change nominal none none = none
change nominal none (some new) = some (negated (nominal -ℤ new))
change nominal (some old) none = some (nominal -ℤ old)
change nominal (some old) (some new) = if eqb_ℤ old new then none else some (negated (old -ℤ new))

-- The quota after its round of the loop, and `delta`.
abbrev with_limit : ResourceQuota → Option ℤ → Option ℤ → ResourceQuota
with_limit q limit none = q
with_limit q limit (some d) = record q { lending_limit = limit }

abbrev note_change : Text → Option ℤ → ResourceList → ResourceList
note_change r none delta = delta
note_change r (some d) delta = insert r d delta

adjust : ResourceList → List ResourceQuota → ResourceList → List ResourceQuota × ResourceList
adjust totals [] delta = ([], delta)
adjust totals (q ∷ qs) delta =
    let limit = limit_for q.nominal_quota (lookup q.name totals) in
    let d = change q.nominal_quota q.lending_limit limit in
    let (rest, delta') = adjust totals qs (note_change q.name d delta) in
    (with_limit q limit d ∷ rest, delta')

-- The queue with the limits of the first flavor of the first group, and `delta`.
unfoldable pub adjust_queue : ResourceList → ClusterQueue → Option (ClusterQueue × ResourceList)
unfolding adjust
adjust_queue totals cq = elim cq.resource_groups [
  | [] ↦ none
  | [] ∷ groups ↦ none
  | (resources ∷ flavors) ∷ groups ↦
      let (resources', delta) = adjust totals resources [] in
      some (record { resource_groups = (resources' ∷ flavors) ∷ groups }, delta)
]

-- A reconcile request, and the reply of the client's Get and Update.
pub record QueueClient (W : Type 0) : Type 0 where
  pub get_cluster_queue : Text → W → Reply ClusterQueue × W
  pub update_cluster_queue : ClusterQueue → W → Option Error × W

-- The result of a run: an error, or whether it asks for another run.
pub data QueueOutcome : Type 0 where
  done : Bool → QueueOutcome
  failed : Error → QueueOutcome

abbrev updated : Option Error → QueueOutcome
updated none = done false
updated (some conflict) = done true
updated (some e) = failed e

module _ {W : Type 0} (k : QueueClient W) where
  store : ClusterQueue → ResourceList → W → QueueOutcome × W
  store cq [] w = (done false, w)
  store cq (d ∷ delta) w = let (e, w') = k.update_cluster_queue cq w in (updated e, w')

  stored : Option (ClusterQueue × ResourceList) → W → Option (QueueOutcome × W)
  unfolding store
  stored none w = none
  stored (some (cq, delta)) w = some (store cq delta w)

  found : List (Text × ResourceList) → Reply ClusterQueue → W → Option (QueueOutcome × W)
  unfolding stored adjust_queue unschedulable_quantities
  found nodes (err e) w = if is_not_found e then some (done false, w) else some (failed e, w)
  found nodes (ok cq) w = stored (adjust_queue (unschedulable_quantities nodes []) cq) w

  -- A run of Reconcile on a request for `name`; `nodes` is the table `noScheduleNodes`.
  unfoldable pub reconcile_slack_queue :
      Text → Text → List (Text × ResourceList) → W → Option (QueueOutcome × W)
  unfolding found
  reconcile_slack_queue slack name nodes w =
      if text_eq name slack
      then (let (reply, w') = k.get_cluster_queue slack w in found nodes reply w')
      else some (done false, w)
