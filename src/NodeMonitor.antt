-- ===== src/NodeMonitor.antt =====
-- internal/controller/appwrapper/node_health_monitor.go: the two tables of nodes with resources that
-- are not to be used, and the events for the monitor of the slack ClusterQueue. A table that several
-- goroutines share is read and written under its lock, so a run is one step on it. The set-up starts
-- this monitor only with the settings of Autopilot, which are therefore not optional here.
-- A quantity is a number, and the two spellings of one number are one quantity.
pub mod Entries
pub mod Resources
pub mod Refines
pub mod Events
use appwrapper.Base.{
  ℤ, pos, ℕ, Bool, true, false, ◌&&◌, not, Option, none, some, List, [], ◌∷◌, eqb_ℤ, is_nil,
  if◌then◌else◌,
}
use appwrapper.Base.Text.{Text, StringMap, codes, text_eq, lookup, insert, delete}
use appwrapper.Base.Tables.{member, add, same_set, same_map}
use appwrapper.Base.Result.{Result, ok, err}
use appwrapper.Cluster.{NodeTable, Reply, Error, is_not_found}
use appwrapper.Config.{AutopilotConfig, Taint, TaintEffect, no_execute}

abbrev pub ResourceList : Type 0
ResourceList = List (Text × ℤ)

pub record Node : Type 0 where
  pub name : Text
  pub labels : StringMap
  pub unschedulable : Bool
  pub capacity : ResourceList
  pub deletion_timestamp : Option ℤ

-- `noExecuteNodes`, `noScheduleNodes` and the events waiting in the channel.
pub record Monitor : Type 0 where
  pub no_execute_nodes : NodeTable
  pub no_schedule_nodes : List (Text × ResourceList)
  pub events : List Text

-- A send that does not block, on a channel of capacity 1.
abbrev pub send : Text → List Text → List Text
send e [] = e ∷ []
send e (f ∷ fs) = f ∷ fs

-- triggerSlackCQMonitor
unfoldable trigger_slack_cq_monitor : Text → Monitor → Monitor
trigger_slack_cq_monitor queue m =
    if not (is_nil queue) then record m { events = send queue m.events } else m

abbrev pub has_key : {V : Type 0} → Option V → Bool
has_key none = false
has_key (some v) = true

abbrev trigger_if : Bool → Text → Monitor → Monitor
trigger_if true queue m = trigger_slack_cq_monitor queue m
trigger_if false queue m = m

-- updateForNodeDeletion, for each of the two tables
abbrev erase_no_execute : Text → Text → Monitor → Monitor
erase_no_execute queue name m =
    if has_key (lookup name m.no_execute_nodes)
    then trigger_slack_cq_monitor queue
        (record m { no_execute_nodes = delete name m.no_execute_nodes })
    else m

abbrev erase_no_schedule : Text → Text → Monitor → Monitor
erase_no_schedule queue name m =
    if has_key (lookup name m.no_schedule_nodes)
    then trigger_slack_cq_monitor queue
        (record m { no_schedule_nodes = delete name m.no_schedule_nodes })
    else m

unfoldable update_for_node_deletion : Text → Text → Monitor → Monitor
update_for_node_deletion queue name m = erase_no_schedule queue name (erase_no_execute queue name m)

abbrev matches : Text × Text → Taint → Bool
matches (key, value) t = text_eq key t.key && text_eq value t.value

abbrev evicts : TaintEffect → Bool
evicts no_execute = true
evicts _ = false

-- The innermost loop of updateNoExecuteNodes.
add_evicted : Text × Text → Text → List Taint → List Text → List Text
add_evicted label r [] rs = rs
add_evicted label r (t ∷ ts) rs =
    add_evicted label r ts (if matches label t && evicts t.effect then add r rs else rs)

add_evicted_resources : Text × Text → List (Text × List Taint) → List Text → List Text
unfolding add_evicted
add_evicted_resources label [] rs = rs
add_evicted_resources label ((r, ts) ∷ rts) rs =
    add_evicted_resources label rts (add_evicted label r ts rs)

unfoldable no_execute_resources : List (Text × List Taint) → StringMap → List Text → List Text
unfolding add_evicted_resources
no_execute_resources rts [] rs = rs
no_execute_resources rts (label ∷ labels) rs =
    no_execute_resources rts labels (add_evicted_resources label rts rs)

-- `Capacity.Name(r)`, which is zero where the node has none of the resource.
abbrev or_zero : Option ℤ → ℤ
or_zero none = pos 0
or_zero (some n) = n

unfoldable quantity_of : Text → ResourceList → ℤ
quantity_of r capacity = or_zero (lookup r capacity)

abbrev put_unless_zero : Text → ℤ → ResourceList → ResourceList
put_unless_zero r n l = if eqb_ℤ n (pos 0) then l else insert r n l

-- The innermost loop of updateNoScheduleNodes.
add_tainted : ResourceList → Text × Text → Text → List Taint → ResourceList → ResourceList
unfolding quantity_of
add_tainted capacity label r [] l = l
add_tainted capacity label r (t ∷ ts) l =
    add_tainted capacity label r ts
      (if matches label t then put_unless_zero r (quantity_of r capacity) l else l)

add_tainted_resources :
    ResourceList → Text × Text → List (Text × List Taint) → ResourceList → ResourceList
unfolding add_tainted
add_tainted_resources capacity label [] l = l
add_tainted_resources capacity label ((r, ts) ∷ rts) l =
    add_tainted_resources capacity label rts (add_tainted capacity label r ts l)

tainted_resources :
    ResourceList → List (Text × List Taint) → StringMap → ResourceList → ResourceList
unfolding add_tainted_resources
tainted_resources capacity rts [] l = l
tainted_resources capacity rts (label ∷ labels) l =
    tainted_resources capacity rts labels (add_tainted_resources capacity label rts l)

abbrev resource_pods : Text
resource_pods = codes "pods"

unfoldable no_schedule_resources : List (Text × List Taint) → Node → ResourceList
unfolding tainted_resources
no_schedule_resources rts n =
    if n.unschedulable
    then delete resource_pods n.capacity
    else tainted_resources n.capacity rts n.labels []

-- The critical section of both updates: the table with the entry of a node, and whether it changed.
unfoldable update_entry :
    {V : Type 0} → (V → V → Bool) → (V → Bool) → Text → V → List (Text × V) → List (Text × V) × Bool
update_entry same is_empty name new table = elim (lookup name table) [
  | some prior ↦
      if is_empty new
      then (delete name table, true)
      else if same prior new
      then (table, false)
      else (insert name new table, true)
  | none ↦ if is_empty new then (table, false) else (insert name new table, true)
]

abbrev update_no_execute_nodes : Text → List (Text × List Taint) → Node → Monitor → Monitor
update_no_execute_nodes queue rts n m =
    let (table, changed) =
      update_entry same_set is_nil n.name (no_execute_resources rts n.labels [])
        m.no_execute_nodes in
    trigger_if changed queue (record m { no_execute_nodes = table })

abbrev update_no_schedule_nodes : Text → List (Text × List Taint) → Node → Monitor → Monitor
update_no_schedule_nodes queue rts n m =
    let (table, changed) =
      update_entry same_map is_nil n.name (no_schedule_resources rts n) m.no_schedule_nodes in
    trigger_if changed queue (record m { no_schedule_nodes = table })

abbrev is_being_deleted : Option ℤ → Bool
is_being_deleted none = false
is_being_deleted (some t) = true

-- A run of Reconcile on the node of a name, with what the client's Get answered: its error, and
-- the state after it. `queue` is the name of the slack queue.
unfoldable pub reconcile_node :
    Text → AutopilotConfig → Text → Reply Node → Monitor → Option Error × Monitor
unfolding update_for_node_deletion trigger_slack_cq_monitor update_entry no_execute_resources
    no_schedule_resources
reconcile_node queue ap name (err e) m =
    if is_not_found e then (none, update_for_node_deletion queue name m) else (some e, m)
reconcile_node queue ap name (ok n) m =
    if is_being_deleted n.deletion_timestamp
    then (none, update_for_node_deletion queue name m)
    else (
      none,
      update_no_schedule_nodes queue ap.resource_taints n
          (update_no_execute_nodes queue ap.resource_taints n m),
    )
