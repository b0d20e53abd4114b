-- ===== src/NodeMonitor/Refines.antt =====
-- The tables of the node monitor as two maps from nodes and resources
-- (Reconcile, internal/controller/appwrapper/node_health_monitor.go).
use appwrapper.Base.{
  ℤ, Bool, true, false, Option, none, List, [], ◌∷◌, ◌≡◌, refl, sym, ◌∙◌, ap, is_nil, if◌then◌else◌,
  Bool-cases, inl, inr,
}
use appwrapper.Base.Text.{Text, text_eq, lookup, delete}
use appwrapper.Base.Tables.{member, same_set, same_map, same_set-member, same_map-lookup}
use appwrapper.Base.Result.{ok, err}
use appwrapper.Cluster.{Reply, not_found}
use appwrapper.Config.{AutopilotConfig}
use appwrapper.NodeMonitor.{
  Node, Monitor, reconcile_node, update_for_node_deletion, trigger_slack_cq_monitor, trigger_if,
  erase_no_execute, erase_no_schedule, update_no_execute_nodes, update_no_schedule_nodes,
  no_execute_resources, no_schedule_resources, evicts, is_being_deleted, has_key,
}
use appwrapper.NodeMonitor.Entries.{view, view-erased, view-update_entry}
use appwrapper.NodeMonitor.Resources.{
  tainted, unusable, member-no_execute_resources, lookup-no_schedule_resources,
}

-- What the monitor promises to know: whether a resource is to be evicted from a node, and the
-- quantity of it that is unschedulable there.
pub record Picture : Type 0 where
  pub evicted : Text → Text → Bool
  pub missing : Text → Text → Option ℤ

-- What a run finds out about its node.
pub data Finding : Type 0 where
  unknown gone : Finding
  alive : Node → Finding

abbrev pub finding : Reply Node → Finding
finding (err not_found) = gone
finding (err e) = unknown
finding (ok n) = if is_being_deleted n.deletion_timestamp then gone else alive n

-- The picture after a run: the parts about the node are those of the finding, the others stay.
abbrev pub learn : AutopilotConfig → Text → Finding → Picture → Picture
learn pilot name unknown p = p
learn pilot name gone p = record {
  evicted = λ j r. if text_eq name j then false else p.evicted j r;
  missing = λ j r. if text_eq name j then none else p.missing j r;
}
learn pilot name (alive n) p = record {
  evicted = λ j r.
      if text_eq name j then tainted evicts pilot.resource_taints n.labels r else p.evicted j r;
  missing = λ j r. if text_eq name j then unusable pilot.resource_taints n r else p.missing j r;
}

abbrev pub picture : Monitor → Picture
picture m = record {
  evicted = λ j r. view (member r) false j m.no_execute_nodes;
  missing = λ j r. view (lookup r) none j m.no_schedule_nodes;
}

member_nil : (r : Text) (a : List Text) → is_nil a ≡ true → member r a ≡ false
unfolding member
member_nil r [] h = refl
member_nil r (s ∷ a) h = absurd cc

lookup_nil : (r : Text) (a : List (Text × ℤ)) → is_nil a ≡ true → lookup r a ≡ none
unfolding lookup
lookup_nil r [] h = refl
lookup_nil r (s ∷ a) h = absurd cc

-- An event changes no table.
trigger-no_execute_nodes :
    (q : Text) (m : Monitor) → (trigger_slack_cq_monitor q m).no_execute_nodes ≡ m.no_execute_nodes
unfolding trigger_slack_cq_monitor
trigger-no_execute_nodes [] m = refl
trigger-no_execute_nodes (c ∷ q) m = refl

trigger-no_schedule_nodes :
    (q : Text) (m : Monitor)
    → (trigger_slack_cq_monitor q m).no_schedule_nodes ≡ m.no_schedule_nodes
unfolding trigger_slack_cq_monitor
trigger-no_schedule_nodes [] m = refl
trigger-no_schedule_nodes (c ∷ q) m = refl

trigger_if-no_execute_nodes :
    (b : Bool) (q : Text) (m : Monitor) → (trigger_if b q m).no_execute_nodes ≡ m.no_execute_nodes
trigger_if-no_execute_nodes true q m = trigger-no_execute_nodes q m
trigger_if-no_execute_nodes false q m = refl

trigger_if-no_schedule_nodes :
    (b : Bool) (q : Text) (m : Monitor) → (trigger_if b q m).no_schedule_nodes ≡ m.no_schedule_nodes
trigger_if-no_schedule_nodes true q m = trigger-no_schedule_nodes q m
trigger_if-no_schedule_nodes false q m = refl

erase_no_execute_tables :
    (q name : Text) (m : Monitor)
    → ((erase_no_execute q name m).no_execute_nodes ≡ (
        if has_key (lookup name m.no_execute_nodes)
        then delete name m.no_execute_nodes
        else m.no_execute_nodes))
      × ((erase_no_execute q name m).no_schedule_nodes ≡ m.no_schedule_nodes)
erase_no_execute_tables q name m = elim (Bool-cases (has_key (lookup name m.no_execute_nodes))) [
  | inl p ↦ rw p (trigger-no_execute_nodes q _, trigger-no_schedule_nodes q _)
  | inr p ↦ rw p (refl, refl)
]

erase_no_schedule_tables :
    (q name : Text) (m : Monitor)
    → ((erase_no_schedule q name m).no_schedule_nodes ≡ (
        if has_key (lookup name m.no_schedule_nodes)
        then delete name m.no_schedule_nodes
        else m.no_schedule_nodes))
      × ((erase_no_schedule q name m).no_execute_nodes ≡ m.no_execute_nodes)
erase_no_schedule_tables q name m = elim (Bool-cases (has_key (lookup name m.no_schedule_nodes))) [
  | inl p ↦ rw p (trigger-no_schedule_nodes q _, trigger-no_execute_nodes q _)
  | inr p ↦ rw p (refl, refl)
]

-- A deletion erases the node from the picture.
picture-erased :
    (pilot : AutopilotConfig) (q name : Text) (m : Monitor)
    → picture (update_for_node_deletion q name m) ≡ learn pilot name gone (picture m)
unfolding update_for_node_deletion
picture-erased pilot q name m =
    λ i. record { evicted = λ j r. evicted_ok j r i; missing = λ j r. missing_ok j r i }
  where
    m1 : Monitor
    m1 = erase_no_execute q name m

    evicted_ok :
        (j r : Text)
        → view (member r) false j (erase_no_schedule q name m1).no_execute_nodes
          ≡ (if text_eq name j then false else view (member r) false j m.no_execute_nodes)
    evicted_ok j r =
        rw ((erase_no_schedule_tables q name m1).1, (erase_no_execute_tables q name m).0)
          (view-erased (member r) false name j m.no_execute_nodes)

    missing_ok :
        (j r : Text)
        → view (lookup r) none j (erase_no_schedule q name m1).no_schedule_nodes
          ≡ (if text_eq name j then none else view (lookup r) none j m.no_schedule_nodes)
    missing_ok j r =
        rw ((erase_no_schedule_tables q name m1).0, (erase_no_execute_tables q name m).1)
          (view-erased (lookup r) none name j m.no_schedule_nodes)

-- An update puts what the node's labels and capacity say into the picture.
picture-updated :
    (pilot : AutopilotConfig) (q : Text) (n : Node) (m : Monitor)
    → picture (
        update_no_schedule_nodes q pilot.resource_taints n
          (update_no_execute_nodes q pilot.resource_taints n m))
      ≡ learn pilot n.name (alive n) (picture m)
picture-updated pilot q n m =
    λ i. record { evicted = λ j r. evicted_ok j r i; missing = λ j r. missing_ok j r i }
  where
    m1 : Monitor
    m1 = update_no_execute_nodes q pilot.resource_taints n m

    evicted_ok :
        (j r : Text)
        → view
            (member r)
            false
            j
            (update_no_schedule_nodes q pilot.resource_taints n m1).no_execute_nodes
          ≡ (if text_eq n.name j
              then tainted evicts pilot.resource_taints n.labels r
              else view (member r) false j m.no_execute_nodes)
    evicted_ok j r =
        ap (view (member r) false j)
          (trigger_if-no_execute_nodes _ q _ ∙ trigger_if-no_execute_nodes _ q _)
        ∙ view-update_entry (member r) false same_set is_nil (λ a b. same_set-member a b r)
            (member_nil r) n.name j (no_execute_resources pilot.resource_taints n.labels [])
            m.no_execute_nodes
        ∙ ap (λ x. if text_eq n.name j then x else view (member r) false j m.no_execute_nodes)
            (member-no_execute_resources pilot.resource_taints n.labels r)

    missing_ok :
        (j r : Text)
        → view
            (lookup r)
            none
            j
            (update_no_schedule_nodes q pilot.resource_taints n m1).no_schedule_nodes
          ≡ (if text_eq n.name j
              then unusable pilot.resource_taints n r
              else view (lookup r) none j m.no_schedule_nodes)
    missing_ok j r =
        ap (view (lookup r) none j) (trigger_if-no_schedule_nodes _ q _)
        ∙ view-update_entry (lookup r) none same_map is_nil (λ a b. same_map-lookup a b r)
            (lookup_nil r) n.name j (no_schedule_resources pilot.resource_taints n)
            m1.no_schedule_nodes
        ∙ (rw
            (
              trigger_if-no_schedule_nodes _ q _,
              lookup-no_schedule_resources pilot.resource_taints n r,
            )
            refl)

-- Where the client's answer is about the node that was asked for: seen as a predicate on nodes
-- and resources (to be evicted) and a partial map from them (the unschedulable quantity), the two
-- tables after a run of Reconcile are those before with the node's part replaced by what its
-- labels, taints, cordon and capacity say, or removed if the node is not found or being deleted;
-- an error of the client leaves them.
pub picture-reconcile_node :
    (queue name : Text) (pilot : AutopilotConfig) (reply : Reply Node) (m : Monitor)
    → ((n : Node) → reply ≡ ok n → n.name ≡ name)
    → picture (reconcile_node queue pilot name reply m).1
      ≡ learn pilot name (finding reply) (picture m)
unfolding reconcile_node
picture-reconcile_node queue name pilot (err not_found) m answers =
    picture-erased pilot queue name m
picture-reconcile_node queue name pilot (err _) m answers = refl
picture-reconcile_node queue name pilot (ok n) m answers =
    elim (Bool-cases (is_being_deleted n.deletion_timestamp)) [
      | inl p ↦ rw (reconcile_node, p) (picture-erased pilot queue name m)
      | inr p ↦ rw (reconcile_node, p, sym (answers n refl)) (picture-updated pilot queue n m)
    ]
