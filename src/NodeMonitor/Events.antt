-- ===== src/NodeMonitor/Events.antt =====
-- The events of the node monitor (triggerSlackCQMonitor and its callers,
-- internal/controller/appwrapper/node_health_monitor.go).
use appwrapper.Base.{
  ◌≤◌, Bool, true, false, List, [], ◌∷◌, ◌≡◌, ◌≢◌, refl, ◌∙◌, is_nil, length, Bool-cases,
  Option-cases, inl, inr, ◌⊎◌, arith,
}
use appwrapper.Base.Text.{Text, lookup}
use appwrapper.Base.Tables.{same_set, same_map}
use appwrapper.Base.Result.{ok, err}
use appwrapper.Cluster.{Reply, is_not_found}
use appwrapper.Config.{AutopilotConfig}
use appwrapper.NodeMonitor.{
  Node, Monitor, reconcile_node, update_for_node_deletion, trigger_slack_cq_monitor, trigger_if,
  erase_no_execute, erase_no_schedule, update_no_execute_nodes, update_no_schedule_nodes,
  update_entry, no_execute_resources, no_schedule_resources, is_being_deleted, send, has_key,
}

-- The channel holds at most one event, and where the tables of `b` differ from those of `a` and
-- there is a slack queue, it holds one.
pub record Announced (queue : Text) (a b : Monitor) : Type 0 where
  pub at_most_one : length b.events ≤ 1
  pub told :
      queue ≢ []
      → ((b.no_execute_nodes ≡ a.no_execute_nodes)
          × (b.no_schedule_nodes ≡ a.no_schedule_nodes)
          × (b.events ≡ a.events))
        ⊎ (length b.events ≡ 1)

send_one : (q : Text) (es : List Text) → length es ≤ 1 → length (send q es) ≡ 1
send_one q [] h = refl
send_one q (e ∷ []) h = refl
send_one q (e ∷ f ∷ es) h = absurd (omega (arith, h))

triggered :
    (q : Text) (a b : Monitor) → length b.events ≤ 1 → Announced q a (trigger_slack_cq_monitor q b)
unfolding trigger_slack_cq_monitor
triggered [] a b h = record { at_most_one = h; told = λ ne. absurd (ne refl) }
triggered (c ∷ q) a b h =
    let one = send_one (c ∷ q) b.events h in
    record { at_most_one = omega (arith, one); told = λ _. inr one }

untouched : (q : Text) (a : Monitor) → length a.events ≤ 1 → Announced q a a
untouched q a h = record { at_most_one = h; told = λ _. inl (refl, refl, refl) }

-- One step after another.
then_Announced : (q : Text) (a b c : Monitor) → Announced q a b → Announced q b c → Announced q a c
then_Announced q a b c ab bc = record {
  at_most_one = bc.at_most_one;
  told = λ ne. elim (bc.told ne) [
    | inr one ↦ inr one
    | inl (x, y, z) ↦ elim (ab.told ne) [
      | inl (x', y', z') ↦ inl (x ∙ x', y ∙ y', z ∙ z')
      | inr one ↦ inr (rw z one)
    ]
  ];
}

erase_no_execute-Announced :
    (q name : Text) (m : Monitor) → length m.events ≤ 1 → Announced q m (erase_no_execute q name m)
erase_no_execute-Announced q name m h =
    elim (Bool-cases (has_key (lookup name m.no_execute_nodes))) [
      | inl p ↦ rw p (triggered q m _ h)
      | inr p ↦ rw p (untouched q m h)
    ]

erase_no_schedule-Announced :
    (q name : Text) (m : Monitor) → length m.events ≤ 1 → Announced q m (erase_no_schedule q name m)
erase_no_schedule-Announced q name m h =
    elim (Bool-cases (has_key (lookup name m.no_schedule_nodes))) [
      | inl p ↦ rw p (triggered q m _ h)
      | inr p ↦ rw p (untouched q m h)
    ]

update_for_node_deletion-Announced :
    (q name : Text) (m : Monitor)
    → length m.events ≤ 1
    → Announced q m (update_for_node_deletion q name m)
unfolding update_for_node_deletion
update_for_node_deletion-Announced q name m h =
    let first = erase_no_execute-Announced q name m h in
    then_Announced q m (erase_no_execute q name m) _ first
      (erase_no_schedule-Announced q name (erase_no_execute q name m) first.at_most_one)

-- An entry that is reported as unchanged is unchanged.
update_entry_unchanged :
    {V : Type 0} (same : V → V → Bool) (empty : V → Bool) (name : Text) (new : V)
    (table : List (Text × V))
    → (update_entry same empty name new table).1 ≡ false
    → (update_entry same empty name new table).0 ≡ table
unfolding update_entry
update_entry_unchanged same empty name new table h = elim (Option-cases (lookup name table)) [
  | inl p ↦ elim (Bool-cases (empty new)) [
    | inl e ↦ rw (update_entry, p, e) refl
    | inr e ↦ absurd (let z : true ≡ false = rw (update_entry, p, e) at h in cc)
  ]
  | inr (prior, p) ↦ elim (Bool-cases (empty new)) [
    | inl e ↦ absurd (let z : true ≡ false = rw (update_entry, p, e) at h in cc)
    | inr e ↦ elim (Bool-cases (same prior new)) [
      | inl q ↦ rw (update_entry, p, e, q) refl
      | inr q ↦ absurd (let z : true ≡ false = rw (update_entry, p, e, q) at h in cc)
    ]
  ]
]

trigger_if-Announced :
    (changed : Bool) (q : Text) (a b : Monitor)
    → length b.events ≤ 1
    → (changed ≡ false → b ≡ a)
    → Announced q a (trigger_if changed q b)
trigger_if-Announced true q a b h same = triggered q a b h
trigger_if-Announced false q a b h same = let e = same refl in rw e (untouched q a (rw e at h))

update_no_execute_nodes-Announced :
    (q : Text) (pilot : AutopilotConfig) (n : Node) (m : Monitor)
    → length m.events ≤ 1
    → Announced q m (update_no_execute_nodes q pilot.resource_taints n m)
update_no_execute_nodes-Announced q pilot n m h =
    let new = no_execute_resources pilot.resource_taints n.labels [] in
    let entry = update_entry same_set is_nil n.name new m.no_execute_nodes in
    trigger_if-Announced entry.1 q m (record m { no_execute_nodes = entry.0 }) h
      (λ e i. record m {
        no_execute_nodes = update_entry_unchanged same_set is_nil n.name new m.no_execute_nodes e i;
      })

update_no_schedule_nodes-Announced :
    (q : Text) (pilot : AutopilotConfig) (n : Node) (m : Monitor)
    → length m.events ≤ 1
    → Announced q m (update_no_schedule_nodes q pilot.resource_taints n m)
update_no_schedule_nodes-Announced q pilot n m h =
    let new = no_schedule_resources pilot.resource_taints n in
    let entry = update_entry same_map is_nil n.name new m.no_schedule_nodes in
    trigger_if-Announced entry.1 q m (record m { no_schedule_nodes = entry.0 }) h
      (λ e i. record m {
        no_schedule_nodes =
            update_entry_unchanged same_map is_nil n.name new m.no_schedule_nodes e i;
      })

-- Where the channel holds at most one event before a run of Reconcile, it does so after it; and
-- if a slack queue is configured, the two tables and the channel are unchanged or there is an
-- event in the channel.
pub reconcile_node-Announced :
    (queue name : Text) (pilot : AutopilotConfig) (reply : Reply Node) (m : Monitor)
    → length m.events ≤ 1
    → Announced queue m (reconcile_node queue pilot name reply m).1
unfolding reconcile_node
reconcile_node-Announced queue name pilot (err e) m h = elim (Bool-cases (is_not_found e)) [
  | inl p ↦ rw (reconcile_node, p) (update_for_node_deletion-Announced queue name m h)
  | inr p ↦ rw (reconcile_node, p) (untouched queue m h)
]
reconcile_node-Announced queue name pilot (ok n) m h =
    elim (Bool-cases (is_being_deleted n.deletion_timestamp)) [
      | inl p ↦ rw (reconcile_node, p) (update_for_node_deletion-Announced queue name m h)
      | inr p ↦
          let m1 = update_no_execute_nodes queue pilot.resource_taints n m in
          let first = update_no_execute_nodes-Announced queue pilot n m h in
          rw (reconcile_node, p)
            (then_Announced queue m m1 (update_no_schedule_nodes queue pilot.resource_taints n m1)
              first (update_no_schedule_nodes-Announced queue pilot n m1 first.at_most_one))
    ]
