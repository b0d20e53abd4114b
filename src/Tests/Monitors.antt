-- ===== src/Tests/Monitors.antt =====
-- The node monitor and the monitor of the slack queue on small inputs.
use appwrapper.Base.{
  ℕ, pos, ◌≡◌, ◌≢◌, ◌⊎◌, ◌≤◌, ◌≤ℤ◌, refl, sym, Bool, true, false, Option, none, some, List, [], ◌∷◌,
  All, arith, length,
}
use appwrapper.Base.Text.{Text, codes, text_eq}
use appwrapper.Base.Result.{ok}
use appwrapper.Config.{AutopilotConfig, no_execute}
use appwrapper.NodeMonitor.{Node, Monitor, ResourceList, reconcile_node}
use appwrapper.NodeMonitor.Refines.{picture, learn, finding, picture-reconcile_node}
use appwrapper.NodeMonitor.Events.{Announced, reconcile_node-Announced}
use appwrapper.SlackMonitor.{
  ResourceQuota, ClusterQueue, QueueClient, done, adjust_queue, unschedulable_quantities,
  reconcile_slack_queue,
}
use appwrapper.SlackMonitor.Limits.{lent_queue}
use appwrapper.SlackMonitor.Runs.{Bounded, reconcile_slack_queue_lem, adjust_queue-Bounded}

abbrev gpu : Text
gpu = codes "gpu"

abbrev pilot : AutopilotConfig
pilot = record {
  inject_anti_affinities = true;
  monitor_nodes = true;
  resource_taints =
      (gpu, record { key = codes "health"; value = codes "EVICT"; effect = no_execute } ∷ []) ∷ [];
}

abbrev node : Node
node = record {
  name = codes "n";
  labels = (codes "health", codes "EVICT") ∷ [];
  unschedulable = false;
  capacity = (gpu, pos 8) ∷ [];
  deletion_timestamp = none;
}

abbrev idle : Monitor
idle = record { no_execute_nodes = []; no_schedule_nodes = []; events = [] }

one_event : (reconcile_node (codes "slack") pilot (codes "n") (ok node) idle).1 ≡ record {
  no_execute_nodes = (codes "n", gpu ∷ []) ∷ [];
  no_schedule_nodes = (codes "n", (gpu, pos 8) ∷ []) ∷ [];
  events = codes "slack" ∷ [];
}
unfolding reconcile_node text_eq appwrapper.Base.Text.lookup appwrapper.Base.Text.insert
    appwrapper.Base.Tables.member
one_event = refl

picture-reconcile_node_example :
    picture (reconcile_node (codes "slack") pilot (codes "n") (ok node) idle).1
    ≡ learn pilot (codes "n") (finding (ok node)) (picture idle)
picture-reconcile_node_example =
    picture-reconcile_node (codes "slack") (codes "n") pilot (ok node) idle
      (λ m e. let same : node ≡ m = cc in rw (sym same) refl)

reconcile_node-Announced_example :
    Announced
      (codes "slack")
      idle
      (reconcile_node (codes "slack") pilot (codes "n") (ok node) idle).1
reconcile_node-Announced_example =
    reconcile_node-Announced (codes "slack") (codes "n") pilot (ok node) idle (omega arith)

abbrev quotas : List ResourceQuota
quotas = record { name = gpu; nominal_quota = pos 20; lending_limit = none } ∷ []

abbrev queue : ClusterQueue
queue = record { resource_groups = (quotas ∷ []) ∷ [] }

abbrev nodes : List (Text × ResourceList)
nodes = (codes "n", (gpu, pos 8) ∷ []) ∷ []

-- The world is the queue that the server has.
abbrev client : QueueClient ClusterQueue
client = record {
  get_cluster_queue = λ name w. (ok w, w);
  update_cluster_queue = λ cq w. (none, cq);
}

reconcile_slack_queue_lem_example :
    ((lent_queue nodes queue ≡ queue)
      × (reconcile_slack_queue client (codes "s") (codes "s") nodes queue
          ≡ some (done false, queue)))
    ⊎ ((lent_queue nodes queue ≢ queue)
        × (reconcile_slack_queue client (codes "s") (codes "s") nodes queue
            ≡ some (done false, lent_queue nodes queue)))
reconcile_slack_queue_lem_example =
    reconcile_slack_queue_lem client (codes "s") nodes ((omega arith, tt), tt) queue queue queue
      refl (quotas, [], [], refl)

adjust_queue-Bounded_example :
    (bounded : List ResourceQuota) × (delta : ResourceList) × (adjust_queue
        (unschedulable_quantities nodes [])
        queue
      ≡ some (record { resource_groups = (bounded ∷ []) ∷ [] }, delta))
    × All (Bounded nodes) bounded
adjust_queue-Bounded_example =
    adjust_queue-Bounded nodes ((omega arith, tt), tt) quotas [] [] (omega arith, tt)
