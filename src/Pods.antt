-- ===== src/Pods.antt =====
-- getPodStatus of internal/controller/appwrapper/appwrapper_controller.go: the summary of the pods
-- that carry the AppWrapper's label.
pub mod Exits
pub mod Counts
use appwrapper.Base.{
  ℤ, pos, ℕ, suc, Bool, true, false, ◌&&◌, ◌||◌, not, Option, none, some, List, [], ◌∷◌, ◌+ℤ◌,
  eqb_ℤ, int32, if◌then◌else◌, any, is_nil,
}
use appwrapper.Base.Text.{Text, text_eq, lookup}
use appwrapper.Base.Result.{Result, ok, err, ◌>>=◌}
use appwrapper.Api.{AppWrapper, app_wrapper_label}
use appwrapper.Config.{AutopilotConfig}
use appwrapper.Cluster.{
  Kit, Error, Reply, Pod, Container, NodeTable, pod_pending, pod_running, pod_succeeded, pod_failed,
}
use appwrapper.Exec.{State, M}
use appwrapper.Durations.{terminal_exit_codes, retryable_exit_codes}
use appwrapper.PodSets.{expected_pod_count}

pub record PodStatusSummary : Type 0 where
  pub expected : ℤ
  pub pending : ℤ
  pub running : ℤ
  pub succeeded : ℤ
  pub failed : ℤ
  pub terminal_failure : Bool
  pub no_execute_nodes : List Text

abbrev pub is_set : {A : Type 0} → Option A → Bool
is_set none = false
is_set (some a) = true

abbrev one_more : ℤ → ℤ
one_more n = int32 (n +ℤ pos 1)

-- Does the list hold a quantity of the resource that is not zero?
abbrev non_zero : Option ℤ → Bool
non_zero none = false
non_zero (some q) = not (eqb_ℤ q (pos 0))

abbrev pub uses : Text → Container → Bool
uses resource c = non_zero (lookup resource c.limits) || non_zero (lookup resource c.requests)

abbrev or_empty : Option (List Text) → List Text
or_empty none = []
or_empty (some rs) = rs

-- Does a container of the pod use a resource that is bad on the pod's node?
unfoldable pub on_bad_node : NodeTable → Pod → Bool
on_bad_node table p = any (λ r. any (uses r) p.containers) (or_empty (lookup p.node_name table))

-- sets.Set.Insert
abbrev pub insert_name : Text → List Text → List Text
insert_name n ns = if any (text_eq n) ns then ns else n ∷ ns

-- The loops over the exit codes of a failed pod's containers.
abbrev pub nonzero_exit : Option ℤ → Bool
nonzero_exit none = false
nonzero_exit (some c) = not (eqb_ℤ c (pos 0))

abbrev pub exits_in : List ℤ → Option ℤ → Bool
exits_in codes none = false
exits_in codes (some c) = any (λ ec. eqb_ℤ ec c) codes

unfoldable pub is_terminal_failure : List ℤ → List ℤ → Pod → Bool
is_terminal_failure terminal retryable p =
    not (is_nil terminal) && any (λ s. nonzero_exit s && exits_in terminal s) p.container_statuses
    || not (is_nil retryable)
      && any (λ s. nonzero_exit s && not (exits_in retryable s)) p.container_statuses

-- The case of the switch for a running pod.
add_running : Bool → NodeTable → Pod → PodStatusSummary → PodStatusSummary
unfolding on_bad_node
add_running check table p s = if is_set p.deletion_timestamp then s else record s {
  running = one_more s.running;
  no_execute_nodes =
      if check && on_bad_node table p
      then insert_name p.node_name s.no_execute_nodes
      else s.no_execute_nodes;
}

module _ (check : Bool) (terminal retryable : List ℤ) where
  -- One round of the loop; `table` is `noExecuteNodes` as this pod finds it.
  add_pod : NodeTable → Pod → PodStatusSummary → PodStatusSummary
  unfolding add_running is_terminal_failure
  add_pod table p s = elim p.phase [
    | pod_pending ↦ record s { pending = one_more s.pending }
    | pod_running ↦ add_running check table p s
    | pod_succeeded ↦ record s { succeeded = one_more s.succeeded }
    | pod_failed ↦ record s {
      failed = one_more s.failed;
      terminal_failure = s.terminal_failure || is_terminal_failure terminal retryable p;
    }
    | _ ↦ s
  ]

  -- The loop, from the i-th pod on.
  unfoldable pub add_pods : (ℕ → NodeTable) → ℕ → List Pod → PodStatusSummary → PodStatusSummary
  unfolding add_pod
  add_pods table i [] s = s
  add_pods table i (p ∷ ps) s = add_pods table (suc i) ps (add_pod (table i) p s)

abbrev monitors_nodes : Option AutopilotConfig → Bool
monitors_nodes none = false
monitors_nodes (some a) = a.monitor_nodes

abbrev pub no_pods : ℤ → PodStatusSummary
no_pods n = record {
  expected = n;
  pending = pos 0;
  running = pos 0;
  succeeded = pos 0;
  failed = pos 0;
  terminal_failure = false;
  no_execute_nodes = [];
}

module _ {W : Type 0} (k : Kit W) where
  unfoldable pub summarize : AppWrapper → W → ℤ → List Pod → PodStatusSummary
  unfolding add_pods
  summarize aw w n pods =
      add_pods (monitors_nodes k.config.autopilot) (terminal_exit_codes aw)
        (retryable_exit_codes aw) (k.no_execute_nodes w) 0 pods (no_pods n)

  -- The AppWrapper may be initialised on the way, by ExpectedPodCount.
  unfoldable pub get_pod_status : M W (Reply PodStatusSummary)
  unfolding summarize
  get_pod_status s =
      let (r, w) =
        k.list_pods s.aw.metadata.namespace app_wrapper_label s.aw.metadata.name s.world in
      elim r [
        | err e ↦ some (err e, record s { world = w })
        | ok pods ↦ elim (expected_pod_count k.lib s.aw) [
          | err e ↦ some (err e, record s { world = w })
          | ok (aw, n) ↦ some (ok (summarize aw w n pods), record { aw = aw; world = w })
        ]
      ]
