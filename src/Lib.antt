-- ===== src/Lib.antt =====
-- The AppWrapper operator: a Kubernetes controller that wraps a set of objects into one resource,
-- deploys and removes them together, watches their health, and retries or gives up on failure. An
-- AppWrapper is admitted by the webhook, is a job of Kueue that starts and suspends it, and is
-- deployed, watched and taken down by Reconcile; two monitors keep nodes that are not to be used out
-- of the placement of its pods and out of the quota.
--
-- The AppWrapper (api/v1beta2/appwrapper_types.go) is in Api, with the keys of its annotations in
-- Api/Keys. The settings and their validation (pkg/config/config.go) are in Config and
-- Config/Manager. Cluster holds what comes from outside the repository, as the fields of a record
-- `Kit` over any type of worlds: the client of the API server, the condition and finalizer helpers, the clock, the recorder of
-- events, and the decoders and parsers, which are its `Library`. What the code relies on of these is
-- in Cluster/Laws. Exec is the form in which code that changes the AppWrapper in memory and talks to
-- the cluster is written: an action on a state of both that may panic. Exec/Returns is total
-- correctness of actions.
--
-- internal/controller/appwrapper/appwrapper_controller.go is in four modules. Durations has the
-- grace periods, limits and exit codes, Pods has getPodStatus, Health has getComponentStatus, and
-- Reconcile has Reconcile: a function for each phase and one for the deletion, which
-- `reconcile_phase` and `reconcile_object` put together as the code's switch does. The phase
-- Running is in Reconcile/Running with transitionToPhase and resetOrFail, and the phases that take
-- the resources down are in Reconcile/Teardown. Reconcile calls deleteComponents (Components) and
-- createComponents (Components/Create), both of
-- internal/controller/appwrapper/resource_management.go. The object that createComponent creates is
-- a parameter of Components/Create and of Reconcile, which Components/Render fills for
-- `reconcile_app_wrapper`. pkg/utils/utils.go is in Paths, the paths into a decoded object, and
-- PodSets, the pod sets; their inference is in PodSets/Infer, GetPodTemplateSpec in
-- PodSets/Templates, GetPodSets in PodSets/Kueue, and SanitizeLabel in Webhook.
--
-- internal/controller/workload/workload_controller.go is in Workload: what Kueue calls on its job.
-- internal/webhook/appwrapper_webhook.go is in Webhook, with ValidateCreate in Webhook/Create and
-- ValidateUpdate in Webhook/Update; what it takes from other packages is the record `Server`.
-- internal/controller/appwrapper/node_health_monitor.go is in NodeMonitor, and slackcq_monitor.go
-- beside it in SlackMonitor, which reads the tables that NodeMonitor writes.
--
-- The invariant between two runs of Reconcile and the edges of the state machine are in
-- Reconcile/Invariant. The modules RunningPhase, RunningStep, Reset, Down, Start, Resume, Finished
-- and Deletion beside it are about one or two phases each, and Reconcile/Every about all of them.
-- Workload/Reachable puts runs of Reconcile and calls of Kueue into one relation, on what the server
-- holds after each.
--
-- Conventions. Strings are lists of bytes. An int32 is an integer that the code's own arithmetic
-- wraps around. A time and a duration are numbers of nanoseconds, and their arithmetic does not
-- overflow. A quantity is a number of a fixed unit. A message is the list of the pieces of its
-- format. Log lines are left out. The object that a patch is computed from (copyForStatusPatch) is
-- the AppWrapper before the changes. Where the code ranges over a Go map, the model takes the
-- order of a list. The map that GetRawTemplate returns is part of the object it is read from, so
-- that the template that createComponent changes is put back at its path. The loop of
-- getValueAtPath runs on fuel, the length of the path, since each of its steps takes at least one
-- byte.
--
-- Not modelled: the start-up code, which registers the controllers and the webhook; and generated
-- code. Workload/Reachable ends where a deletion is requested. That the components of an admitted AppWrapper are rendered without a panic is a
-- hypothesis of the theorems about the phase Resuming.
pub mod Base
pub mod Api
pub mod Config
pub mod Cluster
pub mod Exec
pub mod Durations
pub mod Paths
pub mod PodSets
pub mod Pods
pub mod Health
pub mod Components
pub mod Reconcile
pub mod Workload
pub mod Webhook
pub mod NodeMonitor
pub mod SlackMonitor
mod Tests
