-- ===== src/Config.antt =====
-- pkg/config/config.go: the settings of the operator that the controllers read, their defaults and
-- their validation. A duration is a number of nanoseconds in ℤ. The settings of fault tolerance
-- and of Kueue's job reconciler stand in the record itself, since the code follows their pointers
-- with no test for nil. The settings that only the start-up code reads are in Config/Manager.
pub mod Laws
pub mod Manager
use appwrapper.Base.{
  ℤ, pos, ℕ, ◌*◌, leb_ℤ, ltb_ℤ, Bool, true, false, List, [], ◌∷◌, Option, none, some, String,
  if◌then◌else◌,
}
use appwrapper.Base.Text.{Text, StringMap, codes}

pub data TaintEffect : Type 0 where
  no_schedule no_execute other_effect : TaintEffect

pub record Taint : Type 0 where
  pub key : Text
  pub value : Text
  pub effect : TaintEffect

pub record AutopilotConfig : Type 0 where
  pub inject_anti_affinities : Bool
  pub monitor_nodes : Bool
  pub resource_taints : List (Text × List Taint)

pub record FaultToleranceConfig : Type 0 where
  pub admission_grace_period : ℤ
  pub warmup_grace_period : ℤ
  pub failure_grace_period : ℤ
  pub retry_pause_period : ℤ
  pub retry_limit : ℤ
  pub forceful_deletion_grace_period : ℤ
  pub grace_period_maximum : ℤ
  pub success_ttl : ℤ

-- The operator of a metav1.LabelSelectorRequirement.
pub data SelectorOperator : Type 0 where
  op_in op_not_in op_exists op_does_not_exist : SelectorOperator

pub record LabelRequirement : Type 0 where
  pub key : Text
  pub operator : SelectorOperator
  pub values : List Text

pub record LabelSelector : Type 0 where
  pub match_labels : StringMap
  pub match_expressions : List LabelRequirement

-- Of Kueue's WaitForPodsReady, the field `Enable`.
pub record KueueJobReconcillerConfig : Type 0 where
  pub manage_jobs_without_queue_name : Bool
  pub manage_jobs_namespace_selector : Option LabelSelector
  pub wait_for_pods_ready : Option Bool
  pub label_keys_to_copy : List Text

pub record AppWrapperConfig : Type 0 where
  pub enable_kueue_integrations : Bool
  pub kueue_job_reconciller : KueueJobReconcillerConfig
  pub autopilot : Option AutopilotConfig
  pub user_rbac_admission_check : Bool
  pub fault_tolerance : FaultToleranceConfig
  pub scheduler_name : Text
  pub default_queue_name : Text
  pub slack_queue_name : Text

abbrev pub second : ℕ
second = 1000000000

abbrev pub minute : ℕ
minute = 60 * second

abbrev pub hour : ℕ
hour = 60 * minute

abbrev gpu_taint : Text → TaintEffect → Taint
gpu_taint v e = record { key = codes "autopilot.ibm.com/gpuhealth"; value = v; effect = e }

-- The namespaces that Kueue leaves alone.
abbrev system_namespaces : LabelRequirement
system_namespaces = record {
  key = codes "kubernetes.io/metadata.name";
  operator = op_not_in;
  values = codes "kube-system" ∷ codes "kueue-system" ∷ codes "appwrapper-system" ∷ [];
}

-- NewAppWrapperConfig
abbrev pub new_app_wrapper_config : AppWrapperConfig
new_app_wrapper_config = record {
  enable_kueue_integrations = true;
  kueue_job_reconciller = record {
    manage_jobs_without_queue_name = true;
    manage_jobs_namespace_selector =
        some (record { match_labels = []; match_expressions = system_namespaces ∷ [] });
    wait_for_pods_ready = some true;
    label_keys_to_copy = [];
  };
  autopilot = some (record {
    inject_anti_affinities = true;
    monitor_nodes = true;
    resource_taints =
        (
          codes "nvidia.com/gpu",
          gpu_taint (codes "ERR") no_schedule
              ∷ gpu_taint (codes "TESTING") no_schedule
              ∷ gpu_taint (codes "EVICT") no_execute
              ∷ [],
        )
        ∷ [];
  });
  user_rbac_admission_check = true;
  fault_tolerance = record {
    admission_grace_period = pos (1 * minute);
    warmup_grace_period = pos (5 * minute);
    failure_grace_period = pos (1 * minute);
    retry_pause_period = pos (90 * second);
    retry_limit = pos 3;
    forceful_deletion_grace_period = pos (10 * minute);
    grace_period_maximum = pos (24 * hour);
    success_ttl = pos (7 * 24 * hour);
  };
  scheduler_name = [];
  default_queue_name = [];
  slack_queue_name = [];
}

-- The error of a rejected configuration, one for each test.
pub data ConfigError : Type 0 where
  forceful_deletion_exceeds_ceiling retry_pause_exceeds_ceiling failure_exceeds_ceiling :
      ConfigError
  admission_exceeds_ceiling warmup_exceeds_ceiling admission_exceeds_warmup : ConfigError
  success_ttl_not_positive : ConfigError

unfoldable pub validate_app_wrapper_config : AppWrapperConfig → Option ConfigError
validate_app_wrapper_config config =
    if ltb_ℤ f.grace_period_maximum f.forceful_deletion_grace_period
    then some forceful_deletion_exceeds_ceiling
    else if ltb_ℤ f.grace_period_maximum f.retry_pause_period
    then some retry_pause_exceeds_ceiling
    else if ltb_ℤ f.grace_period_maximum f.failure_grace_period
    then some failure_exceeds_ceiling
    else if ltb_ℤ f.grace_period_maximum f.admission_grace_period
    then some admission_exceeds_ceiling
    else if ltb_ℤ f.grace_period_maximum f.warmup_grace_period
    then some warmup_exceeds_ceiling
    else if ltb_ℤ f.warmup_grace_period f.admission_grace_period
    then some admission_exceeds_warmup
    else if leb_ℤ f.success_ttl (pos 0)
    then some success_ttl_not_positive
    else none
  where
    f : FaultToleranceConfig
    f = config.fault_tolerance
