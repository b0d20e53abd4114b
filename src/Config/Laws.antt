-- ===== src/Config/Laws.antt =====
-- ValidateAppWrapperConfig of pkg/config/config.go, against a description of its configurations.
use appwrapper.Base.{pos, ◌≤ℤ◌, ◌<ℤ◌, ◌≡◌, ◌↔◌, none, arith}
use appwrapper.Config.{AppWrapperConfig, validate_app_wrapper_config}

-- The grace periods are ordered and capped, and the time to live is positive.
pub record IsConsistent (c : AppWrapperConfig) : Type 0 where
  pub forceful_deletion_le :
      c.fault_tolerance.forceful_deletion_grace_period ≤ℤ c.fault_tolerance.grace_period_maximum
  pub retry_pause_le :
      c.fault_tolerance.retry_pause_period ≤ℤ c.fault_tolerance.grace_period_maximum
  pub failure_le : c.fault_tolerance.failure_grace_period ≤ℤ c.fault_tolerance.grace_period_maximum
  pub admission_le_warmup :
      c.fault_tolerance.admission_grace_period ≤ℤ c.fault_tolerance.warmup_grace_period
  pub warmup_le : c.fault_tolerance.warmup_grace_period ≤ℤ c.fault_tolerance.grace_period_maximum
  pub success_ttl_pos : pos 0 <ℤ c.fault_tolerance.success_ttl

accepted-IsConsistent :
    (c : AppWrapperConfig) → validate_app_wrapper_config c ≡ none → IsConsistent c
unfolding validate_app_wrapper_config
accepted-IsConsistent c h = ground arith

IsConsistent-accepted :
    (c : AppWrapperConfig) → IsConsistent c → validate_app_wrapper_config c ≡ none
unfolding validate_app_wrapper_config
IsConsistent-accepted c h = ground arith

-- ValidateAppWrapperConfig accepts a configuration exactly when the forceful deletion, retry
-- pause, failure and warmup periods are at most the ceiling, the admission period is at most the
-- warmup period, and the time to live after success is positive.
pub validate_iff : (c : AppWrapperConfig) → (validate_app_wrapper_config c ≡ none) ↔ IsConsistent c
validate_iff c = (accepted-IsConsistent c, IsConsistent-accepted c)
