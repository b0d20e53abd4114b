-- ===== src/Durations/Bounds.antt =====
-- The bounds of the periods (internal/controller/appwrapper/appwrapper_controller.go).
use appwrapper.Base.{ℤ, pos, ◌≤ℤ◌, ◌<ℤ◌, ◌≡◌, none, arith}
use appwrapper.Api.{AppWrapper}
use appwrapper.Config.{validate_app_wrapper_config}
use appwrapper.Config.Laws.{validate_iff}
use appwrapper.Cluster.{Kit}
use appwrapper.Durations.{
  limit_duration, admission_grace_duration, warmup_grace_duration, failure_grace_duration,
  retry_pause_duration, forceful_deletion_grace_duration, deletion_on_failure_grace_duration,
  time_to_live_after_succeeded_duration,
}

-- Between zero and the configured maximum.
abbrev pub InLimits : {W : Type 0} → Kit W → ℤ → Type 0
InLimits k d = (pos 0 ≤ℤ d) × (d ≤ℤ k.config.fault_tolerance.grace_period_maximum)

module _ {W : Type 0} (k : Kit W)
    (maximum : pos 0 ≤ℤ k.config.fault_tolerance.grace_period_maximum) where
  limit_duration-InLimits : (d : ℤ) → InLimits k (limit_duration k d)
  unfolding limit_duration
  limit_duration-InLimits d = ground arith

  -- Where the configured maximum is not negative, each of the six grace periods lies between zero
  -- and the maximum, for any annotations, malformed, negative or huge ones included.
  pub grace_periods_bounded :
      (aw : AppWrapper)
      → InLimits k (admission_grace_duration k aw)
        × InLimits k (warmup_grace_duration k aw)
        × InLimits k (failure_grace_duration k aw)
        × InLimits k (retry_pause_duration k aw)
        × InLimits k (forceful_deletion_grace_duration k aw)
        × InLimits k (deletion_on_failure_grace_duration k aw)
  unfolding admission_grace_duration warmup_grace_duration failure_grace_duration
      retry_pause_duration forceful_deletion_grace_duration deletion_on_failure_grace_duration
  grace_periods_bounded aw = grind (arith, limit_duration-InLimits)

-- With a configuration that ValidateAppWrapperConfig accepts, the time to live after success is
-- positive and at most the configured one, for any annotation.
pub success_ttl_bounded :
    {W : Type 0} (k : Kit W) (aw : AppWrapper)
    → validate_app_wrapper_config k.config ≡ none
    → (pos 0 <ℤ time_to_live_after_succeeded_duration k aw)
      × (time_to_live_after_succeeded_duration k aw ≤ℤ k.config.fault_tolerance.success_ttl)
unfolding time_to_live_after_succeeded_duration
success_ttl_bounded k aw h = ground (arith, (validate_iff k.config).0 h)
