-- ===== src/Durations.antt =====
-- The periods and limits of internal/controller/appwrapper/appwrapper_controller.go: an annotation
-- of the AppWrapper overrides the configuration, within the configured maximum.
pub mod Bounds
use appwrapper.Base.{
  ℤ, pos, Bool, true, false, ◌&&◌, Option, none, some, List, [], ◌∷◌, ltb_ℤ, int32, if◌then◌else◌,
}
use appwrapper.Base.Text.{Text, lookup}
use appwrapper.Base.Strings.{split, atoi}
use appwrapper.Api.{
  AppWrapper, admission_grace_period_duration_annotation, warmup_grace_period_duration_annotation,
  failure_grace_period_duration_annotation, retry_pause_period_duration_annotation,
  retry_limit_annotation, forceful_deletion_grace_period_annotation,
  deletion_on_failure_grace_period_annotation, success_ttl_annotation,
  terminal_exit_codes_annotation, retryable_exit_codes_annotation,
}
use appwrapper.Cluster.{Kit}

-- `aw.Annotations[key]`, parsed; `none` also for a malformed text, which is only logged.
abbrev parsed : {A : Type 0} → (Text → Option A) → Option Text → Option A
parsed parse none = none
parsed parse (some t) = parse t

abbrev pub annotation : {A : Type 0} → AppWrapper → Text → (Text → Option A) → Option A
annotation aw key parse = parsed parse (lookup key aw.metadata.annotations)

abbrev codes_of : List Text → List ℤ
codes_of [] = []
codes_of (t ∷ ts) = elim (atoi t) [ none ↦ codes_of ts | some c ↦ c ∷ codes_of ts ]

abbrev pub exit_codes : Option Text → List ℤ
exit_codes none = []
exit_codes (some ann) = codes_of (split b',' ann)

unfoldable pub terminal_exit_codes : AppWrapper → List ℤ
terminal_exit_codes aw = exit_codes (lookup terminal_exit_codes_annotation aw.metadata.annotations)

unfoldable pub retryable_exit_codes : AppWrapper → List ℤ
retryable_exit_codes aw =
    exit_codes (lookup retryable_exit_codes_annotation aw.metadata.annotations)

module _ {W : Type 0} (k : Kit W) where
  unfoldable pub limit_duration : ℤ → ℤ
  limit_duration desired =
      if ltb_ℤ desired (pos 0)
      then pos 0
      else if ltb_ℤ k.config.fault_tolerance.grace_period_maximum desired
      then k.config.fault_tolerance.grace_period_maximum
      else desired

  abbrev limited : Option ℤ → ℤ → ℤ
  limited none default = limit_duration default
  limited (some d) default = limit_duration d

  unfoldable pub admission_grace_duration : AppWrapper → ℤ
  admission_grace_duration aw =
      limited (annotation aw admission_grace_period_duration_annotation k.parse_duration)
        k.config.fault_tolerance.admission_grace_period

  unfoldable pub warmup_grace_duration : AppWrapper → ℤ
  warmup_grace_duration aw =
      limited (annotation aw warmup_grace_period_duration_annotation k.parse_duration)
        k.config.fault_tolerance.warmup_grace_period

  unfoldable pub failure_grace_duration : AppWrapper → ℤ
  failure_grace_duration aw =
      limited (annotation aw failure_grace_period_duration_annotation k.parse_duration)
        k.config.fault_tolerance.failure_grace_period

  unfoldable pub retry_pause_duration : AppWrapper → ℤ
  retry_pause_duration aw =
      limited (annotation aw retry_pause_period_duration_annotation k.parse_duration)
        k.config.fault_tolerance.retry_pause_period

  unfoldable pub forceful_deletion_grace_duration : AppWrapper → ℤ
  forceful_deletion_grace_duration aw =
      limited (annotation aw forceful_deletion_grace_period_annotation k.parse_duration)
        k.config.fault_tolerance.forceful_deletion_grace_period

  abbrev limited_or_zero : Option ℤ → ℤ
  limited_or_zero none = pos 0
  limited_or_zero (some d) = limit_duration d

  unfoldable pub deletion_on_failure_grace_duration : AppWrapper → ℤ
  deletion_on_failure_grace_duration aw =
      limited_or_zero (annotation aw deletion_on_failure_grace_period_annotation k.parse_duration)

  abbrev within_ttl : Option ℤ → ℤ
  within_ttl none = k.config.fault_tolerance.success_ttl
  within_ttl (some d) =
      if ltb_ℤ (pos 0) d && ltb_ℤ d k.config.fault_tolerance.success_ttl
      then d
      else k.config.fault_tolerance.success_ttl

  unfoldable pub time_to_live_after_succeeded_duration : AppWrapper → ℤ
  time_to_live_after_succeeded_duration aw =
      within_ttl (annotation aw success_ttl_annotation k.parse_duration)

  abbrev narrowed : Option ℤ → ℤ
  narrowed none = k.config.fault_tolerance.retry_limit
  narrowed (some n) = int32 n

  unfoldable pub retry_limit : AppWrapper → ℤ
  retry_limit aw = narrowed (annotation aw retry_limit_annotation atoi)
