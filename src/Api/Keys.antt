-- ===== src/Api/Keys.antt =====
-- The annotation and label keys of api/v1beta2/appwrapper_types.go.
use appwrapper.Base.Text.{Text, codes}

abbrev pub admission_grace_period_duration_annotation : Text
admission_grace_period_duration_annotation =
    codes "workload.codeflare.dev.appwrapper/admissionGracePeriodDuration"

abbrev pub warmup_grace_period_duration_annotation : Text
warmup_grace_period_duration_annotation =
    codes "workload.codeflare.dev.appwrapper/warmupGracePeriodDuration"

abbrev pub failure_grace_period_duration_annotation : Text
failure_grace_period_duration_annotation =
    codes "workload.codeflare.dev.appwrapper/failureGracePeriodDuration"

abbrev pub retry_pause_period_duration_annotation : Text
retry_pause_period_duration_annotation =
    codes "workload.codeflare.dev.appwrapper/retryPausePeriodDuration"

abbrev pub retry_limit_annotation : Text
retry_limit_annotation = codes "workload.codeflare.dev.appwrapper/retryLimit"

abbrev pub forceful_deletion_grace_period_annotation : Text
forceful_deletion_grace_period_annotation =
    codes "workload.codeflare.dev.appwrapper/forcefulDeletionGracePeriodDuration"

abbrev pub deletion_on_failure_grace_period_annotation : Text
deletion_on_failure_grace_period_annotation =
    codes "workload.codeflare.dev.appwrapper/deletionOnFailureGracePeriodDuration"

abbrev pub success_ttl_annotation : Text
success_ttl_annotation = codes "workload.codeflare.dev.appwrapper/successTTLDuration"

abbrev pub terminal_exit_codes_annotation : Text
terminal_exit_codes_annotation = codes "workload.codeflare.dev.appwrapper/terminalExitCodes"

abbrev pub retryable_exit_codes_annotation : Text
retryable_exit_codes_annotation = codes "workload.codeflare.dev.appwrapper/retryableExitCodes"

abbrev pub app_wrapper_controller_name : Text
app_wrapper_controller_name = codes "workload.codeflare.dev/appwrapper-controller"

abbrev pub app_wrapper_label : Text
app_wrapper_label = codes "workload.codeflare.dev/appwrapper"

abbrev pub app_wrapper_finalizer : Text
app_wrapper_finalizer = codes "workload.codeflare.dev/finalizer"
