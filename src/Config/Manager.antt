-- ===== src/Config/Manager.antt =====
-- The settings of pkg/config/config.go for certificates and for the manager, and their defaults.
use appwrapper.Base.{Bool, false, Option}
use appwrapper.Base.Text.{Text, codes}
use appwrapper.Config.{AppWrapperConfig}

pub record CertManagementConfig : Type 0 where
  pub namespace : Text
  pub certificate_dir : Text
  pub certificate_name : Text
  pub certificate_org : Text
  pub mutating_webhook_config_name : Text
  pub validating_webhook_config_name : Text
  pub webhook_service_name : Text
  pub webhook_secret_name : Text

pub record MetricsConfiguration : Type 0 where
  pub bind_address : Text

pub record HealthConfiguration : Type 0 where
  pub bind_address : Text

pub record ControllerManagerConfig : Type 0 where
  pub metrics : MetricsConfiguration
  pub health : HealthConfiguration
  pub leader_election : Bool
  pub enable_http2 : Bool

record OperatorConfig : Type 0 where
  pub app_wrapper : Option AppWrapperConfig
  pub cert_management : Option CertManagementConfig
  pub controller_manager : Option ControllerManagerConfig
  pub webhooks_enabled : Option Bool

-- NewCertManagementConfig
abbrev new_cert_management_config : Text → CertManagementConfig
new_cert_management_config ns = record {
  namespace = ns;
  certificate_dir = codes "/tmp/k8s-webhook-server/serving-certs";
  certificate_name = codes "appwrapper-ca";
  certificate_org = codes "appwrapper";
  mutating_webhook_config_name = codes "appwrapper-mutating-webhook-configuration";
  validating_webhook_config_name = codes "appwrapper-validating-webhook-configuration";
  webhook_service_name = codes "appwrapper-webhook-service";
  webhook_secret_name = codes "appwrapper-webhook-server-cert";
}

-- NewControllerManagerConfig
abbrev new_controller_manager_config : ControllerManagerConfig
new_controller_manager_config = record {
  metrics = record { bind_address = codes ":8443" };
  health = record { bind_address = codes ":8081" };
  leader_election = false;
  enable_http2 = false;
}
