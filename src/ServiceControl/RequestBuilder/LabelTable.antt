-- ===== src/ServiceControl/RequestBuilder/LabelTable.antt =====
-- src/api_proxy/service_control/request_builder.cc: the table of the supported labels.
use esp_v.Base.{
  ℕ, Str, codes, str_eq, ◌==◌, Bool, true, false, ◌&&◌, ◌||◌, Option, none, some, List, [], ◌∷◌,
  ◌++◌,
}
use esp_v.ServiceControl.RequestBuilder.Labels.{
  Kind, user_label, system_label, LabelSetter, api_method, api_version, backend_protocol,
  consumer_project, credential_id, error_type, location, platform, protocol, referer, response_code,
  response_code_class, service_agent, status_code, user_agent, string_type, SupportedLabel,
  service_control_caller_ip, service_control_referer, service_control_service_agent,
  service_control_user_agent, service_control_platform, service_control_backend_protocol,
  service_control_consumer_project,
}

-- An entry of the table.
abbrev pub labelled : Str → Kind → Option LabelSetter → Bool → SupportedLabel
labelled name kind set by_consumer_only = record {
  name = name;
  value_type = string_type;
  kind = kind;
  set = set;
  by_consumer_only = by_consumer_only;
}

abbrev pub supported_labels_user : List SupportedLabel
supported_labels_user =
    labelled (codes "/credential_id") user_label (some credential_id) false
    ∷ labelled (codes "/end_user") user_label none false
    ∷ labelled (codes "/end_user_country") user_label none false
    ∷ labelled (codes "/error_type") user_label (some error_type) false
    ∷ labelled (codes "/protocol") user_label (some protocol) false
    ∷ labelled (codes "/referer") user_label (some referer) false
    ∷ labelled (codes "/response_code") user_label (some response_code) false
    ∷ labelled (codes "/response_code_class") user_label (some response_code_class) false
    ∷ labelled (codes "/status_code") user_label (some status_code) false
    ∷ labelled (codes "appengine.googleapis.com/clone_id") user_label none false
    ∷ labelled (codes "appengine.googleapis.com/module_id") user_label none false
    ∷ labelled (codes "appengine.googleapis.com/replica_index") user_label none false
    ∷ labelled (codes "appengine.googleapis.com/version_id") user_label none false
    ∷ []

abbrev pub supported_labels_system : List SupportedLabel
supported_labels_system =
    labelled (codes "cloud.googleapis.com/location") system_label (some location) false
    ∷ labelled (codes "cloud.googleapis.com/project") system_label none false
    ∷ labelled (codes "cloud.googleapis.com/region") system_label none false
    ∷ labelled (codes "cloud.googleapis.com/resource_id") user_label none false
    ∷ labelled (codes "cloud.googleapis.com/resource_type") user_label none false
    ∷ labelled (codes "cloud.googleapis.com/service") system_label none false
    ∷ labelled (codes "cloud.googleapis.com/zone") system_label none false
    ∷ labelled (codes "cloud.googleapis.com/uid") system_label none false
    ∷ labelled (codes "serviceruntime.googleapis.com/api_method") user_label (some api_method) false
    ∷ labelled (codes "serviceruntime.googleapis.com/api_version") user_label (some api_version)
        false
    ∷ labelled service_control_caller_ip system_label none false
    ∷ labelled service_control_referer system_label none false
    ∷ labelled service_control_service_agent system_label (some service_agent) false
    ∷ labelled service_control_user_agent system_label (some user_agent) false
    ∷ labelled service_control_platform system_label (some platform) false
    ∷ labelled service_control_backend_protocol system_label (some backend_protocol) false
    ∷ labelled service_control_consumer_project system_label (some consumer_project) true
    ∷ []

-- `supported_labels`
abbrev pub supported_labels : List SupportedLabel
supported_labels = supported_labels_user ++ supported_labels_system

-- What the code reads of a `LabelDescriptor`.
pub record LabelDescriptor : Type 0 where
  pub key : Str
  pub value_type : ℕ

unfoldable pub is_label_in : LabelDescriptor → List SupportedLabel → Bool
is_label_in label [] = false
is_label_in label (l ∷ ls) =
    (str_eq label.key l.name && label.value_type == l.value_type) || is_label_in label ls

-- `IsLabelSupported`
unfoldable pub is_label_supported : LabelDescriptor → Bool
is_label_supported label = is_label_in label supported_labels
