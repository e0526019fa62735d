-- ===== src/ServiceControl/RequestBuilder/Labels.antt =====
-- src/api_proxy/service_control/request_builder.cc: the labels, and the functions that set them. A
-- map of labels is an association list. Every one of the functions answers OK.
use esp_v.Base.{
  ℕ, ◌+◌, ◌/◌, ◌%◌, Str, codes, is_empty, leb, if◌then◌else◌, insert, decimal, Bool, true, false,
  ◌&&◌, not, Option, List, [], ◌∷◌, ◌++◌,
}
use esp_v.ServiceControl.Info.{
  Protocol, unknown_protocol, http_protocol, https_protocol, grpc_protocol, protocol-to_string,
  ReportRequestInfo,
}

pub data Kind : Type 0 where
  user_label system_label : Kind

-- The functions that `SupportedLabel::set` points to.
pub data LabelSetter : Type 0 where
  credential_id error_type protocol backend_protocol consumer_project referer : LabelSetter
  response_code response_code_class status_code location api_method api_version : LabelSetter
  platform service_agent user_agent : LabelSetter

-- `LabelDescriptor_ValueType_STRING`
abbrev pub string_type : ℕ
string_type = 0

pub record SupportedLabel : Type 0 where
  pub name : Str
  pub value_type : ℕ
  pub kind : Kind
  pub set : Option LabelSetter
  pub by_consumer_only : Bool

-- `Base64Url::encode` of Envoy, and the version of the binary.
pub record Externals : Type 0 where
  pub base64_url_encode : Str → Str
  pub version : Str

abbrev pub service_control_caller_ip : Str
service_control_caller_ip = codes "servicecontrol.googleapis.com/caller_ip"

abbrev pub service_control_referer : Str
service_control_referer = codes "servicecontrol.googleapis.com/referer"

abbrev pub service_control_service_agent : Str
service_control_service_agent = codes "servicecontrol.googleapis.com/service_agent"

abbrev pub service_control_user_agent : Str
service_control_user_agent = codes "servicecontrol.googleapis.com/user_agent"

abbrev pub service_control_platform : Str
service_control_platform = codes "servicecontrol.googleapis.com/platform"

abbrev pub service_control_android_package_name : Str
service_control_android_package_name = codes "servicecontrol.googleapis.com/android_package_name"

abbrev pub service_control_android_cert_fingerprint : Str
service_control_android_cert_fingerprint =
    codes "servicecontrol.googleapis.com/android_cert_fingerprint"

abbrev pub service_control_ios_bundle_id : Str
service_control_ios_bundle_id = codes "servicecontrol.googleapis.com/ios_bundle_id"

abbrev pub service_control_backend_protocol : Str
service_control_backend_protocol = codes "servicecontrol.googleapis.com/backend_protocol"

abbrev pub service_control_consumer_project : Str
service_control_consumer_project = codes "serviceruntime.googleapis.com/consumer_project"

-- `kUserAgent`
abbrev pub espv2 : Str
espv2 = codes "ESPv2"

-- `get_service_agent`
unfoldable pub get_service_agent : Externals → Str
get_service_agent ext = codes "ESPv2/" ++ ext.version

abbrev pub Labels : Type 0
Labels = List (Str × Str)

-- A label with a value that is not empty.
unfoldable pub put_text : Str → Str → Labels → Labels
put_text name [] labels = labels
put_text name (c ∷ value) labels = insert name (c ∷ value) labels

-- The value of `/credential_id`: empty where it is not set.
unfoldable pub credential : Externals → ReportRequestInfo → Str
credential ext info =
    if not (is_empty info.operation.api_key)
    then codes "apikey:" ++ info.operation.api_key
    else if is_empty info.auth_issuer
    then []
    else codes "jwtauth:issuer="
      ++ ext.base64_url_encode info.auth_issuer
      ++ (if is_empty info.auth_audience
          then []
          else codes "&audience=" ++ ext.base64_url_encode info.auth_audience)

-- `error_types`
unfoldable pub error_types : ℕ → Str
error_types class = (48 + class) ∷ codes "xx"

abbrev pub is_grpc_protocol : Protocol → Bool
is_grpc_protocol grpc_protocol = true
is_grpc_protocol unknown_protocol = false
is_grpc_protocol http_protocol = false
is_grpc_protocol https_protocol = false

module _ (l : SupportedLabel) (info : ReportRequestInfo) where
  unfoldable pub set_credential_id : Externals → Labels → Labels
  set_credential_id ext labels = put_text l.name (credential ext info) labels

  unfoldable pub set_error_type : Labels → Labels
  set_error_type labels =
      if leb 400 info.response_code
      then insert l.name (error_types (info.response_code / 100 % 10)) labels
      else labels

  unfoldable pub set_protocol : Labels → Labels
  set_protocol labels = insert l.name (protocol-to_string info.frontend_protocol) labels

  unfoldable pub set_backend_protocol : Labels → Labels
  set_backend_protocol labels =
      if is_grpc_protocol info.backend_protocol && not (is_grpc_protocol info.frontend_protocol)
      then insert l.name (protocol-to_string info.backend_protocol) labels
      else labels

  unfoldable pub set_consumer_project : Labels → Labels
  set_consumer_project labels = insert l.name info.check_response_info.consumer_project_id labels

  unfoldable pub set_referer : Labels → Labels
  set_referer labels = put_text l.name info.operation.referer labels

  unfoldable pub set_response_code : Labels → Labels
  set_response_code labels =
      if info.is_final_report then insert l.name (decimal info.response_code) labels else labels

  unfoldable pub set_response_code_class : Labels → Labels
  set_response_code_class labels =
      if info.is_final_report
      then insert l.name (error_types (info.response_code / 100 % 10)) labels
      else labels

  unfoldable pub set_status_code : Labels → Labels
  set_status_code labels =
      if info.is_final_report then insert l.name (decimal info.status.code) labels else labels

  unfoldable pub set_location : Labels → Labels
  set_location labels = put_text l.name info.location labels

  unfoldable pub set_api_method : Labels → Labels
  set_api_method labels = put_text l.name info.api_method labels

  unfoldable pub set_api_version : Labels → Labels
  set_api_version labels = put_text l.name info.api_version labels

  unfoldable pub set_platform : Labels → Labels
  set_platform labels = insert l.name info.compute_platform labels

  unfoldable pub set_service_agent : Externals → Labels → Labels
  set_service_agent ext labels = insert l.name (get_service_agent ext) labels

  unfoldable pub set_user_agent : Labels → Labels
  set_user_agent labels = insert l.name espv2 labels

  -- The call `(l->set)(*l, info, labels)`.
  unfoldable pub call_label_setter : LabelSetter → Externals → Labels → Labels
  call_label_setter credential_id ext labels = set_credential_id ext labels
  call_label_setter error_type ext labels = set_error_type labels
  call_label_setter protocol ext labels = set_protocol labels
  call_label_setter backend_protocol ext labels = set_backend_protocol labels
  call_label_setter consumer_project ext labels = set_consumer_project labels
  call_label_setter referer ext labels = set_referer labels
  call_label_setter response_code ext labels = set_response_code labels
  call_label_setter response_code_class ext labels = set_response_code_class labels
  call_label_setter status_code ext labels = set_status_code labels
  call_label_setter location ext labels = set_location labels
  call_label_setter api_method ext labels = set_api_method labels
  call_label_setter api_version ext labels = set_api_version labels
  call_label_setter platform ext labels = set_platform labels
  call_label_setter service_agent ext labels = set_service_agent ext labels
  call_label_setter user_agent ext labels = set_user_agent labels
