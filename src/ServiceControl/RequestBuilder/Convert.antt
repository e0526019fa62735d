-- ===== src/ServiceControl/RequestBuilder/Convert.antt =====
-- src/api_proxy/service_control/request_builder.cc: the responses of the service control server,
-- by the fields the code reads.
use esp_v.Base.{ℕ, Str, codes, if◌then◌else◌, decimal_ℤ, ℤ, pos, leb_ℤ, false, List, [], ◌∷◌, ◌++◌}
use esp_v.ServiceControl.Info.{Status, ok_status, CheckResponseInfo}

-- `CheckError::Code`; `other_error` is a number the code does not know.
pub data CheckErrorCode : Type 0 where
  not_found api_key_not_found api_key_expired api_key_invalid : CheckErrorCode
  service_not_activated permission_denied ip_address_blocked referer_blocked : CheckErrorCode
  client_app_blocked project_deleted project_invalid billing_disabled : CheckErrorCode
  security_policy_violated invalid_credential location_policy_violated : CheckErrorCode
  consumer_invalid : CheckErrorCode
  namespace_lookup_unavailable service_status_unavailable : CheckErrorCode
  billing_status_unavailable quota_check_unavailable : CheckErrorCode
  cloud_resource_manager_backend_unavailable : CheckErrorCode
  security_policy_backend_unavailable location_policy_backend_unavailable : CheckErrorCode
  other_error : ℤ → CheckErrorCode

-- `CheckResponse`: its consumer's project number and the codes of its errors.
pub record CheckResponse : Type 0 where
  pub project_number : ℤ
  pub check_errors : List CheckErrorCode

-- `QuotaError::Code`
pub data QuotaErrorCode : Type 0 where
  unspecified resource_exhausted billing_not_active : QuotaErrorCode
  project_deleted_quota api_key_invalid_quota api_key_expired_quota : QuotaErrorCode
  other_quota_error : ℕ → QuotaErrorCode

-- `QuotaError` and `AllocateQuotaResponse`
pub record QuotaError : Type 0 where
  pub code : QuotaErrorCode
  pub description : Str

pub record AllocateQuotaResponse : Type 0 where
  pub allocate_errors : List QuotaError

-- Codes of statuses.
abbrev pub invalid_argument_code : ℕ
invalid_argument_code = 3

abbrev pub permission_denied_code : ℕ
permission_denied_code = 7

abbrev pub resource_exhausted_code : ℕ
resource_exhausted_code = 8

abbrev pub internal_code : ℕ
internal_code = 13

abbrev pub status_of : ℕ → Str → Status
status_of code message = record { code = code; message = message }

-- The `switch` of `ConvertAllocateQuotaResponse`.
unfoldable pub quota_error_status : QuotaErrorCode → Str → Status
quota_error_status unspecified description = ok_status
quota_error_status resource_exhausted description = status_of resource_exhausted_code description
quota_error_status billing_not_active description = status_of permission_denied_code description
quota_error_status project_deleted_quota description = status_of invalid_argument_code description
quota_error_status api_key_invalid_quota description = status_of invalid_argument_code description
quota_error_status api_key_expired_quota description = status_of invalid_argument_code description
quota_error_status (other_quota_error n) description = status_of internal_code description

unfoldable pub first_quota_error : List QuotaError → Status
first_quota_error [] = ok_status
first_quota_error (error ∷ errors) = quota_error_status error.code error.description

-- `ConvertAllocateQuotaResponse`
unfoldable pub convert_allocate_quota_response : AllocateQuotaResponse → Status
convert_allocate_quota_response response = first_quota_error response.allocate_errors

-- `check_response_info` with the consumer's project.
unfoldable pub with_project : ℤ → CheckResponseInfo → CheckResponseInfo
with_project number info =
    if leb_ℤ (pos 1) number then record info { consumer_project_id = decimal_ℤ number } else info

-- The status that the `switch` of `ConvertCheckResponse` returns.
unfoldable pub check_error_status : CheckErrorCode → Str → Status
check_error_status not_found name =
    status_of invalid_argument_code (codes "Client project not found. Please pass a valid project.")
check_error_status api_key_not_found name =
    status_of invalid_argument_code (codes "API key not found. Please pass a valid API key.")
check_error_status api_key_expired name =
    status_of invalid_argument_code (codes "API key expired. Please renew the API key.")
check_error_status api_key_invalid name =
    status_of invalid_argument_code (codes "API key not valid. Please pass a valid API key.")
check_error_status service_not_activated name =
    status_of permission_denied_code
      (codes "API " ++ name ++ codes " is not enabled for the project.")
check_error_status permission_denied name =
    status_of permission_denied_code (codes "Permission denied.")
check_error_status ip_address_blocked name =
    status_of permission_denied_code (codes "IP address blocked.")
check_error_status referer_blocked name =
    status_of permission_denied_code (codes "Referer blocked.")
check_error_status client_app_blocked name =
    status_of permission_denied_code (codes "Client application blocked.")
check_error_status project_deleted name =
    status_of permission_denied_code (codes "Project has been deleted.")
check_error_status project_invalid name =
    status_of invalid_argument_code (codes "Client project not valid. Please pass a valid project.")
check_error_status billing_disabled name =
    status_of permission_denied_code
      (codes "API " ++ name ++ codes " has billing disabled. Please enable it.")
check_error_status security_policy_violated name =
    status_of permission_denied_code (codes "Request is not allowed as per security policies.")
check_error_status invalid_credential name =
    status_of permission_denied_code (codes "The credential in the request can not be verified")
check_error_status location_policy_violated name =
    status_of permission_denied_code (codes "Request is not allowed as per location policies.")
check_error_status consumer_invalid name = status_of permission_denied_code (
    codes "The consumer from the API key does not represent"
    ++ codes " a valid consumer folder or organization")
check_error_status namespace_lookup_unavailable name = ok_status
check_error_status service_status_unavailable name = ok_status
check_error_status billing_status_unavailable name = ok_status
check_error_status quota_check_unavailable name = ok_status
check_error_status cloud_resource_manager_backend_unavailable name = ok_status
check_error_status security_policy_backend_unavailable name = ok_status
check_error_status location_policy_backend_unavailable name = ok_status
check_error_status (other_error n) name =
    status_of internal_code (codes "Request blocked due to unsupported error code: " ++ decimal_ℤ n)

-- What that `switch` notes in `check_response_info`.
unfoldable pub note_check_error : CheckErrorCode → CheckResponseInfo → CheckResponseInfo
note_check_error api_key_not_found info = record info { is_api_key_valid = false }
note_check_error api_key_expired info = record info { is_api_key_valid = false }
note_check_error api_key_invalid info = record info { is_api_key_valid = false }
note_check_error service_not_activated info = record info { service_is_activated = false }
note_check_error not_found info = info
note_check_error permission_denied info = info
note_check_error ip_address_blocked info = info
note_check_error referer_blocked info = info
note_check_error client_app_blocked info = info
note_check_error project_deleted info = info
note_check_error project_invalid info = info
note_check_error billing_disabled info = info
note_check_error security_policy_violated info = info
note_check_error invalid_credential info = info
note_check_error location_policy_violated info = info
note_check_error consumer_invalid info = info
note_check_error namespace_lookup_unavailable info = info
note_check_error service_status_unavailable info = info
note_check_error billing_status_unavailable info = info
note_check_error quota_check_unavailable info = info
note_check_error cloud_resource_manager_backend_unavailable info = info
note_check_error security_policy_backend_unavailable info = info
note_check_error location_policy_backend_unavailable info = info
note_check_error (other_error n) info = info

unfoldable pub first_check_error :
    List CheckErrorCode → Str → CheckResponseInfo → Status × CheckResponseInfo
first_check_error [] name info = (ok_status, info)
first_check_error (error ∷ errors) name info =
    (check_error_status error name, note_check_error error info)

-- `ConvertCheckResponse`
unfoldable pub convert_check_response :
    CheckResponse → Str → CheckResponseInfo → Status × CheckResponseInfo
convert_check_response response name info =
    first_check_error response.check_errors name (with_project response.project_number info)
