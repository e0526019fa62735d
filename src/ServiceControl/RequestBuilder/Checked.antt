-- ===== src/ServiceControl/RequestBuilder/Checked.antt =====
-- What the responses of the service control server come to, in
-- src/api_proxy/service_control/request_builder.cc.
use esp_v.Base.{
  Str, if◌then◌else◌, Bool, true, false, not, List, [], ◌∷◌, ◌≡◌, inl, inr, refl, arith, sym, ◌∙◌,
  Bool-cases, ℤ, pos, leb_ℤ,
}
use esp_v.ServiceControl.Info.{is_ok, CheckResponseInfo, no_response_info}
use esp_v.ServiceControl.RequestBuilder.Convert.{
  CheckErrorCode, not_found, api_key_not_found, api_key_expired, api_key_invalid,
  service_not_activated, permission_denied, ip_address_blocked, referer_blocked, client_app_blocked,
  project_deleted, project_invalid, billing_disabled, security_policy_violated, invalid_credential,
  location_policy_violated, consumer_invalid, namespace_lookup_unavailable,
  service_status_unavailable, billing_status_unavailable, quota_check_unavailable,
  cloud_resource_manager_backend_unavailable, security_policy_backend_unavailable,
  location_policy_backend_unavailable, other_error, CheckResponse, check_error_status,
  note_check_error, with_project, first_check_error, convert_check_response,
}

-- The errors that say that the server could not decide.
unfoldable pub is_unavailable : CheckErrorCode → Bool
is_unavailable not_found = false
is_unavailable api_key_not_found = false
is_unavailable api_key_expired = false
is_unavailable api_key_invalid = false
is_unavailable service_not_activated = false
is_unavailable permission_denied = false
is_unavailable ip_address_blocked = false
is_unavailable referer_blocked = false
is_unavailable client_app_blocked = false
is_unavailable project_deleted = false
is_unavailable project_invalid = false
is_unavailable billing_disabled = false
is_unavailable security_policy_violated = false
is_unavailable invalid_credential = false
is_unavailable location_policy_violated = false
is_unavailable consumer_invalid = false
is_unavailable namespace_lookup_unavailable = true
is_unavailable service_status_unavailable = true
is_unavailable billing_status_unavailable = true
is_unavailable quota_check_unavailable = true
is_unavailable cloud_resource_manager_backend_unavailable = true
is_unavailable security_policy_backend_unavailable = true
is_unavailable location_policy_backend_unavailable = true
is_unavailable (other_error n) = false

-- The errors about the api key.
unfoldable pub is_key_error : CheckErrorCode → Bool
is_key_error not_found = false
is_key_error api_key_not_found = true
is_key_error api_key_expired = true
is_key_error api_key_invalid = true
is_key_error service_not_activated = false
is_key_error permission_denied = false
is_key_error ip_address_blocked = false
is_key_error referer_blocked = false
is_key_error client_app_blocked = false
is_key_error project_deleted = false
is_key_error project_invalid = false
is_key_error billing_disabled = false
is_key_error security_policy_violated = false
is_key_error invalid_credential = false
is_key_error location_policy_violated = false
is_key_error consumer_invalid = false
is_key_error namespace_lookup_unavailable = false
is_key_error service_status_unavailable = false
is_key_error billing_status_unavailable = false
is_key_error quota_check_unavailable = false
is_key_error cloud_resource_manager_backend_unavailable = false
is_key_error security_policy_backend_unavailable = false
is_key_error location_policy_backend_unavailable = false
is_key_error (other_error n) = false

check_error_status-is_ok :
    (error : CheckErrorCode) (name : Str)
    → is_ok (check_error_status error name) ≡ is_unavailable error
unfolding check_error_status is_unavailable is_ok
check_error_status-is_ok not_found name = refl
check_error_status-is_ok api_key_not_found name = refl
check_error_status-is_ok api_key_expired name = refl
check_error_status-is_ok api_key_invalid name = refl
check_error_status-is_ok service_not_activated name = refl
check_error_status-is_ok permission_denied name = refl
check_error_status-is_ok ip_address_blocked name = refl
check_error_status-is_ok referer_blocked name = refl
check_error_status-is_ok client_app_blocked name = refl
check_error_status-is_ok project_deleted name = refl
check_error_status-is_ok project_invalid name = refl
check_error_status-is_ok billing_disabled name = refl
check_error_status-is_ok security_policy_violated name = refl
check_error_status-is_ok invalid_credential name = refl
check_error_status-is_ok location_policy_violated name = refl
check_error_status-is_ok consumer_invalid name = refl
check_error_status-is_ok namespace_lookup_unavailable name = refl
check_error_status-is_ok service_status_unavailable name = refl
check_error_status-is_ok billing_status_unavailable name = refl
check_error_status-is_ok quota_check_unavailable name = refl
check_error_status-is_ok cloud_resource_manager_backend_unavailable name = refl
check_error_status-is_ok security_policy_backend_unavailable name = refl
check_error_status-is_ok location_policy_backend_unavailable name = refl
check_error_status-is_ok (other_error n) name = refl

note_check_error-is_key_error :
    (error : CheckErrorCode) (info : CheckResponseInfo)
    → (note_check_error error info).is_api_key_valid
      ≡ (if is_key_error error then false else info.is_api_key_valid)
unfolding note_check_error is_key_error
note_check_error-is_key_error not_found info = refl
note_check_error-is_key_error api_key_not_found info = refl
note_check_error-is_key_error api_key_expired info = refl
note_check_error-is_key_error api_key_invalid info = refl
note_check_error-is_key_error service_not_activated info = refl
note_check_error-is_key_error permission_denied info = refl
note_check_error-is_key_error ip_address_blocked info = refl
note_check_error-is_key_error referer_blocked info = refl
note_check_error-is_key_error client_app_blocked info = refl
note_check_error-is_key_error project_deleted info = refl
note_check_error-is_key_error project_invalid info = refl
note_check_error-is_key_error billing_disabled info = refl
note_check_error-is_key_error security_policy_violated info = refl
note_check_error-is_key_error invalid_credential info = refl
note_check_error-is_key_error location_policy_violated info = refl
note_check_error-is_key_error consumer_invalid info = refl
note_check_error-is_key_error namespace_lookup_unavailable info = refl
note_check_error-is_key_error service_status_unavailable info = refl
note_check_error-is_key_error billing_status_unavailable info = refl
note_check_error-is_key_error quota_check_unavailable info = refl
note_check_error-is_key_error cloud_resource_manager_backend_unavailable info = refl
note_check_error-is_key_error security_policy_backend_unavailable info = refl
note_check_error-is_key_error location_policy_backend_unavailable info = refl
note_check_error-is_key_error (other_error n) info = refl

refused_key : (error : CheckErrorCode) → is_key_error error ≡ true → is_unavailable error ≡ false
unfolding is_key_error is_unavailable
refused_key not_found e = cc
refused_key api_key_not_found e = refl
refused_key api_key_expired e = refl
refused_key api_key_invalid e = refl
refused_key service_not_activated e = cc
refused_key permission_denied e = cc
refused_key ip_address_blocked e = cc
refused_key referer_blocked e = cc
refused_key client_app_blocked e = cc
refused_key project_deleted e = cc
refused_key project_invalid e = cc
refused_key billing_disabled e = cc
refused_key security_policy_violated e = cc
refused_key invalid_credential e = cc
refused_key location_policy_violated e = cc
refused_key consumer_invalid e = cc
refused_key namespace_lookup_unavailable e = cc
refused_key service_status_unavailable e = cc
refused_key billing_status_unavailable e = cc
refused_key quota_check_unavailable e = cc
refused_key cloud_resource_manager_backend_unavailable e = cc
refused_key security_policy_backend_unavailable e = cc
refused_key location_policy_backend_unavailable e = cc
refused_key (other_error n) e = cc

-- Whether the first of the errors, if any, lets a request pass, and whether it is about the key.
abbrev pub passes : List CheckErrorCode → Bool
passes [] = true
passes (error ∷ errors) = is_unavailable error

abbrev pub blames_key : List CheckErrorCode → Bool
blames_key [] = false
blames_key (error ∷ errors) = is_key_error error

first_check_error_lem :
    (errors : List CheckErrorCode) (name : Str) (info : CheckResponseInfo)
    → info.is_api_key_valid ≡ true
    → (is_ok (first_check_error errors name info).0 ≡ passes errors)
      × ((first_check_error errors name info).1.is_api_key_valid ≡ not (blames_key errors))
unfolding first_check_error is_ok
first_check_error_lem [] name info valid = (refl, valid)
first_check_error_lem (error ∷ errors) name info valid = (
  check_error_status-is_ok error name,
  ground (arith, note_check_error-is_key_error error info, valid),
)

blamed_key-refused :
    (errors : List CheckErrorCode) → not (blames_key errors) ≡ false → passes errors ≡ false
blamed_key-refused [] e = cc
blamed_key-refused (error ∷ errors) e = elim (Bool-cases (is_key_error error)) [
  | inl t ↦ refused_key error t
  | inr f ↦ ground (arith, e, f)
]

with_project-valid :
    (number : ℤ) (info : CheckResponseInfo)
    → (with_project number info).is_api_key_valid ≡ info.is_api_key_valid
unfolding with_project
with_project-valid number info = elim (Bool-cases (leb_ℤ (pos 1) number)) [
  | inl t ↦ rw t refl
  | inr f ↦ rw f refl
]

-- A check response is converted to an ok status exactly if it has no error or its first error says
-- that a backend of the server was unavailable, and to an invalid key exactly if its first error is
-- about the api key; a response about the key is thus never let through.
pub convert_check_response_lem :
    (response : CheckResponse) (name : Str)
    → let converted = convert_check_response response name no_response_info in
      (is_ok converted.0 ≡ passes response.check_errors)
      × (converted.1.is_api_key_valid ≡ not (blames_key response.check_errors))
      × (converted.1.is_api_key_valid ≡ false → is_ok converted.0 ≡ false)
unfolding convert_check_response
convert_check_response_lem response name =
    let info = with_project response.project_number no_response_info in
    let both =
      first_check_error_lem response.check_errors name info
        (with_project-valid response.project_number no_response_info) in
    (
      both.0,
      both.1,
      λ invalid. both.0 ∙ blamed_key-refused response.check_errors (sym both.1 ∙ invalid),
    )
