-- ===== src/ServiceControl/RequestBuilder/Labelled.antt =====
-- The labels of the reports of src/api_proxy/service_control/request_builder.cc.
use esp_v.Base.{
  Str, codes, str_eq, is_empty, insert, if◌then◌else◌, Bool, true, false, not, ◌&&◌, ◌||◌, Option,
  none, some, Bool-cases, List, [], ◌∷◌, All, All-map, every, every-All, ◌≡◌, inl, inr, refl, arith,
  ap, ◌∙◌,
}
use esp_v.ServiceControl.Info.{ReportRequestInfo}
use esp_v.ServiceControl.HandlerUtils.{starts_with}
use esp_v.ServiceControl.RequestBuilder.Labels.{
  Labels, LabelSetter, api_method, api_version, backend_protocol, consumer_project, credential_id,
  error_type, location, platform, protocol, referer, response_code, response_code_class,
  service_agent, status_code, user_agent, SupportedLabel, Externals, put_text, credential,
  call_label_setter, set_credential_id, set_error_type, set_protocol, set_backend_protocol,
  set_consumer_project, set_referer, set_response_code, set_response_code_class, set_status_code,
  set_location, set_api_method, set_api_version, set_platform, set_service_agent, set_user_agent,
}
use esp_v.ServiceControl.RequestBuilder.LabelTable.{supported_labels}
use esp_v.ServiceControl.RequestBuilder.Metrics.{DistributionHelper}
use esp_v.ServiceControl.RequestBuilder.Builder.{
  RequestBuilder, new_request_builder, new_request_builder_with,
}
use esp_v.ServiceControl.RequestBuilder.Fill.{set_label, set_labels}
use esp_v.ServiceControl.RequestBuilder.Names.{
  IsBuilder, all_metrics, given_metrics, filter_pointers-All,
}

-- The labels that name an api key, and those that name the project of a consumer.
unfoldable pub is_key_label : Str × Str → Bool
is_key_label label =
    str_eq label.0 (codes "/credential_id") && starts_with label.1 (codes "apikey:")

unfoldable pub is_project_label : Str × Str → Bool
is_project_label label = str_eq label.0 (codes "serviceruntime.googleapis.com/consumer_project")

abbrev is_credential : Option LabelSetter → Bool
is_credential (some credential_id) = true
is_credential _ = false

-- The entries of the table whose label may name a key, or a project.
unfoldable pub is_credential_by_name : SupportedLabel → Bool
is_credential_by_name l = is_credential l.set || not (str_eq l.name (codes "/credential_id"))

unfoldable pub is_project_by_name : SupportedLabel → Bool
is_project_by_name l =
    l.by_consumer_only
    || not (str_eq l.name (codes "serviceruntime.googleapis.com/consumer_project"))

insert-All :
    (P : Str × Str → Type 0) (name value : Str) (labels : Labels)
    → P (name, value)
    → All P labels
    → All P (insert name value labels)
unfolding insert
insert-All P name value [] p all = (p, tt)
insert-All P name value ((first, held) ∷ labels) p all = elim (Bool-cases (str_eq first name)) [
  | inl t ↦ rw t (p, all.1)
  | inr f ↦ rw f (all.0, insert-All P name value labels p all.1)
]

put_text-All :
    (P : Str × Str → Type 0) (name value : Str) (labels : Labels)
    → P (name, value)
    → All P labels
    → All P (put_text name value labels)
unfolding put_text
put_text-All P name [] labels p all = all
put_text-All P name (c ∷ value) labels p all = insert-All P name (c ∷ value) labels p all

insert_if-All :
    (P : Str × Str → Type 0) (b : Bool) (name value : Str) (labels : Labels)
    → P (name, value)
    → All P labels
    → All P (if b then insert name value labels else labels)
insert_if-All P true name value labels p all = insert-All P name value labels p all
insert_if-All P false name value labels p all = all

-- The value that a setter may give its label: the credential is known, any other is any text.
abbrev Gives : Externals → ReportRequestInfo → LabelSetter → Str → Type 0
Gives ext info setter value = setter ≡ credential_id → value ≡ credential ext info

module _ (P : Str × Str → Type 0) (ext : Externals) (info : ReportRequestInfo) where
  call_label_setter-All :
      (l : SupportedLabel) (setter : LabelSetter) (labels : Labels)
      → ((value : Str) → Gives ext info setter value → P (l.name, value))
      → All P labels
      → All P (call_label_setter l info setter ext labels)
  unfolding call_label_setter set_credential_id set_error_type set_protocol set_backend_protocol
      set_consumer_project set_referer set_response_code set_response_code_class set_status_code
      set_location set_api_method set_api_version set_platform set_service_agent set_user_agent
  call_label_setter-All l credential_id labels ok all =
      put_text-All P l.name _ labels (ok _ (λ e. refl)) all
  call_label_setter-All l error_type labels ok all =
      insert_if-All P _ l.name _ labels (ok _ (λ e. cc)) all
  call_label_setter-All l protocol labels ok all = insert-All P l.name _ labels (ok _ (λ e. cc)) all
  call_label_setter-All l backend_protocol labels ok all =
      insert_if-All P _ l.name _ labels (ok _ (λ e. cc)) all
  call_label_setter-All l consumer_project labels ok all =
      insert-All P l.name _ labels (ok _ (λ e. cc)) all
  call_label_setter-All l referer labels ok all =
      put_text-All P l.name _ labels (ok _ (λ e. cc)) all
  call_label_setter-All l response_code labels ok all =
      insert_if-All P _ l.name _ labels (ok _ (λ e. cc)) all
  call_label_setter-All l response_code_class labels ok all =
      insert_if-All P _ l.name _ labels (ok _ (λ e. cc)) all
  call_label_setter-All l status_code labels ok all =
      insert_if-All P _ l.name _ labels (ok _ (λ e. cc)) all
  call_label_setter-All l location labels ok all =
      put_text-All P l.name _ labels (ok _ (λ e. cc)) all
  call_label_setter-All l api_method labels ok all =
      put_text-All P l.name _ labels (ok _ (λ e. cc)) all
  call_label_setter-All l api_version labels ok all =
      put_text-All P l.name _ labels (ok _ (λ e. cc)) all
  call_label_setter-All l platform labels ok all = insert-All P l.name _ labels (ok _ (λ e. cc)) all
  call_label_setter-All l service_agent labels ok all =
      insert-All P l.name _ labels (ok _ (λ e. cc)) all
  call_label_setter-All l user_agent labels ok all =
      insert-All P l.name _ labels (ok _ (λ e. cc)) all

  set_label-All :
      (chosen : Bool) (l : SupportedLabel) (set : Option LabelSetter) (labels : Labels)
      → (chosen ≡ true
          → (setter : LabelSetter) (value : Str) → set ≡ some setter
          → Gives ext info setter value
          → P (l.name, value))
      → All P labels
      → All P (elim set [
        | none ↦ labels
        | some setter ↦ if chosen then call_label_setter l info setter ext labels else labels
      ])
  set_label-All chosen l none labels ok all = all
  set_label-All true l (some setter) labels ok all =
      call_label_setter-All l setter labels (λ value gives. ok refl setter value refl gives) all
  set_label-All false l (some setter) labels ok all = all

  -- What a loop over the labels keeps, by what the chosen ones may get as their values.
  pub set_labels-All :
      {D : Type 0} (helper : DistributionHelper D) (chosen : SupportedLabel → Bool)
      (ls : List SupportedLabel) (labels : Labels)
      → All
          (λ l.
            chosen l ≡ true
            → (setter : LabelSetter) (value : Str) → l.set ≡ some setter
            → Gives ext info setter value
            → P (l.name, value))
          ls
      → All P labels
      → All P (set_labels helper ext chosen ls info labels)
  unfolding set_labels set_label
  set_labels-All helper chosen [] labels ok all = all
  set_labels-All helper chosen (l ∷ ls) labels ok all =
      set_labels-All helper chosen ls _ ok.1 (set_label-All (chosen l) l l.set labels ok.0 all)

supported_labels-is_credential_by_name : every is_credential_by_name supported_labels ≡ true
unfolding every is_credential_by_name str_eq
supported_labels-is_credential_by_name = refl

supported_labels-is_project_by_name : every is_project_by_name supported_labels ≡ true
unfolding every is_project_by_name str_eq
supported_labels-is_project_by_name = refl

-- A test that the whole table passes holds of the labels of a builder.
IsBuilder-labels :
    (test : SupportedLabel → Bool) (b : RequestBuilder)
    → every test supported_labels ≡ true
    → IsBuilder b
    → All (λ l. test l ≡ true) b.labels
unfolding new_request_builder new_request_builder_with
IsBuilder-labels test _ e (all_metrics logs name id) =
    filter_pointers-All (λ l. test l ≡ true) _ supported_labels (every-All test supported_labels e)
IsBuilder-labels test _ e (given_metrics logs metrics labels name id) =
    filter_pointers-All (λ l. test l ≡ true) _ supported_labels (every-All test supported_labels e)

credential-unkeyed :
    (ext : Externals) (info : ReportRequestInfo)
    → info.operation.api_key ≡ []
    → starts_with (credential ext info) (codes "apikey:") ≡ false
unfolding credential starts_with is_empty
credential-unkeyed ext info e = elim (Bool-cases (is_empty info.auth_issuer)) [
  | inl t ↦ rw (credential, e, t) refl
  | inr f ↦ rw (credential, e, f) refl
]

is_credential-eq :
    (setter : LabelSetter) → is_credential (some setter) ≡ true → setter ≡ credential_id
is_credential-eq credential_id e = refl
is_credential-eq error_type e = cc
is_credential-eq protocol e = cc
is_credential-eq backend_protocol e = cc
is_credential-eq consumer_project e = cc
is_credential-eq referer e = cc
is_credential-eq response_code e = cc
is_credential-eq response_code_class e = cc
is_credential-eq status_code e = cc
is_credential-eq location e = cc
is_credential-eq api_method e = cc
is_credential-eq api_version e = cc
is_credential-eq platform e = cc
is_credential-eq service_agent e = cc
is_credential-eq user_agent e = cc

or_not : (a b : Bool) → (a || not b) ≡ true → a ≡ false → b ≡ false
or_not a b either absent = ground (arith, either, absent)

-- A label that the table describes names no key, when its value can only be a credential without one.
label-unkeyed :
    (ext : Externals) (info : ReportRequestInfo) (l : SupportedLabel) (setter : LabelSetter)
    (value : Str)
    → info.operation.api_key ≡ []
    → is_credential_by_name l ≡ true
    → l.set ≡ some setter
    → Gives ext info setter value
    → is_key_label (l.name, value) ≡ false
unfolding is_key_label is_credential_by_name
label-unkeyed ext info l setter value e named set gives =
    elim (Bool-cases (is_credential (some setter))) [
      | inl t ↦
          let unkeyed = credential-unkeyed ext info e in
          let known = gives (is_credential-eq setter t) in rw (known, unkeyed) (ground arith)
      | inr f ↦ rw (or_not _ _ named (ap is_credential set ∙ f)) refl
    ]

module _ {D : Type 0} (helper : DistributionHelper D) (ext : Externals) (b : RequestBuilder)
    (built : IsBuilder b) where
  -- Without an api key no label names one.
  pub set_labels-unkeyed :
      (info : ReportRequestInfo) (chosen : SupportedLabel → Bool)
      → info.operation.api_key ≡ []
      → All (λ label. is_key_label label ≡ false) (set_labels helper ext chosen b.labels info [])
  set_labels-unkeyed info chosen e =
      set_labels-All (λ label. is_key_label label ≡ false) ext info helper chosen b.labels []
        (All-map
          (λ l named _ setter value set gives.
            label-unkeyed ext info l setter value e named set gives)
          b.labels
          (IsBuilder-labels is_credential_by_name b supported_labels-is_credential_by_name built))
        tt

  -- The labels that are not for by-consumer operations alone name no project.
  pub set_labels-projectless :
      (info : ReportRequestInfo)
      → All
          (λ label. is_project_label label ≡ false)
          (set_labels helper ext (λ l. not l.by_consumer_only) b.labels info [])
  unfolding is_project_label is_project_by_name
  set_labels-projectless info =
      set_labels-All (λ label. is_project_label label ≡ false) ext info helper _ b.labels []
        (All-map
          (λ l named chosen setter value set gives. or_not _ _ named (ground (arith, chosen)))
          b.labels
          (IsBuilder-labels is_project_by_name b supported_labels-is_project_by_name built))
        tt
