-- ===== src/ServiceControl/Config/Found.antt =====
-- What src/envoy/http/service_control/config_parser.cc finds in a configuration it accepts.
use mathlib.Core.Path.{subst}
use esp_v.Base.{
  suc, ◌+◌, ◌≤◌, Str, if◌then◌else◌, lookup, insert_new, lookup-insert_new, lookup-insert_new_self,
  length, length-append, ltb, false, is_some, Bool-cases, Option-cases, Option, some, List, [], ◌∷◌,
  All, ◌≡◌, inl, inr, refl, sym, ap, ◌∙◌, arith,
}
use esp_v.ServiceControl.Handler.{Requirement, ConfigParser}
use esp_v.ServiceControl.Config.{
  ServiceMessage, RequirementMessage, FilterConfig, requirement_context, Parsed, refused, accepted,
  ServiceMap, RequirementMap, service_map, requirements_map, parser_of, parse_services,
  new_config_parser, non_match_requirement, invalid_service_name,
}

length-insert_new {ℓ} :
    {V : Type ℓ} (key : Str) (value : V) (entries : List (Str × V))
    → length (insert_new key value entries)
      ≡ (if is_some (lookup key entries) then length entries else suc (length entries))
unfolding insert_new
length-insert_new key value entries = elim (Bool-cases (is_some (lookup key entries))) [
  | inl t ↦ rw t refl
  | inr f ↦ rw f (omega (arith, length-append entries ((key, value) ∷ [])))
]

-- A requirement of the configuration that is found under its operation, with its service.
abbrev pub IsFound : ServiceMap → (Str → Option Requirement) → RequirementMessage → Type 0
IsFound services find r =
    (service : ServiceMessage) × (lookup r.service_name services ≡ some service)
    × (find r.operation_name ≡ some (requirement_context r service))

accepted-injective {ℓ} : {A : Type ℓ} (a b : A) → accepted a ≡ accepted b → a ≡ b
accepted-injective a b e = cc

module _ (services : ServiceMap) where
  -- A turn of the loop: the service is there, and the others follow.
  requirements_map-step :
      (r : RequirementMessage) (rs : List RequirementMessage) (from to : RequirementMap)
      → requirements_map services (r ∷ rs) from ≡ accepted to
      → (service : ServiceMessage) × (lookup r.service_name services ≡ some service)
        × (requirements_map services rs
              (insert_new r.operation_name (requirement_context r service) from)
            ≡ accepted to)
  unfolding requirements_map
  requirements_map-step r rs from to e = elim (Option-cases (lookup r.service_name services)) [
    | inl missing ↦
        let step : requirements_map services (r ∷ rs) from ≡ refused (invalid_service_name r) =
          rw (requirements_map, missing) refl in
        cc
    | inr (service, found) ↦
        let step : requirements_map services (r ∷ rs) from
            ≡ requirements_map services rs
                (insert_new r.operation_name (requirement_context r service) from) =
          rw (requirements_map, found) refl in
        (service, found, sym step ∙ e)
  ]

  requirements_map-length :
      (rs : List RequirementMessage) (from to : RequirementMap)
      → requirements_map services rs from ≡ accepted to
      → length to ≤ length from + length rs
  unfolding requirements_map
  requirements_map-length [] from to e = rw (accepted-injective from to e) (omega arith)
  requirements_map-length (r ∷ rs) from to e =
      let (service, found, rest) = requirements_map-step r rs from to e in
      let context = requirement_context r service in
      ground (
        arith,
        length-insert_new r.operation_name context from,
        requirements_map-length rs (insert_new r.operation_name context from) to rest,
      )

  requirements_map-keeps :
      (rs : List RequirementMessage) (from to : RequirementMap) (key : Str) {value : Requirement}
      → requirements_map services rs from ≡ accepted to
      → lookup key from ≡ some value
      → lookup key to ≡ some value
  unfolding requirements_map
  requirements_map-keeps [] from to key e there =
      ap (lookup key) (sym (accepted-injective from to e)) ∙ there
  requirements_map-keeps (r ∷ rs) from to key e there =
      let (service, found, rest) = requirements_map-step r rs from to e in
      requirements_map-keeps rs _ to key rest
        (lookup-insert_new r.operation_name key (requirement_context r service) from there)

  -- When no operation is there twice, each of them is found.
  requirements_map-IsFound :
      (rs : List RequirementMessage) (from to : RequirementMap)
      → requirements_map services rs from ≡ accepted to
      → length from + length rs ≤ length to
      → All (IsFound services (λ operation. lookup operation to)) rs
  requirements_map-IsFound [] from to e full = tt
  requirements_map-IsFound (r ∷ rs) from to e full =
      let (service, found, rest) = requirements_map-step r rs from to e in
      let context = requirement_context r service in
      let next = insert_new r.operation_name context from in
      let shorter = requirements_map-length rs next to rest in
      let grown = length-insert_new r.operation_name context from in
      let fresh : is_some (lookup r.operation_name from) ≡ false =
        ground (arith, shorter, grown, full) in
      (
        (
          service,
          found,
          requirements_map-keeps rs next to r.operation_name rest
              (lookup-insert_new_self r.operation_name context from fresh),
        ),
        requirements_map-IsFound rs next to rest (ground (arith, grown, fresh, full)),
      )

parser_of-accepted :
    (config : FilterConfig) (first : ServiceMessage) (parsed : Parsed RequirementMap)
    (parser : ConfigParser)
    → parser_of config first parsed ≡ accepted parser
    → (requirements : RequirementMap) × (parsed ≡ accepted requirements)
      × (length config.requirements ≤ length requirements)
      × (parser.find_requirement ≡ (λ operation. lookup operation requirements))
unfolding parser_of
parser_of-accepted config first (refused error) parser e = cc
parser_of-accepted config first (accepted requirements) parser e =
    elim (Bool-cases (ltb (length requirements) (length config.requirements))) [
      | inl fewer ↦ ground (arith, e, fewer)
      | inr enough ↦
          let made : accepted (record {
            find_requirement = λ operation. lookup operation requirements;
            non_match = requirement_context (non_match_requirement first) first;
            gcp_attributes = config.gcp_attributes;
          })
              ≡ accepted parser =
            sym (rw enough refl) ∙ e in
          (
            requirements,
            refl,
            ground (arith, enough),
            ap (λ p. p.find_requirement) (sym (accepted-injective _ parser made)),
          )
    ]

parse_services-accepted :
    (config : FilterConfig) (services : List ServiceMessage) (parser : ConfigParser)
    → parse_services config services ≡ accepted parser
    → (first : ServiceMessage) × (parser_of config first
          (requirements_map (service_map services []) config.requirements [])
        ≡ accepted parser)
unfolding parse_services
parse_services-accepted config [] parser e = cc
parse_services-accepted config (first ∷ others) parser e =
    elim (Bool-cases (ltb (length (service_map (first ∷ others) [])) (length (first ∷ others)))) [
      | inl fewer ↦ ground (arith, e, fewer)
      | inr enough ↦ (first, sym (rw (parse_services, enough) refl) ∙ e)
    ]

-- In a configuration that is accepted, each of the requirements is found under its operation, with
-- the service it names: none is lost to another one of the same operation.
pub new_config_parser-IsFound :
    (config : FilterConfig) (parser : ConfigParser)
    → new_config_parser config ≡ accepted parser
    → All (IsFound (service_map config.services []) parser.find_requirement) config.requirements
unfolding new_config_parser
new_config_parser-IsFound config parser e =
    let services = service_map config.services [] in
    let (first, made) = parse_services-accepted config config.services parser e in
    let (requirements, indexed, enough, finds) = parser_of-accepted config first _ parser made in
    subst (λ find. All (IsFound services find) config.requirements) (sym finds)
      (requirements_map-IsFound services config.requirements [] requirements indexed
        (omega (arith, enough)))
