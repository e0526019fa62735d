-- ===== src/BackendAuth/Rules.antt =====
-- The maps that the constructor of src/envoy/http/backend_auth/config_parser_impl.cc fills.
use esp_v.Base.{
  Str, str_eq, str_eq_iff, is_some, if◌then◌else◌, Bool, true, false, ◌||◌, Option, none, some,
  List, [], ◌∷◌, lookup, lookup-insert, inl, inr, ◌≡◌, refl, arith, Option-cases,
}
use esp_v.BackendAuth.{Rule, IdTokenInfo, new_context, Parser, add_rule, add_rules}

-- The audience of the last rule of an operation.
unfoldable pub audience_of : List Rule → Str → Option Str
audience_of [] operation = none
audience_of (rule ∷ rules) operation =
    let later = audience_of rules operation in
    if is_some later
    then later
    else if str_eq rule.operation operation
    then some rule.jwt_audience
    else none

-- Whether a rule is of an audience.
unfoldable pub names : List Rule → Str → Bool
names [] audience = false
names (rule ∷ rules) audience = str_eq rule.jwt_audience audience || names rules audience

pub audience_of-names :
    (rules : List Rule) (operation audience : Str)
    → audience_of rules operation ≡ some audience
    → names rules audience ≡ true
unfolding audience_of names
audience_of-names [] operation audience e = cc
audience_of-names (rule ∷ rules) operation audience e =
    ground
      (arith, e, str_eq_iff rule.jwt_audience audience, audience_of-names rules operation audience)

module _ (info : IdTokenInfo) (threads : List Str) where
  pub add_rules-operation_map :
      (rules : List Rule) (p : Parser) (operation : Str)
      → lookup operation (add_rules info threads rules p).operation_map ≡ (
          if is_some (audience_of rules operation)
          then audience_of rules operation
          else lookup operation p.operation_map)
  unfolding add_rules add_rule audience_of
  add_rules-operation_map [] p operation = refl
  add_rules-operation_map (rule ∷ rules) p operation = ground (
    arith,
    add_rules-operation_map rules (add_rule info threads rule p) operation,
    lookup-insert rule.operation operation rule.jwt_audience p.operation_map,
  )

  add_rule-audience_map :
      (rule : Rule) (p : Parser) (audience : Str)
      → lookup audience (add_rule info threads rule p).audience_map ≡ (
          if is_some (lookup audience p.audience_map)
          then lookup audience p.audience_map
          else if str_eq rule.jwt_audience audience
          then some (new_context info threads audience)
          else none)
  unfolding add_rule
  add_rule-audience_map rule p audience = ground (
    arith,
    str_eq_iff rule.jwt_audience audience,
    lookup-insert rule.jwt_audience audience (new_context info threads rule.jwt_audience)
        p.audience_map,
    Option-cases (lookup audience p.audience_map),
  )

  pub add_rules-audience_map :
      (rules : List Rule) (p : Parser) (audience : Str)
      → lookup audience (add_rules info threads rules p).audience_map ≡ (
          if is_some (lookup audience p.audience_map)
          then lookup audience p.audience_map
          else if names rules audience
          then some (new_context info threads audience)
          else none)
  unfolding add_rules add_rule names
  add_rules-audience_map [] p audience = elim (Option-cases (lookup audience p.audience_map)) [
    | inl e ↦ rw e refl
    | inr (context, e) ↦ rw e refl
  ]
  add_rules-audience_map (rule ∷ rules) p audience = ground (
    arith,
    add_rules-audience_map rules (add_rule info threads rule p) audience,
    add_rule-audience_map rule p audience,
    Option-cases (lookup audience p.audience_map),
  )
