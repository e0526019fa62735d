-- ===== src/PathMatcher/TemplateParser.antt =====
-- src/api_proxy/path_matcher/http_template.{h,cc}: the state of `Parser`, and the methods that do
-- not follow the grammar. A `char` is its byte, so the `-1` of `current_char` is 255.
use esp_v.Base.{
  ℕ, ◌+◌, ◌-◌, Str, is_empty, ltb, leb, ◌==◌, if◌then◌else◌, length, get_elem?, Bool, true, false,
  not, ◌&&◌, ◌||◌, Option, none, some, List, [], ◌∷◌, ◌++◌, ℤ,
}

-- `HttpTemplate::Variable`
pub record Variable : Type 0 where
  pub start_segment : ℕ
  pub end_segment : ℤ
  pub field_path : List Str
  pub has_wildcard_path : Bool

pub record HttpTemplate : Type 0 where
  pub segments : List Str
  pub verb : Str
  pub variables : List Variable

-- While a variable is parsed its end is not negative, and is 0 until it is set.
pub record OpenVariable : Type 0 where
  pub start_segment : ℕ
  pub end_segment : ℕ
  pub field_path : List Str
  pub has_wildcard_path : Bool

-- The members of `Parser`; `variables` has the last one at its head.
pub record Parser : Type 0 where
  pub tb : ℕ
  pub te : ℕ
  pub in_variable : Bool
  pub segments : List Str
  pub verb : Str
  pub variables : List OpenVariable

-- `fail` is a `false` of the source; `out_of_fuel` belongs to the model only.
pub data Parsed {ℓ} (A : Type ℓ) : Type ℓ where
  ok : A → Parsed A
  fail : Parsed A
  out_of_fuel : Parsed A

infixl 5 ◌>>=◌
abbrev pub ◌>>=◌ {ℓ κ} : {A : Type ℓ} {B : Type κ} → Parsed A → (A → Parsed B) → Parsed B
ok a >>= f = f a
fail >>= f = fail
out_of_fuel >>= f = out_of_fuel

abbrev pub no_char : ℕ
no_char = 255

abbrev pub char_or : Option ℕ → ℕ
char_or none = no_char
char_or (some c) = c

unfoldable pub start_variable : Parser → Parsed Parser
start_variable s =
    if s.in_variable
    then fail
    else ok (record s {
      in_variable = true;
      variables =
          record {
            start_segment = length s.segments;
            end_segment = 0;
            field_path = [];
            has_wildcard_path = false;
          }
          ∷ s.variables;
    })

unfoldable pub validate_variable : Parser → OpenVariable → Bool
validate_variable s var =
    not (is_empty var.field_path)
    && ltb var.start_segment var.end_segment
    && leb var.end_segment (length s.segments)

-- `EndVariable`, by the variables.
unfoldable pub end_variable_of : Parser → List OpenVariable → Parsed Parser
unfolding validate_variable
end_variable_of s [] = fail
end_variable_of s (var ∷ vars) =
    let closed = record var { end_segment = length s.segments } in
    let s' = record s { in_variable = false; variables = closed ∷ vars } in
    if s.in_variable && validate_variable s' closed then ok s' else fail

unfoldable pub end_variable : Parser → Parsed Parser
unfolding end_variable_of
end_variable s = end_variable_of s s.variables

unfoldable pub add_field_identifier_of : Str → Parser → List OpenVariable → Parsed Parser
add_field_identifier_of id s [] = fail
add_field_identifier_of id s (var ∷ vars) =
    if s.in_variable
    then ok (record s { variables = record var { field_path = var.field_path ++ id ∷ [] } ∷ vars })
    else fail

unfoldable pub add_field_identifier : Str → Parser → Parsed Parser
unfolding add_field_identifier_of
add_field_identifier id s = add_field_identifier_of id s s.variables

unfoldable pub mark_variable_has_wildcard_path_of : Parser → List OpenVariable → Parsed Parser
mark_variable_has_wildcard_path_of s [] = fail
mark_variable_has_wildcard_path_of s (var ∷ vars) =
    if s.in_variable
    then ok (record s { variables = record var { has_wildcard_path = true } ∷ vars })
    else fail

unfoldable pub mark_variable_has_wildcard_path : Parser → Parsed Parser
unfolding mark_variable_has_wildcard_path_of
mark_variable_has_wildcard_path s = mark_variable_has_wildcard_path_of s s.variables

abbrev pub push_segment : Str → Parser → Parser
push_segment seg s = record s { segments = s.segments ++ seg ∷ [] }

module _ (input : Str) where
  unfoldable pub next_char : Parser → Parser × Bool
  next_char s = if ltb s.te (length input) then (record s { te = s.te + 1 }, true) else (s, false)

  unfoldable pub current_char : Parser → ℕ
  current_char s =
      if ltb s.tb s.te && leb s.te (length input)
      then char_or (get_elem? input (s.te - 1))
      else no_char

  unfoldable pub ensure_current : Parser → Parser × Bool
  ensure_current s = if ltb s.tb s.te then (s, true) else next_char s

  unfoldable pub consume : ℕ → Parser → Parser × Bool
  consume c s =
      let ready = ensure_current s in
      if ready.1
      then if current_char ready.0 == c
        then (record (ready.0) { tb = ready.0.tb + 1 }, true)
        else (ready.0, false)
      else (ready.0, false)

  unfoldable pub consumed_all_input : Parser → Bool
  consumed_all_input s = leb (length input) s.tb

abbrev pub ends_identifier : ℕ → Bool
ends_identifier c = c == b'.' || c == b'}' || c == b'='

abbrev pub ends_literal : ℕ → Bool
ends_literal c = c == b'/' || c == b':' || c == b'}'
