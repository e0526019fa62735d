-- ===== src/PathMatcher/RequestPath/Bindings.antt =====
-- Percent decoding and `ExtractBindingsFromPath` of src/api_proxy/path_matcher/path_matcher.cc, and
-- `VariableBindingsToQueryParameters` of variable_binding_utils.cc beside it.
use mathlib.Core.Option
use esp_v.Base.{
  ℕ, zero, suc, ◌+◌, ◌-◌, ◌*◌, ◌%◌, ◌^◌, Str, codes, ltb, leb, ◌==◌, if◌then◌else◌, length,
  get_elem?, lookup, Bool, true, false, not, ◌&&◌, ◌||◌, Option, none, some, List, [], ◌∷◌, ◌++◌, ℤ,
  pos, negsuc, is_some,
}
use esp_v.PathMatcher.TemplateParser.{Variable}

-- `IsReservedChar`
unfoldable pub is_reserved_char : ℕ → Bool
is_reserved_char c =
    c == b'!'
    || c == b'#'
    || c == b'$'
    || c == b'&'
    || c == 39
    || c == b'('
    || c == b')'
    || c == b'*'
    || c == b'+'
    || c == b','
    || c == b'/'
    || c == b':'
    || c == b';'
    || c == b'='
    || c == b'?'
    || c == b'@'
    || c == b'['
    || c == b']'

unfoldable pub ascii_isxdigit : ℕ → Bool
ascii_isxdigit c = leb b'a' c && leb c b'f' || leb b'A' c && leb c b'F' || leb b'0' c && leb c b'9'

-- `x & 0xf` is `x % 16`.
unfoldable pub hex_digit_to_int : ℕ → ℕ
hex_digit_to_int c = (if ltb b'9' c then c + 9 else c) % 16

-- `GetEscapedChar` at the head of the bytes from position `i` on; the character, if it answers true.
-- The two digits do not overlap, so `|` is a sum.
unfoldable pub get_escaped_char : Bool → Str → Option ℕ
get_escaped_char unescape_reserved_chars (p ∷ a ∷ b ∷ rest) =
    let c = hex_digit_to_int a * 16 + hex_digit_to_int b in
    if p == b'%'
      && (ascii_isxdigit a && ascii_isxdigit b)
      && not (not unescape_reserved_chars && is_reserved_char c)
    then some c
    else none
get_escaped_char unescape_reserved_chars _ = none

-- The first loop of `UrlUnescapeString`.
unfoldable pub needs_unescaping : Bool → Str → Bool
needs_unescaping u [] = false
needs_unescaping u (c ∷ s) = is_some (get_escaped_char u (c ∷ s)) || needs_unescaping u s

-- The second loop: what it writes.
unfoldable pub unescape_loop : Bool → Str → Str
unescape_loop u (c ∷ a ∷ b ∷ rest) =
    let plain = c ∷ unescape_loop u (a ∷ b ∷ rest) in
    let decoded = unescape_loop u rest in
    elim (get_escaped_char u (c ∷ a ∷ b ∷ rest)) [ none ↦ plain | some ch ↦ ch ∷ decoded ]
unescape_loop u (c ∷ a ∷ []) = c ∷ a ∷ []
unescape_loop u (c ∷ []) = c ∷ []
unescape_loop u [] = []

unfoldable pub url_unescape_string : Str → Bool → Str
url_unescape_string part unescape_reserved_chars =
    if needs_unescaping unescape_reserved_chars part
    then unescape_loop unescape_reserved_chars part
    else part

pub record VariableBinding : Type 0 where
  pub field_path : List Str
  pub value : Str

abbrev pub size_mod : ℕ
size_mod = 2 ^ 64

-- An `int` as a `size_t`.
unfoldable pub to_size_t : ℤ → ℕ
to_size_t (pos n) = n % size_mod
to_size_t (negsuc n) = (size_mod - suc n) % size_mod

abbrev pub is_negative : ℤ → Bool
is_negative (pos n) = false
is_negative (negsuc n) = true

-- The local `end_segment` of `ExtractBindingsFromPath`, a `size_t`.
unfoldable pub absolute_end : ℤ → ℕ → ℕ
absolute_end (pos n) size = n
absolute_end (negsuc n) size = (size + to_size_t (negsuc n) + 1) % size_mod

-- The inner loop, for `count` rounds from `i` on. A read out of range is `none`.
unfoldable pub binding_value : (Str → Str) → List Str → ℕ → ℕ → ℕ → Option Str
binding_value convert parts end_segment i zero = some []
binding_value convert parts end_segment i (suc count) = elim (get_elem? parts i) [
  | none ↦ none
  | some part ↦
      Option.map
        (λ rest. convert part ++ ((if ltb i (end_segment - 1) then codes "/" else []) ++ rest))
        (binding_value convert parts end_segment (i + 1) count)
]

-- The body of the loop over the variables.
unfoldable pub extract_binding : Bool → List Str → Variable → Option VariableBinding
extract_binding keep_binding_escaped parts var =
    let end_segment = absolute_end var.end_segment (length parts) in
    let is_multipart =
      ltb 1 ((end_segment + size_mod - var.start_segment) % size_mod)
      || is_negative var.end_segment in
    let convert = λ (part : Str).
      if keep_binding_escaped then part else url_unescape_string part (not is_multipart) in
    Option.map (λ v. record { field_path = var.field_path; value = v })
      (binding_value convert parts end_segment var.start_segment (end_segment - var.start_segment))

unfoldable pub extract_bindings_from_path :
    List Variable → List Str → Bool → Option (List VariableBinding)
extract_bindings_from_path [] parts keep = some []
extract_bindings_from_path (var ∷ vars) parts keep = elim (extract_binding keep parts var) [
  | none ↦ none
  | some b ↦ Option.map (λ bs. b ∷ bs) (extract_bindings_from_path vars parts keep)
]

-- The name of a segment in the query; `absl::StrContains(segment, "_")` is a parameter.
unfoldable pub query_name : (Str → Bool) → List (Str × Str) → Str → Str
query_name has_underscore snake_to_json segment =
    if has_underscore segment
    then elim (lookup segment snake_to_json) [ none ↦ segment | some json ↦ json ]
    else segment

-- The inner loop of `VariableBindingsToQueryParameters`.
unfoldable pub query_field_path : (Str → Str) → List Str → Str
query_field_path name [] = []
query_field_path name (segment ∷ []) = name segment
query_field_path name (segment ∷ next ∷ path) =
    name segment ++ b'.' ∷ query_field_path name (next ∷ path)

unfoldable pub query_parameter : (Str → Str) → VariableBinding → Str
query_parameter name b = query_field_path name b.field_path ++ b'=' ∷ b.value

-- The outer loop.
unfoldable pub query_parameters : (Str → Str) → List VariableBinding → Str
query_parameters name [] = []
query_parameters name (b ∷ []) = query_parameter name b
query_parameters name (b ∷ next ∷ bs) =
    query_parameter name b ++ b'&' ∷ query_parameters name (next ∷ bs)

unfoldable pub variable_bindings_to_query_parameters :
    (Str → Bool) → List VariableBinding → List (Str × Str) → Str
variable_bindings_to_query_parameters has_underscore bindings snake_to_json =
    query_parameters (query_name has_underscore snake_to_json) bindings
