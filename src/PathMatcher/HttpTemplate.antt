-- ===== src/PathMatcher/HttpTemplate.antt =====
-- src/api_proxy/path_matcher/http_template.{h,cc}: the grammar of HTTP templates, one function for
-- each method of `Parser`. `input` is `input_`.
pub mod Cursor
pub mod Total
pub mod Valid
mod Tests
use esp_v.Base.{
  ℕ, zero, suc, ◌+◌, ◌-◌, ◌*◌, Str, codes, str_eq, is_empty, ◌==◌, if◌then◌else◌, length, Bool,
  true, false, not, ◌&&◌, ◌||◌, List, [], ◌∷◌, ◌++◌, map, pos, sub_ℕ, pred_ℤ, ◌≡◌, ◌⊎◌, inl, inr,
  refl, Bool-cases, arith,
}
use esp_v.PathMatcher.Node.{single_parameter_key, wildcard_path_part_key, wildcard_path_key}
use esp_v.PathMatcher.TemplateParser.{
  ◌>>=◌, start_variable, end_variable, add_field_identifier, mark_variable_has_wildcard_path,
  push_segment, next_char, current_char, ensure_current, consume, consumed_all_input,
  ends_identifier, ends_literal, Variable, HttpTemplate, OpenVariable, Parser, Parsed, ok, fail,
  out_of_fuel,
}

module _ (input : Str) where
  -- The loop of `ParseIdentifier`, with its variables `idf` and `result`.
  unfoldable pub identifier_loop : ℕ → Str → Bool → Parser → Parsed Parser
  identifier_loop zero idf result s = out_of_fuel
  identifier_loop (suc f) idf result s =
      let moved = next_char input s in
      let c = current_char input moved.0 in
      let rest = identifier_loop f (idf ++ c ∷ []) true (consume input c moved.0).0 in
      if moved.1 && not (ends_identifier c)
      then rest
      else if result
      then add_field_identifier idf moved.0
      else fail

  unfoldable pub parse_identifier : Parser → Parsed Parser
  parse_identifier s = identifier_loop (length input + 1) [] false s

  -- The loop of `ParseLiteral`, with its variables `lit` and `result`.
  unfoldable pub literal_loop : ℕ → Str → Bool → Parser → Parsed (Str × Parser)
  literal_loop zero lit result s = out_of_fuel
  literal_loop (suc f) lit result s =
      let c = current_char input s in
      let moved = next_char input (consume input c s).0 in
      let rest = literal_loop f (lit ++ c ∷ []) true moved.0 in
      if ends_literal c
      then if result then ok (lit, s) else fail
      else if moved.1
      then rest
      else ok (lit ++ c ∷ [], moved.0)

  unfoldable pub parse_literal : Parser → Parsed (Str × Parser)
  parse_literal s =
      let ready = ensure_current input s in
      if ready.1 then literal_loop (length input + 1) [] false ready.0 else fail

  unfoldable pub parse_literal_segment : Parser → Parsed Parser
  parse_literal_segment s = do (ls, s') ← parse_literal s; ok (push_segment ls s')

  -- The loop of `ParseFieldPath`.
  unfoldable pub field_path_loop : ℕ → Parser → Parsed Parser
  field_path_loop zero s = out_of_fuel
  field_path_loop (suc f) s =
      let dot = consume input b'.' s in
      let rest = parse_identifier dot.0 >>= field_path_loop f in if dot.1 then rest else ok dot.0

  unfoldable pub parse_field_path : Parser → Parsed Parser
  parse_field_path s = do s' ← parse_identifier s; field_path_loop (length input + 1) s'

  unfoldable pub parse_verb : Parser → Parsed Parser
  parse_verb s =
      let colon = consume input b':' s in
      if colon.1
      then parse_literal colon.0 >>= (λ r. ok (record (r.1) { verb = r.1.verb ++ r.0 }))
      else fail

  -- The case `*` of `ParseSegment`.
  unfoldable pub parse_wildcard_segment : Parser → Parsed Parser
  parse_wildcard_segment s =
      let first = consume input b'*' s in
      let second = consume input b'*' first.0 in
      let pushed = push_segment (codes "**") second.0 in
      if second.1
      then if pushed.in_variable then mark_variable_has_wildcard_path pushed else ok pushed
      else ok (push_segment (codes "*") second.0)

  -- The start of `ParseVariable`, up to the subpath.
  unfoldable pub parse_variable_name : Parser → Parsed Parser
  parse_variable_name s =
      let brace = consume input b'{' s in
      if brace.1 then start_variable brace.0 >>= parse_field_path else fail

  -- The end of `ParseVariable`.
  unfoldable pub parse_variable_end : Parser → Parsed Parser
  parse_variable_end s = do
    s' ← end_variable s
    let brace = consume input b'}' s'
    if brace.1 then ok brace.0 else fail

  unfoldable mutual
    pub parse_segments : ℕ → Parser → Parsed Parser
    parse_segments zero s = out_of_fuel
    parse_segments (suc f) s = parse_segment f s >>= segments_loop f

    pub segments_loop : ℕ → Parser → Parsed Parser
    segments_loop zero s = out_of_fuel
    segments_loop (suc f) s =
        let slash = consume input b'/' s in
        let rest = parse_segment f slash.0 >>= segments_loop f in
        if slash.1 then rest else ok slash.0

    pub parse_segment : ℕ → Parser → Parsed Parser
    parse_segment zero s = out_of_fuel
    parse_segment (suc f) s =
        let ready = ensure_current input s in
        let variable = parse_variable f ready.0 in
        if ready.1
        then if current_char input ready.0 == b'*'
          then parse_wildcard_segment ready.0
          else if current_char input ready.0 == b'{'
          then variable
          else parse_literal_segment ready.0
        else fail

    pub parse_variable : ℕ → Parser → Parsed Parser
    parse_variable zero s = out_of_fuel
    parse_variable (suc f) s = parse_variable_name s >>= (λ named.
        let assign = consume input b'=' named in
        let subpath = parse_segments f assign.0 in
        (if assign.1 then subpath else ok (push_segment (codes "*") assign.0))
        >>= parse_variable_end)

  -- `ParseTemplate`, with fuel for its segments.
  unfoldable pub parse_template : Parser → Parsed Parser
  parse_template s =
      let slash = consume input b'/' s in
      if slash.1
      then parse_segments (4 * length input + 3) slash.0 >>= (λ t.
        let ready = ensure_current input t in
        if ready.1 && current_char input ready.0 == b':' then parse_verb ready.0 else ok ready.0)
      else fail

-- The body of the loop of `PostProcessVariables`.
unfoldable pub post_process_variable : Parser → OpenVariable → Variable
post_process_variable s var =
    let from_end = sub_ℕ var.end_segment (length s.segments + 1) in
    record {
      start_segment = var.start_segment;
      end_segment =
          if var.has_wildcard_path
          then if is_empty s.verb then from_end else pred_ℤ from_end
          else pos var.end_segment;
      field_path = var.field_path;
      has_wildcard_path = var.has_wildcard_path;
    }

-- `ValidateParts`, from a segment on.
unfoldable pub validate_parts : Bool → List Str → Bool
validate_parts found_wild_card [] = true
validate_parts false (seg ∷ segs) = validate_parts (str_eq seg wildcard_path_key) segs
validate_parts true (seg ∷ segs) =
    not (
      str_eq seg single_parameter_key
      || str_eq seg wildcard_path_part_key
      || str_eq seg wildcard_path_key)
    && validate_parts true segs

abbrev pub new_parser : Parser
new_parser = record {
  tb = 0;
  te = 0;
  in_variable = false;
  segments = [];
  verb = [];
  variables = [];
}

unfoldable pub in_order {ℓ} : {A : Type ℓ} → List A → List A → List A
in_order [] done = done
in_order (x ∷ xs) done = in_order xs (x ∷ done)

-- `Parser::Parse`: the parser when it answers true.
unfoldable pub parser_parse : Str → Parsed Parser
parser_parse input = do
  s ← parse_template input new_parser
  if consumed_all_input input s then ok s else fail

-- The template of a parser that answered true.
abbrev pub template_of : Parser → HttpTemplate
template_of s = record {
  segments = s.segments;
  verb = s.verb;
  variables = map (post_process_variable s) (in_order s.variables []);
}

-- The end of `HttpTemplate::Parse`
unfoldable pub finish : Parser → Parsed HttpTemplate
finish s = if validate_parts false s.segments then ok (template_of s) else fail

-- `HttpTemplate::Parse`; a null pointer is `fail`.
unfoldable pub parse : Str → Parsed HttpTemplate
parse ht =
    if str_eq ht (codes "/")
    then ok (record { segments = []; verb = []; variables = [] })
    else parser_parse ht >>= finish

-- Everything that a run of the parser computes with.
unfoldable pub running : Unit {0}
unfolding parse finish parser_parse parse_template parse_verb consumed_all_input parse_segments
    parse_variable_name parse_variable_end parse_field_path field_path_loop parse_identifier
    identifier_loop parse_literal_segment parse_literal literal_loop parse_wildcard_segment consume
    ensure_current next_char current_char start_variable end_variable add_field_identifier
    mark_variable_has_wildcard_path validate_parts post_process_variable in_order str_eq is_empty
running = tt

-- Inversion of a chain that succeeds.
pub >>=-eq-ok {ℓ κ} :
    {A : Type ℓ} {B : Type κ} (r : Parsed A) (f : A → Parsed B) {b : B}
    → (r >>= f) ≡ ok b
    → (a : A) × (r ≡ ok a) × (f a ≡ ok b)
>>=-eq-ok (ok a) f h = (a, refl, h)
>>=-eq-ok fail f h = cc
>>=-eq-ok out_of_fuel f h = cc

-- A template is that of the root, or of a parser whose parts are valid.
pub parse-eq-ok :
    (ht : Str) (t : HttpTemplate)
    → parse ht ≡ ok t
    → (t ≡ record { segments = []; verb = []; variables = [] })
      ⊎ ((s : Parser) × (parser_parse ht ≡ ok s)
          × (validate_parts false s.segments ≡ true)
          × (t ≡ template_of s))
unfolding parse finish
parse-eq-ok ht t e = elim (Bool-cases (str_eq ht (codes "/"))) [
  | inl root ↦ inl (ground (arith, root))
  | inr other ↦
      let e' : (parser_parse ht >>= finish) ≡ ok t = rw other at e in
      let (s, parsed, finished) = >>=-eq-ok (parser_parse ht) finish e' in
      inr (s, parsed, ground (arith, finished), ground (arith, finished))
]
