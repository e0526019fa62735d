-- ===== src/PathMatcher/HttpTemplate/Total.antt =====
-- The fuel of the parser of src/api_proxy/path_matcher/http_template.cc.
use esp_v.Base.{
  ℕ, zero, suc, ◌+◌, ◌-◌, ◌*◌, ◌≤◌, ◌<◌, Str, codes, str_eq, ◌==◌, if◌then◌else◌, length, Bool,
  true, false, ◌&&◌, Bool-cases, ◌≡◌, ◌⊎◌, inl, inr, refl, arith,
}
use esp_v.PathMatcher.TemplateParser.{
  Parser, HttpTemplate, Parsed, ok, fail, out_of_fuel, start_variable, end_variable,
  end_variable_of, mark_variable_has_wildcard_path, current_char, ensure_current, consume,
  consumed_all_input,
}
use esp_v.PathMatcher.HttpTemplate.{
  parse_verb, parse_wildcard_segment, parse_variable_name, parse_variable_end, parse_segments,
  segments_loop, parse_segment, parse_variable, parse_template, validate_parts, new_parser,
  parser_parse, finish, parse,
}
use esp_v.PathMatcher.HttpTemplate.Cursor.{
  Ends, >>=-Ends, IsCursor, Reaches, ensure_current-IsCursor, consume-IsCursor,
  parse_literal_segment-Ends, parse_field_path-Ends, parse_verb-Ends,
}

module _ (input : Str) where
  parse_wildcard_segment-Ends :
      (n : ℕ) (s : Parser)
      → Reaches input n s
      → Ends (Reaches input n) (parse_wildcard_segment input s)
  unfolding parse_wildcard_segment mark_variable_has_wildcard_path
  parse_wildcard_segment-Ends n s h =
      let s' = (consume input b'*' s).0 in
      ground (
        arith,
        consume-IsCursor input b'*' s h.0,
        consume-IsCursor input b'*' s' (consume-IsCursor input b'*' s h.0).0,
      )

  start_variable-Ends :
      (n : ℕ) (s : Parser)
      → IsCursor input s
      → s.te ≡ s.tb
      → n ≤ s.tb
      → Ends (λ t. IsCursor input t × (t.te ≡ t.tb) × (n ≤ t.tb)) (start_variable s)
  unfolding start_variable
  start_variable-Ends n s h same lo = ground arith

  parse_variable_name-Ends :
      (n : ℕ) (s : Parser)
      → Reaches input n s
      → Ends (Reaches input (n + 1)) (parse_variable_name input s)
  unfolding parse_variable_name
  parse_variable_name-Ends n s h = elim (Bool-cases (consume input b'{' s).1) [
    | inl brace ↦
        let known = consume-IsCursor input b'{' s h.0 in
        let s' = (consume input b'{' s).0 in
        rw brace (
          >>=-Ends _ (Reaches input (n + 1)) _ _
            (start_variable-Ends (n + 1) s' known.0 (omega (arith, known.2 brace))
              (omega (arith, known.2 brace)))
            λ t r. parse_field_path-Ends input (n + 1) t r.0 r.1 r.2)
    | inr other ↦ rw other tt
  ]

  end_variable-Ends :
      (n : ℕ) (s : Parser) → Reaches input n s → Ends (Reaches input n) (end_variable s)
  unfolding end_variable end_variable_of
  end_variable-Ends n s h = ground arith

  parse_variable_end-Ends :
      (n : ℕ) (s : Parser) → Reaches input n s → Ends (Reaches input n) (parse_variable_end input s)
  unfolding parse_variable_end
  parse_variable_end-Ends n s h =
      >>=-Ends (Reaches input n) (Reaches input n) _ _ (end_variable-Ends n s h)
        λ s' r. ground (arith, consume-IsCursor input b'}' s' r.0)

  Ends-weaken :
      (n : ℕ) (r : Parsed Parser) → Ends (Reaches input (n + 1)) r → Ends (Reaches input n) r
  Ends-weaken n (ok s) h = (h.0, omega arith)
  Ends-weaken n fail h = tt
  Ends-weaken n out_of_fuel h = h

  -- Enough fuel: four units for each byte that is left, and a little for the way down.
  mutual
    unfolding parse_segments

    parse_segments-Ends :
        (n f : ℕ) (s : Parser)
        → Reaches input n s
        → 4 * (length input - n) + 3 < f
        → Ends (Reaches input n) (parse_segments input f s)
    parse_segments-Ends n zero s h m = absurd (omega arith)
    parse_segments-Ends n (suc f) s h m =
        >>=-Ends (Reaches input n) (Reaches input n) _ _ (parse_segment-Ends n f s h (omega arith))
          λ s' r. segments_loop-Ends n f s' r (omega arith)

    segments_loop-Ends :
        (n f : ℕ) (s : Parser)
        → Reaches input n s
        → 4 * (length input - n) + 1 < f
        → Ends (Reaches input n) (segments_loop input f s)
    segments_loop-Ends n zero s h m = absurd (omega arith)
    segments_loop-Ends n (suc f) s h m = elim (Bool-cases (consume input b'/' s).1) [
      | inl slash ↦
          let known = consume-IsCursor input b'/' s h.0 in
          rw slash (
            Ends-weaken n _ (
              >>=-Ends (Reaches input (n + 1)) (Reaches input (n + 1)) _ _
                (parse_segment-Ends (n + 1) f (consume input b'/' s).0
                  (known.0, omega (arith, known.2 slash)) (omega (arith, known.2 slash)))
                λ s' r. segments_loop-Ends (n + 1) f s' r (omega arith)))
      | inr other ↦ let known = consume-IsCursor input b'/' s h.0 in rw other (known.0, omega arith)
    ]

    parse_segment-Ends :
        (n f : ℕ) (s : Parser)
        → Reaches input n s
        → 4 * (length input - n) + 2 < f
        → Ends (Reaches input n) (parse_segment input f s)
    parse_segment-Ends n zero s h m = absurd (omega arith)
    parse_segment-Ends n (suc f) s h m = ground (
      arith,
      ensure_current-IsCursor input s h.0,
      parse_variable-Ends n f (ensure_current input s).0,
      parse_wildcard_segment-Ends n (ensure_current input s).0,
      parse_literal_segment-Ends input n (ensure_current input s).0,
    )

    parse_variable-Ends :
        (n f : ℕ) (s : Parser)
        → Reaches input n s
        → 4 * (length input - n) + 1 < f
        → Ends (Reaches input n) (parse_variable input f s)
    parse_variable-Ends n zero s h m = absurd (omega arith)
    parse_variable-Ends n (suc f) s h m =
        >>=-Ends (Reaches input (n + 1)) (Reaches input n) _ _ (parse_variable_name-Ends n s h)
          λ named r.
            let known = consume-IsCursor input b'=' named r.0 in
            let s' = (consume input b'=' named).0 in
            >>=-Ends (Reaches input (n + 1)) (Reaches input n) _ _
              (elim (Bool-cases (consume input b'=' named).1) [
                | inl assign ↦
                    rw assign
                      (parse_segments-Ends (n + 1) f s' (known.0, omega arith) (omega arith))
                | inr other ↦ rw other (ground (arith, known))
              ])
              λ s'' r'. parse_variable_end-Ends n s'' (r'.0, omega arith)

  parse_template-Ends : Ends (λ _. Unit) (parse_template input new_parser)
  unfolding parse_template
  parse_template-Ends = elim (Bool-cases (consume input b'/' new_parser).1) [
    | inl slash ↦
        let known = consume-IsCursor input b'/' new_parser (ground arith) in
        rw slash (
          >>=-Ends (Reaches input 1) (λ _. Unit) _ _
            (parse_segments-Ends 1 (4 * length input + 3) (consume input b'/' new_parser).0
              (known.0, omega (arith, known.2 slash)) (omega (arith, known.2 slash)))
            λ t r. verb t r)
    | inr other ↦ rw other tt
  ]
    where
      verb :
          (t : Parser)
          → Reaches input 1 t
          → Ends
              (λ _. Unit)
              (if (ensure_current input t).1
                  && current_char input (ensure_current input t).0 == b':'
                then parse_verb input (ensure_current input t).0
                else ok (ensure_current input t).0)
      verb t r = ground (
        arith,
        ensure_current-IsCursor input t r.0,
        parse_verb-Ends input 1 (ensure_current input t).0,
      )

Ends-if {ℓ} : {A : Type ℓ} (b : Bool) (a : A) → Ends (λ _. Unit) (if b then ok a else fail)
Ends-if true a = tt
Ends-if false a = tt

parse-Ends : (ht : Str) → Ends (λ _. Unit) (parse ht)
unfolding parse finish parser_parse
parse-Ends ht = elim (Bool-cases (str_eq ht (codes "/"))) [
  | inl root ↦ rw root tt
  | inr other ↦ rw other (
      >>=-Ends (λ _. Unit) (λ _. Unit) _ _
        (>>=-Ends (λ _. Unit) (λ _. Unit) _ _ (parse_template-Ends ht)
          λ s _. Ends-if (consumed_all_input ht s) s)
        λ s _. Ends-if (validate_parts false s.segments) _)
]

Ends-cases {ℓ} :
    {A : Type ℓ} (r : Parsed A) → Ends (λ _. Unit) r → (r ≡ fail) ⊎ ((a : A) × (r ≡ ok a))
Ends-cases (ok a) h = inr (a, refl)
Ends-cases fail h = inl refl
Ends-cases out_of_fuel h = elim h [ ]

-- The parser answers on every input: it returns a template or fails.
pub parse-total : (ht : Str) → (parse ht ≡ fail) ⊎ ((t : HttpTemplate) × (parse ht ≡ ok t))
parse-total ht = Ends-cases (parse ht) (parse-Ends ht)
