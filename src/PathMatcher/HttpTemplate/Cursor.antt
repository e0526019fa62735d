-- ===== src/PathMatcher/HttpTemplate/Cursor.antt =====
-- The token indexes of the parser of src/api_proxy/path_matcher/http_template.cc, and the fuel of
-- its loops over characters.
use esp_v.Base.{
  ℕ, zero, suc, ◌+◌, ◌≤◌, ◌<◌, Str, ltb, length, Bool, true, false, Bool-cases, [], ◌∷◌, ◌++◌, ◌≡◌,
  inl, inr, arith,
}
use esp_v.PathMatcher.TemplateParser.{
  Parser, Parsed, ok, fail, out_of_fuel, ◌>>=◌, add_field_identifier, next_char, current_char,
  ensure_current, consume,
}
use esp_v.PathMatcher.HttpTemplate.{
  identifier_loop, parse_identifier, literal_loop, parse_literal, parse_literal_segment,
  field_path_loop, parse_field_path, parse_verb,
}

-- The result is a value of which `P` holds, or the `false` of the source.
abbrev pub Ends {ℓ} : {A : Type ℓ} → (A → Type 0) → Parsed A → Type 0
Ends P (ok a) = P a
Ends P fail = Unit
Ends P out_of_fuel = ⊥

pub >>=-Ends {ℓ κ} :
    {A : Type ℓ} {B : Type κ} (Between : A → Type 0) (AtEnd : B → Type 0) (first : Parsed A)
    (next : A → Parsed B)
    → Ends Between first
    → ((result : A) → Between result → Ends AtEnd (next result))
    → Ends AtEnd (first >>= next)
>>=-Ends Between AtEnd fail next ends go = tt
>>=-Ends Between AtEnd out_of_fuel next ends go = ends
>>=-Ends Between AtEnd (ok result) next ends go = go result ends

module _ (input : Str) where
  -- The two indexes: at most one character is looked at and not consumed.
  pub record IsCursor (s : Parser) : Type 0 where
    pub order : s.tb ≤ s.te
    pub near : s.te ≤ s.tb + 1
    pub inside : s.te ≤ length input

  -- A valid cursor at or behind `n`.
  abbrev pub Reaches : ℕ → Parser → Type 0
  Reaches n s = IsCursor s × (n ≤ s.tb)

  pub ensure_current-IsCursor :
      (s : Parser)
      → IsCursor s
      → IsCursor (ensure_current input s).0
        × ((ensure_current input s).0.tb ≡ s.tb)
        × ((ensure_current input s).1 ≡ true → (ensure_current input s).0.te ≡ s.tb + 1)
  unfolding ensure_current next_char
  ensure_current-IsCursor s h = ground arith

  pub consume-IsCursor :
      (c : ℕ) (s : Parser)
      → IsCursor s
      → IsCursor (consume input c s).0
        × (s.tb ≤ (consume input c s).0.tb)
        × ((consume input c s).1 ≡ true
            → ((consume input c s).0.tb ≡ s.tb + 1) × ((consume input c s).0.te ≡ s.tb + 1))
  unfolding consume ensure_current next_char
  consume-IsCursor c s h = ground arith

  pub add_field_identifier-Ends :
      (n : ℕ) (id : Str) (s : Parser) → Reaches n s → Ends (Reaches n) (add_field_identifier id s)
  unfolding add_field_identifier
  add_field_identifier-Ends n id s h = ground arith

  -- The character that is looked at is consumed.
  pub consume-current_char :
      (s : Parser)
      → s.tb < s.te
      → consume input (current_char input s) s ≡ (record s { tb = s.tb + 1 }, true)
  unfolding consume ensure_current
  consume-current_char s h = ground arith

  pub identifier_loop-Ends :
      (n f : ℕ) (idf : Str) (result : Bool) (s : Parser)
      → IsCursor s
      → s.te ≡ s.tb
      → n ≤ s.tb
      → length input < f + s.te
      → Ends (Reaches n) (identifier_loop input f idf result s)
  unfolding identifier_loop next_char
  identifier_loop-Ends n zero idf result s h same lo m = absurd (omega arith)
  identifier_loop-Ends n (suc f) idf result s h same lo m =
      let s' : Parser = record s { te = s.te + 1 } in
      let s'' : Parser = record s { tb = s.tb + 1; te = s.te + 1 } in
      let c = current_char input s' in
      elim (Bool-cases (ltb s.te (length input))) [
        | inl moved ↦ ground (
          arith,
          moved,
          consume-current_char s',
          add_field_identifier-Ends n idf s',
          identifier_loop-Ends n f (idf ++ c ∷ []) true s'',
        )
        | inr stuck ↦ ground (arith, stuck, add_field_identifier-Ends n idf s)
      ]

  pub parse_identifier-Ends :
      (n : ℕ) (s : Parser)
      → IsCursor s
      → s.te ≡ s.tb
      → n ≤ s.tb
      → Ends (Reaches n) (parse_identifier input s)
  unfolding parse_identifier
  parse_identifier-Ends n s h same lo =
      identifier_loop-Ends n (length input + 1) [] false s h same lo (omega arith)

  -- A literal and the parser behind it.
  abbrev pub ReachesWith : ℕ → Str × Parser → Type 0
  ReachesWith n (_, s) = Reaches n s

  pub literal_loop-Ends :
      (n f : ℕ) (lit : Str) (result : Bool) (s : Parser)
      → IsCursor s
      → s.te ≡ s.tb + 1
      → n ≤ s.tb
      → length input < f + s.tb
      → Ends (ReachesWith n) (literal_loop input f lit result s)
  unfolding literal_loop next_char
  literal_loop-Ends n zero lit result s h same lo m = absurd (omega arith)
  literal_loop-Ends n (suc f) lit result s h same lo m =
      let c = current_char input s in
      let s' : Parser = record s { tb = s.tb + 1 } in
      let s'' : Parser = record s { tb = s.tb + 1; te = s.te + 1 } in
      ground (arith, consume-current_char s, literal_loop-Ends n f (lit ++ c ∷ []) true s'')

  pub parse_literal-Ends :
      (n : ℕ) (s : Parser) → Reaches n s → Ends (ReachesWith n) (parse_literal input s)
  unfolding parse_literal
  parse_literal-Ends n s h = ground (
    arith,
    ensure_current-IsCursor s h.0,
    literal_loop-Ends n (length input + 1) [] false (ensure_current input s).0,
  )

  pub parse_literal_segment-Ends :
      (n : ℕ) (s : Parser) → Reaches n s → Ends (Reaches n) (parse_literal_segment input s)
  unfolding parse_literal_segment
  parse_literal_segment-Ends n s h =
      >>=-Ends (ReachesWith n) (Reaches n) (parse_literal input s) _ (parse_literal-Ends n s h)
        λ (ls, s') r. ground arith

  pub field_path_loop-Ends :
      (n f : ℕ) (s : Parser)
      → Reaches n s
      → length input < f + s.tb
      → Ends (Reaches n) (field_path_loop input f s)
  unfolding field_path_loop
  field_path_loop-Ends n zero s h m = absurd (omega arith)
  field_path_loop-Ends n (suc f) s h m = elim (Bool-cases (consume input b'.' s).1) [
    | inl dot ↦
        let s' = (consume input b'.' s).0 in
        let known = consume-IsCursor b'.' s h.0 in
        rw dot (
          >>=-Ends (Reaches (s.tb + 1)) (Reaches n) _ _
            (parse_identifier-Ends (s.tb + 1) s' known.0 (omega (arith, known.2 dot))
              (omega (arith, known.2 dot)))
            λ s'' r. field_path_loop-Ends n f s'' (r.0, omega arith) (omega arith))
    | inr other ↦ let known = consume-IsCursor b'.' s h.0 in rw other (known.0, omega arith)
  ]

  pub parse_field_path-Ends :
      (n : ℕ) (s : Parser)
      → IsCursor s
      → s.te ≡ s.tb
      → n ≤ s.tb
      → Ends (Reaches n) (parse_field_path input s)
  unfolding parse_field_path
  parse_field_path-Ends n s h same lo =
      >>=-Ends (Reaches n) (Reaches n) _ _ (parse_identifier-Ends n s h same lo)
        λ s' r. field_path_loop-Ends n (length input + 1) s' r (omega arith)

  pub parse_verb-Ends : (n : ℕ) (s : Parser) → Reaches n s → Ends (Reaches n) (parse_verb input s)
  unfolding parse_verb
  parse_verb-Ends n s h = elim (Bool-cases (consume input b':' s).1) [
    | inl colon ↦
        let known = consume-IsCursor b':' s h.0 in
        rw colon (
          >>=-Ends (ReachesWith n) (Reaches n) _ _
            (parse_literal-Ends n (consume input b':' s).0 (known.0, omega arith))
            λ (lit, s') r. ground arith)
    | inr other ↦ rw other tt
  ]
