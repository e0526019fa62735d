-- ===== src/PathMatcher/RequestPath/Laws.antt =====
-- Percent decoding against percent encoding, and the query of a request path. The code is
-- `UrlUnescapeString` and `ExtractRequestParts` of src/api_proxy/path_matcher/path_matcher.cc.
use esp_v.Base.{
  ℕ, ◌+◌, ◌/◌, ◌%◌, ◌<◌, Str, if◌then◌else◌, ltb, is_some, All, Bool, true, false, ◌||◌, some, List,
  [], ◌∷◌, ◌++◌, ◌≡◌, ◌≢◌, inl, inr, refl, ap, ◌∙◌, arith, Bool-cases, Option-cases,
}
use esp_v.PathMatcher.RequestPath.Split.{StrSplit, before_first, extract_request_parts}
use esp_v.PathMatcher.RequestPath.Bindings.{
  get_escaped_char, needs_unescaping, unescape_loop, url_unescape_string, ascii_isxdigit,
  hex_digit_to_int,
}

∨-false : (a b : Bool) → (a || b) ≡ false → (a ≡ false) × (b ≡ false)
∨-false a b h = ground (arith, h)

none_escaped : (u : Bool) (s : Str) → needs_unescaping u s ≡ false → unescape_loop u s ≡ s
unfolding needs_unescaping unescape_loop
none_escaped u [] e = refl
none_escaped u (c ∷ []) e = refl
none_escaped u (c ∷ a ∷ []) e = refl
none_escaped u (c ∷ a ∷ b ∷ s) e = elim (Option-cases (get_escaped_char u (c ∷ a ∷ b ∷ s))) [
  | inl plain ↦
      let tail : needs_unescaping u (a ∷ b ∷ s) ≡ false =
        (∨-false (is_some (get_escaped_char u (c ∷ a ∷ b ∷ s))) (needs_unescaping u (a ∷ b ∷ s))
          e).1 in
      rw (unescape_loop, plain, none_escaped u (a ∷ b ∷ s) tail) refl
  | inr (ch, escaped) ↦ cc (
    (∨-false (is_some (get_escaped_char u (c ∷ a ∷ b ∷ s))) (needs_unescaping u (a ∷ b ∷ s)) e).0,
    ap is_some escaped,
  )
]

-- The test in front of the loop saves work only: `UrlUnescapeString` answers what the loop writes.
pub url_unescape_string-unescape_loop :
    (part : Str) (u : Bool) → url_unescape_string part u ≡ unescape_loop u part
unfolding url_unescape_string
url_unescape_string-unescape_loop part u = elim (Bool-cases (needs_unescaping u part)) [
  | inl some_escaped ↦ rw some_escaped refl
  | inr plain ↦ rw (plain, none_escaped u part plain) refl
]

-- A hex digit, and the escape of each byte.
unfoldable pub hex_digit : ℕ → ℕ
hex_digit n = if ltb n 10 then b'0' + n else 55 + n

unfoldable pub percent_encode : Str → Str
percent_encode [] = []
percent_encode (c ∷ s) = b'%' ∷ hex_digit (c / 16) ∷ hex_digit (c % 16) ∷ percent_encode s

hex_digit_to_int-hex_digit :
    (n : ℕ) → n < 16 → (hex_digit_to_int (hex_digit n) ≡ n) × (ascii_isxdigit (hex_digit n) ≡ true)
unfolding hex_digit_to_int hex_digit ascii_isxdigit
hex_digit_to_int-hex_digit n h = (ground (arith, h), ground (arith, h))

get_escaped_char-byte :
    (c : ℕ) (s : Str)
    → c < 256
    → get_escaped_char true (b'%' ∷ hex_digit (c / 16) ∷ hex_digit (c % 16) ∷ s) ≡ some c
unfolding get_escaped_char
get_escaped_char-byte c s h =
    let (high, high_is) = hex_digit_to_int-hex_digit (c / 16) (omega arith) in
    let (low, low_is) = hex_digit_to_int-hex_digit (c % 16) (omega arith) in
    rw (high, high_is, low, low_is) (ap some (omega arith))

unescape_loop-percent_encode :
    (s : Str) → All (λ c. c < 256) s → unescape_loop true (percent_encode s) ≡ s
unfolding unescape_loop percent_encode
unescape_loop-percent_encode [] h = refl
unescape_loop-percent_encode (c ∷ s) (h, hs) =
    rw
      (
        percent_encode,
        unescape_loop,
        get_escaped_char-byte c (percent_encode s) h,
        unescape_loop-percent_encode s hs,
      )
      refl

-- Decoding undoes the percent encoding of any bytes, reserved characters included.
pub url_unescape_string-percent_encode :
    (s : Str) → All (λ c. c < 256) s → url_unescape_string (percent_encode s) true ≡ s
url_unescape_string-percent_encode s h =
    url_unescape_string-unescape_loop (percent_encode s) true ∙ unescape_loop-percent_encode s h

before_first-append :
    (c : ℕ) (s t : Str) → All (λ d. d ≢ c) s → before_first c (s ++ c ∷ t) ≡ before_first c s
unfolding before_first
before_first-append c [] t h = ground arith
before_first-append c (d ∷ s) t (h, hs) = rw (before_first-append c s t hs) refl

-- What stands behind the first `?` of a request path does not change its parts.
pub extract_request_parts-query :
    (absl : StrSplit) (custom_verbs : List Str) (path query : Str)
    → All (λ c. c ≢ b'?') path
    → extract_request_parts absl custom_verbs (path ++ b'?' ∷ query)
      ≡ extract_request_parts absl custom_verbs path
unfolding extract_request_parts
extract_request_parts-query absl custom_verbs path query h =
    rw (before_first-append b'?' path query h) refl
