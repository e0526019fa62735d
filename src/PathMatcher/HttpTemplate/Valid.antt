-- ===== src/PathMatcher/HttpTemplate/Valid.antt =====
-- `ValidateParts` of src/api_proxy/path_matcher/http_template.cc and the templates it lets pass.
use esp_v.Base.{Str, Bool, true, false, List, [], ◌∷◌, ◌++◌, ◌≡◌, inl, inr, arith}
use esp_v.PathMatcher.Node.Matching.{
  is_wildcard_path_key, is_parameter_key, IsValidPath, IsValidPath-weaken,
}
use esp_v.PathMatcher.TemplateParser.{HttpTemplate, ok}
use esp_v.PathMatcher.HttpTemplate.{parse, validate_parts, parse-eq-ok}

validate_parts-IsValidPath :
    (w : Bool) (segs : List Str) → validate_parts w segs ≡ true → IsValidPath w segs
unfolding validate_parts is_wildcard_path_key is_parameter_key
validate_parts-IsValidPath w [] h = tt
validate_parts-IsValidPath false (s ∷ segs) h =
    validate_parts-IsValidPath (is_wildcard_path_key s) segs h
validate_parts-IsValidPath true (s ∷ segs) h =
    (ground arith, validate_parts-IsValidPath true segs (ground arith))

pub IsValidPath-append :
    (w : Bool) (t : List Str) (s : Str)
    → IsValidPath w t
    → is_parameter_key s ≡ false
    → IsValidPath w (t ++ s ∷ [])
IsValidPath-append true [] s h p = (p, tt)
IsValidPath-append false [] s h p = IsValidPath-weaken (is_wildcard_path_key s) [] tt
IsValidPath-append true (r ∷ t) s h p = (h.0, IsValidPath-append true t s h.1 p)
IsValidPath-append false (r ∷ t) s h p = IsValidPath-append (is_wildcard_path_key r) t s h p

-- In a parsed template only constant segments follow `**`.
pub parse-IsValidPath :
    (ht : Str) (t : HttpTemplate) → parse ht ≡ ok t → IsValidPath false t.segments
parse-IsValidPath ht t e = elim (parse-eq-ok ht t e) [
  | inl root ↦ rw root tt
  | inr (s, _, valid, same) ↦ rw same (validate_parts-IsValidPath false s.segments valid)
]
