-- ===== src/PathMatcher/RequestPath/Tests.antt =====
-- Runs of the percent decoding.
use esp_v.Base.{codes, true, [], ◌∷◌, ◌≡◌, arith}
use esp_v.PathMatcher.RequestPath.Bindings.{url_unescape_string, unescape_loop}
use esp_v.PathMatcher.RequestPath.Laws.{
  percent_encode, url_unescape_string-percent_encode, url_unescape_string-unescape_loop,
}

url_unescape_string-percent_encode_example :
    url_unescape_string (percent_encode (47 ∷ 255 ∷ [])) true ≡ 47 ∷ 255 ∷ []
url_unescape_string-percent_encode_example =
    url_unescape_string-percent_encode (47 ∷ 255 ∷ []) (omega arith, (omega arith, tt))

url_unescape_string-unescape_loop_example :
    url_unescape_string (codes "a%2Fb") true ≡ unescape_loop true (codes "a%2Fb")
url_unescape_string-unescape_loop_example = url_unescape_string-unescape_loop (codes "a%2Fb") true
