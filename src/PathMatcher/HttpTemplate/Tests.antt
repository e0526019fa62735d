-- ===== src/PathMatcher/HttpTemplate/Tests.antt =====
-- Runs of the parser, after src/api_proxy/path_matcher/http_template_test.cc.
use esp_v.Base.{codes, [], ◌∷◌, ◌≡◌, refl, negsuc, true, false, ◌⊎◌}
use esp_v.PathMatcher.Node.Matching.{IsValidPath}
use esp_v.PathMatcher.HttpTemplate.Total.{parse-total}
use esp_v.PathMatcher.HttpTemplate.Valid.{parse-IsValidPath}
use esp_v.PathMatcher.TemplateParser.{ok, fail, HttpTemplate}
use esp_v.PathMatcher.HttpTemplate.{parse, running}

parse_variable_test :
    parse (codes "/a/{b.c=*/d/**}/e:v")
    ≡ ok (record {
      segments = codes "a" ∷ codes "*" ∷ codes "d" ∷ codes "**" ∷ codes "e" ∷ [];
      verb = codes "v";
      variables =
          record {
            start_segment = 1;
            end_segment = negsuc 2;
            field_path = codes "b" ∷ codes "c" ∷ [];
            has_wildcard_path = true;
          }
          ∷ [];
    })
unfolding running
parse_variable_test = refl

parse_failures :
    (parse (codes "a") ≡ fail)
    × (parse (codes "/{a={b}}") ≡ fail)
    × (parse (codes "/**/*") ≡ fail)
    × (parse (codes "//") ≡ fail)
    × (parse (codes "/a:") ≡ fail)
unfolding running
parse_failures = (refl, refl, refl, refl, refl)

parse-total_example :
    (parse (codes "/a/{b=") ≡ fail) ⊎ ((t : HttpTemplate) × (parse (codes "/a/{b=") ≡ ok t))
parse-total_example = parse-total (codes "/a/{b=")

abbrev tail_template : HttpTemplate
tail_template = record {
  segments = codes "a" ∷ codes "**" ∷ codes "e" ∷ [];
  verb = codes "v";
  variables = [];
}

tail_template-parse : parse (codes "/a/**/e:v") ≡ ok tail_template
unfolding running
tail_template-parse = refl

parse-IsValidPath_example : IsValidPath false tail_template.segments
parse-IsValidPath_example = parse-IsValidPath (codes "/a/**/e:v") tail_template tail_template-parse
