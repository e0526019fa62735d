-- ===== src/PathMatcher/Matcher/Tests.antt =====
-- Runs of the path matcher on a small service, with a splitting function of its own.
use esp_v.Base.{
  ℕ, ◌==◌, if◌then◌else◌, Str, codes, All, Bool, true, false, List, [], ◌∷◌, ◌≡◌, ◌≢◌, inl, inr,
  refl, arith, Bool-cases, some, is_some, false, pos, ◌++◌,
}
use esp_v.PathMatcher.Node
use esp_v.PathMatcher.Node.{wildcard_path_part_key}
use esp_v.PathMatcher.Node.Complete.{IsAnswering}
use esp_v.PathMatcher.Node.Matching.{Matches, done, literal, part, is_parameter_key}
use esp_v.PathMatcher.TemplateParser.{HttpTemplate}
use esp_v.PathMatcher.RequestPath.Split
use esp_v.PathMatcher.RequestPath.Split.{StrSplit, join, extract_request_parts}
use esp_v.PathMatcher.RequestPath.Laws.{extract_request_parts-query}
use esp_v.PathMatcher.Matcher.{MethodData, lookup, transform_http_template}
use esp_v.PathMatcher.Matcher
use esp_v.PathMatcher.Matcher.Registered.{Registration, IsRegistered, register_all}
use esp_v.PathMatcher.Matcher.Lookup.{IsSource, matcher, parts, lookup_sound, lookup_complete}

-- The first part of a text, and the others.
unfoldable pub split_first : Str → ℕ → Str × List Str
split_first [] c = ([], [])
split_first (d ∷ s) c =
    let rest = split_first s c in if d == c then ([], rest.0 ∷ rest.1) else (d ∷ rest.0, rest.1)

join-cons : (c d : ℕ) (p : Str) (ps : List Str) → join c ((d ∷ p) ∷ ps) ≡ d ∷ join c (p ∷ ps)
unfolding join
join-cons c d p [] = refl
join-cons c d p (q ∷ ps) = refl

pub join-split_first : (s : Str) (c : ℕ) → join c ((split_first s c).0 ∷ (split_first s c).1) ≡ s
unfolding join split_first
join-split_first [] c = refl
join-split_first (d ∷ s) c =
    ground (arith, join-split_first s c, join-cons c d (split_first s c).0 (split_first s c).1)

pub split_first-free :
    (s : Str) (c : ℕ)
    → All (λ d. d ≢ c) (split_first s c).0 × All (λ part. All (λ d. d ≢ c) part) (split_first s c).1
unfolding split_first
split_first-free [] c = (tt, tt)
split_first-free (d ∷ s) c =
    let (first, others) = split_first-free s c in
    elim (Bool-cases (d == c)) [
      | inl e ↦ rw e (tt, (first, others))
      | inr e ↦ rw e ((ground (arith, e), first), others)
    ]

abbrev pub splitting : StrSplit
splitting = record {
  split = λ s c. (split_first s c).0 ∷ (split_first s c).1;
  join-split = join-split_first;
  split-free = λ s c. ((split_first-free s c).0, (split_first-free s c).1);
}

unfoldable pub running : Unit {0}
unfolding esp_v.PathMatcher.HttpTemplate.running esp_v.Base.str_eq esp_v.Base.lookup
    esp_v.Base.insert esp_v.Base.is_empty esp_v.PathMatcher.Node.find_child
    esp_v.PathMatcher.Node.put_child esp_v.PathMatcher.Node.lookup_or_insert_new
    esp_v.PathMatcher.Node.insert_result esp_v.PathMatcher.Node.insert_template
    esp_v.PathMatcher.Node.find_2_keys_or_null esp_v.PathMatcher.Node.get_result_for_http_method
    esp_v.PathMatcher.Node.lookup_here esp_v.PathMatcher.Node.lookup_path_from_child
    esp_v.PathMatcher.Node.lookup_by_keys esp_v.PathMatcher.Node.lookup_path
    esp_v.PathMatcher.RequestPath.Split.before_first
    esp_v.PathMatcher.RequestPath.Split.find_last_of esp_v.PathMatcher.RequestPath.Split.contains
    esp_v.PathMatcher.RequestPath.Split.split_custom_verb
    esp_v.PathMatcher.RequestPath.Split.trim_empty_parts
    esp_v.PathMatcher.RequestPath.Split.extract_request_parts
    esp_v.PathMatcher.Matcher.transform_http_template esp_v.PathMatcher.Matcher.insert_verb
    esp_v.PathMatcher.Matcher.lookup_in_path_matcher_node
    esp_v.PathMatcher.Matcher.register_template esp_v.PathMatcher.Matcher.register
    esp_v.PathMatcher.Matcher.build esp_v.PathMatcher.Matcher.lookup_method_data
    esp_v.PathMatcher.Matcher.lookup register_all split_first
running = tt

abbrev shelf_api : List (Registration ℕ)
shelf_api =
    record {
      http_method = codes "GET";
      http_template = codes "/shelves/{shelf}";
      body_field_path = [];
      method = 1;
    }
    ∷ record {
      http_method = codes "GET";
      http_template = codes "/shelves/all";
      body_field_path = [];
      method = 2;
    }
    ∷ record {
      http_method = codes "POST";
      http_template = codes "/shelves/{shelf}:clear";
      body_field_path = [];
      method = 3;
    }
    ∷ []

abbrev all_path : Str
all_path = codes "/shelves/all?x=1"

abbrev some_path : Str
some_path = codes "/shelves/7"

all_shelves :
    lookup splitting (matcher splitting shelf_api (codes "GET") all_path) (codes "GET") all_path
    ≡ some 2
unfolding running
all_shelves = refl

lookup_sound_example :
    (t : HttpTemplate) × (k : Str) × (d : MethodData ℕ) × IsSource t k d shelf_api
    × (d.method ≡ 2)
    × IsAnswering (codes "GET") k
    × Matches (transform_http_template t) (parts splitting shelf_api (codes "GET") all_path)
lookup_sound_example = lookup_sound splitting shelf_api (codes "GET") all_path 2 all_shelves

abbrev one_shelf : HttpTemplate
one_shelf = record {
  segments = codes "shelves" ∷ wildcard_path_part_key ∷ [];
  verb = [];
  variables =
      record {
        start_segment = 1;
        end_segment = pos 2;
        field_path = codes "shelf" ∷ [];
        has_wildcard_path = false;
      }
      ∷ [];
}

one_shelf-IsRegistered : IsRegistered shelf_api one_shelf (codes "GET")
unfolding running
one_shelf-IsRegistered = inl (refl, refl)

one_shelf-is_plain : is_parameter_key one_shelf.verb ≡ false
unfolding is_parameter_key running
one_shelf-is_plain = refl

one_shelf-Matches :
    Matches (transform_http_template one_shelf) (parts splitting shelf_api (codes "GET") some_path)
unfolding running
one_shelf-Matches = literal (part done)

lookup_complete_example :
    is_some (
      lookup splitting
        (matcher splitting shelf_api (codes "GET") some_path)
        (codes "GET")
        some_path)
    ≡ true
lookup_complete_example =
    lookup_complete splitting shelf_api (codes "GET") some_path one_shelf (codes "GET")
      one_shelf-IsRegistered one_shelf-is_plain (inl refl) one_shelf-Matches

extract_request_parts-query_example :
    extract_request_parts splitting [] (codes "/a/b" ++ b'?' ∷ codes "c")
    ≡ extract_request_parts splitting [] (codes "/a/b")
extract_request_parts-query_example =
    extract_request_parts-query splitting [] (codes "/a/b") (codes "c")
      (ground arith, (ground arith, (ground arith, (ground arith, tt))))
