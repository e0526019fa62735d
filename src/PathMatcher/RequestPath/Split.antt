-- ===== src/PathMatcher/RequestPath/Split.antt =====
-- `ExtractRequestParts` of src/api_proxy/path_matcher/path_matcher.cc.
use esp_v.Base.{
  ℕ, zero, suc, Str, str_eq, is_empty, ltb, ◌==◌, if◌then◌else◌, All, Bool, false, ◌&&◌, ◌||◌,
  Option, none, some, List, [], ◌∷◌, ◌++◌, ◌≡◌, ◌≢◌,
}

-- `path.substr(0, path.find_first_of(c))`
unfoldable pub before_first : ℕ → Str → Str
before_first c [] = []
before_first c (d ∷ s) = let rest = before_first c s in if d == c then [] else d ∷ rest

abbrev pub suc_option : Option ℕ → Option ℕ
suc_option none = none
suc_option (some i) = some (suc i)

-- `path.find_last_of(c)`; `npos` is `none`.
unfoldable pub find_last_of : ℕ → Str → Option ℕ
find_last_of c [] = none
find_last_of c (d ∷ s) = elim (find_last_of c s) [
  | some i ↦ some (suc i)
  | none ↦ if d == c then some 0 else none
]

-- `path.substr(i)`
abbrev pub substr_from : ℕ → Str → Str
substr_from zero s = s
substr_from (suc i) [] = []
substr_from (suc i) (c ∷ s) = substr_from i s

-- `path[i] = c`
abbrev pub set_char : ℕ → ℕ → Str → Str
set_char i c [] = []
set_char zero c (d ∷ s) = c ∷ s
set_char (suc i) c (d ∷ s) = d ∷ set_char i c s

-- `custom_verbs.find(verb) != custom_verbs.end()`
unfoldable pub contains : List Str → Str → Bool
contains [] verb = false
contains (v ∷ verbs) verb = str_eq v verb || contains verbs verb

-- `last_colon_pos > last_slash_pos`, where `npos` is the largest number.
abbrev pub is_behind : ℕ → Option ℕ → Bool
is_behind colon none = false
is_behind colon (some slash) = ltb slash colon

-- The replacement of the last `:` of a configured custom verb.
unfoldable pub split_custom_verb : List Str → Str → Str
split_custom_verb custom_verbs path = elim (find_last_of b':' path) [
  | none ↦ path
  | some colon ↦
      if is_behind colon (find_last_of b'/' path)
        && contains custom_verbs (substr_from (suc colon) path)
      then set_char colon b'/' path
      else path
]

-- The loop that pops empty parts off the end.
unfoldable pub trim_empty_parts : List Str → List Str
trim_empty_parts [] = []
trim_empty_parts (part ∷ parts) =
    let rest = trim_empty_parts parts in if is_empty part && is_empty rest then [] else part ∷ rest

-- The parts, joined again.
unfoldable pub join : ℕ → List Str → Str
join c [] = []
join c (part ∷ []) = part
join c (part ∷ next ∷ parts) = part ++ c ∷ join c (next ∷ parts)

-- What the code relies on of `absl::StrSplit(text, delimiter)`.
pub record StrSplit : Type 0 where
  pub split : Str → ℕ → List Str
  -- The parts are the text between the delimiters.
  pub join-split : (s : Str) (c : ℕ) → join c (split s c) ≡ s
  pub split-free : (s : Str) (c : ℕ) → All (λ part. All (λ d. d ≢ c) part) (split s c)

module _ (absl : StrSplit) where
  -- `ExtractRequestParts`
  unfoldable pub extract_request_parts : List Str → Str → List Str
  extract_request_parts custom_verbs path =
      let p = split_custom_verb custom_verbs (before_first b'?' path) in
      if is_empty p then [] else trim_empty_parts (absl.split (substr_from 1 p) b'/')
