-- ===== src/Base/Maps.antt =====
-- `std::map` and `std::unordered_map` with string keys, as association lists. The program only
-- finds and inserts, so the order of the entries is not observed.
use mathlib.Core.Path.{◌≡◌, refl}
use mathlib.Core.Logic.{inl, inr}
use mathlib.Core.Bool.{false}
use mathlib.Core.List.{List, [], ◌∷◌, ◌++◌}
use mathlib.Core.Option.{Option, none, some}
use native.Mathlib.Omega.{arith}
use esp_v.Base.Tests.{Str, str_eq, str_eq_iff, str_eq_refl, is_some, Bool-cases, if◌then◌else◌}

module _ {ℓ} {V : Type ℓ} where
  unfoldable pub lookup : Str → List (Str × V) → Option V
  lookup k [] = none
  lookup k ((j, v) ∷ m) = if str_eq j k then some v else lookup k m

  -- Replaces the value of a key, or adds the key.
  unfoldable pub insert : Str → V → List (Str × V) → List (Str × V)
  insert k v [] = (k, v) ∷ []
  insert k v ((j, w) ∷ m) = if str_eq j k then (k, v) ∷ m else (j, w) ∷ insert k v m

  pub lookup-insert :
      (put asked : Str) (value : V) (entries : List (Str × V))
      → lookup asked (insert put value entries)
        ≡ (if str_eq put asked then some value else lookup asked entries)
  unfolding lookup insert
  lookup-insert put asked value [] = refl
  lookup-insert put asked value ((first, _) ∷ entries) = ground (
    arith,
    str_eq_iff first put,
    str_eq_iff first asked,
    str_eq_iff put asked,
    lookup-insert put asked value entries,
  )

  -- `insert` and `emplace` of the standard maps: a key that is there keeps its value.
  unfoldable pub insert_new : Str → V → List (Str × V) → List (Str × V)
  insert_new key value entries =
      if is_some (lookup key entries) then entries else entries ++ (key, value) ∷ []

  lookup-append :
      (key : Str) (entries added : List (Str × V))
      → lookup key (entries ++ added)
        ≡ (if is_some (lookup key entries) then lookup key entries else lookup key added)
  unfolding lookup
  lookup-append key [] added = refl
  lookup-append key ((first, value) ∷ entries) added = elim (Bool-cases (str_eq first key)) [
    | inl t ↦ rw t refl
    | inr f ↦ rw f (lookup-append key entries added)
  ]

  pub lookup-insert_new :
      (put asked : Str) (value : V) (entries : List (Str × V)) {found : V}
      → lookup asked entries ≡ some found
      → lookup asked (insert_new put value entries) ≡ some found
  unfolding insert_new
  lookup-insert_new put asked value entries {found} e =
      elim (Bool-cases (is_some (lookup put entries))) [
        | inl t ↦ rw t e
        | inr f ↦ rw (f, lookup-append asked entries ((put, value) ∷ []), e) refl
      ]

  -- The value of a key that was not there.
  pub lookup-insert_new_self :
      (key : Str) (value : V) (entries : List (Str × V))
      → is_some (lookup key entries) ≡ false
      → lookup key (insert_new key value entries) ≡ some value
  unfolding insert_new lookup
  lookup-insert_new_self key value entries fresh =
      rw (fresh, lookup-append key entries ((key, value) ∷ []), fresh, str_eq_refl key) refl
