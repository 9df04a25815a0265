-- ===== src/Prelude/Dict.antt =====
-- Go's maps with string keys, as association lists with at most one entry a key.
use Prim.Native.String.{String}
use mathlib.Core.Path.{◌≡◌, refl}
use mathlib.Core.Option.{Option, none, some}
use mathlib.Core.List.{List, [], ◌∷◌, map}
use native.Mathlib.Omega.{arith}
use text.Mathlib.Text.{◌==◌}
use text.Mathlib.TextEquality.{eq_iff}
use omps_admin_plugin_accoun.Prelude.Tests.{if◌then◌else◌}

abbrev pub Dict {ℓ} : Type ℓ → Type ℓ
Dict V = List (String × V)

module _ {ℓ} {V : Type ℓ} where
  -- `v, ok := m[k]`
  unfoldable pub lookup : String → Dict V → Option V
  lookup key [] = none
  lookup key (entry ∷ others) =
      let later = lookup key others in if entry.0 == key then some entry.1 else later

  -- `m[k] = v`
  unfoldable pub insert : String → V → Dict V → Dict V
  insert key value [] = (key, value) ∷ []
  insert key value (entry ∷ others) =
      let kept = entry ∷ insert key value others in
      if entry.0 == key then (key, value) ∷ others else kept

  -- `delete(m, k)`
  unfoldable pub erase : String → Dict V → Dict V
  erase key [] = []
  erase key (entry ∷ others) =
      let rest = erase key others in if entry.0 == key then rest else entry ∷ rest

  -- `m[k]`, with the zero value for a missing key
  unfoldable pub get_or : V → String → Dict V → V
  unfolding lookup
  get_or d k m = elim (lookup k m) [ none ↦ d | some v ↦ v ]

  abbrev pub values : Dict V → List V
  values = map (λ (_, v). v)

  pub lookup-insert :
      (key asked : String) (value : V) (dict : Dict V)
      → lookup asked (insert key value dict)
        ≡ (if key == asked then some value else lookup asked dict)
  unfolding lookup insert
  lookup-insert key asked value [] = refl
  lookup-insert key asked value (entry ∷ others) =
      let later = lookup-insert key asked value others in
      ground (arith, later, eq_iff entry.0 key, eq_iff entry.0 asked, eq_iff key asked)

  pub lookup-insert_same :
      (key : String) (value : V) (dict : Dict V) → lookup key (insert key value dict) ≡ some value
  lookup-insert_same key value dict =
      let law = lookup-insert key key value dict in ground (arith, law, eq_iff key key)

  pub lookup-erase :
      (key asked : String) (dict : Dict V)
      → lookup asked (erase key dict) ≡ (if key == asked then none else lookup asked dict)
  unfolding lookup erase
  lookup-erase key asked [] = ground arith
  lookup-erase key asked (entry ∷ others) =
      let later = lookup-erase key asked others in
      ground (arith, later, eq_iff entry.0 key, eq_iff entry.0 asked, eq_iff key asked)

pub ruleset dict_laws = (lookup-insert, lookup-erase)
