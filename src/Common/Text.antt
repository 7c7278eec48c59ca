-- ===== src/Common/Text.antt =====
-- Go maps keyed by strings, as association lists in iteration order.
use Prim.Native.String.{String}
use mathlib.Core.Path.{◌≡◌, refl}
use mathlib.Core.Bool.{Bool, true}
use mathlib.Core.Option.{Option, none, some}
use mathlib.Core.List.{List, [], ◌∷◌}
use native.Mathlib.Omega.{arith}
use text.Mathlib.Text.{◌==◌ as str_eq}
use text.Mathlib.TextEquality.{eq_iff}
use bucks.Common.Tests.{if◌then◌else◌}

-- `a == b` on strings.
abbrev pub same : String → String → Bool
same = str_eq

pub same_iff : (a b : String) → (same a b ≡ true → a ≡ b) × (a ≡ b → same a b ≡ true)
same_iff a b = eq_iff a b

module _ {ℓ} {V : Type ℓ} where
  -- `v, ok := m[key]`
  unfoldable pub lookup : (key : String) → List (String × V) → Option V
  lookup key [] = none
  lookup key ((name, value) ∷ rest) = if same name key then some value else lookup key rest

  -- `m[key] = value`
  unfoldable pub insert : (key : String) → V → List (String × V) → List (String × V)
  insert key value [] = (key, value) ∷ []
  insert key value ((name, old) ∷ rest) =
      let changed = insert key value rest in
      if same name key then (key, value) ∷ rest else (name, old) ∷ changed

  -- `delete(m, key)`
  unfoldable pub erase : (key : String) → List (String × V) → List (String × V)
  erase key [] = []
  erase key ((name, value) ∷ rest) =
      let kept = erase key rest in if same name key then kept else (name, value) ∷ kept

  pub lookup-insert :
      (key asked : String) (value : V) (entries : List (String × V))
      → lookup asked (insert key value entries)
        ≡ (if same key asked then some value else lookup asked entries)
  unfolding lookup insert
  lookup-insert key asked value [] = refl
  lookup-insert key asked value ((name, old) ∷ rest) =
      let found = lookup-insert key asked value rest in
      ground (arith, found, eq_iff name asked, eq_iff name key, eq_iff key asked)

  pub lookup-erase :
      (key asked : String) (entries : List (String × V))
      → lookup asked (erase key entries) ≡ (if same key asked then none else lookup asked entries)
  unfolding lookup erase
  lookup-erase key asked [] = ground (arith, eq_iff key asked)
  lookup-erase key asked ((name, value) ∷ rest) =
      let found = lookup-erase key asked rest in
      ground (arith, found, eq_iff name asked, eq_iff name key, eq_iff key asked)
