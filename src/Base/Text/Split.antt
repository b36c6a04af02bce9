-- ===== src/Base/Text/Split.antt =====
-- `strings.Split` with a separator that is not empty.
use Prim.Native.Nat.{ℕ, zero, suc, ◌-◌}
use Prim.Native.Char.{Char, code}
use Prim.Native.String.{String, ◌++◌ as ◌<>◌}
use mathlib.Core.Path.{◌≡◌, refl}
use mathlib.Core.Bool.{true, false}
use mathlib.Core.List.{List, [], ◌∷◌}
use native.Mathlib.Omega.{arith}
use text.Mathlib.TextLemmas.{nil-append, cons-append}
use live_migration_operator.Base.Tests.{eqb}
use live_migration_operator.Base.Text.Find.{begins}

abbrev pub size : String → ℕ
size String.[] = 0
size (String.◌∷◌ c s) = suc (size s)

-- The character goes in front of the first part.
abbrev add_first : Char → List String → List String
add_first c [] = String.◌∷◌ c "" ∷ []
add_first c (p ∷ ps) = String.◌∷◌ c p ∷ ps

-- The number is how many characters of a separator are still to be passed over.
split_from : String → ℕ → String → List String
split_from sep k String.[] = "" ∷ []
split_from sep (suc k) (String.◌∷◌ c s) = split_from sep k s
split_from sep zero (String.◌∷◌ c s) = elim (begins sep (String.◌∷◌ c s)) [
  | true ↦ "" ∷ split_from sep (size sep - 1) s
  | false ↦ add_first c (split_from sep zero s)
]

unfoldable pub split : String → String → List String
unfolding split_from begins
split s sep = split_from sep 0 s

-- No character of the text has this code.
abbrev pub Lacks : ℕ → String → Type 0
Lacks b String.[] = Unit
Lacks b (String.◌∷◌ c s) = (eqb (code c) b ≡ false) × Lacks b s

eqb_comm : (a b : ℕ) → eqb a b ≡ eqb b a
eqb_comm a b = ground arith

eqb_refl : (a : ℕ) → eqb a a ≡ true
eqb_refl a = ground arith

pub begins-append : (t s : String) → begins t (t <> s) ≡ true
unfolding begins
begins-append String.[] s = refl
begins-append (String.◌∷◌ c t) s = rw (cons-append, eqb_refl) (begins-append t s)

module _ (d : Char) (t : String) where
  abbrev sep : String
  sep = String.◌∷◌ d t

  split_from-skip : (u s : String) → split_from sep (size u) (u <> s) ≡ split_from sep 0 s
  unfolding split_from
  split_from-skip String.[] s = rw nil-append
  split_from-skip (String.◌∷◌ c u) s = rw cons-append (split_from-skip u s)

  begins-sep : (s : String) → begins sep (String.◌∷◌ d (t <> s)) ≡ true
  unfolding begins
  begins-sep s = rw eqb_refl (begins-append t s)

  begins_ne :
      (c : Char) (s : String) → eqb (code c) (code d) ≡ false → begins sep (String.◌∷◌ c s) ≡ false
  unfolding begins
  begins_ne c s h = rw (eqb_comm (code d) (code c), h)

  -- The text in front of a separator is a part, if it lacks the separator's first character.
  split_from-append :
      (p s : String)
      → Lacks (code d) p
      → split_from sep 0 (p <> (sep <> s)) ≡ p ∷ split_from sep 0 s
  unfolding split_from
  split_from-append String.[] s h =
      let e : size sep - 1 ≡ size t = omega arith in
      rw (nil-append, cons-append d t s, begins-sep s, split_from) (rw (e, split_from-skip t s))
  split_from-append (String.◌∷◌ c p) s h =
      rw (cons-append c p (sep <> s), begins_ne c (p <> (sep <> s)) h.0, split_from)
        (rw (split_from-append p s h.1))

  split_from_whole : (p : String) → Lacks (code d) p → split_from sep 0 p ≡ p ∷ []
  unfolding split_from
  split_from_whole String.[] h = refl
  split_from_whole (String.◌∷◌ c p) h =
      rw (begins_ne c p h.0, split_from) (rw (split_from_whole p h.1))

  pub split-append :
      (p s : String) → Lacks (code d) p → split (p <> (sep <> s)) sep ≡ p ∷ split s sep
  unfolding split
  split-append = split_from-append

  pub split_whole : (p : String) → Lacks (code d) p → split p sep ≡ p ∷ []
  unfolding split
  split_whole = split_from_whole
