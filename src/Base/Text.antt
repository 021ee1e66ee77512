-- ===== src/Base/Text.antt =====
-- Text as Go's `strings` package treats it: code points, lower case and white space.
use Prim.Native.Nat.{ℕ, ◌+◌}
use Prim.Native.Char.{code}
use Prim.Native.String.{String, ◌++◌}
use mathlib.Core.Path.{◌≡◌, refl}
use mathlib.Core.Bool.{Bool, true, false, ◌&&◌}
use mathlib.Core.List.{List, [], ◌∷◌, map}
use mathlib.Core.Path.{ap}
use mathlib.Core.Logic.{inl, inr}
use native.Mathlib.Omega.{arith}
use text.Mathlib.Text.{◌==◌ as str_eq, starts_with}
use text.Mathlib.TextEquality.{eq_iff}
use text.Mathlib.TextPositions.{starts_with-append}
use photon_container.Base.Tests.{Bool-cases, leb, ◌==◌, if◌then◌else◌}

-- The code points of a text.
abbrev pub codes : String → List ℕ
codes String.[] = []
codes (String.◌∷◌ c s) = code c ∷ codes s

abbrev pub codes_eq : List ℕ → List ℕ → Bool
codes_eq [] [] = true
codes_eq (a ∷ s) (b ∷ t) = a == b && codes_eq s t
codes_eq _ _ = false

-- `unicode.ToLower` as far as it reaches ASCII letters: A to Z, and the Kelvin sign, whose lower
-- case is `k`. No other code point is lowered to an ASCII letter that `ok` holds.
abbrev pub to_lower : ℕ → ℕ
to_lower c = if leb 65 c && leb c 90 then c + 32 else if c == 0x212A then 107 else c

-- `strings.ToLower(s) == t`, for a `t` of the letters o and k.
unfoldable pub lower_eq : String → String → Bool
lower_eq s t = codes_eq (map to_lower (codes s)) (codes t)

lower_eq_test : lower_eq "Ok" "ok" ≡ true
unfolding lower_eq
lower_eq_test = refl

abbrev ends_with : ℕ → List ℕ → Bool
ends_with c [] = false
ends_with c (a ∷ []) = a == c
ends_with c (a ∷ b ∷ s) = ends_with c (b ∷ s)

-- `if !strings.HasSuffix(url, "/") { url += "/" }`
unfoldable pub with_slash : String → String
with_slash url = if ends_with 47 (codes url) then url else url ++ "/"

with_slash_test : (with_slash "http://a" ≡ "http://a/") × (with_slash "http://a/" ≡ "http://a/")
unfolding with_slash
with_slash_test = (refl, refl)

-- A text that does not begin with a prefix is none that begins with it.
pub str_eq-append : (p s n : String) → starts_with n p ≡ false → str_eq (p ++ s) n ≡ false
str_eq-append p s n h = elim (Bool-cases (str_eq (p ++ s) n)) [
  | inl e ↦
      ground (arith, h, ap (λ t. starts_with t p) ((eq_iff (p ++ s) n).0 e), starts_with-append p s)
  | inr e ↦ e
]

pub str_eq-append_right : (n p s : String) → starts_with n p ≡ false → str_eq n (p ++ s) ≡ false
str_eq-append_right n p s h = elim (Bool-cases (str_eq n (p ++ s))) [
  | inl e ↦
      ground (arith, h, ap (λ t. starts_with t p) ((eq_iff n (p ++ s)).0 e), starts_with-append p s)
  | inr e ↦ e
]

pub codes_eq_sound : (a b : List ℕ) → codes_eq a b ≡ true → a ≡ b
codes_eq_sound [] [] h = refl
codes_eq_sound [] (b ∷ t) h = ground (arith, h)
codes_eq_sound (a ∷ s) [] h = ground (arith, h)
codes_eq_sound (a ∷ s) (b ∷ t) h = ground (arith, h, codes_eq_sound s t)

pub codes_eq_refl : (a : List ℕ) → codes_eq a a ≡ true
codes_eq_refl [] = refl
codes_eq_refl (a ∷ s) = ground (arith, codes_eq_refl s)
