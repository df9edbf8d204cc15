-- ===== src/Prelude/Buffers.antt =====
-- Byte arrays and JavaScript strings: a `Uint8Array` is the list of its bytes, a string the list
-- of its UTF-16 code units.
use Prim.Native.Nat.{ℕ, ◌+◌, ◌<◌}
use mathlib.Core.Path.{◌≡◌, refl}
use mathlib.Core.Bool.{Bool, true, false, ◌&&◌}
use mathlib.Core.Logic.{◌↔◌}
use mathlib.Core.List.{List, [], ◌∷◌, map}
use native.Mathlib.Omega.{arith}
use bam.Prelude.Tests.{leb, ltb, ◌==◌, if◌then◌else◌}

abbrev pub Bytes : Type 0
Bytes = List ℕ

abbrev pub Text : Type 0
Text = List ℕ

abbrev pub IsByte : ℕ → Type 0
IsByte b = b < 256

-- Equality of strings, and of byte arrays element by element.
infix 50 ◌===◌
unfoldable pub ◌===◌ : List ℕ → List ℕ → Bool
[] === [] = true
[] === (y ∷ ys) = false
(x ∷ xs) === [] = false
(x ∷ xs) === (y ∷ ys) = (x == y) && (xs === ys)

pub ===_iff : (xs ys : List ℕ) → ((xs === ys) ≡ true) ↔ (xs ≡ ys)
unfolding ◌===◌
===_iff [] [] = (λ h. refl, λ h. refl)
===_iff [] (y ∷ ys) = (λ h. cc, λ h. cc)
===_iff (x ∷ xs) [] = (λ h. cc, λ h. cc)
===_iff (x ∷ xs) (y ∷ ys) = ground (arith, ===_iff xs ys)

pub ===_refl : (xs : List ℕ) → (xs === xs) ≡ true
===_refl xs = (===_iff xs xs).1 refl

pub ===_sym_false : (xs ys : List ℕ) → (ys === xs) ≡ false → (xs === ys) ≡ false
===_sym_false xs ys h = ground (arith, ===_iff xs ys, ===_iff ys xs)

-- `a < b` on strings.
unfoldable pub text_ltb : List ℕ → List ℕ → Bool
text_ltb xs [] = false
text_ltb [] (y ∷ ys) = true
text_ltb (x ∷ xs) (y ∷ ys) =
    let rest = text_ltb xs ys in if ltb x y then true else if ltb y x then false else rest

-- `toLowerCase` on one ASCII code unit and on a string of such.
unfoldable pub lower_unit : ℕ → ℕ
lower_unit c = if leb 65 c && leb c 90 then c + 32 else c

unfoldable pub to_lower_case : Text → Text
to_lower_case = map lower_unit
