-- ===== src/Prelude/Texts.antt =====
-- Text as a list of UTF-16 code units, and the `trim`, `min` and `max` of the input schemas.
use mathlib.Core.Option.{Option, none, some}
use Prim.Native.Char.{code}
use Prim.Native.String.{String}
use Prim.Native.Nat.{ℕ, ◌≤◌}
use mathlib.Core.Path.{◌≡◌}
use mathlib.Core.Bool.{Bool, true, false, ◌&&◌, ◌||◌}
use mathlib.Core.List.{List, [], ◌∷◌, reverse}
use native.Mathlib.Omega.{arith}
use bash_builder.Prelude.Tests.{◌==◌, leb, if◌then◌else◌}
use bash_builder.Prelude.Lists.{length}
use bash_builder.Prelude.Errors.{Result, ok, err, ◌>>=◌, bad_request}

abbrev pub Text : Type 0
Text = List ℕ

-- The code units of a literal of the source (all are below U+10000).
abbrev pub codes : String → Text
codes String.[] = []
codes (String.◌∷◌ c s) = code c ∷ codes s

abbrev pub text_eq : Text → Text → Bool
text_eq [] [] = true
text_eq [] (y ∷ ys) = false
text_eq (x ∷ xs) [] = false
text_eq (x ∷ xs) (y ∷ ys) = (x == y) && text_eq xs ys

-- WhiteSpace and LineTerminator of ECMAScript, which `trim` removes.
unfoldable pub is_space : ℕ → Bool
is_space c =
    (leb 9 c && leb c 13)
    || (c == 32)
    || (c == 160)
    || (c == 0x1680)
    || (leb 0x2000 c && leb c 0x200a)
    || (c == 0x2028)
    || (c == 0x2029)
    || (c == 0x202f)
    || (c == 0x205f)
    || (c == 0x3000)
    || (c == 0xfeff)

unfoldable pub drop_spaces : Text → Text
unfolding is_space
drop_spaces [] = []
drop_spaces (c ∷ s) = if is_space c then drop_spaces s else c ∷ s

unfoldable pub trim : Text → Text
unfolding drop_spaces
trim s = reverse (drop_spaces (reverse (drop_spaces s)))

-- `z.string().trim().min(minimum).max(maximum)`
unfoldable pub text : ℕ → ℕ → Text → Result Text
unfolding trim
text minimum maximum s =
    let t = trim s in
    if leb minimum (length t) && leb (length t) maximum then ok t else err bad_request

pub text_bounds :
    (minimum maximum : ℕ) (s : Text) {t : Text}
    → text minimum maximum s ≡ ok t
    → (minimum ≤ length t) × (length t ≤ maximum)
unfolding text
text_bounds minimum maximum s h = ground arith

-- `z.string().trim().max(maximum).optional().nullable()`
unfoldable pub optional_text : ℕ → Option Text → Result (Option Text)
unfolding text
optional_text maximum none = ok none
optional_text maximum (some s) = text 0 maximum s >>= λ t. ok (some t)

-- `z.number().int().positive()`
unfoldable pub positive : ℕ → Result ℕ
positive n = if n == 0 then err bad_request else ok n
