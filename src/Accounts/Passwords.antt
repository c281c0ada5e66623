-- ===== src/Accounts/Passwords.antt =====
-- `PasswordService`. The function argon2 of node:crypto, the random salt and the coding base64url of
-- Buffer are parameters. Bytes and characters are numbers.
use bash_builder.Prelude.{
  ℕ, ◌+◌, ◌-◌, ◌*◌, ◌^◌, ◌==◌, leb, ltb, Bool, false, not, ◌&&◌, ◌||◌, Option, none, some, List, [],
  ◌∷◌, ◌++◌, length, is_empty, if◌then◌else◌, Text, codes, text_eq, Result, ok, err, ◌>>=◌,
  or_throw, internal,
}

abbrev pub grow_first_piece : ℕ → List Text → List Text
grow_first_piece c [] = (c ∷ []) ∷ []
grow_first_piece c (piece ∷ pieces) = (c ∷ piece) ∷ pieces

-- `encoded.split('$')`
unfoldable pub split_dollars : Text → List Text
split_dollars [] = [] ∷ []
split_dollars (c ∷ s) =
    let rest = split_dollars s in if c == 36 then [] ∷ rest else grow_first_piece c rest

abbrev is_digit : ℕ → Bool
is_digit c = leb 48 c && leb c 57

-- The digits at the beginning, after those that make `n`.
unfoldable pub take_digits : ℕ → Text → ℕ × Text
take_digits n [] = (n, [])
take_digits n (c ∷ s) =
    let rest = take_digits (n * 10 + (c - 48)) s in if is_digit c then rest else (n, c ∷ s)

-- `\d+`: the number, and what is left.
unfoldable pub take_number : Text → Option (ℕ × Text)
unfolding take_digits
take_number [] = none
take_number (c ∷ s) = if is_digit c then some (take_digits (c - 48) s) else none

unfoldable pub take_literal : Text → Text → Option Text
take_literal [] s = some s
take_literal (l ∷ literal) [] = none
take_literal (l ∷ literal) (c ∷ s) =
    let rest = take_literal literal s in if l == c then rest else none

abbrev pub and_then {ℓ κ} : {A : Type ℓ} {B : Type κ} → Option A → (A → Option B) → Option B
and_then none f = none
and_then (some a) f = f a

-- One parameter: its name and its number.
unfoldable pub take_parameter : Text → Text → Option (ℕ × Text)
unfolding take_literal take_number
take_parameter name s = and_then (take_literal name s) take_number

abbrev at_end : ℕ × ℕ × ℕ → Text → Option (ℕ × ℕ × ℕ)
at_end values [] = some values
at_end values (c ∷ s) = none

-- `/^m=(\d+),t=(\d+),p=(\d+)$/`
unfoldable pub parse_parameters : Text → Option (ℕ × ℕ × ℕ)
unfolding take_parameter
parse_parameters s = and_then (take_parameter (codes "m=") s) (λ m.
    and_then (take_parameter (codes ",t=") m.1)
      (λ t. and_then (take_parameter (codes ",p=") t.1) (λ p. at_end (m.0, t.0, p.0) p.1)))

-- `Number.isSafeInteger` on a number without a sign.
abbrev is_safe : ℕ → Bool
is_safe n = ltb n (2 ^ 53)

abbrev pub algorithm : Text
algorithm = codes "argon2id"

-- `m=${memory},t=${passes},p=${parallelism}`
abbrev pub own_parameters : Text
own_parameters = codes "m=65536,t=3,p=1"

abbrev pub tag_length : ℕ
tag_length = 32

module _ (argon2 : Text → Text → ℕ → ℕ → ℕ → ℕ → Option Text) (encode : Text → Text)
    (decode : Text → Text) where
  -- `hash`, with the salt.
  unfoldable pub hash : Text → Text → Result Text
  hash salt password = do
    tag ← or_throw (argon2 password salt 65536 3 1 tag_length) internal
    ok (algorithm ++ (36 ∷ (own_parameters ++ (36 ∷ (encode salt ++ (36 ∷ encode tag))))))

  -- `timingSafeEqual`
  abbrev timing_safe_equal : Text → Text → Result Bool
  timing_safe_equal a b = if length a == length b then ok (text_eq a b) else err internal

  unfoldable pub verify_with : Text → Text → Text → Option (ℕ × ℕ × ℕ) → Result Bool
  verify_with password salt expected none = ok false
  verify_with password salt expected (some (m, t, p)) =
      if not (is_safe m && is_safe t && is_safe p)
        || ltb (length salt) 16
        || not (length expected == tag_length)
      then ok false
      else (or_throw (argon2 password salt m t p (length expected)) internal >>= λ actual.
          timing_safe_equal actual expected)

  -- The pieces that `verify` reads, where a missing or an empty one is refused.
  unfoldable pub verify_pieces : Text → List Text → Result Bool
  verify_pieces password (stored ∷ parameters ∷ salt ∷ tag ∷ rest) =
      if not (text_eq stored algorithm) || is_empty parameters || is_empty salt || is_empty tag
      then ok false
      else verify_with password (decode salt) (decode tag) (parse_parameters parameters)
  verify_pieces password pieces = ok false

  -- `verify`
  unfoldable pub verify : Text → Text → Result Bool
  verify password encoded = verify_pieces password (split_dollars encoded)
