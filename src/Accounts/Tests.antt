-- ===== src/Accounts/Tests.antt =====
-- A stand-in for argon2 and for the coding of bytes, and the theorem at them.
use bash_builder.Prelude.{
  ℕ, ◌+◌, ◌≤◌, ◌≡◌, refl, sym, ap, ap₂, ◌∙◌, of_some-eq, true, false, Option, some, [], ◌∷◌, Text,
  codes, length, text_eq, Result, ok, ◌>>=◌, arith, is_empty, suc, zero, ◌-◌,
}
use bash_builder.Accounts.Passwords.{
  split_dollars, parse_parameters, take_parameter, take_number, take_digits, take_literal, hash,
  verify_with, verify_pieces, verify,
}
use bash_builder.Accounts.Verified.{no_dollar, verify-hash}

-- Opens what a run of the service calls.
run : Unit {0}
unfolding verify verify_pieces verify_with hash split_dollars parse_parameters take_parameter
    take_number take_digits take_literal
run = tt

-- The first characters of the password, filled up with zeros.
abbrev fill : ℕ → Text → Text
fill zero password = []
fill (suc n) [] = 0 ∷ fill n []
fill (suc n) (c ∷ password) = c ∷ fill n password

abbrev argon2 : Text → Text → ℕ → ℕ → ℕ → ℕ → Option Text
argon2 password salt m t p n = some (fill n password)

-- Every byte one hundred higher.
abbrev encode : Text → Text
encode [] = []
encode (b ∷ bytes) = (100 + b) ∷ encode bytes

abbrev decode : Text → Text
decode [] = []
decode (b ∷ bytes) = (b - 100) ∷ decode bytes

fill-length : (n : ℕ) (password : Text) → length (fill n password) ≡ n
fill-length zero password = refl
fill-length (suc n) [] = omega (arith, fill-length n [])
fill-length (suc n) (c ∷ password) = omega (arith, fill-length n password)

argon2-length :
    (password salt : Text) (m t p n : ℕ) (tag : Text)
    → argon2 password salt m t p n ≡ some tag
    → length tag ≡ n
argon2-length password salt m t p n tag e = ap length (sym (of_some-eq e)) ∙ fill-length n password

decode-encode : (b : Text) → decode (encode b) ≡ b
decode-encode [] = refl
decode-encode (b ∷ bytes) = ap₂ (λ (c : ℕ) (l : Text). c ∷ l) (omega arith) (decode-encode bytes)

encode-no_dollar : (b : Text) → no_dollar (encode b) ≡ true
encode-no_dollar [] = refl
encode-no_dollar (b ∷ bytes) = ground (arith, encode-no_dollar bytes)

encode-filled : (b : Text) → 1 ≤ length b → is_empty (encode b) ≡ false
encode-filled [] h = absurd (omega (arith, h))
encode-filled (b ∷ bytes) h = refl

abbrev salt : Text
salt = codes "0123456789abcdef"

abbrev kept : Result Text
kept = hash argon2 encode decode salt (codes "Segredo-1")

wrong_password : (kept >>= verify argon2 encode decode (codes "Segredo-2")) ≡ ok false
unfolding run
wrong_password = refl

-- Nothing that is not of four pieces is a stored password.
not_stored : verify argon2 encode decode (codes "x") (codes "argon2id$m=1,t=1,p=1") ≡ ok false
unfolding run
not_stored = refl

verify-hash_example :
    ((kept >>= verify argon2 encode decode (codes "Segredo-1")) ≡ ok true)
    × ((kept >>= verify argon2 encode decode (codes "Segredo-2"))
        ≡ ok (text_eq (fill 32 (codes "Segredo-2")) (fill 32 (codes "Segredo-1"))))
verify-hash_example =
    verify-hash argon2 encode decode decode-encode encode-no_dollar encode-filled argon2-length
      (codes "Segredo-1") (codes "Segredo-2") salt (fill 32 (codes "Segredo-1"))
      (fill 32 (codes "Segredo-2")) (omega arith) refl refl
