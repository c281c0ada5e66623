-- ===== src/Accounts/Verified.antt =====
-- A stored password is verified by the password it was made from.
use bash_builder.Prelude.{
  ℕ, ◌≤◌, ◌≡◌, refl, ap, ◌∙◌, Bool, true, false, not, ◌==◌, ==_iff, ltb, Option, some, List, [],
  ◌∷◌, ◌++◌, all, length, is_empty, Text, text_eq, ok, ◌>>=◌, arith,
}
use bash_builder.Accounts.Passwords.{
  split_dollars, parse_parameters, take_parameter, take_number, take_digits, take_literal,
  algorithm, own_parameters, tag_length, hash, verify_with, verify_pieces, verify,
}

abbrev pub no_dollar : Text → Bool
no_dollar s = all (λ c. not (c == 36)) s

split_dollars-last : (s : Text) → no_dollar s ≡ true → split_dollars s ≡ s ∷ []
unfolding split_dollars
split_dollars-last [] h = refl
split_dollars-last (c ∷ s) h = ground (arith, split_dollars-last s)

split_dollars-next :
    (s rest : Text) → no_dollar s ≡ true → split_dollars (s ++ (36 ∷ rest)) ≡ s ∷ split_dollars rest
unfolding split_dollars
split_dollars-next [] rest h = refl
split_dollars-next (c ∷ s) rest h = ground (arith, split_dollars-next s rest)

text_eq_refl : (s : Text) → text_eq s s ≡ true
text_eq_refl [] = refl
text_eq_refl (c ∷ s) = rw ((==_iff c c).1 refl, text_eq_refl s) refl

own_parameters-parsed : parse_parameters own_parameters ≡ some (65536, 3, 1)
unfolding parse_parameters take_parameter take_number take_digits take_literal
own_parameters-parsed = refl

module _ (argon2 : Text → Text → ℕ → ℕ → ℕ → ℕ → Option Text) (encode decode : Text → Text)
    (decode-encode : (b : Text) → decode (encode b) ≡ b)
    (encode_clean : (b : Text) → no_dollar (encode b) ≡ true)
    (encode_filled : (b : Text) → 1 ≤ length b → is_empty (encode b) ≡ false)
    (argon2_length : (password salt : Text) (m t p n : ℕ) (tag : Text)
      → argon2 password salt m t p n ≡ some tag
      → length tag ≡ n) where
  stored : Text → Text → Text
  stored salt tag =
      algorithm ++ (36 ∷ (own_parameters ++ (36 ∷ (encode salt ++ (36 ∷ encode tag)))))

  stored-split :
      (salt tag : Text)
      → split_dollars (stored salt tag) ≡ algorithm ∷ own_parameters ∷ encode salt ∷ encode tag ∷ []
  unfolding stored
  stored-split salt tag =
      split_dollars-next algorithm (own_parameters ++ (36 ∷ (encode salt ++ (36 ∷ encode tag))))
        refl
      ∙ ap (λ (l : List Text). algorithm ∷ l)
          (split_dollars-next own_parameters (encode salt ++ (36 ∷ encode tag)) refl
            ∙ ap (λ (l : List Text). own_parameters ∷ l)
                (split_dollars-next (encode salt) (encode tag) (encode_clean salt)
                  ∙ ap (λ (l : List Text). encode salt ∷ l)
                      (split_dollars-last (encode tag) (encode_clean tag))))

  verify_with-own :
      (password salt tag other : Text)
      → 16 ≤ length salt
      → length tag ≡ tag_length
      → argon2 password salt 65536 3 1 tag_length ≡ some other
      → length other ≡ tag_length
      → verify_with argon2 encode decode password salt tag (some (65536, 3, 1))
        ≡ ok (text_eq other tag)
  unfolding verify_with
  verify_with-own password salt tag other long size made also =
      let enough : ltb (length salt) 16 ≡ false = ground (arith, long) in
      let same : (length tag == tag_length) ≡ true = (==_iff (length tag) tag_length).1 size in
      let equal : (length other == tag_length) ≡ true = (==_iff (length other) tag_length).1 also in
      rw (enough, same, size, made, equal) refl

  verify_pieces-own :
      (password salt tag other : Text)
      → 16 ≤ length salt
      → length tag ≡ tag_length
      → argon2 password salt 65536 3 1 tag_length ≡ some other
      → verify_pieces argon2 encode decode password
          (algorithm ∷ own_parameters ∷ encode salt ∷ encode tag ∷ [])
        ≡ ok (text_eq other tag)
  unfolding verify_pieces
  verify_pieces-own password salt tag other long size made =
      rw
        (
          encode_filled salt (omega (arith, long)),
          encode_filled tag (omega (arith, size)),
          own_parameters-parsed,
          decode-encode salt,
          decode-encode tag,
        )
        (verify_with-own password salt tag other long size made
          (argon2_length password salt 65536 3 1 tag_length other made))

  verify-stored :
      (password salt tag other : Text)
      → 16 ≤ length salt
      → length tag ≡ tag_length
      → argon2 password salt 65536 3 1 tag_length ≡ some other
      → verify argon2 encode decode password (stored salt tag) ≡ ok (text_eq other tag)
  unfolding verify
  verify-stored password salt tag other long size made =
      ap (verify_pieces argon2 encode decode password) (stored-split salt tag)
      ∙ verify_pieces-own password salt tag other long size made

  -- What `hash` makes of a password, `verify` accepts for this password, and it accepts another
  -- password exactly if argon2 gives the same tag for it with the same salt. The salt has 16 bytes or
  -- more and argon2 answers with tags of the length it is asked for; the coding of bytes can be read
  -- back, has no dollar sign, and is not empty for bytes that are not.
  pub verify-hash :
      (password attempt salt tag other : Text)
      → 16 ≤ length salt
      → argon2 password salt 65536 3 1 tag_length ≡ some tag
      → argon2 attempt salt 65536 3 1 tag_length ≡ some other
      → ((hash argon2 encode decode salt password >>= verify argon2 encode decode password)
          ≡ ok true)
        × ((hash argon2 encode decode salt password >>= verify argon2 encode decode attempt)
            ≡ ok (text_eq other tag))
  unfolding hash stored
  verify-hash password attempt salt tag other long made tried =
      let size = argon2_length password salt 65536 3 1 tag_length tag made in
      (
        rw made (verify-stored password salt tag tag long size made) ∙ ap ok (text_eq_refl tag),
        rw made (verify-stored attempt salt tag other long size tried),
      )
