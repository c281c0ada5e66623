-- ===== src/Worker/Webhooks/Dotted.antt =====
-- Addresses of version 4 as text: four decimal octets with dots between.
use bash_builder.Prelude.{
  ℕ, ◌+◌, ◌*◌, ◌/◌, ◌%◌, ◌<◌, ◌≡◌, refl, ap, ◌∙◌, Bool, true, not, ◌==◌, ltb, List, [], ◌∷◌, ◌++◌,
  all, if◌then◌else◌, Text, arith,
}
use bash_builder.Worker.Webhooks.Addresses.{split_dots, number_from, octets_from, ipv4_to_number}

-- An octet in decimal, without leading zeros.
unfoldable pub decimal : ℕ → Text
decimal n =
    if ltb n 10
    then (48 + n) ∷ []
    else if ltb n 100
    then (48 + n / 10) ∷ (48 + n % 10) ∷ []
    else (48 + n / 100) ∷ (48 + n / 10 % 10) ∷ (48 + n % 10) ∷ []

unfoldable pub dotted : ℕ → ℕ → ℕ → ℕ → Text
dotted a b c d = decimal a ++ (46 ∷ (decimal b ++ (46 ∷ (decimal c ++ (46 ∷ decimal d)))))

abbrev no_dot : Text → Bool
no_dot s = all (λ c. not (c == 46)) s

decimal-no_dot : (n : ℕ) → n < 256 → no_dot (decimal n) ≡ true
unfolding decimal
decimal-no_dot n h = ground (arith, h)

number_from-decimal : (n : ℕ) → n < 256 → number_from 0 (decimal n) ≡ n
unfolding decimal number_from
number_from-decimal n h = ground (arith, h)

split_dots-last : (s : Text) → no_dot s ≡ true → split_dots s ≡ s ∷ []
unfolding split_dots
split_dots-last [] h = refl
split_dots-last (c ∷ s) h = ground (arith, split_dots-last s)

split_dots-piece :
    (s rest : Text) → no_dot s ≡ true → split_dots (s ++ (46 ∷ rest)) ≡ s ∷ split_dots rest
unfolding split_dots
split_dots-piece [] rest h = refl
split_dots-piece (c ∷ s) rest h = ground (arith, split_dots-piece s rest)

split_dots-four :
    (p q r s : Text)
    → no_dot p ≡ true
    → no_dot q ≡ true
    → no_dot r ≡ true
    → no_dot s ≡ true
    → split_dots (p ++ (46 ∷ (q ++ (46 ∷ (r ++ (46 ∷ s)))))) ≡ p ∷ q ∷ r ∷ s ∷ []
split_dots-four p q r s hp hq hr hs =
    split_dots-piece p (q ++ (46 ∷ (r ++ (46 ∷ s)))) hp
    ∙ ap (λ (l : List Text). p ∷ l)
        (split_dots-piece q (r ++ (46 ∷ s)) hq
          ∙ ap (λ (l : List Text). q ∷ l)
              (split_dots-piece r s hr ∙ ap (λ (l : List Text). r ∷ l) (split_dots-last s hs)))

octets_from-four :
    (p q r s : Text) (a b c d : ℕ)
    → number_from 0 p ≡ a
    → number_from 0 q ≡ b
    → number_from 0 r ≡ c
    → number_from 0 s ≡ d
    → octets_from 0 (p ∷ q ∷ r ∷ s ∷ []) ≡ ((a * 256 + b) * 256 + c) * 256 + d
unfolding octets_from
octets_from-four p q r s a b c d ha hb hc hd = rw (ha, hb, hc, hd) (omega arith)

-- The text of four octets gives back their number.
pub ipv4_to_number-dotted :
    (a b c d : ℕ)
    → a < 256
    → b < 256
    → c < 256
    → d < 256
    → ipv4_to_number (dotted a b c d) ≡ ((a * 256 + b) * 256 + c) * 256 + d
unfolding ipv4_to_number dotted
ipv4_to_number-dotted a b c d ha hb hc hd =
    ap (octets_from 0) (
      split_dots-four (decimal a) (decimal b) (decimal c) (decimal d) (decimal-no_dot a ha)
        (decimal-no_dot b hb) (decimal-no_dot c hc) (decimal-no_dot d hd))
    ∙ octets_from-four (decimal a) (decimal b) (decimal c) (decimal d) a b c d
        (number_from-decimal a ha) (number_from-decimal b hb) (number_from-decimal c hc)
        (number_from-decimal d hd)
