-- ===== src/Worker/Webhooks/Public.antt =====
-- Which addresses of version 4 a webhook may be sent to.
use Prim.Native.Nat.{bit_and}
use bash_builder.Prelude.{
  ℕ, ◌+◌, ◌-◌, ◌*◌, ◌/◌, ◌^◌, ◌<◌, ◌≡◌, refl, ap, ap₂, any, ◌∙◌, Bool, not, [], ◌∷◌, ◌&&◌, ◌==◌,
  leb, Text, codes, arith,
}
use bash_builder.Worker.Webhooks.Masks.{bit_and-mask}
use bash_builder.Worker.Webhooks.Addresses.{
  split_dots, number_from, octets_from, ipv4_to_number, prefix_mask, in_ipv4_range,
  private_or_reserved_ranges, is_public_webhook_address,
}
use bash_builder.Worker.Webhooks.Dotted.{dotted, ipv4_to_number-dotted}

-- The special-purpose blocks of the registry, by their octets.
unfoldable pub is_special : ℕ → ℕ → ℕ → Bool
is_special a b c =
    any (λ hit. hit)
      ((a == 0)
        ∷ (a == 10)
        ∷ ((a == 100) && leb 64 b && leb b 127)
        ∷ (a == 127)
        ∷ ((a == 169) && (b == 254))
        ∷ ((a == 172) && leb 16 b && leb b 31)
        ∷ ((a == 192) && (b == 0) && (c == 0))
        ∷ ((a == 192) && (b == 0) && (c == 2))
        ∷ ((a == 192) && (b == 88) && (c == 99))
        ∷ ((a == 192) && (b == 168))
        ∷ ((a == 198) && leb 18 b && leb b 19)
        ∷ ((a == 198) && (b == 51) && (c == 100))
        ∷ ((a == 203) && (b == 0) && (c == 113))
        ∷ (leb 224 a && leb a 239)
        ∷ leb 240 a
        ∷ [])

-- A test by masks compares what stands before the last `k` bits.
masked :
    (n k x y : ℕ)
    → x / 2 ^ k < 2 ^ n
    → y / 2 ^ k < 2 ^ n
    → (bit_and x ((2 ^ n - 1) * 2 ^ k) == bit_and y ((2 ^ n - 1) * 2 ^ k))
      ≡ (x / 2 ^ k * 2 ^ k == y / 2 ^ k * 2 ^ k)
masked n k x y hx hy = ap₂ ◌==◌ (bit_and-mask n k x hx) (bit_and-mask n k y hy)

-- An entry of the table as a comparison of numbers.
entry :
    (s net : Text) (n k x y : ℕ)
    → ipv4_to_number s ≡ x
    → ipv4_to_number net ≡ y
    → prefix_mask n ≡ (2 ^ n - 1) * 2 ^ k
    → x / 2 ^ k < 2 ^ n
    → y / 2 ^ k < 2 ^ n
    → in_ipv4_range s net n ≡ (x / 2 ^ k * 2 ^ k == y / 2 ^ k * 2 ^ k)
unfolding in_ipv4_range
entry s net n k x y p q mask hx hy = rw (p, q, mask) (masked n k x y hx hy)

-- Opens what the entries of the table compute with.
numbers : Unit {0}
unfolding prefix_mask ipv4_to_number octets_from number_from split_dots
numbers = tt

abbrev number_of : ℕ → ℕ → ℕ → ℕ → ℕ
number_of a b c d = ((a * 256 + b) * 256 + c) * 256 + d

module _ (s : Text) (a b c d : ℕ) (same : ipv4_to_number s ≡ number_of a b c d) (ha : a < 256)
    (hb : b < 256) (hc : c < 256) (hd : d < 256) where
  in_0 : in_ipv4_range s (codes "0.0.0.0") 8 ≡ (a == 0)
  unfolding numbers
  in_0 =
      entry s (codes "0.0.0.0") 8 24 (number_of a b c d) 0 same refl refl
        (omega (arith, ha, hb, hc, hd)) (omega arith)
      ∙ ground (arith, ha, hb, hc, hd)

  in_10 : in_ipv4_range s (codes "10.0.0.0") 8 ≡ (a == 10)
  unfolding numbers
  in_10 =
      entry s (codes "10.0.0.0") 8 24 (number_of a b c d) 167772160 same refl refl
        (omega (arith, ha, hb, hc, hd)) (omega arith)
      ∙ ground (arith, ha, hb, hc, hd)

  in_100_64 : in_ipv4_range s (codes "100.64.0.0") 10 ≡ ((a == 100) && leb 64 b && leb b 127)
  unfolding numbers
  in_100_64 =
      entry s (codes "100.64.0.0") 10 22 (number_of a b c d) 1681915904 same refl refl
        (omega (arith, ha, hb, hc, hd)) (omega arith)
      ∙ ground (arith, ha, hb, hc, hd)

  in_127 : in_ipv4_range s (codes "127.0.0.0") 8 ≡ (a == 127)
  unfolding numbers
  in_127 =
      entry s (codes "127.0.0.0") 8 24 (number_of a b c d) 2130706432 same refl refl
        (omega (arith, ha, hb, hc, hd)) (omega arith)
      ∙ ground (arith, ha, hb, hc, hd)

  in_169_254 : in_ipv4_range s (codes "169.254.0.0") 16 ≡ ((a == 169) && (b == 254))
  unfolding numbers
  in_169_254 =
      entry s (codes "169.254.0.0") 16 16 (number_of a b c d) 2851995648 same refl refl
        (omega (arith, ha, hb, hc, hd)) (omega arith)
      ∙ ground (arith, ha, hb, hc, hd)

  in_172_16 : in_ipv4_range s (codes "172.16.0.0") 12 ≡ ((a == 172) && leb 16 b && leb b 31)
  unfolding numbers
  in_172_16 =
      entry s (codes "172.16.0.0") 12 20 (number_of a b c d) 2886729728 same refl refl
        (omega (arith, ha, hb, hc, hd)) (omega arith)
      ∙ ground (arith, ha, hb, hc, hd)

  in_192_0_0 : in_ipv4_range s (codes "192.0.0.0") 24 ≡ ((a == 192) && (b == 0) && (c == 0))
  unfolding numbers
  in_192_0_0 =
      entry s (codes "192.0.0.0") 24 8 (number_of a b c d) 3221225472 same refl refl
        (omega (arith, ha, hb, hc, hd)) (omega arith)
      ∙ ground (arith, ha, hb, hc, hd)

  in_192_0_2 : in_ipv4_range s (codes "192.0.2.0") 24 ≡ ((a == 192) && (b == 0) && (c == 2))
  unfolding numbers
  in_192_0_2 =
      entry s (codes "192.0.2.0") 24 8 (number_of a b c d) 3221225984 same refl refl
        (omega (arith, ha, hb, hc, hd)) (omega arith)
      ∙ ground (arith, ha, hb, hc, hd)

  in_192_88_99 : in_ipv4_range s (codes "192.88.99.0") 24 ≡ ((a == 192) && (b == 88) && (c == 99))
  unfolding numbers
  in_192_88_99 =
      entry s (codes "192.88.99.0") 24 8 (number_of a b c d) 3227017984 same refl refl
        (omega (arith, ha, hb, hc, hd)) (omega arith)
      ∙ ground (arith, ha, hb, hc, hd)

  in_192_168 : in_ipv4_range s (codes "192.168.0.0") 16 ≡ ((a == 192) && (b == 168))
  unfolding numbers
  in_192_168 =
      entry s (codes "192.168.0.0") 16 16 (number_of a b c d) 3232235520 same refl refl
        (omega (arith, ha, hb, hc, hd)) (omega arith)
      ∙ ground (arith, ha, hb, hc, hd)

  in_198_18 : in_ipv4_range s (codes "198.18.0.0") 15 ≡ ((a == 198) && leb 18 b && leb b 19)
  unfolding numbers
  in_198_18 =
      entry s (codes "198.18.0.0") 15 17 (number_of a b c d) 3323068416 same refl refl
        (omega (arith, ha, hb, hc, hd)) (omega arith)
      ∙ ground (arith, ha, hb, hc, hd)

  in_198_51_100 :
      in_ipv4_range s (codes "198.51.100.0") 24 ≡ ((a == 198) && (b == 51) && (c == 100))
  unfolding numbers
  in_198_51_100 =
      entry s (codes "198.51.100.0") 24 8 (number_of a b c d) 3325256704 same refl refl
        (omega (arith, ha, hb, hc, hd)) (omega arith)
      ∙ ground (arith, ha, hb, hc, hd)

  in_203_0_113 : in_ipv4_range s (codes "203.0.113.0") 24 ≡ ((a == 203) && (b == 0) && (c == 113))
  unfolding numbers
  in_203_0_113 =
      entry s (codes "203.0.113.0") 24 8 (number_of a b c d) 3405803776 same refl refl
        (omega (arith, ha, hb, hc, hd)) (omega arith)
      ∙ ground (arith, ha, hb, hc, hd)

  in_224 : in_ipv4_range s (codes "224.0.0.0") 4 ≡ (leb 224 a && leb a 239)
  unfolding numbers
  in_224 =
      entry s (codes "224.0.0.0") 4 28 (number_of a b c d) 3758096384 same refl refl
        (omega (arith, ha, hb, hc, hd)) (omega arith)
      ∙ ground (arith, ha, hb, hc, hd)

  in_240 : in_ipv4_range s (codes "240.0.0.0") 4 ≡ (leb 240 a)
  unfolding numbers
  in_240 =
      entry s (codes "240.0.0.0") 4 28 (number_of a b c d) 4026531840 same refl refl
        (omega (arith, ha, hb, hc, hd)) (omega arith)
      ∙ ground (arith, ha, hb, hc, hd)

  unreserved : any (λ r. in_ipv4_range s r.0 r.1) private_or_reserved_ranges ≡ is_special a b c
  unfolding is_special
  unreserved =
      rw
        (
          in_0, in_10, in_100_64, in_127, in_169_254, in_172_16, in_192_0_0, in_192_0_2,
          in_192_88_99, in_192_168, in_198_18, in_198_51_100, in_203_0_113, in_224, in_240,
        )
        refl

-- A text that `isIP` takes for an address of version 4 is public exactly if its octets are not in
-- one of the special-purpose blocks, where `isIP` takes only four decimal octets with dots between.
pub is_public_webhook_address_lem :
    (is_ip : Text → ℕ)
    → ((s : Text)
        → is_ip s ≡ 4
        → (a : ℕ) × (b : ℕ) × (c : ℕ) × (d : ℕ) × (a < 256)
          × (b < 256)
          × (c < 256)
          × (d < 256)
          × (s ≡ dotted a b c d))
    → (s : Text) → is_ip s ≡ 4
    → (a : ℕ) × (b : ℕ) × (c : ℕ) × (d : ℕ) × (s ≡ dotted a b c d)
      × (is_public_webhook_address is_ip s ≡ not (is_special a b c))
unfolding is_public_webhook_address
is_public_webhook_address_lem is_ip documented s four =
    let (a, b, c, d, ha, hb, hc, hd, text) = documented s four in
    let number = ap ipv4_to_number text ∙ ipv4_to_number-dotted a b c d ha hb hc hd in
    (a, b, c, d, text, rw (four, unreserved s a b c d number ha hb hc hd) refl)
