-- ===== src/Worker/Webhooks/Addresses.antt =====
-- `isPublicWebhookAddress` and what it calls. `isIP` of node:net is a parameter.
use Prim.Native.Nat.{bit_and}
use bash_builder.Prelude.{
  ℕ, ◌+◌, ◌-◌, ◌*◌, ◌%◌, ◌^◌, Bool, not, ◌==◌, List, [], ◌∷◌, any, if◌then◌else◌, Text, codes,
  String, false,
}

abbrev grow_first : ℕ → List Text → List Text
grow_first c [] = (c ∷ []) ∷ []
grow_first c (piece ∷ pieces) = (c ∷ piece) ∷ pieces

-- `address.split('.')`
unfoldable pub split_dots : Text → List Text
split_dots [] = [] ∷ []
split_dots (c ∷ s) = let rest = split_dots s in if c == 46 then [] ∷ rest else grow_first c rest

-- `Number` on decimal digits, which is all that an address of version 4 has between its dots.
unfoldable pub number_from : ℕ → Text → ℕ
number_from n [] = n
number_from n (c ∷ s) = number_from (n * 10 + (c - 48)) s

-- `reduce((result, octet) => (result * 256) + Number(octet), 0)`
unfoldable pub octets_from : ℕ → List Text → ℕ
unfolding number_from
octets_from n [] = n
octets_from n (octet ∷ octets) = octets_from (n * 256 + number_from 0 octet) octets

-- `ipv4ToNumber`
unfoldable pub ipv4_to_number : Text → ℕ
unfolding split_dots octets_from
ipv4_to_number address = octets_from 0 (split_dots address)

-- `inIpv4Range`. `<<` keeps 32 bits and `>>> 0` reads them without a sign; the two sides of `===` are
-- 32 bits read with a sign, and they are equal when the bits are.
unfoldable pub prefix_mask : ℕ → ℕ
prefix_mask prefix = if prefix == 0 then 0 else 0xffffffff * 2 ^ (32 - prefix) % 2 ^ 32

unfoldable pub in_ipv4_range : Text → Text → ℕ → Bool
unfolding ipv4_to_number prefix_mask
in_ipv4_range address network prefix =
    bit_and (ipv4_to_number address) (prefix_mask prefix)
    == bit_and (ipv4_to_number network) (prefix_mask prefix)

abbrev range : String → ℕ → Text × ℕ
range network prefix = (codes network, prefix)

-- `privateOrReservedRanges`
abbrev pub private_or_reserved_ranges : List (Text × ℕ)
private_or_reserved_ranges =
    range "0.0.0.0" 8
    ∷ range "10.0.0.0" 8
    ∷ range "100.64.0.0" 10
    ∷ range "127.0.0.0" 8
    ∷ range "169.254.0.0" 16
    ∷ range "172.16.0.0" 12
    ∷ range "192.0.0.0" 24
    ∷ range "192.0.2.0" 24
    ∷ range "192.88.99.0" 24
    ∷ range "192.168.0.0" 16
    ∷ range "198.18.0.0" 15
    ∷ range "198.51.100.0" 24
    ∷ range "203.0.113.0" 24
    ∷ range "224.0.0.0" 4
    ∷ range "240.0.0.0" 4
    ∷ []

-- `isPublicWebhookAddress`
unfoldable pub is_public_webhook_address : (Text → ℕ) → Text → Bool
unfolding in_ipv4_range
is_public_webhook_address is_ip address =
    if is_ip address == 4
    then not (any (λ r. in_ipv4_range address r.0 r.1) private_or_reserved_ranges)
    else false
