-- ===== src/Worker/Webhooks/Masks.antt =====
-- The masks of a network's prefix, as `&` on 32 bits reads them.
use Prim.Native.Nat.{bit_and, bit_and-bitwise, digits}
use native.Mathlib.Nat.{div-div-eq-div-mul, zero-div, pow-succ', one-le-pow}
use bash_builder.Prelude.{
  ℕ, zero, suc, ◌+◌, ◌-◌, ◌*◌, ◌/◌, ◌%◌, ◌^◌, ◌≤◌, ◌<◌, min, ◌≡◌, refl, sym, ap, ◌∙◌, subst, arith,
}

-- `&` digit by digit, where `count` bounds the digits of the first number.
abbrev masked_by : ℕ → ℕ → ℕ → ℕ
masked_by count x mask = digits (λ rest. zero) min count x mask

-- Where the mask ends in a one, the number keeps its last digit; where it ends in a zero, it does not.
last_kept :
    (count x m mask : ℕ)
    → mask ≡ m * 2 + 1
    → masked_by (suc count) (suc x) mask ≡ masked_by count (suc x / 2) m * 2 + suc x % 2
last_kept count x m mask e =
    let rest : mask / 2 ≡ m = omega (arith, e) in
    let one : mask % 2 ≡ 1 = omega (arith, e) in
    let inner = ap (masked_by count (suc x / 2)) rest in omega (arith, inner, one)

last_dropped :
    (count x m mask : ℕ)
    → mask ≡ m * 2
    → masked_by (suc count) (suc x) mask ≡ masked_by count (suc x / 2) m * 2
last_dropped count x m mask e =
    let rest : mask / 2 ≡ m = omega (arith, e) in
    let none : mask % 2 ≡ 0 = omega (arith, e) in
    let inner = ap (masked_by count (suc x / 2)) rest in omega (arith, inner, none)

-- A mask of `n` ones keeps a number of `n` digits.
masked_by_ones : (n count x : ℕ) → x ≤ count → x < 2 ^ n → masked_by count x (2 ^ n - 1) ≡ x
masked_by_ones n zero zero le lt = refl
masked_by_ones n zero (suc x) le lt = absurd (omega (arith, le))
masked_by_ones n (suc count) zero le lt = refl
masked_by_ones zero (suc count) (suc x) le lt = absurd (omega (arith, lt))
masked_by_ones (suc n) (suc count) (suc x) le lt =
    let double : 2 ^ suc n ≡ 2 * 2 ^ n = pow-succ' 2 n in
    let some_one : 1 ≤ 2 ^ n = one-le-pow n 2 (omega arith) in
    let mask = last_kept count x (2 ^ n - 1) (2 ^ suc n - 1) (omega (arith, double, some_one)) in
    let rest = masked_by_ones n count (suc x / 2) (omega (arith, le)) (omega (arith, lt, double)) in
    omega (arith, mask, rest)

doubled : (y p q : ℕ) → q ≡ 2 * p → y * q ≡ y * p * 2
doubled y p q e = ap (λ z. y * z) e ∙ grind arith

nothing_left : (p : ℕ) → 0 ≡ 0 / p * p
nothing_left p = omega (arith, ap (λ z. z * p) (zero-div p))

-- A mask of `n` ones before `k` zeros cuts off the last `k` digits.
masked_by_prefix :
    (n k count x : ℕ)
    → x ≤ count
    → x / 2 ^ k < 2 ^ n
    → masked_by count x ((2 ^ n - 1) * 2 ^ k) ≡ x / 2 ^ k * 2 ^ k
masked_by_prefix n zero count x le lt =
    let whole : x / 1 ≡ x = omega arith in
    let mask : (2 ^ n - 1) * 1 ≡ 2 ^ n - 1 = omega arith in
    ap (masked_by count x) mask
    ∙ masked_by_ones n count x le (subst (λ y. y < 2 ^ n) whole lt)
    ∙ omega (arith, whole)
masked_by_prefix n (suc k) zero zero le lt = nothing_left (2 ^ suc k)
masked_by_prefix n (suc k) zero (suc x) le lt = absurd (omega (arith, le))
masked_by_prefix n (suc k) (suc count) zero le lt = nothing_left (2 ^ suc k)
masked_by_prefix n (suc k) (suc count) (suc x) le lt =
    let double : 2 ^ suc k ≡ 2 * 2 ^ k = pow-succ' 2 k in
    let cut : suc x / 2 / 2 ^ k ≡ suc x / 2 ^ suc k =
      div-div-eq-div-mul (suc x) 2 (2 ^ k) ∙ ap (λ d. suc x / d) (sym double) in
    let even : (2 ^ n - 1) * 2 ^ suc k ≡ (2 ^ n - 1) * 2 ^ k * 2 =
      doubled (2 ^ n - 1) (2 ^ k) (2 ^ suc k) double in
    last_dropped count x ((2 ^ n - 1) * 2 ^ k) ((2 ^ n - 1) * 2 ^ suc k) even
    ∙ ap (λ y. y * 2)
        (masked_by_prefix n k count (suc x / 2) (omega (arith, le))
          (subst (λ y. y < 2 ^ n) (sym cut) lt))
    ∙ ap (λ y. y * 2 ^ k * 2) cut
    ∙ sym (doubled (suc x / 2 ^ suc k) (2 ^ k) (2 ^ suc k) double)

pub bit_and-mask :
    (n k x : ℕ) → x / 2 ^ k < 2 ^ n → bit_and x ((2 ^ n - 1) * 2 ^ k) ≡ x / 2 ^ k * 2 ^ k
bit_and-mask n k x lt =
    bit_and-bitwise x ((2 ^ n - 1) * 2 ^ k) ∙ masked_by_prefix n k x x (omega arith) lt
