-- ===== src/Base/Masks.antt =====
-- A mask of low ones keeps the residue.
use Prim.Native.Nat.{
  ℕ, zero, suc, ◌+◌, ◌-◌, ◌*◌, ◌/◌, ◌%◌, ◌^◌, ◌≤◌, ◌<◌, min, bit_and, digits, bit_and-bitwise,
}
use mathlib.Core.Path.{◌≡◌, refl, sym, ap, ◌∙◌}
use native.Mathlib.Omega.{arith}
use native.Mathlib.Nat.{
  mul_assoc, pow-suc, mod-lt, mod-add-div, mod-eq_of_lt, add-mul-mod_self_left,
}

-- The digits of the conjunction, once the fuel covers the left operand.
digits_settle :
    (f g x y : ℕ) → x ≤ f → x ≤ g → digits (λ d. zero) min f x y ≡ digits (λ d. zero) min g x y
digits_settle zero zero zero y p q = refl
digits_settle zero (suc g) zero y p q = refl
digits_settle (suc f) zero zero y p q = refl
digits_settle (suc f) (suc g) zero y p q = refl
digits_settle zero g (suc x) y p q = absurd (omega arith)
digits_settle (suc f) zero (suc x) y p q = absurd (omega arith)
digits_settle (suc f) (suc g) (suc x) y p q =
    omega (arith, digits_settle f g (suc x / 2) (y / 2) (omega arith) (omega arith))

zero_masked : (y : ℕ) → bit_and 0 y ≡ 0
zero_masked y = bit_and-bitwise 0 y

masked-halves : (x y : ℕ) → bit_and x y ≡ min (x % 2) (y % 2) + 2 * bit_and (x / 2) (y / 2)
masked-halves zero y = omega (arith, zero_masked y, zero_masked (y / 2))
masked-halves (suc x) y =
    let whole = bit_and-bitwise (suc x) y in
    let half = bit_and-bitwise (suc x / 2) (y / 2) in
    omega (
      arith,
      whole,
      half,
      digits_settle x (suc x / 2) (suc x / 2) (y / 2) (omega arith) (omega arith),
    )

masked_by_zero : (n x : ℕ) → x ≤ n → bit_and x 0 ≡ 0
masked_by_zero n zero h = refl
masked_by_zero zero (suc x) h = absurd (omega arith)
masked_by_zero (suc n) (suc x) h =
    omega (arith, masked-halves (suc x) 0, masked_by_zero n (suc x / 2) (omega arith))

-- The residue modulo an even number, by the lowest digit.
even_residue : (m x : ℕ) → 0 < m → x % (2 * m) ≡ x % 2 + 2 * (x / 2 % m)
even_residue m x h =
    let low = x % 2 + 2 * (x / 2 % m) in
    let q = x / 2 / m in
    let small : low < 2 * m = omega (arith, mod-lt (x / 2) h) in
    let whole : x ≡ low + 2 * m * q = omega (arith, mod-add-div (x / 2) m, mul_assoc 2 m q) in
    ap (λ n. n % (2 * m)) whole ∙ add-mul-mod_self_left low (2 * m) q ∙ mod-eq_of_lt small

pub two_pow_pos : (k : ℕ) → 0 < 2 ^ k
two_pow_pos zero = omega arith
two_pow_pos (suc k) = omega (arith, two_pow_pos k, pow-suc 2 k)

-- x & (2^k - 1)
pub bit_and-low_ones : (k x : ℕ) → bit_and x (2 ^ k - 1) ≡ x % 2 ^ k
bit_and-low_ones zero x = omega (arith, masked_by_zero x x (omega arith))
bit_and-low_ones (suc k) x =
    let m = 2 ^ k in
    let e : 2 ^ suc k ≡ 2 * m = omega (arith, pow-suc 2 k) in
    let p = two_pow_pos k in
    let odd : (2 * m - 1) % 2 ≡ 1 = omega (arith, p) in
    let half : (2 * m - 1) / 2 ≡ m - 1 = omega (arith, p) in
    rw e (
      masked-halves x (2 * m - 1)
      ∙ omega (arith, odd, ap (λ n. bit_and (x / 2) n) half, bit_and-low_ones k (x / 2))
      ∙ sym (even_residue m x p))
