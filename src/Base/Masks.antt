-- ===== src/Base/Masks.antt =====
-- The masks and fields of the code as arithmetic that `omega` reads.
use Prim.Native.Nat.{ℕ, zero, suc, ◌+◌, ◌-◌, ◌*◌, ◌/◌, ◌%◌, ◌^◌, ◌≤◌, ◌<◌}
use Prim.Native.Nat.{bit_and, bit_or, bit_xor, differ}
use mathlib.Core.Path.{◌≡◌, refl, ap, ap₂, ◌∙◌, sym}
use mathlib.Core.Bool.{Bool, true, false}
use native.Mathlib.Nat.{pow-suc, one-le-pow, div-div-eq-div-mul}
use native.Mathlib.Omega.{arith}
use riscv_isa_sim.Base.Tests.{not, ◌==◌, if◌then◌else◌}
use riscv_isa_sim.Base.Word.{has, is_neg}
use riscv_isa_sim.Base.Bits.{
  bit_ext_all, bit-bit_or, bit, bit-lt, bit-div, bit_and_step, bit_or_step, bit_and-zero,
  bit_or-zero, bit-bit_xor, bit_xor_step, bit_xor-zero, differ_small, bit_and_low, bit_and_high,
  zero-bit,
}

-- A mask of j ones at bit k takes out a field and leaves it in place.
pub bit_and_field : (j k a : ℕ) → bit_and a ((2 ^ j - 1) * 2 ^ k) ≡ a / 2 ^ k % 2 ^ j * 2 ^ k
bit_and_field j k a =
    bit_and_high k a (2 ^ j - 1) ∙ ap (λ (t : ℕ). t * 2 ^ k) (bit_and_low j (a / 2 ^ k))

-- A mask of one bit.
pub bit_and_two_pow : (k a : ℕ) → bit_and a (2 ^ k) ≡ bit a k * 2 ^ k
bit_and_two_pow k a =
    ap (bit_and a) (omega arith)
    ∙ bit_and_field 1 k a
    ∙ ap (λ (t : ℕ). t * 2 ^ k) (sym (bit-div k a))

pub has-two_pow : (k x : ℕ) → has x (2 ^ k) ≡ (bit x k == 1)
has-two_pow k x = rw bit_and_two_pow (split (bit x k) (bit-lt x k))
  where
    split : (b : ℕ) → b < 2 → not (b * 2 ^ k == 0) ≡ (b == 1)
    split zero h = ground arith
    split (suc zero) h = ground (arith, one-le-pow k 2)
    split (suc (suc b)) h = absurd (omega arith)

-- The low ones that `&` keeps and `|` adds stay below a power of two.
pub bit_and-lt : (n a b : ℕ) → b < 2 ^ n → bit_and a b < 2 ^ n
bit_and-lt zero a b h =
    let e : b ≡ 0 = omega arith in omega (arith, ap (bit_and a) e, bit_and-zero a)
bit_and-lt (suc n) a b h = omega (
  arith,
  bit_and_step a b,
  bit_and-lt n (a / 2) (b / 2) (omega (arith, pow-suc 2 n)),
  pow-suc 2 n,
)

pub bit_or-lt : (n a b : ℕ) → a < 2 ^ n → b < 2 ^ n → bit_or a b < 2 ^ n
bit_or-lt zero a b p q =
    let e : a ≡ 0 = omega arith in
    let e' : b ≡ 0 = omega arith in rw (e, e') (omega (arith, bit_or-zero 0))
bit_or-lt (suc n) a b p q = omega (
  arith,
  bit_or_step a b,
  bit_or-lt n (a / 2) (b / 2) (omega (arith, pow-suc 2 n)) (omega (arith, pow-suc 2 n)),
  pow-suc 2 n,
)

-- `|` of a high field and what fits below it is a sum.
pub bit_or_sum : (k q r : ℕ) → r < 2 ^ k → bit_or (q * 2 ^ k) r ≡ q * 2 ^ k + r
bit_or_sum zero q r h = let e : r ≡ 0 = omega arith in rw e (bit_or-zero (q * 2 ^ 0) ∙ omega arith)
bit_or_sum (suc k) q r h = omega (
  arith,
  bit_or_step (q * 2 ^ suc k) r,
  ap (λ (t : ℕ). q * t) (pow-suc 2 k),
  ap (λ (t : ℕ). bit_or t (r / 2)) (halved k),
  bit_or_sum k q (r / 2) (omega (arith, pow-suc 2 k)),
)
  where
    halved : (n : ℕ) → q * 2 ^ suc n / 2 ≡ q * 2 ^ n
    halved n = omega (arith, ap (λ (t : ℕ). q * t) (pow-suc 2 n))

-- `~x` turns every bit below the width.
pub bit-not : (n x i : ℕ) → x < 2 ^ n → i < n → bit (2 ^ n - 1 - x) i ≡ 1 - bit x i
unfolding bit
bit-not zero x i h lt = absurd (omega arith)
bit-not (suc n) x zero h lt = omega (arith, pow-suc 2 n)
bit-not (suc n) x (suc i) h lt =
    ap (λ t. bit t i) halved ∙ bit-not n (x / 2) i (omega (arith, pow-suc 2 n)) (omega arith)
  where
    halved : (2 ^ suc n - 1 - x) / 2 ≡ 2 ^ n - 1 - x / 2
    halved = omega (arith, pow-suc 2 n)

pub bit-high : (n x i : ℕ) → x < 2 ^ n → n ≤ i → bit x i ≡ 0
unfolding bit
bit-high zero x i h le = let e : x ≡ 0 = omega arith in rw e (zero-bit i)
bit-high (suc n) x zero h le = absurd (omega arith)
bit-high (suc n) x (suc i) h le = bit-high n (x / 2) i (omega (arith, pow-suc 2 n)) (omega arith)

pub bit_xor-lt : (n a b : ℕ) → a < 2 ^ n → b < 2 ^ n → bit_xor a b < 2 ^ n
bit_xor-lt zero a b p q =
    let e : a ≡ 0 = omega arith in
    let e' : b ≡ 0 = omega arith in rw (e, e') (omega (arith, bit_xor-zero 0))
bit_xor-lt (suc n) a b p q = omega (
  arith,
  bit_xor_step a b,
  bit_xor-lt n (a / 2) (b / 2) (omega (arith, pow-suc 2 n)) (omega (arith, pow-suc 2 n)),
  differ_small (a % 2) (b % 2) (omega arith) (omega arith),
  pow-suc 2 n,
)

-- A power of two has one bit.
pub two_pow-bit : (k i : ℕ) → bit (2 ^ k) i ≡ (if i == k then 1 else 0)
unfolding bit
two_pow-bit zero zero = refl
two_pow-bit zero (suc i) = zero-bit i ∙ ground arith
two_pow-bit (suc k) zero = ground (arith, pow-suc 2 k)
two_pow-bit (suc k) (suc i) =
    ap (λ t. bit t i) (omega (arith, pow-suc 2 k)) ∙ two_pow-bit k i ∙ ground arith

-- The sign of a 64-bit word is its bit 63.
pub is_neg-bit : (x : ℕ) → x < 2 ^ 64 → is_neg x ≡ (bit x 63 == 1)
is_neg-bit x h = ground (arith, bit-div 63 x)

pub bit_xor-neg :
    (a b : ℕ)
    → a < 2 ^ 64
    → b < 2 ^ 64
    → is_neg (bit_xor a b) ≡ (if is_neg a then (if is_neg b then false else true) else is_neg b)
bit_xor-neg a b p q =
    is_neg-bit (bit_xor a b) (bit_xor-lt 64 a b p q)
    ∙ ap (λ (t : ℕ). t == 1) (bit-bit_xor a b 63)
    ∙ split (bit a 63) (bit b 63) (bit-lt a 63) (bit-lt b 63)
    ∙ ap₂ (λ (s t : Bool). if s then (if t then false else true) else t) (sym (is_neg-bit a p))
        (sym (is_neg-bit b q))
  where
    split :
        (s t : ℕ)
        → s < 2
        → t < 2
        → (differ s t == 1) ≡ (if s == 1 then (if t == 1 then false else true) else t == 1)
    split zero t p q = refl
    split (suc zero) zero p q = refl
    split (suc zero) (suc zero) p q = refl
    split (suc zero) (suc (suc t)) p q = absurd (omega arith)
    split (suc (suc s)) t p q = absurd (omega arith)

-- `>>` moves every bit down.
pub bit-div_two_pow : (k x i : ℕ) → bit (x / 2 ^ k) i ≡ bit x (i + k)
unfolding bit
bit-div_two_pow zero x i =
    ap (λ t. bit t i) {x = x / 2 ^ 0} {y = x} (omega arith)
    ∙ ap (bit x) {x = i} {y = i + 0} (omega arith)
bit-div_two_pow (suc k) x i =
    ap (λ t. bit t i) halved ∙ bit-div_two_pow k (x / 2) i ∙ ap (bit x) (shifted i k)
  where
    halved : x / 2 ^ suc k ≡ x / 2 / 2 ^ k
    halved = ap (λ (t : ℕ). x / t) (twice k) ∙ sym (div-div-eq-div-mul x 2 (2 ^ k))
      where
        twice : (n : ℕ) → 2 ^ suc n ≡ 2 * 2 ^ n
        twice n = omega (arith, pow-suc 2 n)

    shifted : (a c : ℕ) → suc (a + c) ≡ a + suc c
    shifted a c = omega arith

pub bit_or_comm : (a b : ℕ) → bit_or a b ≡ bit_or b a
bit_or_comm a b =
    bit_ext_all (bit_or a b) (bit_or b a)
      (λ i. bit-bit_or a b i ∙ omega arith ∙ sym (bit-bit_or b a i))
