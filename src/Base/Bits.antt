-- ===== src/Base/Bits.antt =====
-- The bit operations at variables: what they do to each bit, and the masks of the code as
-- arithmetic.
use Prim.Native.Nat.{ℕ, zero, suc, ◌+◌, ◌-◌, ◌*◌, ◌/◌, ◌%◌, ◌^◌, ◌≤◌, ◌<◌, min, max}
use Prim.Native.Nat.{bit_and, bit_or, bit_xor, digits, differ}
use Prim.Native.Nat.{bit_and-bitwise, bit_or-bitwise, bit_xor-bitwise}
use mathlib.Core.Path.{◌≡◌, refl, ap, ◌∙◌, sym}
use native.Mathlib.Nat.{pow-suc, div-div-eq-div-mul, add_comm, one-le-pow, div-add-mod}
use native.Mathlib.Omega.{arith}

-- Bit i of a number.
unfoldable pub bit : ℕ → ℕ → ℕ
bit a zero = a % 2
bit a (suc i) = bit (a / 2) i

pub bit-lt : (a i : ℕ) → bit a i < 2
unfolding bit
bit-lt a zero = omega arith
bit-lt a (suc i) = bit-lt (a / 2) i

pub zero-bit : (i : ℕ) → bit 0 i ≡ 0
unfolding bit
zero-bit zero = refl
zero-bit (suc i) = zero-bit i

module _ (z : ℕ → ℕ) (f : ℕ → ℕ → ℕ) (z_bit : (b i : ℕ) → bit (z b) i ≡ f 0 (bit b i))
    (f_small : (x y : ℕ) → x < 2 → y < 2 → f x y < 2) where
  digits-bit : (i n a b : ℕ) → a ≤ n → bit (digits z f n a b) i ≡ f (bit a i) (bit b i)
  unfolding bit
  digits-bit i zero zero b h = z_bit b i ∙ ap (λ t. f t (bit b i)) (sym (zero-bit i))
  digits-bit i zero (suc a) b h = absurd (omega arith)
  digits-bit i (suc n) zero b h = z_bit b i ∙ ap (λ t. f t (bit b i)) (sym (zero-bit i))
  digits-bit zero (suc n) (suc a) b h =
      omega (arith, f_small (suc a % 2) (b % 2) (omega arith) (omega arith))
  digits-bit (suc i) (suc n) (suc a) b h =
      let small = f_small (suc a % 2) (b % 2) (omega arith) (omega arith) in
      let next : bit (digits z f n (suc a / 2) (b / 2)) i ≡ f (bit (suc a / 2) i) (bit (b / 2) i) =
        digits-bit i n (suc a / 2) (b / 2) (omega arith) in
      let halved : (digits z f n (suc a / 2) (b / 2) * 2 + f (suc a % 2) (b % 2)) / 2
          ≡ digits z f n (suc a / 2) (b / 2) =
        omega arith in
      ap (λ t. bit t i) halved ∙ next

min_small : (x y : ℕ) → x < 2 → y < 2 → min x y < 2
min_small x y p q = omega arith

max_small : (x y : ℕ) → x < 2 → y < 2 → max x y < 2
max_small x y p q = omega arith

-- Each operation acts on the bits one by one.
pub bit-bit_and : (a b i : ℕ) → bit (bit_and a b) i ≡ min (bit a i) (bit b i)
bit-bit_and a b i =
    ap (λ t. bit t i) (λ k. bit_and-bitwise a b k)
    ∙ digits-bit (λ _. 0) min (λ b i. omega (arith, zero-bit i)) min_small i a a b (omega arith)

pub bit-bit_or : (a b i : ℕ) → bit (bit_or a b) i ≡ max (bit a i) (bit b i)
bit-bit_or a b i =
    ap (λ t. bit t i) (λ k. bit_or-bitwise a b k)
    ∙ digits-bit (λ y. y) max (λ b i. omega arith) max_small i a a b (omega arith)

pub differ_small : (x y : ℕ) → x < 2 → y < 2 → differ x y < 2
differ_small zero y p q = q
differ_small (suc x) zero p q = p
differ_small (suc zero) (suc y) p q = omega arith
differ_small (suc (suc x)) (suc y) p q = absurd (omega arith)

pub bit-bit_xor : (a b i : ℕ) → bit (bit_xor a b) i ≡ differ (bit a i) (bit b i)
bit-bit_xor a b i =
    ap (λ t. bit t i) (λ k. bit_xor-bitwise a b k)
    ∙ digits-bit (λ y. y) differ (λ b i. refl) differ_small i a a b (omega arith)

pub bit-div : (i a : ℕ) → bit a i ≡ a / 2 ^ i % 2
unfolding bit
bit-div zero a = omega arith
bit-div (suc i) a =
    bit-div i (a / 2)
    ∙ ap (λ (t : ℕ). t % 2) (div-div-eq-div-mul a 2 (2 ^ i))
    ∙ ap (λ (t : ℕ). a / t % 2) (omega (arith, pow-suc 2 i))

-- A number is determined by its bits.
pub bit_ext : (n a b : ℕ) → a < 2 ^ n → b < 2 ^ n → ((i : ℕ) → i < n → bit a i ≡ bit b i) → a ≡ b
unfolding bit
bit_ext zero a b p q h = omega arith
bit_ext (suc n) a b p q h =
    let tops : a / 2 ≡ b / 2 =
      bit_ext n (a / 2) (b / 2) (omega (arith, pow-suc 2 n)) (omega (arith, pow-suc 2 n))
        (λ i lt. h (suc i) (omega arith)) in
    let lows : a % 2 ≡ b % 2 = h 0 (omega arith) in omega arith

pub lt-two_pow : (n : ℕ) → n < 2 ^ n
lt-two_pow zero = omega arith
lt-two_pow (suc n) = omega (arith, lt-two_pow n, pow-suc 2 n)

two_pow_mono : (m n : ℕ) → 2 ^ n ≤ 2 ^ (m + n)
two_pow_mono zero n = ground arith
two_pow_mono (suc m) n =
    let e : suc m + n ≡ suc (m + n) = omega arith in
    rw e (omega (arith, two_pow_mono m n, pow-suc 2 (m + n)))

pub bit_ext_all : (a b : ℕ) → ((i : ℕ) → bit a i ≡ bit b i) → a ≡ b
bit_ext_all a b h =
    bit_ext (b + a) a b (omega (arith, lt-two_pow a, two_pow_mono b a))
      (omega (arith, lt-two_pow b, two_pow_mono a b, ap (λ (t : ℕ). 2 ^ t) (add_comm a b)))
      (λ i _. h i)

-- The lowest digit of each operation.
pub bit_and_step : (x y : ℕ) → bit_and x y ≡ min (x % 2) (y % 2) + 2 * bit_and (x / 2) (y / 2)
unfolding bit
bit_and_step a b = bit_ext_all _ _ same
  where
    same : (i : ℕ) → bit (bit_and a b) i ≡ bit (min (a % 2) (b % 2) + 2 * bit_and (a / 2) (b / 2)) i
    same zero = bit-bit_and a b 0 ∙ omega arith
    same (suc i) =
        bit-bit_and a b (suc i)
        ∙ sym (bit-bit_and (a / 2) (b / 2) i)
        ∙ ap (λ t. bit t i) (omega arith)

pub bit_or_step : (x y : ℕ) → bit_or x y ≡ max (x % 2) (y % 2) + 2 * bit_or (x / 2) (y / 2)
unfolding bit
bit_or_step a b = bit_ext_all _ _ same
  where
    same : (i : ℕ) → bit (bit_or a b) i ≡ bit (max (a % 2) (b % 2) + 2 * bit_or (a / 2) (b / 2)) i
    same zero = bit-bit_or a b 0 ∙ omega arith
    same (suc i) =
        bit-bit_or a b (suc i)
        ∙ sym (bit-bit_or (a / 2) (b / 2) i)
        ∙ ap (λ t. bit t i) (omega arith)

pub bit_xor_step : (a b : ℕ) → bit_xor a b ≡ bit_xor (a / 2) (b / 2) * 2 + differ (a % 2) (b % 2)
unfolding bit
bit_xor_step a b = bit_ext_all _ _ same
  where
    small : differ (a % 2) (b % 2) < 2
    small = differ_small (a % 2) (b % 2) (omega arith) (omega arith)

    same :
        (i : ℕ) → bit (bit_xor a b) i ≡ bit (bit_xor (a / 2) (b / 2) * 2 + differ (a % 2) (b % 2)) i
    same zero = bit-bit_xor a b 0 ∙ omega (arith, small)
    same (suc i) =
        bit-bit_xor a b (suc i)
        ∙ sym (bit-bit_xor (a / 2) (b / 2) i)
        ∙ ap (λ t. bit t i) (omega (arith, small))

pub bit_xor-zero : (a : ℕ) → bit_xor a 0 ≡ a
bit_xor-zero a =
    bit_ext_all _ _
      (λ i. bit-bit_xor a 0 i ∙ ap (differ (bit a i)) (zero-bit i) ∙ differ-zero (bit a i))
  where
    differ-zero : (x : ℕ) → differ x 0 ≡ x
    differ-zero zero = refl
    differ-zero (suc x) = refl

pub bit_and-zero : (a : ℕ) → bit_and a 0 ≡ 0
bit_and-zero a = bit_ext_all _ _ (λ i. bit-bit_and a 0 i ∙ omega (arith, zero-bit i))

pub bit_or-zero : (a : ℕ) → bit_or a 0 ≡ a
bit_or-zero a = bit_ext_all _ _ (λ i. bit-bit_or a 0 i ∙ omega (arith, zero-bit i))

mod_twice : (a p : ℕ) → a % (2 * p) ≡ a % 2 + a / 2 % p * 2
mod_twice a p = omega (
  arith,
  div-add-mod a (2 * p),
  div-add-mod (a / 2) p,
  ap (λ (t : ℕ). p * t) (div-div-eq-div-mul a 2 p),
)

-- A mask of k low ones is the remainder by 2 ^ k.
pub bit_and_low : (k a : ℕ) → bit_and a (2 ^ k - 1) ≡ a % 2 ^ k
bit_and_low zero a = bit_and-zero a ∙ omega arith
bit_and_low (suc k) a = omega (
  arith,
  bit_and_step a (2 ^ suc k - 1),
  ap (bit_and (a / 2)) (halved k),
  bit_and_low k (a / 2),
  pow-suc 2 k,
  one-le-pow k 2,
  mod_twice a (2 ^ k),
  ap (λ (t : ℕ). a % t) (doubled k),
)
  where
    halved : (n : ℕ) → (2 ^ suc n - 1) / 2 ≡ 2 ^ n - 1
    halved n = omega (arith, pow-suc 2 n)

    doubled : (n : ℕ) → 2 ^ suc n ≡ 2 * 2 ^ n
    doubled n = omega (arith, pow-suc 2 n)

-- A mask whose k lowest bits are clear.
pub bit_and_high : (k a m : ℕ) → bit_and a (m * 2 ^ k) ≡ bit_and (a / 2 ^ k) m * 2 ^ k
bit_and_high zero a m = ground arith
bit_and_high (suc k) a m = omega (
  arith,
  bit_and_step a (m * 2 ^ suc k),
  ap (λ (t : ℕ). m * t) (pow-suc 2 k),
  ap (λ (t : ℕ). bit_and (a / 2) t) (halved k),
  bit_and_high k (a / 2) m,
  ap (λ (t : ℕ). bit_and t m * 2 ^ k) (shifted k),
  ap (λ (t : ℕ). bit_and (a / 2 ^ suc k) m * t) (pow-suc 2 k),
)
  where
    halved : (n : ℕ) → m * 2 ^ suc n / 2 ≡ m * 2 ^ n
    halved n = omega (arith, ap (λ (t : ℕ). m * t) (pow-suc 2 n))

    shifted : (n : ℕ) → a / 2 / 2 ^ n ≡ a / 2 ^ suc n
    shifted n = div-div-eq-div-mul a 2 (2 ^ n) ∙ ap (λ (t : ℕ). a / t) (omega (arith, pow-suc 2 n))
