-- ===== src/Cache/Geometry.antt =====
-- The shift of riscv/cachesim.cc's `init`, the bounds of its arrays, the address of a line written
-- back, and `reset`.
use riscv_isa_sim.Base.{
  bit, bit-bit_or, two_pow-bit, zero-bit, ==_iff, lt-two_pow, ℕ, zero, suc, ◌+◌, ◌-◌, ◌*◌, ◌/◌, ◌%◌,
  ◌^◌, ◌≤◌, ◌<◌, ◌≡◌, refl, ap, ◌∙◌, sym, Bool, ◌==◌, if◌then◌else◌, Bool-cases, inl, inr, bit_and,
  bit_or, bit_and_step, bit_and-zero, shr64, u64, Option, none, some, List, [], ◌∷◌, length, arith,
}
use native.Mathlib.Nat.{
  div-add-mod, div-div-eq-div-mul, mod-lt, pow-suc, div-add-mod', mul-le-mul_right,
}
use riscv_isa_sim.Cache.Sim.{
  CacheSim, init_cache, count_bits, lfsr_next, line_tag, set_index, find_way, find_key, check_tag,
  victimize, insert_key, erase_at, dirty_addr, dirty_bit, valid_bit,
}
use riscv_isa_sim.Cache.Access.{reset_counts}
use riscv_isa_sim.Cache.Lines.{Config, config, line_small}
use riscv_isa_sim.Cache.TagWords.{line-tag}

count_bits-step :
    (fuel x n : ℕ) → 0 < x → count_bits (suc fuel) x n ≡ count_bits fuel (x / 2) (n + 1)
unfolding count_bits
count_bits-step fuel x n h = elim (Bool-cases (x == 0)) [
  | inl none_left ↦ absurd (ground arith)
  | inr more ↦ rw more
]

-- The loop counts one more than the logarithm.
count_bits-two_pow : (fuel k n : ℕ) → k < fuel → count_bits (suc fuel) (2 ^ k) n ≡ n + suc k
unfolding count_bits
count_bits-two_pow zero k n h = absurd (omega arith)
count_bits-two_pow (suc fuel) zero n h = ground arith
count_bits-two_pow (suc fuel) (suc k) n h =
    count_bits-step (suc fuel) (2 ^ suc k) n (omega (arith, lt-two_pow (suc k)))
    ∙ ap (λ (x : ℕ). count_bits (suc fuel) x (n + 1)) (omega (arith, pow-suc 2 k))
    ∙ count_bits-two_pow fuel k (n + 1) (omega arith)
    ∙ omega arith

bit_and-le : (top a b : ℕ) → b ≤ top → bit_and a b ≤ b
bit_and-le zero a b h = ground (arith, bit_and-zero a)
bit_and-le (suc top) a b h = omega (arith, bit_and_step a b, bit_and-le top (a / 2) (b / 2))

length-insert_key : (l : List (ℕ × ℕ)) (key v : ℕ) → length (insert_key l key v) ≤ suc (length l)
unfolding insert_key
length-insert_key [] key v = omega arith
length-insert_key ((k, w) ∷ rest) key v = ground (arith, length-insert_key rest key v)

length-erase_at : (l : List (ℕ × ℕ)) (i : ℕ) → i < length l → suc (length (erase_at l i)) ≡ length l
unfolding erase_at
length-erase_at [] i h = absurd (omega arith)
length-erase_at (x ∷ rest) zero h = refl
length-erase_at (x ∷ rest) (suc i) h = ap suc (length-erase_at rest i (omega arith))

-- A line brought in changes no tag outside the array, and the map of a fully associative cache that
-- holds at most as many lines as there are ways still does.
pub victimize_bounds :
    (c : CacheSim) (addr i : ℕ)
    → 0 < c.sets
    → 0 < c.ways
    → length c.fa_tags ≤ c.ways
    → c.sets * c.ways ≤ i
    → ((victimize c addr).0.tags i ≡ c.tags i) × (length (victimize c addr).0.fa_tags ≤ c.ways)
unfolding victimize
victimize_bounds c addr i sets ways fits outside = (array, map)
  where
    way : ℕ
    way = lfsr_next c.lfsr % c.ways

    below : suc (set_index c addr) ≤ c.sets
    below =
        omega (arith, bit_and-le (c.sets - 1) (shr64 addr c.idx_shift) (c.sets - 1) (omega arith))

    index_lt : set_index c addr * c.ways + way < c.sets * c.ways
    index_lt = omega (
      arith,
      mod-lt (lfsr_next c.lfsr) ways,
      mul-le-mul_right {m = suc (set_index c addr)} c.ways (below),
    )

    array : (victimize c addr).0.tags i ≡ c.tags i
    array = ground (arith, index_lt)

    map : length (victimize c addr).0.fa_tags ≤ c.ways
    map = ground (
      arith,
      length-insert_key c.fa_tags (shr64 addr c.idx_shift) (line_tag c addr),
      length-insert_key (erase_at c.fa_tags way) (shr64 addr c.idx_shift) (line_tag c addr),
      length-erase_at c.fa_tags way,
      mod-lt (lfsr_next c.lfsr) ways,
    )

-- The address of the write-back of a line that was entered for an address.
dirty_addr-line_tag :
    (c : CacheSim) (addr : ℕ)
    → addr < 2 ^ 64
    → 2 ≤ c.idx_shift
    → dirty_addr c (bit_or (line_tag c addr) dirty_bit) ≡ addr - addr % 2 ^ c.idx_shift
unfolding dirty_addr line_tag
dirty_addr-line_tag c addr small deep =
    ap (λ (x : ℕ). u64 (x * 2 ^ c.idx_shift))
      (line-tag (shr64 addr c.idx_shift) (line_small addr c.idx_shift small deep))
    ∙ omega (arith, div-add-mod' addr (2 ^ c.idx_shift))

no_way : (left tag index : ℕ) → 0 < tag → find_way left (λ _. 0) tag index ≡ none
unfolding find_way
no_way zero tag index h = refl
no_way (suc left) tag index h = ground (arith, no_way left tag (index + 1))

line_tag-pos : (c : CacheSim) (addr : ℕ) → 0 < line_tag c addr
unfolding line_tag
line_tag-pos c addr = elim (Bool-cases (line_tag c addr == 0)) [
  | inl empty ↦ absurd (
      ground (
        arith,
        bit-bit_or (shr64 addr c.idx_shift) valid_bit 63,
        two_pow-bit 63 63,
        zero-bit 63,
        ap (λ (t : ℕ). bit t 63) ((==_iff (line_tag c addr) 0).0 empty),
      ))
  | inr other ↦ ground arith
]

-- `reset` empties a set-associative cache, and leaves a fully associative one with all its lines.
pub check_tag-reset_counts :
    (c : CacheSim) (addr : ℕ)
    → check_tag (reset_counts c) addr ≡ (if c.is_fa then check_tag c addr else none)
unfolding check_tag reset_counts
check_tag-reset_counts c addr = elim (Bool-cases c.is_fa) [
  | inl fa ↦ rw fa
  | inr array ↦
      ground
        (arith, no_way c.ways (line_tag c addr) (set_index c addr * c.ways), line_tag-pos c addr)
]

init-idx_shift :
    (is_fa : Bool) (sets ways k : ℕ) {c : CacheSim}
    → init_cache is_fa sets ways (2 ^ k) ≡ some c
    → k < 63
    → c.idx_shift ≡ suc k
unfolding init_cache
init-idx_shift is_fa sets ways k {c} e small = ground (arith, count_bits-two_pow 63 k 0)

check_tag-same_line :
    (c : CacheSim) (a b : ℕ)
    → shr64 a c.idx_shift ≡ shr64 b c.idx_shift
    → check_tag c a ≡ check_tag c b
unfolding check_tag set_index line_tag
check_tag-same_line c a b same = ap look same
  where
    look : ℕ → Option ℕ
    look q =
        if c.is_fa
        then elim (find_key c.fa_tags q) [ none ↦ none | some _ ↦ some q ]
        else find_way c.ways c.tags (bit_or q valid_bit) (bit_and q (c.sets - 1) * c.ways)

-- In every state of a cache that `init` made for lines of 2 ^ k bytes, two addresses of the same
-- 2 * 2 ^ k bytes are looked up alike: two neighbouring lines are one.
pub init-check_tag :
    (is_fa : Bool) (sets ways k : ℕ) {c : CacheSim}
    → init_cache is_fa sets ways (2 ^ k) ≡ some c
    → k < 63
    → (c' : CacheSim) → config c' ≡ config c
    → (a b : ℕ) → a / (2 * 2 ^ k) ≡ b / (2 * 2 ^ k)
    → check_tag c' a ≡ check_tag c' b
init-check_tag is_fa sets ways k e small c' same a b together = check_tag-same_line c' a b (
    ap (λ (n : ℕ). a / 2 ^ n) shift
    ∙ ap (λ (t : ℕ). a / t) double
    ∙ together
    ∙ sym (ap (λ (t : ℕ). b / t) double)
    ∙ sym (ap (λ (n : ℕ). b / 2 ^ n) shift))
  where
    shift : c'.idx_shift ≡ suc k
    shift = ap (λ (d : Config). d.idx_shift) same ∙ init-idx_shift is_fa sets ways k e small

    double : 2 ^ suc k ≡ 2 * 2 ^ k
    double = omega (arith, pow-suc 2 k)

even_start : (a p : ℕ) → a - a % (2 * p) + a / p % 2 * p ≡ a / p * p
even_start a p = omega (
  arith,
  div-add-mod a (2 * p),
  ap (λ (t : ℕ). p * t)
      (div-div-eq-div-mul a p 2 ∙ ap (λ (t : ℕ). a / t) {x = p * 2} {y = 2 * p} (omega arith)),
  ap (λ (t : ℕ). p * t) (div-add-mod (a / p) 2),
)

-- The write-back of a line goes to the wrong line for every second one. In every state of a cache
-- that `init` made for lines of 2 ^ k bytes, k from 1 to 62, and for an `addr` of 64 bits, the
-- address that a dirty line entered for `addr` is written back to is the start of the line that
-- holds `addr` where the number of that line is even, and the start of the line before where it is
-- odd.
pub init-dirty_addr :
    (is_fa : Bool) (sets ways k : ℕ) {c : CacheSim}
    → init_cache is_fa sets ways (2 ^ k) ≡ some c
    → 1 ≤ k
    → k < 63
    → (c' : CacheSim) → config c' ≡ config c
    → (addr : ℕ) → addr < 2 ^ 64
    → dirty_addr c' (bit_or (line_tag c' addr) dirty_bit) + addr / 2 ^ k % 2 * 2 ^ k
      ≡ addr / 2 ^ k * 2 ^ k
init-dirty_addr is_fa sets ways k e some_bits small c' same addr bounded =
    ap (λ (n : ℕ). n + addr / 2 ^ k % 2 * 2 ^ k)
      (dirty_addr-line_tag c' addr bounded (omega (arith, shift))
        ∙ ap (λ (n : ℕ). addr - addr % 2 ^ n) shift
        ∙ ap (λ (n : ℕ). addr - addr % n) (omega (arith, pow-suc 2 k)))
    ∙ even_start addr (2 ^ k)
  where
    shift : c'.idx_shift ≡ suc k
    shift = ap (λ (d : Config). d.idx_shift) same ∙ init-idx_shift is_fa sets ways k e small
