-- ===== src/Hart/Status/Laws.antt =====
-- What a write to the status register leaves in it.
use riscv_isa_sim.Base.{
  ℕ, ◌^◌, ◌<◌, ◌≡◌, ◌∙◌, refl, arith, Bool, true, false, ltb, leb, ◌==◌, ◌&&◌, ◌||◌, not,
  if◌then◌else◌, bit, bit-lt, bit-bit_and, bit-bit_or, bit_and-lt, bit_and, bit_or, not32,
  all_below, all_below_sound, ==_iff,
}
use riscv_isa_sim.Build.{Build}
use riscv_isa_sim.Isa.Encoding.{sr_ip, sr_zero, sr_s64, sr_u64, sr_ef, sr_ea}
use riscv_isa_sim.Hart.Status.{next_sr}

-- The bits of the masks of `set_pcr`, below 32.
abbrev pub mask_test : ℕ → (ℕ → Bool) → ℕ → Bool
mask_test mask p i = bit mask i == (if p i then 1 else 0)

pub mask_bits :
    (mask : ℕ) (p : ℕ → Bool) (i : ℕ)
    → all_below 32 (mask_test mask p) ≡ true
    → i < 32
    → bit mask i ≡ (if p i then 1 else 0)
mask_bits mask p i h lt =
    (==_iff (bit mask i) (if p i then 1 else 0)).0 (all_below_sound 32 (mask_test mask p) i h lt)

-- The positions of IP, and those that SR_ZERO, the 32-bit build, the build without
-- floating point and the hart without extension clear.
abbrev pub is_ip : ℕ → Bool
is_ip i = leb 24 i

abbrev pub is_unused : ℕ → Bool
is_unused i = leb 9 i && ltb i 16

abbrev pub is_cleared : Build → Bool → ℕ → Bool
is_cleared b has_ext i =
    is_unused i
    || (not b.enable_64bit && (i == 5 || i == 6))
    || (not b.enable_fpu && i == 4)
    || (not has_ext && i == 8)

pub ip_bits : (i : ℕ) → i < 32 → bit sr_ip i ≡ (if is_ip i then 1 else 0)
ip_bits i h = mask_bits sr_ip is_ip i (unfold all_below bit in refl) h

not_ip_bits : (i : ℕ) → i < 32 → bit (not32 sr_ip) i ≡ (if is_ip i then 0 else 1)
not_ip_bits i h =
    mask_bits (not32 sr_ip) (λ j. not (is_ip j)) i (unfold all_below bit in refl) h ∙ ground arith

not_zero_bits : (i : ℕ) → i < 32 → bit (not32 sr_zero) i ≡ (if is_unused i then 0 else 1)
not_zero_bits i h =
    mask_bits (not32 sr_zero) (λ j. not (is_unused j)) i (unfold all_below bit in refl) h
    ∙ ground arith

not_64_bits :
    (i : ℕ) → i < 32 → bit (not32 (bit_or sr_s64 sr_u64)) i ≡ (if i == 5 || i == 6 then 0 else 1)
not_64_bits i h =
    mask_bits (not32 (bit_or sr_s64 sr_u64)) (λ j. not (j == 5 || j == 6)) i
      (unfold all_below bit in refl) h
    ∙ ground arith

not_ef_bits : (i : ℕ) → i < 32 → bit (not32 sr_ef) i ≡ (if i == 4 then 0 else 1)
not_ef_bits i h =
    mask_bits (not32 sr_ef) (λ j. not (j == 4)) i (unfold all_below bit in refl) h ∙ ground arith

not_ea_bits : (i : ℕ) → i < 32 → bit (not32 sr_ea) i ≡ (if i == 8 then 0 else 1)
not_ea_bits i h =
    mask_bits (not32 sr_ea) (λ j. not (j == 8)) i (unfold all_below bit in refl) h ∙ ground arith

merged_bits :
    (val sr i : ℕ)
    → i < 32
    → bit (bit_or (bit_and val (not32 sr_ip)) (bit_and sr sr_ip)) i
      ≡ (if is_ip i then bit sr i else bit val i)
merged_bits val sr i h = ground (
  arith,
  bit-bit_or (bit_and val (not32 sr_ip)) (bit_and sr sr_ip) i,
  bit-bit_and val (not32 sr_ip) i,
  bit-bit_and sr sr_ip i,
  ip_bits i h,
  not_ip_bits i h,
  bit-lt val i,
  bit-lt sr i,
)

-- A mask applied where a condition fails.
masked_bits :
    (keep : Bool) (mask : ℕ) (cleared : Bool) (x i : ℕ)
    → bit mask i ≡ (if cleared then 0 else 1)
    → bit (if keep then x else bit_and x mask) i
      ≡ (if keep then bit x i else if cleared then 0 else bit x i)
masked_bits keep mask cleared x i h = ground (arith, bit-bit_and x mask i, bit-lt x i)

-- A write keeps the pending interrupts, clears what the build or the hart does not have, and takes
-- every other bit of the status register from the value.
pub next_sr-bits :
    (b : Build) (has_ext : Bool) (val sr i : ℕ)
    → i < 32
    → bit (next_sr b has_ext val sr) i
      ≡ (if is_ip i then bit sr i else if is_cleared b has_ext i then 0 else bit val i)
unfolding next_sr
next_sr-bits b has_ext val sr i h = ground (
  arith,
  merged_bits val sr i h,
  masked_bits b.enable_64bit (not32 (bit_or sr_s64 sr_u64)) (i == 5 || i == 6) sr1 i
      (not_64_bits i h),
  masked_bits b.enable_fpu (not32 sr_ef) (i == 4) sr2 i (not_ef_bits i h),
  masked_bits has_ext (not32 sr_ea) (i == 8) sr3 i (not_ea_bits i h),
  bit-bit_and sr4 (not32 sr_zero) i,
  not_zero_bits i h,
  bit-lt sr4 i,
)
  where
    sr1 : ℕ
    sr1 = bit_or (bit_and val (not32 sr_ip)) (bit_and sr sr_ip)

    sr2 : ℕ
    sr2 = if b.enable_64bit then sr1 else bit_and sr1 (not32 (bit_or sr_s64 sr_u64))

    sr3 : ℕ
    sr3 = if b.enable_fpu then sr2 else bit_and sr2 (not32 sr_ef)

    sr4 : ℕ
    sr4 = if has_ext then sr3 else bit_and sr3 (not32 sr_ea)

-- A status register that the hart can hold: 32 bits, and none that is always clear.
pub record IsValidSr (b : Build) (has_ext : Bool) (sr : ℕ) : Type 0 where
  pub small : sr < 2 ^ 32
  pub clear : (i : ℕ) → i < 32 → is_ip i ≡ false → is_cleared b has_ext i ≡ true → bit sr i ≡ 0

pub next_sr-lt : (b : Build) (has_ext : Bool) (val sr : ℕ) → next_sr b has_ext val sr < 2 ^ 32
unfolding next_sr
next_sr-lt b has_ext val sr = bit_and-lt 32 _ (not32 sr_zero) (omega arith)

-- Whatever is written, the status register is one that the hart can hold.
pub next_sr-IsValidSr :
    (b : Build) (has_ext : Bool) (val sr : ℕ) → IsValidSr b has_ext (next_sr b has_ext val sr)
next_sr-IsValidSr b has_ext val sr = record {
  small = next_sr-lt b has_ext val sr;
  clear = λ i h n c. next_sr-bits b has_ext val sr i h ∙ rw (n, c);
}
