-- ===== src/Cache/TagWords.antt =====
-- The words in `tags` of riscv/cachesim.cc: VALID, DIRTY and the number of the line, and the search
-- for one.
use riscv_isa_sim.Base.{
  bit_ext, bit_and-lt, zero-bit, bit-bit_or, ℕ, zero, suc, ◌+◌, ◌-◌, ◌^◌, ◌≤◌, ◌<◌, min, ◌≡◌, refl,
  ap, ◌∙◌, ◌==◌, if◌then◌else◌, Bool-cases, inl, inr, bit_and, bit_or, not64, bit, bit-lt,
  bit-bit_and, bit-not, bit-high, two_pow-bit, bit_ext_all, some, arith,
}
use riscv_isa_sim.Cache.Sim.{find_way, dirty_bit, valid_bit}

abbrev pub clean_mask : ℕ
clean_mask = not64 dirty_bit

bit-dirty : (i : ℕ) → bit dirty_bit i ≡ (if i == 62 then 1 else 0)
bit-dirty i = two_pow-bit 62 i

clean_mask-bit : bit clean_mask 62 ≡ 0
unfolding bit
clean_mask-bit = refl

-- Setting DIRTY does not change what `check_tag` compares.
pub clean-dirty : (v : ℕ) → bit_and (bit_or v dirty_bit) clean_mask ≡ bit_and v clean_mask
clean-dirty v = bit_ext_all _ _ (λ i. at i)
  where
    at : (i : ℕ) → bit (bit_and (bit_or v dirty_bit) clean_mask) i ≡ bit (bit_and v clean_mask) i
    at i = elim (Bool-cases (i == 62)) [
      | inl top ↦ ground (
        arith,
        bit-bit_and (bit_or v dirty_bit) clean_mask i,
        bit-bit_and v clean_mask i,
        clean_mask-bit,
      )
      | inr other ↦
          rw
            (
              bit-bit_and (bit_or v dirty_bit) clean_mask i,
              bit-bit_and v clean_mask i,
              bit-bit_or v dirty_bit i,
              bit-dirty i,
              other,
            )
            (ap (λ (b : ℕ). min b (bit clean_mask i)) (omega (arith, bit-lt v i)))
    ]

-- A bit of the mask.
clean_mask-bits : (i : ℕ) → i < 64 → bit clean_mask i ≡ (if i == 62 then 0 else 1)
clean_mask-bits i small = ground (arith, bit-not 64 dirty_bit i (omega arith), bit-dirty i)

-- A tag as it is stored for a line is found as it is.
pub clean-tag : (x : ℕ) → x < 2 ^ 62 → bit_and (bit_or x valid_bit) clean_mask ≡ bit_or x valid_bit
clean-tag x small = bit_ext_all _ _ (λ i. bit-bit_and (bit_or x valid_bit) clean_mask i ∙ at i)
  where
    at : (i : ℕ) → min (bit (bit_or x valid_bit) i) (bit clean_mask i) ≡ bit (bit_or x valid_bit) i
    at i = ground (
      arith,
      bit-bit_or x valid_bit i,
      two_pow-bit 63 i,
      bit-high 62 x i,
      bit-lt x i,
      clean_mask-bits i,
    )

-- The number of the line, from its tag with VALID and perhaps DIRTY.
pub line-tag :
    (x : ℕ)
    → x < 2 ^ 62
    → bit_and (bit_or (bit_or x valid_bit) dirty_bit) (not64 (valid_bit + dirty_bit)) ≡ x
line-tag x small =
    bit_ext 62 _ _ (bit_and-lt 62 _ _ (omega arith)) small
      (λ i below. bit-bit_and (bit_or (bit_or x valid_bit) dirty_bit) (2 ^ 62 - 1) i ∙ at i below)
  where
    at :
        (i : ℕ)
        → i < 62
        → min (bit (bit_or (bit_or x valid_bit) dirty_bit) i) (bit (2 ^ 62 - 1) i) ≡ bit x i
    at i below = ground (
      arith,
      bit-bit_or (bit_or x valid_bit) dirty_bit i,
      bit-bit_or x valid_bit i,
      two_pow-bit 63 i,
      bit-dirty i,
      bit-lt x i,
      bit-not 62 0 i,
      zero-bit i,
    )

module _ (tags tags' : ℕ → ℕ) (tag : ℕ) where
  -- The search finds an index of the set, in range, that holds the tag.
  pub find_way-found :
      (left index : ℕ) {way : ℕ}
      → find_way left tags tag index ≡ some way
      → (index ≤ way) × (way < index + left) × (tag ≡ bit_and (tags way) clean_mask)
  unfolding find_way
  find_way-found zero index h = absurd (cc)
  find_way-found (suc left) index {way = w} h =
      elim (Bool-cases (tag == bit_and (tags index) clean_mask)) [
        | inl here ↦ ground (arith)
        | inr more ↦ grind (arith, find_way-found left (index + 1) {way = w})
      ]

  -- It finds one where there is one.
  pub find_way_complete :
      (left index w : ℕ)
      → index ≤ w
      → w < index + left
      → tag ≡ bit_and (tags w) clean_mask
      → (way : ℕ) × (find_way left tags tag index ≡ some way)
  unfolding find_way
  find_way_complete zero index w from to holds = absurd (omega arith)
  find_way_complete (suc left) index w from to holds =
      elim (Bool-cases (tag == bit_and (tags index) clean_mask)) [
        | inl here ↦ (index, rw here)
        | inr more ↦
            rw more (find_way_complete left (index + 1) w (ground arith) (omega arith) holds)
      ]

  -- It sees the tags but for DIRTY.
  pub find_way_ext :
      ((i : ℕ) → bit_and (tags i) clean_mask ≡ bit_and (tags' i) clean_mask)
      → (left index : ℕ) → find_way left tags tag index ≡ find_way left tags' tag index
  unfolding find_way
  find_way_ext same zero index = refl
  find_way_ext same (suc left) index = rw (same index, find_way_ext same left (index + 1))
