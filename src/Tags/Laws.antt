-- ===== src/Tags/Laws.antt =====
-- The tag policies, bit by bit.
use riscv_isa_sim.Base.{
  ℕ, ◌≡◌, ◌∙◌, arith, bit, bit-lt, bit-bit_and, bit-bit_or, min, max, ◌==◌, if◌then◌else◌, zero,
  suc, refl, zero-bit,
}
use riscv_isa_sim.Tags.{tag_max, tag_min}

one-bit : (i : ℕ) → bit 1 i ≡ (if i == 0 then 1 else 0)
unfolding bit
one-bit zero = refl
one-bit (suc i) = zero-bit i ∙ ground arith

four-bit : (i : ℕ) → bit 4 i ≡ (if i == 2 then 1 else 0)
unfolding bit
four-bit zero = refl
four-bit (suc zero) = refl
four-bit (suc (suc zero)) = refl
four-bit (suc (suc (suc i))) = zero-bit i ∙ ground arith

-- TAG_MAX is the highest privilege of two tags: the PC tag of either, the data tag only of both,
-- and no other bit. TAG_MIN is the lowest: the PC tag only of both, the data tag of either.
pub tag_max_min_lem :
    (t u i : ℕ)
    → (bit (tag_max t u) i ≡ (
        if i == 0 then max (bit t 0) (bit u 0) else if i == 2 then min (bit t 2) (bit u 2) else 0))
      × (bit (tag_min t u) i ≡ (
          if i == 0
          then min (bit t 0) (bit u 0)
          else if i == 2
          then max (bit t 2) (bit u 2)
          else 0))
tag_max_min_lem t u i = (
  unfold tag_max in
      simp (bit-bit_or, bit-bit_and, one-bit, four-bit) (ground (arith, bit-lt t i, bit-lt u i)),
  unfold tag_min in
      simp (bit-bit_or, bit-bit_and, one-bit, four-bit) (ground (arith, bit-lt t i, bit-lt u i)),
)
