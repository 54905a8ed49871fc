-- ===== src/Tags.antt =====
-- riscv/tagpolicy.h: the tag of a result from the tags of the operands, under each policy.
pub mod Laws
use riscv_isa_sim.Base.{ℕ, bit_and, bit_or, bit_xor, not64, if◌then◌else◌}
use riscv_isa_sim.Build.{Build}

abbrev pub tag_data : ℕ
tag_data = 4

abbrev pub tag_pc : ℕ
tag_pc = 1

abbrev pub tag_default : ℕ
tag_default = 0

abbrev pub priv_mask : ℕ
priv_mask = tag_pc

abbrev pub unpriv_mask : ℕ
unpriv_mask = tag_data

abbrev pub tag_csr : ℕ
tag_csr = tag_default

abbrev pub tag_null : ℕ
tag_null = 0

abbrev pub tag_immediate : ℕ
tag_immediate = tag_default

abbrev pub tag_float : ℕ
tag_float = tag_data

abbrev pub tag_htif : ℕ
tag_htif = tag_default

unfoldable pub clear_pc_tag : ℕ → ℕ
clear_pc_tag tag = bit_and tag (not64 tag_pc)

-- The combinations of most and of least privilege.
unfoldable pub tag_max : ℕ → ℕ → ℕ
tag_max tag1 tag2 =
    bit_or (bit_and priv_mask (bit_or tag1 tag2)) (bit_and unpriv_mask (bit_and tag1 tag2))

unfoldable pub tag_min : ℕ → ℕ → ℕ
tag_min tag1 tag2 =
    bit_or (bit_and priv_mask (bit_and tag1 tag2)) (bit_and unpriv_mask (bit_or tag1 tag2))

module _ (b : Build) where
  unfoldable pub tag_add : ℕ → ℕ → ℕ
  unfolding clear_pc_tag tag_max
  tag_add tag1 tag2 =
      if b.no_return_copy
      then clear_pc_tag (bit_xor tag1 tag2)
      else if b.no_partial_copy
      then tag_max tag1 tag2
      else bit_xor tag1 tag2

  unfoldable pub tag_sub : ℕ → ℕ → ℕ
  unfolding clear_pc_tag tag_max
  tag_sub tag1 tag2 =
      if b.no_return_copy
      then clear_pc_tag (bit_xor tag1 tag2)
      else if b.no_partial_copy
      then tag_max tag1 tag2
      else bit_xor tag1 tag2

  unfoldable pub tag_arith : ℕ → ℕ → ℕ
  unfolding clear_pc_tag tag_min
  tag_arith tag1 tag2 =
      if b.no_return_copy
      then clear_pc_tag (bit_and tag1 tag2)
      else if b.no_partial_copy
      then tag_min tag1 tag2
      else bit_and tag1 tag2

  unfoldable pub tag_logic : ℕ → ℕ → ℕ
  unfolding clear_pc_tag tag_max
  tag_logic tag1 tag2 =
      if b.no_return_copy
      then clear_pc_tag (bit_and tag1 tag2)
      else if b.no_partial_copy
      then tag_max tag1 tag2
      else bit_and tag1 tag2

-- The forms with an immediate operand keep the tag of the register.
abbrev pub tag_add_immediate : ℕ → ℕ
tag_add_immediate tag1 = tag1

abbrev pub tag_sub_immediate : ℕ → ℕ
tag_sub_immediate tag1 = tag1

abbrev pub tag_arith_immediate : ℕ → ℕ
tag_arith_immediate tag1 = tag1

abbrev pub tag_logic_immediate : ℕ → ℕ
tag_logic_immediate tag1 = tag1
