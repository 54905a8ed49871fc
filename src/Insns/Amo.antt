-- ===== src/Insns/Amo.antt =====
-- Atomic instructions, and load-reserved and store-conditional.
use riscv_isa_sim.Base.{
  ℕ, Bool, true, false, ◌==◌, ltb, if◌then◌else◌, bit_and, bit_or, bit_xor, u32, add64, slt64,
  sext32,
}
use riscv_isa_sim.Build.{Build}
use riscv_isa_sim.Tags.{tag_add, tag_logic, tag_null}
use riscv_isa_sim.Hart.Machine.{modify_state, ◌>>=◌, ◌>>◌}
use riscv_isa_sim.Mmu.Memory.{TaggedReg, load_tagged, store_tagged}
use riscv_isa_sim.Insns.Macros.{InsnFunc, rs1_val, rs2_val, tag_s2, result, require_xpr64}

-- `std::max` and `std::min` by the given order.
abbrev pub max_by : (ℕ → ℕ → Bool) → ℕ → ℕ → ℕ
max_by less a b = if less a b then b else a

abbrev pub min_by : (ℕ → ℕ → Bool) → ℕ → ℕ → ℕ
min_by less a b = if less b a then b else a

module _ (garbage : ℕ) where
  -- A load, a store of `op(RS2, v.val)` with a tag, and `WRITE_RD_AND_TAG` with a tag: what the
  -- loaded value and tag, and the value and tag of RS2, give.
  unfoldable pub amo :
      (bytes : ℕ) (signed : Bool)
      → (op : ℕ → ℕ → ℕ) → (tag : TaggedReg → ℕ → ℕ) → (tag_rd : TaggedReg → ℕ → ℕ) → InsnFunc
  unfolding result
  amo bytes signed op tag tag_rd xpr64 insn pc m =
      (do
        v ← load_tagged garbage bytes signed (rs1_val insn m)
        store_tagged bytes (rs1_val insn m) (op (rs2_val insn m) v.val) (tag v (tag_s2 insn m))
        result xpr64 insn pc v.val (tag_rd v (tag_s2 insn m)))
        m

  unfoldable pub rv_amoswap_w : InsnFunc
  unfolding amo
  rv_amoswap_w = amo 4 true (λ s _. s) (λ _ t. t) (λ v _. v.tag)

  unfoldable pub rv_amoswap_d : InsnFunc
  unfolding amo require_xpr64
  rv_amoswap_d xpr64 insn pc =
      require_xpr64 xpr64 (amo 8 false (λ s _. s) (λ _ t. t) (λ v _. v.tag) xpr64 insn pc)

  unfoldable pub rv_lr_w : InsnFunc
  unfolding result
  rv_lr_w xpr64 insn pc m =
      (do
        modify_state (λ s. record s { load_reservation = rs1_val insn m })
        v ← load_tagged garbage 4 true (rs1_val insn m)
        result xpr64 insn pc v.val v.tag)
        m

  unfoldable pub rv_lr_d : InsnFunc
  unfolding result require_xpr64
  rv_lr_d xpr64 insn pc = require_xpr64 xpr64 (λ m.
      (do
        modify_state (λ s. record s { load_reservation = rs1_val insn m })
        v ← load_tagged garbage 8 true (rs1_val insn m)
        result xpr64 insn pc v.val v.tag)
        m)

  module _ (b : Build) where
    unfoldable pub rv_amoadd_w : InsnFunc
    unfolding amo
    rv_amoadd_w = amo 4 true add64 (λ v t. tag_add b v.tag t) (λ v _. v.tag)

    unfoldable pub rv_amoadd_d : InsnFunc
    unfolding amo require_xpr64
    rv_amoadd_d xpr64 insn pc =
        require_xpr64 xpr64
          (amo 8 false add64 (λ v t. tag_add b v.tag t) (λ v _. v.tag) xpr64 insn pc)

    unfoldable pub rv_amoand_w : InsnFunc
    unfolding amo
    rv_amoand_w = amo 4 true bit_and (λ v t. tag_logic b v.tag t) (λ v _. v.tag)

    unfoldable pub rv_amoand_d : InsnFunc
    unfolding amo require_xpr64
    rv_amoand_d xpr64 insn pc =
        require_xpr64 xpr64
          (amo 8 false bit_and (λ v t. tag_logic b v.tag t) (λ v _. v.tag) xpr64 insn pc)

    unfoldable pub rv_amoor_w : InsnFunc
    unfolding amo
    rv_amoor_w = amo 4 true bit_or (λ v t. tag_logic b v.tag t) (λ v _. v.tag)

    unfoldable pub rv_amoor_d : InsnFunc
    unfolding amo require_xpr64
    rv_amoor_d xpr64 insn pc =
        require_xpr64 xpr64
          (amo 8 false bit_or (λ v t. tag_logic b v.tag t) (λ v _. v.tag) xpr64 insn pc)

    unfoldable pub rv_amoxor_w : InsnFunc
    unfolding amo
    rv_amoxor_w = amo 4 true bit_xor (λ v t. tag_logic b v.tag t) (λ v _. v.tag)

    unfoldable pub rv_amoxor_d : InsnFunc
    unfolding amo require_xpr64
    rv_amoxor_d xpr64 insn pc =
        require_xpr64 xpr64
          (amo 8 false bit_xor (λ v t. tag_logic b v.tag t) (λ v _. v.tag) xpr64 insn pc)

    unfoldable pub rv_amomax_w : InsnFunc
    unfolding amo
    rv_amomax_w =
        amo 4 true (λ s v. max_by slt64 (sext32 s) (sext32 v)) (λ v t. tag_logic b v.tag t)
          (λ v _. v.tag)

    unfoldable pub rv_amomax_d : InsnFunc
    unfolding amo require_xpr64
    rv_amomax_d xpr64 insn pc =
        require_xpr64 xpr64
          (amo 8 true (max_by slt64) (λ v t. tag_logic b v.tag t) (λ v _. v.tag) xpr64 insn pc)

    unfoldable pub rv_amomin_w : InsnFunc
    unfolding amo
    rv_amomin_w =
        amo 4 true (λ s v. min_by slt64 (sext32 s) (sext32 v)) (λ v t. tag_logic b v.val t)
          (λ v _. v.tag)

    unfoldable pub rv_amomin_d : InsnFunc
    unfolding amo require_xpr64
    rv_amomin_d xpr64 insn pc =
        require_xpr64 xpr64
          (amo 8 true (min_by slt64) (λ v t. tag_logic b v.val t) (λ v _. v.tag) xpr64 insn pc)

    unfoldable pub rv_amomaxu_w : InsnFunc
    unfolding amo
    rv_amomaxu_w =
        amo 4 true (λ s v. max_by ltb (u32 s) (u32 v)) (λ v t. tag_logic b v.val t) (λ v _. v.tag)

    unfoldable pub rv_amomaxu_d : InsnFunc
    unfolding amo require_xpr64
    rv_amomaxu_d xpr64 insn pc =
        require_xpr64 xpr64
          (amo 8 false (max_by ltb) (λ v t. tag_logic b v.tag t) (λ v _. v.tag) xpr64 insn pc)

    unfoldable pub rv_amominu_w : InsnFunc
    unfolding amo
    rv_amominu_w =
        amo 4 true (λ s v. min_by ltb (u32 s) (u32 v)) (λ v t. tag_logic b v.tag t) (λ v _. v.tag)

    unfoldable pub rv_amominu_d : InsnFunc
    unfolding amo require_xpr64
    rv_amominu_d xpr64 insn pc = require_xpr64 xpr64 (
        amo 8 false (min_by ltb) (λ v t. tag_logic b v.val t) (λ v t. tag_logic b v.tag t) xpr64
          insn pc)

-- The store is made where the address is the reserved one.
unfoldable pub store_conditional : ℕ → InsnFunc
unfolding result
store_conditional bytes xpr64 insn pc m =
    if rs1_val insn m == m.state.load_reservation
    then (do
      store_tagged bytes (rs1_val insn m) (rs2_val insn m) (tag_s2 insn m)
      result xpr64 insn pc 0 tag_null)
        m
    else result xpr64 insn pc 1 tag_null m

unfoldable pub rv_sc_w : InsnFunc
unfolding store_conditional
rv_sc_w = store_conditional 4

unfoldable pub rv_sc_d : InsnFunc
unfolding store_conditional require_xpr64
rv_sc_d xpr64 insn pc = require_xpr64 xpr64 (store_conditional 8 xpr64 insn pc)
