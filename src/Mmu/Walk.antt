-- ===== src/Mmu/Walk.antt =====
-- `walk` of riscv/mmu.cc: the page table walk.
pub mod Laws
use riscv_isa_sim.Base.{
  ℕ, zero, suc, ◌+◌, ◌-◌, ◌*◌, ◌/◌, ◌%◌, ◌^◌, Bool, true, false, ltb, ◌==◌, ◌&&◌, not,
  if◌then◌else◌, bit_and, bit_or, has, add64, mul64, shl64, shr64, sar64,
}
use riscv_isa_sim.Isa.Encoding.{pte_v, pte_t, pte_perm, sr_vm}
use riscv_isa_sim.Hart.Machine.{Machine}

abbrev pub levels : ℕ
levels = 3

abbrev pub ptidxbits : ℕ
ptidxbits = 10

abbrev pub pgshift : ℕ
pgshift = 13

abbrev pub pgsize : ℕ
pgsize = 2 ^ 13

abbrev pub va_bits : ℕ
va_bits = 43

-- n bytes of memory from p on, the lowest first.
unfoldable pub read_bytes : (ℕ → ℕ) → ℕ → ℕ → ℕ
read_bytes mem zero p = 0
read_bytes mem (suc n) p = mem p + 256 * read_bytes mem n (p + 1)

-- What the loop does with a leaf at a level of `ptshift`: the low bits of the page number are
-- added for a page of a larger table, and a page beyond the memory is no mapping.
unfoldable pub leaf : ℕ → ℕ → ℕ → ℕ → ℕ
leaf memsz ptshift addr ptd =
    let vpn = shr64 addr pgshift in
    let ptd' = bit_or ptd (shl64 (bit_and vpn (2 ^ ptshift - 1)) pgshift) in
    if ltb (shl64 (shr64 ptd' pgshift) pgshift) memsz then ptd' else 0

-- The loop with `n` levels left, `ptshift = (n - 1) * PTIDXBITS`.
unfoldable pub walk_levels : (ℕ → ℕ) → ℕ → ℕ → ℕ → ℕ → ℕ
walk_levels mem memsz zero base addr = 0
walk_levels mem memsz (suc n) base addr =
    let ptshift = n * ptidxbits in
    let idx = bit_and (shr64 addr (pgshift + ptshift)) (2 ^ ptidxbits - 1) in
    let pte_addr = add64 base (idx * 8) in
    let ptd = read_bytes mem 8 pte_addr in
    let next = walk_levels mem memsz n (shl64 (shr64 ptd pgshift) pgshift) addr in
    if not (ltb pte_addr memsz)
    then 0
    else if not (has ptd pte_v)
    then 0
    else if has ptd pte_t
    then next
    else leaf memsz ptshift addr ptd

-- The address is a sign-extended number of VA_BITS bits.
unfoldable pub is_canonical : ℕ → Bool
unfolding sar64
is_canonical addr = sar64 (shl64 addr (64 - va_bits)) (64 - va_bits) == addr

unfoldable pub walk : Machine → ℕ → ℕ
walk m addr =
    if not (is_canonical addr)
    then 0
    else if m.attached && has m.state.sr sr_vm
    then walk_levels m.mem m.memsz levels m.state.ptbr addr
    else if ltb addr m.memsz
    then bit_or (bit_or pte_v pte_perm) (shl64 (shr64 addr pgshift) pgshift)
    else 0
