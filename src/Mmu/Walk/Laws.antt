-- ===== src/Mmu/Walk/Laws.antt =====
-- A walk finds one mapping for each page, and only mappings inside the memory.
use riscv_isa_sim.Base.{
  bit_or_comm, bit_or_sum, inl, ◌⊎◌, ℕ, zero, suc, ◌+◌, ◌-◌, ◌*◌, ◌/◌, ◌%◌, ◌^◌, ◌<◌, ◌≡◌, ◌∙◌, ap,
  sym, refl, arith, bit_and, bit_or, add64, shl64, shr64, sar64,
}
use native.Mathlib.Nat.{div-div-eq-div-mul, pow-suc}
use riscv_isa_sim.Hart.Machine.{Machine}
use riscv_isa_sim.Mmu.Walk.{walk, walk_levels, leaf, read_bytes, is_canonical, pgshift, ptidxbits}

two_pow-add : (a b : ℕ) → 2 ^ (a + b) ≡ 2 ^ a * 2 ^ b
two_pow-add zero b = ap (λ (t : ℕ). 2 ^ t) {x = 0 + b} {y = b} (omega arith) ∙ omega arith
two_pow-add (suc a) b =
    ap (λ (t : ℕ). 2 ^ t) {x = suc a + b} {y = suc (a + b)} (omega arith)
    ∙ omega (arith, pow-suc 2 (a + b), two_pow-add a b, ap (λ (t : ℕ). t * 2 ^ b) (pow-suc 2 a))

-- Bits above the page offset are those of the page number.
shr-page : (addr k : ℕ) → shr64 addr (13 + k) ≡ shr64 (shr64 addr 13) k
shr-page addr k =
    ap (λ (t : ℕ). addr / t) (two_pow-add 13 k) ∙ sym (div-div-eq-div-mul addr (2 ^ 13) (2 ^ k))

leaf-page :
    (memsz k addr addr' ptd : ℕ)
    → shr64 addr 13 ≡ shr64 addr' 13
    → leaf memsz k addr ptd ≡ leaf memsz k addr' ptd
unfolding leaf
leaf-page memsz k addr addr' ptd e = ground arith

is_canonical-page :
    (addr addr' : ℕ)
    → addr < 2 ^ 64
    → addr' < 2 ^ 64
    → shr64 addr 13 ≡ shr64 addr' 13
    → is_canonical addr ≡ is_canonical addr'
unfolding is_canonical sar64
is_canonical-page addr addr' p q e = ground arith

walk_levels-page :
    (mem : ℕ → ℕ) (memsz n base addr addr' : ℕ)
    → shr64 addr 13 ≡ shr64 addr' 13
    → walk_levels mem memsz n base addr ≡ walk_levels mem memsz n base addr'
unfolding walk_levels
walk_levels-page mem memsz zero base addr addr' e = refl
walk_levels-page mem memsz (suc n) base addr addr' e =
    unfold walk_levels in
    ground (
      arith,
      same (n * ptidxbits),
      leaf-page memsz (n * ptidxbits) addr addr' (ptd addr) e,
      walk_levels-page mem memsz n (shl64 (shr64 (ptd addr) pgshift) pgshift) addr addr' e,
    )
  where
    same : (k : ℕ) → shr64 addr (13 + k) ≡ shr64 addr' (13 + k)
    same k = shr-page addr k ∙ ap (λ (t : ℕ). t / 2 ^ k) e ∙ sym (shr-page addr' k)

    ptd : ℕ → ℕ
    ptd a =
        read_bytes mem 8
          (add64 base (bit_and (shr64 a (pgshift + n * ptidxbits)) (2 ^ ptidxbits - 1) * 8))

-- Two addresses of one page have one mapping, where the memory is a whole number of pages.
pub walk-page :
    (m : Machine) (addr addr' : ℕ)
    → addr < 2 ^ 64
    → addr' < 2 ^ 64
    → m.memsz % 2 ^ 13 ≡ 0
    → shr64 addr 13 ≡ shr64 addr' 13
    → walk m addr ≡ walk m addr'
unfolding walk
walk-page m addr addr' p q align e = ground (
  arith,
  is_canonical-page addr addr' p q e,
  walk_levels-page m.mem m.memsz 3 m.state.ptbr addr addr' e,
)

leaf-in_memory :
    (memsz k addr ptd : ℕ)
    → (leaf memsz k addr ptd ≡ 0) ⊎ (shl64 (shr64 (leaf memsz k addr ptd) 13) 13 < memsz)
unfolding leaf
leaf-in_memory memsz k addr ptd = ground arith

walk_levels-in_memory :
    (mem : ℕ → ℕ) (memsz n base addr : ℕ)
    → (walk_levels mem memsz n base addr ≡ 0)
      ⊎ (shl64 (shr64 (walk_levels mem memsz n base addr) 13) 13 < memsz)
unfolding walk_levels
walk_levels-in_memory mem memsz zero base addr = inl refl
walk_levels-in_memory mem memsz (suc n) base addr = ground (
  arith,
  leaf-in_memory memsz (n * ptidxbits) addr ptd,
  walk_levels-in_memory mem memsz n (shl64 (shr64 ptd pgshift) pgshift) addr,
)
  where
    ptd : ℕ
    ptd =
        read_bytes mem 8
          (add64 base (bit_and (shr64 addr (pgshift + n * ptidxbits)) (2 ^ ptidxbits - 1) * 8))

pub flat_pte : (page : ℕ) → bit_or 505 (page * 2 ^ 13) ≡ page * 2 ^ 13 + 505
flat_pte page = bit_or_comm 505 (page * 2 ^ 13) ∙ bit_or_sum 13 page 505 (omega arith)

-- What a walk returns is no mapping, or a page that starts inside the memory.
pub walk-in_memory :
    (m : Machine) (addr : ℕ)
    → addr < 2 ^ 64
    → (walk m addr ≡ 0) ⊎ (shl64 (shr64 (walk m addr) 13) 13 < m.memsz)
unfolding walk
walk-in_memory m addr h =
    ground (arith, walk_levels-in_memory m.mem m.memsz 3 m.state.ptbr addr, flat)
  where
    flat : bit_or 505 (shl64 (shr64 addr 13) 13) ≡ addr / 2 ^ 13 * 2 ^ 13 + 505
    flat = ap (bit_or 505) (omega arith) ∙ flat_pte (addr / 2 ^ 13)
