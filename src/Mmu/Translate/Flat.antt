-- ===== src/Mmu/Translate/Flat.antt =====
-- Translation with virtual memory off, or on the debug port: an address inside the memory is its
-- own offset.
use riscv_isa_sim.Base.{
  ◌||◌, ℕ, ◌+◌, ◌-◌, ◌*◌, ◌/◌, ◌%◌, ◌^◌, ◌<◌, ◌≤◌, ◌≡◌, ◌∙◌, ap, refl, arith, Bool, true, false,
  ◌==◌, ◌&&◌, not, if◌then◌else◌, bit_and, has, add64, sar64, bit_and_low, bit_and_field, none,
}
use riscv_isa_sim.Isa.Encoding.{pte_v, pte_perm, sr_vm, sr_s}
use riscv_isa_sim.Hart.Machine.{Machine, Mmu, done, main}
use riscv_isa_sim.Mmu.Walk.{walk, is_canonical}
use riscv_isa_sim.Mmu.Walk.Laws.{flat_pte}
use riscv_isa_sim.Mmu.Translate.{
  effective_perm, wanted_perm, page_base, translate, is_libspike, watched,
}
use riscv_isa_sim.Mmu.Translate.Tlb.{permitted, translate_walk, IsCoherent}
use riscv_isa_sim.Mmu.Translate.Tlb.Main.{with_mmu, translate_main-walk}

-- The machine maps the memory as it is, of at most 2 ^ 42 bytes.
pub record IsFlat (m : Machine) : Type 0 where
  pub no_tables : (m.attached && has m.state.sr sr_vm) ≡ false
  pub aligned : m.memsz % 2 ^ 13 ≡ 0
  pub small : m.memsz ≤ 2 ^ 42

canonical : (addr : ℕ) → addr < 2 ^ 42 → is_canonical addr ≡ true
unfolding is_canonical sar64
canonical addr h = ground arith

pub walk-flat :
    (m : Machine) (addr : ℕ)
    → IsFlat m
    → addr < m.memsz
    → walk m addr ≡ addr / 2 ^ 13 * 2 ^ 13 + 505
unfolding walk
walk-flat m addr f h =
    ground (
      arith,
      f.no_tables,
      f.small,
      canonical addr (omega (arith, f.small)),
      flat_pte (addr / 2 ^ 13),
    )

perm_of : (page : ℕ) → bit_and (page * 2 ^ 13 + 505) pte_perm ≡ 504
perm_of page = bit_and_field 6 3 (page * 2 ^ 13 + 505) ∙ omega arith

valid_of : (page : ℕ) → bit_and (page * 2 ^ 13 + 505) pte_v ≡ 1
valid_of page = bit_and_low 1 (page * 2 ^ 13 + 505) ∙ omega arith

effective_perm-flat :
    (m : Machine) (page : ℕ)
    → effective_perm m (page * 2 ^ 13 + 505)
      ≡ (if not m.attached || has m.state.sr sr_s then 57 else 505)
unfolding effective_perm
effective_perm-flat m page = ground (arith, perm_of page, valid_of page)

granted :
    (supervisor store fetch : Bool)
    → (bit_and (if supervisor then 57 else 505) (wanted_perm store fetch)
        == wanted_perm store fetch)
      ≡ true
unfolding wanted_perm
granted true true true = refl
granted true true false = refl
granted true false true = refl
granted true false false = refl
granted false true true = refl
granted false true false = refl
granted false false true = refl
granted false false false = refl

permitted-flat :
    (m : Machine) (addr : ℕ) (store fetch : Bool)
    → IsFlat m
    → addr < m.memsz
    → permitted m store fetch addr ≡ true
permitted-flat m addr store fetch f h =
    ap
      (λ (pte : ℕ).
        bit_and (effective_perm m pte) (wanted_perm store fetch) == wanted_perm store fetch)
      (walk-flat m addr f h)
    ∙ ap (λ (perm : ℕ). bit_and perm (wanted_perm store fetch) == wanted_perm store fetch)
        (effective_perm-flat m (addr / 2 ^ 13))
    ∙ granted (not m.attached || has m.state.sr sr_s) store fetch

flat_address :
    (addr : ℕ)
    → addr < 2 ^ 42
    → add64 (page_base (addr / 2 ^ 13 * 2 ^ 13 + 505)) (addr % 2 ^ 13) ≡ addr
unfolding page_base
flat_address addr h = omega arith

translate_walk-flat :
    (m : Machine) (addr bytes : ℕ) (store fetch : Bool)
    → IsFlat m
    → addr < m.memsz
    → has addr (bytes - 1) ≡ false
    → translate_walk addr bytes store fetch m ≡ done (main addr) m
unfolding translate_walk
translate_walk-flat m addr bytes store fetch f h e = rw (
  e,
  permitted-flat m addr store fetch f h,
  walk-flat m addr f h,
  flat_address addr (omega (arith, f.small)),
)

outside_libspike : (addr : ℕ) → addr < 2 ^ 42 → is_libspike addr ≡ false
unfolding is_libspike
outside_libspike addr h = ground arith

watched-none :
    (m : Machine) (addr : ℕ) (store fetch : Bool) → m.watch ≡ none → watched addr store fetch m ≡ m
unfolding watched
watched-none m addr store fetch w = rw w

-- An aligned access inside the memory goes to its address; the TLB stays coherent.
pub translate-flat :
    (m : Machine) (addr bytes : ℕ) (store fetch : Bool)
    → IsFlat m
    → IsCoherent m
    → m.watch ≡ none
    → addr < m.memsz
    → has addr (bytes - 1) ≡ false
    → (u : Mmu) × (translate addr bytes store fetch m ≡ done (main addr) (record m { mmu = u }))
      × IsCoherent (record m { mmu = u })
      × (u.has_no_tag ≡ m.mmu.has_no_tag)
unfolding translate
translate-flat m addr bytes store fetch f c w h e =
    let (u, same, kept, _, tagged) =
      translate_main-walk m addr bytes store fetch f.aligned c (omega (arith, f.small)) in
    (
      u,
      rw (outside_libspike addr (omega (arith, f.small)), watched-none m addr store fetch w)
          (same ∙ ap (with_mmu u) (translate_walk-flat m addr bytes store fetch f h e)),
      kept,
      tagged,
    )
