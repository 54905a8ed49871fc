-- ===== src/Mmu/Translate.antt =====
-- `translate`, `__translate` and `refill_tlb` of riscv/mmu.h and riscv/mmu.cc.
pub mod Tlb
pub mod Flat
use riscv_isa_sim.Base.{
  List, ℕ, ◌+◌, ◌-◌, ◌*◌, ◌/◌, ◌%◌, ◌^◌, Bool, true, false, ltb, ◌==◌, ◌&&◌, ◌||◌, not,
  if◌then◌else◌, bit_and, bit_or, has, add64, sub64, shl64, shr64, not64, u32, minus_one, Option,
  none, some, ◌∷◌,
}
use riscv_isa_sim.Isa.Encoding.{
  pte_v, pte_perm, pte_ux, pte_uw, pte_ur, pte_sx, sr_s, cause_fault_fetch, cause_fault_store,
  cause_fault_load, cause_misaligned_fetch, cause_misaligned_store, cause_misaligned_load,
}
use riscv_isa_sim.WatchLoc
use riscv_isa_sim.WatchLoc.{WatchLoc}
use riscv_isa_sim.Hart.Machine.{Machine, Mmu, Trap, M, Outcome, done, trapped}
use riscv_isa_sim.Hart.Machine.{HostPtr, main, page}
use riscv_isa_sim.Mmu.Walk.{walk, pgshift, pgsize}

abbrev pub tlb_entries : ℕ
tlb_entries = 256

abbrev pub libspike_base_addr : ℕ
libspike_base_addr = 0x2000_0000_0000

abbrev pub libspike_fn_offset : ℕ
libspike_fn_offset = 0xe00

abbrev pub mem_trap : ℕ → ℕ → Trap
mem_trap cause addr = record { cause = cause; badvaddr = some addr }

-- The permissions of a translation for the mode of the hart: those of the supervisor are moved to
-- the places of the user's.
unfoldable pub effective_perm : Machine → ℕ → ℕ
effective_perm m pte =
    let perm = bit_and pte pte_perm in
    let perm' =
      if not m.attached || has m.state.sr sr_s
      then bit_and (perm / (pte_sx / pte_ux)) pte_perm
      else perm in
    bit_or perm' (bit_and pte pte_v)

-- What the access asks for.
unfoldable pub wanted_perm : Bool → Bool → ℕ
wanted_perm store fetch = bit_or (if fetch then pte_ux else if store then pte_uw else pte_ur) pte_v

unfoldable pub access_fault : Bool → Bool → ℕ → Trap
access_fault store fetch addr =
    if fetch
    then mem_trap cause_fault_fetch addr
    else if store
    then mem_trap cause_fault_store addr
    else mem_trap cause_fault_load addr

unfoldable pub misaligned : Bool → Bool → ℕ → Trap
misaligned store fetch addr =
    if store
    then mem_trap cause_misaligned_store addr
    else if fetch
    then mem_trap cause_misaligned_fetch addr
    else mem_trap cause_misaligned_load addr

abbrev pub update : (ℕ → ℕ) → ℕ → ℕ → ℕ → ℕ
update f k v i = if i == k then v else f i

unfoldable pub tlb_index : ℕ → ℕ
tlb_index addr = shr64 addr pgshift % tlb_entries

-- `pte >> PGSHIFT << PGSHIFT`
unfoldable pub page_base : ℕ → ℕ
page_base pte = shl64 (shr64 pte pgshift) pgshift

-- The entry that a translation leaves in the TLB.
unfoldable pub fill_tlb : ℕ → ℕ → ℕ → Mmu → Mmu
fill_tlb addr pte perm u =
    let idx = tlb_index addr in
    let tag = shr64 addr pgshift in
    record u {
      tlb_load_tag = update u.tlb_load_tag idx (if has perm pte_ur then tag else minus_one);
      tlb_store_tag = update u.tlb_store_tag idx (if has perm pte_uw then tag else minus_one);
      tlb_insn_tag = update u.tlb_insn_tag idx (if has perm pte_ux then tag else minus_one);
      tlb_data = update u.tlb_data idx (sub64 (page_base pte) (bit_and addr (not64 (pgsize - 1))));
    }

unfoldable pub refill_tlb : ℕ → Bool → Bool → M HostPtr
refill_tlb addr store fetch m =
    let pte = walk m addr in
    let perm = effective_perm m pte in
    let wanted = wanted_perm store fetch in
    let paddr = add64 (page_base pte) (bit_and addr (pgsize - 1)) in
    if bit_and perm wanted == wanted
    then done (main paddr) (record m { mmu = fill_tlb addr pte perm m.mmu })
    else trapped (access_fault store fetch addr) m

-- The number of the function called by an access of the page, if any; five are registered. The
-- quotient is kept in an `int`.
unfoldable pub get_libspike_fn_ind : ℕ → Option ℕ
get_libspike_fn_ind addr =
    let ind = u32 (sub64 addr (libspike_base_addr + libspike_fn_offset) / 8) in
    if ltb ind (2 ^ 31) && ltb ind 5 then some ind else none

-- The tag that the TLB holds for an access.
unfoldable pub tlb_tag : Mmu → Bool → Bool → ℕ → ℕ
tlb_tag u store fetch idx =
    if fetch then u.tlb_insn_tag idx else if store then u.tlb_store_tag idx else u.tlb_load_tag idx

-- `__translate` on an address outside the page of `libspike`.
unfoldable pub translate_main : ℕ → ℕ → Bool → Bool → M HostPtr
translate_main addr bytes store fetch m =
    let idx = tlb_index addr in
    if has addr (bytes - 1)
    then trapped (misaligned store fetch addr) m
    else if tlb_tag m.mmu store fetch idx == shr64 addr pgshift
    then done (main (add64 (m.mmu.tlb_data idx) addr)) m
    else refill_tlb addr store fetch m

-- An access of the page of `libspike` calls the function, and goes to the buffer of the page.
unfoldable pub enter_libspike : ℕ → Machine → Machine
unfolding get_libspike_fn_ind
enter_libspike addr m =
    let calls : List ℕ = elim (get_libspike_fn_ind addr) [
      | none ↦ m.libspike_calls
      | some i ↦ i ∷ m.libspike_calls
    ] in
    record m { mmu = record m.mmu { has_no_tag = true }; libspike_calls = calls }

unfoldable pub is_libspike : ℕ → Bool
is_libspike addr = shr64 addr pgshift == shr64 libspike_base_addr pgshift

unfoldable pub watched : ℕ → Bool → Bool → Machine → Machine
unfolding WatchLoc.access
watched addr store fetch m =
    let watch : Option WatchLoc = elim m.watch [
      | none ↦ none
      | some w ↦ some (if store && not fetch then WatchLoc.access addr m.state.pc w else w)
    ] in
    record m { watch = watch }

unfoldable pub translate : ℕ → ℕ → Bool → Bool → M HostPtr
translate addr bytes store fetch m =
    let m' = watched addr store fetch m in
    if is_libspike addr
    then done (page (bit_and addr (2 ^ pgshift - 1))) (enter_libspike addr m')
    else translate_main addr bytes store fetch m'
