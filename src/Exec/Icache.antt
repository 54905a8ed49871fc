-- ===== src/Exec/Icache.antt =====
-- The instruction cache of riscv/mmu.h: `icache_index` and `access_icache`.
use riscv_isa_sim.Base.{
  ℕ, ◌+◌, ◌-◌, ◌/◌, ◌%◌, Bool, true, false, ◌==◌, ltb, if◌then◌else◌, bit_and, bit_or, add64, shl64,
  minus_one,
}
use riscv_isa_sim.Isa.Insn.{insn_length}
use riscv_isa_sim.Hart.Machine.{
  Machine, M, done, ◌>>=◌, HostPtr, main, page, tag_byte, stray, Access, IcacheEntry,
}
use riscv_isa_sim.Mmu.Walk.{pgsize}
use riscv_isa_sim.Mmu.Translate.{translate}
use riscv_isa_sim.Mmu.Memory.{extend, host_read, trace, interested_in_range}

abbrev pub icache_entries : ℕ
icache_entries = 1024

unfoldable pub icache_index : ℕ → ℕ
icache_index addr = addr / 4 % icache_entries

-- `p + n` on a pointer of the host.
unfoldable pub ptr_add : HostPtr → ℕ → HostPtr
ptr_add (main p) n = main (p + n)
ptr_add (page p) n = page (p + n)
ptr_add (tag_byte p) n = tag_byte (p + n)
ptr_add (stray p) n = stray (p + n)

-- `*(uint16_t*)p` and `*(int16_t*)p` as an insn_bits_t.
unfoldable pub read_half : Bool → HostPtr → Machine → ℕ
unfolding extend host_read
read_half signed p m = extend 2 signed (host_read m p 2)

-- `*(int16_t*)translate(addr, 2, false, true) << shift`.
unfoldable pub fetch_half : Bool → ℕ → ℕ → M ℕ
unfolding read_half
fetch_half signed addr shift =
    translate addr 2 false true >>= λ p m. done (shl64 (read_half signed p m) shift) m

-- The rest of a word of 4, 6 or 8 bytes, after its first two.
unfoldable pub fetch_4 : ℕ → HostPtr → ℕ → M ℕ
unfolding read_half fetch_half
fetch_4 addr iaddr insn m =
    if ltb (bit_and addr (pgsize - 1)) (pgsize - 2)
    then done (bit_or insn (shl64 (read_half true (ptr_add iaddr 2) m) 16)) m
    else (do high ← fetch_half true (add64 addr 2) 16; done (bit_or insn high)) m

unfoldable pub fetch_6 : ℕ → ℕ → M ℕ
unfolding fetch_half
fetch_6 addr insn = (do
  high ← fetch_half true (add64 addr 4) 32
  middle ← fetch_half false (add64 addr 2) 16
  done (bit_or (bit_or insn high) middle))

unfoldable pub fetch_8 : ℕ → ℕ → M ℕ
unfolding fetch_half
fetch_8 addr insn = (do
  top ← fetch_half true (add64 addr 6) 48
  high ← fetch_half false (add64 addr 4) 32
  middle ← fetch_half false (add64 addr 2) 16
  done (bit_or (bit_or (bit_or insn top) high) middle))

-- The word at an address, whose first two bytes are at a pointer.
unfoldable pub fetch_insn : ℕ → HostPtr → M ℕ
unfolding read_half fetch_4 fetch_6 fetch_8 insn_length
fetch_insn addr iaddr m =
    let insn = read_half false iaddr m in
    if insn_length insn == 2
    then done (read_half true iaddr m) m
    else if insn_length insn == 4
    then fetch_4 addr iaddr insn m
    else if insn_length insn == 6
    then fetch_6 addr insn m
    else fetch_8 addr insn m

abbrev pub fetch_access : HostPtr → Access
fetch_access p = record {
  addr = p;
  bytes = 1;
  store = false;
  fetch = true;
  is_tag = false;
  val = 0;
}

-- `icache[idx] = {addr, fetch}`, where a tracer that wants fetches keeps the entry out of use.
unfoldable pub fill_icache : ℕ → ℕ → HostPtr → Machine → Machine
unfolding trace interested_in_range
fill_icache addr insn iaddr m =
    let tag = if interested_in_range (fetch_access iaddr) m.tracers then minus_one else addr in
    let entry : IcacheEntry = record { tag = tag; insn = insn; rv64 = m.rv64 } in
    trace (fetch_access iaddr) (record m {
      mmu = record m.mmu { icache = λ i. if i == icache_index addr then entry else m.mmu.icache i };
    })

-- The index of the entry.
unfoldable pub access_icache : ℕ → M ℕ
unfolding icache_index fetch_insn fill_icache
access_icache addr m =
    if (m.mmu.icache (icache_index addr)).tag == addr
    then done (icache_index addr) m
    else (do
      iaddr ← translate addr 4 false true
      insn ← fetch_insn addr iaddr
      λ after. done (icache_index addr) (fill_icache addr insn iaddr after))
        m
