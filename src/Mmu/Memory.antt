-- ===== src/Mmu/Memory.antt =====
-- Loads and stores of riscv/mmu.h, with their tags: the macros `load_func`, `load_func_tagged`,
-- `store_func` and `store_func_tagged`. No tracker is attached.
pub mod Laws
use riscv_isa_sim.Base.{
  ℕ, zero, suc, ◌+◌, ◌-◌, ◌*◌, ◌/◌, ◌%◌, ◌^◌, Bool, true, false, ◌==◌, ◌&&◌, ◌||◌, not,
  if◌then◌else◌, ltb, u8, List, [], ◌∷◌,
}
use riscv_isa_sim.Hart.Machine.{
  Machine, Mmu, M, Outcome, done, trapped, serialize_thrown, ◌>>=◌, ◌>>◌, gets, modify, HostPtr,
  main, page, tag_byte, stray, Tracer, icache_sim, dcache_sim, tag_memtracer, Access,
}
use riscv_isa_sim.Mmu.Walk.{read_bytes}
use riscv_isa_sim.Mmu.Translate.{translate, update}

abbrev pub mem_to_tag_ratio : ℕ
mem_to_tag_ratio = 8

pub record TaggedReg : Type 0 where
  pub val : ℕ
  pub tag : ℕ

-- n bytes of a value from p on, the lowest first.
unfoldable pub write_bytes : (ℕ → ℕ) → ℕ → ℕ → ℕ → ℕ → ℕ
write_bytes mem zero p v = mem
write_bytes mem (suc n) p v = update (write_bytes mem n (p + 1) (v / 256)) p (v % 256)

-- `*(type*)p`, where the type is signed or not, at 64 bits.
unfoldable pub extend : ℕ → Bool → ℕ → ℕ
extend bytes signed v =
    if signed && not (ltb v (2 ^ (8 * bytes - 1))) then v + (2 ^ 64 - 2 ^ (8 * bytes)) else v

unfoldable pub host_read : Machine → HostPtr → ℕ → ℕ
host_read m (main p) bytes = read_bytes m.mem bytes p
host_read m (page p) bytes = read_bytes m.libspike_page bytes p
host_read m (tag_byte p) bytes = read_bytes m.tagmem bytes p
host_read m (stray p) bytes = 0

unfoldable pub host_write : HostPtr → ℕ → ℕ → Machine → Machine
host_write (main p) bytes v m = record m { mem = write_bytes m.mem bytes p v }
host_write (page p) bytes v m = record m { libspike_page = write_bytes m.libspike_page bytes p v }
host_write (tag_byte p) bytes v m = record m { tagmem = write_bytes m.tagmem bytes p v }
host_write (stray p) bytes v m = m

-- `interested_in_range` of one tracer, and of the list.
unfoldable pub is_interested : Access → Tracer → Bool
is_interested a icache_sim = a.fetch
is_interested a dcache_sim = not a.fetch && not a.is_tag
is_interested a tag_memtracer = a.is_tag && a.store

unfoldable pub interested_in_range : Access → List Tracer → Bool
interested_in_range a [] = false
interested_in_range a (t ∷ ts) = is_interested a t || interested_in_range a ts

unfoldable pub trace : Access → Machine → Machine
trace a m = record m { traced = if interested_in_range a m.tracers then a ∷ m.traced else m.traced }

-- The byte that holds the tag of a word. C leaves open what is at a stray one: it reads 0 and
-- keeps nothing.
unfoldable pub paddr_to_tagaddr : HostPtr → HostPtr
paddr_to_tagaddr (main p) = tag_byte (p / mem_to_tag_ratio)
paddr_to_tagaddr (page p) = stray p
paddr_to_tagaddr (tag_byte p) = stray p
paddr_to_tagaddr (stray p) = stray p

abbrev pub clear_no_tag : Machine → Machine
clear_no_tag m = record m { mmu = record m.mmu { has_no_tag = false } }

abbrev pub data_access : HostPtr → ℕ → Bool → ℕ → Access
data_access p bytes store v = record {
  addr = p;
  bytes = bytes;
  store = store;
  fetch = false;
  is_tag = false;
  val = v;
}

abbrev pub tag_access : HostPtr → Bool → ℕ → Access
tag_access p store v = record {
  addr = p;
  bytes = 1;
  store = store;
  fetch = false;
  is_tag = true;
  val = v;
}

unfoldable pub load : ℕ → Bool → ℕ → M ℕ
unfolding extend host_read trace
load bytes signed addr = translate addr bytes false false >>= λ paddr m.
    done (extend bytes signed (host_read m paddr bytes))
      (clear_no_tag (trace (data_access paddr bytes false 0) m))

unfoldable pub store : ℕ → ℕ → ℕ → M (Unit {0})
unfolding host_write trace
store bytes addr val = translate addr bytes true false >>= λ paddr m. done tt (
    clear_no_tag
      (host_write paddr bytes val (trace (data_access paddr bytes true (val % 2 ^ (8 * bytes))) m)))

-- `garbage` is what the variable of the tag holds when it is not set, which C leaves open.
unfoldable pub load_tagged : (garbage : ℕ) → ℕ → Bool → ℕ → M TaggedReg
unfolding extend host_read trace paddr_to_tagaddr
load_tagged garbage bytes signed addr = translate addr bytes false false >>= λ paddr m.
    let val = extend bytes signed (host_read m paddr bytes) in
    let tagaddr = paddr_to_tagaddr paddr in
    if m.mmu.has_no_tag
    then done (record { val = val; tag = garbage }) (clear_no_tag m)
    else done (record { val = val; tag = host_read m tagaddr 1 })
        (clear_no_tag
          (trace (tag_access tagaddr false 0) (trace (data_access paddr bytes false 0) m)))

unfoldable pub store_tagged : ℕ → ℕ → ℕ → ℕ → M (Unit {0})
unfolding host_write trace paddr_to_tagaddr
store_tagged bytes addr val tag = translate addr bytes true false >>= λ paddr m.
    let m1 = host_write paddr bytes val m in
    let tagaddr = paddr_to_tagaddr paddr in
    if m.mmu.has_no_tag
    then done tt (clear_no_tag m1)
    else done tt (
        clear_no_tag (
          trace (tag_access tagaddr true (u8 tag)) (
            host_write tagaddr 1 tag
              (trace (data_access paddr bytes true (val % 2 ^ (8 * bytes))) m1))))

-- `store_tag_value`: the tag of the word at an address, alone.
unfoldable pub store_tag_value : ℕ → ℕ → M (Unit {0})
unfolding host_write trace paddr_to_tagaddr
store_tag_value value addr = translate addr 1 true false >>= λ paddr m.
    let tagaddr = paddr_to_tagaddr paddr in
    done tt (host_write tagaddr 1 value (trace (tag_access tagaddr true (u8 value)) m))
