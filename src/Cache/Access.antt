-- ===== src/Cache/Access.antt =====
-- `cache_sim_t::access` and `reset` of riscv/cachesim.cc and riscv/cachesim.h, with the calls of the
-- miss handlers. The caches are in a store, since two can have the same miss handler. The fuel bounds
-- the depth of the calls from handler to handler; without fuel, and where the code would write
-- through NULL, there is no result.
use riscv_isa_sim.Base.{
  ℕ, zero, suc, ◌-◌, ◌/◌, Bool, true, false, ◌==◌, if◌then◌else◌, bit_and, add64, not64, Option,
  none, some, List, [], ◌∷◌,
}
use riscv_isa_sim.Cache.Sim.{
  CacheSim, check_tag, set_dirty, victimize, is_dirty, dirty_addr, count_access, count_miss,
  count_writeback,
}

abbrev pub Store : Type 0
Store = ℕ → CacheSim

abbrev pub put : Store → ℕ → CacheSim → Store
put s id c i = if i == id then c else s i

infixl 5 ◌>>=◌
abbrev pub ◌>>=◌ : {A : Type 0} {B : Type 0} → Option A → (A → Option B) → Option B
o >>= f = elim o [ none ↦ none | some a ↦ f a ]

-- `miss_handlers[i]->access(addr, linesz, store)` for each i.
unfoldable pub for_handlers : (ℕ → Store → Option Store) → List ℕ → Store → Option Store
for_handlers call [] s = some s
for_handlers call (mh ∷ rest) s = do s1 ← call mh s; for_handlers call rest s1

-- What the accesses of a tag cache count in: the bytes and the address of the tags.
unfoldable pub scaled_bytes : CacheSim → ℕ → ℕ
scaled_bytes c bytes = if c.tag_mode then add64 bytes 7 / 8 else bytes

unfoldable pub scaled_addr : CacheSim → ℕ → ℕ
scaled_addr c addr = if c.tag_mode then addr / 8 else addr

-- `if (store) *check_tag(addr) |= DIRTY;`.
unfoldable pub dirty_if : Bool → ℕ → ℕ → Store → Option Store
unfolding set_dirty
dirty_if store id addr s =
    if store
    then (do way ← check_tag (s id) addr; some (put s id (set_dirty (s id) way)))
    else some s

-- The miss, once counted: lines 168 to 183.
unfoldable pub miss :
    (ℕ → ℕ → ℕ → Bool → Store → Option Store) → ℕ → ℕ → Bool → Store → Option Store
unfolding for_handlers dirty_if is_dirty dirty_addr count_writeback
miss call id addr store s =
    let c = (victimize (s id) addr).0 in
    let victim = (victimize (s id) addr).1 in
    let s0 = put s id c in
    (do
      s1 ←
          if is_dirty victim
          then (do
            s' ← for_handlers (λ mh. call mh (dirty_addr c victim) c.linesz true) c.miss_handlers s0
            some (put s' id (count_writeback (s' id))))
          else some s0
      s2 ←
          for_handlers (λ mh. call mh (bit_and addr (not64 (c.linesz - 1))) c.linesz false)
            c.miss_handlers s1
      dirty_if store id addr s2)

unfoldable pub access :
    (fuel : ℕ) (id : ℕ) (addr : ℕ) (bytes : ℕ) (store : Bool) → Store → Option Store
unfolding scaled_bytes scaled_addr count_access count_miss miss check_tag set_dirty
access zero id addr bytes store s = none
access (suc fuel) id addr bytes store s =
    let a = scaled_addr (s id) addr in
    let c = count_access (s id) (scaled_bytes (s id) bytes) store in
    elim (check_tag c a) [
      | some way ↦ some (put s id (if store then set_dirty c way else c))
      | none ↦ miss (access fuel) id a store (put s id (count_miss c store))
    ]

-- `reset` of one cache: the array of tags is cleared, which no `fa_cache_sim_t` reads.
unfoldable pub reset_counts : CacheSim → CacheSim
reset_counts c = record c {
  read_accesses = 0;
  read_misses = 0;
  bytes_read = 0;
  write_accesses = 0;
  write_misses = 0;
  bytes_written = 0;
  writebacks = 0;
  tags = λ _. 0;
}

unfoldable pub reset_cache : (fuel : ℕ) (id : ℕ) → Store → Option Store
unfolding reset_counts for_handlers
reset_cache zero id s = none
reset_cache (suc fuel) id s =
    for_handlers (reset_cache fuel) (s id).miss_handlers (put s id (reset_counts (s id)))
