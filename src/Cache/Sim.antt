-- ===== src/Cache/Sim.antt =====
-- One simulated cache: riscv/cachesim.h, and riscv/cachesim.cc up to `access`. Both classes are one
-- record, where `is_fa` says which `check_tag` and `victimize` are the virtual ones. Where the
-- constructor calls `help`, which exits, there is no cache. An array is a function of the index, and
-- a `std::map` the list of its keys and values in the order of the keys.
use riscv_isa_sim.Base.{
  ℕ, zero, suc, ◌+◌, ◌-◌, ◌*◌, ◌/◌, ◌%◌, ◌^◌, Bool, false, ◌&&◌, ◌||◌, not, ltb, ◌==◌,
  if◌then◌else◌, bit_and, bit_or, bit_xor, add64, shl64, shr64, not64, Option, none, some, List, [],
  ◌∷◌, length, get_or,
}

pub record CacheSim : Type 0 where
  pub is_fa : Bool
  pub lfsr : ℕ
  -- The caches that `miss_handlers` points to, by their place in the store.
  pub miss_handlers : List ℕ
  pub sets : ℕ
  pub ways : ℕ
  pub linesz : ℕ
  pub idx_shift : ℕ
  pub tags : ℕ → ℕ
  -- The `tags` of `fa_cache_sim_t`, which hide the array.
  pub fa_tags : List (ℕ × ℕ)
  pub read_accesses : ℕ
  pub read_misses : ℕ
  pub bytes_read : ℕ
  pub write_accesses : ℕ
  pub write_misses : ℕ
  pub bytes_written : ℕ
  pub writebacks : ℕ
  pub tag_mode : Bool

abbrev pub valid_bit : ℕ
valid_bit = 2 ^ 63

abbrev pub dirty_bit : ℕ
dirty_bit = 2 ^ 62

-- `lfsr_t::next`, of the register.
unfoldable pub lfsr_next : ℕ → ℕ
lfsr_next reg = bit_xor (reg / 2) (if reg % 2 == 1 then 0xd0000001 else 0)

-- `for (size_t x = linesz; x; x >>= 1) idx_shift++;`, a round for each unit of fuel.
unfoldable pub count_bits : (fuel : ℕ) (x : ℕ) (idx_shift : ℕ) → ℕ
count_bits zero x idx_shift = idx_shift
count_bits (suc fuel) x idx_shift =
    let more = count_bits fuel (x / 2) (idx_shift + 1) in if x == 0 then idx_shift else more

-- `sets == 0 || (sets & (sets-1))`, and the test of the size of a line.
unfoldable pub is_bad_geometry : (sets : ℕ) (linesz : ℕ) → Bool
is_bad_geometry sets linesz =
    sets == 0
    || not (bit_and sets (sets - 1) == 0)
    || ltb linesz 8
    || not (bit_and linesz (linesz - 1) == 0)

-- The constructor with `init`.
unfoldable pub init_cache : (is_fa : Bool) (sets : ℕ) (ways : ℕ) (linesz : ℕ) → Option CacheSim
unfolding is_bad_geometry count_bits
init_cache is_fa sets ways linesz =
    if is_bad_geometry sets linesz
    then none
    else some record {
      is_fa = is_fa;
      lfsr = 1;
      miss_handlers = [];
      sets = sets;
      ways = ways;
      linesz = linesz;
      idx_shift = count_bits 64 linesz 0;
      tags = λ _. 0;
      fa_tags = [];
      read_accesses = 0;
      read_misses = 0;
      bytes_read = 0;
      write_accesses = 0;
      write_misses = 0;
      bytes_written = 0;
      writebacks = 0;
      tag_mode = false;
    }

-- `construct`, of the three numbers of its text.
unfoldable pub construct : (sets : ℕ) (ways : ℕ) (linesz : ℕ) → Option CacheSim
unfolding init_cache
construct sets ways linesz = init_cache (ltb 4 ways && sets == 1) sets ways linesz

unfoldable pub set_index : CacheSim → ℕ → ℕ
set_index c addr = bit_and (shr64 addr c.idx_shift) (c.sets - 1)

unfoldable pub line_tag : CacheSim → ℕ → ℕ
line_tag c addr = bit_or (shr64 addr c.idx_shift) valid_bit

-- The loop of `cache_sim_t::check_tag`, with the ways left; the result is the index in `tags`.
unfoldable pub find_way : (left : ℕ) (tags : ℕ → ℕ) (tag : ℕ) (index : ℕ) → Option ℕ
find_way zero tags tag index = none
find_way (suc left) tags tag index =
    let rest = find_way left tags tag (index + 1) in
    if tag == bit_and (tags index) (not64 dirty_bit) then some index else rest

-- `tags.find(key)`: the value.
unfoldable pub find_key : List (ℕ × ℕ) → ℕ → Option ℕ
find_key [] key = none
find_key ((k, v) ∷ rest) key = if k == key then some v else find_key rest key

-- `check_tag`: where the tag is, an index in `tags` or a key of `fa_tags`.
unfoldable pub check_tag : CacheSim → ℕ → Option ℕ
unfolding set_index line_tag find_way find_key
check_tag c addr =
    if c.is_fa
    then elim (find_key c.fa_tags (shr64 addr c.idx_shift)) [
      | none ↦ none
      | some _ ↦ some (shr64 addr c.idx_shift)
    ]
    else find_way c.ways c.tags (line_tag c addr) (set_index c addr * c.ways)

abbrev pub update : (ℕ → ℕ) → ℕ → ℕ → ℕ → ℕ
update f i v j = if j == i then v else f j

unfoldable pub set_dirty_key : List (ℕ × ℕ) → ℕ → List (ℕ × ℕ)
set_dirty_key [] key = []
set_dirty_key ((k, v) ∷ rest) key =
    (k, if k == key then bit_or v dirty_bit else v) ∷ set_dirty_key rest key

-- `*hit_way |= DIRTY`.
unfoldable pub set_dirty : CacheSim → ℕ → CacheSim
unfolding set_dirty_key
set_dirty c way =
    if c.is_fa
    then record c { fa_tags = set_dirty_key c.fa_tags way }
    else record c { tags = update c.tags way (bit_or (c.tags way) dirty_bit) }

-- `tags[key] = value` on the map.
unfoldable pub insert_key : List (ℕ × ℕ) → ℕ → ℕ → List (ℕ × ℕ)
insert_key [] key value = (key, value) ∷ []
insert_key ((k, v) ∷ rest) key value =
    if k == key
    then (k, value) ∷ rest
    else if ltb key k
    then (key, value) ∷ ((k, v) ∷ rest)
    else (k, v) ∷ insert_key rest key value

-- `tags.erase(it)`, for the iterator at a place.
unfoldable pub erase_at : List (ℕ × ℕ) → ℕ → List (ℕ × ℕ)
erase_at [] i = []
erase_at (x ∷ rest) zero = rest
erase_at (x ∷ rest) (suc i) = x ∷ erase_at rest i

-- `victimize`: the cache, and what the victim's tag was.
unfoldable pub victimize : CacheSim → ℕ → CacheSim × ℕ
unfolding set_index line_tag lfsr_next insert_key erase_at
victimize c addr =
    let reg = lfsr_next c.lfsr in
    let full = length c.fa_tags == c.ways in
    let way = reg % c.ways in
    let index = set_index c addr * c.ways + way in
    let key = shr64 addr c.idx_shift in
    if c.is_fa
    then if full
      then (
        record c {
          lfsr = reg;
          fa_tags = insert_key (erase_at c.fa_tags way) key (line_tag c addr);
        },
        (get_or c.fa_tags way (0, 0)).1,
      )
      else (record c { fa_tags = insert_key c.fa_tags key (line_tag c addr) }, 0)
    else (record c { lfsr = reg; tags = update c.tags index (line_tag c addr) }, c.tags index)

-- `(victim & (VALID | DIRTY)) == (VALID | DIRTY)`.
unfoldable pub is_dirty : ℕ → Bool
is_dirty victim = bit_and victim (valid_bit + dirty_bit) == valid_bit + dirty_bit

unfoldable pub dirty_addr : CacheSim → ℕ → ℕ
dirty_addr c victim = shl64 (bit_and victim (not64 (valid_bit + dirty_bit))) c.idx_shift

-- The counters of an access, of a miss and of a write-back.
unfoldable pub count_access : CacheSim → (bytes : ℕ) (store : Bool) → CacheSim
count_access c bytes store =
    if store
    then record c {
      write_accesses = add64 c.write_accesses 1;
      bytes_written = add64 c.bytes_written bytes;
    }
    else record c { read_accesses = add64 c.read_accesses 1; bytes_read = add64 c.bytes_read bytes }

unfoldable pub count_miss : CacheSim → (store : Bool) → CacheSim
count_miss c store =
    if store
    then record c { write_misses = add64 c.write_misses 1 }
    else record c { read_misses = add64 c.read_misses 1 }

unfoldable pub count_writeback : CacheSim → CacheSim
count_writeback c = record c { writebacks = add64 c.writebacks 1 }

unfoldable pub set_tag_mode : CacheSim → Bool → CacheSim
set_tag_mode c mode = record c { tag_mode = mode }

unfoldable pub add_miss_handler : CacheSim → ℕ → CacheSim
add_miss_handler c mh = record c { miss_handlers = add_last c.miss_handlers mh }
  where
    add_last : List ℕ → ℕ → List ℕ
    add_last [] mh = mh ∷ []
    add_last (x ∷ rest) mh = x ∷ add_last rest mh
