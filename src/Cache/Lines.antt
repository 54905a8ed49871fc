-- ===== src/Cache/Lines.antt =====
-- A line is found after `victimize` has brought it in, and stays found when it is made dirty: both
-- classes of riscv/cachesim.cc.
use riscv_isa_sim.Base.{
  ℕ, ◌+◌, ◌*◌, ◌%◌, ◌^◌, ◌≤◌, ◌<◌, ◌≡◌, Bool, ◌==◌, if◌then◌else◌, Bool-cases, Option-cases, inl,
  inr, bit_and, bit_or, shr64, some, List, [], ◌∷◌, arith,
}
use native.Mathlib.Nat.{mod-lt, div-lt_iff_lt-mul, pow-le-pow_right}
use riscv_isa_sim.Cache.Sim.{
  CacheSim, lfsr_next, line_tag, set_index, find_way, find_key, check_tag, update, set_dirty,
  set_dirty_key, insert_key, erase_at, victimize, dirty_bit, count_access, count_miss,
}
use riscv_isa_sim.Cache.TagWords.{
  clean_mask, clean-dirty, clean-tag, find_way_complete, find_way_ext,
}

-- What an access leaves alone.
pub record Config : Type 0 where
  pub is_fa : Bool
  pub miss_handlers : List ℕ
  pub sets : ℕ
  pub ways : ℕ
  pub linesz : ℕ
  pub idx_shift : ℕ
  pub tag_mode : Bool

abbrev pub config : CacheSim → Config
config c = record {
  is_fa = c.is_fa;
  miss_handlers = c.miss_handlers;
  sets = c.sets;
  ways = c.ways;
  linesz = c.linesz;
  idx_shift = c.idx_shift;
  tag_mode = c.tag_mode;
}

pub config-victimize : (c : CacheSim) (addr : ℕ) → config (victimize c addr).0 ≡ config c
unfolding victimize
config-victimize c addr = ground arith

pub config-set_dirty : (c : CacheSim) (way : ℕ) → config (set_dirty c way) ≡ config c
unfolding set_dirty
config-set_dirty c way = ground arith

pub config-count_access :
    (c : CacheSim) (bytes : ℕ) (store : Bool) → config (count_access c bytes store) ≡ config c
unfolding count_access
config-count_access c bytes store = ground arith

pub config-count_miss : (c : CacheSim) (store : Bool) → config (count_miss c store) ≡ config c
unfolding count_miss
config-count_miss c store = ground arith

find_key-insert_key_self :
    (l : List (ℕ × ℕ)) (key v : ℕ) → find_key (insert_key l key v) key ≡ some v
unfolding find_key insert_key
find_key-insert_key_self [] key v = ground arith
find_key-insert_key_self ((k, w) ∷ rest) key v = ground (arith, find_key-insert_key_self rest key v)

find_key-set_dirty_key :
    (l : List (ℕ × ℕ)) (w key : ℕ) {v : ℕ}
    → find_key l key ≡ some v
    → (v' : ℕ) × (find_key (set_dirty_key l w) key ≡ some v')
unfolding find_key set_dirty_key
find_key-set_dirty_key [] w key h = absurd (cc)
find_key-set_dirty_key ((k, u) ∷ rest) w key h = elim (Bool-cases (k == key)) [
  | inl here ↦ (if k == w then bit_or u dirty_bit else u, rw here)
  | inr more ↦ rw more (find_key-set_dirty_key rest w key (rw more at h))
]

abbrev pub Found : CacheSim → ℕ → Type 0
Found c addr = (way : ℕ) × (check_tag c addr ≡ some way)

pub line_small : (addr s : ℕ) → addr < 2 ^ 64 → 2 ≤ s → shr64 addr s < 2 ^ 62
line_small addr s small deep = (div-lt_iff_lt-mul (omega (arith, four))).1 (omega (arith, four))
  where
    four : 2 ^ 2 ≤ 2 ^ s
    four = pow-le-pow_right (omega arith) deep

module _ (c : CacheSim) (addr : ℕ) (small : addr < 2 ^ 64) (deep : 2 ≤ c.idx_shift)
    (ways : 0 < c.ways) where
  found_in_set :
      (reg : ℕ)
      → let index = set_index c addr * c.ways + reg % c.ways in
        (way : ℕ) × (find_way c.ways
            (update c.tags index (line_tag c addr))
            (line_tag c addr)
            (set_index c addr * c.ways)
          ≡ some way)
  unfolding line_tag
  found_in_set reg =
      find_way_complete (update c.tags (set_index c addr * c.ways + reg % c.ways) (line_tag c addr))
        c.tags (line_tag c addr) c.ways (set_index c addr * c.ways)
        (set_index c addr * c.ways + reg % c.ways) (omega arith) (omega (arith, mod-lt reg ways))
        (ground
          (arith, clean-tag (shr64 addr c.idx_shift) (line_small addr c.idx_shift small deep)))

  pub Found-victimize : Found (victimize c addr).0 addr
  unfolding victimize check_tag
  Found-victimize = elim (Bool-cases c.is_fa) [
    | inl fa ↦ (
      shr64 addr c.idx_shift,
      ground (
        arith,
        find_key-insert_key_self c.fa_tags (shr64 addr c.idx_shift) (line_tag c addr),
        find_key-insert_key_self (erase_at c.fa_tags (lfsr_next c.lfsr % c.ways))
            (shr64 addr c.idx_shift) (line_tag c addr),
      ),
    )
    | inr array ↦
        ((found_in_set (lfsr_next c.lfsr)).0, ground (arith, (found_in_set (lfsr_next c.lfsr)).1))
  ]

same_found :
    (t : ℕ → ℕ) (way i : ℕ)
    → bit_and (t i) clean_mask ≡ bit_and (update t way (bit_or (t way) dirty_bit) i) clean_mask
same_found t way i = elim (Bool-cases (i == way)) [
  | inl here ↦ ground (arith, clean-dirty (t i))
  | inr other ↦ rw other
]

pub Found-set_dirty : (c : CacheSim) (way addr : ℕ) → Found c addr → Found (set_dirty c way) addr
unfolding set_dirty check_tag line_tag set_index
Found-set_dirty c way addr (w, h) = elim (Bool-cases c.is_fa) [
  | inl fa ↦ elim (Option-cases (find_key c.fa_tags (shr64 addr c.idx_shift))) [
    | inl missing ↦ absurd (ground arith)
    | inr (v, there) ↦ (
      shr64 addr c.idx_shift,
      ground (arith, (find_key-set_dirty_key c.fa_tags way (shr64 addr c.idx_shift) there).1),
    )
  ]
  | inr array ↦ (
    w,
    ground (
      arith,
      find_way_ext c.tags (update c.tags way (bit_or (c.tags way) dirty_bit)) (line_tag c addr)
          (same_found c.tags way) c.ways (set_index c addr * c.ways),
    ),
  )
]
