-- ===== src/Tests/Cache.antt =====
-- The cache simulator on small caches: two of them, the first in front of the second.
use riscv_isa_sim.Base.{
  ◌+◌, ◌/◌, ◌*◌, ℕ, zero, suc, ◌%◌, ◌^◌, ◌≤◌, ◌≡◌, refl, arith, true, false, bit_or, Option, none,
  some, [], ◌∷◌, length,
}
use riscv_isa_sim.Cache.Sim.{
  CacheSim, init_cache, victimize, check_tag, dirty_addr, line_tag, dirty_bit, lfsr_next,
}
use riscv_isa_sim.Cache.Access.{Store, access, scaled_addr, reset_counts}
use riscv_isa_sim.Cache.Lines.{config, Found}
use riscv_isa_sim.Cache.Wired.{IsWired, access_total}
use riscv_isa_sim.Cache.Again.{access_again}
use riscv_isa_sim.Cache.Geometry.{
  victimize_bounds, init-dirty_addr, check_tag-reset_counts, init-check_tag,
}

-- 64 sets of 4 ways and lines of 64 bytes.
abbrev second : CacheSim
second = record {
  is_fa = false;
  lfsr = 1;
  miss_handlers = [];
  sets = 64;
  ways = 4;
  linesz = 64;
  idx_shift = 7;
  tags = λ _. 0;
  fa_tags = [];
  read_accesses = 0;
  read_misses = 0;
  bytes_read = 0;
  write_accesses = 0;
  write_misses = 0;
  bytes_written = 0;
  writebacks = 0;
  tag_mode = false;
}

second-made : init_cache false 64 4 (2 ^ 6) ≡ some second
unfolding init_cache
second-made = refl

-- Fully associative, with the misses going to the second.
abbrev first : CacheSim
first = record second { is_fa = true; sets = 1; ways = 8; miss_handlers = 1 ∷ [] }

abbrev caches : Store
caches zero = first
caches (suc i) = second

abbrev rank : ℕ → ℕ
rank zero = 1
rank (suc zero) = 0
rank (suc (suc i)) = 2

wired : IsWired rank caches
wired zero = record { has_ways = omega arith; deep = omega arith; below = (omega arith, tt) }
wired (suc zero) = record { has_ways = omega arith; deep = omega arith; below = tt }
wired (suc (suc i)) = record { has_ways = omega arith; deep = omega arith; below = tt }

lfsr_run : lfsr_next (lfsr_next 1) ≡ 0xb8000001
unfolding lfsr_next
lfsr_run = refl

-- A store that misses in both: the second reads the line in, and is asked again by no other address
-- of the same 128 bytes.
misses : (s : Store) → ℕ × ℕ × ℕ
misses s = ((s 0).write_misses, (s 1).read_misses, (s 1).read_accesses)

abbrev miss_twice : Option Store → Option (ℕ × ℕ × ℕ)
miss_twice none = none
miss_twice (some s) = elim (access 2 0 0x1060 4 false s) [ none ↦ none | some t ↦ some (misses t) ]

miss_run : miss_twice (access 2 0 0x1000 8 true caches) ≡ some (1, 1, 1)
unfolding access misses victimize
miss_run = refl

access_total_example :
    (s : Store) × (access 2 0 0x1000 8 true caches ≡ some s)
    × (config (s 1) ≡ config second)
    × (s 2 ≡ second)
    × Found (s 0) (scaled_addr first 0x1000)
access_total_example =
    access_total rank 2 0 0x1000 8 true caches 1 2 (omega arith) wired (omega arith) (omega arith)

access_again_example :
    (s1 : Store) × (s2 : Store) × (access 2 0 0x1000 8 true caches ≡ some s1)
    × (access 2 0 0x1000 4 false s1 ≡ some s2)
    × ((s2 0).read_misses ≡ (s1 0).read_misses)
    × ((s2 0).write_misses ≡ (s1 0).write_misses)
    × (s2 1 ≡ s1 1)
access_again_example =
    access_again rank 2 0 0x1000 8 4 true false caches 1 (omega arith) wired (omega arith) refl

victimize_bounds_example :
    ((victimize second 0x1000).0.tags 256 ≡ 0) × (length (victimize second 0x1000).0.fa_tags ≤ 4)
victimize_bounds_example =
    victimize_bounds second 0x1000 256 (omega arith) (omega arith) (omega arith) (omega arith)

-- The line of 0x12345 is the odd one at 0x12340, and is written back to 0x12300.
init-dirty_addr_example :
    dirty_addr second (bit_or (line_tag second 0x12345) dirty_bit) + 0x12345 / 2 ^ 6 % 2 * 2 ^ 6
    ≡ 0x12345 / 2 ^ 6 * 2 ^ 6
init-dirty_addr_example =
    init-dirty_addr false 64 4 6 second-made (omega arith) (omega arith) second refl 0x12345
      (omega arith)

check_tag-reset_counts_example : check_tag (reset_counts first) 0x1000 ≡ check_tag first 0x1000
check_tag-reset_counts_example = check_tag-reset_counts first 0x1000

init-check_tag_example : check_tag second 0x1000 ≡ check_tag second 0x1040
init-check_tag_example =
    init-check_tag false 64 4 6 second-made (omega arith) second refl 0x1000 0x1040 refl
