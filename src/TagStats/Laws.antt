-- ===== src/TagStats/Laws.antt =====
-- What the counts of riscv/tagstats.h come to.
use riscv_isa_sim.Base.{
  ℕ, suc, ◌+◌, ◌≡◌, refl, ◌==◌, ◌&&◌, if◌then◌else◌, u8, u64, add64, sub64, List, [], ◌∷◌, arith,
}
use riscv_isa_sim.TagStats.{Traced, TagStats, reset, forget_last, count_tag, trace, trace_all}

-- The stores of a tag in a run.
unfoldable pub stores_of : ℕ → List Traced → ℕ
stores_of tag [] = 0
stores_of tag (a ∷ rest) =
    if a.is_tag && a.store && tag == u8 a.val then suc (stores_of tag rest) else stores_of tag rest

-- No word has a last tag.
abbrev NoLast : TagStats → Type 0
NoLast s = (addr : ℕ) → s.last_tag addr ≡ 0xff

trace-NoLast : (a : Traced) (s : TagStats) → NoLast s → NoLast (trace a s)
unfolding trace forget_last count_tag
trace-NoLast a s none_yet addr = ground (arith, none_yet addr, none_yet (sub64 a.addr s.base))

trace-count :
    (a : Traced) (s : TagStats)
    → NoLast s
    → (tag : ℕ)
    → (trace a s).count tag
      ≡ (if a.is_tag && a.store && tag == u8 a.val then add64 (s.count tag) 1 else s.count tag)
unfolding trace forget_last count_tag
trace-count a s none_yet tag = ground (arith, none_yet (sub64 a.addr s.base))

trace_all-count :
    (run : List Traced) (s : TagStats)
    → NoLast s
    → (tag : ℕ) → u64 ((trace_all run s).count tag) ≡ u64 (s.count tag + stores_of tag run)
unfolding trace_all stores_of
trace_all-count [] s none_yet tag = ground arith
trace_all-count (a ∷ rest) s none_yet tag = ground (
  arith,
  trace_all-count rest (trace a s) (trace-NoLast a s none_yet) tag,
  trace-count a s none_yet tag,
)

-- From a reset on, the count of a tag is the number of stores of it in the run, at 64 bits: no store
-- over a word takes the word's former tag out of the counts, whatever the run.
pub trace_all-reset :
    (run : List Traced) (s : TagStats) (tag : ℕ)
    → u64 ((trace_all run (reset s)).count tag) ≡ u64 (stores_of tag run)
unfolding reset
trace_all-reset run s tag = ground (arith, trace_all-count run (reset s) (λ _. refl) tag)
