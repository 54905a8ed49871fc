-- ===== src/TagStats.antt =====
-- `tag_memtracer_t` of riscv/tagstats.h: how many words of memory have each tag, from the stores of
-- tags that it is shown. The arrays are functions of the index; C leaves an index outside them open.
pub mod Laws
use riscv_isa_sim.Base.{
  ℕ, zero, suc, ◌+◌, ◌^◌, Bool, true, false, ◌==◌, ◌&&◌, not, if◌then◌else◌, u8, add64, sub64, List,
  [], ◌∷◌,
}

-- What `trace` reads of its arguments.
pub record Traced : Type 0 where
  pub addr : ℕ
  pub store : Bool
  pub is_tag : Bool
  pub val : ℕ

pub record TagStats : Type 0 where
  pub base : ℕ
  pub count : ℕ → ℕ
  pub last_tag : ℕ → ℕ

unfoldable pub reset : TagStats → TagStats
reset s = record s { count = λ _. 0; last_tag = λ _. 0xff }

-- `count[i] = v`.
abbrev pub set_count : ℕ → ℕ → TagStats → TagStats
set_count i v s = record s { count = λ j. if j == i then v else s.count j }

-- `if(last_tag[addr] != 0xff) count[last_tag[addr]]--;`.
unfoldable pub forget_last : ℕ → TagStats → TagStats
forget_last addr s =
    if not (s.last_tag addr == 0xff)
    then set_count (s.last_tag addr) (sub64 (s.count (s.last_tag addr)) 1) s
    else s

unfoldable pub count_tag : ℕ → TagStats → TagStats
count_tag tag s = set_count tag (add64 (s.count tag) 1) s

unfoldable pub trace : Traced → TagStats → TagStats
unfolding forget_last count_tag
trace a s =
    if a.is_tag && a.store then count_tag (u8 a.val) (forget_last (sub64 a.addr s.base) s) else s

-- The calls of a run, in their order.
unfoldable pub trace_all : List Traced → TagStats → TagStats
unfolding trace
trace_all [] s = s
trace_all (a ∷ rest) s = trace_all rest (trace a s)
