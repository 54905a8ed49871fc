-- ===== src/Hart/RegFile.antt =====
-- `regfile_t` of riscv/decode.h: N registers, each with a tag of eight bits.
use riscv_isa_sim.Base.{
  ℕ, Bool, true, false, List, ◌==◌, ◌&&◌, if◌then◌else◌, get_or, set, replicate, u8,
}
pub mod Laws

pub record RegFile : Type 0 where
  pub values : List ℕ
  pub tags : List ℕ

unfoldable pub reset : ℕ → RegFile
reset n = record { values = replicate n 0; tags = replicate n 0 }

-- `zero_reg` makes register 0 constant. A number out of range, which C leaves undefined, writes
-- nothing here and reads 0; the fields of an instruction are below 32.
module _ (zero_reg : Bool) where
  unfoldable pub write : ℕ → ℕ → RegFile → RegFile
  write i value r = if zero_reg && i == 0 then r else record r { values = set r.values i value }

  -- The parameter is a `T`, and the array holds `tag_t`.
  unfoldable pub write_tag : ℕ → ℕ → RegFile → RegFile
  write_tag i tag r = if zero_reg && i == 0 then r else record r { tags = set r.tags i (u8 tag) }

  unfoldable pub write_both : ℕ → ℕ → ℕ → RegFile → RegFile
  unfolding write write_tag
  write_both i value tag r = write_tag i tag (write i value r)

unfoldable pub read : RegFile → ℕ → ℕ
read r i = get_or r.values i 0

unfoldable pub read_tag : RegFile → ℕ → ℕ
read_tag r i = get_or r.tags i 0
