-- ===== src/Hart/RegFile/Laws.antt =====
-- Reads after writes, and the constant register.
use riscv_isa_sim.Base.{
  ℕ, ◌≡◌, ◌<◌, arith, Bool, true, length, length-set, get_or-set_self, get_or-set_ne,
  length-replicate, get_or-replicate, if◌then◌else◌, ◌==◌, ◌&&◌, u8,
}
use riscv_isa_sim.Hart.RegFile.{RegFile, reset, write_both, read, read_tag}

-- N registers and as many tags; where `zero_reg` is set, register 0 holds 0 with tag 0.
pub record IsValid (n : ℕ) (zero_reg : Bool) (r : RegFile) : Type 0 where
  pub values_length : length r.values ≡ n
  pub tags_length : length r.tags ≡ n
  pub zero_value : zero_reg ≡ true → read r 0 ≡ 0
  pub zero_tag : zero_reg ≡ true → read_tag r 0 ≡ 0

pub reset-IsValid : (n : ℕ) (zero_reg : Bool) → IsValid n zero_reg (reset n)
unfolding reset read read_tag
reset-IsValid n zero_reg = record {
  values_length = length-replicate n 0;
  tags_length = length-replicate n 0;
  zero_value = λ _. get_or-replicate n 0 0;
  zero_tag = λ _. get_or-replicate n 0 0;
}

-- A write keeps the register file well formed: N registers and tags, and register 0 constant where
-- it is to be.
pub write_both-IsValid :
    (n : ℕ) (zero_reg : Bool) (i v t : ℕ) (r : RegFile)
    → IsValid n zero_reg r
    → IsValid n zero_reg (write_both zero_reg i v t r)
unfolding write_both read read_tag
write_both-IsValid n zero_reg i v t r h = ground (
  arith,
  length-set r.values i v,
  length-set r.tags i (u8 t),
  get_or-set_ne r.values i 0 v 0,
  get_or-set_ne r.tags i 0 (u8 t) 0,
)

-- A write is seen by a read of the same register, its value and its tag of eight bits, and by no
-- other read; a constant register 0 stays 0.
pub read-write_both :
    (n : ℕ) (zero_reg : Bool) (i j v t : ℕ) (r : RegFile)
    → IsValid n zero_reg r
    → i < n
    → (read (write_both zero_reg i v t r) j
        ≡ (if i == j then (if zero_reg && i == 0 then 0 else v) else read r j))
      × (read_tag (write_both zero_reg i v t r) j
          ≡ (if i == j then (if zero_reg && i == 0 then 0 else u8 t) else read_tag r j))
unfolding write_both read read_tag
read-write_both n zero_reg i j v t r h lt = ground (
  arith,
  h.zero_value,
  h.zero_tag,
  get_or-set_self r.values i v 0,
  get_or-set_self r.tags i (u8 t) 0,
  get_or-set_ne r.values i j v 0,
  get_or-set_ne r.tags i j (u8 t) 0,
)
