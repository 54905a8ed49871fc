-- ===== src/Hart/State.antt =====
-- `state_t`: the architectural state of a hart.
use riscv_isa_sim.Base.{ℕ, minus_one, bit_or}
use riscv_isa_sim.Isa.Encoding.{sr_s, sr_s64, sr_u64}
use riscv_isa_sim.Hart.RegFile
use riscv_isa_sim.Hart.RegFile.{RegFile}

-- NXPR and NFPR.
abbrev pub nxpr : ℕ
nxpr = 32

abbrev pub nfpr : ℕ
nfpr = 32

pub record State : Type 0 where
  pub pc : ℕ
  pub xpr : RegFile
  pub fpr : RegFile
  pub epc : ℕ
  pub badvaddr : ℕ
  pub evec : ℕ
  pub ptbr : ℕ
  pub pcr_k0 : ℕ
  pub pcr_k1 : ℕ
  pub cause : ℕ
  pub tohost : ℕ
  pub fromhost : ℕ
  pub count : ℕ
  pub tag_mode : ℕ
  pub compare : ℕ
  pub sr : ℕ
  pub fflags : ℕ
  pub frm : ℕ
  pub load_reservation : ℕ

-- `state_t::reset`: every field is set.
unfoldable pub reset : State
unfolding RegFile.reset
reset = record {
  pc = 0x2000;
  xpr = RegFile.reset nxpr;
  fpr = RegFile.reset nfpr;
  epc = 0;
  badvaddr = 0;
  evec = 0;
  ptbr = 0;
  pcr_k0 = 0;
  pcr_k1 = 0;
  cause = 0;
  tohost = 0;
  fromhost = 0;
  count = 0;
  tag_mode = 1;
  compare = 0;
  sr = bit_or (bit_or sr_s sr_s64) sr_u64;
  fflags = 0;
  frm = 0;
  load_reservation = minus_one;
}
