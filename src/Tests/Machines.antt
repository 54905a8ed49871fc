-- ===== src/Tests/Machines.antt =====
-- The machines that the tests run on.
use riscv_isa_sim.Base.{◌%◌, ◌+◌, ◌*◌, ◌^◌, true, false, [], none}
use riscv_isa_sim.Build.{Build}
use riscv_isa_sim.Hart.State.{State}
use riscv_isa_sim.Hart.State
use riscv_isa_sim.Hart.Machine.{Machine, Mmu}
use riscv_isa_sim.WatchLoc.{WatchLoc}

-- 64 bits, floating point, no tag policy.
abbrev pub default_build : Build
default_build = record {
  enable_64bit = true;
  enable_fpu = true;
  no_return_copy = false;
  no_partial_copy = false;
}

abbrev pub no_return : Build
no_return = record default_build { no_return_copy = true }

-- Supervisor with interrupts on and interrupt 7 pending and not masked; a trap handler.
abbrev pub interrupted : State
interrupted = record State.reset {
  sr = 2 ^ 31 + 2 ^ 23 + 0x10 + 0x40 + 0x20 + 0x4 + 0x1;
  evec = 0x4000;
  count = 98;
  compare = 100;
}

abbrev pub cold : Mmu
cold = record {
  tlb_data = λ _. 0;
  tlb_insn_tag = λ _. 0;
  tlb_load_tag = λ _. 0;
  tlb_store_tag = λ _. 0;
  icache = λ _. record { tag = 0; insn = 0; rv64 = true };
  has_no_tag = false;
}

-- Four pages of memory; byte a holds a modulo 256.
abbrev pub machine : Machine
machine = record {
  state = interrupted;
  id = 0;
  run = true;
  rv64 = true;
  serialized = false;
  has_ext = false;
  mmu = cold;
  mem = λ a. a % 256;
  tagmem = λ _. 0;
  memsz = 4 * 2 ^ 13;
  nprocs = 1;
  attached = true;
  libspike_page = λ _. 0;
  libspike_calls = [];
  watch = none;
  tracers = [];
  traced = [];
  ctrlc_pressed = false;
  ipis = [];
}

-- A ring that is full, with address 8 watched.
abbrev pub old_ring : WatchLoc
old_ring = record { addr = 8; last_access = 1000; last_accesses = λ i. i + 5 }
