-- ===== src/Hart/Machine.antt =====
-- What the code of one hart reads and writes: its `processor_t` with the `state_t` in it, its
-- `mmu_t`, and the memory and tag memory that all ports share. An address of the host is an
-- offset from `mem`.
use riscv_isa_sim.Base.{ℕ, Bool, Option, List}
use riscv_isa_sim.Hart.State.{State}
use riscv_isa_sim.WatchLoc.{WatchLoc}

-- `trap_t`, and `mem_trap_t` where there is an address.
pub record Trap : Type 0 where
  pub cause : ℕ
  pub badvaddr : Option ℕ

-- `icache_entry_t`: the address, and the instruction word. What `decode_insn` found for the word
-- is a function of the word and of the width at the time of the fetch, which is kept.
pub record IcacheEntry : Type 0 where
  pub tag : ℕ
  pub insn : ℕ
  pub rv64 : Bool

-- The tables of `mmu_t`: TLB and instruction cache, by index.
pub record Mmu : Type 0 where
  pub tlb_data : ℕ → ℕ
  pub tlb_insn_tag : ℕ → ℕ
  pub tlb_load_tag : ℕ → ℕ
  pub tlb_store_tag : ℕ → ℕ
  pub icache : ℕ → IcacheEntry
  pub has_no_tag : Bool

-- The tracers by what `interested_in_range` answers.
pub data Tracer : Type 0 where
  icache_sim dcache_sim tag_memtracer : Tracer

-- An address of the host: an offset in the memory, in the page of `libspike`, or in the memory of
-- the tags. What is computed as the place of the tag of a byte of the page is in none of them.
pub data HostPtr : Type 0 where
  main : ℕ → HostPtr
  page : ℕ → HostPtr
  tag_byte : ℕ → HostPtr
  stray : ℕ → HostPtr

-- The arguments of `trace`.
pub record Access : Type 0 where
  pub addr : HostPtr
  pub bytes : ℕ
  pub store : Bool
  pub fetch : Bool
  pub is_tag : Bool
  pub val : ℕ

pub record Machine : Type 0 where
  pub state : State
  pub id : ℕ
  pub run : Bool
  pub rv64 : Bool
  pub serialized : Bool
  -- ext != NULL
  pub has_ext : Bool
  pub mmu : Mmu
  pub mem : ℕ → ℕ
  pub tagmem : ℕ → ℕ
  pub memsz : ℕ
  -- sim->procs.size()
  pub nprocs : ℕ
  -- proc != NULL: false for the debug port alone.
  pub attached : Bool
  -- The page of the host that programs call through, and the calls made, last first.
  pub libspike_page : ℕ → ℕ
  pub libspike_calls : List ℕ
  -- wl, NULL where nothing is watched.
  pub watch : Option WatchLoc
  -- The registered tracers, and the accesses reported to them, last first.
  pub tracers : List Tracer
  pub traced : List Access
  -- The flag of `sim_t` that its `monitor` sets, which stops the run after the step.
  pub ctrlc_pressed : Bool
  -- The interprocessor interrupts sent to other harts, last first.
  pub ipis : List ℕ

-- A call returns, throws a `trap_t`, or throws `serialize_t`; what it did before stays done.
pub data Outcome (A : Type 0) : Type 0 where
  done : A → Machine → Outcome A
  trapped : Trap → Machine → Outcome A
  serialize_thrown : Machine → Outcome A

abbrev pub M : Type 0 → Type 0
M A = Machine → Outcome A

abbrev pub pure : {A : Type 0} → A → M A
pure a m = done a m

-- The rest runs where the call returns.
infixl 5 ◌>>=◌
abbrev pub ◌>>=◌ : {A : Type 0} {B : Type 0} (call : M A) (rest : A → M B) → M B
◌>>=◌ call rest m = elim (call m) [
  | done result after ↦ rest result after
  | trapped thrown after ↦ trapped thrown after
  | serialize_thrown after ↦ serialize_thrown after
]

infixl 5 ◌>>◌
abbrev pub ◌>>◌ : {B : Type 0} (call : M (Unit {0})) (rest : M B) → M B
call >> rest = call >>= λ _. rest

abbrev pub throw : {A : Type 0} → Trap → M A
throw t m = trapped t m

-- A read of the machine, and an update that cannot fail.
abbrev pub gets : {A : Type 0} → (Machine → A) → M A
gets f m = done (f m) m

abbrev pub modify : (Machine → Machine) → M (Unit {0})
modify f m = done tt (f m)

abbrev pub modify_state : (State → State) → M (Unit {0})
modify_state f m = done tt (record m { state = f m.state })
