-- ===== src/Tracker/Graph.antt =====
-- `tracker_t` of riscv/tracker.cc: `track`, `track_load`, `track_store` and `cleanup`. `none` is a fault:
-- an access of a node that is not allocated, an assertion that fails, or an entry of the disassembler
-- that is not there. What `malloc` returns, and the count that stands in fresh memory, are parameters.
-- `debug`, which prints, is off.
use riscv_isa_sim.Base.{
  ℕ, zero, suc, ◌+◌, ◌-◌, ◌*◌, ◌/◌, ◌%◌, ◌^◌, Bool, true, false, ◌==◌, ◌||◌, not, ltb,
  if◌then◌else◌, Option, none, some, List, [], ◌∷◌, get_or, set, length, replicate,
}
use riscv_isa_sim.Isa.Insn.{rd, rs1, rs2}
use riscv_isa_sim.Hart.State.{nxpr}
use riscv_isa_sim.Mmu.Memory.{mem_to_tag_ratio}
use riscv_isa_sim.Disasm.{Source, in_memory, in_reg}
use riscv_isa_sim.Tracker.Store.{Node, Heap, node_at, put, erase, total}

pub record Tracker : Type 0 where
  pub nodes : Heap
  pub mem : List ℕ
  pub regs : List ℕ
  pub last_insn : ℕ
  pub last_pc : ℕ
  pub is_mem_insn : Bool
  -- Whether `monitor` was called.
  pub monitored : Bool

infixl 5 ◌>>=◌
abbrev pub ◌>>=◌ : {A : Type 0} {B : Type 0} → Option A → (A → Option B) → Option B
o >>= f = elim o [ none ↦ none | some a ↦ f a ]

-- The constructor, for a memory of sz tags; the fields it does not set are arguments.
unfoldable pub new_tracker : (sz : ℕ) (last_insn last_pc : ℕ) (is_mem_insn : Bool) → Tracker
new_tracker sz insn pc is_mem = record {
  nodes = [];
  mem = replicate sz 0;
  regs = replicate nxpr 0;
  last_insn = insn;
  last_pc = pc;
  is_mem_insn = is_mem;
  monitored = false;
}

-- `if(c) c->refc++;`, of an int as its pattern.
unfoldable pub add_ref : Heap → ℕ → Option Heap
unfolding node_at put
add_ref h p = if p == 0 then some h else elim (node_at h p) [
  | none ↦ none
  | some n ↦ some (put h p (record n { refc = (n.refc + 1) % 2 ^ 32 }))
]

-- `refc--`, of an int as its pattern.
abbrev pub decrement : ℕ → ℕ
decrement refc = if refc == 0 then 2 ^ 32 - 1 else refc - 1

-- A round of the loop of `cleanup`, for the node taken from the queue, whose back is first here.
unfoldable pub release : ℕ → List ℕ → Heap → Option (List ℕ × Heap)
unfolding node_at put erase
release p queue h = if p == 0 then some (queue, h) else elim (node_at h p) [
  | none ↦ none
  | some n ↦
      if decrement n.refc == 0
      then some (n.c2 ∷ (n.c1 ∷ queue), erase h p)
      else some (queue, put h p (record n { refc = decrement n.refc }))
]

unfoldable pub cleanup_loop : (fuel : ℕ) (queue : List ℕ) → Heap → Option Heap
unfolding release
cleanup_loop fuel [] h = some h
cleanup_loop zero (p ∷ queue) h = none
cleanup_loop (suc fuel) (p ∷ queue) h = elim (release p queue h) [
  | none ↦ none
  | some (queue', h') ↦ cleanup_loop fuel queue' h'
]

abbrev pub refc_of : Node → ℕ
refc_of n = n.refc

-- Three rounds for each counted reference, and one for the node itself.
unfoldable pub cleanup : Heap → ℕ → Option Heap
unfolding cleanup_loop total
cleanup h p = cleanup_loop (3 * total refc_of h + 1) (p ∷ []) h

-- `regs[r] && regs[r]->pc == pc`.
unfoldable pub has_pc : Heap → (node : ℕ) (pc : ℕ) → Option Bool
unfolding node_at
has_pc h p pc =
    if p == 0 then some false else elim (node_at h p) [ none ↦ none | some n ↦ some (n.pc == pc) ]

-- `cleanup(old); node->refc = 1;`.
unfoldable pub replace : (old : ℕ) → ℕ × Heap → Option (ℕ × Heap)
unfolding cleanup node_at put
replace old (p, h) = do
  h1 ← cleanup h old
  n ← node_at h1 p
  some (p, put h1 p (record n { refc = 1 }))

-- `regs[dst] = node;` and `mem[ind] = node;`.
abbrev pub set_reg : Tracker → ℕ → ℕ × Heap → Tracker
set_reg t dst (p, h) = record t { nodes = h; regs = set t.regs dst p }

abbrev pub set_mem : Tracker → ℕ → ℕ × Heap → Tracker
set_mem t ind (p, h) = record t { nodes = h; mem = set t.mem ind p }

abbrev pub reg : Tracker → ℕ → ℕ
reg t r = get_or t.regs r 0

abbrev pub names_memory : List Source → Bool
names_memory [] = false
names_memory (in_memory ∷ rest) = true
names_memory (in_reg r ∷ rest) = names_memory rest

-- Whether the first argument is memory, which `assert(buf[0] > 0)` refuses.
abbrev pub starts_in_memory : List Source → Bool
starts_in_memory [] = false
starts_in_memory (in_memory ∷ rest) = true
starts_in_memory (in_reg r ∷ rest) = false

abbrev pub reg_sp : ℕ
reg_sp = 2

pub data Call : Type 0 where
  call_track : (insn pc : ℕ) → Call
  call_load : (paddr : ℕ) → Call
  call_store : (paddr addr : ℕ) → Call

module _ (malloc : Heap → ℕ) (garbage : ℕ) where
  -- The new node at its address, with the references it takes.
  unfoldable pub make_node :
      (c1 c2 : ℕ) (insn pc val : ℕ) (is_mem : Bool) → Heap → Option (ℕ × Heap)
  unfolding add_ref
  make_node c1 c2 insn pc val is_mem h =
      let node : Node = record {
        c1 = c1;
        c2 = c2;
        insn = insn;
        pc = pc;
        val = val;
        refc = garbage;
        is_mem = is_mem;
      } in
      (do h1 ← add_ref ((malloc h, node) ∷ h) c1; h2 ← add_ref h1 c2; some (malloc h, h2))

  -- A new node in the place of an old one.
  unfoldable pub take_place :
      (c1 c2 : ℕ) (insn pc val : ℕ) (is_mem : Bool) (old : ℕ) → Heap → Option (ℕ × Heap)
  unfolding make_node replace
  take_place c1 c2 insn pc val is_mem old h = make_node c1 c2 insn pc val is_mem h >>= replace old

  unfoldable pub track_load : (paddr : ℕ) → Tracker → Option Tracker
  unfolding take_place
  track_load paddr t =
      let dst = rd t.last_insn in
      let ind = paddr / mem_to_tag_ratio in
      if not t.is_mem_insn
      then some t
      else if dst == 0
      then some (record t { is_mem_insn = false })
      else (do
        node ←
            take_place (get_or t.mem ind 0) (reg t (rs1 t.last_insn)) t.last_insn t.last_pc dst true
              (reg t dst) t.nodes
        some (set_reg (record t { is_mem_insn = false }) dst node))

  unfoldable pub track_store : (paddr : ℕ) (addr : ℕ) → Tracker → Option Tracker
  unfolding take_place
  track_store paddr addr t =
      let ind = paddr / mem_to_tag_ratio in
      if not t.is_mem_insn then some t else (do
        node ←
            take_place (reg t (rs2 t.last_insn)) (reg t (rs1 t.last_insn)) t.last_insn t.last_pc
              addr true (get_or t.mem ind 0) t.nodes
        some (set_mem (record t { is_mem_insn = false }) ind node))

  -- The node of an instruction that only names registers, from the references it takes on.
  unfoldable pub track_result : (c1 c2 : ℕ) (insn pc : ℕ) → Tracker → Option Tracker
  unfolding take_place
  track_result c1 c2 insn pc t = do
    node ← take_place c1 c2 insn pc (rd insn) false (reg t (rd insn)) t.nodes
    some (set_reg t (rd insn) node)

  -- Once the destination is known to be a register, by the sources after it: the test for the same
  -- instruction and for a register that is its own source, and the node.
  unfoldable pub track_sources : List Source → (insn pc : ℕ) → Tracker → Option Tracker
  unfolding has_pc track_result
  track_sources [] insn pc t = track_result 0 0 insn pc t
  track_sources (in_reg r ∷ []) insn pc t = do
    again ← has_pc t.nodes (reg t r) pc
    (if again || r == rd insn then some t else track_result (reg t r) 0 insn pc t)
  track_sources (in_reg r ∷ (in_reg s ∷ rest)) insn pc t = do
    again ← has_pc t.nodes (reg t r) pc
    also ← (if again then some true else has_pc t.nodes (reg t s) pc)
    (if also
        then some t
        else track_result (reg t r) (reg t s) insn pc
            (record t { monitored = t.monitored || ltb 0 (length rest) }))
  track_sources sources insn pc t = some t

  -- What `track` does with what `lookup_args` left.
  unfoldable pub track_args : List Source → (insn pc : ℕ) → Tracker → Option Tracker
  unfolding track_sources
  track_args [] insn pc t = some t
  track_args (in_memory ∷ rest) insn pc t = none
  track_args (in_reg first ∷ rest) insn pc t =
      if first == 0 || first == reg_sp
      then some t
      else if names_memory rest
      then some (record t { is_mem_insn = true })
      else if rd insn == 0 || not (rd insn == first)
      then some t
      else track_sources rest insn pc t

  -- `lookup_args` is a parameter: the disassembler's.
  unfoldable pub track :
      (lookup_args : ℕ → Option (List Source)) (insn pc : ℕ) → Tracker → Option Tracker
  unfolding track_args
  track lookup_args insn pc t = do
    sources ← lookup_args insn
    track_args sources insn pc (record t { last_insn = insn; last_pc = pc; is_mem_insn = false })

  -- The calls that a hart makes of its tracker, for an instruction, a load and a store, and a run of
  -- them.
  unfoldable pub track_call :
      (lookup_args : ℕ → Option (List Source)) → Call → Tracker → Option Tracker
  unfolding track track_load track_store
  track_call lookup_args (call_track insn pc) t = track lookup_args insn pc t
  track_call lookup_args (call_load paddr) t = track_load paddr t
  track_call lookup_args (call_store paddr addr) t = track_store paddr addr t

  unfoldable pub track_calls :
      (lookup_args : ℕ → Option (List Source)) → List Call → Tracker → Option Tracker
  unfolding track_call
  track_calls lookup_args [] t = some t
  track_calls lookup_args (call ∷ rest) t = do
    t' ← track_call lookup_args call t
    track_calls lookup_args rest t'
