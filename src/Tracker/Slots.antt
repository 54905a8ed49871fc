-- ===== src/Tracker/Slots.antt =====
-- The slots of riscv/tracker.cc that refer to nodes, and what a new node in one of them keeps.
use riscv_isa_sim.Base.{
  ℕ, zero, suc, ◌+◌, ◌-◌, ◌*◌, ◌^◌, ◌≤◌, ◌<◌, ◌≡◌, ◌≢◌, refl, ap, ◌∙◌, Bool, true, none, some, List,
  [], ◌∷◌, length, get_or, set, length-set, arith,
}
use riscv_isa_sim.Tracker.Store.{Node, Heap, node_at, is_there}
use riscv_isa_sim.Tracker.Graph.{Tracker, take_place, make_node, reg}
use riscv_isa_sim.Tracker.Balance.{hit, occurs, IsBalanced, IsBalanced-roots}
use riscv_isa_sim.Tracker.Link.{linked-IsBalanced, replace-IsBalanced}

-- The references from the registers and from memory.
abbrev pub slots : Tracker → ℕ → ℕ
slots t x = occurs x t.regs + occurs x t.mem

-- Every reference leads to a node that is allocated, and the count of every node is the number of
-- references to it and not 0. There are 32
-- registers, and a slot for each tag.
pub record IsTracked (sz : ℕ) (t : Tracker) : Type 0 where
  pub balanced : IsBalanced 0 (slots t) [] t.nodes
  pub registers : length t.regs ≡ 32
  pub tags : length t.mem ≡ sz

occurs-set :
    (x : ℕ) (xs : List ℕ) (i p : ℕ)
    → i < length xs
    → occurs x (set xs i p) + hit x (get_or xs i 0) ≡ occurs x xs + hit x p
occurs-set x [] i p small = absurd (omega arith)
occurs-set x (q ∷ xs) zero p small = omega arith
occurs-set x (q ∷ xs) (suc i) p small = omega (arith, occurs-set x xs i p (omega arith))

occurs-get_or : (xs : List ℕ) (i : ℕ) → get_or xs i 0 ≢ 0 → 0 < occurs (get_or xs i 0) xs
occurs-get_or [] i nonnull = absurd (nonnull refl)
occurs-get_or (q ∷ xs) zero nonnull = ground arith
occurs-get_or (q ∷ xs) (suc i) nonnull = ground (arith, occurs-get_or xs i nonnull)

pub hit-le-occurs :
    (x : ℕ) (xs : List ℕ) (i : ℕ) → i < length xs → hit x (get_or xs i 0) ≤ occurs x xs
hit-le-occurs x [] i small = absurd (omega arith)
hit-le-occurs x (q ∷ xs) zero small = omega arith
hit-le-occurs x (q ∷ xs) (suc i) small = omega (arith, hit-le-occurs x xs i (omega arith))

occurs-le : (x : ℕ) (xs : List ℕ) → occurs x xs ≤ length xs
occurs-le x [] = omega arith
occurs-le x (q ∷ xs) = ground (arith, occurs-le x xs)

-- How many nodes there may be for a new one to be counted in an int: the references to a node are two
-- from each node, the new one included, at most, and one from each slot.
abbrev pub HasRoom : (sz nodes : ℕ) → Type 0
HasRoom sz nodes = 34 + sz + 2 * nodes < 2 ^ 31

-- What a slot refers to is there.
module _ {sz : ℕ} (t : Tracker) (v : IsTracked sz t) where
  slot_there : (p : ℕ) → p ≢ 0 → 0 < slots t p → is_there t.nodes p ≡ true
  slot_there p nonnull some_slot = ground (arith, v.balanced.counted p nonnull nonnull)

  pub reg_there : (r : ℕ) → reg t r ≢ 0 → is_there t.nodes (reg t r) ≡ true
  reg_there r nonnull = slot_there (reg t r) nonnull (omega (arith, occurs-get_or t.regs r nonnull))

  pub mem_there : (i : ℕ) → get_or t.mem i 0 ≢ 0 → is_there t.nodes (get_or t.mem i 0) ≡ true
  mem_there i nonnull =
      slot_there (get_or t.mem i 0) nonnull (omega (arith, occurs-get_or t.mem i nonnull))

  pub reg-IsTracked :
      (is_mem monitored : Bool) (insn pc dst p : ℕ) (h : Heap)
      → dst < 32
      → IsBalanced 0 (λ x. hit x p + (slots t x - hit x (reg t dst))) [] h
      → IsTracked sz (record t {
        nodes = h;
        regs = set t.regs dst p;
        last_insn = insn;
        last_pc = pc;
        is_mem_insn = is_mem;
        monitored = monitored;
      })
  reg-IsTracked is_mem monitored insn pc dst p h small b = record {
    balanced =
        IsBalanced-roots
          (λ x. omega (
            arith,
            occurs-set x t.regs dst p (omega (arith, v.registers)),
            hit-le-occurs x t.regs dst (omega (arith, v.registers)),
          ))
          b;
    registers = length-set t.regs dst p ∙ v.registers;
    tags = v.tags;
  }

  pub mem-IsTracked :
      (is_mem monitored : Bool) (insn pc ind p : ℕ) (h : Heap)
      → ind < sz
      → IsBalanced 0 (λ x. hit x p + (slots t x - hit x (get_or t.mem ind 0))) [] h
      → IsTracked sz (record t {
        nodes = h;
        mem = set t.mem ind p;
        last_insn = insn;
        last_pc = pc;
        is_mem_insn = is_mem;
        monitored = monitored;
      })
  mem-IsTracked is_mem monitored insn pc ind p h small b = record {
    balanced =
        IsBalanced-roots
          (λ x. omega (
            arith,
            occurs-set x t.mem ind p (omega (arith, v.tags)),
            hit-le-occurs x t.mem ind (omega (arith, v.tags)),
          ))
          b;
    registers = v.registers;
    tags = length-set t.mem ind p ∙ v.tags;
  }

  pub flags-IsTracked :
      (is_mem monitored : Bool) (insn pc : ℕ)
      → IsTracked sz
          (record t { last_insn = insn; last_pc = pc; is_mem_insn = is_mem; monitored = monitored })
  flags-IsTracked is_mem monitored insn pc = record {
    balanced = v.balanced;
    registers = v.registers;
    tags = v.tags;
  }

  module _ (malloc : Heap → ℕ) (garbage : ℕ) (malloc-ne-null : (h : Heap) → malloc h ≢ 0)
      (malloc-fresh : (h : Heap) → node_at h (malloc h) ≡ none) where
    -- A new node takes the place of an old one in a slot.
    pub slot-IsBalanced :
        (c1 c2 insn pc val : ℕ) (is_mem : Bool) (old : ℕ)
        → (c1 ≢ 0 → is_there t.nodes c1 ≡ true)
        → (c2 ≢ 0 → is_there t.nodes c2 ≡ true)
        → ((x : ℕ) → hit x old ≤ slots t x)
        → HasRoom sz (length t.nodes)
        → (h : Heap) × (take_place malloc garbage c1 c2 insn pc val is_mem old t.nodes
            ≡ some (malloc t.nodes, h))
          × IsBalanced 0 (λ x. hit x (malloc t.nodes) + (slots t x - hit x old)) [] h
          × (length h ≤ suc (length t.nodes))
    unfolding take_place make_node
    slot-IsBalanced c1 c2 insn pc val is_mem old there1 there2 held room =
        let new = malloc t.nodes in
        let n : Node = record {
          c1 = c1;
          c2 = c2;
          insn = insn;
          pc = pc;
          val = val;
          refc = garbage;
          is_mem = is_mem;
        } in
        let fresh = malloc-fresh t.nodes in
        let linked =
          linked-IsBalanced new (slots t) n v.balanced (malloc-ne-null t.nodes) fresh
            (record {
              other = λ z e. ground (arith, there1 z, fresh, ap (is_there t.nodes) e);
              there = there1;
            })
            (record {
              other = λ z e. ground (arith, there2 z, fresh, ap (is_there t.nodes) e);
              there = there2;
            })
            (λ x.
              omega (arith, occurs-le x t.regs, occurs-le x t.mem, v.registers, v.tags, room)) in
        let done =
          replace-IsBalanced new (λ x. slots t x - hit x old) old
            (IsBalanced-roots (λ x. omega (arith, held x)) linked.4) (malloc-ne-null t.nodes) in
        (
          done.0,
          ground (arith, linked.2, linked.3, done.1),
          done.2,
          omega (arith, done.3, linked.5),
        )
