-- ===== src/Tracker/Kept.antt =====
-- Every operation of riscv/tracker.cc keeps the counts of the nodes, and meets no freed node.
use riscv_isa_sim.Base.{
  bit_and-lt, ℕ, suc, ◌/◌, ◌≤◌, length, ◌<◌, ◌≡◌, ◌≢◌, refl, inl, inr, Bool, true, false, ◌==◌,
  Bool-cases, if◌then◌else◌, Option, none, some, List, [], ◌∷◌, get_or, arith,
}
use riscv_isa_sim.Isa.Insn.{x, rd, rs1, rs2}
use riscv_isa_sim.Mmu.Memory.{mem_to_tag_ratio}
use riscv_isa_sim.Disasm.{Source, in_memory, in_reg}
use riscv_isa_sim.Tracker.Store.{Heap, node_at, is_there, there-node}
use riscv_isa_sim.Tracker.Graph.{
  Tracker, track_load, track_store, track_result, track_sources, track_args, reg, set_reg, set_mem,
  starts_in_memory, has_pc, ◌>>=◌,
}
use riscv_isa_sim.Tracker.Slots.{
  IsTracked, HasRoom, hit-le-occurs, slot-IsBalanced, reg-IsTracked, mem-IsTracked, flags-IsTracked,
  reg_there, mem_there,
}

rd_lt : (insn : ℕ) → rd insn < 32
unfolding rd x
rd_lt insn = bit_and-lt 5 _ 31 (omega arith)

module _ (malloc : Heap → ℕ) (garbage : ℕ) (malloc-ne-null : (h : Heap) → malloc h ≢ 0)
    (malloc-fresh : (h : Heap) → node_at h (malloc h) ≡ none) {sz : ℕ} (t : Tracker)
    (v : IsTracked sz t) (room : HasRoom sz (length t.nodes)) where
  -- The call returns with the counts kept, and makes one node at most.
  abbrev pub Keeps : Option Tracker → Type 0
  Keeps o =
      (t' : Tracker) × (o ≡ some t') × IsTracked sz t' × (length t'.nodes ≤ suc (length t.nodes))

  pub track_store-IsTracked :
      (paddr addr : ℕ)
      → paddr / mem_to_tag_ratio < sz
      → Keeps (track_store malloc garbage paddr addr t)
  unfolding track_store
  track_store-IsTracked paddr addr small = elim (Bool-cases t.is_mem_insn) [
    | inr off ↦ (t, ground arith, v, omega arith)
    | inl on ↦
        let ind = paddr / mem_to_tag_ratio in
        let made =
          slot-IsBalanced t v malloc garbage malloc-ne-null malloc-fresh (reg t (rs2 t.last_insn))
            (reg t (rs1 t.last_insn)) t.last_insn t.last_pc addr true (get_or t.mem ind 0)
            (reg_there t v (rs2 t.last_insn)) (reg_there t v (rs1 t.last_insn))
            (λ x. omega (arith, hit-le-occurs x t.mem ind (omega (arith, v.tags)))) room in
        (
          set_mem (record t { is_mem_insn = false }) ind (malloc t.nodes, made.0),
          ground (arith, on, made.1),
          mem-IsTracked t v false t.monitored t.last_insn t.last_pc ind (malloc t.nodes) made.0
              small made.2,
          made.3,
        )
  ]

  pub track_load-IsTracked :
      (paddr : ℕ) → paddr / mem_to_tag_ratio < sz → Keeps (track_load malloc garbage paddr t)
  unfolding track_load
  track_load-IsTracked paddr small = elim (Bool-cases t.is_mem_insn) [
    | inr off ↦ (t, ground arith, v, omega arith)
    | inl on ↦ elim (Bool-cases (rd t.last_insn == 0)) [
      | inl nowhere ↦ (
        record t { is_mem_insn = false },
        ground arith,
        flags-IsTracked t v false t.monitored t.last_insn t.last_pc,
        omega arith,
      )
      | inr somewhere ↦
          let ind = paddr / mem_to_tag_ratio in
          let dst = rd t.last_insn in
          let made =
            slot-IsBalanced t v malloc garbage malloc-ne-null malloc-fresh (get_or t.mem ind 0)
              (reg t (rs1 t.last_insn)) t.last_insn t.last_pc dst true (reg t dst)
              (mem_there t v ind) (reg_there t v (rs1 t.last_insn))
              (λ x.
                omega (
                  arith,
                  hit-le-occurs x t.regs dst (omega (arith, v.registers, rd_lt t.last_insn)),
                ))
              room in
          (
            set_reg (record t { is_mem_insn = false }) dst (malloc t.nodes, made.0),
            ground (arith, on, somewhere, made.1),
            reg-IsTracked t v false t.monitored t.last_insn t.last_pc dst (malloc t.nodes) made.0
                (rd_lt t.last_insn) made.2,
            made.3,
          )
    ]
  ]

  track_result-IsTracked :
      (c1 c2 insn pc : ℕ) (monitored : Bool)
      → (c1 ≢ 0 → is_there t.nodes c1 ≡ true)
      → (c2 ≢ 0 → is_there t.nodes c2 ≡ true)
      → Keeps (track_result malloc garbage c1 c2 insn pc (record t { monitored = monitored }))
  unfolding track_result
  track_result-IsTracked c1 c2 insn pc monitored there1 there2 =
      let dst = rd insn in
      let made =
        slot-IsBalanced t v malloc garbage malloc-ne-null malloc-fresh c1 c2 insn pc dst false
          (reg t dst) there1 there2
          (λ x. omega (arith, hit-le-occurs x t.regs dst (omega (arith, v.registers, rd_lt insn))))
          room in
      (
        set_reg (record t { monitored = monitored }) dst (malloc t.nodes, made.0),
        ground (arith, made.1),
        reg-IsTracked t v t.is_mem_insn monitored t.last_insn t.last_pc dst (malloc t.nodes) made.0
            (rd_lt insn) made.2,
        made.3,
      )

  -- The test for the same instruction reads no freed node.
  has_pc-some : (r pc : ℕ) → (again : Bool) × (has_pc t.nodes (reg t r) pc ≡ some again)
  unfolding has_pc
  has_pc-some r pc = elim (Bool-cases (reg t r == 0)) [
    | inl null ↦ (false, ground arith)
    | inr nonnull ↦
        let found = there-node t.nodes (reg t r) (reg_there t v r (ground arith)) in
        (found.0.pc == pc, ground (arith, nonnull, found.1))
  ]

  also_some :
      (again : Bool) (s pc : ℕ)
      → (also : Bool) × ((if again then some true else has_pc t.nodes (reg t s) pc) ≡ some also)
  also_some true s pc = (true, refl)
  also_some false s pc = has_pc-some s pc

  Keeps-if :
      (test : Bool) (o o' : Option Tracker) → Keeps o → Keeps o' → Keeps (if test then o else o')
  Keeps-if true o o' k k' = k
  Keeps-if false o o' k k' = k'

  Keeps-bind :
      {o : Option Bool} (f : Bool → Option Tracker) (found : (again : Bool) × (o ≡ some again))
      → Keeps (f found.0)
      → Keeps (o >>= f)
  Keeps-bind f found k = (k.0, rw (found.1, ◌>>=◌) k.1, k.2, k.3)

  same : Keeps (some t)
  same = (t, refl, v, omega arith)

  track_sources-IsTracked :
      (sources : List Source) (insn pc : ℕ) → Keeps (track_sources malloc garbage sources insn pc t)
  unfolding track_sources
  track_sources-IsTracked [] insn pc =
      track_result-IsTracked 0 0 insn pc t.monitored (λ z. absurd (z refl)) (λ z. absurd (z refl))
  track_sources-IsTracked (in_memory ∷ rest) insn pc = same
  track_sources-IsTracked (in_reg r ∷ []) insn pc = Keeps-bind _ (has_pc-some r pc) (
      Keeps-if _ _ _ same (
        track_result-IsTracked (reg t r) 0 insn pc t.monitored (reg_there t v r)
          (λ z. absurd (z refl))))
  track_sources-IsTracked (in_reg r ∷ (in_memory ∷ rest)) insn pc = same
  track_sources-IsTracked (in_reg r ∷ (in_reg s ∷ rest)) insn pc =
      let first = has_pc-some r pc in
      Keeps-bind _ first (
        Keeps-bind _ (also_some first.0 s pc) (
          Keeps-if _ _ _ same (
            track_result-IsTracked (reg t r) (reg t s) insn pc _ (reg_there t v r)
              (reg_there t v s))))

  pub track_args-IsTracked :
      (sources : List Source) (insn pc : ℕ)
      → starts_in_memory sources ≡ false
      → Keeps (track_args malloc garbage sources insn pc t)
  unfolding track_args
  track_args-IsTracked [] insn pc fits = same
  track_args-IsTracked (in_memory ∷ rest) insn pc fits = absurd (ground arith)
  track_args-IsTracked (in_reg first ∷ rest) insn pc fits = Keeps-if _ _ _ same (
      Keeps-if _ _ _
        (_, refl, flags-IsTracked t v true t.monitored t.last_insn t.last_pc, omega arith)
        (Keeps-if _ _ _ same (track_sources-IsTracked rest insn pc)))
