-- ===== src/Tracker/Runs.antt =====
-- A run of calls of the tracker of riscv/tracker.cc, from its constructor on.
use riscv_isa_sim.Base.{
  length, ◌≤◌, ℕ, zero, suc, ◌+◌, ◌/◌, ◌<◌, ◌≡◌, ◌≢◌, refl, Bool, false, ltb, Option-cases, inl,
  inr, Option, none, some, List, [], ◌∷◌, replicate, length-replicate, arith,
}
use riscv_isa_sim.Mmu.Memory.{mem_to_tag_ratio}
use riscv_isa_sim.Disasm.{Source}
use riscv_isa_sim.Tracker.Store.{Heap, node_at, is_there, total}
use riscv_isa_sim.Tracker.Graph.{
  Tracker, Call, call_track, call_load, call_store, new_tracker, track, track_call, track_calls,
  starts_in_memory, ◌>>=◌,
}
use riscv_isa_sim.Tracker.Balance.{kids, occurs, refc_at}
use riscv_isa_sim.Tracker.Slots.{HasRoom, slots, IsTracked, flags-IsTracked}
use riscv_isa_sim.Tracker.Kept.{track_args-IsTracked, track_load-IsTracked, track_store-IsTracked}

occurs-replicate : (x n : ℕ) → x ≢ 0 → occurs x (replicate n 0) ≡ 0
occurs-replicate x zero nonnull = refl
occurs-replicate x (suc n) nonnull = ground (arith, occurs-replicate x n nonnull)

new_tracker-IsTracked :
    (sz insn pc : ℕ) (is_mem : Bool) → IsTracked sz (new_tracker sz insn pc is_mem)
unfolding new_tracker node_at total
new_tracker-IsTracked sz insn pc is_mem = record {
  balanced = record {
    distinct = tt;
    no_null = refl;
    counted = λ x nonzero other.
        omega (arith, occurs-replicate x sz nonzero, occurs-replicate x 32 nonzero);
    apart = λ nonzero. absurd (nonzero refl);
    made = λ nonzero. absurd (nonzero refl);
    live = λ x n other at. cc;
  };
  registers = length-replicate {A = ℕ} 32 0;
  tags = length-replicate {A = ℕ} sz 0;
}

module _ {sz : ℕ} (t : Tracker) (v : IsTracked sz t) (x : ℕ) where
  count-eq : slots t (suc x) + total (kids (suc x)) t.nodes ≡ refc_at t.nodes (suc x)
  count-eq = omega (arith, v.balanced.counted (suc x) (λ e. omega arith) (λ e. omega arith))

  count-there : ltb 0 (slots t (suc x) + total (kids (suc x)) t.nodes) ≡ is_there t.nodes (suc x)
  count-there = elim (Option-cases (node_at t.nodes (suc x))) [
    | inl none_at ↦ ground (arith, count-eq)
    | inr (n, at) ↦ ground (arith, count-eq, at, v.balanced.live (suc x) n (λ e. omega arith) at)
  ]

module _ (lookup_args : ℕ → Option (List Source)) (sz : ℕ) where
  -- The word has an entry in the disassembler, or the address has a tag.
  abbrev pub IsKnown : Call → Type 0
  IsKnown (call_track insn pc) = (sources : List Source) × (lookup_args insn ≡ some sources)
  IsKnown (call_load paddr) = paddr / mem_to_tag_ratio < sz
  IsKnown (call_store paddr addr) = paddr / mem_to_tag_ratio < sz

  abbrev pub AllKnown : List Call → Type 0
  AllKnown [] = Unit {0}
  AllKnown (call ∷ rest) = IsKnown call × AllKnown rest

module _ (malloc : Heap → ℕ) (garbage : ℕ) (malloc-ne-null : (h : Heap) → malloc h ≢ 0)
    (malloc-fresh : (h : Heap) → node_at h (malloc h) ≡ none)
    (lookup_args : ℕ → Option (List Source))
    (in_order : (insn : ℕ) (sources : List Source)
      → lookup_args insn ≡ some sources
      → starts_in_memory sources ≡ false)
    (sz : ℕ) where
  track_call-IsTracked :
      (call : Call) (t : Tracker)
      → IsKnown lookup_args sz call
      → IsTracked sz t
      → HasRoom sz (length t.nodes)
      → (t' : Tracker) × (track_call malloc garbage lookup_args call t ≡ some t')
        × IsTracked sz t'
        × (length t'.nodes ≤ suc (length t.nodes))
  unfolding track_call track
  track_call-IsTracked (call_track insn pc) t known v room =
      let start = record t { last_insn = insn; last_pc = pc; is_mem_insn = false } in
      let kept =
        track_args-IsTracked malloc garbage malloc-ne-null malloc-fresh start
          (flags-IsTracked t v false t.monitored insn pc) room known.0 insn pc
          (in_order insn known.0 known.1) in
      (kept.0, rw (known.1, ◌>>=◌) kept.1, kept.2, kept.3)
  track_call-IsTracked (call_load paddr) t known v room =
      track_load-IsTracked malloc garbage malloc-ne-null malloc-fresh t v room paddr known
  track_call-IsTracked (call_store paddr addr) t known v room =
      track_store-IsTracked malloc garbage malloc-ne-null malloc-fresh t v room paddr addr known

  track_calls-IsTracked :
      (calls : List Call) (t : Tracker)
      → AllKnown lookup_args sz calls
      → IsTracked sz t
      → HasRoom sz (length t.nodes + length calls)
      → (t' : Tracker) × (track_calls malloc garbage lookup_args calls t ≡ some t')
        × IsTracked sz t'
  unfolding track_calls
  track_calls-IsTracked [] t known v room = (t, refl, v)
  track_calls-IsTracked (call ∷ rest) t known v room =
      let first = track_call-IsTracked call t known.0 v (omega arith) in
      let more = track_calls-IsTracked rest first.0 known.1 first.2 (omega (arith, first.3)) in
      (more.0, rw (first.1, ◌>>=◌) more.1, more.2)

  -- A run of calls from the constructor on ends, and accesses no freed node. After it, the count of
  -- every node is the number of references to it from the registers, from memory and from other nodes,
  -- and a node is allocated exactly if there is such a reference: nothing leaks and nothing dangles. So
  -- it is where the words have entries in the disassembler, none of which starts with memory, where the
  -- addresses have tags, where `malloc` returns the address of no node and not NULL, and where the
  -- calls are too few for a count to overflow.
  pub track_calls_count :
      (calls : List Call) (insn pc : ℕ) (is_mem : Bool)
      → AllKnown lookup_args sz calls
      → HasRoom sz (length calls)
      → (t : Tracker) × (track_calls malloc garbage lookup_args calls
            (new_tracker sz insn pc is_mem)
          ≡ some t)
        × ((x : ℕ) → slots t (suc x) + total (kids (suc x)) t.nodes ≡ refc_at t.nodes (suc x))
        × ((x : ℕ)
            → ltb 0 (slots t (suc x) + total (kids (suc x)) t.nodes) ≡ is_there t.nodes (suc x))
  track_calls_count calls insn pc is_mem known room =
      let run =
        track_calls-IsTracked calls (new_tracker sz insn pc is_mem) known
          (new_tracker-IsTracked sz insn pc is_mem) (unfold new_tracker in omega arith) in
      (run.0, run.1, λ x. count-eq run.0 run.2 x, λ x. count-there run.0 run.2 x)
