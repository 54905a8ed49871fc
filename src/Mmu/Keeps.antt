-- ===== src/Mmu/Keeps.antt =====
-- The port of riscv/mmu.h changes nothing in `state_t`.
use riscv_isa_sim.Base.{ℕ, ◌≡◌, refl, sym, subst, Bool, true, false}
use riscv_isa_sim.Hart.State.{State}
use riscv_isa_sim.Hart.Machine.{Machine, HostPtr, main}
use riscv_isa_sim.Hart.Keeps.{returned, threw, Keeps, After-bind, After-if}
use riscv_isa_sim.Mmu.Translate.{translate, translate_main, refill_tlb, enter_libspike, watched}
use riscv_isa_sim.Mmu.Memory.{
  load_tagged, store_tagged, load, store, store_tag_value, host_write, trace,
}

module _ (Q : State → Type 0) where
  abbrev pub OfState : Machine → Type 0
  OfState m = Q m.state

  refill_tlb-Keeps : (addr : ℕ) (store fetch : Bool) → Keeps OfState (refill_tlb addr store fetch)
  unfolding refill_tlb
  refill_tlb-Keeps addr store fetch m q = After-if _ _ _ (returned _ _ q) (threw _ _ q)

  translate_main-Keeps :
      (addr bytes : ℕ) (store fetch : Bool) → Keeps OfState (translate_main addr bytes store fetch)
  unfolding translate_main
  translate_main-Keeps addr bytes store fetch m q =
      After-if _ _ _ (threw _ _ q)
        (After-if _ _ _ (returned _ _ q) (refill_tlb-Keeps addr store fetch m q))

  pub translate-Keeps :
      (addr bytes : ℕ) (store fetch : Bool) → Keeps OfState (translate addr bytes store fetch)
  unfolding translate watched enter_libspike
  translate-Keeps addr bytes store fetch m q =
      After-if _ _ _ (returned _ _ q)
        (translate_main-Keeps addr bytes store fetch (watched addr store fetch m) q)

  host_write-state :
      (p : HostPtr) (bytes v : ℕ) (m : Machine) → (host_write p bytes v m).state ≡ m.state
  unfolding host_write
  host_write-state (main p) bytes v m = refl
  host_write-state p bytes v m = refl

  host_write-Keeps :
      (p : HostPtr) (bytes v : ℕ) (m : Machine) → OfState m → OfState (host_write p bytes v m)
  host_write-Keeps p bytes v m q = subst Q (sym (host_write-state p bytes v m)) q

  pub load_tagged-Keeps :
      (garbage bytes : ℕ) (signed : Bool) (addr : ℕ)
      → Keeps OfState (load_tagged garbage bytes signed addr)
  unfolding load_tagged trace
  load_tagged-Keeps garbage bytes signed addr m q =
      After-bind (translate addr bytes false false) _ m (translate-Keeps addr bytes false false m q)
        (λ paddr m' q'. After-if _ _ _ (returned _ _ q') (returned _ _ q'))

  pub load-Keeps : (bytes : ℕ) (signed : Bool) (addr : ℕ) → Keeps OfState (load bytes signed addr)
  unfolding load trace
  load-Keeps bytes signed addr m q =
      After-bind (translate addr bytes false false) _ m (translate-Keeps addr bytes false false m q)
        (λ paddr m' q'. returned _ _ q')

  pub store-Keeps : (bytes addr val : ℕ) → Keeps OfState (store bytes addr val)
  unfolding store trace
  store-Keeps bytes addr val m q =
      After-bind (translate addr bytes true false) _ m (translate-Keeps addr bytes true false m q)
        (λ paddr m' q'. returned _ _ (host_write-Keeps paddr bytes val _ q'))

  pub store_tag_value-Keeps : (value addr : ℕ) → Keeps OfState (store_tag_value value addr)
  unfolding store_tag_value trace
  store_tag_value-Keeps value addr m q =
      After-bind (translate addr 1 true false) _ m (translate-Keeps addr 1 true false m q)
        (λ paddr m' q'. returned _ _ (host_write-Keeps _ 1 value _ q'))

  pub store_tagged-Keeps :
      (bytes addr val tag : ℕ) → Keeps OfState (store_tagged bytes addr val tag)
  unfolding store_tagged trace
  store_tagged-Keeps bytes addr val tag m q =
      After-bind (translate addr bytes true false) _ m (translate-Keeps addr bytes true false m q)
        (λ paddr m' q'.
          After-if _ _ _ (returned _ _ (host_write-Keeps paddr bytes val m' q'))
            (returned _ _ (host_write-Keeps _ 1 tag _ (host_write-Keeps paddr bytes val m' q'))))
