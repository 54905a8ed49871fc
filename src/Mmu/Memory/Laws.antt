-- ===== src/Mmu/Memory/Laws.antt =====
-- Loads after stores, where the machine maps the memory as it is.
use riscv_isa_sim.Base.{
  bit_and, sub64, ℕ, zero, suc, ◌+◌, ◌-◌, ◌*◌, ◌/◌, ◌%◌, ◌^◌, ◌<◌, ◌≤◌, ◌≡◌, ◌≢◌, ◌⊎◌, ◌∙◌, ap, ap₂,
  sym, refl, arith, Bool, true, false, ◌==◌, has, none, u8, List,
}
use native.Mathlib.Nat.{div-add-mod, div-div-eq-div-mul, one-le-pow, pow-suc}
use riscv_isa_sim.Hart.Machine.{Machine, Mmu, done, ◌>>=◌, main, tag_byte, Access}
use riscv_isa_sim.Mmu.Walk.{read_bytes, walk}
use riscv_isa_sim.Mmu.Translate.{wanted_perm, page_base, effective_perm, tlb_tag}
use riscv_isa_sim.Mmu.Translate.Tlb.{IsCoherent}
use riscv_isa_sim.Mmu.Translate.Tlb.Refill.{walk-mmu}
use riscv_isa_sim.Mmu.Translate.Flat.{IsFlat, translate-flat}
use riscv_isa_sim.Mmu.Memory.{
  write_bytes, extend, host_read, host_write, trace, clear_no_tag, paddr_to_tagaddr, data_access,
  tag_access, load_tagged, store_tagged,
}

-- A read depends on the bytes that it reads.
read_bytes-agree :
    (f g : ℕ → ℕ) (n p : ℕ)
    → ((a : ℕ) → p ≤ a → a < p + n → f a ≡ g a)
    → read_bytes f n p ≡ read_bytes g n p
unfolding read_bytes
read_bytes-agree f g zero p same = refl
read_bytes-agree f g (suc n) p same =
    ap₂ (λ (low high : ℕ). low + 256 * high) (same p (omega arith) (omega arith))
      (read_bytes-agree f g n (p + 1) (λ a h k. same a (omega arith) (omega arith)))

write_bytes-other :
    (mem : ℕ → ℕ) (n p v a : ℕ) → (a < p) ⊎ (p + n ≤ a) → write_bytes mem n p v a ≡ mem a
unfolding write_bytes
write_bytes-other mem zero p v a h = refl
write_bytes-other mem (suc n) p v a h =
    ground (arith, write_bytes-other mem n (p + 1) (v / 256) a (ground arith))

mod_digit : (v m : ℕ) → 1 ≤ m → v % (256 * m) ≡ v % 256 + 256 * (v / 256 % m)
mod_digit v m h = omega (
  arith,
  div-add-mod v (256 * m),
  div-add-mod (v / 256) m,
  ap (λ (t : ℕ). m * t) (div-div-eq-div-mul v 256 m),
)

-- The bytes of a number read back are the number.
pub read_bytes-write_bytes :
    (mem : ℕ → ℕ) (n p v : ℕ) → read_bytes (write_bytes mem n p v) n p ≡ v % 256 ^ n
unfolding read_bytes write_bytes
read_bytes-write_bytes mem zero p v = omega arith
read_bytes-write_bytes mem (suc n) p v =
    ap₂ (λ (low high : ℕ). low + 256 * high) (ground arith)
      (read_bytes-agree (write_bytes mem (suc n) p v) (write_bytes mem n (p + 1) (v / 256)) n
          (p + 1) (λ a h k. ground arith)
        ∙ read_bytes-write_bytes mem n (p + 1) (v / 256))
    ∙ sym (mod_digit v (256 ^ n) (one-le-pow n 256 (omega arith)))
    ∙ ap (λ (t : ℕ). v % t) (omega (arith, pow-suc 256 n))

module _ (m : Machine) (flat : IsFlat m) (c : IsCoherent m) (unwatched : m.watch ≡ none)
    (no_page : m.mmu.has_no_tag ≡ false) where
  -- An aligned load inside the memory returns the bytes there and the tag of their word.
  load_tagged-flat :
      (garbage bytes addr : ℕ) (signed : Bool)
      → addr < m.memsz
      → has addr (bytes - 1) ≡ false
      → (m' : Machine) × (load_tagged garbage bytes signed addr m
          ≡ done
              (record {
                val = extend bytes signed (read_bytes m.mem bytes addr);
                tag = read_bytes m.tagmem 1 (addr / 8);
              })
              m')
  unfolding load_tagged paddr_to_tagaddr host_read trace
  load_tagged-flat garbage bytes addr signed h e =
      let (u, same, _, tagged) = translate-flat m addr bytes false false flat c unwatched h e in
      (
        clear_no_tag (
            trace (tag_access (tag_byte (addr / 8)) false 0)
              (trace (data_access (main addr) bytes false 0) (record m { mmu = u }))),
        rw (◌>>=◌, same, tagged ∙ no_page) refl,
      )

  -- The machine after a store.
  abbrev pub stored : Mmu → List Access → ℕ → ℕ → ℕ → ℕ → Machine
  stored u accesses bytes addr val tag = record m {
    mmu = record u { has_no_tag = false };
    mem = write_bytes m.mem bytes addr val;
    tagmem = write_bytes m.tagmem 1 (addr / 8) tag;
    traced = accesses;
  }

  pub store_tagged-flat :
      (bytes addr val tag : ℕ)
      → addr < m.memsz
      → has addr (bytes - 1) ≡ false
      → (u : Mmu) × (accesses : List Access) × (store_tagged bytes addr val tag m
          ≡ done tt (stored u accesses bytes addr val tag))
        × IsCoherent (record m { mmu = u })
  unfolding store_tagged paddr_to_tagaddr host_write trace
  store_tagged-flat bytes addr val tag h e =
      let (u, same, kept, tagged) = translate-flat m addr bytes true false flat c unwatched h e in
      (
        u,
        (trace (tag_access (tag_byte (addr / 8)) true (u8 tag))
            (trace (data_access (main addr) bytes true (val % 2 ^ (8 * bytes))) m)).traced,
        rw (◌>>=◌, same, tagged ∙ no_page) refl,
        kept,
      )

  walk-stored :
      (u : Mmu) (accesses : List Access) (bytes addr val tag a : ℕ)
      → walk (stored u accesses bytes addr val tag) a ≡ walk m a
  unfolding walk
  walk-stored u accesses bytes addr val tag a = rw flat.no_tables

  stored-IsCoherent :
      (u : Mmu) (accesses : List Access) (bytes addr val tag : ℕ)
      → IsCoherent (record m { mmu = u })
      → IsCoherent (stored u accesses bytes addr val tag)
  unfolding tlb_tag effective_perm
  stored-IsCoherent u accesses bytes addr val tag k = record {
    page_small = k.page_small;
    allowed = λ s f i lt ne.
        ap (λ (pte : ℕ). bit_and (effective_perm m pte) (wanted_perm s f) == wanted_perm s f)
          (same (tlb_tag u s f i * 2 ^ 13))
        ∙ k.allowed s f i lt ne;
    mapped = λ s f i lt ne.
        k.mapped s f i lt ne
        ∙ ap (λ (pte : ℕ). sub64 (page_base pte) (tlb_tag u s f i * 2 ^ 13))
            (sym (same (tlb_tag u s f i * 2 ^ 13)));
  }
    where
      same : (a : ℕ) → walk (stored u accesses bytes addr val tag) a ≡ walk (record m { mmu = u }) a
      same a = walk-stored u accesses bytes addr val tag a ∙ sym (walk-mmu m u a)

-- With virtual memory off, the TLB coherent, no address watched and `has_no_tag` clear, an aligned
-- store inside the memory succeeds, and a load of the same width at the same address returns the
-- value, cut to the width and extended, and its tag of eight bits. The store leaves a coherent TLB,
-- and changes no other byte and the tag of no other word of eight bytes. (After a fetch from the
-- page of `libspike`, or a `store_tag_value` there, `has_no_tag` is set until the next load or
-- store.)
pub load_tagged-store_tagged :
    (m : Machine) (garbage bytes addr val tag : ℕ) (signed : Bool)
    → IsFlat m
    → IsCoherent m
    → m.watch ≡ none
    → m.mmu.has_no_tag ≡ false
    → addr < m.memsz
    → has addr (bytes - 1) ≡ false
    → (m' : Machine) × (m'' : Machine) × (store_tagged bytes addr val tag m ≡ done tt m')
      × (load_tagged garbage bytes signed addr m'
          ≡ done (record { val = extend bytes signed (val % 256 ^ bytes); tag = tag % 256 }) m'')
      × IsCoherent m'
      × ((a : ℕ) → (a < addr) ⊎ (addr + bytes ≤ a) → m'.mem a ≡ m.mem a)
      × ((w : ℕ) → w ≢ addr / 8 → m'.tagmem w ≡ m.tagmem w)
unfolding read_bytes
load_tagged-store_tagged m garbage bytes addr val tag signed flat c unwatched no_page h e =
    let (u, accesses, written, k) =
      store_tagged-flat m flat c unwatched no_page bytes addr val tag h e in
    let m' : Machine = stored m flat c unwatched no_page u accesses bytes addr val tag in
    let flat' : IsFlat m' = record {
      no_tables = flat.no_tables;
      aligned = flat.aligned;
      small = flat.small;
    } in
    let coherent : IsCoherent m' =
      stored-IsCoherent m flat c unwatched no_page u accesses bytes addr val tag k in
    let (m'', loaded) =
      load_tagged-flat m' flat' coherent unwatched refl garbage bytes addr signed h e in
    (
      m',
      m'',
      written,
      loaded
          ∙ ap₂ (λ (v t : ℕ). done (record { val = extend bytes signed v; tag = t }) m'')
              (read_bytes-write_bytes m.mem bytes addr val)
              (read_bytes-write_bytes m.tagmem 1 (addr / 8) tag),
      coherent,
      λ a o. write_bytes-other m.mem bytes addr val a o,
      λ w o. write_bytes-other m.tagmem 1 (addr / 8) tag w (ground arith),
    )
