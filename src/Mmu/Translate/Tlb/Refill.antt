-- ===== src/Mmu/Translate/Tlb/Refill.antt =====
-- What a refill leaves in the TLB.
use riscv_isa_sim.Base.{
  bit_and_field, ◌⊎◌, inl, inr, ℕ, ◌-◌, ◌*◌, ◌/◌, ◌%◌, ◌^◌, ◌<◌, ◌≡◌, ◌≢◌, ◌∙◌, ap, sym, refl,
  arith, Bool, true, false, ◌==◌, ◌&&◌, if◌then◌else◌, bit_and, has, sub64, shr64, minus_one,
  bit_and_low, bit, bit_and_step, not64, bit_and_two_pow,
}
use riscv_isa_sim.Hart.Machine.{Machine, Mmu}
use riscv_isa_sim.Isa.Encoding.{pte_ur, pte_uw, pte_ux}
use riscv_isa_sim.Mmu.Walk.{walk, pgsize}
use riscv_isa_sim.Mmu.Walk.Laws.{walk-page}
use riscv_isa_sim.Mmu.Translate.{
  fill_tlb, tlb_tag, tlb_index, page_base, effective_perm, wanted_perm,
}
use riscv_isa_sim.Mmu.Translate.Tlb.{permitted, IsCoherent}

-- The permission bit of an access.
abbrev perm_bit : Bool → Bool → ℕ
perm_bit store fetch = if fetch then pte_ux else if store then pte_uw else pte_ur

-- A permission word allows an access if it has the bit of the access and the valid bit.
and_9 : (p : ℕ) → (bit_and p 9 == 9) ≡ (has p 8 && has p 1)
unfolding bit
and_9 p =
    ground
      (arith, bit_and_step p 9, bit_and_two_pow 2 (p / 2), bit_and_two_pow 3 p, bit_and_low 1 p)

and_17 : (p : ℕ) → (bit_and p 17 == 17) ≡ (has p 16 && has p 1)
unfolding bit
and_17 p =
    ground
      (arith, bit_and_step p 17, bit_and_two_pow 3 (p / 2), bit_and_two_pow 4 p, bit_and_low 1 p)

and_33 : (p : ℕ) → (bit_and p 33 == 33) ≡ (has p 32 && has p 1)
unfolding bit
and_33 p =
    ground
      (arith, bit_and_step p 33, bit_and_two_pow 4 (p / 2), bit_and_two_pow 5 p, bit_and_low 1 p)

allows :
    (p : ℕ) (store fetch : Bool)
    → (bit_and p (wanted_perm store fetch) == wanted_perm store fetch)
      ≡ (has p (perm_bit store fetch) && has p 1)
unfolding wanted_perm
allows p store true = and_33 p
allows p true false = and_17 p
allows p false false = and_9 p

pub page_mask_lem :
    (addr : ℕ) → addr < 2 ^ 64 → bit_and addr (not64 (pgsize - 1)) ≡ addr / 2 ^ 13 * 2 ^ 13
page_mask_lem addr h = bit_and_field 51 13 addr ∙ omega arith

tlb_tag-fill_tlb :
    (addr pte perm : ℕ) (u : Mmu) (store fetch : Bool) (i : ℕ)
    → tlb_tag (fill_tlb addr pte perm u) store fetch i ≡ (
        if i == tlb_index addr
        then (if has perm (perm_bit store fetch) then shr64 addr 13 else minus_one)
        else tlb_tag u store fetch i)
unfolding tlb_tag fill_tlb
tlb_tag-fill_tlb addr pte perm u store true i = refl
tlb_tag-fill_tlb addr pte perm u true false i = refl
tlb_tag-fill_tlb addr pte perm u false false i = refl

tlb_data-fill_tlb :
    (addr pte perm : ℕ) (u : Mmu) (i : ℕ)
    → addr < 2 ^ 64
    → (fill_tlb addr pte perm u).tlb_data i ≡ (
        if i == tlb_index addr
        then sub64 (page_base pte) (addr / 2 ^ 13 * 2 ^ 13)
        else u.tlb_data i)
unfolding fill_tlb
tlb_data-fill_tlb addr pte perm u i h = rw (page_mask_lem addr h)

pub walk-mmu : (m : Machine) (u : Mmu) (addr : ℕ) → walk (record m { mmu = u }) addr ≡ walk m addr
unfolding walk
walk-mmu m u addr = refl

effective_perm-mmu :
    (m : Machine) (u : Mmu) (pte : ℕ)
    → effective_perm (record m { mmu = u }) pte ≡ effective_perm m pte
unfolding effective_perm
effective_perm-mmu m u pte = refl

module _ (m : Machine) (align : m.memsz % 2 ^ 13 ≡ 0) (c : IsCoherent m) where
  abbrev pub after : ℕ → Mmu
  after addr = fill_tlb addr (walk m addr) (effective_perm m (walk m addr)) m.mmu

  pub permitted-mmu :
      (u : Mmu) (s f : Bool) (a : ℕ) → permitted (record m { mmu = u }) s f a ≡ permitted m s f a
  permitted-mmu u s f a = rw (walk-mmu m u a, effective_perm-mmu m u (walk m a))

  permitted-page :
      (s f : Bool) (a : ℕ) → a < 2 ^ 64 → permitted m s f (a / 2 ^ 13 * 2 ^ 13) ≡ permitted m s f a
  permitted-page s f a h =
      ap (λ (pte : ℕ). bit_and (effective_perm m pte) (wanted_perm s f) == wanted_perm s f)
        (walk-page m (a / 2 ^ 13 * 2 ^ 13) a (omega arith) h align (omega arith))

  module _ (addr : ℕ) (store fetch : Bool) (h : addr < 2 ^ 64)
      (ok : permitted m store fetch addr ≡ true) where
    -- The tag after the refill: that of the page at its index where the permission is there.
    tag :
        (s f : Bool) (i : ℕ)
        → tlb_tag (after addr) s f i ≡ (
            if i == tlb_index addr
            then (if has (effective_perm m (walk m addr)) (perm_bit s f)
                then shr64 addr 13
                else minus_one)
            else tlb_tag m.mmu s f i)
    tag s f i = tlb_tag-fill_tlb addr (walk m addr) (effective_perm m (walk m addr)) m.mmu s f i

    new_allowed :
        (s f : Bool)
        → has (effective_perm m (walk m addr)) (perm_bit s f) ≡ true
        → permitted m s f addr ≡ true
    new_allowed s f e = ground (
      arith,
      allows (effective_perm m (walk m addr)) s f,
      allows (effective_perm m (walk m addr)) store fetch,
    )

    -- What is known of an entry that is in use.
    entry :
        (s f : Bool) (i : ℕ)
        → i < 256
        → tlb_tag (after addr) s f i ≢ minus_one
        → ((i ≡ tlb_index addr)
            × (tlb_tag (after addr) s f i ≡ addr / 2 ^ 13)
            × (has (effective_perm m (walk m addr)) (perm_bit s f) ≡ true))
          ⊎ ((i ≢ tlb_index addr)
              × (tlb_tag (after addr) s f i ≡ tlb_tag m.mmu s f i)
              × (tlb_tag m.mmu s f i ≢ minus_one))
    entry s f i lt ne = ground (arith, tag s f i)

    allowed_after :
        (s f : Bool) (i : ℕ)
        → i < 256
        → tlb_tag (after addr) s f i ≢ minus_one
        → permitted m s f (tlb_tag (after addr) s f i * 2 ^ 13) ≡ true
    allowed_after s f i lt ne = elim (entry s f i lt ne) [
      | inl e ↦
          ap (λ (t : ℕ). permitted m s f (t * 2 ^ 13)) e.1
          ∙ permitted-page s f addr h
          ∙ new_allowed s f e.2
      | inr e ↦ ap (λ (t : ℕ). permitted m s f (t * 2 ^ 13)) e.1 ∙ c.allowed s f i lt e.2
    ]

    mapped_after :
        (s f : Bool) (i : ℕ)
        → i < 256
        → tlb_tag (after addr) s f i ≢ minus_one
        → (after addr).tlb_data i
          ≡ sub64
              (page_base (walk m (tlb_tag (after addr) s f i * 2 ^ 13)))
              (tlb_tag (after addr) s f i * 2 ^ 13)
    mapped_after s f i lt ne = elim (entry s f i lt ne) [
      | inl e ↦
          tlb_data-fill_tlb addr (walk m addr) (effective_perm m (walk m addr)) m.mmu i h
          ∙ ground arith
          ∙ ap (λ (pte : ℕ). sub64 (page_base pte) (addr / 2 ^ 13 * 2 ^ 13))
              (sym (walk-page m (addr / 2 ^ 13 * 2 ^ 13) addr (omega arith) h align (omega arith)))
          ∙ ap (λ (t : ℕ). sub64 (page_base (walk m (t * 2 ^ 13))) (t * 2 ^ 13)) (sym e.1)
      | inr e ↦
          tlb_data-fill_tlb addr (walk m addr) (effective_perm m (walk m addr)) m.mmu i h
          ∙ ground (arith, e.0)
          ∙ c.mapped s f i lt e.2
          ∙ ap (λ (t : ℕ). sub64 (page_base (walk m (t * 2 ^ 13))) (t * 2 ^ 13)) (sym e.1)
    ]

    -- A refill leaves a coherent TLB.
    pub refilled : IsCoherent (record m { mmu = after addr })
    refilled = record {
      page_small = λ s f i lt ne. ground (arith, tag s f i, c.page_small s f i lt);
      allowed = λ s f i lt ne.
          permitted-mmu (after addr) s f (tlb_tag (after addr) s f i * 2 ^ 13)
          ∙ allowed_after s f i lt ne;
      mapped = λ s f i lt ne.
          mapped_after s f i lt ne
          ∙ ap (λ (pte : ℕ). sub64 (page_base pte) (tlb_tag (after addr) s f i * 2 ^ 13))
              (sym (walk-mmu m (after addr) (tlb_tag (after addr) s f i * 2 ^ 13)));
    }
