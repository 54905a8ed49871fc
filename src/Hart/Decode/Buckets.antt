-- ===== src/Hart/Decode/Buckets.antt =====
-- The buckets of a sorted list: from the start of its bucket on, each instruction is found.
use riscv_isa_sim.Base.{
  ℕ, zero, suc, ◌+◌, ◌<◌, ◌≤◌, ◌≡◌, inl, inr, ◌∙◌, ap, sym, subst, refl, arith, Bool-cases, ◌==◌,
  bit_and, get_or, length, List, [], ◌∷◌, ◌++◌,
}
use mathlib.Core.List.{Memᴰ}
use mathlib.Core.List.Memᴰ.{head, tail, not-nil, cases_cons, append_cases, append_right}
use riscv_isa_sim.Hart.Decode.{InsnDesc, OpcodeMap, take_bucket, fill_buckets, advance}

length-append : {A : Type 0} (xs ys : List A) → length (xs ++ ys) ≡ length xs + length ys
length-append [] ys = omega arith
length-append (x ∷ xs) ys = omega (arith, length-append xs ys)

module _ {F : Type 0} (mask : ℕ) where
  -- The bucket of an instruction.
  abbrev pub key : InsnDesc F → ℕ
  key d = bit_and d.match_bits mask

  abbrev pub IsKeySorted : List (InsnDesc F) → Type 0
  IsKeySorted [] = Unit
  IsKeySorted (d ∷ rest) = ((e : InsnDesc F) → Memᴰ e rest → key d ≤ key e) × IsKeySorted rest

  -- What the inner loop takes: all of bucket b, where no earlier bucket is left.
  record IsTaken (b : ℕ) (left taken rest : List (InsnDesc F)) : Type 0 where
    whole : taken ++ rest ≡ left
    in_bucket : (d : InsnDesc F) → Memᴰ d taken → key d ≡ b
    above : (d : InsnDesc F) → Memᴰ d rest → b < key d
    sorted : IsKeySorted rest

  -- The first is in the bucket.
  take_more :
      (b : ℕ) (d : InsnDesc F) (left taken rest : List (InsnDesc F))
      → key d ≡ b
      → IsTaken b left taken rest
      → IsTaken b (d ∷ left) (d ∷ taken) rest
  take_more b d left taken rest e t = record {
    whole = ap (λ (l : List (InsnDesc F)). d ∷ l) t.whole;
    in_bucket = λ x mem. elim (cases_cons mem) [
      | inl same ↦ ap key same ∙ e
      | inr deeper ↦ t.in_bucket x deeper
    ];
    above = t.above;
    sorted = t.sorted;
  }

  -- The first is in a later bucket.
  take_none :
      (b : ℕ) (d : InsnDesc F) (left : List (InsnDesc F))
      → b < key d
      → IsKeySorted (d ∷ left)
      → IsTaken b (d ∷ left) [] (d ∷ left)
  take_none b d left lt s = record {
    whole = refl;
    in_bucket = λ x mem. absurd (not-nil mem);
    above = λ x mem. elim (cases_cons mem) [
      | inl same ↦ omega (arith, ap key same)
      | inr deeper ↦ omega (arith, s.0 x deeper)
    ];
    sorted = s;
  }

  take_bucket-IsTaken :
      (b : ℕ) (left : List (InsnDesc F))
      → IsKeySorted left
      → ((d : InsnDesc F) → Memᴰ d left → b ≤ key d)
      → IsTaken b left (take_bucket mask b left).0 (take_bucket mask b left).1
  unfolding take_bucket
  take_bucket-IsTaken b [] s low = record {
    whole = refl;
    in_bucket = λ x mem. absurd (not-nil mem);
    above = λ x mem. absurd (not-nil mem);
    sorted = tt;
  }
  take_bucket-IsTaken b (d ∷ left) s low = elim (Bool-cases (b == key d)) [
    | inl e ↦ rw e (
        take_more b d left (take_bucket mask b left).0 (take_bucket mask b left).1
          (ground (arith, e)) (take_bucket-IsTaken b left s.1 (λ x mem. low x (tail mem))))
    | inr e ↦ rw e (take_none b d left (ground (arith, e, low d (head refl))) s)
  ]

  advance_taken :
      (taken rest : List (InsnDesc F)) (n : ℕ)
      → advance (length taken + n) (taken ++ rest) ≡ advance n rest
  advance_taken [] rest n = ap (λ (k : ℕ). advance k rest) {x = 0 + n} {y = n} (omega arith)
  advance_taken (d ∷ taken) rest n =
      ap (λ (k : ℕ). advance k (d ∷ taken ++ rest)) {x = suc (length taken) + n}
        {y = suc (length taken + n)} (omega arith)
      ∙ advance_taken taken rest n

  -- What the outer loop leaves.
  pub record IsFilled (n b j : ℕ) (left : List (InsnDesc F)) (filled : OpcodeMap F) : Type 0 where
    pub buckets : length filled.opcode_map ≡ n
    pub store : filled.opcode_store ≡ left
    pub found :
        (i : ℕ)
        → i < n
        → (from : ℕ) × (get_or filled.opcode_map i 0 ≡ j + from)
          × (from ≤ length left)
          × ((d : InsnDesc F) → Memᴰ d left → key d ≡ b + i → Memᴰ d (advance from left))

  fill_none :
      (b j : ℕ) (left : List (InsnDesc F))
      → ((d : InsnDesc F) → Memᴰ d left → b ≤ key d)
      → ((d : InsnDesc F) → Memᴰ d left → key d < b)
      → [] ≡ left
  fill_none b j [] low high = refl
  fill_none b j (d ∷ left) low high = absurd (omega (arith, low d (head refl), high d (head refl)))

  fill_more :
      (n b j : ℕ) (left taken rest : List (InsnDesc F)) (filled : OpcodeMap F)
      → IsTaken b left taken rest
      → IsFilled n (b + 1) (j + length taken) rest filled
      → IsFilled (suc n) b j left (record {
        opcode_map = j ∷ filled.opcode_map;
        opcode_store = taken ++ filled.opcode_store;
      })
  fill_more n b j left taken rest filled t f = record {
    buckets = ap suc f.buckets;
    store = ap (λ (l : List (InsnDesc F)). taken ++ l) f.store ∙ t.whole;
    found = find;
  }
    where
      find :
          (i : ℕ)
          → i < suc n
          → (from : ℕ) × (get_or (j ∷ filled.opcode_map) i 0 ≡ j + from)
            × (from ≤ length left)
            × ((d : InsnDesc F) → Memᴰ d left → key d ≡ b + i → Memᴰ d (advance from left))
      find zero h = (0, omega arith, omega arith, λ d mem e. mem)
      find (suc i) h =
          let (from, start, low, members) = f.found i (omega arith) in
          (
            length taken + from,
            omega (arith, start),
            omega (arith, low, ap length t.whole, length-append taken rest),
            λ d mem e. elim (append_cases taken (subst (λ l. Memᴰ d l) (sym t.whole) mem)) [
              | inl early ↦ absurd (omega (arith, e, t.in_bucket d early))
              | inr late ↦
                  subst (λ l. Memᴰ d (advance (length taken + from) l)) t.whole
                    (subst (λ l. Memᴰ d l) (sym (advance_taken taken rest from))
                      (members d late (omega (arith, e))))
            ],
          )

  pub fill_buckets-IsFilled :
      (n b j : ℕ) (left : List (InsnDesc F))
      → IsKeySorted left
      → ((d : InsnDesc F) → Memᴰ d left → b ≤ key d)
      → ((d : InsnDesc F) → Memᴰ d left → key d < b + n)
      → IsFilled n b j left (fill_buckets mask n b j left)
  unfolding fill_buckets
  fill_buckets-IsFilled zero b j left s low high = record {
    buckets = refl;
    store = fill_none b j left low (λ d mem. omega (arith, high d mem));
    found = λ i h. absurd (omega arith);
  }
  fill_buckets-IsFilled (suc n) b j left s low high =
      let t = take_bucket-IsTaken b left s low in
      let taken : List (InsnDesc F) = (take_bucket mask b left).0 in
      let rest : List (InsnDesc F) = (take_bucket mask b left).1 in
      fill_more n b j left taken rest (fill_buckets mask n (b + 1) (j + length taken) rest) t (
        fill_buckets-IsFilled n (b + 1) (j + length taken) rest t.sorted
          (λ d mem. omega (arith, t.above d mem))
          (λ d mem. omega (arith, high d (subst (λ l. Memᴰ d l) t.whole (append_right taken mem)))))
