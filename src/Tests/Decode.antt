-- ===== src/Tests/Decode.antt =====
-- Decoding with two instructions, registered out of order.
use riscv_isa_sim.Base.{
  some, ℕ, ◌≡◌, refl, arith, Bool, true, false, inl, inr, if◌then◌else◌, List, [], ◌∷◌, ap,
}
use mathlib.Core.List.{Memᴰ}
use mathlib.Core.List.Memᴰ.{head, tail, not-nil, cases_cons}
use riscv_isa_sim.Hart.Decode.{
  InsnDesc, compare_insn, build_opcode_map, decode_insn, low_mask, shrink_buckets,
}
use riscv_isa_sim.Hart.Decode.Scan.{matches, IsSort}
use riscv_isa_sim.Hart.Decode.Laws.{low, sorted, decode_insn-build_opcode_map, decode_insn-illegal}

abbrev add : InsnDesc ℕ
add = record { match_bits = 0x33; mask = 0xfe00_707f; rv32 = 1; rv64 = 2 }

abbrev addi : InsnDesc ℕ
addi = record { match_bits = 0x13; mask = 0x707f; rv32 = 3; rv64 = 4 }

abbrev instructions : List (InsnDesc ℕ)
instructions = add ∷ addi ∷ []

-- Insertion.
abbrev insert :
    (InsnDesc ℕ → InsnDesc ℕ → Bool) → InsnDesc ℕ → List (InsnDesc ℕ) → List (InsnDesc ℕ)
insert less d [] = d ∷ []
insert less d (e ∷ rest) =
    let later = insert less d rest in if less e d then e ∷ later else d ∷ e ∷ rest

abbrev sort : (InsnDesc ℕ → InsnDesc ℕ → Bool) → List (InsnDesc ℕ) → List (InsnDesc ℕ)
sort less [] = []
sort less (d ∷ rest) = insert less d (sort less rest)

low_example : low 0 sort instructions ≡ 0x7f
unfolding low_mask shrink_buckets
low_example = refl

sorted_example : sorted 0 sort instructions ≡ addi ∷ add ∷ []
unfolding low_mask shrink_buckets compare_insn
sorted_example = refl

is_sort : IsSort (compare_insn (low 0 sort instructions)) instructions (sorted 0 sort instructions)
unfolding low_mask shrink_buckets compare_insn
is_sort = record {
  kept = λ d mem. swap mem;
  no_other = λ d mem. swap mem;
  ordered = (
    λ e mem. elim (cases_cons mem) [
      | inl same ↦ ap (λ (x : InsnDesc ℕ). compare_insn 0x7f x addi) same
      | inr none_left ↦ absurd (not-nil none_left)
    ],
    ((λ e mem. absurd (not-nil mem)), tt),
  );
}
  where
    swap : {a b d : InsnDesc ℕ} → Memᴰ d (a ∷ b ∷ []) → Memᴰ d (b ∷ a ∷ [])
    swap (head e) = tail (head e)
    swap (tail (head e)) = head e
    swap (tail (tail m)) = elim m [ ]

-- addi x1, x2, -1
decode_insn-build_opcode_map_example :
    decode_insn true (build_opcode_map 0 sort instructions) 0xfff1_0093 ≡ some 4
decode_insn-build_opcode_map_example =
    decode_insn-build_opcode_map 0 sort instructions addi (tail (head refl)) (omega arith) is_sort
      true 0xfff1_0093 refl only
  where
    only : (x : InsnDesc ℕ) → Memᴰ x instructions → matches 0xfff1_0093 x ≡ true → x ≡ addi
    only x mem m = elim (cases_cons mem) [
      | inl same ↦ absurd (ground (arith, m, ap (matches 0xfff1_0093) same))
      | inr (head e) ↦ e
      | inr (tail m') ↦ elim m' [ ]
    ]

decode_insn-illegal_example :
    decode_insn false (build_opcode_map 0 sort instructions) 0xffff_ffff ≡ some 0
decode_insn-illegal_example =
    decode_insn-illegal 0 sort instructions addi (tail (head refl)) (omega arith) is_sort false
      0xffff_ffff unmatched
  where
    unmatched : (x : InsnDesc ℕ) → Memᴰ x instructions → matches 0xffff_ffff x ≡ false
    unmatched x mem = elim (cases_cons mem) [
      | inl same ↦ ap (matches 0xffff_ffff) same
      | inr (head e) ↦ ap (matches 0xffff_ffff) e
      | inr (tail m') ↦ elim m' [ ]
    ]
