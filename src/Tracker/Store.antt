-- ===== src/Tracker/Store.antt =====
-- The nodes of riscv/tracker.h in the heap: the nodes that were allocated and not freed, with their
-- addresses. Address 0 is NULL. A missing address is one that no node has, or no longer.
use riscv_isa_sim.Base.{
  ℕ, ◌+◌, ◌≡◌, inl, inr, Option-cases, Bool, true, false, ◌==◌, if◌then◌else◌, Option, none, some,
  refl, ◌≤◌, List, [], ◌∷◌, length, arith,
}

pub record Node : Type 0 where
  pub c1 : ℕ
  pub c2 : ℕ
  pub insn : ℕ
  pub pc : ℕ
  pub val : ℕ
  pub refc : ℕ
  pub is_mem : Bool

abbrev pub Heap : Type 0
Heap = List (ℕ × Node)

unfoldable pub node_at : Heap → ℕ → Option Node
node_at [] p = none
node_at ((q, n) ∷ rest) p = if q == p then some n else node_at rest p

abbrev pub is_there : Heap → ℕ → Bool
is_there h p = elim (node_at h p) [ none ↦ false | some _ ↦ true ]

-- A write to the fields of the node at an address.
unfoldable pub put : Heap → ℕ → Node → Heap
put [] p n = []
put ((q, m) ∷ rest) p n = if q == p then (q, n) ∷ rest else (q, m) ∷ put rest p n

-- `free`.
unfoldable pub erase : Heap → ℕ → Heap
erase [] p = []
erase ((q, m) ∷ rest) p = if q == p then rest else (q, m) ∷ erase rest p

-- No address is there twice.
abbrev pub IsDistinct : Heap → Type 0
IsDistinct [] = Unit {0}
IsDistinct ((q, n) ∷ rest) = (node_at rest q ≡ none) × IsDistinct rest

-- The sum of a number of each node.
unfoldable pub total : (Node → ℕ) → Heap → ℕ
total w [] = 0
total w ((q, n) ∷ rest) = w n + total w rest

pub node_at-put :
    (h : Heap) (p x : ℕ) (n m : Node)
    → node_at h p ≡ some m
    → node_at (put h p n) x ≡ (if p == x then some n else node_at h x)
unfolding node_at put
node_at-put [] p x n m e = cc
node_at-put ((q, k) ∷ rest) p x n m e = ground (arith, node_at-put rest p x n m)

pub node_at-erase :
    (h : Heap) (p x : ℕ)
    → IsDistinct h
    → node_at (erase h p) x ≡ (if p == x then none else node_at h x)
unfolding node_at erase
node_at-erase [] p x d = ground arith
node_at-erase ((q, k) ∷ rest) p x d = ground (arith, node_at-erase rest p x d.1, d.0)

pub put-IsDistinct :
    (h : Heap) (p : ℕ) (n m : Node) → node_at h p ≡ some m → IsDistinct h → IsDistinct (put h p n)
unfolding node_at put
put-IsDistinct [] p n m e d = tt
put-IsDistinct ((q, k) ∷ rest) p n m e d =
    ground (arith, put-IsDistinct rest p n m, node_at-put rest p q n m)

pub erase-IsDistinct : (h : Heap) (p : ℕ) → IsDistinct h → IsDistinct (erase h p)
unfolding erase
erase-IsDistinct [] p d = tt
erase-IsDistinct ((q, k) ∷ rest) p d =
    ground (arith, erase-IsDistinct rest p d.1, node_at-erase rest p q d.1)

pub total-put :
    (w : Node → ℕ) (h : Heap) (p : ℕ) (n m : Node)
    → node_at h p ≡ some m
    → total w (put h p n) + w m ≡ total w h + w n
unfolding total node_at put
total-put w [] p n m e = cc
total-put w ((q, k) ∷ rest) p n m e = ground (arith, total-put w rest p n m)

pub total-erase :
    (w : Node → ℕ) (h : Heap) (p : ℕ) (m : Node)
    → node_at h p ≡ some m
    → total w (erase h p) + w m ≡ total w h
unfolding total node_at erase
total-erase w [] p m e = cc
total-erase w ((q, k) ∷ rest) p m e = ground (arith, total-erase w rest p m)

pub there-node : (h : Heap) (p : ℕ) → is_there h p ≡ true → (n : Node) × (node_at h p ≡ some n)
there-node h p e = elim (Option-cases (node_at h p)) [
  | inl gone ↦ absurd (ground arith)
  | inr found ↦ found
]

pub length-put : (h : Heap) (p : ℕ) (n : Node) → length (put h p n) ≡ length h
unfolding put
length-put [] p n = refl
length-put ((q, k) ∷ rest) p n = ground (arith, length-put rest p n)

pub length-erase : (h : Heap) (p : ℕ) → length (erase h p) ≤ length h
unfolding erase
length-erase [] p = omega arith
length-erase ((q, k) ∷ rest) p = ground (arith, length-erase rest p)
