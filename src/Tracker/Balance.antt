-- ===== src/Tracker/Balance.antt =====
-- What the counts of the nodes of riscv/tracker.cc stand for: how many references each node has, from
-- outside the heap and from the other nodes.
use riscv_isa_sim.Base.{
  ℕ, ◌+◌, ◌-◌, ◌*◌, ◌≤◌, length, ◌<◌, ◌≡◌, ◌≢◌, inl, inr, true, ◌==◌, Option-cases, if◌then◌else◌,
  none, some, List, [], ◌∷◌, arith,
}
use riscv_isa_sim.Tracker.Store.{
  Node, Heap, node_at, put, erase, IsDistinct, is_there, total, node_at-put, node_at-erase,
  put-IsDistinct, erase-IsDistinct, total-put, total-erase,
}

-- 1 for a reference to x, and how many there are in a list and in a node.
abbrev pub hit : ℕ → ℕ → ℕ
hit x p = if x == p then 1 else 0

abbrev pub occurs : ℕ → List ℕ → ℕ
occurs x [] = 0
occurs x (p ∷ rest) = hit x p + occurs x rest

abbrev pub kids : ℕ → Node → ℕ
kids x n = hit x n.c1 + hit x n.c2

-- A node refers to two others at most.
pub total-kids : (x : ℕ) (h : Heap) → total (kids x) h ≤ 2 * length h
unfolding total
total-kids x [] = omega arith
total-kids x ((q, n) ∷ rest) = ground (arith, total-kids x rest)

abbrev pub refc_at : Heap → ℕ → ℕ
refc_at h x = elim (node_at h x) [ none ↦ 0 | some n ↦ n.refc ]

-- The references to a node are its count, but for those still owed. No node is counted 0, and NULL is
-- none. The node at `new`, if that is not NULL, has no reference yet, and its count is of no account.
pub record IsBalanced (new : ℕ) (roots : ℕ → ℕ) (owed : List ℕ) (h : Heap) : Type 0 where
  pub distinct : IsDistinct h
  pub no_null : node_at h 0 ≡ none
  pub counted : (x : ℕ) → x ≢ 0 → x ≢ new → roots x + total (kids x) h ≡ refc_at h x + occurs x owed
  pub apart : new ≢ 0 → roots new + total (kids new) h ≡ 0
  pub made : new ≢ 0 → is_there h new ≡ true
  pub live : (x : ℕ) (n : Node) → x ≢ new → node_at h x ≡ some n → 0 < n.refc

pub IsBalanced-roots :
    {new : ℕ} {roots roots' : ℕ → ℕ} {owed : List ℕ} {h : Heap}
    → ((x : ℕ) → roots x ≡ roots' x)
    → IsBalanced new roots owed h
    → IsBalanced new roots' owed h
IsBalanced-roots {new = new} same b = record {
  distinct = b.distinct;
  no_null = b.no_null;
  counted = λ x nonzero other. omega (arith, b.counted x nonzero other, same x);
  apart = λ nonzero. omega (arith, b.apart nonzero, same new);
  made = b.made;
  live = b.live;
}

module _ {new : ℕ} (roots : ℕ → ℕ) {h : Heap} (p : ℕ) (queue : List ℕ)
    (b : IsBalanced new (λ x. occurs x (p ∷ queue) + roots x) [] h) where
  -- A node with a reference is there.
  old : p ≢ 0 → p ≢ new
  old nonnull e = ground (arith, b.apart)

  pub referred : p ≢ 0 → (n : Node) × (node_at h p ≡ some n)
  referred nonnull = elim (Option-cases (node_at h p)) [
    | inl e ↦ absurd (ground (arith, b.counted p nonnull (old nonnull)))
    | inr found ↦ found
  ]

  module _ (nonnull : p ≢ 0) (n : Node) (e : node_at h p ≡ some n) where
    pub positive : 0 < n.refc
    positive = b.live p n (old nonnull) e

    -- The last reference goes: the node is freed, and its own references are to go.
    pub freed-IsBalanced :
        n.refc ≡ 1 → IsBalanced new (λ x. occurs x (n.c2 ∷ (n.c1 ∷ queue)) + roots x) [] (erase h p)
    freed-IsBalanced last = record {
      distinct = erase-IsDistinct h p b.distinct;
      no_null = ground (arith, node_at-erase h p 0 b.distinct, b.no_null);
      counted = λ x nonzero other. ground (
        arith,
        node_at-erase h p x b.distinct,
        b.counted x nonzero other,
        total-erase (kids x) h p n e,
      );
      apart = λ nonzero. ground (arith, b.apart nonzero, total-erase (kids new) h p n e);
      made =
          λ nonzero. ground (arith, node_at-erase h p new b.distinct, b.made nonzero, old nonnull);
      live = λ x m other at. ground (arith, node_at-erase h p x b.distinct, b.live x m other);
    }

    -- A reference goes that is not the last.
    pub released-IsBalanced :
        1 < n.refc
        → IsBalanced new
            (λ x. occurs x queue + roots x)
            []
            (put h p (record n { refc = n.refc - 1 }))
    released-IsBalanced more =
        let n' = record n { refc = n.refc - 1 } in
        record {
          distinct = put-IsDistinct h p n' n e b.distinct;
          no_null = ground (arith, node_at-put h p 0 n' n e, b.no_null);
          counted = λ x nonzero other. ground (
            arith,
            node_at-put h p x n' n e,
            b.counted x nonzero other,
            total-put (kids x) h p n' n e,
          );
          apart = λ nonzero. ground (arith, b.apart nonzero, total-put (kids new) h p n' n e);
          made = λ nonzero. ground (arith, node_at-put h p new n' n e, b.made nonzero);
          live = λ x m other at. ground (arith, node_at-put h p x n' n e, b.live x m other);
        }
