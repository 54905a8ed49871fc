-- ===== src/Tracker/Link.antt =====
-- A new node of riscv/tracker.cc, from its allocation to the slot that it is put in.
use riscv_isa_sim.Base.{
  ℕ, ◌+◌, ◌*◌, ◌%◌, ◌^◌, ◌<◌, ◌≤◌, suc, length, ◌∙◌, ◌≡◌, ◌≢◌, refl, inl, inr, true, ◌==◌,
  Bool-cases, none, some, List, [], ◌∷◌, arith,
}
use riscv_isa_sim.Tracker.Store.{
  Node, Heap, node_at, is_there, there-node, put, total, length-put, node_at-put, put-IsDistinct,
  total-put,
}
use riscv_isa_sim.Tracker.Graph.{refc_of, add_ref, cleanup, replace}
use riscv_isa_sim.Tracker.Balance.{hit, kids, total-kids, IsBalanced, IsBalanced-roots}
use riscv_isa_sim.Tracker.Cleanup.{cleanup_loop-IsBalanced}

-- NULL, or a node other than the new one.
pub record IsShared (new : ℕ) (h : Heap) (p : ℕ) : Type 0 where
  pub other : p ≢ 0 → p ≢ new
  pub there : p ≢ 0 → is_there h p ≡ true

module _ (new : ℕ) (roots : ℕ → ℕ) where
  -- One owed reference is counted, where there are too few for the count to overflow; every node
  -- stays where it is.
  add_ref-IsBalanced :
      {h : Heap} (p : ℕ) (owed : List ℕ)
      → IsBalanced new roots (p ∷ owed) h
      → IsShared new h p
      → roots p + 2 * length h < 2 ^ 31
      → (h' : Heap) × (add_ref h p ≡ some h')
        × IsBalanced new roots owed h'
        × ((q : ℕ) → IsShared new h q → IsShared new h' q)
        × (length h' ≡ length h)
  unfolding add_ref
  add_ref-IsBalanced {h} p owed b shared room = elim (Bool-cases (p == 0)) [
    | inl null ↦ (
      h,
      ground arith,
      record {
        distinct = b.distinct;
        no_null = b.no_null;
        counted = λ x nonzero other. ground (arith, b.counted x nonzero other);
        apart = b.apart;
        made = b.made;
        live = b.live;
      },
      λ q s. s,
      refl,
    )
    | inr nonnull ↦
        let found = there-node h p (shared.there (ground arith)) in
        let n = found.0 in
        let e = found.1 in
        let n' = record n { refc = n.refc + 1 } in
        let fits : (n.refc + 1) % 2 ^ 32 ≡ n.refc + 1 =
          ground (arith, e, nonnull, room, total-kids p h, shared.other, b.counted p) in
        (
          put h p n',
          ground (arith, e, fits),
          record {
            distinct = put-IsDistinct h p n' n e b.distinct;
            no_null = ground (arith, node_at-put h p 0 n' n e, b.no_null);
            counted = λ x nonzero other. ground (
              arith,
              node_at-put h p x n' n e,
              b.counted x nonzero other,
              total-put (kids x) h p n' n e,
            );
            apart = λ nonzero. ground (arith, b.apart nonzero, total-put (kids new) h p n' n e);
            made = λ nonzero. ground (arith, node_at-put h p new n' n e, b.made nonzero);
            live = λ x m other at. ground (arith, node_at-put h p x n' n e, b.live x m other);
          },
          λ q s. record {
            other = s.other;
            there = λ z. ground (arith, node_at-put h p q n' n e, s.there z);
          },
          length-put h p n',
        )
  ]

  -- A node that takes two references, which are owed.
  fresh-IsBalanced :
      {h : Heap} (n : Node)
      → IsBalanced 0 roots [] h
      → new ≢ 0
      → node_at h new ≡ none
      → IsShared new h n.c1
      → IsShared new h n.c2
      → IsBalanced new roots (n.c1 ∷ (n.c2 ∷ [])) ((new, n) ∷ h)
  unfolding node_at total
  fresh-IsBalanced {h} n b nonnull fresh s1 s2 = record {
    distinct = (fresh, b.distinct);
    no_null = ground (arith, b.no_null);
    counted = λ x nonzero other. ground (arith, b.counted x nonzero nonzero);
    apart = λ nonzero.
        ground
          (arith, b.counted new nonnull nonnull, s1.other, s2.other, b.no_null, s1.there, s2.there);
    made = λ nonzero. ground arith;
    live = λ x m other at. ground (arith, b.live x m);
  }

  fresh-IsShared : {h : Heap} (n : Node) (p : ℕ) → IsShared new h p → IsShared new ((new, n) ∷ h) p
  unfolding node_at
  fresh-IsShared n p s = record {
    other = s.other;
    there = λ nonzero. ground (arith, s.there nonzero);
  }

  pub linked-IsBalanced :
      {h : Heap} (n : Node)
      → IsBalanced 0 roots [] h
      → new ≢ 0
      → node_at h new ≡ none
      → IsShared new h n.c1
      → IsShared new h n.c2
      → ((x : ℕ) → roots x + 2 * suc (length h) < 2 ^ 31)
      → (h1 : Heap) × (h2 : Heap) × (add_ref ((new, n) ∷ h) n.c1 ≡ some h1)
        × (add_ref h1 n.c2 ≡ some h2)
        × IsBalanced new roots [] h2
        × (length h2 ≡ suc (length h))
  linked-IsBalanced {h} n b nonnull fresh s1 s2 room =
      let first =
        add_ref-IsBalanced n.c1 (n.c2 ∷ []) (fresh-IsBalanced n b nonnull fresh s1 s2)
          (fresh-IsShared n n.c1 s1) (room n.c1) in
      let second =
        add_ref-IsBalanced n.c2 [] first.2 (first.3 n.c2 (fresh-IsShared n n.c2 s2))
          (omega (arith, room n.c2, first.4)) in
      (first.0, second.0, first.1, second.1, second.2, second.4 ∙ first.4)

  -- The count of the new node is set once it has its reference.
  counted-IsBalanced :
      {h : Heap} (n : Node)
      → IsBalanced new roots [] h
      → new ≢ 0
      → node_at h new ≡ some n
      → IsBalanced 0 (λ x. hit x new + roots x) [] (put h new (record n { refc = 1 }))
  counted-IsBalanced {h} n b nonnull e =
      let n' = record n { refc = 1 } in
      record {
        distinct = put-IsDistinct h new n' n e b.distinct;
        no_null = ground (arith, node_at-put h new 0 n' n e, b.no_null);
        counted = λ x nonzero other. ground (
          arith,
          node_at-put h new x n' n e,
          b.counted x nonzero,
          b.apart nonnull,
          total-put (kids x) h new n' n e,
        );
        apart = λ nonzero. absurd (nonzero refl);
        made = λ nonzero. absurd (nonzero refl);
        live = λ x m other at. ground (arith, node_at-put h new x n' n e, b.live x m);
      }

  pub replace-IsBalanced :
      {h : Heap} (old : ℕ)
      → IsBalanced new (λ x. hit x old + roots x) [] h
      → new ≢ 0
      → (h' : Heap) × (replace old (new, h) ≡ some (new, h'))
        × IsBalanced 0 (λ x. hit x new + roots x) [] h'
        × (length h' ≤ length h)
  unfolding replace cleanup
  replace-IsBalanced {h} old b nonnull =
      let cleaned =
        cleanup_loop-IsBalanced new roots (3 * total refc_of h + 1) (old ∷ []) h
          (IsBalanced-roots (λ x. omega arith) b) (omega arith) in
      let found = there-node cleaned.0 new (cleaned.2.made nonnull) in
      (
        put cleaned.0 new (record found.0 { refc = 1 }),
        ground (arith, cleaned.1, found.1),
        counted-IsBalanced found.0 cleaned.2 nonnull found.1,
        omega (arith, cleaned.3, length-put cleaned.0 new (record found.0 { refc = 1 })),
      )
