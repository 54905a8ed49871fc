-- ===== src/Tracker/Cleanup.antt =====
-- `cleanup` of riscv/tracker.cc ends, meets no freed node, and keeps the counts.
use riscv_isa_sim.Base.{
  ℕ, zero, suc, ◌+◌, ◌-◌, ◌*◌, ◌≤◌, ◌<◌, ◌≡◌, ◌≢◌, refl, inl, inr, ◌==◌, Bool-cases, some, List, [],
  ◌∷◌, length, arith,
}
use riscv_isa_sim.Tracker.Store.{
  Heap, put, erase, total, total-put, total-erase, length-put, length-erase,
}
use riscv_isa_sim.Tracker.Graph.{refc_of, release, cleanup_loop}
use riscv_isa_sim.Tracker.Balance.{
  IsBalanced-roots, occurs, IsBalanced, referred, positive, freed-IsBalanced, released-IsBalanced,
}

-- The rounds that a queue can still take.
abbrev measure : List ℕ → Heap → ℕ
measure queue h = 3 * total refc_of h + length queue

module _ (new : ℕ) (roots : ℕ → ℕ) where
  -- A round lets go of one reference, and brings the end nearer.
  abbrev Released : ℕ → List ℕ → Heap → Type 0
  Released p queue h =
      (queue' : List ℕ) × (h' : Heap) × (release p queue h ≡ some (queue', h'))
      × IsBalanced new (λ x. occurs x queue' + roots x) [] h'
      × (measure queue' h' < measure (p ∷ queue) h)
      × (length h' ≤ length h)

  release-null :
      {h : Heap} (p : ℕ) (queue : List ℕ)
      → IsBalanced new (λ x. occurs x (p ∷ queue) + roots x) [] h
      → p ≡ 0
      → Released p queue h
  unfolding release
  release-null {h} p queue b e = (
    queue,
    h,
    ground arith,
    record {
      distinct = b.distinct;
      no_null = b.no_null;
      counted = λ x nonzero other. ground (arith, b.counted x nonzero other);
      apart = λ nonzero. ground (arith, b.apart nonzero);
      made = b.made;
      live = b.live;
    },
    omega arith,
    omega arith,
  )

  release-node :
      {h : Heap} (p : ℕ) (queue : List ℕ)
      → IsBalanced new (λ x. occurs x (p ∷ queue) + roots x) [] h
      → p ≢ 0
      → Released p queue h
  unfolding release
  release-node {h} p queue b nonnull =
      let found = referred roots p queue b nonnull in
      let n = found.0 in
      let e = found.1 in
      elim (Bool-cases (n.refc == 1)) [
        | inl last ↦ (
          n.c2 ∷ (n.c1 ∷ queue),
          erase h p,
          ground (arith, nonnull, e),
          freed-IsBalanced roots p queue b nonnull n e (ground arith),
          ground (arith, total-erase refc_of h p n e),
          length-erase h p,
        )
        | inr more ↦
            let n' = record n { refc = n.refc - 1 } in
            (
              queue,
              put h p n',
              ground (arith, nonnull, e, positive roots p queue b nonnull n e),
              released-IsBalanced roots p queue b nonnull n e
                  (ground (arith, positive roots p queue b nonnull n e)),
              ground (arith, total-put refc_of h p n' n e),
              omega (arith, length-put h p n'),
            )
      ]

  release-Released :
      {h : Heap} (p : ℕ) (queue : List ℕ)
      → IsBalanced new (λ x. occurs x (p ∷ queue) + roots x) [] h
      → Released p queue h
  release-Released p queue b = elim (Bool-cases (p == 0)) [
    | inl null ↦ release-null p queue b (ground arith)
    | inr nonnull ↦ release-node p queue b (ground arith)
  ]

  pub cleanup_loop-IsBalanced :
      (fuel : ℕ) (queue : List ℕ) (h : Heap)
      → IsBalanced new (λ x. occurs x queue + roots x) [] h
      → measure queue h ≤ fuel
      → (h' : Heap) × (cleanup_loop fuel queue h ≡ some h')
        × IsBalanced new roots [] h'
        × (length h' ≤ length h)
  unfolding cleanup_loop
  cleanup_loop-IsBalanced fuel [] h b enough =
      (h, refl, IsBalanced-roots (λ x. omega arith) b, omega arith)
  cleanup_loop-IsBalanced zero (p ∷ queue) h b enough = absurd (omega arith)
  cleanup_loop-IsBalanced (suc fuel) (p ∷ queue) h b enough =
      let step = release-Released p queue b in
      let rest = cleanup_loop-IsBalanced fuel step.0 step.1 step.3 (omega (arith, step.4)) in
      (rest.0, rw (step.2, cleanup_loop) rest.1, rest.2, omega (arith, rest.3, step.5))
