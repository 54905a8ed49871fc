-- ===== src/Cache/Reached.antt =====
-- The buffer of `add_cache` of riscv/memtracer.cc: each cache once, and with each its miss handlers.
use riscv_isa_sim.Base.{
  ℕ, zero, suc, ◌≤◌, ◌<◌, ◌≡◌, refl, ap, subst, fun_ext, ◌∙◌, Bool, true, false, ◌==◌, ◌||◌,
  Bool-cases, ◌⊎◌, inl, inr, Option, none, some, List, [], ◌∷◌, ◌++◌, arith,
}
use riscv_isa_sim.Cache.Access.{◌>>=◌}
use riscv_isa_sim.Cache.Traversal.{
  Hooks, a_tracer, a_list, no_more, hook, holds, push_new, visit, add_cache, add_caches, gather,
}
use riscv_isa_sim.Cache.Buffer.{
  leads, is_distinct, holds-append, holds-push_new, is_distinct-push_new, total, total-append,
  or-cases,
}

module _ (handlers : ℕ → List ℕ) where
  -- The handlers of the caches in a buffer are in it, or wait in the queue.
  abbrev pub IsClosed : List ℕ → List ℕ → Type 0
  IsClosed buf queue =
      (c x : ℕ)
      → holds buf c ≡ true
      → holds (handlers c) x ≡ true
      → (holds buf x || holds queue x) ≡ true

  handled : (c d x : ℕ) → c ≡ d → holds (handlers c) x ≡ holds (handlers d) x
  handled c d x e = ap (λ i. holds (handlers i) x) e

  IsClosed-push_new :
      (buf queue : List ℕ) (c : ℕ)
      → IsClosed buf (c ∷ queue)
      → IsClosed (push_new buf c) (queue ++ handlers c)
  unfolding holds
  IsClosed-push_new buf queue c closed d x in_buf handles = ground (
    arith,
    holds-push_new buf c d,
    holds-push_new buf c x,
    holds-append queue (handlers c) x,
    closed d x,
    handled c d x,
  )

  -- A property that the handlers of a cache have with it.
  abbrev pub Passes : (ℕ → Type 0) → Type 0
  Passes wanted = (c x : ℕ) → wanted c → holds (handlers c) x ≡ true → wanted x

  -- What is gained from where the search starts.
  pub record Reached (wanted : ℕ → Type 0) (starts : ℕ → Bool) (buf after : List ℕ) : Type 0 where
    pub distinct : is_distinct after ≡ true
    pub closed : IsClosed after []
    pub kept : (x : ℕ) → (holds buf x || starts x) ≡ true → holds after x ≡ true
    pub only :
        ((x : ℕ) → (holds buf x || starts x) ≡ true → wanted x)
        → (x : ℕ) → holds after x ≡ true
        → wanted x

  pub absorbed : (buf : List ℕ) (x : ℕ) → (holds buf x || holds [] x) ≡ true → holds buf x ≡ true
  unfolding holds
  absorbed buf x e = ground arith

  pub extended : (buf : List ℕ) (x : ℕ) → holds buf x ≡ true → (holds buf x || holds [] x) ≡ true
  unfolding holds
  extended buf x e = ground arith

  one_start : (c : ℕ) → holds (c ∷ []) ≡ (λ x. c == x)
  unfolding holds
  one_start c = fun_ext (λ x. ground arith)

  more_waits :
      (queue buf : List ℕ) (x : ℕ)
      → (holds buf x || holds [] x) ≡ true
      → (holds buf x || holds queue x) ≡ true
  unfolding holds
  more_waits queue buf x e = ground arith

  queue_step :
      (c : ℕ) (queue buf : List ℕ) (x : ℕ)
      → (holds buf x || holds (c ∷ queue) x) ≡ true
      → (holds (push_new buf c) x || holds (queue ++ handlers c) x) ≡ true
  unfolding holds
  queue_step c queue buf x e =
      ground (arith, holds-push_new buf c x, holds-append queue (handlers c) x)

  queue_from :
      (c : ℕ) (queue buf : List ℕ) (x : ℕ)
      → (holds (push_new buf c) x || holds (queue ++ handlers c) x) ≡ true
      → ((holds buf x || holds (c ∷ queue) x) ≡ true) ⊎ (holds (handlers c) x ≡ true)
  unfolding holds
  queue_from c queue buf x e = elim (Bool-cases (holds (handlers c) x)) [
    | inl e1 ↦ inr e1
    | inr e0 ↦ inl (ground (arith, holds-push_new buf c x, holds-append queue (handlers c) x, e0))
  ]

  first_waits : (c : ℕ) (queue buf : List ℕ) → (holds buf c || holds (c ∷ queue) c) ≡ true
  unfolding holds
  first_waits c queue buf = ground arith

  module _ (wanted : ℕ → Type 0) (passes : Passes wanted) (weight : ℕ → ℕ) where
    module _ (heavier : (c : ℕ) → total weight (handlers c) < weight c) where
      visit-Reached :
          (fuel : ℕ) (queue buf : List ℕ)
          → total weight queue ≤ fuel
          → is_distinct buf ≡ true
          → IsClosed buf queue
          → (after : List ℕ) × (visit handlers fuel queue buf ≡ some after)
            × Reached wanted (holds queue) buf after
      unfolding visit
      visit-Reached fuel [] buf enough d closed = (
        buf,
        refl,
        record {
          distinct = d;
          closed = closed;
          kept = λ x e. absorbed buf x e;
          only = λ start x e. start x (extended buf x e);
        },
      )
      visit-Reached zero (c ∷ queue) buf enough d closed = absurd (omega (arith, heavier c))
      visit-Reached (suc fuel) (c ∷ queue) buf enough d closed =
          let again =
            visit-Reached fuel (queue ++ handlers c) (push_new buf c)
              (omega (arith, heavier c, total-append weight queue (handlers c)))
              (is_distinct-push_new buf c d) (IsClosed-push_new buf queue c closed) in
          (
            again.0,
            again.1,
            record {
              distinct = again.2.distinct;
              closed = again.2.closed;
              kept = λ x e. again.2.kept x (queue_step c queue buf x e);
              only = λ start. again.2.only (λ x e. elim (queue_from c queue buf x e) [
                | inl old ↦ start x old
                | inr handled ↦ passes c x (start c (first_waits c queue buf)) handled
              ]);
            },
          )

      module _ (fuel : ℕ) (enough : (c : ℕ) → weight c ≤ fuel) where
        -- What a call does to a buffer of distinct caches that is closed.
        abbrev pub Adds : (ℕ → Bool) → (List ℕ → Option (List ℕ)) → Type 0
        Adds starts call =
            (buf : List ℕ)
            → is_distinct buf ≡ true
            → IsClosed buf []
            → (after : List ℕ) × (call buf ≡ some after) × Reached wanted starts buf after

        add_cache-Adds : (c : ℕ) → Adds (λ x. c == x) (add_cache handlers fuel (some c))
        unfolding add_cache
        add_cache-Adds c =
            subst (λ starts. Adds starts (visit handlers fuel (c ∷ []))) (one_start c) seen
          where
            seen : Adds (holds (c ∷ [])) (visit handlers fuel (c ∷ []))
            seen buf d closed =
                visit-Reached fuel (c ∷ []) buf (omega (arith, enough c)) d
                  (λ c' x in_buf handles. more_waits (c ∷ []) buf x (closed c' x in_buf handles))

        Adds-nothing : Adds (λ _. false) some
        Adds-nothing buf d closed = (
          buf,
          refl,
          record {
            distinct = d;
            closed = closed;
            kept = λ x e. ground arith;
            only = λ start x e. start x (ground arith);
          },
        )

        Adds-then :
            {first second : ℕ → Bool} {f g : List ℕ → Option (List ℕ)}
            → Adds first f
            → Adds second g
            → Adds (λ x. first x || second x) (λ buf. f buf >>= g)
        Adds-then {first = first} {second = second} {g = g} one two buf d closed =
            let mid = one buf d closed in
            let last = two mid.0 mid.2.distinct mid.2.closed in
            (
              last.0,
              ap (λ o. o >>= g) mid.1 ∙ last.1,
              record {
                distinct = last.2.distinct;
                closed = last.2.closed;
                kept = λ x e. last.2.kept x (ground (arith, mid.2.kept x));
                only = λ start. last.2.only (λ x e. elim (or-cases (holds mid.0 x) e) [
                  | inl held ↦ mid.2.only (λ y h. start y (ground arith)) x held
                  | inr later ↦ start x (ground arith)
                ]);
              },
            )

        add_caches-Adds : (found : List ℕ) → Adds (holds found) (add_caches handlers fuel found)
        unfolding add_caches holds
        add_caches-Adds [] = Adds-nothing
        add_caches-Adds (c ∷ rest) = Adds-then (add_cache-Adds c) (add_caches-Adds rest)

        IsClosed-empty : IsClosed [] []
        unfolding holds
        IsClosed-empty c x in_buf handles = ground arith

        Adds-found :
            {starts : ℕ → Bool} {found : List ℕ} {f : List ℕ → Option (List ℕ)}
            → Reached wanted starts [] found
            → Adds (holds found) f
            → Adds starts f
        unfolding holds
        Adds-found {found = found} sub adds buf d closed =
            let last = adds buf d closed in
            (
              last.0,
              last.1,
              record {
                distinct = last.2.distinct;
                closed = last.2.closed;
                kept = λ x e. last.2.kept x (ground (arith, sub.kept x));
                only = λ start. last.2.only (λ x e. elim (or-cases (holds buf x) e) [
                  | inl held ↦ start x (ground arith)
                  | inr later ↦ sub.only (λ y h. start y (ground arith)) x later
                ]);
              },
            )

        pub gather-Adds : (list : Hooks) → Adds (leads list) (gather handlers fuel list)
        unfolding gather leads is_distinct
        gather-Adds no_more buf d closed = Adds-nothing buf d closed
        gather-Adds (hook (a_tracer none) rest) buf d closed =
            Adds-then {first = λ _. false} Adds-nothing (gather-Adds rest) buf d closed
        gather-Adds (hook (a_tracer (some c)) rest) buf d closed =
            Adds-then (add_cache-Adds c) (gather-Adds rest) buf d closed
        gather-Adds (hook (a_list sub) rest) buf d closed =
            let found = gather-Adds sub [] refl IsClosed-empty in
            let both =
              Adds-then (Adds-found found.2 (add_caches-Adds found.0)) (gather-Adds rest) buf d
                closed in
            (
              both.0,
              ap
                    (λ o.
                      o >>= λ list. add_caches handlers fuel list buf >>= gather handlers fuel rest)
                    found.1
                  ∙ both.1,
              both.2,
            )
