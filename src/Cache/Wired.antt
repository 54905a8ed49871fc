-- ===== src/Cache/Wired.antt =====
-- Caches wired by their miss handlers without a cycle: `access` of riscv/cachesim.cc returns, and the
-- line is then there.
use riscv_isa_sim.Base.{
  ℕ, zero, suc, ◌-◌, ◌/◌, ◌^◌, ◌≤◌, ◌<◌, ◌≡◌, refl, ap, ◌∙◌, sym, subst, Bool, true, false, ◌==◌,
  if◌then◌else◌, Bool-cases, Option-cases, inl, inr, bit_and, bit_and-lt, not64, Option, none, some,
  List, [], ◌∷◌, arith,
}
use riscv_isa_sim.Cache.Sim.{
  CacheSim, check_tag, set_dirty, victimize, dirty_addr, is_dirty, count_access, count_miss,
  count_writeback,
}
use riscv_isa_sim.Cache.Access.{
  Store, put, ◌>>=◌, for_handlers, scaled_bytes, scaled_addr, dirty_if, miss, access,
}
use riscv_isa_sim.Cache.Lines.{
  Config, config, config-victimize, config-set_dirty, config-count_access, config-count_miss, Found,
  Found-victimize, Found-set_dirty,
}

abbrev pub AllBelow : (ℕ → ℕ) → ℕ → List ℕ → Type 0
AllBelow rank r [] = Unit {0}
AllBelow rank r (mh ∷ rest) = (rank mh < r) × AllBelow rank r rest

-- There is a way, a line has 4 bytes at least, and the handlers have smaller ranks.
pub record IsValidConfig (rank : ℕ → ℕ) (r : ℕ) (g : Config) : Type 0 where
  pub has_ways : 0 < g.ways
  pub deep : 2 ≤ g.idx_shift
  pub below : AllBelow rank r g.miss_handlers

abbrev pub IsWired : (ℕ → ℕ) → Store → Type 0
IsWired rank s = (i : ℕ) → IsValidConfig rank (rank i) (config (s i))

-- The caches keep their configuration, and those of rank r and above are as they were.
pub record Accessed (rank : ℕ → ℕ) (r : ℕ) (s s' : Store) : Type 0 where
  pub configs : (i : ℕ) → config (s' i) ≡ config (s i)
  pub frame : (j : ℕ) → r ≤ rank j → s' j ≡ s j

abbrev pub Returns : (ℕ → ℕ) → ℕ → Option Store → Store → Type 0
Returns rank r o s = (s' : Store) × (o ≡ some s') × Accessed rank r s s'

module _ (rank : ℕ → ℕ) where
  IsWired-keep :
      (s s' : Store) → ((i : ℕ) → config (s' i) ≡ config (s i)) → IsWired rank s → IsWired rank s'
  IsWired-keep s s' same wired i =
      subst (λ g. IsValidConfig rank (rank i) g) (sym (same i)) (wired i)

  Accessed-trans :
      {r : ℕ} {s t u : Store} → Accessed rank r s t → Accessed rank r t u → Accessed rank r s u
  Accessed-trans p q = record {
    configs = λ i. q.configs i ∙ p.configs i;
    frame = λ j above. q.frame j above ∙ p.frame j above;
  }

  Accessed-weaken : {r r' : ℕ} {s t : Store} → r ≤ r' → Accessed rank r s t → Accessed rank r' s t
  Accessed-weaken le p = record { configs = p.configs; frame = λ j above. p.frame j (omega arith) }

  -- An update of one cache.
  Accessed-put :
      (s : Store) (id : ℕ) (c : CacheSim)
      → config c ≡ config (s id)
      → Accessed rank (suc (rank id)) s (put s id c)
  Accessed-put s id c same = record { configs = λ i. at i; frame = λ j above. away j above }
    where
      at : (i : ℕ) → config (put s id c i) ≡ config (s i)
      at i = elim (Bool-cases (i == id)) [ inl here ↦ ground (arith) | inr other ↦ rw other ]

      away : (j : ℕ) → suc (rank id) ≤ rank j → put s id c j ≡ s j
      away j above = elim (Bool-cases (j == id)) [
        | inl here ↦ absurd (omega (arith, ap rank (toℕ j id here)))
        | inr other ↦ rw other
      ]
        where
          toℕ : (a b : ℕ) → (a == b) ≡ true → a ≡ b
          toℕ a b h = ground arith

  module _ (r : ℕ) (call : ℕ → Store → Option Store)
      (returns : (mh : ℕ) (s : Store)
        → IsWired rank s
        → rank mh < r
        → Returns rank r (call mh s) s) where
    for_handlers-Returns :
        (hs : List ℕ) (s : Store)
        → AllBelow rank r hs
        → IsWired rank s
        → Returns rank r (for_handlers call hs s) s
    unfolding for_handlers
    for_handlers-Returns [] s below wired =
        (s, refl, record { configs = λ i. refl; frame = λ j above. refl })
    for_handlers-Returns (mh ∷ rest) s below wired =
        let (s1, e1, a1) = returns mh s wired below.0 in
        let (s2, e2, a2) =
          for_handlers-Returns rest s1 below.1 (IsWired-keep s s1 a1.configs wired) in
        (s2, rw e1 e2, Accessed-trans a1 a2)

  put_self : (s : Store) (id : ℕ) (c : CacheSim) → put s id c id ≡ c
  put_self s id c = ground arith

  Found-count_writeback : (c : CacheSim) (addr : ℕ) → Found c addr → Found (count_writeback c) addr
  unfolding count_writeback check_tag
  Found-count_writeback c addr found = found

  -- It returns, changes no configuration and no cache of a greater rank, and the line is there.
  abbrev pub Brings : ℕ → ℕ → Option Store → Store → Type 0
  Brings id addr o s =
      (s' : Store) × (o ≡ some s') × Accessed rank (suc (rank id)) s s' × Found (s' id) addr

  dirty_if-Brings :
      (store : Bool) (id addr : ℕ) (s : Store)
      → Found (s id) addr
      → Brings id addr (dirty_if store id addr s) s
  unfolding dirty_if
  dirty_if-Brings false id addr s found =
      (s, refl, record { configs = λ i. refl; frame = λ j above. refl }, found)
  dirty_if-Brings true id addr s (way, e) = (
    put s id (set_dirty (s id) way),
    rw e refl,
    Accessed-put s id (set_dirty (s id) way) (config-set_dirty (s id) way),
    subst (λ c. Found c addr) (sym (put_self s id (set_dirty (s id) way)))
        (Found-set_dirty (s id) way addr (way, e)),
  )

  module _ (id : ℕ) (call : ℕ → ℕ → ℕ → Bool → Store → Option Store)
      (returns : (mh addr bytes : ℕ) (store : Bool) (s : Store)
        → addr < 2 ^ 64
        → IsWired rank s
        → rank mh < rank id
        → Returns rank (rank id) (call mh addr bytes store s) s) where
    -- The calls of the handlers leave the line where it is.
    handlers_bring :
        (addr to bytes : ℕ) (store : Bool) (hs : List ℕ) (s : Store)
        → to < 2 ^ 64
        → AllBelow rank (rank id) hs
        → IsWired rank s
        → Found (s id) addr
        → Brings id addr (for_handlers (λ mh. call mh to bytes store) hs s) s
    handlers_bring addr to bytes store hs s small below wired found =
        let (s', e, a) =
          for_handlers-Returns (rank id) (λ mh. call mh to bytes store)
            (λ mh t. returns mh to bytes store t small) hs s below wired in
        (
          s',
          e,
          Accessed-weaken (omega arith) a,
          subst (λ c. Found c addr) (sym (a.frame id (omega arith))) found,
        )

    writeback-Brings :
        (dirty : Bool) (addr to bytes : ℕ) (hs : List ℕ) (s : Store)
        → to < 2 ^ 64
        → AllBelow rank (rank id) hs
        → IsWired rank s
        → Found (s id) addr
        → Brings id addr
            (if dirty
              then (do
                s' ← for_handlers (λ mh. call mh to bytes true) hs s
                some (put s' id (count_writeback (s' id))))
              else some s)
            s
    unfolding count_writeback
    writeback-Brings false addr to bytes hs s small below wired found =
        (s, refl, record { configs = λ i. refl; frame = λ j above. refl }, found)
    writeback-Brings true addr to bytes hs s small below wired found =
        let (s', e, a, f) = handlers_bring addr to bytes true hs s small below wired found in
        (
          put s' id (count_writeback (s' id)),
          rw e refl,
          Accessed-trans a (Accessed-put s' id (count_writeback (s' id)) refl),
          subst (λ c. Found c addr) (sym (put_self s' id (count_writeback (s' id))))
              (Found-count_writeback (s' id) addr f),
        )

    pub miss-Brings :
        (addr : ℕ) (store : Bool) (s : Store)
        → addr < 2 ^ 64
        → IsWired rank s
        → Brings id addr (miss call id addr store s) s
    unfolding miss dirty_addr
    miss-Brings addr store s small wired =
        let c = (victimize (s id) addr).0 in
        let victim = (victimize (s id) addr).1 in
        let same = config-victimize (s id) addr in
        let s0 = put s id c in
        let a0 = Accessed-put s id c same in
        let w0 = IsWired-keep s s0 a0.configs wired in
        let hs = subst (λ g. AllBelow rank (rank id) g.miss_handlers) (sym same) (wired id).below in
        let f0 =
          subst (λ k. Found k addr) (sym (put_self s id c))
            (Found-victimize (s id) addr small (wired id).deep (wired id).has_ways) in
        let (s1, e1, a1, f1) =
          writeback-Brings (is_dirty victim) addr (dirty_addr c victim) c.linesz c.miss_handlers s0
            (omega arith) hs w0 f0 in
        let w1 = IsWired-keep s0 s1 a1.configs w0 in
        let (s2, e2, a2, f2) =
          handlers_bring addr (bit_and addr (not64 (c.linesz - 1))) c.linesz false c.miss_handlers
            s1 (bit_and-lt 64 _ _ (omega arith)) hs w1 f1 in
        let (s3, e3, a3, f3) = dirty_if-Brings store id addr s2 f2 in
        (s3, rw e1 (rw e2 e3), Accessed-trans (Accessed-trans a0 a1) (Accessed-trans a2 a3), f3)

  config-hit :
      (store : Bool) (c : CacheSim) (way : ℕ)
      → config (if store then set_dirty c way else c) ≡ config c
  config-hit true c way = config-set_dirty c way
  config-hit false c way = refl

  Found-hit :
      (store : Bool) (c : CacheSim) (way addr : ℕ)
      → check_tag c addr ≡ some way
      → Found (if store then set_dirty c way else c) addr
  Found-hit true c way addr e = Found-set_dirty c way addr (way, e)
  Found-hit false c way addr e = (way, e)

  scaled_addr-lt : (c : CacheSim) (addr : ℕ) → addr < 2 ^ 64 → scaled_addr c addr < 2 ^ 64
  unfolding scaled_addr
  scaled_addr-lt c addr small = ground arith

  hit-Brings :
      (id addr bytes : ℕ) (store : Bool) (s : Store) (way : ℕ)
      → check_tag (count_access (s id) bytes store) addr ≡ some way
      → let c = count_access (s id) bytes store in
        Brings id addr (some (put s id (if store then set_dirty c way else c))) s
  hit-Brings id addr bytes store s way e =
      let c = count_access (s id) bytes store in
      (
        put s id (if store then set_dirty c way else c),
        refl,
        Accessed-put s id (if store then set_dirty c way else c)
            (config-hit store c way ∙ config-count_access (s id) bytes store),
        subst (λ k. Found k addr) (sym (put_self s id (if store then set_dirty c way else c)))
            (Found-hit store c way addr e),
      )

  module _ (fuel id addr bytes : ℕ) (store : Bool) (s : Store) where
    abbrev pub counted : CacheSim
    counted = count_access (s id) (scaled_bytes (s id) bytes) store

    pub access-hit :
        (way : ℕ)
        → check_tag counted (scaled_addr (s id) addr) ≡ some way
        → access (suc fuel) id addr bytes store s
          ≡ some (put s id (if store then set_dirty counted way else counted))
    unfolding access
    access-hit way e = rw (e, access)

    access-miss :
        check_tag counted (scaled_addr (s id) addr) ≡ none
        → access (suc fuel) id addr bytes store s
          ≡ miss
              (access fuel)
              id
              (scaled_addr (s id) addr)
              store
              (put s id (count_miss counted store))
    unfolding access
    access-miss e = rw (e, access)

  pub access_returns :
      (fuel id addr bytes : ℕ) (store : Bool) (s : Store)
      → addr < 2 ^ 64
      → IsWired rank s
      → rank id < fuel
      → (s' : Store) × (access fuel id addr bytes store s ≡ some s')
        × Accessed rank (suc (rank id)) s s'
        × Found (s' id) (scaled_addr (s id) addr)
  access_returns zero id addr bytes store s small wired enough = absurd (omega arith)
  access_returns (suc fuel) id addr bytes store s small wired enough =
      let a = scaled_addr (s id) addr in
      let c = count_access (s id) (scaled_bytes (s id) bytes) store in
      elim (Option-cases (check_tag c a)) [
        | inr (way, hit) ↦
            let (s', e, kept, there) =
              hit-Brings id a (scaled_bytes (s id) bytes) store s way hit in
            (s', access-hit fuel id addr bytes store s way hit ∙ e, kept, there)
        | inl missing ↦
            let s0 = put s id (count_miss c store) in
            let a0 = Accessed-put s id (count_miss c store) (
              config-count_miss c store
              ∙ config-count_access (s id) (scaled_bytes (s id) bytes) store) in
            let (s', e, a1, found) =
              miss-Brings id (access fuel)
                (λ mh to n st t below w lower.
                  let (t', e, a, _) = access_returns fuel mh to n st t below w (omega arith) in
                  (t', e, Accessed-weaken (omega arith) a))
                a store s0 (scaled_addr-lt (s id) addr small)
                (IsWired-keep s s0 a0.configs wired) in
            (s', access-miss fuel id addr bytes store s missing ∙ e, Accessed-trans a0 a1, found)
      ]

  pub scaled_addr-config :
      (c d : CacheSim) (addr : ℕ) → config c ≡ config d → scaled_addr c addr ≡ scaled_addr d addr
  unfolding scaled_addr
  scaled_addr-config c d addr same = ap (λ (g : Config). if g.tag_mode then addr / 8 else addr) same

  -- Where the caches are wired without a cycle, and the fuel is more than the rank of the cache,
  -- `access` returns: no call of the handlers comes back, and no NULL is written through. It changes
  -- the configuration of no cache i, and nothing in a cache j of a greater rank; the line of the
  -- address, in the units of the cache, is then in the cache. Each cache has a way, lines of 4 bytes
  -- or more, and handlers of smaller ranks.
  pub access_total :
      (fuel id addr bytes : ℕ) (store : Bool) (s : Store) (i j : ℕ)
      → addr < 2 ^ 64
      → IsWired rank s
      → rank id < fuel
      → rank id < rank j
      → (s' : Store) × (access fuel id addr bytes store s ≡ some s')
        × (config (s' i) ≡ config (s i))
        × (s' j ≡ s j)
        × Found (s' id) (scaled_addr (s id) addr)
  access_total fuel id addr bytes store s i j small wired enough above =
      let (s', e, a, found) = access_returns fuel id addr bytes store s small wired enough in
      (s', e, a.configs i, a.frame j (omega arith), found)
