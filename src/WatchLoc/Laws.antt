-- ===== src/WatchLoc/Laws.antt =====
-- The ring against the list of accesses, the last first.
use riscv_isa_sim.Base.{
  Bool-cases, subst, sym, inl, inr, ℕ, zero, suc, ◌+◌, ◌-◌, ◌%◌, ◌<◌, ◌≤◌, ◌≡◌, ◌≢◌, ◌∙◌, refl,
  arith, List, [], ◌∷◌, length, get_or, ◌==◌, if◌then◌else◌, ap,
}
use riscv_isa_sim.WatchLoc.{WatchLoc, reset, update_addr, access, get_nth_recent_access}

-- The stores, each with its address and the address of the code, the last first.
abbrev pub run : List (ℕ × ℕ) → WatchLoc → WatchLoc
run [] w = w
run ((a, pc) ∷ stores) w = access a pc (run stores w)

-- The code addresses of the stores to the watched location.
abbrev pub hits : ℕ → List (ℕ × ℕ) → List ℕ
hits addr [] = []
hits addr ((a, pc) ∷ stores) = if addr == a then pc ∷ hits addr stores else hits addr stores

-- The entry of the n-th access before the last.
slot : ℕ → ℕ → ℕ
slot last n = (last + 1024 - n) % 1024

get_nth-slot :
    (n : ℕ) (w : WatchLoc)
    → n < 1024
    → w.last_access < 1024
    → get_nth_recent_access n w ≡ w.last_accesses (slot w.last_access n)
unfolding get_nth_recent_access slot
get_nth-slot n w h k = ap w.last_accesses (ground arith)

run-addr : (stores : List (ℕ × ℕ)) (w : WatchLoc) → (run stores w).addr ≡ w.addr
unfolding access
run-addr [] w = refl
run-addr ((a, pc) ∷ stores) w = ground (arith, run-addr stores w)

slot-next : (l n : ℕ) → n < 1023 → l < 1024 → slot ((l + 1) % 1024) (suc n) ≡ slot l n
unfolding slot
slot-next l n h k = omega arith

slot-ne : (l n : ℕ) → n < 1023 → l < 1024 → slot l n ≢ (l + 1) % 1024
unfolding slot
slot-ne l n h k = omega arith

slot-zero : (l : ℕ) → l < 1024 → slot l 0 ≡ l
unfolding slot
slot-zero l k = omega arith

access-last : (a pc : ℕ) (w : WatchLoc) → w.last_access < 1024 → (access a pc w).last_access < 1024
unfolding access
access-last a pc w k = ground arith

run-last :
    (stores : List (ℕ × ℕ)) (w : WatchLoc)
    → w.last_access < 1024
    → (run stores w).last_access < 1024
run-last [] w k = k
run-last ((a, pc) ∷ stores) w k = access-last a pc (run stores w) (run-last stores w k)

-- A store to the watched location moves the entries on by one.
access_self :
    (a pc : ℕ) (w : WatchLoc)
    → w.addr ≡ a
    → w.last_access < 1024
    → ((access a pc w).last_accesses (slot (access a pc w).last_access 0) ≡ pc)
      × ((n : ℕ)
          → n < 1023
          → (access a pc w).last_accesses (slot (access a pc w).last_access (suc n))
            ≡ w.last_accesses (slot w.last_access n))
unfolding access
access_self a pc w e k = (
  ground (arith, slot-zero ((w.last_access + 1) % 1024)),
  λ n h. ground (arith, slot-next w.last_access n h k, slot-ne w.last_access n h k),
)

access_other : (a pc : ℕ) (w : WatchLoc) → w.addr ≢ a → access a pc w ≡ w
unfolding access
access_other a pc w e = ground arith

hits_self :
    (addr a pc : ℕ) (stores : List (ℕ × ℕ))
    → addr ≡ a
    → hits addr ((a, pc) ∷ stores) ≡ pc ∷ hits addr stores
hits_self addr a pc stores e = ground arith

hits_other :
    (addr a pc : ℕ) (stores : List (ℕ × ℕ))
    → addr ≢ a
    → hits addr ((a, pc) ∷ stores) ≡ hits addr stores
hits_other addr a pc stores e = ground arith

-- The ring `w` holds these code addresses, the last first.
Holds : WatchLoc → List ℕ → Type 0
Holds w pcs =
    (n : ℕ) → n < 1024 → n < length pcs → w.last_accesses (slot w.last_access n) ≡ get_or pcs n 0

access-Holds :
    (a pc : ℕ) (w : WatchLoc) (pcs : List ℕ)
    → w.addr ≡ a
    → w.last_access < 1024
    → Holds w pcs
    → Holds (access a pc w) (pc ∷ pcs)
unfolding Holds
access-Holds a pc w pcs e k h zero lt le = (access_self a pc w e k).0
access-Holds a pc w pcs e k h (suc n) lt le =
    (access_self a pc w e k).1 n (omega arith) ∙ h n (omega arith) (omega arith)

run-Holds :
    (stores : List (ℕ × ℕ)) (w : WatchLoc)
    → w.last_access < 1024
    → Holds (run stores w) (hits w.addr stores)
unfolding Holds
run-Holds [] w k = λ n h lt. absurd (omega arith)
run-Holds ((a, pc) ∷ stores) w k = elim (Bool-cases (w.addr == a)) [
  | inl e ↦
      subst (Holds (access a pc (run stores w)))
        (sym (hits_self w.addr a pc stores (ground (arith, e))))
        (access-Holds a pc (run stores w) (hits w.addr stores)
          (run-addr stores w ∙ ground (arith, e)) (run-last stores w k) (run-Holds stores w k))
  | inr e ↦
      subst (Holds (access a pc (run stores w)))
        (sym (hits_other w.addr a pc stores (ground (arith, e))))
        (subst (λ (v : WatchLoc). Holds v (hits w.addr stores))
          (sym (access_other a pc (run stores w) (ground (arith, e, run-addr stores w))))
          (run-Holds stores w k))
]

-- After any stores, from any state of the ring, `get_nth_recent_access n` for n below 1024 and
-- below the number of stores to the watched location returns the program counter of the n-th of
-- those, the last first.
pub get_nth_recent_access-run :
    (stores : List (ℕ × ℕ)) (w : WatchLoc) (n : ℕ)
    → w.last_access < 1024
    → n < 1024
    → n < length (hits w.addr stores)
    → get_nth_recent_access n (run stores w) ≡ get_or (hits w.addr stores) n 0
unfolding Holds
get_nth_recent_access-run stores w n k h lt =
    get_nth-slot n (run stores w) h (run-last stores w k) ∙ run-Holds stores w k n h lt

-- `update_addr` keeps the entries from the 128-th on: for n from 1 to 896, `get_nth_recent_access`
-- returns what the ring held before, for the address that was watched before.
pub update_addr_keeps_stale :
    (w : WatchLoc) (addr n : ℕ)
    → 1 ≤ n
    → n ≤ 896
    → get_nth_recent_access n (update_addr addr w) ≡ w.last_accesses (1024 - n)
unfolding update_addr reset get_nth_recent_access
update_addr_keeps_stale w addr n h k = ground arith
