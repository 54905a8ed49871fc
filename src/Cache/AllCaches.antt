-- ===== src/Cache/AllCaches.antt =====
-- `get_all_caches` of riscv/memtracer.cc finds the caches that the tracers lead to.
use riscv_isa_sim.Base.{ℕ, ◌≤◌, ◌<◌, ◌≡◌, refl, ◌↔◌, true, ◌||◌, some, List, [], arith}
use riscv_isa_sim.Cache.Traversal.{Hooks, holds, get_all_caches}
use riscv_isa_sim.Cache.Buffer.{leads, is_distinct, total}
use riscv_isa_sim.Cache.Reached.{gather-Adds, Reached, absorbed}

-- The caches of the tracers, and with a cache the handlers of its misses.
pub data Reachable (handlers : ℕ → List ℕ) (list : Hooks) : ℕ → Type 0 where
  hooked : (c : ℕ) → leads list c ≡ true → Reachable handlers list c
  misses_to :
      (c x : ℕ)
      → Reachable handlers list c
      → holds (handlers c) x ≡ true
      → Reachable handlers list x

module _ (handlers : ℕ → List ℕ) (list : Hooks) where
  Reachable-held :
      {found : List ℕ}
      → Reached handlers (Reachable handlers list) (leads list) [] found
      → (c : ℕ) → Reachable handlers list c
      → holds found c ≡ true
  unfolding holds
  Reachable-held run _ (hooked c e) = run.kept c (ground (arith, e))
  Reachable-held {found = found} run _ (misses_to c x from handles) =
      absorbed handlers found x (run.closed c x (Reachable-held run c from) handles)

  start-Reachable : (c : ℕ) → (holds [] c || leads list c) ≡ true → Reachable handlers list c
  unfolding holds
  start-Reachable c e = hooked c e

-- Where a cache weighs more than all its miss handlers together, and no cache weighs more than the
-- fuel, `get_all_caches` returns. The caches it returns are all different, and they are those that the
-- tracers of the list and of the lists in it lead to, directly or through miss handlers.
pub get_all_caches_reach :
    (handlers : ℕ → List ℕ) (weight : ℕ → ℕ)
    (heavier : (c : ℕ) → total weight (handlers c) < weight c) (fuel : ℕ)
    (enough : (c : ℕ) → weight c ≤ fuel) (list : Hooks)
    → (found : List ℕ) × (get_all_caches handlers fuel list ≡ some found)
      × (is_distinct found ≡ true)
      × ((c : ℕ) → (holds found c ≡ true) ↔ Reachable handlers list c)
unfolding get_all_caches is_distinct
get_all_caches_reach handlers weight heavier fuel enough list =
    let run =
      gather-Adds handlers (Reachable handlers list) misses_to weight heavier fuel enough list []
        refl (λ c x in_buf handles. in_buf) in
    (
      run.0,
      run.1,
      run.2.distinct,
      λ c. (run.2.only (start-Reachable handlers list) c, Reachable-held handlers list run.2 c),
    )
