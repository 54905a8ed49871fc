-- ===== src/Tests/Stats.antt =====
-- Runs of the statistics of tags and of the search for caches at concrete inputs.
use riscv_isa_sim.Base.{
  ℕ, ◌≤◌, ◌<◌, ◌≡◌, refl, ◌↔◌, Bool, true, false, ◌==◌, ◌||◌, if◌then◌else◌, u64, none, some, List,
  [], ◌∷◌, arith,
}
use riscv_isa_sim.TagStats.{Traced, TagStats, reset, trace_all}
use riscv_isa_sim.TagStats.Laws.{stores_of, trace_all-reset}
use riscv_isa_sim.Cache.Traversal.{Hooks, a_tracer, a_list, no_more, hook, holds, get_all_caches}
use riscv_isa_sim.Cache.Buffer.{is_distinct, total}
use riscv_isa_sim.Cache.AllCaches.{Reachable, get_all_caches_reach}

abbrev store_of : ℕ → Traced
store_of tag = record { addr = 0x40; store = true; is_tag = true; val = tag }

abbrev two_stores : List Traced
two_stores = store_of 1 ∷ (store_of 2 ∷ [])

abbrev stats : TagStats
stats = record { base = 0; count = λ _. 7; last_tag = λ _. 1 }

trace_all-reset_example :
    u64 ((trace_all two_stores (reset stats)).count 1) ≡ u64 (stores_of 1 two_stores)
trace_all-reset_example = trace_all-reset two_stores stats 1

one_word_two_tags : ((trace_all two_stores (reset stats)).count 1 ≡ 1)
unfolding trace_all reset
one_word_two_tags = refl

-- Two caches with one miss handler, the second in a list of its own.
abbrev wires : ℕ → List ℕ
wires c = if c == 0 || c == 1 then 2 ∷ [] else []

abbrev weights : ℕ → ℕ
weights c = if c == 0 || c == 1 then 2 else 1

abbrev tracers : Hooks
tracers =
    hook (a_tracer (some 0))
      (hook (a_tracer none) (hook (a_list (hook (a_tracer (some 1)) no_more)) no_more))

caches_run : get_all_caches wires 2 tracers ≡ some (0 ∷ (2 ∷ (1 ∷ [])))
unfolding get_all_caches
caches_run = refl

lighter_if : (b : Bool) → total weights (if b then 2 ∷ [] else []) < (if b then 2 else 1)
lighter_if true = omega arith
lighter_if false = omega arith

lighter : (c : ℕ) → total weights (wires c) < weights c
lighter c = lighter_if (c == 0 || c == 1)

within : (c : ℕ) → weights c ≤ 2
within c = ground arith

get_all_caches_reach_example :
    (found : List ℕ) × (get_all_caches wires 2 tracers ≡ some found)
    × (is_distinct found ≡ true)
    × ((c : ℕ) → (holds found c ≡ true) ↔ Reachable wires tracers c)
get_all_caches_reach_example = get_all_caches_reach wires weights lighter 2 within tracers
