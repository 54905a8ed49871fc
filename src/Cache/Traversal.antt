-- ===== src/Cache/Traversal.antt =====
-- `memtracer_list_t::add_cache` and `get_all_caches` of riscv/memtracer.cc: the caches that a list of
-- tracers leads to. The miss handlers of a cache are a parameter; a cache is its place in the store.
use riscv_isa_sim.Base.{
  ℕ, zero, suc, Bool, false, ◌==◌, ◌||◌, if◌then◌else◌, Option, none, some, List, [], ◌∷◌, ◌++◌,
}
use riscv_isa_sim.Cache.Access.{◌>>=◌}

-- What `list` holds: a tracer with its cache, which may be NULL, or a list of its own.
mutual
  pub data Hooked : Type 0 where
    a_tracer : Option ℕ → Hooked
    a_list : Hooks → Hooked

  pub data Hooks : Type 0 where
    no_more : Hooks
    hook : Hooked → Hooks → Hooks

-- `find(begin, end, cache) != end`.
unfoldable pub holds : List ℕ → ℕ → Bool
holds [] cache = false
holds (x ∷ rest) cache = x == cache || holds rest cache

-- `if(it == cache_buf.end()) cache_buf.push_back(cache);`.
unfoldable pub push_new : List ℕ → ℕ → List ℕ
unfolding holds
push_new buf cache = if holds buf cache then buf else buf ++ (cache ∷ [])

module _ (handlers : ℕ → List ℕ) where
  -- `while(!cache_queue.empty())`, a round for each unit of fuel.
  unfoldable pub visit : (fuel : ℕ) (cache_queue : List ℕ) (cache_buf : List ℕ) → Option (List ℕ)
  unfolding push_new
  visit fuel [] buf = some buf
  visit zero (cache ∷ queue) buf = none
  visit (suc fuel) (cache ∷ queue) buf = visit fuel (queue ++ handlers cache) (push_new buf cache)

  -- A NULL is taken from the queue and leaves it empty.
  unfoldable pub add_cache : (fuel : ℕ) → Option ℕ → List ℕ → Option (List ℕ)
  unfolding visit
  add_cache fuel none buf = some buf
  add_cache fuel (some cache) buf = visit fuel (cache ∷ []) buf

  unfoldable pub add_caches : (fuel : ℕ) → List ℕ → List ℕ → Option (List ℕ)
  unfolding add_cache
  add_caches fuel [] buf = some buf
  add_caches fuel (cache ∷ rest) buf = do
    more ← add_cache fuel (some cache) buf
    add_caches fuel rest more

  -- The loop over a list, and `get_all_caches`, which clears the buffer before it.
  unfoldable pub gather : (fuel : ℕ) → Hooks → List ℕ → Option (List ℕ)
  unfolding add_cache add_caches
  gather fuel no_more buf = some buf
  gather fuel (hook (a_tracer cache) rest) buf = do
    more ← add_cache fuel cache buf
    gather fuel rest more
  gather fuel (hook (a_list sub) rest) buf = do
    found ← gather fuel sub []
    more ← add_caches fuel found buf
    gather fuel rest more

  unfoldable pub get_all_caches : (fuel : ℕ) → Hooks → Option (List ℕ)
  unfolding gather
  get_all_caches fuel list = gather fuel list []
