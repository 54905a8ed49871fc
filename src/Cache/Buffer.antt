-- ===== src/Cache/Buffer.antt =====
-- The buffer of caches that riscv/memtracer.cc fills, and the queue it searches from: what is in them.
use riscv_isa_sim.Base.{
  ℕ, ◌+◌, ◌≡◌, refl, ap, Bool, true, false, ◌==◌, ◌||◌, ◌&&◌, not, ◌⊎◌, inl, inr, none, some, List,
  [], ◌∷◌, ◌++◌, arith,
}
use riscv_isa_sim.Cache.Traversal.{Hooks, a_tracer, a_list, no_more, hook, holds, push_new}

-- The caches of the tracers of a list and of the lists in it.
unfoldable pub leads : Hooks → ℕ → Bool
leads no_more x = false
leads (hook (a_tracer none) rest) x = leads rest x
leads (hook (a_tracer (some c)) rest) x = c == x || leads rest x
leads (hook (a_list sub) rest) x = leads sub x || leads rest x

-- No cache is there twice.
unfoldable pub is_distinct : List ℕ → Bool
unfolding holds
is_distinct [] = true
is_distinct (x ∷ rest) = not (holds rest x) && is_distinct rest

pub holds-append : (xs ys : List ℕ) (x : ℕ) → holds (xs ++ ys) x ≡ (holds xs x || holds ys x)
unfolding holds
holds-append [] ys x = refl
holds-append (y ∷ xs) ys x = ground (arith, holds-append xs ys x)

pub holds-push_new : (buf : List ℕ) (c x : ℕ) → holds (push_new buf c) x ≡ (holds buf x || c == x)
unfolding push_new holds
holds-push_new buf c x = ground (arith, holds-append buf (c ∷ []) x, ap (holds buf))

pub is_distinct-append :
    (buf : List ℕ) (c : ℕ)
    → is_distinct buf ≡ true
    → holds buf c ≡ false
    → is_distinct (buf ++ (c ∷ [])) ≡ true
unfolding is_distinct holds
is_distinct-append [] c d new = refl
is_distinct-append (x ∷ buf) c d new =
    ground (arith, is_distinct-append buf c, holds-append buf (c ∷ []) x)

pub is_distinct-push_new :
    (buf : List ℕ) (c : ℕ) → is_distinct buf ≡ true → is_distinct (push_new buf c) ≡ true
unfolding push_new
is_distinct-push_new buf c d = ground (arith, is_distinct-append buf c d)

-- The weights of a queue together.
abbrev pub total : (ℕ → ℕ) → List ℕ → ℕ
total weight [] = 0
total weight (c ∷ rest) = weight c + total weight rest

pub total-append :
    (weight : ℕ → ℕ) (xs ys : List ℕ) → total weight (xs ++ ys) ≡ total weight xs + total weight ys
total-append weight [] ys = omega arith
total-append weight (x ∷ xs) ys = omega (arith, total-append weight xs ys)

pub or-cases : (a : Bool) {b : Bool} → (a || b) ≡ true → (a ≡ true) ⊎ (b ≡ true)
or-cases true e = inl refl
or-cases false e = inr e
