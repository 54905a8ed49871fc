-- ===== src/Cache/Again.antt =====
-- A second access of riscv/cachesim.cc to the same address.
use riscv_isa_sim.Base.{
  ℕ, zero, suc, ◌^◌, ◌<◌, ◌≡◌, refl, ◌∙◌, ap, Bool, true, false, ◌==◌, if◌then◌else◌, some, arith,
}
use riscv_isa_sim.Cache.Sim.{CacheSim, check_tag, set_dirty, count_access}
use riscv_isa_sim.Cache.Access.{Store, put, scaled_bytes, scaled_addr, access}
use riscv_isa_sim.Cache.Wired.{IsWired, access_returns, access-hit, scaled_addr-config}

same_misses :
    (c : CacheSim) (bytes way : ℕ) (store : Bool)
    → let c' = count_access c bytes store in
      let c'' = (if store then set_dirty c' way else c') in
      (c''.read_misses ≡ c.read_misses) × (c''.write_misses ≡ c.write_misses)
unfolding count_access set_dirty
same_misses c bytes way true = ground arith
same_misses c bytes way false = ground arith

check_tag-count_access :
    (c : CacheSim) (bytes : ℕ) (store : Bool) (addr : ℕ)
    → check_tag (count_access c bytes store) addr ≡ check_tag c addr
unfolding check_tag count_access
check_tag-count_access c bytes true addr = refl
check_tag-count_access c bytes false addr = refl

put_self : (s : Store) (id : ℕ) (c : CacheSim) → put s id c id ≡ c
put_self s id c = ground arith

-- Once an access to an address has returned, the next access to it, of any size and kind, returns
-- too and is a hit: the misses counted by the cache stay, and no other cache j changes. The caches are
-- wired without a cycle, and the fuel is more than the rank of the cache.
pub access_again :
    (rank : ℕ → ℕ) (fuel id addr bytes bytes' : ℕ) (store store' : Bool) (s : Store) (j : ℕ)
    → addr < 2 ^ 64
    → IsWired rank s
    → rank id < fuel
    → (j == id) ≡ false
    → (s1 : Store) × (s2 : Store) × (access fuel id addr bytes store s ≡ some s1)
      × (access fuel id addr bytes' store' s1 ≡ some s2)
      × ((s2 id).read_misses ≡ (s1 id).read_misses)
      × ((s2 id).write_misses ≡ (s1 id).write_misses)
      × (s2 j ≡ s1 j)
access_again rank zero id addr bytes bytes' store store' s j small wired enough other =
    absurd (omega arith)
access_again rank (suc fuel) id addr bytes bytes' store store' s j small wired enough other =
    let (s1, e1, a1, (way, found)) =
      access_returns rank (suc fuel) id addr bytes store s small wired enough in
    let c = count_access (s1 id) (scaled_bytes (s1 id) bytes') store' in
    let there =
      check_tag-count_access (s1 id) (scaled_bytes (s1 id) bytes') store' (scaled_addr (s1 id) addr)
      ∙ ap (check_tag (s1 id)) (scaled_addr-config rank (s1 id) (s id) addr (a1.configs id))
      ∙ found in
    let last = (if store' then set_dirty c way else c) in
    let misses = same_misses (s1 id) (scaled_bytes (s1 id) bytes') way store' in
    let at_id = put_self s1 id last in
    (
      s1,
      put s1 id last,
      e1,
      access-hit rank fuel id addr bytes' store' s1 way there,
      ap (λ (d : CacheSim). d.read_misses) at_id ∙ misses.0,
      ap (λ (d : CacheSim). d.write_misses) at_id ∙ misses.1,
      rw other,
    )
