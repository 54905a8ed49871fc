-- ===== src/WatchLoc.antt =====
-- riscv/watchloc.h and riscv/watchloc.cc: the addresses of the code that last stored to a watched
-- location, in a ring of 1024 entries.
pub mod Laws
use riscv_isa_sim.Base.{ℕ, ◌+◌, ◌-◌, ◌%◌, ◌^◌, ◌==◌, ltb, if◌then◌else◌, sub64}

pub record WatchLoc : Type 0 where
  pub addr : ℕ
  pub last_access : ℕ
  pub last_accesses : ℕ → ℕ

-- `memset(last_accesses, 0, 1024)` clears 1024 bytes, which are the first 128 entries.
unfoldable pub reset : WatchLoc → WatchLoc
reset w = record w {
  last_accesses = λ i. if ltb i 128 then 0 else w.last_accesses i;
  last_access = 0;
}

unfoldable pub update_addr : ℕ → WatchLoc → WatchLoc
unfolding reset
update_addr addr w = reset (record w { addr = addr })

-- `pc` is `state->pc`.
unfoldable pub access : ℕ → ℕ → WatchLoc → WatchLoc
access addr pc w =
    let next = (w.last_access + 1) % 1024 in
    if w.addr == addr
    then record w {
      last_access = next;
      last_accesses = λ i. if i == next then pc else w.last_accesses i;
    }
    else w

unfoldable pub get_nth_recent_access : ℕ → WatchLoc → ℕ
get_nth_recent_access n w =
    let n' = n % 1024 in
    let idx = sub64 w.last_access n' in
    w.last_accesses (if ltb n' idx then (1023 - n' + w.last_access + 1) % 1024 else idx)
