-- ===== src/Hart/Keeps.antt =====
-- What stays true of the machine over a call that may throw.
use riscv_isa_sim.Base.{Bool, true, false, if◌then◌else◌}
use riscv_isa_sim.Hart.Machine.{Machine, Trap, M, Outcome, done, trapped, serialize_thrown, ◌>>=◌}

-- It is true of the machine that is left, whichever way.
pub data After (P : Machine → Type 0) {A : Type 0} : Outcome A → Type 0 where
  returned : (a : A) (m : Machine) → P m → After P (done a m)
  threw : (t : Trap) (m : Machine) → P m → After P (trapped t m)
  threw_serialize : (m : Machine) → P m → After P (serialize_thrown m)

abbrev pub Keeps : (Machine → Type 0) → {A : Type 0} → M A → Type 0
Keeps P f = (m : Machine) → P m → After P (f m)

module _ {P : Machine → Type 0} {A : Type 0} where
  After-bind_go :
      {B : Type 0} (rest : A → M B) (o : Outcome A)
      → After P o
      → ((a : A) → Keeps P (rest a))
      → After P {A = B} (elim o [
        | done result after ↦ rest result after
        | trapped thrown after ↦ trapped thrown after
        | serialize_thrown after ↦ serialize_thrown after
      ])
  After-bind_go rest _ (returned a m p) then_on = then_on a m p
  After-bind_go rest _ (threw t m p) then_on = threw t m p
  After-bind_go rest _ (threw_serialize m p) then_on = threw_serialize m p

  pub After-bind :
      {B : Type 0} (call : M A) (rest : A → M B) (m : Machine)
      → After P (call m)
      → ((a : A) → Keeps P (rest a))
      → After P ((call >>= rest) m)
  After-bind call rest m first then_on = After-bind_go rest (call m) first then_on

  pub After-if :
      (test : Bool) (o o' : Outcome A) → After P o → After P o' → After P (if test then o else o')
  After-if true o o' p p' = p
  After-if false o o' p p' = p'
