-- ===== src/Exec/Keeps.antt =====
-- Invariants of actions: one rule for each way to build an action.
use migration_orchestrator_k.Prelude.{Bool, true, false, if◌then◌else◌}
use migration_orchestrator_k.Exec.{
  Exc, Result, ok, err, Exec, pure, raise, lift, gets, guard, try_except, catch, continue, ◌>>=◌,
}

-- What holds before the action holds after it, whether it returns or raises.
pub record Keeps {κ} {State Out : Type κ} (Inv : State → Type κ) (action : Exec State Out)
    : Type κ where
  pub holds : (before : State) → Inv before → Inv (action before).1

module _ {κ} {State A B : Type κ} {Inv : State → Type κ} where
  -- An action, and then another that reads its result.
  pub Keeps-bind :
      (first : Exec State A) (next : A → Exec State B)
      → Keeps Inv first
      → ((a : A) → Keeps Inv (next a))
      → Keeps Inv (first >>= next)
  Keeps-bind first next k ks = record {
    holds = λ before i. go (first before).0 (first before).1 (k.holds before i);
  }
    where
      go : (r : Result A) (now : State) → Inv now → Inv (continue r next now).1
      go (err e) now i = i
      go (ok a) now i = (ks a).holds now i

module _ {κ} {State A : Type κ} {Inv : State → Type κ} where
  pub Keeps-try_except :
      (body : Exec State A) (handler : Exc → Exec State A)
      → Keeps Inv body
      → ((e : Exc) → Keeps Inv (handler e))
      → Keeps Inv (try_except body handler)
  Keeps-try_except body handler k ks = record {
    holds = λ before i. caught (body before).0 (body before).1 (k.holds before i);
  }
    where
      caught : (r : Result A) (now : State) → Inv now → Inv (catch handler r now).1
      caught (err e) now i = (ks e).holds now i
      caught (ok a) now i = i

  -- Both branches.
  pub Keeps-if :
      (test : Bool) (here there : Exec State A)
      → Keeps Inv here
      → Keeps Inv there
      → Keeps Inv (if test then here else there)
  Keeps-if false here there kh kt = kt
  Keeps-if true here there kh kt = kh

  -- The actions that write nothing.
  pub Keeps-lift : (r : Result A) → Keeps Inv (lift r)
  Keeps-lift r = record { holds = λ before i. i }

  pub Keeps-pure : (a : A) → Keeps Inv (pure a)
  Keeps-pure a = Keeps-lift (ok a)

  pub Keeps-raise : (e : Exc) → Keeps Inv (raise {A = A} e)
  Keeps-raise e = Keeps-lift (err e)

  pub Keeps-gets : (f : State → A) → Keeps Inv (gets f)
  Keeps-gets f = record { holds = λ before i. i }

module _ {κ} {State : Type κ} {Inv : State → Type κ} where
  pub Keeps-guard : (test : Bool) (e : Exc) → Keeps Inv (guard test e)
  Keeps-guard false e = Keeps-raise e
  Keeps-guard true e = Keeps-pure tt

pub ruleset keeps_rules = (
  Keeps-bind, Keeps-try_except, Keeps-if, Keeps-guard, Keeps-gets, Keeps-lift, Keeps-pure,
  Keeps-raise,
)
