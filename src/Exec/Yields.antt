-- ===== src/Exec/Yields.antt =====
-- Invariants of actions that also say what the action returns.
use migration_orchestrator_k.Prelude.{◌≡◌, Bool, true, false, if◌then◌else◌}
use migration_orchestrator_k.Exec.{
  Exc, Result, ok, err, Exec, pure, raise, try_except, catch, continue, ◌>>=◌,
}
use migration_orchestrator_k.Exec.Keeps.{
  Keeps, Keeps-pure, Keeps-raise, Keeps-bind, Keeps-try_except,
}

-- A result satisfies `Post` where there is one.
abbrev pub Returned {κ} : {Out : Type κ} → (Out → Type κ) → Result Out → Type κ
Returned Post (ok out) = Post out
Returned Post (err e) = Unit

-- The invariant is kept, and what is returned satisfies `Post`.
pub record Yields {κ} {State Out : Type κ} (Inv : State → Type κ) (Post : Out → Type κ)
    (action : Exec State Out) : Type κ where
  pub kept : Keeps Inv action
  pub returned : (before : State) → Returned Post (action before).0

module _ {κ} {State Out : Type κ} {Inv : State → Type κ} {Post : Out → Type κ} where
  pub Yields-pure : (out : Out) → Post out → Yields Inv Post (pure out)
  Yields-pure out p = record { kept = Keeps-pure out; returned = λ before. p }

  pub Yields-raise : (e : Exc) → Yields Inv Post (raise e)
  Yields-raise e = record { kept = Keeps-raise e; returned = λ before. tt }

  pub Yields-if :
      (test : Bool) (here there : Exec State Out)
      → Yields Inv Post here
      → Yields Inv Post there
      → Yields Inv Post (if test then here else there)
  Yields-if true here there kh kt = kh
  Yields-if false here there kh kt = kt

  -- The branch that is taken.
  pub Yields-then :
      {test : Bool} (here there : Exec State Out)
      → test ≡ true
      → Yields Inv Post here
      → Yields Inv Post (if test then here else there)
  Yields-then here there e k = rw e k

  pub Yields-else :
      {test : Bool} (here there : Exec State Out)
      → test ≡ false
      → Yields Inv Post there
      → Yields Inv Post (if test then here else there)
  Yields-else here there e k = rw e k

  pub Yields-try_except :
      (body : Exec State Out) (handler : Exc → Exec State Out)
      → Yields Inv Post body
      → ((e : Exc) → Yields Inv Post (handler e))
      → Yields Inv Post (try_except body handler)
  Yields-try_except body handler y ys = record {
    kept = Keeps-try_except body handler y.kept (λ e. (ys e).kept);
    returned = λ before. caught (body before).0 (body before).1 (y.returned before);
  }
    where
      caught :
          (r : Result Out) (now : State) → Returned Post r → Returned Post (catch handler r now).0
      caught (ok out) now p = p
      caught (err e) now p = (ys e).returned now

module _ {κ} {State A Out : Type κ} {Inv : State → Type κ} {Post : Out → Type κ} where
  pub Yields-bind :
      (first : Exec State A) (next : A → Exec State Out)
      → Keeps Inv first
      → ((a : A) → Yields Inv Post (next a))
      → Yields Inv Post (first >>= next)
  Yields-bind first next k ys = record {
    kept = Keeps-bind first next k (λ a. (ys a).kept);
    returned = λ before. go (first before).0 (first before).1;
  }
    where
      go : (r : Result A) (now : State) → Returned Post (continue r next now).0
      go (ok a) now = (ys a).returned now
      go (err e) now = tt

module _ {κ} {State A Out : Type κ} {Inv : State → Type κ} {Post : A → Type κ} where
  -- What follows may use what was returned.
  pub Keeps-after :
      (first : Exec State A) (next : A → Exec State Out)
      → Yields Inv Post first
      → ((a : A) → Post a → Keeps Inv (next a))
      → Keeps Inv (first >>= next)
  Keeps-after first next y ks = record {
    holds = λ before i.
        go (first before).0 (first before).1 (y.returned before) (y.kept.holds before i);
  }
    where
      go : (r : Result A) (now : State) → Returned Post r → Inv now → Inv (continue r next now).1
      go (ok a) now p i = (ks a p).holds now i
      go (err e) now p i = i

pub ruleset yields_rules = (Yields-bind, Yields-try_except, Yields-if, Yields-pure, Yields-raise)
