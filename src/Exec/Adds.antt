-- ===== src/Exec/Adds.antt =====
-- How much an action may add to a measure of the state, whether it returns or raises: one rule for
-- each way to build an action.
use migration_orchestrator_k.Prelude.{
  ℕ, ◌+◌, ◌≤◌, Bool, true, false, ◌≡◌, refl, if◌then◌else◌, arith,
}
use migration_orchestrator_k.Exec.{
  Exc, Result, ok, err, Exec, pure, raise, lift, try_except, catch, continue, ◌>>=◌,
}

pub record Adds {State Out : Type 0} (measure : State → ℕ) (n : ℕ) (action : Exec State Out)
    : Type 0 where
  pub bounded : (before : State) → measure (action before).1 ≤ measure before + n

-- The value of what was read, and 0 where it could not be.
unfoldable pub or_zero : {A : Type 0} → Result A → (A → ℕ) → ℕ
or_zero (err e) f = 0
or_zero (ok a) f = f a

module _ {State A : Type 0} {measure : State → ℕ} where
  pub Adds-lift : {n : ℕ} (r : Result A) → Adds measure n (lift r)
  Adds-lift {n} r = record { bounded = λ before. omega arith }

  pub Adds-pure : {n : ℕ} (a : A) → Adds measure n (pure a)
  Adds-pure a = Adds-lift (ok a)

  pub Adds-raise : {n : ℕ} (e : Exc) → Adds measure n (raise {A = A} e)
  Adds-raise e = Adds-lift (err e)

  pub Adds-if :
      {n : ℕ} (test : Bool) (here there : Exec State A)
      → Adds measure n here
      → Adds measure n there
      → Adds measure n (if test then here else there)
  Adds-if false here there kh kt = kt
  Adds-if true here there kh kt = kh

  pub Adds-try_except :
      {n : ℕ} (body : Exec State A) (handler : Exc → Exec State A)
      → Adds measure n body
      → ((e : Exc) → Adds measure 0 (handler e))
      → Adds measure n (try_except body handler)
  Adds-try_except {n} body handler k ks = record {
    bounded = λ before. caught before (body before).0 (body before).1 (k.bounded before);
  }
    where
      caught :
          (before : State) (r : Result A) (now : State)
          → measure now ≤ measure before + n
          → measure (catch handler r now).1 ≤ measure before + n
      caught before (err e) now i = omega (arith, i, (ks e).bounded now)
      caught before (ok a) now i = i

  pub Adds-more :
      {m n : ℕ} {action : Exec State A} → m ≤ n → Adds measure m action → Adds measure n action
  Adds-more h k = record { bounded = λ before. omega (arith, h, k.bounded before) }

module _ {State A B : Type 0} {measure : State → ℕ} where
  pub Adds-bind :
      {m n : ℕ} (first : Exec State A) (next : A → Exec State B)
      → Adds measure m first
      → ((a : A) → Adds measure n (next a))
      → Adds measure (m + n) (first >>= next)
  Adds-bind {m} {n} first next k ks = record {
    bounded = λ before. go before (first before).0 (first before).1 (k.bounded before);
  }
    where
      go :
          (before : State) (r : Result A) (now : State)
          → measure now ≤ measure before + m
          → measure (continue r next now).1 ≤ measure before + (m + n)
      go before (err e) now i = omega (arith, i)
      go before (ok a) now i = omega (arith, i, (ks a).bounded now)

  -- Where the first action adds nothing.
  pub Adds-then :
      {n : ℕ} (first : Exec State A) (next : A → Exec State B)
      → Adds measure 0 first
      → ((a : A) → Adds measure n (next a))
      → Adds measure n (first >>= next)
  Adds-then first next k ks = Adds-more (omega arith) (Adds-bind first next k ks)

  -- Where what follows adds nothing.
  pub Adds-last :
      {n : ℕ} (first : Exec State A) (next : A → Exec State B)
      → Adds measure n first
      → ((a : A) → Adds measure 0 (next a))
      → Adds measure n (first >>= next)
  Adds-last first next k ks = Adds-more (omega arith) (Adds-bind first next k ks)

  -- What follows a reading, where its bound depends on what was read.
  pub Adds-read :
      (r : Result A) (next : A → Exec State B) (cost : A → ℕ)
      → ((a : A) → r ≡ ok a → Adds measure (cost a) (next a))
      → Adds measure (or_zero r cost) (lift r >>= next)
  unfolding or_zero
  Adds-read (err e) next cost ks = Adds-lift (err e)
  Adds-read (ok a) next cost ks = record { bounded = λ before. (ks a refl).bounded before }

pub ruleset adds_rules =
    (Adds-then, Adds-last, Adds-try_except, Adds-if, Adds-lift, Adds-pure, Adds-raise)
