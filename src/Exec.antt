-- ===== src/Exec.antt =====
-- Python methods that change shared state and may raise: what was written before a raise stays
-- written, except inside a database transaction.
pub mod Keeps
pub mod Yields
pub mod Adds
use migration_orchestrator_k.Prelude.{ℕ, String, ◌<>◌, Bool, true, false, ◌≡◌, ◌⊎◌, inl, inr, refl}

-- The exceptions that the code raises or that reach it. A ValueError carries its message, and a
-- violation of a key the text that the database gives.
pub data Exc : Type 0 where
  value_error : String → Exc
  key_error : String → Exc
  type_error : Exc
  invalid_transition : String → String → String → Exc
  unique_violation : String → Exc
  foreign_key_violation : String → Exc
  runtime_error : String → Exc
  aws_error : String → Exc
  amqp_error : Exc
  http : ℕ → Exc

-- `str(e)`, of the exceptions that carry a text.
unfoldable pub exc_text : Exc → String
exc_text (value_error message) = message
exc_text (key_error key) = "'" <> key <> "'"
exc_text (unique_violation message) = message
exc_text (foreign_key_violation message) = message
exc_text (runtime_error message) = message
exc_text (aws_error message) = message
exc_text (invalid_transition id from to) =
    "Invalid transition for server '" <> id <> "': " <> from <> " → " <> to
exc_text _ = ""

pub data Result {ℓ} (A : Type ℓ) : Type ℓ where
  ok : A → Result A
  err : Exc → Result A

pub Result-cases {ℓ} :
    {A : Type ℓ} (r : Result A) → ((a : A) × (r ≡ ok a)) ⊎ ((e : Exc) × (r ≡ err e))
Result-cases (ok a) = inl (a, refl)
Result-cases (err e) = inr (e, refl)

abbrev pub Exec {ℓ} : Type ℓ → Type ℓ → Type ℓ
Exec S A = S → Result A × S

module _ {ℓ} {S A : Type ℓ} where
  -- What is known already, a raise or a value, with nothing written.
  abbrev pub lift : Result A → Exec S A
  lift known s = (known, s)

  abbrev pub raise : Exc → Exec S A
  raise e s = (err e, s)

  abbrev pub pure : A → Exec S A
  pure a s = (ok a, s)

  -- `try: m except Exception as e: handler e`
  abbrev pub catch : (Exc → Exec S A) → Result A → Exec S A
  catch handler (err e) s = handler e s
  catch handler (ok a) s = (ok a, s)

  abbrev pub try_except : Exec S A → (Exc → Exec S A) → Exec S A
  try_except m handler s = let (r, s') = m s in catch handler r s'

  -- `async with conn.transaction()`: a raise restores what the tables held before.
  abbrev pub settle : S → Result A → S → Result A × S
  settle before (err e) after = (err e, before)
  settle before (ok a) after = (ok a, after)

  abbrev pub transaction : Exec S A → Exec S A
  transaction m s = let (r, s') = m s in settle s r s'

  -- A read of the state.
  abbrev pub gets : (S → A) → Exec S A
  gets read s = (ok (read s), s)

module _ {ℓ} {S A B : Type ℓ} where
  -- The next statement, where the one before did not raise.
  abbrev pub continue : Result A → (A → Exec S B) → Exec S B
  continue (err e) next now = (err e, now)
  continue (ok a) next now = next a now

  infixl 5 ◌>>=◌ ◌>>◌
  abbrev pub ◌>>=◌ : Exec S A → (A → Exec S B) → Exec S B
  ◌>>=◌ first next before = let (r, now) = first before in continue r next now

  abbrev pub ◌>>◌ : Exec S A → Exec S B → Exec S B
  first >> second = first >>= λ done. second

-- `if test: m`, as a statement.
abbrev pub when {ℓ} : {S : Type ℓ} → Bool → Exec S (Unit {ℓ}) → Exec S (Unit {ℓ})
when true m = m
when false m = pure tt

-- The checks that raise.
abbrev pub guard {ℓ} : {S : Type ℓ} → Bool → Exc → Exec S (Unit {ℓ})
guard true e = pure tt
guard false e = raise e
