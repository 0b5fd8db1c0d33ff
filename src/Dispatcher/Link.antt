-- ===== src/Dispatcher/Link.antt =====
-- The connections to the broker: JobDispatcher.connect and close in src/dispatcher/dispatcher.py,
-- and those of the workers in src/workers.
use migration_orchestrator_k.Prelude.{
  ◌≡◌, refl, ap, inl, inr, Bool, true, false, not, ◌&&◌, if◌then◌else◌, Bool-cases,
}
use migration_orchestrator_k.Exec.{
  Exc, Result, ok, err, Exec, pure, gets, ◌>>=◌, ◌>>◌, Result-cases,
}

and_false : (b : Bool) → (b && false) ≡ false
and_false true = refl
and_false false = refl

-- What aio_pika does, on its own state.
pub record Broker (S : Type 0) : Type 0 where
  pub connect_robust : S → Result (Unit {0}) × S
  pub channel : S → Result (Unit {0}) × S
  pub set_qos : S → Result (Unit {0}) × S
  pub close : S → Result (Unit {0}) × S
  -- `connection.is_closed`
  pub is_closed : S → Bool

-- Whether `self._connection` and `self._channel` are set.
pub record Link (S : Type 0) : Type 0 where
  pub has_connection : Bool
  pub has_channel : Bool
  pub broker : S

module _ {S : Type 0} (aio_pika : Broker S) where
  -- A call of the library.
  abbrev pub ask : (S → Result (Unit {0}) × S) → Exec (Link S) (Unit {0})
  ask f link = let (r, s) = f link.broker in (r, record link { broker = s })

  abbrev pub set_connection : Exec (Link S) (Unit {0})
  set_connection link = pure tt (record link { has_connection = true })

  abbrev pub set_channel : Exec (Link S) (Unit {0})
  set_channel link = pure tt (record link { has_channel = true })

  -- JobDispatcher.connect
  unfoldable pub connect : Exec (Link S) (Unit {0})
  connect = do ask aio_pika.connect_robust; set_connection; ask aio_pika.channel; set_channel

  -- The connect of the three workers, which also limit the messages in flight.
  unfoldable pub connect_worker : Exec (Link S) (Unit {0})
  unfolding connect
  connect_worker = do connect; ask aio_pika.set_qos

  -- `if self._connection and not self._connection.is_closed`
  unfoldable pub close : Exec (Link S) (Unit {0})
  close = do
    is_open ← gets (λ link. link.has_connection && not (aio_pika.is_closed link.broker))
    if is_open then ask aio_pika.close else pure tt

  -- What connect may do.
  pub data Connected (before : Link S) (outcome : Result (Unit {0}) × Link S) : Type 0 where
    unreachable :
        (e : Exc) (s : S)
        → aio_pika.connect_robust before.broker ≡ (err e, s)
        → outcome ≡ (err e, record before { broker = s })
        → Connected before outcome
    without_channel :
        (e : Exc) (s s' : S)
        → aio_pika.connect_robust before.broker ≡ (ok tt, s)
        → aio_pika.channel s ≡ (err e, s')
        → outcome ≡ (err e, record before { has_connection = true; broker = s' })
        → Connected before outcome
    ready :
        (s s' : S)
        → aio_pika.connect_robust before.broker ≡ (ok tt, s)
        → aio_pika.channel s ≡ (ok tt, s')
        → outcome ≡ (ok tt, record { has_connection = true; has_channel = true; broker = s' })
        → Connected before outcome

  -- connect on every branch: where the broker cannot be reached, its exception leaves both fields as
  -- they were; where the broker is reached and gives no channel, its exception leaves the connection
  -- set and the channel as it was; where it gives one, both are set. The broker is asked for a
  -- connection once, and for a channel once where it was reached.
  pub connect-Connected : (link : Link S) → Connected link (connect link)
  unfolding connect
  connect-Connected link =
      let (r, s) = aio_pika.connect_robust link.broker in
      let (q, s') = aio_pika.channel s in
      elim (Result-cases r) [
        | inr (e, h) ↦ unreachable e s (ap (λ r. (r, s)) h) (rw h refl)
        | inl (u, h) ↦ elim (Result-cases q) [
          | inr (e, k) ↦
              without_channel e s s' (ap (λ r. (r, s)) h) (ap (λ q. (q, s')) k) (rw h (rw k refl))
          | inl (u', k) ↦ ready s s' (ap (λ r. (r, s)) h) (ap (λ q. (q, s')) k) (rw h (rw k refl))
        ]
      ]

  -- Where the library marks a connection as closed, and keeps it so, a second close asks nothing of
  -- it and changes nothing.
  pub close_twice :
      ((s : S) → aio_pika.is_closed (aio_pika.close s).1 ≡ true)
      → (link : Link S) → close (close link).1 ≡ (ok tt, (close link).1)
  unfolding close
  close_twice marks link =
      elim (Bool-cases (link.has_connection && not (aio_pika.is_closed link.broker))) [
        | inl e ↦ rw (e, marks link.broker) (rw (and_false link.has_connection) refl)
        | inr e ↦ rw (e, e) refl
      ]
