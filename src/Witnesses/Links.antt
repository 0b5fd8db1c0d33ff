-- ===== src/Witnesses/Links.antt =====
-- The properties of the connections at a concrete input.
use migration_orchestrator_k.Prelude.{◌≡◌, refl, Bool, true, false}
use migration_orchestrator_k.Exec.{ok}
use migration_orchestrator_k.Dispatcher.Link.{
  Broker, Link, Connected, connect, close, connect-Connected, close_twice,
}

-- A broker that takes everything; its state is whether the connection is closed.
abbrev willing : Broker Bool
willing = record {
  connect_robust = λ s. (ok tt, false);
  channel = λ s. (ok tt, s);
  set_qos = λ s. (ok tt, s);
  close = λ s. (ok tt, true);
  is_closed = λ s. s;
}

abbrev fresh : Link Bool
fresh = record { has_connection = false; has_channel = false; broker = true }

connect-Connected_example : Connected willing fresh (connect willing fresh)
connect-Connected_example = connect-Connected willing fresh

close_twice_example :
    close willing (close willing (connect willing fresh).1).1
    ≡ (ok tt, (close willing (connect willing fresh).1).1)
close_twice_example = close_twice willing (λ s. refl) (connect willing fresh).1
