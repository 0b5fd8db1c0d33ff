-- ===== src/Api/Registration.antt =====
-- What the registration endpoint of src/api/routes/servers.py does.
use migration_orchestrator_k.Prelude.{
  String, ◌≡◌, ◌⊎◌, arith, refl, inl, inr, none, some, Option, true, false, List, snoc, Bool-cases,
  Option-cases, eq_refl,
}
use migration_orchestrator_k.Exec.{Result, ok, err, http, exc_text}
use migration_orchestrator_k.States.{value}
use migration_orchestrator_k.Db.{
  Server, Batch, find_server, find_batch, batch_exists, insert_server,
}
use migration_orchestrator_k.Db.Rows.{find-snoc}
use migration_orchestrator_k.StateManager.Servers as Rows
use migration_orchestrator_k.World.{World, on_db}
use migration_orchestrator_k.Api.Text.{lower, has_part}
use migration_orchestrator_k.Api.Servers.{
  RegisterServerRequest, says_taken, to_409_or_500, register, register_server,
}

-- The text has "unique" or "duplicate" in it, in any case of the letters.
abbrev pub SaysTaken : String → Type 0
SaysTaken text =
    (has_part (lower text) "unique" ≡ true) ⊎ (has_part (lower text) "duplicate" ≡ true)

says_taken-true : (text : String) → SaysTaken text → says_taken text ≡ true
unfolding says_taken
says_taken-true text (inl e) = rw e refl
says_taken-true text (inr e) = ground arith

neither :
    (text : String)
    → has_part (lower text) "unique" ≡ false
    → has_part (lower text) "duplicate" ≡ false
    → ¬ SaysTaken text
neither text e f (inl u) = cc (e, u)
neither text e f (inr d) = cc (f, d)

SaysTaken-cases : (text : String) → SaysTaken text ⊎ (¬ SaysTaken text × (says_taken text ≡ false))
unfolding says_taken
SaysTaken-cases text = elim (Bool-cases (has_part (lower text) "unique")) [
  | inl e ↦ inl (inl e)
  | inr e ↦ elim (Bool-cases (has_part (lower text) "duplicate")) [
    | inl f ↦ inl (inr f)
    | inr f ↦ inr (neither text e f, rw (e, f) refl)
  ]
]

missing_batch :
    (o : Option String) (batches : List Batch)
    → batch_exists o batches ≡ false
    → (wave : String) × (o ≡ some wave) × (find_batch wave batches ≡ none)
unfolding batch_exists
missing_batch none batches h = cc
missing_batch (some wave) batches h = elim (Option-cases (find_batch wave batches)) [
  | inl e ↦ (wave, refl, e)
  | inr (b, e) ↦ cc
]

there_batch :
    (o : Option String) (batches : List Batch)
    → batch_exists o batches ≡ true
    → (wave : String) → o ≡ some wave
    → (b : Batch) × (find_batch wave batches ≡ some b)
unfolding batch_exists
there_batch o batches h wave e = elim (Option-cases (find_batch wave batches)) [
  | inl n ↦ cc
  | inr found ↦ found
]

module _ {S : Type 0} (body : RegisterServerRequest) (w : World S) where
  -- The row of the request, in PENDING.
  abbrev pub requested : Server
  requested = record {
    server_id = body.server_id;
    hostname = body.hostname;
    ip_address = body.ip_address;
    aws_source_server_id = none;
    current_state = "PENDING";
    previous_state = none;
    assigned_engineer = body.assigned_engineer;
    aws_account_id = body.aws_account_id;
    aws_region = body.aws_region;
    batch_id = body.batch_id;
    created_at = w.db.now;
    updated_at = w.db.now;
  }

  -- What registration may do.
  pub data Registered (outcome : Result Server × World S) : Type 0 where
    taken :
        (r : Server)
        → find_server body.server_id w.db.servers ≡ some r
        → outcome ≡ (err (http 409), w)
        → Registered outcome
    without_batch :
        (wave : String)
        → find_server body.server_id w.db.servers ≡ none
        → body.batch_id ≡ some wave
        → find_batch wave w.db.batches ≡ none
        → ¬ SaysTaken (w.db.missing_text "servers" wave)
        → outcome ≡ (err (http 500), w)
        → Registered outcome
    misread :
        (wave : String)
        → find_server body.server_id w.db.servers ≡ none
        → body.batch_id ≡ some wave
        → find_batch wave w.db.batches ≡ none
        → SaysTaken (w.db.missing_text "servers" wave)
        → outcome ≡ (err (http 409), w)
        → Registered outcome
    created :
        find_server body.server_id w.db.servers ≡ none
        → ((wave : String)
            → body.batch_id ≡ some wave
            → (b : Batch) × (find_batch wave w.db.batches ≡ some b))
        → outcome
          ≡ (ok requested, record w { db = record w.db { servers = snoc w.db.servers requested } })
        → Registered outcome

  there_now :
      find_server body.server_id w.db.servers ≡ none
      → find_server body.server_id (snoc w.db.servers requested) ≡ some requested
  there_now h = rw (find-snoc body.server_id w.db.servers requested, h, eq_refl body.server_id) refl

  without :
      find_server body.server_id w.db.servers ≡ none
      → batch_exists body.batch_id w.db.batches ≡ false
      → Registered (register_server body w)
  unfolding register_server register to_409_or_500 on_db Rows.register_server insert_server value
      exc_text
  without h k =
      let (wave, e, none_there) = missing_batch body.batch_id w.db.batches k in
      elim (SaysTaken-cases (w.db.missing_text "servers" wave)) [
        | inl t ↦ misread wave h e none_there t (rw h (rw k (rw (e, says_taken-true _ t) refl)))
        | inr (n, t) ↦ without_batch wave h e none_there n (rw h (rw k (rw (e, t) refl)))
      ]

  -- The registration endpoint on every branch, where the database's text for a key that is taken
  -- says "unique" or "duplicate", as PostgreSQL's does: 409 for an id that is taken; for a batch that
  -- does not exist, 500 where the text for the missing key says neither and 409 where it says one of
  -- them, as it may where the key does; these with nothing changed; else the row of the request in
  -- PENDING is added and returned, and nothing else changes.
  pub register_server-Registered :
      ((table key : String) → SaysTaken (w.db.taken_text table key))
      → Registered (register_server body w)
  unfolding register_server register to_409_or_500 on_db Rows.register_server Rows.get_server
      insert_server value exc_text
  register_server-Registered documented =
      elim (Option-cases (find_server body.server_id w.db.servers)) [
        | inr (r, h) ↦
            taken r h (rw h (rw (says_taken-true _ (documented "servers" body.server_id)) refl))
        | inl h ↦ elim (Bool-cases (batch_exists body.batch_id w.db.batches)) [
          | inr k ↦ without h k
          | inl k ↦
              created h (there_batch body.batch_id w.db.batches k)
                (rw h (rw k (rw (there_now h) refl)))
        ]
      ]
