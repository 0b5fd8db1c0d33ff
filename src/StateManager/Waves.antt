-- ===== src/StateManager/Waves.antt =====
-- What add_servers_to_batch does.
use migration_orchestrator_k.Prelude.{
  ℕ, String, ◌≡◌, inl, inr, refl, ◌∙◌, ap, sym, subst, true, false, Option, none, some, List, [],
  ◌∷◌, Bool-cases, ◌==◌, eq_iff, arith, if◌then◌else◌,
}
use migration_orchestrator_k.Exec.{Result, ok, err, pure, continue}
use migration_orchestrator_k.Db.{Server, Db, find_server, any_of, batch_exists}
use migration_orchestrator_k.Db.Rows.{on_row}
use migration_orchestrator_k.StateManager.Batches.{
  Assignment, sort_servers, assign_one, assign_rows, write_batch, in_batch, in_column,
  add_servers_to_batch,
}

-- A look-up after the assignment.
pub find-assign_rows :
    (batch_id key : String) (now : ℕ) (ids : List String) (rows : List Server)
    → find_server key (assign_rows batch_id now ids rows) ≡ (
        if any_of key ids
        then on_row
            (λ r. record r { batch_id = some batch_id; updated_at = now })
            (find_server key rows)
        else find_server key rows)
unfolding find_server assign_rows
find-assign_rows batch_id key now ids [] = ground arith
find-assign_rows batch_id key now ids (r ∷ rest) = elim (Bool-cases (r.server_id == key)) [
  | inl e ↦ ground (
    arith,
    find-assign_rows batch_id key now ids rest,
    ap (λ k. any_of k ids) ((eq_iff r.server_id key).0 e),
  )
  | inr e ↦ ground (arith, find-assign_rows batch_id key now ids rest)
]

kept :
    (batch_id key sid : String) (o : Option Server) (a : Assignment)
    → any_of key a.assigned ≡ true
    → any_of key (assign_one batch_id sid o a).assigned ≡ true
unfolding any_of
kept batch_id key sid none a h = h
kept batch_id key sid (some q) a h = elim (Bool-cases (in_batch batch_id q)) [
  | inl e ↦ rw e h
  | inr e ↦ rw (e, h) (ground arith)
]

-- The ids of the request whose rows are in another batch or in none are assigned.
pub fresh-assigned :
    (batch_id key : String) (rows : List Server) (r : Server) (ids : List String)
    → find_server key rows ≡ some r
    → in_batch batch_id r ≡ false
    → any_of key ids ≡ true
    → any_of key (sort_servers batch_id rows ids).assigned ≡ true
unfolding any_of sort_servers
fresh-assigned batch_id key rows r [] h n t = cc
fresh-assigned batch_id key rows r (sid ∷ rest) h n t = elim (Bool-cases (sid == key)) [
  | inl e ↦ rw (ap (λ k. find_server k rows) ((eq_iff sid key).0 e) ∙ h, n, e) refl
  | inr e ↦
      kept batch_id key sid (find_server sid rows) (sort_servers batch_id rows rest)
        (fresh-assigned batch_id key rows r rest h n (ground arith))
]

pub in_batch-column :
    (batch_id : String) (r : Server) → in_batch batch_id r ≡ true → r.batch_id ≡ some batch_id
in_batch-column batch_id r h = by_column r.batch_id h
  where
    by_column : (o : Option String) → in_column o batch_id ≡ true → o ≡ some batch_id
    by_column none e = cc
    by_column (some id) e = ap some ((eq_iff id batch_id).0 e)

pub after_pure :
    {A : Type 0} (a : A) (r : Result (Unit {0})) (db : Db)
    → (continue {B = A} r (λ done. pure a) db).1 ≡ db
after_pure a (ok done) db = refl
after_pure a (err e) db = refl

module _ (batch_id key : String) (r : Server) (db : Db) where
  pub InBatch : Option Server → Type 0
  InBatch o = (q : Server) × (o ≡ some q) × (q.batch_id ≡ some batch_id)

  written :
      (assigned : List String)
      → batch_exists (some batch_id) db.batches ≡ true
      → find_server key db.servers ≡ some r
      → (in_batch batch_id r ≡ false → any_of key assigned ≡ true)
      → InBatch (find_server key (write_batch batch_id assigned db).1.servers)
  unfolding write_batch InBatch
  written [] b h fresh = elim (Bool-cases (in_batch batch_id r)) [
    | inl e ↦ (r, h, in_batch-column batch_id r e)
    | inr e ↦ absurd (unfold any_of in cc (fresh e))
  ]
  written (x ∷ xs) b h fresh =
      rw (b, write_batch)
        (rw (find-assign_rows batch_id key db.now (x ∷ xs) db.servers)
          (elim (Bool-cases (any_of key (x ∷ xs))) [
            | inl t ↦
                rw (t, h) (record r { batch_id = some batch_id; updated_at = db.now }, refl, refl)
            | inr t ↦ rw t (r, h, in_batch-column batch_id r (listed t))
          ]))
    where
      listed : any_of key (x ∷ xs) ≡ false → in_batch batch_id r ≡ true
      listed t = elim (Bool-cases (in_batch batch_id r)) [ inl e ↦ e | inr e ↦ cc (fresh e, t) ]

  -- After add_servers_to_batch with a batch that exists, every server of the request that has a row
  -- is in the batch.
  pub add_servers_to_batch-InBatch :
      (ids : List String)
      → batch_exists (some batch_id) db.batches ≡ true
      → find_server key db.servers ≡ some r
      → any_of key ids ≡ true
      → InBatch (find_server key (add_servers_to_batch batch_id ids db).1.servers)
  unfolding add_servers_to_batch
  add_servers_to_batch-InBatch ids b h t =
      subst (λ (d : Db). InBatch (find_server key d.servers))
        (sym (
          after_pure (sort_servers batch_id db.servers ids)
            (write_batch batch_id (sort_servers batch_id db.servers ids).assigned db).0
            (write_batch batch_id (sort_servers batch_id db.servers ids).assigned db).1))
        (written (sort_servers batch_id db.servers ids).assigned b h
          (λ n. fresh-assigned batch_id key db.servers r ids h n t))
