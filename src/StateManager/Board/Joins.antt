-- ===== src/StateManager/Board/Joins.antt =====
-- add_servers_to_batch implements the board.
use migration_orchestrator_k.Prelude.{
  String, ◌≡◌, refl, sym, ◌∙◌, ap, inl, inr, Option, none, some, Bool, true, false, List, [], ◌∷◌,
  is_some, ◌&&◌, ◌==◌, arith, Bool-cases, Option-cases, if◌then◌else◌,
}
use migration_orchestrator_k.Exec.{pure, ◌>>◌}
use migration_orchestrator_k.States.{server_state}
use migration_orchestrator_k.Db.Rows.{on_row}
use migration_orchestrator_k.Db.{Server, Db, find_server, find_batch, any_of, batch_exists}
use migration_orchestrator_k.StateManager.Batches
use migration_orchestrator_k.StateManager.Batches.{
  Assignment, sort_servers, assign_one, write_batch, in_batch, in_column,
}
use migration_orchestrator_k.StateManager.Waves.{fresh-assigned, find-assign_rows, in_batch-column}
use migration_orchestrator_k.StateManager.Board
use migration_orchestrator_k.StateManager.Board.{
  Card, Board, view, card_of, on_card, join, sits_in, all_sit, spec,
}
use migration_orchestrator_k.StateManager.Board.Cards.{Board-ext, if_same}
use migration_orchestrator_k.StateManager.Board.Refines.{seen_of}

-- Only ids of the request are assigned.
one_unlisted :
    (batch_id key sid : String) (o : Option Server) (a : Assignment)
    → (sid == key) ≡ false
    → any_of key a.assigned ≡ false
    → any_of key (assign_one batch_id sid o a).assigned ≡ false
unfolding any_of
one_unlisted batch_id key sid none a n h = h
one_unlisted batch_id key sid (some q) a n h = elim (Bool-cases (in_batch batch_id q)) [
  | inl e ↦ rw e h
  | inr e ↦ rw (e, n) h
]

unlisted :
    (batch_id key : String) (rows : List Server) (ids : List String)
    → any_of key ids ≡ false
    → any_of key (sort_servers batch_id rows ids).assigned ≡ false
unfolding any_of sort_servers
unlisted batch_id key rows [] h = refl
unlisted batch_id key rows (sid ∷ rest) h =
    one_unlisted batch_id key sid (find_server sid rows) (sort_servers batch_id rows rest)
      (ground arith) (unlisted batch_id key rows rest (ground arith))

-- Joining a batch is seen once.
join_again :
    (batch_id : String) (r : Server)
    → in_batch batch_id r ≡ true
    → on_card (join batch_id) (card_of (some r)) ≡ card_of (some r)
join_again batch_id r h =
    ap (λ b. some (record { state = server_state r.current_state; batch_id = b }))
      (sym (in_batch-column batch_id r h))

either_way :
    {A : Type 0} (b c : Bool) (x y : A) → x ≡ y → (if b then x else y) ≡ (if c then x else y)
either_way b c x y e = if_same b x y e ∙ sym (if_same c x y e)

-- Assigning those who are not in the batch yet, or all of the request, shows the same.
module _ (batch_id key : String) (rows : List Server) (ids : List String) where
  listed :
      (r : Server)
      → find_server key rows ≡ some r
      → in_batch batch_id r ≡ false
      → any_of key (sort_servers batch_id rows ids).assigned ≡ any_of key ids
  listed r h n = elim (Bool-cases (any_of key ids)) [
    | inl t ↦ fresh-assigned batch_id key rows r ids h n t ∙ sym t
    | inr t ↦ unlisted batch_id key rows ids t ∙ sym t
  ]

  same_cards :
      (if any_of key (sort_servers batch_id rows ids).assigned
        then on_card (join batch_id) (card_of (find_server key rows))
        else card_of (find_server key rows))
      ≡ (if any_of key ids
          then on_card (join batch_id) (card_of (find_server key rows))
          else card_of (find_server key rows))
  same_cards = elim (Option-cases (find_server key rows)) [
    | inl h ↦ rw h (either_way _ _ none none refl)
    | inr (r, h) ↦ elim (Bool-cases (in_batch batch_id r)) [
      | inl e ↦ rw h (either_way _ _ _ _ (join_again batch_id r e))
      | inr e ↦ rw (h, listed r h e) refl
    ]
  ]

card-assigned :
    (batch_id key : String) (assigned : List String) (db : Db)
    → batch_exists (some batch_id) db.batches ≡ true
    → card_of (find_server key (write_batch batch_id assigned db).1.servers) ≡ (
        if any_of key assigned
        then on_card (join batch_id) (card_of (find_server key db.servers))
        else card_of (find_server key db.servers))
unfolding write_batch any_of
card-assigned batch_id key [] db b = refl
card-assigned batch_id key (x ∷ xs) db b = rw b (
    ap card_of (find-assign_rows batch_id key db.now (x ∷ xs) db.servers)
    ∙ by_test (any_of key (x ∷ xs)) (find_server key db.servers))
  where
    by_row :
        (o : Option Server)
        → card_of (on_row (λ r. record r { batch_id = some batch_id; updated_at = db.now }) o)
          ≡ on_card (join batch_id) (card_of o)
    by_row none = refl
    by_row (some r) = refl

    by_test :
        (t : Bool) (o : Option Server)
        → card_of (
            if t
            then on_row (λ r. record r { batch_id = some batch_id; updated_at = db.now }) o
            else o)
          ≡ (if t then on_card (join batch_id) (card_of o) else card_of o)
    by_test true o = by_row o
    by_test false o = refl

-- Where the batch does not exist, the call returns exactly where nobody is to be assigned.
is_nil : List String → Bool
is_nil [] = true
is_nil (x ∷ xs) = false

one_sits :
    (batch_id sid : String) (o : Option Server) (a : Assignment)
    → is_nil (assign_one batch_id sid o a).assigned
      ≡ (sits_in batch_id (card_of o) && is_nil a.assigned)
unfolding is_nil
one_sits batch_id sid none a = refl
one_sits batch_id sid (some r) a = elim (Bool-cases (in_batch batch_id r)) [
  | inl e ↦ rw e (sits r.batch_id e)
  | inr e ↦ rw e (sits_not r.batch_id e)
]
  where
    sits :
        (o : Option String)
        → in_column o batch_id ≡ true
        → is_nil a.assigned
          ≡ ((elim o [ none ↦ false | some id ↦ id == batch_id ]) && is_nil a.assigned)
    sits none e = cc
    sits (some id) e = rw e refl

    sits_not :
        (o : Option String)
        → in_column o batch_id ≡ false
        → false ≡ ((elim o [ none ↦ false | some id ↦ id == batch_id ]) && is_nil a.assigned)
    sits_not none e = refl
    sits_not (some id) e = rw e refl

nobody-all_sit :
    (batch_id : String) (ids : List String) (db : Db)
    → is_nil (sort_servers batch_id db.servers ids).assigned ≡ all_sit batch_id ids (view db)
unfolding sort_servers is_nil
nobody-all_sit batch_id [] db = refl
nobody-all_sit batch_id (sid ∷ ids) db =
    one_sits batch_id sid (find_server sid db.servers) (sort_servers batch_id db.servers ids)
    ∙ ap (λ t. sits_in batch_id (card_of (find_server sid db.servers)) && t)
        (nobody-all_sit batch_id ids db)

without_batch :
    (batch_id : String) (a : Assignment) (db : Db)
    → batch_exists (some batch_id) db.batches ≡ false
    → seen_of ((write_batch batch_id a.assigned >> pure a) db) ≡ (is_nil a.assigned, view db)
unfolding write_batch is_nil
without_batch batch_id a db b = by_list a.assigned
  where
    by_list :
        (assigned : List String)
        → seen_of ((write_batch batch_id assigned >> pure a) db) ≡ (is_nil assigned, view db)
    by_list [] = refl
    by_list (x ∷ xs) = rw b refl

with_batch :
    (batch_id : String) (a : Assignment) (db : Db)
    → batch_exists (some batch_id) db.batches ≡ true
    → seen_of ((write_batch batch_id a.assigned >> pure a) db)
      ≡ (true, view (write_batch batch_id a.assigned db).1)
unfolding write_batch
with_batch batch_id a db b = by_list a.assigned
  where
    by_list :
        (assigned : List String)
        → seen_of ((write_batch batch_id assigned >> pure a) db)
          ≡ (true, view (write_batch batch_id assigned db).1)
    by_list [] = refl
    by_list (x ∷ xs) = rw b refl

batches-written :
    (batch_id : String) (assigned : List String) (db : Db)
    → (write_batch batch_id assigned db).1.batches ≡ db.batches
unfolding write_batch
batches-written batch_id [] db = refl
batches-written batch_id (x ∷ xs) db = elim (Bool-cases (batch_exists (some batch_id) db.batches)) [
  | inl e ↦ rw e refl
  | inr e ↦ rw e refl
]

pub add_servers_seen :
    (batch_id : String) (ids : List String) (db : Db)
    → seen_of (Batches.add_servers_to_batch batch_id ids db)
      ≡ spec (Board.add_servers_to_batch batch_id ids) (view db)
unfolding spec Batches.add_servers_to_batch batch_exists
add_servers_seen batch_id ids db = elim (Bool-cases (is_some (find_batch batch_id db.batches))) [
  | inl e ↦
      with_batch batch_id (sort_servers batch_id db.servers ids) db e
      ∙ rw e (
          ap (λ v. (true, v))
            (Board-ext _ _
              (λ key.
                card-assigned batch_id key (sort_servers batch_id db.servers ids).assigned db e
                ∙ same_cards batch_id key db.servers ids)
              (λ key.
                ap (λ rows. is_some (find_batch key rows))
                  (batches-written batch_id (sort_servers batch_id db.servers ids).assigned db))))
  | inr e ↦
      without_batch batch_id (sort_servers batch_id db.servers ids) db e
      ∙ rw e (ap (λ t. (t, view db)) (nobody-all_sit batch_id ids db))
]
