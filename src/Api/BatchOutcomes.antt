-- ===== src/Api/BatchOutcomes.antt =====
-- What the loops over many servers answer.
use migration_orchestrator_k.Prelude.{
  String, ◌≡◌, inl, inr, refl, ap, Bool, true, false, not, List, [], ◌∷◌, map, Bool-cases, ◌==◌,
}
use migration_orchestrator_k.Exec.{Result, ok, err, Exec, Result-cases}
use migration_orchestrator_k.Db.{Server, select}
use migration_orchestrator_k.World.{World}
use migration_orchestrator_k.Api.Bulk as Bulk
use migration_orchestrator_k.Api.Batches.{BatchActionResponse, turn, loop}

-- What an action gave: a value, or an exception.
abbrev pub is_ok : Result (Unit {0}) → Bool
is_ok (ok a) = true
is_ok (err e) = false

module _ {S : Type 0} {A : Type 0} (action : A → Exec (World S) (Unit {0})) where
  -- The action on each item in turn, each from the world that the one before left, exceptions
  -- included: the items with what each gave, and the world at the end.
  unfoldable pub results : List A → World S → List (A × Bool)
  results [] w = []
  results (a ∷ rest) w = let (r, w') = action a w in (a, is_ok r) ∷ results rest w'

  unfoldable pub after : List A → World S → World S
  after [] w = w
  after (a ∷ rest) w = after rest (action a w).1

-- The ids of the items whose action returned, and of those whose action raised.
abbrev pub done_ids : {A : Type 0} → (A → String) → List (A × Bool) → List String
done_ids id l = map (λ p. id p.0) (select (λ p. p.1) l)

abbrev pub raised_ids : {A : Type 0} → (A → String) → List (A × Bool) → List String
raised_ids id l = map (λ p. id p.0) (select (λ p. not p.1) l)

module _ {S : Type 0} (expected : String) (action : Server → Exec (World S) (Unit {0})) where
  abbrev pub is_expected : Server → Bool
  is_expected r = r.current_state == expected

  -- The answer, and what it leaves, are those of the action on the servers in the state.
  pub record Sorted (rows : List Server) (w : World S) (outcome : BatchActionResponse × World S)
      : Type 0 where
    pub skipped_ids :
        outcome.0.skipped
        ≡ map (λ (r : Server). r.server_id) (select (λ r. not (is_expected r)) rows)
    pub succeeded_ids :
        outcome.0.succeeded
        ≡ done_ids (λ r. r.server_id) (results action (select is_expected rows) w)
    pub failed_ids :
        outcome.0.failed
        ≡ raised_ids (λ r. r.server_id) (results action (select is_expected rows) w)
    pub world_after : outcome.1 ≡ after action (select is_expected rows) w

  one_tried :
      (r : Server) (rest : List Server) (w : World S)
      → is_expected r ≡ true
      → Sorted rest (action r w).1 (loop expected action rest (action r w).1)
      → Sorted (r ∷ rest) w (loop expected action (r ∷ rest) w)
  unfolding loop turn select results after
  one_tried r rest w e s = elim (Result-cases (action r w).0) [
    | inl (a, h) ↦ record {
      skipped_ids = rw (e, h) s.skipped_ids;
      succeeded_ids = rw (e, h) (ap (λ l. r.server_id ∷ l) s.succeeded_ids);
      failed_ids = rw (e, h) s.failed_ids;
      world_after = rw e s.world_after;
    }
    | inr (x, h) ↦ record {
      skipped_ids = rw (e, h) s.skipped_ids;
      succeeded_ids = rw (e, h) s.succeeded_ids;
      failed_ids = rw (e, h) (ap (λ l. r.server_id ∷ l) s.failed_ids);
      world_after = rw e s.world_after;
    }
  ]

  one_skipped :
      (r : Server) (rest : List Server) (w : World S)
      → is_expected r ≡ false
      → Sorted rest w (loop expected action rest w)
      → Sorted (r ∷ rest) w (loop expected action (r ∷ rest) w)
  unfolding loop turn select results after
  one_skipped r rest w e s = record {
    skipped_ids = rw e (ap (λ l. r.server_id ∷ l) s.skipped_ids);
    succeeded_ids = rw e s.succeeded_ids;
    failed_ids = rw e s.failed_ids;
    world_after = rw e s.world_after;
  }

  -- A batch action on every server of the batch, in order: it skips those that are not in the
  -- expected state, and runs the action on each of the others from the world that the one before
  -- left; those whose action returned are the ones it reports as succeeded, those whose action
  -- raised as failed, each list in the order of the batch; and the world is the one after the
  -- actions.
  pub loop-Sorted : (rows : List Server) (w : World S) → Sorted rows w (loop expected action rows w)
  unfolding loop select results after
  loop-Sorted [] w = record {
    skipped_ids = refl;
    succeeded_ids = refl;
    failed_ids = refl;
    world_after = refl;
  }
  loop-Sorted (r ∷ rest) w = elim (Bool-cases (is_expected r)) [
    | inl e ↦ one_tried r rest w e (loop-Sorted rest (action r w).1)
    | inr e ↦ one_skipped r rest w e (loop-Sorted rest w)
  ]

module _ {S : Type 0} {A : Type 0} (id : A → String) (action : A → Exec (World S) (Unit {0})) where
  -- A bulk action runs on every item of the request in order, each from the world that the one
  -- before left: the ids whose action returned are the ones it reports as succeeded, those whose
  -- action raised as failed, in the request's order; and the world is the one after the actions.
  pub each-results :
      (items : List A) (w : World S)
      → let (answer, w') = Bulk.each id action items w in
        (answer.succeeded ≡ done_ids id (results action items w))
        × (answer.failed ≡ raised_ids id (results action items w))
        × (w' ≡ after action items w)
  unfolding Bulk.each results after select
  each-results [] w = (refl, refl, refl)
  each-results (a ∷ rest) w =
      let (done, raised, world) = each-results rest (action a w).1 in
      elim (Result-cases (action a w).0) [
        | inl (x, h) ↦ (rw h (ap (λ l. id a ∷ l) done), rw h raised, world)
        | inr (x, h) ↦ (rw h done, rw h (ap (λ l. id a ∷ l) raised), world)
      ]
