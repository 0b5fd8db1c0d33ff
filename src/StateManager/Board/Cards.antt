-- ===== src/StateManager/Board/Cards.antt =====
-- What the statements on the tables do to the board.
use migration_orchestrator_k.Prelude.{
  String, ◌≡◌, refl, sym, ◌∙◌, ap, inl, inr, Option, none, some, Bool, true, false, List, [], ◌∷◌,
  is_some, ◌==◌, arith, snoc, Bool-cases, if◌then◌else◌,
}
use migration_orchestrator_k.States
use migration_orchestrator_k.States.{ServerState, server_state, value}
use migration_orchestrator_k.States.Values.{server_state_iff}
use migration_orchestrator_k.Transitions.{allows?}
use migration_orchestrator_k.Transitions.Diagram.{allows-eq-edge}
use migration_orchestrator_k.Transitions.Validate.{NamesEdge, names_edge, allows-value}
use migration_orchestrator_k.Db.{
  Server, Batch, find_server, find_batch, update_server, update_batch,
}
use migration_orchestrator_k.Db.Rows.{on_row, find-update}
use migration_orchestrator_k.StateManager.Board.{Card, Board, card_of, on_card, step?, is_failed}

pub if_same {ℓ} : {A : Type ℓ} (b : Bool) (x y : A) → x ≡ y → (if b then x else y) ≡ y
if_same true x y e = e
if_same false x y e = refl

pub Board-ext :
    (b c : Board)
    → ((key : String) → b.card key ≡ c.card key)
    → ((key : String) → b.has_batch key ≡ c.has_batch key)
    → b ≡ c
Board-ext b c h k = λ i. record { card = λ key. h key i; has_batch = λ key. k key i }

-- An update of one row changes one card.
pub card-update :
    (id key : String) (f : Server → Server) (g : Card → Card) (rows : List Server)
    → ((r : Server) → (f r).server_id ≡ r.server_id)
    → ((r : Server) → card_of (some (f r)) ≡ on_card g (card_of (some r)))
    → card_of (find_server key (update_server id f rows)) ≡ (
        if id == key
        then on_card g (card_of (find_server key rows))
        else card_of (find_server key rows))
card-update id key f g rows hk hg =
    rw (find-update id key f rows hk) (elim (Bool-cases (id == key)) [
      | inl e ↦ rw e (on_row_card (find_server key rows))
      | inr e ↦ rw e
    ])
  where
    on_row_card : (o : Option Server) → card_of (on_row f o) ≡ on_card g (card_of o)
    on_row_card none = refl
    on_row_card (some r) = hg r

-- An update that the cards do not show.
pub card-same :
    (id key : String) (f : Server → Server) (rows : List Server)
    → ((r : Server) → (f r).server_id ≡ r.server_id)
    → ((r : Server) → card_of (some (f r)) ≡ card_of (some r))
    → card_of (find_server key (update_server id f rows)) ≡ card_of (find_server key rows)
card-same id key f rows hk hg =
    card-update id key f (λ c. c) rows hk hg
    ∙ if_same (id == key) (on_card (λ c. c) (card_of (find_server key rows))) _
        (on_same (card_of (find_server key rows)))
  where
    on_same : (o : Option Card) → on_card (λ c. c) o ≡ o
    on_same none = refl
    on_same (some c) = refl

pub found-batch-update :
    (id key : String) (f : Batch → Batch) (rows : List Batch)
    → ((b : Batch) → (f b).batch_id ≡ b.batch_id)
    → is_some (find_batch key (update_batch id f rows)) ≡ is_some (find_batch key rows)
unfolding find_batch update_batch
found-batch-update id key f [] h = refl
found-batch-update id key f (b ∷ rest) h = ground (arith, h b, found-batch-update id key f rest h)

pub found-batch-snoc :
    (key : String) (rows : List Batch) (b : Batch)
    → is_some (find_batch key (snoc rows b))
      ≡ (if b.batch_id == key then true else is_some (find_batch key rows))
unfolding find_batch
found-batch-snoc key [] b = ground arith
found-batch-snoc key (x ∷ rest) b = ground (arith, found-batch-snoc key rest b)

-- The validator accepts what the diagram draws.
pub allows-step : (from to : Option ServerState) → allows? from to ≡ step? from to
unfolding allows?
allows-step none to = refl
allows-step (some from) none = refl
allows-step (some from) (some to) = allows-eq-edge from to

pub step_of :
    {from to : String} → NamesEdge from to → step? (server_state from) (server_state to) ≡ true
step_of {from} {to} n =
    sym (allows-step (server_state from) (server_state to))
    ∙ rw (n.from_named, n.to_named) (allows-value n.from n.to n.edge)

pub no_step_of :
    {from to : String}
    → (NamesEdge from to → ⊥)
    → step? (server_state from) (server_state to) ≡ false
no_step_of {from} {to} n = elim (Bool-cases (step? (server_state from) (server_state to))) [
  | inl e ↦ absurd (
      n (
        names_edge from to (server_state from) (server_state to) refl refl
          (allows-step (server_state from) (server_state to) ∙ e)))
  | inr e ↦ e
]

failed_only : (o : Option ServerState) → is_failed o ≡ true → o ≡ some States.failed
failed_only (some States.failed) h = refl
failed_only none h = cc
failed_only (some _) h = cc

pub is_failed_text : (text : String) → text ≡ "FAILED" → is_failed (server_state text) ≡ true
unfolding value
is_failed_text text e = ap is_failed ((server_state_iff text States.failed).1 e)

pub not_failed_text :
    (text : String) → (text ≡ "FAILED" → ⊥) → is_failed (server_state text) ≡ false
unfolding value
not_failed_text text n = elim (Bool-cases (is_failed (server_state text))) [
  | inl e ↦ absurd (n ((server_state_iff text States.failed).0 (failed_only (server_state text) e)))
  | inr e ↦ e
]
