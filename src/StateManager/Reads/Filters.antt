-- ===== src/StateManager/Reads/Filters.antt =====
-- What the optional filters of list_servers and list_transitions select.
use migration_orchestrator_k.Prelude.{
  String, ◌≡◌, ◌≢◌, ◌↔◌, refl, ap, inl, inr, Option, none, some, some_inj, Bool, true, false, List,
  [], ◌∷◌, ◌++◌, ◌==◌, ◌&&◌, eq_iff, Bool-cases,
}
use migration_orchestrator_k.Db.{Server, meets}
use migration_orchestrator_k.StateManager.Batches.{in_batch, in_column}
use migration_orchestrator_k.StateManager.Queries.{given, is_null, column_is, batch_condition}

-- A filter that is given, and not empty, holds.
abbrev pub Given : Option String → (String → Type 0) → Type 0
Given none P = Unit
Given (some text) P = text ≢ "" → P text

-- 'unassigned' asks for the servers without a batch.
abbrev pub InWave : Option String → Option String → Type 0
InWave none batch_id = Unit
InWave (some wanted) batch_id =
    (wanted ≡ "unassigned" → batch_id ≡ none) × (wanted ≢ "unassigned" → batch_id ≡ some wanted)

pub one_iff : {A : Type 0} (c : A → Bool) (a : A) → (meets (c ∷ []) a ≡ true) ↔ (c a ≡ true)
unfolding meets
one_iff c a = by_test (c a)
  where
    by_test : (t : Bool) → (t && true ≡ true) ↔ (t ≡ true)
    by_test true = (λ h. h, λ h. h)
    by_test false = (λ h. h, λ h. h)

meets-append :
    {A : Type 0} (cs ds : List (A → Bool)) (a : A) → meets (cs ++ ds) a ≡ (meets cs a && meets ds a)
unfolding meets
meets-append [] ds a = refl
meets-append (c ∷ cs) ds a = elim (Bool-cases (c a)) [
  | inl e ↦ rw e (meets-append cs ds a)
  | inr e ↦ rw e refl
]

-- Conditions that are added one after the other all hold.
pub both_iff :
    {A : Type 0} (cs ds : List (A → Bool)) (a : A) {P Q : Type 0}
    → ((meets cs a ≡ true) ↔ P)
    → ((meets ds a ≡ true) ↔ Q)
    → (meets (cs ++ ds) a ≡ true) ↔ P × Q
both_iff cs ds a (there, back) (there', back') = rw (meets-append cs ds a) (
  λ h. (there (left (meets cs a) h), there' (right (meets cs a) h)),
  λ (p, q). rw (back p) (back' q),
)
  where
    left : (t : Bool) → (t && meets ds a) ≡ true → t ≡ true
    left true h = refl
    left false h = h

    right : (t : Bool) → (t && meets ds a) ≡ true → meets ds a ≡ true
    right true h = h
    right false h = cc

pub given_iff :
    {A : Type 0} (o : Option String) (c : String → A → Bool) (a : A) (P : String → Type 0)
    → ((text : String) → (c text a ≡ true) ↔ P text)
    → (meets (given o c) a ≡ true) ↔ Given o P
given_iff none c a P h = unfold meets in (λ e. tt, λ u. refl)
given_iff (some text) c a P h = elim (Bool-cases (text == "")) [
  | inl e ↦ rw e (unfold meets in (λ u n. absurd (n ((eq_iff text "").0 e)), λ u. refl))
  | inr e ↦ rw e (
    λ m n. (h text).0 ((one_iff (c text) a).0 m),
    λ f. (one_iff (c text) a).1 ((h text).1 (f (λ q. cc (e, (eq_iff text "").1 q)))),
  )
]

null_iff : (o : Option String) → (is_null o ≡ true) ↔ (o ≡ none)
null_iff none = (λ e. refl, λ e. refl)
null_iff (some s) = (λ e. cc, λ e. cc)

pub column_iff : (o : Option String) (text : String) → (column_is o text ≡ true) ↔ (o ≡ some text)
column_iff none text = (λ e. cc, λ e. cc)
column_iff (some s) text =
    (λ e. ap some ((eq_iff s text).0 e), λ e. (eq_iff s text).1 (some_inj.0 e))

pub in_column_iff :
    (o : Option String) (text : String) → (in_column o text ≡ true) ↔ (o ≡ some text)
in_column_iff none text = (λ e. cc, λ e. cc)
in_column_iff (some s) text = column_iff (some s) text

pub batch_iff :
    (o : Option String) (r : Server) → (meets (batch_condition o) r ≡ true) ↔ InWave o r.batch_id
batch_iff none r = unfold meets in (λ e. tt, λ u. refl)
batch_iff (some wanted) r = elim (Bool-cases (wanted == "unassigned")) [
  | inl e ↦ rw e (
    λ m. (
      λ q. (null_iff r.batch_id).0 ((one_iff (λ (r : Server). is_null r.batch_id) r).0 m),
      λ n. absurd (n ((eq_iff wanted "unassigned").0 e)),
    ),
    λ (f, g).
        (one_iff (λ (r : Server). is_null r.batch_id) r).1
          ((null_iff r.batch_id).1 (f ((eq_iff wanted "unassigned").0 e))),
  )
  | inr e ↦ rw e (
    λ m. (
      λ q. cc (e, (eq_iff wanted "unassigned").1 q),
      λ n. (in_column_iff r.batch_id wanted).0 ((one_iff (in_batch wanted) r).0 m),
    ),
    λ (f, g).
        (one_iff (in_batch wanted) r).1
          ((in_column_iff r.batch_id wanted).1 (g (λ q. cc (e, (eq_iff wanted "unassigned").1 q)))),
  )
]
