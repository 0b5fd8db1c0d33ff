-- ===== src/Db/Order.antt =====
-- What ORDER BY and WHERE give: the rows that meet the conditions, each once, in order.
use migration_orchestrator_k.Prelude.{
  ◌≡◌, ◌↔◌, refl, sym, ◌∙◌, ap, subst, inl, inr, Bool, true, false, List, [], ◌∷◌, Bool-cases,
  if◌then◌else◌,
}
use mathlib.Core.List.{Memᴰ, Permᴰ}
use mathlib.Core.List.Memᴰ
use mathlib.Core.List.Permᴰ
use migration_orchestrator_k.Db.{select, insert_by, order_by}

module _ {ℓ} {A : Type ℓ} (before : A → A → Bool) where
  -- No row stands directly before one that belongs before it.
  abbrev pub Heads : A → List A → Type 0
  Heads a [] = Unit
  Heads a (b ∷ rest) = before a b ≡ true

  abbrev pub IsSorted : List A → Type 0
  IsSorted [] = Unit
  IsSorted (a ∷ rest) = Heads a rest × IsSorted rest

module _ {ℓ} {A : Type ℓ} (before : A → A → Bool)
    (total : (a b : A) → before a b ≡ false → before b a ≡ true) where
  insert-Heads :
      (a b : A) (rows : List A)
      → before b a ≡ true
      → Heads before b rows
      → Heads before b (insert_by before a rows)
  unfolding insert_by
  insert-Heads a b [] h hs = h
  insert-Heads a b (c ∷ rest) h hs = elim (Bool-cases (before a c)) [
    | inl e ↦ rw e h
    | inr e ↦ rw e hs
  ]

  insert-IsSorted :
      (a : A) (rows : List A) → IsSorted before rows → IsSorted before (insert_by before a rows)
  unfolding insert_by
  insert-IsSorted a [] s = (tt, tt)
  insert-IsSorted a (b ∷ rest) (h, s) = elim (Bool-cases (before a b)) [
    | inl e ↦ rw e (e, (h, s))
    | inr e ↦ rw e (insert-Heads a b rest (total a b e) h, insert-IsSorted a rest s)
  ]

  pub order_by-IsSorted : (rows : List A) → IsSorted before (order_by before rows)
  unfolding order_by
  order_by-IsSorted [] = tt
  order_by-IsSorted (a ∷ rest) = insert-IsSorted a (order_by before rest) (order_by-IsSorted rest)

module _ {ℓ} {A : Type ℓ} (before : A → A → Bool) where
  insert-Permᴰ : (a : A) (rows : List A) → Permᴰ (a ∷ rows) (insert_by before a rows)
  unfolding insert_by
  insert-Permᴰ a [] = Permᴰ.refl (a ∷ [])
  insert-Permᴰ a (b ∷ rest) = elim (Bool-cases (before a b)) [
    | inl e ↦ rw e (Permᴰ.refl (a ∷ b ∷ rest))
    | inr e ↦ rw e (
        Permᴰ.trans (Permᴰ.swap {a' = b} {b' = a} refl refl)
          (Permᴰ.cons refl (insert-Permᴰ a rest)))
  ]

  pub order_by-Permᴰ : (rows : List A) → Permᴰ rows (order_by before rows)
  unfolding order_by
  order_by-Permᴰ [] = Permᴰ.nil
  order_by-Permᴰ (a ∷ rest) =
      Permᴰ.trans (Permᴰ.cons refl (order_by-Permᴰ rest)) (insert-Permᴰ a (order_by before rest))

module _ {ℓ} {A : Type ℓ} where
  pub mem-Permᴰ : {a : A} {xs ys : List A} → Permᴰ xs ys → Memᴰ a xs → Memᴰ a ys
  mem-Permᴰ Permᴰ.nil m = m
  mem-Permᴰ (Permᴰ.cons e d) (Memᴰ.head h) = Memᴰ.head (h ∙ e)
  mem-Permᴰ (Permᴰ.cons e d) (Memᴰ.tail m) = Memᴰ.tail (mem-Permᴰ d m)
  mem-Permᴰ (Permᴰ.swap e e') (Memᴰ.head h) = Memᴰ.tail (Memᴰ.head (h ∙ e))
  mem-Permᴰ (Permᴰ.swap e e') (Memᴰ.tail (Memᴰ.head h)) = Memᴰ.head (h ∙ e')
  mem-Permᴰ (Permᴰ.swap e e') (Memᴰ.tail (Memᴰ.tail m)) = Memᴰ.tail (Memᴰ.tail m)
  mem-Permᴰ (Permᴰ.trans d d') m = mem-Permᴰ d' (mem-Permᴰ d m)

  select_sound :
      (p : A → Bool) (a : A) (rows : List A) → Memᴰ a (select p rows) → Memᴰ a rows × (p a ≡ true)
  unfolding select
  select_sound p a [] m = absurd (Memᴰ.not-nil m)
  select_sound p a (b ∷ rest) m = elim (Bool-cases (p b)) [
    | inl e ↦
        kept e (select_sound p a rest)
          (subst (Memᴰ a) (ap (λ t. if t then b ∷ select p rest else select p rest) e) m)
    | inr e ↦
        let (m', h) =
          select_sound p a rest
            (subst (Memᴰ a) (ap (λ t. if t then b ∷ select p rest else select p rest) e) m) in
        (Memᴰ.tail m', h)
  ]
    where
      kept :
          p b ≡ true
          → (Memᴰ a (select p rest) → Memᴰ a rest × (p a ≡ true))
          → Memᴰ a (b ∷ select p rest)
          → Memᴰ a (b ∷ rest) × (p a ≡ true)
      kept e later (Memᴰ.head h) = (Memᴰ.head h, ap p h ∙ e)
      kept e later (Memᴰ.tail m) = let (m', h) = later m in (Memᴰ.tail m', h)

  select_complete :
      (p : A → Bool) (a : A) (rows : List A) → Memᴰ a rows → p a ≡ true → Memᴰ a (select p rows)
  unfolding select
  select_complete p a [] m e = absurd (Memᴰ.not-nil m)
  select_complete p a (b ∷ rest) (Memᴰ.head h) e = rw (sym (ap p h) ∙ e) (Memᴰ.head h)
  select_complete p a (b ∷ rest) (Memᴰ.tail m) e = elim (Bool-cases (p b)) [
    | inl t ↦ rw t (Memᴰ.tail (select_complete p a rest m e))
    | inr t ↦ rw t (select_complete p a rest m e)
  ]

  -- A query gives the rows of the table that meet its condition.
  pub query_iff :
      (before : A → A → Bool) (p : A → Bool) (rows : List A) (a : A)
      → Memᴰ a (order_by before (select p rows)) ↔ Memᴰ a rows × (p a ≡ true)
  query_iff before p rows a = (
    λ m. select_sound p a rows (mem-Permᴰ (Permᴰ.symm (order_by-Permᴰ before (select p rows))) m),
    λ (m, e). mem-Permᴰ (order_by-Permᴰ before (select p rows)) (select_complete p a rows m e),
  )
