-- ===== src/Base/ListLaws.antt =====
-- Laws of the table operations: appended rows, sums and counts, and the sort.
use Prim.Native.Nat.{max}
use bcars_portal.Base.{
  ℕ, ◌≡◌, refl, ap, ◌∙◌, Bool, true, some, List, [], ◌∷◌, ◌++◌, arith, find_by, select, insert_by,
  order_by, max_of, Bool-cases, inl, inr,
}

module _ {A : Type 0} (key : A → ℕ) where
  pub max_of-snoc : (xs : List A) (x : A) → max_of key (xs ++ x ∷ []) ≡ max (max_of key xs) (key x)
  unfolding max_of
  max_of-snoc [] x = omega arith
  max_of-snoc (y ∷ xs) x = omega (arith, max_of-snoc xs x)

module _ {A : Type 0} (p : A → Bool) where
  pub select-append : (xs ys : List A) → select p (xs ++ ys) ≡ select p xs ++ select p ys
  unfolding select
  select-append [] ys = refl
  select-append (x ∷ xs) ys = ground (arith, select-append xs ys)

-- A total over the rows that does not look at their order.
module _ {A B : Type 0} (f : A → B) (◌⊕◌ : B → B → B) (unit : B) where
  abbrev pub fold : List A → B
  fold [] = unit
  fold (x ∷ xs) = ◌⊕◌ (f x) (fold xs)

  module _ (swap : (a b c : B) → ◌⊕◌ a (◌⊕◌ b c) ≡ ◌⊕◌ b (◌⊕◌ a c)) (before : A → A → Bool) where
    fold-insert_by : (x : A) (xs : List A) → fold (insert_by before x xs) ≡ ◌⊕◌ (f x) (fold xs)
    unfolding insert_by
    fold-insert_by x [] = refl
    fold-insert_by x (y ∷ ys) = elim (Bool-cases (before y x)) [
      | inl e ↦ rw e (ap (◌⊕◌ (f y)) (fold-insert_by x ys) ∙ swap (f y) (f x) (fold ys))
      | inr e ↦ rw e refl
    ]

    pub fold-order_by : (xs : List A) → fold (order_by before xs) ≡ fold xs
    unfolding order_by
    fold-order_by [] = refl
    fold-order_by (x ∷ xs) =
        fold-insert_by x (order_by before xs) ∙ ap (◌⊕◌ (f x)) (fold-order_by xs)

module _ {A : Type 0} (p : A → Bool) where
  -- a row that was found passes the test
  pub find_by-true : (xs : List A) (x : A) → find_by p xs ≡ some x → p x ≡ true
  unfolding find_by
  find_by-true [] x e = cc
  find_by-true (y ∷ ys) x e = ground (arith, find_by-true ys x)
