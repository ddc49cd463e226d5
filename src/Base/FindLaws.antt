-- ===== src/Base/FindLaws.antt =====
-- Laws of looking rows up: what is found, and what is known to be there.
use bcars_portal.Base.{
  subst, ℕ, ◌≤◌, ◌≡◌, Bool, true, some, List, [], ◌∷◌, ◌++◌, arith, find_by, exists_by, max_of, All,
  Bool-cases, inl, inr,
}

module _ {A : Type 0} (p : A → Bool) where
  -- a row that was found has what all rows have
  pub find_by-All : (P : A → Type 0) (xs : List A) (x : A) → All P xs → find_by p xs ≡ some x → P x
  unfolding find_by
  find_by-All P [] x h e = cc e
  find_by-All P (y ∷ ys) x h e = elim (Bool-cases (p y)) [
    | inl t ↦ subst P (ground arith) h.0
    | inr f ↦ find_by-All P ys x h.1 (ground arith)
  ]

  -- a row that is known to be there is found
  pub exists_by-find_by : (xs : List A) → exists_by p xs ≡ true → (x : A) × (find_by p xs ≡ some x)
  unfolding find_by exists_by
  exists_by-find_by [] e = cc e
  exists_by-find_by (y ∷ ys) e = elim (Bool-cases (p y)) [
    | inl t ↦ (y, ground arith)
    | inr f ↦ let (x, found) = exists_by-find_by ys (ground arith) in (x, ground arith)
  ]

  -- where a row is found, one exists
  pub exists_by-find_by-some : (xs : List A) (x : A) → find_by p xs ≡ some x → exists_by p xs ≡ true
  unfolding find_by exists_by
  exists_by-find_by-some [] x e = cc e
  exists_by-find_by-some (y ∷ ys) x e = ground (arith, exists_by-find_by-some ys x)

  pub exists_by-snoc :
      (xs : List A) (x : A) → exists_by p xs ≡ true → exists_by p (xs ++ x ∷ []) ≡ true
  unfolding exists_by
  exists_by-snoc [] x e = cc e
  exists_by-snoc (y ∷ ys) x e = ground (arith, exists_by-snoc ys x)

  pub exists_by-last : (xs : List A) (x : A) → p x ≡ true → exists_by p (xs ++ x ∷ []) ≡ true
  unfolding exists_by
  exists_by-last [] x e = ground arith
  exists_by-last (y ∷ ys) x e = ground (arith, exists_by-last ys x e)

module _ {A : Type 0} (key : A → ℕ) where
  -- no key is larger than the largest
  pub find_by-max_of :
      (p : A → Bool) (xs : List A) (x : A) → find_by p xs ≡ some x → key x ≤ max_of key xs
  unfolding find_by max_of
  find_by-max_of p [] x e = cc e
  find_by-max_of p (y ∷ ys) x e = ground (arith, find_by-max_of p ys x)

module _ {A : Type 0} where
  pub All-map : (P Q : A → Type 0) → ((x : A) → P x → Q x) → (xs : List A) → All P xs → All Q xs
  All-map P Q f [] h = tt
  All-map P Q f (x ∷ xs) h = (f x h.0, All-map P Q f xs h.1)

  pub All-snoc : (P : A → Type 0) (xs : List A) (x : A) → All P xs → P x → All P (xs ++ x ∷ [])
  All-snoc P [] x h px = (px, tt)
  All-snoc P (y ∷ ys) x h px = (h.0, All-snoc P ys x h.1 px)
