-- ===== src/RateLimit/Order.antt =====
-- The order of texts, and counts over rows.
use bcars_portal.Base.{
  ◌+◌, ◌≤◌, String, ◌≡◌, refl, Bool, true, false, List, [], ◌∷◌, ◌++◌, arith, select, length,
  if◌then◌else◌,
}
use bcars_portal.GoText.{text_ltb}

-- `≥` on texts is transitive
pub text_ge_trans :
    (a b c : String) → text_ltb a b ≡ false → text_ltb b c ≡ false → text_ltb a c ≡ false
unfolding text_ltb
text_ge_trans String.[] String.[] c h k = k
text_ge_trans String.[] (String.◌∷◌ y b) c h k = cc h
text_ge_trans (String.◌∷◌ x a) b String.[] h k = refl
text_ge_trans (String.◌∷◌ x a) String.[] (String.◌∷◌ z c) h k = cc k
text_ge_trans (String.◌∷◌ x a) (String.◌∷◌ y b) (String.◌∷◌ z c) h k =
    ground (arith, text_ge_trans a b c)

module _ {A : Type 0} where
  -- a stronger test passes no more rows
  pub length-select-≤ :
      (p q : A → Bool)
      → ((x : A) → p x ≡ true → q x ≡ true)
      → (xs : List A) → length (select p xs) ≤ length (select q xs)
  unfolding select
  length-select-≤ p q h [] = omega arith
  length-select-≤ p q h (x ∷ xs) = ground (arith, length-select-≤ p q h xs, h x)

  pub length-select-snoc :
      (p : A → Bool) (xs : List A) (x : A)
      → length (select p (xs ++ x ∷ [])) ≡ length (select p xs) + (if p x then 1 else 0)
  unfolding select
  length-select-snoc p [] x = ground arith
  length-select-snoc p (y ∷ xs) x = ground (arith, length-select-snoc p xs x)
