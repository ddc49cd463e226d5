-- ===== src/Batches/TotalLaws.antt =====
-- The totals of a draft, taken apart by method.
use bcars_portal.Base.{
  ◌+◌, String, ◌≡◌, ◌∙◌, ap₂, true, List, [], ◌∷◌, All, arith, str_eq, eq_iff, length,
  if◌then◌else◌,
}
use bcars_portal.Base.Int.{ℤ, pos, ◌+ℤ◌, int_laws}
use bcars_portal.Store.Rows.{PaymentBatchEntry}
use bcars_portal.Store.EntryQueries.{
  is_method, method_cash, method_check, method_other, sum_cents, sum_method, count_method,
  totals_of,
}

-- a method that the code accepts counts under exactly one name
method_once :
    (m : String)
    → is_method m ≡ true
    → (if str_eq m method_cash then 1 else 0)
        + (if str_eq m method_check then 1 else 0)
        + (if str_eq m method_other then 1 else 0)
      ≡ 1
unfolding is_method
method_once m h = ground (
  arith,
  eq_iff m "cash",
  eq_iff m "check",
  eq_iff m "other",
  eq_iff "cash" "check",
  eq_iff "cash" "other",
  eq_iff "check" "other",
)

-- the amount of an accepted method goes into exactly one of the three sums
amount_once :
    (m : String) (c : ℤ)
    → is_method m ≡ true
    → (if str_eq m method_cash then c else pos 0)
        +ℤ (if str_eq m method_check then c else pos 0)
        +ℤ (if str_eq m method_other then c else pos 0)
      ≡ c
unfolding is_method ◌+ℤ◌
amount_once m c h = ground (
  arith,
  eq_iff m "cash",
  eq_iff m "check",
  eq_iff m "other",
  eq_iff "cash" "check",
  eq_iff "cash" "other",
  eq_iff "check" "other",
)

regroup : (a b c x y z : ℤ) → (a +ℤ x) +ℤ (b +ℤ y) +ℤ (c +ℤ z) ≡ (a +ℤ b +ℤ c) +ℤ (x +ℤ y +ℤ z)
regroup a b c x y z = omega int_laws

module _ {A : Type 0} (amount : A → ℤ) (method : A → String) where
  pub sum_methods :
      (xs : List A)
      → All (λ x. is_method (method x) ≡ true) xs
      → sum_method amount method method_cash xs
          +ℤ sum_method amount method method_check xs
          +ℤ sum_method amount method method_other xs
        ≡ sum_cents amount xs
  unfolding sum_method sum_cents
  sum_methods [] h = omega int_laws
  sum_methods (x ∷ xs) h =
      regroup _ _ _ _ _ _ ∙ ap₂ ◌+ℤ◌ (amount_once (method x) (amount x) h.0) (sum_methods xs h.1)

  pub count_methods :
      (xs : List A)
      → All (λ x. is_method (method x) ≡ true) xs
      → count_method method method_cash xs
          + count_method method method_check xs
          + count_method method method_other xs
        ≡ length xs
  unfolding count_method
  count_methods [] h = omega arith
  count_methods (x ∷ xs) h = omega (arith, method_once (method x) h.0, count_methods xs h.1)

-- Where every row has one of the three methods, the counts of the methods add up to the number of
-- rows, and their sums to the net total.
pub totals_add_up :
    (es : List PaymentBatchEntry)
    → All (λ e. is_method e.method ≡ true) es
    → let t = totals_of es in
      (t.cash_count + t.check_count + t.other_count ≡ t.entry_count)
      × (t.cash_total_cents +ℤ t.check_total_cents +ℤ t.other_total_cents ≡ t.net_total_cents)
unfolding totals_of
totals_add_up es h = (
  count_methods (λ (e : PaymentBatchEntry). e.amount_cents) (λ (e : PaymentBatchEntry). e.method) es
      h,
  sum_methods (λ (e : PaymentBatchEntry). e.amount_cents) (λ (e : PaymentBatchEntry). e.method) es
      h,
)
