-- ===== src/Batches/Correct.antt =====
-- Corrections (internal/domain/batches/correct.go): a posted payment changes only by appending a
-- reversal and a replacement.
--
-- The two loops of `effectivePayment` get as many rounds as the next payment key, which no key
-- reaches: every step backwards goes to a smaller key, every step forwards to a larger one
-- (Batches/Chain.antt).
pub mod Effect
use Prim.Native.String.{◌++◌ as ◌<>◌}
use bcars_portal.Base.{
  ℕ, zero, suc, ◌+◌, String, Bool, true, false, not, Option, none, some, List, [], ◌∷◌, ◌==◌,
  str_eq, if◌then◌else◌,
}
use bcars_portal.Base.Int.{ℤ, pos, neg}
use bcars_portal.GoText.{is_blank, format_int}
use bcars_portal.Outcome.{
  Result, ok, err, guard, reason_required, confirmation_required, idempotency_key_required, stale,
  payment_superseded, not_an_original_or_replacement, out_of_rounds,
}
use bcars_portal.Authz.{Principal, authorize, user_id_of}
use bcars_portal.Store.Rows.{
  Payment, PaymentCorrection, CoverageEvent, EntryKind, kind_reversal, kind_replacement,
  reason_correction,
}
use bcars_portal.Store.Tx.{
  Instant, Db, Tx, Action, pure, fail, gets, ◌>>=◌, ◌>>◌, in_tx, read_only, after, or_clock,
  null_string, next_id,
}
use bcars_portal.Store.BatchQueries.{get_payment_batch}
use bcars_portal.Store.LedgerQueries.{
  CreatePaymentParams, LedgerTotals, get_payment, create_payment, create_payment_correction,
  get_payment_correction_by_original, get_batch_ledger_totals,
}
use bcars_portal.Store.CoverageQueries.{
  create_coverage_event, get_effective_coverage_event, get_coverage_event_by_payment,
}
use bcars_portal.Idem.{Env, Claim, hash, begin, complete}
use bcars_portal.Batches.Input.{EntryInput, validate}
use bcars_portal.Batches.Types.{
  LedgerPayment, Coverage, Batch, payment_from_row, coverage_from_row, assemble,
}
use bcars_portal.Batches.Post.{event_id, decided}

-- OpPaymentCorrect
abbrev pub op_payment_correct : String
op_payment_correct = "payment-correct"

pub record CorrectParams : Type 0 where
  pub amount_cents : ℤ
  pub method : String
  pub reference : String
  pub received_on : String
  pub received_by_officer : String
  pub treasurer_note : String
  pub paid_through : String
  pub reason : String
  pub expected_revision : ℕ
  pub idempotency_key : String
  pub confirm : Bool

abbrev correct_input : CorrectParams → EntryInput
correct_input params = record {
  membership_id = 1;
  amount_cents = params.amount_cents;
  method = params.method;
  reference = "";
  received_on = params.received_on;
  received_by_officer = "";
  paid_through = params.paid_through;
  treasurer_note = "";
}

abbrev then_validate : Result (Unit {0}) → CorrectParams → Result (Unit {0})
then_validate (ok _) params = validate (correct_input params)
then_validate (err e) params = err e

-- `CorrectParams.validate`
unfoldable pub validate_correction : CorrectParams → Result (Unit {0})
validate_correction params =
    then_validate (guard (not (is_blank params.reason)) reason_required) params

-- the first loop of `effectivePayment`: back to the root of the chain
unfoldable pub step_back : (Payment → Tx Payment) → Payment → Option ℕ → Tx Payment
step_back next root none = pure root
step_back next root (some id) = do prev ← get_payment id; next prev

unfoldable pub walk_back : ℕ → Payment → Tx Payment
walk_back zero root = fail out_of_rounds
walk_back (suc fuel) root = step_back (walk_back fuel) root root.corrects_payment_id

-- the second loop: forward to the payment that nothing has superseded, counting corrections
unfoldable pub step_forward :
    (Payment → Tx (Payment × ℕ)) → Payment → ℕ → Option PaymentCorrection → Tx (Payment × ℕ)
step_forward next effective revision none = pure (effective, revision)
step_forward next effective revision (some c) = do
  replacement ← get_payment c.replacement_payment_id
  next replacement

unfoldable pub walk_forward : ℕ → Payment → ℕ → Tx (Payment × ℕ)
walk_forward zero effective revision = fail out_of_rounds
walk_forward (suc fuel) effective revision = do
  correction ← get_payment_correction_by_original effective.id
  step_forward (λ p. walk_forward fuel p (revision + 1)) effective revision correction

abbrev pub rounds : Db → ℕ
rounds db = next_id (λ p. p.id) db.payments

-- `effectivePayment`
unfoldable pub effective_payment : ℕ → Tx (Payment × ℕ)
effective_payment payment_id = do
  current ← get_payment payment_id
  fuel ← gets rounds
  root ← walk_back fuel current
  walk_forward fuel root 0

-- `ChainRevision`
unfoldable pub chain_revision : Option Principal → ℕ → Action ℕ
chain_revision p payment_id =
    after (authorize p "payment.read")
      (read_only (do found ← effective_payment payment_id; pure found.1))

abbrev pub reversal_params : ℕ → String → Payment → ℕ → CreatePaymentParams
reversal_params actor corrected_at effective next_revision = record {
  membership_id = effective.membership_id;
  batch_id = effective.batch_id;
  amount_cents = neg effective.amount_cents;
  method = effective.method;
  reference = effective.reference;
  received_on = effective.received_on;
  received_by_officer = effective.received_by_officer;
  entered_by = actor;
  entered_at = corrected_at;
  receipt_code = effective.receipt_code <> "-R" <> format_int (pos next_revision);
  entry_kind = kind_reversal;
  corrects_payment_id = some effective.id;
  treasurer_note = effective.treasurer_note;
}

abbrev pub replacement_params : ℕ → String → Payment → ℕ → CorrectParams → CreatePaymentParams
replacement_params actor corrected_at effective next_revision params = record {
  membership_id = effective.membership_id;
  batch_id = effective.batch_id;
  amount_cents = params.amount_cents;
  method = params.method;
  reference = null_string params.reference;
  received_on = params.received_on;
  received_by_officer = null_string params.received_by_officer;
  entered_by = actor;
  entered_at = corrected_at;
  receipt_code = effective.receipt_code <> "-C" <> format_int (pos next_revision);
  entry_kind = kind_replacement;
  corrects_payment_id = some effective.id;
  treasurer_note = null_string params.treasurer_note;
}

-- whether the payment already grants the stated date
abbrev pub same_date : Option CoverageEvent → CorrectParams → Bool
same_date none params = false
same_date (some prior) params = str_eq prior.paid_through params.paid_through

-- `adjustCoverageForCorrection`
unfoldable pub adjust_coverage_for_correction :
    ℕ → Payment → Payment → CorrectParams → String → Tx (Unit {0})
adjust_coverage_for_correction actor effective replacement params corrected_at = do
  prior ← get_coverage_event_by_payment effective.id
  if same_date prior params then pure tt else (do
    current ← get_effective_coverage_event effective.membership_id
    create_coverage_event (record {
      membership_id = effective.membership_id;
      paid_through = params.paid_through;
      reason_kind = reason_correction;
      reason = some params.reason;
      payment_id = some replacement.id;
      import_run_id = none;
      supersedes_event_id = event_id current;
      source_note = none;
      decided_by = decided actor;
      decided_at = corrected_at;
    })
    pure tt)

pub record Corrected : Type 0 where
  pub effective : LedgerPayment
  pub chain : List LedgerPayment
  pub corrections : List PaymentCorrection
  pub coverage : Option Coverage
  pub paid_through : String
  pub batch : Option Batch
  pub ledger_totals : Option LedgerTotals
  pub membership_id : ℕ

abbrev pub Links : Type 0
Links = List LedgerPayment × List PaymentCorrection

-- the last loop of `loadCorrected`: the payments and corrections after one payment
unfoldable pub collect_step : (Payment → Tx Links) → Option PaymentCorrection → Tx Links
collect_step next none = pure ([], [])
collect_step next (some c) = do
  reversal ← get_payment c.reversal_payment_id
  replacement ← get_payment c.replacement_payment_id
  rest ← next replacement
  pure (payment_from_row reversal ∷ payment_from_row replacement ∷ rest.0, c ∷ rest.1)

unfoldable pub collect : ℕ → Payment → Tx Links
collect zero current = fail out_of_rounds
collect (suc fuel) current = do
  correction ← get_payment_correction_by_original current.id
  collect_step (collect fuel) correction

abbrev pub coverage_of : Option CoverageEvent → Option Coverage
coverage_of none = none
coverage_of (some c) = some (coverage_from_row c)

abbrev pub date_of : Option CoverageEvent → String
date_of none = ""
date_of (some c) = c.paid_through

-- the batch of the payment and its ledger totals, where it has a batch
unfoldable pub batch_part : Option ℕ → Tx (Option Batch × Option LedgerTotals)
batch_part none = pure (none, none)
batch_part (some id) = do
  row ← get_payment_batch id
  batch ← assemble row true
  totals ← get_batch_ledger_totals id
  pure (some batch, some totals)

-- `loadCorrected`
unfoldable pub load_corrected : ℕ → Tx Corrected
load_corrected payment_id = do
  found ← effective_payment payment_id
  fuel ← gets rounds
  root ← walk_back fuel found.0
  links ← collect fuel root
  event ← get_coverage_event_by_payment found.0.id
  current ← get_effective_coverage_event found.0.membership_id
  part ← batch_part found.0.batch_id
  pure (record {
    effective = payment_from_row found.0;
    chain = payment_from_row root ∷ links.0;
    corrections = links.1;
    coverage = coverage_of event;
    paid_through = date_of current;
    batch = part.0;
    ledger_totals = part.1;
    membership_id = found.0.membership_id;
  })

abbrev is_reversal : EntryKind → Bool
is_reversal kind_reversal = true
is_reversal _ = false

-- the three checks on the target of a correction
unfoldable pub require_current : ℕ → ℕ → Payment → Payment → Tx (Unit {0})
require_current expected revision target effective =
    if not (revision == expected)
    then fail stale
    else if effective.id == target.id
    then pure tt
    else fail payment_superseded

unfoldable pub require_correctable : Payment → Tx (Unit {0})
require_correctable target =
    if is_reversal target.entry_kind then fail not_an_original_or_replacement else pure tt

-- steps 1 to 3: the reversal, the replacement, and the record that links them; the replacement
unfoldable pub append_correction : ℕ → String → Payment → ℕ → CorrectParams → Tx Payment
append_correction actor corrected_at effective next_revision params = do
  reversal ← create_payment (reversal_params actor corrected_at effective next_revision)
  replacement ←
      create_payment (replacement_params actor corrected_at effective next_revision params)
  create_payment_correction (record {
    original_payment_id = effective.id;
    reversal_payment_id = reversal.id;
    replacement_payment_id = replacement.id;
    reason = params.reason;
    corrected_by = actor;
    corrected_at = corrected_at;
  })
  pure replacement

-- the body of `CorrectPayment` after the claim, up to the stamp on it; the replacement
unfoldable pub correct_tx : ℕ → ℕ → CorrectParams → Option Instant → Tx Payment
correct_tx actor payment_id params now = do
  target ← get_payment payment_id
  require_correctable target
  found ← effective_payment payment_id
  require_current params.expected_revision found.1 target found.0
  t ← gets (or_clock now)
  replacement ← append_correction actor t.iso_timestamp found.0 (found.1 + 1) params
  adjust_coverage_for_correction actor found.0 replacement params t.iso_timestamp
  pure replacement

unfoldable pub correct_claimed : ℕ → ℕ → CorrectParams → Option Instant → Claim → Tx Corrected
correct_claimed actor payment_id params now claim =
    if claim.replay then load_corrected claim.resource_id else (do
      replacement ← correct_tx actor payment_id params now
      complete claim "payment" replacement.id
      load_corrected replacement.id)

abbrev correct_hash : Env → ℕ → CorrectParams → String
correct_hash env payment_id params = hash env (
    format_int (pos payment_id)
    ∷ format_int params.amount_cents
    ∷ params.method
    ∷ params.reference
    ∷ params.received_on
    ∷ params.received_by_officer
    ∷ params.paid_through
    ∷ params.treasurer_note
    ∷ params.reason
    ∷ [])

-- `CorrectPayment`
unfoldable pub correct_payment :
    Env → Option Principal → ℕ → CorrectParams → Option Instant → Action Corrected
correct_payment env p payment_id params now = after (authorize p "payment.correct") (
    after (guard params.confirm confirmation_required) (
      after (guard (not (str_eq params.idempotency_key "")) idempotency_key_required) (
        after (validate_correction params) (
          in_tx (do
            claim ←
                begin (user_id_of p) op_payment_correct params.idempotency_key
                  (correct_hash env payment_id params)
            correct_claimed (user_id_of p) payment_id params now claim)))))

-- `GetPaymentChain`
unfoldable pub get_payment_chain : Option Principal → ℕ → Action Corrected
get_payment_chain p payment_id =
    after (authorize p "payment.read") (read_only (load_corrected payment_id))

-- `LedgerTotalsFor`
unfoldable pub ledger_totals_for : Option Principal → ℕ → Action LedgerTotals
ledger_totals_for p batch_id =
    after (authorize p "payment.read") (read_only (get_batch_ledger_totals batch_id))
