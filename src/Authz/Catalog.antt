-- ===== src/Authz/Catalog.antt =====
-- The capability catalog of internal/domain/authz/catalog.go, entry by entry.
use bcars_portal.Base.{String, List, [], ◌∷◌}

pub record Capability : Type 0 where
  pub code : String
  pub description : String
  pub category : String
  pub ai_tool_eligibility : String

abbrev category_membership : String
category_membership = "membership"

abbrev category_treasury : String
category_treasury = "treasury"

abbrev category_audit : String
category_audit = "audit"

abbrev category_system : String
category_system = "system"

abbrev category_member : String
category_member = "member"

abbrev ai_eligibility_never : String
ai_eligibility_never = "never"

abbrev ai_eligibility_read_only : String
ai_eligibility_read_only = "read-only"

abbrev ai_eligibility_curated : String
ai_eligibility_curated = "curated"

entry : String → String → String → String → Capability
entry c g d a = record { code = c; description = d; category = g; ai_tool_eligibility = a }

-- `All`
unfoldable pub catalog : List Capability
unfolding entry
catalog =
    entry "session.self.read" category_system "Read own session and effective capabilities."
      ai_eligibility_read_only
    ∷ entry "role.grant" category_system "Grant or revoke roles and direct capabilities."
        ai_eligibility_never
    ∷ entry "user.invite" category_system "Invite a new officer or user." ai_eligibility_never
    ∷ entry "integration.config.write" category_system "Manage non-secret integration settings."
        ai_eligibility_never
    ∷ entry "system.admin" category_system "Bootstrap and low-level administrative operations."
        ai_eligibility_never
    ∷ entry "member.read" category_membership
        "Read canonical member data (server-filtered by role)." ai_eligibility_read_only
    ∷ entry "member.export" category_membership "Export member data to CSV or JSON."
        ai_eligibility_curated
    ∷ entry "member.create" category_membership "Create a person and pending membership."
        ai_eligibility_curated
    ∷ entry "member.update" category_membership "Update person fields." ai_eligibility_curated
    ∷ entry "member.deactivate" category_membership "Deactivate or reactivate a member."
        ai_eligibility_never
    ∷ entry "contact_method.write" category_membership
        "Add, edit, make-primary, or archive contact methods." ai_eligibility_curated
    ∷ entry "sharing_pref.write.officer" category_membership
        "Change directory visibility or ACS-ARES sharing prefs on behalf of a member."
        ai_eligibility_never
    ∷ entry "membership.approve" category_membership
        "Approve or reject membership applications and set the base type." ai_eligibility_never
    ∷ entry "membership.lifecycle" category_membership
        "Change membership lifecycle to inactive, resigned, or deceased." ai_eligibility_never
    ∷ entry "fcc.verify" category_membership "Record or revoke an FCC license verification."
        ai_eligibility_curated
    ∷ entry "honorary.grant" category_membership "Create, edit, expire, or revoke honorary grants."
        ai_eligibility_never
    ∷ entry "notes.write.officer" category_membership "Write officer-visibility notes."
        ai_eligibility_curated
    ∷ entry "import.upload" category_membership "Upload and stage an import file for review."
        ai_eligibility_never
    ∷ entry "import.commit" category_membership "Commit a reconciled import run to canonical data."
        ai_eligibility_never
    ∷ entry "change_request.manage" category_membership
        "Capture, list, and triage member change requests from any channel." ai_eligibility_never
    ∷ entry "change_request.review" category_membership
        "Decide and apply individual change-request items." ai_eligibility_never
    ∷ entry "member_access.manage" category_membership
        "Grant or revoke a member user access to person records." ai_eligibility_never
    ∷ entry "relationship.manage" category_membership "Maintain informational person relationships."
        ai_eligibility_never
    ∷ entry "profile.self.read" category_member
        "Read own explicitly granted safe profile and dues standing." ai_eligibility_never
    ∷ entry "change_request.submit.member" category_member
        "Submit, track, and withdraw own change requests, including a bounded suggestion about another person."
        ai_eligibility_never
    ∷ entry "directory.read" category_member
        "Attempt the member directory; eligibility is checked separately." ai_eligibility_never
    ∷ entry "notes.write.treasurer" category_treasury "Write treasurer-visibility notes."
        ai_eligibility_never
    ∷ entry "notes.read.treasurer" category_treasury "Read treasurer-visibility notes."
        ai_eligibility_never
    ∷ entry "dues.read" category_treasury "Read safe dues standing, rates, and suggestions."
        ai_eligibility_read_only
    ∷ entry "dues.rate.manage" category_treasury "Create or revise the dues rate for a year."
        ai_eligibility_never
    ∷ entry "coverage.read" category_treasury "Read the append-only paid-through coverage history."
        ai_eligibility_read_only
    ∷ entry "coverage.adjust" category_treasury "Record an independent paid-through adjustment."
        ai_eligibility_never
    ∷ entry "payment.read" category_treasury
        "Read payment detail, references, receipts, and corrections." ai_eligibility_never
    ∷ entry "payment.batch.manage" category_treasury
        "Open, edit, and abandon draft payment batches." ai_eligibility_never
    ∷ entry "payment.post" category_treasury "Post a batch or a single payment to the ledger."
        ai_eligibility_never
    ∷ entry "payment.correct" category_treasury
        "Correct a posted payment by reversal and replacement." ai_eligibility_never
    ∷ entry "payment.export" category_treasury "Export treasury records to CSV."
        ai_eligibility_never
    ∷ entry "dues.worksheet.manage" category_treasury "Generate and read renewal worksheet runs."
        ai_eligibility_never
    ∷ entry "audit.read" category_audit "Search and read audit events." ai_eligibility_read_only
    ∷ []
