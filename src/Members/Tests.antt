-- ===== src/Members/Tests.antt =====
-- A note edited at an old version, and a membership approved after its member resigned.
use bcars_portal.Base.{◌≡◌, refl, some, [], ◌∷◌, Option, find_by}
use bcars_portal.Authz.{Principal, authorize, by_code}
use bcars_portal.Outcome.{ok, err, stale}
use bcars_portal.Store.Rows.{Membership}
use bcars_portal.Store.DirectoryRows.{Note}
use bcars_portal.Store.Tx.{Db}
use bcars_portal.Members.Notes.{edit_note}
use bcars_portal.Members.NoteHistory.{revised, edit_note-stale}
use bcars_portal.Members.Standing.{approve}
use bcars_portal.Members.Approval.{approved_row, approved_tables, approve-any}
use bcars_portal.Batches.Example.{start, noon}

abbrev president : Option Principal
president =
    some (record { user_id = 3; capabilities = "membership.approve" ∷ "notes.write.officer" ∷ [] })

abbrev resigned : Membership
resigned = record {
  id = 4;
  person_id = 5;
  base_type = "full";
  lifecycle = "resigned";
  joined_on = some "2020-01-01";
  ended_on = some "2025-06-30";
  created_at = "";
  updated_at = "";
  version = 6;
}

abbrev greeting : Note
greeting = record {
  id = 2;
  subject_kind = "person";
  subject_id = 5;
  category = "general";
  visibility = "officer";
  body = "Hello";
  author_id = 3;
  source = "officer";
  created_at = "";
  updated_at = "";
  version = 4;
}

abbrev office : Db
office = record start { memberships = resigned ∷ []; member_notes = greeting ∷ [] }

edit_note-stale_example :
    edit_note president 2 3 "Hi" "" office ≡ (err stale, revised president 2 "" office greeting)
unfolding find_by authorize by_code
edit_note-stale_example = edit_note-stale president 2 3 "Hi" "" office greeting refl refl refl

approve-any_example :
    approve president 4 6 "full" "back" office
    ≡ (ok (approved_row "full" noon resigned), approved_tables president 4 6 "full" "back" office)
unfolding find_by authorize by_code
approve-any_example = approve-any president 4 6 "full" "back" office resigned refl refl
