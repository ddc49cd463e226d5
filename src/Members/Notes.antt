-- ===== src/Members/Notes.antt =====
-- internal/domain/members/service.go: notes. No transaction is opened: each statement commits by
-- itself.
use bcars_portal.Base.{ℕ, String, Option, str_eq, if◌then◌else◌}
use bcars_portal.Authz.{Principal, authorize, user_id_of}
use bcars_portal.Store.Tx.{Action, lift, gets, or_stale, null_string}
use bcars_portal.Store.Autocommit.{run, ◌>>=◌, ◌>>◌}
use bcars_portal.Store.DirectoryRows.{Note}
use bcars_portal.Store.NoteQueries.{create_note, get_note, create_note_revision, update_note_body}

-- `CreateNoteParams`
pub record NoteAddition : Type 0 where
  pub subject_kind : String
  pub subject_id : ℕ
  pub category : String
  pub visibility : String
  pub body : String

-- the capability that writing a note of a visibility needs
abbrev pub note_capability : String → String
note_capability visibility =
    if str_eq visibility "treasurer" then "notes.write.treasurer" else "notes.write.officer"

-- `CreateNote`
unfoldable pub add_note : Option Principal → NoteAddition → Action Note
add_note p params = do
  run (lift (authorize p (note_capability params.visibility)))
  run (
      create_note (record {
        subject_kind = params.subject_kind;
        subject_id = params.subject_id;
        category = params.category;
        visibility = params.visibility;
        body = params.body;
        author_id = user_id_of p;
        source = "officer";
      }))

-- `UpdateNote`
unfoldable pub edit_note : Option Principal → ℕ → ℕ → String → String → Action Note
edit_note p id version body edit_reason = do
  existing ← run (get_note id)
  run (lift (authorize p (note_capability existing.visibility)))
  now ← run (gets (λ db. db.clock))
  run (
      create_note_revision id existing.body (user_id_of p) now.iso_timestamp
        (null_string edit_reason))
  run (or_stale (update_note_body body id version))
