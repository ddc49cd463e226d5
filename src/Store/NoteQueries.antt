-- ===== src/Store/NoteQueries.antt =====
-- internal/db/sqlc/notes.sql.go: notes and their revisions.
use bcars_portal.Base.{
  ℕ, ◌+◌, String, Bool, true, ◌&&◌, Option, [], ◌∷◌, ◌++◌, ◌==◌, find_by, exists_by, if◌then◌else◌,
}
use bcars_portal.Outcome.{ok, err, foreign_key_failed}
use bcars_portal.Store.Tx.{Db, Tx, one, next_id, update_row}
use bcars_portal.Store.DirectoryRows.{Note, NoteRevision}

pub record CreateNoteParams : Type 0 where
  pub subject_kind : String
  pub subject_id : ℕ
  pub category : String
  pub visibility : String
  pub body : String
  pub author_id : ℕ
  pub source : String

abbrev pub new_note : Db → CreateNoteParams → Note
new_note db arg = record {
  id = next_id (λ n. n.id) db.member_notes;
  subject_kind = arg.subject_kind;
  subject_id = arg.subject_id;
  category = arg.category;
  visibility = arg.visibility;
  body = arg.body;
  author_id = arg.author_id;
  source = arg.source;
  created_at = db.clock.iso_timestamp;
  updated_at = db.clock.iso_timestamp;
  version = 1;
}

-- CreateNote
unfoldable pub create_note : CreateNoteParams → Tx Note
create_note arg db =
    ok (new_note db arg, record db { member_notes = db.member_notes ++ new_note db arg ∷ [] })

-- GetNote
unfoldable pub get_note : ℕ → Tx Note
get_note id = one (λ db. find_by (λ n. n.id == id) db.member_notes)

abbrev pub new_revision : Db → ℕ → String → ℕ → String → Option String → NoteRevision
new_revision db note_id body edited_by edited_at reason = record {
  id = next_id (λ r. r.id) db.note_revisions;
  note_id = note_id;
  body = body;
  edited_by = edited_by;
  edited_at = edited_at;
  reason = reason;
}

-- CreateNoteRevision
unfoldable pub create_note_revision : ℕ → String → ℕ → String → Option String → Tx NoteRevision
create_note_revision note_id body edited_by edited_at reason db =
    if exists_by (λ n. n.id == note_id) db.member_notes
    then ok (
      new_revision db note_id body edited_by edited_at reason,
      record db {
        note_revisions =
            db.note_revisions ++ new_revision db note_id body edited_by edited_at reason ∷ [];
      },
    )
    else err foreign_key_failed

abbrev pub note_at : ℕ → ℕ → Note → Bool
note_at id version n = n.id == id && n.version == version

-- UpdateNote
unfoldable pub update_note_body : String → ℕ → ℕ → Tx Note
unfolding update_row
update_note_body body id version db =
    update_row (λ d. d.member_notes) (λ rows d. record d { member_notes = rows }) (λ n. true)
      (λ n. record n { body = body; version = n.version + 1; updated_at = db.clock.iso_timestamp })
      (note_at id version) db
