-- ===== src/Members/NoteHistory.antt =====
-- What editing a note leaves behind.
use bcars_portal.Base.{
  ℕ, String, ◌≡◌, refl, ◌∙◌, Option, none, some, [], ◌∷◌, ◌++◌, ◌==◌, arith, find_by,
}
use bcars_portal.Base.FindLaws.{exists_by-find_by-some}
use bcars_portal.Outcome.{ok, err, stale}
use bcars_portal.Authz.{Principal, authorize, user_id_of}
use bcars_portal.Store.DirectoryRows.{Note, NoteRevision}
use bcars_portal.Store.Tx.{Db, Tx, next_id, lift, gets, one, or_stale, null_string}
use bcars_portal.Store.Autocommit.{run, >>=-ok, run-ok, run-err, run-lift, run-clock}
use bcars_portal.Store.NoteQueries.{
  get_note, create_note_revision, update_note_body, note_at, new_revision,
}
use bcars_portal.Members.Notes.{note_capability, edit_note}

-- the tables with a revision of the body before
abbrev pub revised : Option Principal → ℕ → String → Db → Note → Db
revised p id why db n = record db {
  note_revisions =
      db.note_revisions
      ++ (record {
        id = next_id (λ r. r.id) db.note_revisions;
        note_id = id;
        body = n.body;
        edited_by = user_id_of p;
        edited_at = db.clock.iso_timestamp;
        reason = null_string why;
      })
        ∷ [];
}

module _ (p : Option Principal) (id : ℕ) (why : String) (db : Db) (n : Note)
    (found : find_by (λ n. n.id == id) db.member_notes ≡ some n)
    (allowed : authorize p (note_capability n.visibility) ≡ ok tt) where
  read-ok : run (get_note id) db ≡ (ok n, db)
  unfolding get_note one
  read-ok =
      run-ok (one (λ d. find_by (λ n. n.id == id) d.member_notes)) db db n (ground (arith, found))

  abbrev revision : Tx NoteRevision
  revision = create_note_revision id n.body (user_id_of p) db.clock.iso_timestamp (null_string why)

  abbrev row : NoteRevision
  row = new_revision db id n.body (user_id_of p) db.clock.iso_timestamp (null_string why)

  revision-ok : run revision db ≡ (ok row, revised p id why db n)
  unfolding create_note_revision
  revision-ok =
      run-ok revision db (revised p id why db n) row
        (rw (exists_by-find_by-some (λ n. n.id == id) db.member_notes n found) refl)

  -- an edit is the update of the tables with the revision
  pub edit_note-revised :
      (version : ℕ) (body : String)
      → edit_note p id version body why db
        ≡ run (or_stale (update_note_body body id version)) (revised p id why db n)
  unfolding edit_note
  edit_note-revised version body =
      >>=-ok (run (get_note id)) _ db db n read-ok
      ∙ >>=-ok (run (lift (authorize p (note_capability n.visibility)))) _ db db tt
          (run-lift (authorize p (note_capability n.visibility)) db allowed)
      ∙ >>=-ok (run (gets (λ d. d.clock))) _ db db db.clock (run-clock db)
      ∙ >>=-ok (run revision) _ db (revised p id why db n) row revision-ok

update_note_body-stale :
    (body : String) (id version : ℕ) (db : Db)
    → find_by (note_at id version) db.member_notes ≡ none
    → or_stale (update_note_body body id version) db ≡ err stale
unfolding update_note_body or_stale
update_note_body-stale body id version db old = ground (arith, old)

-- An edit at a version that is not current is refused, and leaves a trace: where the note exists, the
-- caller may write it and no note has the id at the version, UpdateNote answers that the version is
-- stale and keeps the note, and has still appended a revision of the note that holds the body that
-- was not replaced, the caller, the time and the reason.
pub edit_note-stale :
    (p : Option Principal) (id version : ℕ) (body why : String) (db : Db) (n : Note)
    → find_by (λ n. n.id == id) db.member_notes ≡ some n
    → authorize p (note_capability n.visibility) ≡ ok tt
    → find_by (note_at id version) db.member_notes ≡ none
    → edit_note p id version body why db ≡ (err stale, revised p id why db n)
edit_note-stale p id version body why db n found allowed old =
    edit_note-revised p id why db n found allowed version body
    ∙ run-err (or_stale (update_note_body body id version)) (revised p id why db n) stale
        (update_note_body-stale body id version (revised p id why db n) old)
