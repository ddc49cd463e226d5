-- ===== src/ChangeRequests/Renaming.antt =====
-- What an approved change of a name writes.
use bcars_portal.Base.{
  ◌+◌, String, Option, none, some, Bool, true, false, not, ◌&&◌, ◌||◌, ◌==◌, ◌≡◌, refl, sym, ap,
  ◌∙◌, arith, subst, find_by, update_where,
}
use bcars_portal.GoText.{is_blank}
use bcars_portal.GoText.Text.{trim_space, trim_left, trim_right}
use bcars_portal.Outcome.{ok, guard, target_required, bad_value}
use bcars_portal.Authz.{Principal, authorize}
use bcars_portal.Idem.{Env}
use bcars_portal.Store.DirectoryRows.{Person}
use bcars_portal.Store.Tx.{Db, or_missing, lift, one, null_string, text_of}
use bcars_portal.Store.Follows.{>>=-eq-ok, pure-eq-ok}
use bcars_portal.Store.Updates.{update_row-eq-ok}
use bcars_portal.Store.Inversions.{
  lift-eq-ok, one-eq-ok, guard-eq-ok, or_missing-eq-ok, or_stale-eq-ok,
}
use bcars_portal.Store.DirectoryQueries.{
  get_person, UpdatePersonParams, update_person, updated_person, zero_or_one,
}
use bcars_portal.Members.{PersonChange, change_person, bool_to_int}
use bcars_portal.ChangeRequests.Types.{Item}
use bcars_portal.ChangeRequests.Apply.{
  ApplyResult, carried, person_change, check_target_version, apply_person_update,
}

-- UpdatePerson, where it succeeds
update_person-eq-ok :
    (arg : UpdatePersonParams) (db db' : Db) (a : Person)
    → update_person arg db ≡ ok (a, db')
    → (db' ≡ record db {
      persons =
          update_where
            (λ q. q.id == arg.id && q.version == arg.version)
            (updated_person db arg)
            db.persons;
    })
      × ((q : Person) × (find_by (λ q. q.id == arg.id && q.version == arg.version) db.persons
            ≡ some q)
          × (a ≡ updated_person db arg q))
unfolding update_person
update_person-eq-ok arg db db' a e =
    let (state, (q, found, is, checked)) =
      update_row-eq-ok (λ d. d.persons) (λ rows d. record d { persons = rows })
        (λ q. zero_or_one q.volunteer_examiner) (updated_person db arg)
        (λ q. q.id == arg.id && q.version == arg.version) db db' a (ground arith) in
    (state, (q, found, is))

-- the parameters of UPDATE that UpdatePerson gives
abbrev pub update_params : Env → PersonChange → UpdatePersonParams
update_params env c = record {
  display_name = c.display_name;
  sort_name = c.sort_name;
  call_sign = null_string c.call_sign;
  license_class = null_string (env.to_lower (trim_space c.license_class));
  volunteer_examiner = bool_to_int c.volunteer_examiner;
  id = c.id;
  version = c.version;
}

change_person-eq-ok :
    (env : Env) (p : Option Principal) (c : PersonChange) (db db' : Db) (a : Person)
    → change_person env p c db ≡ ok (a, db')
    → update_person (update_params env c) db ≡ ok (a, db')
unfolding change_person
change_person-eq-ok env p c db db' a e =
    let (u, s, e1, k) = >>=-eq-ok (lift (authorize p "member.update")) _ db db' a e in
    let (allowed, same) = lift-eq-ok (authorize p "member.update") u db s e1 in
    subst (λ d. update_person (update_params env c) d ≡ ok (a, db')) (sym same)
      (or_stale-eq-ok (update_person (update_params env c)) s db' a k)

-- the answer of applyPersonUpdate
abbrev apply_answer : Person → String → ApplyResult
apply_answer updated value = record {
  kind = "person";
  id = updated.id;
  version = updated.version;
  value = value;
}

-- the change that applyPersonUpdate writes, and where it comes from
pub record Changes (env : Env) (item : Item) (db db' : Db) (out : ApplyResult) : Type 0 where
  pub person : Person
  pub change : PersonChange × String
  pub person_found : find_by (λ q. q.id == item.target_id) db.persons ≡ some person
  pub current : check_target_version item person.version ≡ ok tt
  pub filled : is_blank item.proposed_value ≡ false
  pub read : person_change env item.operation (trim_space item.proposed_value) person ≡ ok change
  pub state : db' ≡ record db {
    persons =
        update_where
          (λ q. q.id == change.0.id && q.version == change.0.version)
          (updated_person db (update_params env change.0))
          db.persons;
  }
  pub value : out.value ≡ change.1

apply_person_update-Changes :
    (env : Env) (p : Option Principal) (item : Item) (db db' : Db) (out : ApplyResult)
    → apply_person_update env p item db ≡ ok (out, db')
    → Changes env item db db' out
unfolding apply_person_update get_person
apply_person_update-Changes env p item db db' out e =
    let (u1, s1, e1, k1) =
      >>=-eq-ok (lift (guard (not (item.target_id == 0)) target_required)) _ db db' out e in
    let (named, is1) = guard-eq-ok (not (item.target_id == 0)) target_required u1 db s1 e1 in
    let persons : Db → Option Person = λ d. find_by (λ q. q.id == item.target_id) d.persons in
    let (person, s2, e2, k2) =
      >>=-eq-ok (or_missing target_required (one persons)) _ s1 db' out k1 in
    let (found, is2) =
      one-eq-ok persons person s1 s2
        (or_missing-eq-ok target_required (one persons) s1 s2 person e2) in
    let (u3, s3, e3, k3) =
      >>=-eq-ok (lift (check_target_version item person.version)) _ s2 db' out k2 in
    let (current, is3) = lift-eq-ok (check_target_version item person.version) u3 s2 s3 e3 in
    let (u4, s4, e4, k4) =
      >>=-eq-ok (lift (guard (not (is_blank item.proposed_value)) bad_value)) _ s3 db' out k3 in
    let (filled, is4) = guard-eq-ok (not (is_blank item.proposed_value)) bad_value u4 s3 s4 e4 in
    let reading = person_change env item.operation (trim_space item.proposed_value) person in
    let (change, s5, e5, k5) = >>=-eq-ok (lift reading) _ s4 db' out k4 in
    let (read, is5) = lift-eq-ok reading change s4 s5 e5 in
    let (updated, s6, e6, k6) = >>=-eq-ok (change_person env p change.0) _ s5 db' out k5 in
    let here : s5 ≡ db = sym (is1 ∙ is2 ∙ is3 ∙ is4 ∙ is5) in
    let (state, (q, q_found, is)) =
      update_person-eq-ok (update_params env change.0) s5 s6 updated
        (change_person-eq-ok env p change.0 s5 s6 updated e6) in
    let (built, ended) = pure-eq-ok (apply_answer updated change.1) out s6 db' k6 in
    record {
      person = person;
      change = change;
      person_found = subst (λ d. persons d ≡ some person) (sym is1) found;
      current = current;
      filled = ground (arith, filled);
      read = read;
      state =
          sym ended
          ∙ subst
              (λ d. s6 ≡ record d {
                persons =
                    update_where (λ q. q.id == change.0.id && q.version == change.0.version)
                      (updated_person d (update_params env change.0)) d.persons;
              })
              here state;
      value = ap (λ r. r.value) (sym built);
    }

-- the row of a person after an approved change of the name, from the row before and the person that
-- was read
abbrev pub renamed : Env → String → Db → Person → Person → Person
renamed env name db person q = record q {
  display_name = name;
  sort_name = env.to_lower name;
  call_sign = null_string (text_of person.call_sign);
  license_class = none;
  volunteer_examiner = 0;
  version = q.version + 1;
  updated_at = db.clock.iso_timestamp;
}

-- the tables after it
pub record Renames (env : Env) (item : Item) (db db' : Db) : Type 0 where
  pub person : Person
  pub person_found : find_by (λ q. q.id == item.target_id) db.persons ≡ some person
  pub unmoved : (item.target_version == 0 || item.target_version == person.version) ≡ true
  pub filled : is_blank item.proposed_value ≡ false
  pub state : db' ≡ record db {
    persons =
        update_where
          (λ q. q.id == person.id && q.version == person.version)
          (renamed env (trim_space item.proposed_value) db person)
          db.persons;
  }

abbrev name_change : Env → String → Person → PersonChange
name_change env value person = record (carried person) {
  display_name = value;
  sort_name = env.to_lower value;
}

person_change-name :
    (env : Env) (operation value : String) (person : Person) (change : PersonChange × String)
    → operation ≡ "person.display_name.set"
    → person_change env operation value person ≡ ok change
    → name_change env value person ≡ change.0
unfolding person_change
person_change-name env operation value person change named e =
    let f : person_change env "person.display_name.set" value person ≡ ok change = rw named at e in
    cc f

blank_license :
    (env : Env) → env.to_lower "" ≡ "" → null_string (env.to_lower (trim_space "")) ≡ none
unfolding trim_space trim_left trim_right
blank_license env lower = rw lower refl

Changes-Renames :
    (env : Env) (item : Item) (db db' : Db) (out : ApplyResult)
    → item.operation ≡ "person.display_name.set"
    → env.to_lower "" ≡ ""
    → Changes env item db db' out
    → Renames env item db db'
unfolding check_target_version
Changes-Renames env item db db' out named lower c = record {
  person = c.person;
  person_found = c.person_found;
  unmoved = ground (arith, c.current);
  filled = c.filled;
  state =
      let value = trim_space item.proposed_value in
      let same_row : Person → Bool = λ q. q.id == c.person.id && q.version == c.person.version in
      subst
        (λ (l : Option String). db' ≡ record db {
          persons =
              update_where same_row
                (λ q. record (renamed env value db c.person q) { license_class = l }) db.persons;
        })
        (blank_license env lower)
        (subst
          (λ (ch : PersonChange). db' ≡ record db {
            persons =
                update_where (λ q. q.id == ch.id && q.version == ch.version)
                  (updated_person db (update_params env ch)) db.persons;
          })
          (sym (person_change-name env item.operation value c.person c.change named c.read))
          c.state);
}

-- An approved change of a name, where ToLower leaves the empty text empty, finds its person at the
-- version that the submitter saw, or at any version where none was recorded, and rewrites the row of
-- that person and nothing else: the name is the proposed value without the spaces around it, the
-- sort name its lower case, the version goes up by one, the call sign is kept, an empty one as null,
-- and the licence class and the volunteer examiner flag are blanked.
pub apply_person_update-Renames :
    (env : Env) (p : Option Principal) (item : Item) (db db' : Db) (out : ApplyResult)
    → item.operation ≡ "person.display_name.set"
    → env.to_lower "" ≡ ""
    → apply_person_update env p item db ≡ ok (out, db')
    → Renames env item db db'
apply_person_update-Renames env p item db db' out named lower e =
    Changes-Renames env item db db' out named lower
      (apply_person_update-Changes env p item db db' out e)
