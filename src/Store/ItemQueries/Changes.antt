-- ===== src/Store/ItemQueries/Changes.antt =====
-- What a statement on the items that succeeds has done to them.
use bcars_portal.Base.{◌≡◌, some, [], ◌∷◌, ◌++◌, arith, find_by, update_where}
use bcars_portal.Outcome.{ok}
use bcars_portal.Store.DirectoryRows.{ChangeRequestItem}
use bcars_portal.Store.Tx.{Db}
use bcars_portal.Store.Updates.{update_row-eq-ok}
use bcars_portal.Store.ItemQueries.{
  set_items, item_checks, CreateChangeRequestItemParams, create_change_request_item, new_item,
  item_open_at, DecideChangeRequestItemParams, decide_change_request_item, decided_item,
  MarkChangeRequestItemAppliedParams, mark_change_request_item_applied, marked_item, item_to_mark,
}

pub create_change_request_item-eq-ok :
    (arg : CreateChangeRequestItemParams) (db db' : Db) (a : ChangeRequestItem)
    → create_change_request_item arg db ≡ ok (a, db')
    → (a ≡ new_item db arg)
      × (db'.change_request_items ≡ db.change_request_items ++ new_item db arg ∷ [])
unfolding create_change_request_item
create_change_request_item-eq-ok arg db db' a e = (ground arith, ground arith)

pub decide_change_request_item-eq-ok :
    (arg : DecideChangeRequestItemParams) (db db' : Db) (a : ChangeRequestItem)
    → decide_change_request_item arg db ≡ ok (a, db')
    → (db' ≡ record db {
      change_request_items =
          update_where
            (item_open_at arg.id arg.version)
            (decided_item db arg)
            db.change_request_items;
    })
      × ((x : ChangeRequestItem) × (find_by
              (item_open_at arg.id arg.version)
              db.change_request_items
            ≡ some x)
          × (a ≡ decided_item db arg x))
unfolding decide_change_request_item
decide_change_request_item-eq-ok arg db db' a e =
    let (state, (x, found, is, checked)) =
      update_row-eq-ok (λ d. d.change_request_items) set_items item_checks (decided_item db arg)
        (item_open_at arg.id arg.version) db db' a e in
    (state, (x, found, is))

pub mark_change_request_item_applied-eq-ok :
    (arg : MarkChangeRequestItemAppliedParams) (db db' : Db) (a : ChangeRequestItem)
    → mark_change_request_item_applied arg db ≡ ok (a, db')
    → (db' ≡ record db {
      change_request_items =
          update_where (item_to_mark arg) (marked_item db arg) db.change_request_items;
    })
      × ((x : ChangeRequestItem) × (find_by (item_to_mark arg) db.change_request_items ≡ some x)
          × (a ≡ marked_item db arg x))
unfolding mark_change_request_item_applied
mark_change_request_item_applied-eq-ok arg db db' a e =
    let (state, (x, found, is, checked)) =
      update_row-eq-ok (λ d. d.change_request_items) set_items item_checks (marked_item db arg)
        (item_to_mark arg) db db' a e in
    (state, (x, found, is))
