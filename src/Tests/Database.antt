-- ===== src/Tests/Database.antt =====
-- The theorems on db.go for a server that keeps its rows in the maps of a memory storage.
use shortener.Base.{
  String, Bool, true, ◌==◌, ◌≡◌, ◌≢◌, refl, sym, ap, ◌∙◌, Option, none, some, List, [], ◌∷◌,
  if◌then◌else◌, arith, Option-cases, inl, inr,
}
use mathlib.Core.Option
use shortener.Base.Dict.{lookup, lookup-insert}
use shortener.Errors.{message, Result, ok, err}
use shortener.Repository.{Row, UrlInfo}
use shortener.Repository.Memory.{
  MemStorage, new_mem_storage, new_info, store_row, delete_batch, mark_all_deleted, mem_storage,
}
use shortener.Repository.Memory.Indexed.{IsIndexed, IsIndexed-new, store_row-IsIndexed}
use shortener.Repository.Memory.Deletion.{
  delete_batch-IsIndexed, lookup-mark_all_deleted, marked, contains,
}
use shortener.Repository.Requests.{Request, replies}
use shortener.Repository.Database.{Sql, Argument, text_value, text_array, db_storage}
use shortener.Repository.Database.Refines.{Postgres, AlikeReplies, replies-db_storage}
use shortener.Tests.{anyone, row_a, visit}

-- rows that the constraints of the table allow
abbrev Table : Type 0
Table = (m : MemStorage) × IsIndexed m

abbrev entry_of : Table → String → Option UrlInfo
entry_of t id = lookup id t.0.entries

insert_fresh :
    (item : Row) (t : Table)
    → lookup item.original_url t.0.url_to_id ≡ none
    → (o : Option UrlInfo) → lookup item.id t.0.entries ≡ o
    → Result String × Table
insert_fresh item (m, h) new (some old) taken = (err (message "duplicate key"), (m, h))
insert_fresh item (m, h) new none fresh =
    (ok item.id, (store_row item m, store_row-IsIndexed item m h fresh new))

insert_or_find :
    (item : Row) (t : Table) (o : Option String)
    → lookup item.original_url t.0.url_to_id ≡ o
    → Result String × Table
unfolding insert_fresh
insert_or_find item t (some id) known = (ok id, t)
insert_or_find item t none new = insert_fresh item t new (lookup item.id t.0.entries) refl

abbrev insert_values : List Argument → Table → Result String × Table
insert_values (text_value id ∷ text_value url ∷ text_value user ∷ []) t =
    let item : Row = record { id = id; original_url = url; user_id = user } in
    insert_or_find item t (lookup url t.0.url_to_id) refl
insert_values _ t = (err (message "syntax error"), t)

abbrev selected : Table → Option UrlInfo → Result (String × Bool) × Table
selected t none = (err (message "no rows"), t)
selected t (some info) = (ok (info.original_url, info.deleted), t)

abbrev select_values : List Argument → Table → Result (String × Bool) × Table
select_values (text_value id ∷ []) t = selected t (entry_of t id)
select_values _ t = (err (message "syntax error"), t)

abbrev update_values : List Argument → Table → Result (Unit {0}) × Table
update_values (text_value user ∷ text_array ids ∷ []) (m, h) =
    (ok tt, ((delete_batch anyone user ids m).1, delete_batch-IsIndexed anyone user ids m h))
update_values _ t = (err (message "syntax error"), t)

abbrev server : Sql
server = record {
  State = Table;
  ping_context = λ ctx t. (ok tt, t);
  query_text = λ ctx query args t. insert_values args t;
  query_entry = λ ctx query args t. select_values args t;
  query_number = λ ctx query args t. (ok 0, t);
  query_rows = λ ctx query args t. (ok (none, []), t);
  exec = λ ctx query args t. update_values args t;
  begin = λ ctx t. (ok tt, t);
  commit = λ t. (ok tt, t);
  rollback = λ t. t;
  is_no_rows = λ e. true;
  decimal = λ n. "n";
}

insert_or_find-known :
    (item : Row) (t : Table) (o : Option String) (e : lookup item.original_url t.0.url_to_id ≡ o)
    (id : String)
    → o ≡ some id
    → ((insert_or_find item t o e).0 ≡ ok id)
      × ((j : String) → entry_of (insert_or_find item t o e).1 j ≡ entry_of t j)
unfolding insert_or_find
insert_or_find-known item t (some id') e id h = (ground arith, λ j. refl)
insert_or_find-known item t none e id h = absurd (ground arith)

insert_fresh-new :
    (item : Row) (t : Table) (new : lookup item.original_url t.0.url_to_id ≡ none)
    (o : Option UrlInfo) (e : lookup item.id t.0.entries ≡ o)
    → o ≡ none
    → ((insert_fresh item t new o e).0 ≡ ok item.id)
      × ((j : String)
          → entry_of (insert_fresh item t new o e).1 j
            ≡ (if item.id == j then some (new_info item) else entry_of t j))
unfolding insert_fresh store_row
insert_fresh-new item (m, h) new (some old) e none_there = absurd (ground arith)
insert_fresh-new item (m, h) new none e none_there =
    (refl, λ j. lookup-insert item.id j (new_info item) m.entries)

insert_or_find-new :
    (item : Row) (t : Table) (o : Option String) (e : lookup item.original_url t.0.url_to_id ≡ o)
    → o ≡ none
    → entry_of t item.id ≡ none
    → ((insert_or_find item t o e).0 ≡ ok item.id)
      × ((j : String)
          → entry_of (insert_or_find item t o e).1 j
            ≡ (if item.id == j then some (new_info item) else entry_of t j))
unfolding insert_or_find
insert_or_find-new item t (some id) e none_there fresh = absurd (ground arith)
insert_or_find-new item t none e none_there fresh =
    insert_fresh-new item t e (lookup item.id t.0.entries) refl fresh

no_url :
    (t : Table) (url : String)
    → ((id : String) (old : UrlInfo) → entry_of t id ≡ some old → old.original_url ≢ url)
    → lookup url t.0.url_to_id ≡ none
no_url (m, h) url free = elim (Option-cases (lookup url m.url_to_id)) [
  | inl unknown ↦ unknown
  | inr (id, known) ↦
      let (info, held, same) = h.stored url id known in absurd (free id info held same)
]

select-some :
    (id : String) (info : UrlInfo) (t : Table)
    → entry_of t id ≡ some info
    → (select_values (text_value id ∷ []) t).0 ≡ ok (info.original_url, info.deleted)
select-some id info t found = ap (λ (o : Option UrlInfo). (selected t o).0) found

select-table :
    (id : String) (t : Table) (j : String)
    → entry_of (select_values (text_value id ∷ []) t).1 j ≡ entry_of t j
select-table id t j = elim (Option-cases (entry_of t id)) [
  | inl missing ↦ ap (λ (o : Option UrlInfo). entry_of (selected t o).1 j) missing
  | inr (info, found) ↦ ap (λ (o : Option UrlInfo). entry_of (selected t o).1 j) found
]

update-table :
    (user : String) (ids : List String) (t : Table) (j : String)
    → entry_of (update_values (text_value user ∷ text_array ids ∷ []) t).1 j
      ≡ Option.map (marked user (contains ids j)) (entry_of t j)
unfolding delete_batch mark_all_deleted
update-table user [] (m, h) j = lookup-mark_all_deleted user [] j m.entries
update-table user (id ∷ ids) (m, h) j = lookup-mark_all_deleted user (id ∷ ids) j m.entries

abbrev postgres : Postgres server
postgres = record {
  table = entry_of;
  insert_conflict = λ ctx info id old t live takes held same.
      insert_or_find-known info t (lookup info.original_url t.0.url_to_id) refl id
        (ap (λ (u : String). lookup u t.0.url_to_id) (sym same) ∙ t.1.indexed id old held);
  insert_row = λ ctx info t live takes fresh free.
      insert_or_find-new info t (lookup info.original_url t.0.url_to_id) refl
        (no_url t info.original_url free) fresh;
  select_row = λ ctx id info t live text found. (select-some id info t found, select-table id t);
  select_none = λ ctx id t live text missing. (
    (message "no rows", ap (λ (o : Option UrlInfo). (selected t o).0) missing, refl),
    select-table id t,
  );
  update_rows = λ ctx user ids t live text texts. (refl, update-table user ids t);
}

abbrev empty_table : Table
empty_table = (new_mem_storage, IsIndexed-new)

abbrev requests : List Request
requests =
    Request.add anyone row_a
    ∷ Request.delete_batch anyone "anna" ("AA" ∷ [])
    ∷ Request.get anyone "AA"
    ∷ []

replies-db_storage_example :
    AlikeReplies server postgres
      (replies (db_storage server) requests empty_table)
      (replies (mem_storage visit) requests new_mem_storage)
unfolding lookup
replies-db_storage_example =
    replies-db_storage server postgres visit requests empty_table new_mem_storage (λ id. refl)
      IsIndexed-new (refl, (tt, (tt, tt)))
      (
        (refl, (refl, omega arith, refl, omega arith, refl, omega arith)),
        ((refl, refl, (refl, tt)), ((refl, refl), tt)),
      )
