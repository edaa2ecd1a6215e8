-- ===== src/Repository/Database.antt =====
-- internal/repository/db.go: the storage on PostgreSQL. The package database/sql with the driver and
-- the server is a parameter, which is given the texts of the queries and their arguments.
pub mod Texts
pub mod Inserts
pub mod Refines
use shortener.Base.{
  ℕ, ◌+◌, ◌*◌, String, Bool, true, false, ◌==◌, Option, none, some, List, [], ◌∷◌, ◌++◌,
  if◌then◌else◌, nat_eq,
}
use shortener.Errors.{
  Error, sentinel, already_exists, message, wrapped, followed, not_found, gone, Result, ok, err,
}
use shortener.Models.{Statistics}
use shortener.Context.{Context, unless_done}
use shortener.Base.Text.{◌+s◌}
use shortener.Repository.{Row, UserUrl, Storage}

-- an argument of a query: a text, or pq.Array of texts
pub data Argument : Type 0 where
  text_value : String → Argument
  text_array : List String → Argument

-- database/sql: each method with the server's state; the values of a row are those that Scan stores
pub record Sql : Type 1 where
  pub State : Type 0
  pub ping_context : Context → State → Result (Unit {0}) × State
  -- QueryRowContext and Scan into a text, a text and a Boolean, or a number
  pub query_text : Context → String → List Argument → State → Result String × State
  pub query_entry : Context → String → List Argument → State → Result (String × Bool) × State
  pub query_number : Context → String → List Argument → State → Result ℕ × State
  -- QueryContext: the rows, each the outcome of its Scan into two texts, and rows.Err() before them
  pub query_rows :
      Context
      → String
      → List Argument
      → State
      → Result (Option Error × List (Result (String × String))) × State
  pub exec : Context → String → List Argument → State → Result (Unit {0}) × State
  pub begin : Context → State → Result (Unit {0}) × State
  pub commit : State → Result (Unit {0}) × State
  pub rollback : State → State
  -- errors.Is(err, sql.ErrNoRows)
  pub is_no_rows : Error → Bool
  -- %d of package fmt
  pub decimal : ℕ → String

abbrev pub add_query : String
add_query =
    "--sql\n\t\tINSERT INTO urls (id, original_url, user_id, is_deleted)\n\t\tVALUES ($1, $2, $3, false)\n\t\tON CONFLICT (original_url) DO UPDATE\n\t\tSET original_url = EXCLUDED.original_url\n\t\tRETURNING id\n\t"

abbrev pub get_query : String
get_query = "SELECT original_url, is_deleted FROM urls WHERE id = $1"

abbrev pub list_query : String
list_query = "SELECT id, original_url FROM urls WHERE user_id = $1 AND is_deleted = false"

abbrev pub delete_query : String
delete_query = "UPDATE urls SET is_deleted = true WHERE user_id = $1 AND id = ANY($2)"

abbrev pub count_query : String
count_query = "SELECT COUNT(*) FROM urls WHERE is_deleted = false"

abbrev pub users_query : String
users_query = "SELECT COUNT(DISTINCT user_id) FROM urls WHERE is_deleted = false"

abbrev pub row_arguments : Row → List Argument
row_arguments info =
    text_value info.id ∷ text_value info.original_url ∷ text_value info.user_id ∷ []

module _ (sql : Sql) where
  open sql use {State}

  abbrev pub added : Row → Result String × State → Result (Unit {0}) × State
  added info (err e, st) = (err (wrapped "failed to add url to storage" e), st)
  added info (ok existing_id, st) =
      (if existing_id == info.id then ok tt else err (already_exists existing_id), st)

  unfoldable pub add : Context → Row → State → Result (Unit {0}) × State
  add ctx info st = added info (sql.query_text ctx add_query (row_arguments info) st)

  abbrev pub entry : String → Result (String × Bool) × State → Result String × State
  entry id (err e, st) = (
    if sql.is_no_rows e
        then err (sentinel not_found)
        else err (wrapped "failed to get url from storage by id" e),
    st,
  )
  entry id (ok (val, is_deleted), st) =
      (if is_deleted then err (followed (sentinel gone) id) else ok val, st)

  unfoldable pub get : Context → String → State → Result String × State
  get ctx id st =
      unless_done ctx st (entry id (sql.query_entry ctx get_query (text_value id ∷ []) st))

  unfoldable pub ping : Context → State → Result (Unit {0}) × State
  ping ctx st = sql.ping_context ctx st

  -- `($%d, $%d, $%d, false)` of the item at a position
  abbrev pub placeholders : ℕ → String
  placeholders i =
      "($"
      +s (sql.decimal (i * 3 + 1)
          +s (", $"
              +s (sql.decimal (i * 3 + 2) +s (", $" +s (sql.decimal (i * 3 + 3) +s ", false)")))))

  -- the loop of buildBatchInsertQuery
  unfoldable pub insert_items : ℕ → List Row → String × List Argument → String × List Argument
  insert_items i [] (b, args) = (b, args)
  insert_items i (item ∷ items) (b, args) =
      insert_items (i + 1) items
        ((if nat_eq i 0 then b else b +s ", ") +s placeholders i, args ++ row_arguments item)

  unfoldable pub build_batch_insert_query : List Row → String × List Argument
  unfolding insert_items
  build_batch_insert_query items =
      insert_items 0 items ("INSERT INTO urls(id, original_url, user_id, is_deleted) VALUES ", [])

  abbrev pub failed_with : String → Result (Unit {0}) × State → Result (Unit {0}) × State
  failed_with what (err e, st) = (err (wrapped what e), st)
  failed_with what (ok u, st) = (ok u, st)

  unfoldable pub add_batch : Context → List Row → State → Result (Unit {0}) × State
  unfolding build_batch_insert_query
  add_batch ctx [] st = (ok tt, st)
  add_batch ctx (item ∷ items) st =
      let (query, args) = build_batch_insert_query (item ∷ items) in
      failed_with "failed to add data as batch" (sql.exec ctx query args st)

  -- the loop over the rows of GetUserURLs
  unfoldable pub scan_rows : List (Result (String × String)) → List UserUrl → Result (List UserUrl)
  scan_rows [] res = ok res
  scan_rows (err e ∷ rows) res = err e
  scan_rows (ok (id, original) ∷ rows) res =
      scan_rows rows (res ++ record { short_url = id; original_url = original } ∷ [])

  abbrev listed :
      Result (Option Error × List (Result (String × String))) × State
      → Result (List UserUrl) × State
  listed (err e, st) = (err e, st)
  listed (ok (some e, rows), st) = (err e, st)
  listed (ok (none, rows), st) = (scan_rows rows [], st)

  unfoldable pub get_user_urls : Context → String → State → Result (List UserUrl) × State
  unfolding scan_rows
  get_user_urls ctx user_id st = listed (sql.query_rows ctx list_query (text_value user_id ∷ []) st)

  unfoldable pub delete_batch : Context → String → List String → State → Result (Unit {0}) × State
  delete_batch ctx user_id [] st = (ok tt, st)
  delete_batch ctx user_id (id ∷ ids) st =
      failed_with "failed to delete batch"
        (sql.exec ctx delete_query (text_value user_id ∷ text_array (id ∷ ids) ∷ []) st)

  abbrev then_with :
      {A B : Type 0} → String → Result A × State → (A → State → Result B × State) → Result B × State
  then_with what (err e, st) k = (err (wrapped what e), st)
  then_with what (ok a, st) k = k a st

  -- the counts of GetStats; they do not run in the transaction that is open
  unfoldable pub count_rows : Context → State → Result Statistics × State
  count_rows ctx st =
      then_with "failed to count urls" (sql.query_number ctx count_query [] st) (λ urls st.
        then_with "failed to count users" (sql.query_number ctx users_query [] st) (λ users st.
          then_with "failed to commit transaction" (sql.commit st)
            (λ u st. (ok (record { urls = urls; users = users }), st))))

  -- with the deferred Rollback
  unfoldable pub get_stats : Context → State → Result Statistics × State
  unfolding count_rows
  get_stats ctx st =
      then_with "failed to begin transaction" (sql.begin ctx st)
        (λ u st. let (result, st') = count_rows ctx st in (result, sql.rollback st'))

  -- dbStorage as a Storage
  abbrev pub db_storage : Storage
  db_storage = record {
    State = State;
    add = add;
    get = get;
    ping = ping;
    add_batch = add_batch;
    get_user_urls = get_user_urls;
    delete_batch = delete_batch;
    get_stats = get_stats;
  }
