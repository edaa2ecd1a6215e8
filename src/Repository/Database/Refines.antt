-- ===== src/Repository/Database/Refines.antt =====
-- Where PostgreSQL does what its documentation says of the queries, db.go answers as memory.go does.
use shortener.Base.{
  String, Bool, true, false, ◌==◌, ◌≡◌, ◌≢◌, refl, sym, ap, ◌∙◌, Option, none, some, List, [], ◌∷◌,
  if◌then◌else◌, arith, inl, inr, Option-cases, eq_refl, eq-false_of_ne,
}
use mathlib.Core.Option
use mathlib.Core.Path.{subst}
use shortener.Base.Dict.{Dict, lookup, lookup-insert}
use shortener.Errors.{
  Error, Sentinel, sentinel, already_exists, followed, gone, not_found, is_error, as_already_exists,
  Result, ok, err,
}
use shortener.Context.{Context, unless_done}
use shortener.Repository.{Row, UrlInfo}
use shortener.Repository.Memory
use shortener.Repository.Memory.{MemStorage, mem_storage, new_info, mark_all_deleted}
use shortener.Repository.Memory.Histories.{IsFresh, AllFresh, step-IsIndexed}
use shortener.Repository.Requests.{Request, Reply, step, run, replies}
use shortener.Base.Lists.{All}
use shortener.Repository.Memory.Indexed.{IsIndexed}
use shortener.Repository.Memory.Deletion.{lookup-mark_all_deleted, marked, contains}
use shortener.Repository.Database.Texts.{IsText, IsStorable}
use shortener.Repository.Database.{
  Sql, text_value, text_array, row_arguments, add_query, get_query, delete_query, add, get,
  delete_batch, failed_with, entry, added, db_storage,
}

-- What the server keeps of the table urls: for each id, the entry of its row. These are the
-- constraints and the queries of the migrations and of db.go, as PostgreSQL documents them, on a
-- server that is up, under a context that is not done, and with texts that it can take.
pub record Postgres (sql : Sql) : Type 0 where
  pub table : sql.State → String → Option UrlInfo
  -- INSERT … ON CONFLICT (original_url) DO UPDATE … RETURNING id, where a row has the url
  pub insert_conflict :
      (ctx : Context) (info : Row) (id : String) (old : UrlInfo) (st : sql.State)
      → ctx.done ≡ none
      → IsStorable info
      → table st id ≡ some old
      → old.original_url ≡ info.original_url
      → let r = sql.query_text ctx add_query (row_arguments info) st in
        (r.0 ≡ ok id) × ((j : String) → table r.1 j ≡ table st j)
  -- where no row has the url or the id
  pub insert_row :
      (ctx : Context) (info : Row) (st : sql.State)
      → ctx.done ≡ none
      → IsStorable info
      → table st info.id ≡ none
      → ((id : String) (old : UrlInfo)
          → table st id ≡ some old
          → old.original_url ≢ info.original_url)
      → let r = sql.query_text ctx add_query (row_arguments info) st in
        (r.0 ≡ ok info.id)
        × ((j : String) → table r.1 j ≡ (if info.id == j then some (new_info info) else table st j))
  -- SELECT original_url, is_deleted … WHERE id = $1
  pub select_row :
      (ctx : Context) (id : String) (info : UrlInfo) (st : sql.State)
      → ctx.done ≡ none
      → IsText id
      → table st id ≡ some info
      → let r = sql.query_entry ctx get_query (text_value id ∷ []) st in
        (r.0 ≡ ok (info.original_url, info.deleted)) × ((j : String) → table r.1 j ≡ table st j)
  pub select_none :
      (ctx : Context) (id : String) (st : sql.State)
      → ctx.done ≡ none
      → IsText id
      → table st id ≡ none
      → let r = sql.query_entry ctx get_query (text_value id ∷ []) st in
        ((e : Error) × (r.0 ≡ err e) × (sql.is_no_rows e ≡ true))
        × ((j : String) → table r.1 j ≡ table st j)
  -- UPDATE … WHERE user_id = $1 AND id = ANY($2)
  pub update_rows :
      (ctx : Context) (user_id : String) (ids : List String) (st : sql.State)
      → ctx.done ≡ none
      → IsText user_id
      → All IsText ids
      → let r = sql.exec ctx delete_query (text_value user_id ∷ text_array ids ∷ []) st in
        (r.0 ≡ ok tt)
        × ((j : String) → table r.1 j ≡ Option.map (marked user_id (contains ids j)) (table st j))

-- Two errors that errors.Is and errors.As do not tell apart.
abbrev pub SameError : Error → Error → Type 0
SameError e e' =
    ((s : Sentinel) → is_error e s ≡ is_error e' s) × (as_already_exists e ≡ as_already_exists e')

abbrev pub Alike : {A : Type 0} → Result A → Result A → Type 0
Alike (ok a) (ok b) = a ≡ b
Alike (err e) (err e') = SameError e e'
Alike (ok a) (err e) = ⊥
Alike (err e) (ok b) = ⊥

module _ (sql : Sql) (postgres : Postgres sql) where
  open postgres use {table}

  -- The server's table holds what the memory storage holds.
  abbrev pub Same : sql.State → MemStorage → Type 0
  Same st m = (id : String) → table st id ≡ lookup id m.entries

  -- Alike results, and tables that hold the same.
  abbrev pub Agrees : {A : Type 0} → Result A × sql.State → Result A × MemStorage → Type 0
  Agrees r q = Alike r.0 q.0 × Same r.1 q.1

  module _ (st : sql.State) (m : MemStorage) (same : Same st m) (ctx : Context)
      (live : ctx.done ≡ none) where
    abbrev exec_delete : String → List String → Result (Unit {0}) × sql.State
    exec_delete user_id ids =
        sql.exec ctx delete_query (text_value user_id ∷ text_array ids ∷ []) st

    abbrev select : String → Result (String × Bool) × sql.State
    select id = sql.query_entry ctx get_query (text_value id ∷ []) st

    abbrev insert_query : Row → Result String × sql.State
    insert_query item = sql.query_text ctx add_query (row_arguments item) st

    unless_live : {A S : Type 0} (s : S) (body : Result A × S) → unless_done ctx s body ≡ body
    unless_live {A} {S} s body =
        ap
          (λ (d : Option Error). elim d as (λ d. Result A × S) [
            | none ↦ body
            | some e ↦ (err e, s)
          ])
          live

    by_values :
        {A : Type 0} {r : Result A × sql.State} (r' : Result A × sql.State)
        (q q' : Result A × MemStorage)
        → r ≡ r'
        → q ≡ q'
        → Agrees r' q'
        → Agrees r q
    by_values r' q q' e f h = subst (λ r. Agrees r q) (sym e) (subst (λ q. Agrees r' q) (sym f) h)

    delete_batch-Agrees :
        (user_id : String) (ids : List String)
        → IsText user_id
        → All IsText ids
        → Agrees (delete_batch sql ctx user_id ids st) (Memory.delete_batch ctx user_id ids m)
    unfolding delete_batch Memory.delete_batch
    delete_batch-Agrees user_id [] text texts =
        by_values (ok tt, st) (Memory.delete_batch ctx user_id [] m) (ok tt, m) refl (rw live refl)
          (refl, same)
    delete_batch-Agrees user_id (id ∷ ids) text texts =
        let (done, rows) = postgres.update_rows ctx user_id (id ∷ ids) st live text texts in
        by_values (ok tt, (exec_delete user_id (id ∷ ids)).1)
          (Memory.delete_batch ctx user_id (id ∷ ids) m)
          (ok tt, record m { entries = mark_all_deleted user_id (id ∷ ids) m.entries })
          (ap
            (λ (x : Result (Unit {0})).
              failed_with sql "failed to delete batch" (x, (exec_delete user_id (id ∷ ids)).1))
            done)
          (rw live refl)
          (
            refl,
            λ j.
                rows j
                ∙ ap (Option.map (marked user_id (contains (id ∷ ids) j))) (same j)
                ∙ sym (lookup-mark_all_deleted user_id (id ∷ ids) j m.entries),
          )

    entry-Alike :
        (id : String) (info : UrlInfo) (st' : sql.State)
        → Alike
            (entry sql id (ok (info.original_url, info.deleted), st')).0
            (Memory.found (some info))
    unfolding is_error as_already_exists
    entry-Alike id info st' =
        elim info.deleted
          as (λ b.
            Alike (if b then err (followed (sentinel gone) id) else ok info.original_url)
              (if b then err (sentinel gone) else ok info.original_url)) [
                | true ↦ (λ s. refl, refl)
                | false ↦ refl
              ]

    get-Agrees : (id : String) → IsText id → Agrees (get sql ctx id st) (Memory.get ctx id m)
    unfolding get Memory.get is_error as_already_exists
    get-Agrees id text = elim (Option-cases (lookup id m.entries)) [
      | inl missing ↦
          let ((e, failed, no_rows), rows) =
            postgres.select_none ctx id st live text (same id ∙ missing) in
          by_values (err (sentinel not_found), (select id).1) (Memory.get ctx id m)
            (err (sentinel not_found), m)
            (unless_live st (entry sql id (select id))
              ∙ ap (λ (x : Result (String × Bool)). entry sql id (x, (select id).1)) failed
              ∙ rw no_rows refl)
            (rw (live, missing) refl) ((λ s. refl, refl), λ j. rows j ∙ same j)
      | inr (info, found) ↦
          let (row, rows) = postgres.select_row ctx id info st live text (same id ∙ found) in
          by_values (entry sql id (ok (info.original_url, info.deleted), (select id).1))
            (Memory.get ctx id m) (Memory.found (some info), m)
            (unless_live st (entry sql id (select id))
              ∙ ap (λ (x : Result (String × Bool)). entry sql id (x, (select id).1)) row)
            (rw (live, found) refl) (entry-Alike id info (select id).1, λ j. rows j ∙ same j)
    ]

    add-Agrees :
        (item : Row)
        → IsStorable item
        → IsIndexed m
        → lookup item.id m.entries ≡ none
        → Agrees (add sql ctx item st) (Memory.add ctx item m)
    unfolding add Memory.add Memory.add_locked Memory.store_row
    add-Agrees item takes h fresh = elim (Option-cases (lookup item.original_url m.url_to_id)) [
      | inl new ↦
          let (row, rows) =
            postgres.insert_row ctx item st live takes (same item.id ∙ fresh) (λ id info held url.
              ground (
                arith,
                h.indexed id info (sym (same id) ∙ held),
                ap (λ (u : String). lookup u m.url_to_id) url,
              )) in
          by_values (ok tt, (insert_query item).1) (Memory.add ctx item m)
            (ok tt, Memory.store_row item m)
            (ap (λ (x : Result String). added sql item (x, (insert_query item).1)) row
              ∙ rw (eq_refl item.id) refl)
            (unless_live m (Memory.add_locked item m) ∙ rw (new, Memory.add_locked) refl)
            (
              refl,
              λ j.
                  rows j
                  ∙ ground (arith, same j, lookup-insert item.id j (new_info item) m.entries),
            )
      | inr (id, old) ↦
          let (info, held, url) = h.stored item.original_url id old in
          let (row, rows) =
            postgres.insert_conflict ctx item id info st live takes (same id ∙ held) url in
          by_values (err (already_exists id), (insert_query item).1) (Memory.add ctx item m)
            (err (already_exists id), m)
            (ap (λ (x : Result String). added sql item (x, (insert_query item).1)) row
              ∙ rw (eq-false_of_ne id item.id (λ same_id. ground arith)) refl)
            (unless_live m (Memory.add_locked item m) ∙ rw (old, Memory.add_locked) refl)
            ((λ s. refl, refl), λ j. rows j ∙ same j)
    ]

  -- The calls that are compared: to add a row that the table can take, to read an id, to delete ids,
  -- with texts that PostgreSQL can take and none under a context that is done.
  abbrev pub IsCompared : Request → Type 0
  IsCompared (Request.add ctx item) = (ctx.done ≡ none) × IsStorable item
  IsCompared (Request.get ctx id) = (ctx.done ≡ none) × IsText id
  IsCompared (Request.delete_batch ctx user_id ids) =
      (ctx.done ≡ none) × IsText user_id × All IsText ids
  IsCompared _ = ⊥

  abbrev pub AlikeReply : Reply → Reply → Type 0
  AlikeReply (Reply.done r) (Reply.done r') = Alike r r'
  AlikeReply (Reply.url r) (Reply.url r') = Alike r r'
  AlikeReply _ _ = ⊥

  abbrev pub AlikeReplies : List Reply → List Reply → Type 0
  AlikeReplies [] [] = Unit
  AlikeReplies (a ∷ as_) (b ∷ bs) = AlikeReply a b × AlikeReplies as_ bs
  AlikeReplies _ _ = ⊥

  module _ (visit : Dict UrlInfo → List (String × UrlInfo)) where
    step-Agrees :
        (r : Request) (st : sql.State) (m : MemStorage)
        → Same st m
        → IsIndexed m
        → IsFresh m r
        → IsCompared r
        → AlikeReply (step (db_storage sql) r st).0 (step (mem_storage visit) r m).0
          × Same (step (db_storage sql) r st).1 (step (mem_storage visit) r m).1
    step-Agrees (Request.add ctx item) st m same h fresh (live, takes) =
        add-Agrees st m same ctx live item takes h fresh
    step-Agrees (Request.get ctx id) st m same h fresh (live, text) =
        get-Agrees st m same ctx live id text
    step-Agrees (Request.delete_batch ctx user_id ids) st m same h fresh (live, text, texts) =
        delete_batch-Agrees st m same ctx live user_id ids text texts
    step-Agrees (Request.ping ctx) st m same h fresh none_such = absurd none_such
    step-Agrees (Request.add_batch ctx items) st m same h fresh none_such = absurd none_such
    step-Agrees (Request.get_user_urls ctx user_id) st m same h fresh none_such = absurd none_such
    step-Agrees (Request.get_stats ctx) st m same h fresh none_such = absurd none_such

    -- Where PostgreSQL does with the queries what its documentation says, and the table holds what
    -- a memory storage holds whose maps agree, any sequence of additions, reads and deletions
    -- with texts that have no character of code 0, and in what is added with ids of at most 255 and
    -- user ids of at most 64 characters and urls of at most 2048 bytes,
    -- under contexts that are not done and with ids that are new when their turn comes, gets the
    -- same values from db.go as from the memory storage, and errors that errors.Is and errors.As do
    -- not tell apart.
    pub replies-db_storage :
        (rs : List Request) (st : sql.State) (m : MemStorage)
        → Same st m
        → IsIndexed m
        → AllFresh visit rs m
        → All IsCompared rs
        → AlikeReplies (replies (db_storage sql) rs st) (replies (mem_storage visit) rs m)
    unfolding replies run
    replies-db_storage [] st m same h fresh compared = tt
    replies-db_storage (r ∷ rs) st m same h fresh compared =
        let (alike, same') = step-Agrees r st m same h fresh.0 compared.0 in
        (
          alike,
          replies-db_storage rs (step (db_storage sql) r st).1 (step (mem_storage visit) r m).1
              same' (step-IsIndexed visit r m h fresh.0) fresh.1 compared.1,
        )
