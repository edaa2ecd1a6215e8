-- ===== src/Repository/Database/Inserts.antt =====
-- The INSERT of a batch: each placeholder has the number of its argument.
use text.Mathlib.TextLemmas.{nil-append, append-nil, append_assoc}
use mathlib.Core.List as L
use mathlib.Core.Path.{subst}
use shortener.Base.{
  ℕ, zero, suc, ◌+◌, ◌*◌, String, ◌≡◌, sym, ap, ◌∙◌, Option, none, some, List, [], ◌∷◌, ◌++◌,
  if◌then◌else◌, nat_eq, arith, Bool-cases, inl, inr,
}
use shortener.Base.Text.{◌+s◌}
use shortener.Repository.{Row}
use shortener.Repository.Database.{
  Sql, Argument, text_value, row_arguments, placeholders, insert_items, build_batch_insert_query,
}

-- The argument that the server puts for `$n`.
abbrev pub bound : ℕ → List Argument → Option Argument
bound zero args = none
bound (suc n) [] = none
bound (suc zero) (a ∷ args) = some a
bound (suc (suc n)) (a ∷ args) = bound (suc n) args

abbrev pub item_at : ℕ → List Row → Option Row
item_at n [] = none
item_at zero (item ∷ items) = some item
item_at (suc n) (item ∷ items) = item_at n items

abbrev all_arguments : List Row → List Argument
all_arguments [] = []
all_arguments (item ∷ items) = row_arguments item ++ all_arguments items

module _ (sql : Sql) where
  -- The tuples of placeholders from a position on, separated by commas.
  abbrev pub tuples : ℕ → List Row → String
  tuples i [] = ""
  tuples i (item ∷ items) =
      (if nat_eq i 0 then "" else ", ") +s (placeholders sql i +s tuples (i + 1) items)

  insert_items-arguments :
      (i : ℕ) (items : List Row) (b : String) (args : List Argument)
      → (insert_items sql i items (b, args)).1 ≡ args ++ all_arguments items
  unfolding insert_items
  insert_items-arguments i [] b args = sym (L.append-nil args)
  insert_items-arguments i (item ∷ items) b args =
      insert_items-arguments (i + 1) items _ (args ++ row_arguments item)
      ∙ L.append_assoc args (row_arguments item) (all_arguments items)

  separated :
      (i : ℕ) (b p rest : String)
      → ((if nat_eq i 0 then b else b +s ", ") +s p) +s rest
        ≡ b +s ((if nat_eq i 0 then "" else ", ") +s (p +s rest))
  separated i b p rest = elim (Bool-cases (nat_eq i 0)) [
    | inl first ↦
        rw first
          (append_assoc b p rest ∙ ap (λ (s : String). b +s s) (sym (nil-append (p +s rest))))
    | inr later ↦ rw later (append_assoc (b +s ", ") p rest ∙ append_assoc b ", " (p +s rest))
  ]

  insert_items-text :
      (i : ℕ) (items : List Row) (b : String) (args : List Argument)
      → (insert_items sql i items (b, args)).0 ≡ b +s tuples i items
  unfolding insert_items
  insert_items-text i [] b args = sym (append-nil b)
  insert_items-text i (item ∷ items) b args =
      insert_items-text (i + 1) items _ (args ++ row_arguments item)
      ∙ separated i b (placeholders sql i) (tuples (i + 1) items)

  -- The item at the position has the three arguments from there on.
  abbrev pub IsBound : ℕ → Row → List Argument → Type 0
  IsBound i item args =
      (bound (i * 3 + 1) args ≡ some (text_value item.id))
      × (bound (i * 3 + 2) args ≡ some (text_value item.original_url))
      × (bound (i * 3 + 3) args ≡ some (text_value item.user_id))

  shifted :
      (i n : ℕ) (item : Row) (args : List Argument)
      → bound (suc i * 3 + suc n) (row_arguments item ++ args) ≡ bound (i * 3 + suc n) args
  shifted i n item args =
      let same : suc i * 3 + suc n ≡ suc (suc (suc (suc (i * 3 + n)))) = omega arith in
      let same' : suc (i * 3 + n) ≡ i * 3 + suc n = omega arith in
      ap (λ (k : ℕ). bound k (row_arguments item ++ args)) same ∙ ap (λ (k : ℕ). bound k args) same'

  all_arguments-IsBound :
      (i : ℕ) (items : List Row) (item : Row)
      → item_at i items ≡ some item
      → IsBound i item (all_arguments items)
  all_arguments-IsBound i [] item h = absurd (ground arith)
  all_arguments-IsBound zero (x ∷ items) item h =
      let same : x ≡ item = ground arith in
      (
        ap (λ (r : Row). some (text_value r.id)) same,
        ap (λ (r : Row). some (text_value r.original_url)) same,
        ap (λ (r : Row). some (text_value r.user_id)) same,
      )
  all_arguments-IsBound (suc i) (x ∷ items) item h =
      let (id, url, user) = all_arguments-IsBound i items item h in
      (
        shifted i 0 x (all_arguments items) ∙ id,
        shifted i 1 x (all_arguments items) ∙ url,
        shifted i 2 x (all_arguments items) ∙ user,
      )

  -- The query of a batch is one tuple of placeholders for each row, numbered on from $1, and the
  -- placeholders of the row at a position are bound to its id, its url and its user id.
  pub build_batch_insert_query-IsBound :
      (items : List Row) (i : ℕ) (item : Row)
      → item_at i items ≡ some item
      → let (query, args) = build_batch_insert_query sql items in
        (query
          ≡ "INSERT INTO urls(id, original_url, user_id, is_deleted) VALUES " +s tuples 0 items)
        × IsBound i item args
  unfolding build_batch_insert_query
  build_batch_insert_query-IsBound items i item h = (
    insert_items-text 0 items "INSERT INTO urls(id, original_url, user_id, is_deleted) VALUES " [],
    subst (IsBound i item)
        (sym (
          insert_items-arguments 0 items
            "INSERT INTO urls(id, original_url, user_id, is_deleted) VALUES " []))
        (all_arguments-IsBound i items item h),
  )
