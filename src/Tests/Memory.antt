-- ===== src/Tests/Memory.antt =====
-- The theorems on memory.go at concrete calls.
use mathlib.Core.Path.{subst}
use mathlib.Core.Bool.{true≢false}
use shortener.Base.{
  String, ◌≡◌, ◌≢◌, Bool, ◌↔◌, refl, some, [], ◌∷◌, Memᴰ, ap, sym, ◌∙◌, eq_refl, ◌==◌, List,
}
use shortener.Base.Dict.{lookup, insert, IsUnique}
use shortener.Base.Lists.{length, filter}
use shortener.Errors.{Result, ok, err, sentinel, gone, already_exists}
use shortener.Models.{Statistics}
use shortener.Repository.{Row, UserUrl}
use shortener.Repository.Memory.{
  MemStorage, new_mem_storage, mem_storage, store_row, add, get, add_batch, delete_batch,
  mark_deleted, mark_all_deleted, get_user_urls, get_stats, is_live_of,
}
use shortener.Repository.Requests.{Request, final}
use shortener.Repository.Memory.Indexed.{IsIndexed, IsIndexed-new, add-IsIndexed}
use shortener.Repository.Memory.Deletion.{add-delete_batch}
use shortener.Repository.Memory.Batch.{add_batch_twice}
use shortener.Repository.Memory.Listing.{IsListed, get_user_urls-eq-live}
use shortener.Repository.Memory.Stats.{HasLive, get_stats-eq-live}
use shortener.Repository.Memory.Histories.{AllFresh, history-IsIndexed, Holds, final-Holds}
use shortener.Tests.{visit, visit-perm, anna, row_a, row_b, info_a, with_a}

add_a : add anna row_a new_mem_storage ≡ (ok tt, with_a)
unfolding add store_row insert lookup
add_a = refl

add_a_state : (add anna row_a new_mem_storage).1 ≡ with_a
add_a_state = ap (λ (r : Result (Unit {0}) × MemStorage). r.1) add_a

pub with_a-IsIndexed : IsIndexed with_a
unfolding lookup
with_a-IsIndexed =
    subst IsIndexed add_a_state (add-IsIndexed anna row_a new_mem_storage IsIndexed-new refl)

abbrev history : List Request
history =
    Request.add anna row_a
    ∷ Request.delete_batch anna "anna" ("AA" ∷ [])
    ∷ Request.add anna row_b
    ∷ []

history-AllFresh : AllFresh visit history new_mem_storage
unfolding add store_row insert lookup delete_batch mark_all_deleted mark_deleted
history-AllFresh = (refl, (tt, (refl, tt)))

history-IsIndexed_example : IsIndexed (final (mem_storage visit) history new_mem_storage)
history-IsIndexed_example = history-IsIndexed visit history history-AllFresh

abbrev later : List Request
later = Request.delete_batch anna "anna" ("AA" ∷ []) ∷ Request.add anna row_b ∷ []

later-AllFresh : AllFresh visit later with_a
unfolding add store_row insert lookup delete_batch mark_all_deleted mark_deleted
later-AllFresh = (tt, (refl, tt))

with_a-Holds : Holds visit "AA" info_a with_a
unfolding lookup
with_a-Holds = (info_a, refl, refl, refl)

final-Holds_example : Holds visit "AA" info_a (final (mem_storage visit) later with_a)
final-Holds_example = final-Holds visit later "AA" info_a with_a later-AllFresh with_a-Holds

lookup-with_a : lookup "AA" with_a.entries ≡ some info_a
unfolding lookup
lookup-with_a = refl

add-delete_batch_example :
    ((get anna "AA" (delete_batch anna "anna" ("AA" ∷ []) with_a).1).0 ≡ err (sentinel gone))
    × (add anna row_a (delete_batch anna "anna" ("AA" ∷ []) with_a).1
        ≡ (err (already_exists "AA"), (delete_batch anna "anna" ("AA" ∷ []) with_a).1))
add-delete_batch_example =
    add-delete_batch anna "AA" info_a row_a with_a with_a-IsIndexed refl lookup-with_a refl

texts_differ : row_a.id ≢ row_b.id
texts_differ e = true≢false (sym (eq_refl row_a.id) ∙ ap (λ (t : String). row_a.id == t) e)

urls_differ : row_a.original_url ≢ row_b.original_url
urls_differ e =
    true≢false (sym (eq_refl row_a.original_url) ∙ ap (λ (t : String). row_a.original_url == t) e)

add_batch_twice_example :
    let twin : Row = record { id = "AB"; original_url = "u"; user_id = "anna" } in
    ((add_batch anna (row_a ∷ twin ∷ []) new_mem_storage).0 ≡ ok tt)
    × ((get anna "AA" (add_batch anna (row_a ∷ twin ∷ []) new_mem_storage).1).0 ≡ ok "u")
    × ((get anna "AB" (add_batch anna (row_a ∷ twin ∷ []) new_mem_storage).1).0 ≡ ok "u")
    × ¬ IsIndexed (add_batch anna (row_a ∷ twin ∷ []) new_mem_storage).1
unfolding lookup
add_batch_twice_example =
    add_batch_twice anna row_a (record { id = "AB"; original_url = "u"; user_id = "anna" })
      new_mem_storage refl refl refl texts_differ

get_user_urls-eq-live_example :
    (urls : List UserUrl) × (get_user_urls visit anna "anna" with_a ≡ (ok urls, with_a))
    × ((u : UserUrl) → Memᴰ u urls ↔ IsListed "anna" with_a u)
    × (length urls ≡ length (filter (is_live_of "anna") with_a.entries))
get_user_urls-eq-live_example =
    get_user_urls-eq-live visit visit-perm anna "anna" with_a refl with_a-IsIndexed.unique_ids

get_stats-eq-live_example :
    (stats : Statistics) × (owners : List (String × Bool)) × (get_stats visit anna with_a
      ≡ (ok stats, with_a))
    × (stats.urls ≡ 1)
    × (stats.users ≡ length owners)
    × IsUnique owners
    × ((u : String) → ((b : Bool) × (lookup u owners ≡ some b)) ↔ HasLive u with_a.entries)
get_stats-eq-live_example = get_stats-eq-live visit visit-perm anna with_a refl
