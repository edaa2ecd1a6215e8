-- ===== src/Repository/Memory/Listing.antt =====
-- GetUserURLs and GetStats of memory.go, whatever the order in which Go ranges over the map.

use mathlib.Core.List.Memᴰ
use mathlib.Core.List.Permᴰ
use mathlib.Core.List.{Memᴰ, Permᴰ, append-nil, append_assoc}
use shortener.Base.{
  String, ◌≡◌, sym, Bool-cases, false, none, some, List, [], ◌∷◌, ◌++◌, map, eq_iff, eq_refl, ◌∙◌,
  ap, arith, inl, inr, ◌↔◌,
}
use shortener.Base.Lists.{
  length, filter, Memᴰ-filter, Memᴰ_of_filter, filter-perm, length-perm, Memᴰ-perm, length-map,
}
use shortener.Base.Dict.{Dict, lookup, IsUnique, Memᴰ_of_lookup, lookup_of_Memᴰ}
use shortener.Errors.{ok}
use shortener.Context.{Context}
use shortener.Repository.{UserUrl, UrlInfo}
use shortener.Repository.Memory.{MemStorage, is_live_of, to_user_url, collect_urls, get_user_urls}

collect_urls-eq-filter :
    (user_id : String) (entries : List (String × UrlInfo)) (result : List UserUrl)
    → collect_urls user_id entries result
      ≡ result ++ map to_user_url (filter (is_live_of user_id) entries)
unfolding collect_urls
collect_urls-eq-filter user_id [] result = sym (append-nil result)
collect_urls-eq-filter user_id (entry ∷ rest) result =
    elim (Bool-cases (is_live_of user_id entry)) [
      | inl live ↦ rw live (
          collect_urls-eq-filter user_id rest (result ++ to_user_url entry ∷ [])
          ∙ append_assoc result (to_user_url entry ∷ []) _)
      | inr other ↦ rw other (collect_urls-eq-filter user_id rest result)
    ]

-- `u` pairs an id that the user owns, not deleted, with its url.
abbrev pub IsListed : String → MemStorage → UserUrl → Type 0
IsListed user_id m u =
    (info : UrlInfo) × (lookup u.short_url m.entries ≡ some info)
    × (info.user_id ≡ user_id)
    × (info.deleted ≡ false)
    × (info.original_url ≡ u.original_url)

abbrev live_entries : String → MemStorage → List (String × UrlInfo)
live_entries user_id m = filter (is_live_of user_id) m.entries

live_entries-IsListed :
    (user_id : String) (m : MemStorage) (u : UserUrl)
    → IsUnique m.entries
    → Memᴰ u (map to_user_url (live_entries user_id m))
    → IsListed user_id m u
live_entries-IsListed user_id m u unique k =
    let ((id, info), in_live, shown) = Memᴰ.of_map to_user_url (live_entries user_id m) k in
    let (held, live) = Memᴰ_of_filter (is_live_of user_id) m.entries in_live in
    (
      info,
      rw (← shown) (lookup_of_Memᴰ id info m.entries unique held),
      ground (arith, eq_iff info.user_id user_id),
      ground arith,
      ap (λ (v : UserUrl). v.original_url) shown,
    )

live_of_listed :
    (user_id : String) (m : MemStorage) (u : UserUrl)
    → IsListed user_id m u
    → Memᴰ u (map to_user_url (live_entries user_id m))
live_of_listed user_id m u (info, found, owner, live, same) = rw (← same) (
    Memᴰ.map to_user_url {a = (u.short_url, info)} (
      Memᴰ-filter (is_live_of user_id) m.entries (Memᴰ_of_lookup u.short_url info m.entries found)
        (ground (arith, eq_refl user_id))))

module _ (visit : Dict UrlInfo → List (String × UrlInfo))
    (visit_perm : (d : Dict UrlInfo) → Permᴰ (visit d) d) where
  -- Under a context that is not done, where every id stands once and Go's order of visiting is some
  -- permutation, the listing holds exactly the user's entries that are not deleted, each once, and
  -- the storage stays as it is.
  pub get_user_urls-eq-live :
      (ctx : Context) (user_id : String) (m : MemStorage)
      → ctx.done ≡ none
      → IsUnique m.entries
      → (urls : List UserUrl) × (get_user_urls visit ctx user_id m ≡ (ok urls, m))
        × ((u : UserUrl) → Memᴰ u urls ↔ IsListed user_id m u)
        × (length urls ≡ length (live_entries user_id m))
  unfolding get_user_urls
  get_user_urls-eq-live ctx user_id m live unique =
      let shuffled =
        Permᴰ.map to_user_url (filter-perm (is_live_of user_id) (visit_perm m.entries)) in
      (
        map to_user_url (filter (is_live_of user_id) (visit m.entries)),
        ground (arith, collect_urls-eq-filter user_id (visit m.entries) []),
        λ u. (
          λ k. live_entries-IsListed user_id m u unique (Memᴰ-perm shuffled k),
          λ k. Memᴰ-perm (Permᴰ.symm shuffled) (live_of_listed user_id m u k),
        ),
        length-map to_user_url (filter (is_live_of user_id) (visit m.entries))
            ∙ length-perm (filter-perm (is_live_of user_id) (visit_perm m.entries)),
      )
