-- ===== src/Repository/Memory/Stats.antt =====
-- GetStats of memory.go, whatever the order in which Go ranges over the map.
use mathlib.Core.List.{Memᴰ, Permᴰ}
use mathlib.Core.List.Permᴰ
use shortener.Base.{
  ℕ, suc, ◌+◌, String, ◌≡◌, refl, Bool-cases, true, false, not, none, some, List, [], ◌∷◌, ◌==◌,
  eq_iff, ◌∙◌, ap, arith, inl, inr, ◌⊎◌, ◌↔◌, Bool,
}
use shortener.Base.Lists.{length, filter, filter-perm, length-perm, Memᴰ-perm}
use shortener.Base.Dict.{Dict, lookup, insert, IsUnique, lookup-insert, insert-IsUnique, lookup-nil}
use shortener.Errors.{ok}
use shortener.Models.{Statistics}
use shortener.Context.{Context}
use shortener.Repository.{UrlInfo}
use shortener.Repository.Memory.{MemStorage, count_live, get_stats}

abbrev pub is_live : String × UrlInfo → Bool
is_live (id, info) = not info.deleted

-- The user owns an entry that is not deleted.
abbrev pub HasLive : String → List (String × UrlInfo) → Type 0
HasLive user_id entries =
    (id : String) × (info : UrlInfo) × Memᴰ (id, info) entries
    × (info.deleted ≡ false)
    × (info.user_id ≡ user_id)

count_live-urls :
    (entries : List (String × UrlInfo)) (users : Dict Bool) (n : ℕ)
    → (count_live entries users n).1 ≡ n + length (filter is_live entries)
unfolding count_live
count_live-urls [] users n = omega arith
count_live-urls ((id, info) ∷ rest) users n = elim (Bool-cases info.deleted) [
  | inl gone ↦ ground (arith, count_live-urls rest users n)
  | inr live ↦ ground (arith, count_live-urls rest (insert info.user_id true users) (suc n))
]

count_live-IsUnique :
    (entries : List (String × UrlInfo)) (users : Dict Bool) (n : ℕ)
    → IsUnique users
    → IsUnique (count_live entries users n).0
unfolding count_live
count_live-IsUnique [] users n h = h
count_live-IsUnique ((id, info) ∷ rest) users n h = elim (Bool-cases info.deleted) [
  | inl gone ↦ rw (gone, count_live) (count_live-IsUnique rest users n h)
  | inr live ↦
      rw (live, count_live)
        (count_live-IsUnique rest (insert info.user_id true users) (suc n)
          (insert-IsUnique info.user_id true users h))
]

-- The set holds what it held, and the owners of live entries.
count_live_complete :
    (entries : List (String × UrlInfo)) (users : Dict Bool) (n : ℕ) (user_id : String)
    → (lookup user_id users ≡ some true) ⊎ HasLive user_id entries
    → lookup user_id (count_live entries users n).0 ≡ some true
unfolding count_live
count_live_complete [] users n u (inl h) = h
count_live_complete [] users n u (inr (id, info, m, live, own)) = elim m [ ]
count_live_complete ((id, info) ∷ rest) users n u (inl h) =
    count_live_complete rest _ _ u (inl (ground (arith, lookup-insert info.user_id u true users)))
count_live_complete ((id, info) ∷ rest) users n u (inr (id', info', Memᴰ.head e, live, own)) =
    count_live_complete rest _ _ u (
      inl (
        ground (
          arith,
          lookup-insert info.user_id u true users,
          eq_iff info.user_id u,
          ap (λ (t : String × UrlInfo). t.1) e,
        )))
count_live_complete ((id, info) ∷ rest) users n u (inr (id', info', Memᴰ.tail m, live, own)) =
    count_live_complete rest _ _ u (inr (id', info', m, live, own))

count_live_sound :
    (entries : List (String × UrlInfo)) (users : Dict Bool) (n : ℕ) (user_id : String) (b : Bool)
    → lookup user_id (count_live entries users n).0 ≡ some b
    → (lookup user_id users ≡ some b) ⊎ HasLive user_id entries
unfolding count_live
count_live_sound [] users n u b h = inl h
count_live_sound ((id, info) ∷ rest) users n u b h = elim (count_live_sound rest _ _ u b h) [
  | inr (id', info', m, live, own) ↦ inr (id', info', Memᴰ.tail m, live, own)
  | inl before ↦ elim (Bool-cases info.deleted) [
    | inl gone ↦ inl (ground arith)
    | inr live ↦ elim (Bool-cases (info.user_id == u)) [
      | inl same ↦ inr (id, info, Memᴰ.head refl, live, (eq_iff info.user_id u).0 same)
      | inr other ↦ inl (ground (arith, lookup-insert info.user_id u true users))
    ]
  ]
]

module _ (visit : Dict UrlInfo → List (String × UrlInfo))
    (visit_perm : (d : Dict UrlInfo) → Permᴰ (visit d) d) where
  HasLive-perm :
      (u : String) {xs ys : List (String × UrlInfo)} → Permᴰ xs ys → HasLive u xs → HasLive u ys
  HasLive-perm u p (id, info, m, live, own) = (id, info, Memᴰ-perm p m, live, own)

  -- Under a context that is not done, and in whichever order Go visits the map, the statistics
  -- count the entries that are not deleted and the distinct owners of such entries: `users` is the
  -- number of keys of a map whose keys are exactly these, each once.
  pub get_stats-eq-live :
      (ctx : Context) (m : MemStorage)
      → ctx.done ≡ none
      → (stats : Statistics) × (owners : Dict Bool) × (get_stats visit ctx m ≡ (ok stats, m))
        × (stats.urls ≡ length (filter is_live m.entries))
        × (stats.users ≡ length owners)
        × IsUnique owners
        × ((u : String) → ((b : Bool) × (lookup u owners ≡ some b)) ↔ HasLive u m.entries)
  unfolding get_stats
  get_stats-eq-live ctx m live =
      let seen = count_live (visit m.entries) [] 0 in
      (
        record { urls = seen.1; users = length seen.0 },
        seen.0,
        ground arith,
        count_live-urls (visit m.entries) [] 0
            ∙ omega (arith, length-perm (filter-perm is_live (visit_perm m.entries))),
        refl,
        count_live-IsUnique (visit m.entries) [] 0 tt,
        λ u. (
          λ (b, h). elim (count_live_sound (visit m.entries) [] 0 u b h) [
            | inl before ↦ absurd (cc (lookup-nil {V = Bool} u))
            | inr has ↦ HasLive-perm u (visit_perm m.entries) has
          ],
          λ has. (
            true,
            count_live_complete (visit m.entries) [] 0 u
                (inr (HasLive-perm u (Permᴰ.symm (visit_perm m.entries)) has)),
          ),
        ),
      )
