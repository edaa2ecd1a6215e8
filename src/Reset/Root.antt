-- ===== src/Reset/Root.antt =====
-- findRootDir of cmd/reset/main.go: the way up to the nearest directory with a go.mod.
use shortener.Base.{
  ℕ, zero, suc, ◌<◌, String, Bool, true, false, ◌==◌, ◌≡◌, ◌≢◌, refl, sym, ap, ◌∙◌, Option, none,
  some, if◌then◌else◌, arith, inl, inr, ◌⊎◌, Bool-cases, eq_iff,
}
use shortener.Errors.{Result, ok, err, message}

-- filepath.Dir, and whether os.Stat finds a go.mod in a directory
module _ (parent : String → String) (has_go_mod : String → Bool) where
  -- findRootDir; `none` where the fuel ran out
  unfoldable pub find_root_dir : ℕ → String → Option (Result String)
  find_root_dir zero dir = none
  find_root_dir (suc n) dir =
      let above = find_root_dir n (parent dir) in
      if has_go_mod dir
      then some (ok dir)
      else if dir == parent dir
      then some (err (message "go.mod file not found"))
      else above

  -- The directory that many levels up.
  abbrev pub up : ℕ → String → String
  up zero dir = dir
  up (suc k) dir = up k (parent dir)

  -- The nearest directory on the way up that has a go.mod is the root, or none has one.
  abbrev pub Nearest : String → Result String → Type 0
  Nearest dir result =
      ((k : ℕ) × (result ≡ ok (up k dir))
        × (has_go_mod (up k dir) ≡ true)
        × ((j : ℕ) → j < k → has_go_mod (up j dir) ≡ false))
      ⊎ ((result ≡ err (message "go.mod file not found"))
          × ((j : ℕ) → has_go_mod (up j dir) ≡ false))

  up-top : (dir : String) → parent dir ≡ dir → (j : ℕ) → up j dir ≡ dir
  up-top dir top zero = refl
  up-top dir top (suc j) = rw top (up-top dir top j)

  Nearest-parent :
      (dir : String) (result : Result String)
      → has_go_mod dir ≡ false
      → Nearest (parent dir) result
      → Nearest dir result
  Nearest-parent dir result bare (inl (k, e, found, before)) = inl (suc k, e, found, below)
    where
      below : (j : ℕ) → j < suc k → has_go_mod (up j dir) ≡ false
      below zero h = bare
      below (suc j) h = before j (omega arith)
  Nearest-parent dir result bare (inr (e, all)) = inr (e, every)
    where
      every : (j : ℕ) → has_go_mod (up j dir) ≡ false
      every zero = bare
      every (suc j) = all j

  -- Where going to the parent directory comes nearer to the top, findRootDir returns, and its
  -- answer is the nearest directory on the way up that has a go.mod, or the error where none has
  -- one.
  pub find_root_dir-Nearest :
      (depth : String → ℕ)
      → ((dir : String) → parent dir ≢ dir → depth (parent dir) < depth dir)
      → (n : ℕ) (dir : String) → depth dir < n
      → (result : Result String) × (find_root_dir n dir ≡ some result) × Nearest dir result
  unfolding find_root_dir
  find_root_dir-Nearest depth falls zero dir h = absurd (omega arith)
  find_root_dir-Nearest depth falls (suc n) dir h = elim (Bool-cases (has_go_mod dir)) [
    | inl found ↦ (ok dir, rw found, inl (zero, refl, found, λ j k. absurd (omega arith)))
    | inr bare ↦ elim (Bool-cases (dir == parent dir)) [
      | inl top ↦ (
        err (message "go.mod file not found"),
        rw (bare, top),
        inr (
          refl,
          λ j. ap has_go_mod (up-top dir (sym ((eq_iff dir (parent dir)).0 top)) j) ∙ bare,
        ),
      )
      | inr low ↦
          let (result, e, near) =
            find_root_dir-Nearest depth falls n (parent dir)
              (ground (arith, falls dir (λ same. ground (arith, eq_iff dir (parent dir))))) in
          (result, rw (bare, low) e, Nearest-parent dir result bare near)
    ]
  ]
