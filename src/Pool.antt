-- ===== src/Pool.antt =====
-- internal/pool/pool.go: a pool of objects that are reset when they come back. The package sync may
-- hand out any object of its Pool, or make a new one: which one is an argument.
use shortener.Base.{ℕ, zero, suc, List, [], ◌∷◌}

-- sync.Pool's Get: the object at a position, or the result of New where there is none
abbrev pub take_at : {A : Type 0} → A → ℕ → List A → A × List A
take_at new n [] = (new, [])
take_at new zero (x ∷ xs) = (x, xs)
take_at new (suc n) (x ∷ xs) = let (y, rest) = take_at new n xs in (y, x ∷ rest)

-- Resetter, with the object that newFunc makes
pub record Resetter (A : Type 0) : Type 0 where
  pub new : A
  pub reset : A → A

module _ {A : Type 0} (r : Resetter A) where
  -- Get
  unfoldable pub get : ℕ → List A → A × List A
  get choice items = take_at r.new choice items

  -- Put
  unfoldable pub put : A → List A → List A
  put x items = r.reset x ∷ items
