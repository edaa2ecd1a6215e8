-- ===== src/Reset/Safety.antt =====
-- What the statements of cmd/reset/main.go do when they run: no nil pointer is followed, and nothing
-- is written outside the fields that the method is for.
pub mod Statements
pub mod Methods
use mathlib.Core.Path.{subst}
use mathlib.Core.List.{append_assoc}
use shortener.Base.{
  ℕ, zero, suc, String, Bool, true, false, not, ◌&&◌, ◌≡◌, refl, sym, Option, none, some, List, [],
  ◌∷◌, ◌++◌, if◌then◌else◌, arith, inl, inr, Bool-cases, Option-cases, ◌⊎◌, ◌∙◌, ap,
}
use shortener.Base.Lists.{All}
use shortener.Base.Dict.{Dict}
use shortener.Reset.Syntax.{
  Named, GoType, basic, slice, array, map_of, named, pointer, struct, interface, other_type, Fields,
  end, field, Receiver, ident, child, Expr, selector, star, Zero, literal, truncated, array_literal,
  composite, Stmt, assign, clear_call, reset_call, if_not_nil, return_if_nil, Block, empty, next,
  single, append,
}
use shortener.Reset.Generator.{
  Gen, Generated, generated, refused, GenError, Universe, basic_literal, element_name,
  has_reset_method, child_statements, reset_statement, or_composite, bind, give, guarded, place,
  name_statements, field_statements, generate_reset_func,
}

-- The expression is below the field: it is the field, its target, or a part of that.
abbrev pub Within : Receiver → String → Receiver → Type 0
Within r f (ident x) = ⊥
Within r f (child r' g) = ((r' ≡ r) × (g ≡ f)) ⊎ Within r f r'

abbrev pub Under : Receiver → String → Expr → Type 0
Under r f (star e) = Under r f e
Under r f (selector r' g) = ((r' ≡ r) × (g ≡ f)) ⊎ Within r f r'

Within-child :
    (r : Receiver) (f g : String) (r' : Receiver) → Within (child r f) g r' → Within r f r'
Within-child r f g (ident x) h = h
Within-child r f g (child r' x) (inl (same, _)) =
    inr (subst (Within r f) (sym same) (inl (refl, refl)))
Within-child r f g (child r' x) (inr h) = inr (Within-child r f g r' h)

Under-child : (r : Receiver) (f g : String) (e : Expr) → Under (child r f) g e → Under r f e
Under-child r f g (star e) h = Under-child r f g e h
Under-child r f g (selector r' x) (inl (same, _)) =
    inr (subst (Within r f) (sym same) (inl (refl, refl)))
Under-child r f g (selector r' x) (inr h) = inr (Within-child r f g r' h)

All-Under-child :
    (r : Receiver) (f g : String) (es : List Expr)
    → All (Under (child r f) g) es
    → All (Under r f) es
All-Under-child r f g [] h = tt
All-Under-child r f g (e ∷ es) h = (Under-child r f g e h.0, All-Under-child r f g es h.1)

All-append : (P : Expr → Type 0) (xs ys : List Expr) → All P xs → All P ys → All P (xs ++ ys)
All-append P [] ys hx hy = hy
All-append P (x ∷ xs) ys hx hy = (hx.0, All-append P xs ys hx.1 hy)

abbrev both : Option (List Expr) → Option (List Expr) → Option (List Expr)
both none ys = none
both (some xs) none = none
both (some xs) (some ys) = some (xs ++ ys)

both_assoc : (x y z : Option (List Expr)) → both (both x y) z ≡ both x (both y z)
both_assoc none y z = refl
both_assoc (some xs) none z = refl
both_assoc (some xs) (some ys) none = refl
both_assoc (some xs) (some ys) (some zs) = ap some (append_assoc xs ys zs)

-- One run, on a receiver that is nil or not and pointers that are nil or not.
module _ (receiver_nil : Bool) (is_nil : Expr → Bool) where
  -- the receiver's text can be read: no pointer on the way is nil
  abbrev pub readable : Receiver → Bool
  readable (ident x) = not receiver_nil
  readable (child r f) = let rest = readable r in rest && not (is_nil (selector r f))

  abbrev pub evaluable : Expr → Bool
  evaluable (selector r f) = readable r
  evaluable (star e) = let rest = evaluable e in rest && not (is_nil e)

  abbrev zero_evaluable : Zero → Bool
  zero_evaluable (truncated e) = evaluable e
  zero_evaluable (literal text) = true
  zero_evaluable (array_literal name n) = true
  zero_evaluable (composite name) = true

  abbrev write : Bool → Expr → Option (List Expr)
  write true e = some (e ∷ [])
  write false e = none

  -- The expressions that are written, cleared or reset, in order; `none` is a panic.
  unfoldable pub run : Block → Option (List Expr)
  run empty = some []
  run (next (assign e z) b) = both (write (evaluable e && zero_evaluable z) e) (run b)
  run (next (clear_call e) b) = both (write (evaluable e) e) (run b)
  run (next (reset_call e) b) = both (write (evaluable e) e) (run b)
  run (next (if_not_nil e c) b) =
      let inner = run c in
      both (if evaluable e then (if is_nil e then some [] else inner) else none) (run b)
  run (next (return_if_nil x) b) = let rest = run b in if receiver_nil then some [] else rest

  -- The block runs without a panic and writes below the field only.
  abbrev pub IsSafe : (Expr → Type 0) → Block → Type 0
  IsSafe P b = (written : List Expr) × (run b ≡ some written) × All P written

  module _ (alive : receiver_nil ≡ false) where
    run-append : (b c : Block) → run (append b c) ≡ both (run b) (run c)
    unfolding run append
    run-append empty c = ground arith
    run-append (next (assign e z) b) c = rw (run-append b c) (sym (both_assoc _ (run b) (run c)))
    run-append (next (clear_call e) b) c = rw (run-append b c) (sym (both_assoc _ (run b) (run c)))
    run-append (next (reset_call e) b) c = rw (run-append b c) (sym (both_assoc _ (run b) (run c)))
    run-append (next (if_not_nil e d) b) c =
        rw (run-append b c) (sym (both_assoc _ (run b) (run c)))
    run-append (next (return_if_nil x) b) c = ground (arith, run-append b c)

    IsSafe-append :
        (P : Expr → Type 0) (b c : Block) → IsSafe P b → IsSafe P c → IsSafe P (append b c)
    IsSafe-append P b c (xs, hb, px) (ys, hc, py) =
        (xs ++ ys, run-append b c ∙ rw (hb, hc), All-append P xs ys px py)
