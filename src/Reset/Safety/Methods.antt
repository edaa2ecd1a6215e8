-- ===== src/Reset/Safety/Methods.antt =====
-- The whole method of generateResetFunc.
use mathlib.Core.Path.{subst}
use shortener.Base.{
  ℕ, String, Bool, true, false, ◌≡◌, refl, some, List, [], ◌∷◌, if◌then◌else◌, arith, inl, inr, ◌⊎◌,
}
use shortener.Base.Lists.{All}
use shortener.Base.Dict.{Dict}
use shortener.Reset.Syntax.{GoType, ident, Expr, return_if_nil, Block, empty, next, append}
use shortener.Reset.Generator.{
  generated, Universe, reset_statement, name_statements, field_statements, generate_reset_func,
}
use shortener.Reset.Safety.{Under, run, IsSafe, IsSafe-append}
use shortener.Reset.Safety.Statements.{Ensures, Ensures-bind, reset_statement-Safe}

-- The expression is below one of the names.
abbrev pub AnyName : List String → Expr → Type 0
AnyName [] e = ⊥
AnyName (name ∷ names) e = Under (ident "r") name e ⊎ AnyName names e

-- The expression is below one of the declared fields of the receiver.
abbrev pub Declared : List (List String × GoType) → Expr → Type 0
Declared [] e = ⊥
Declared ((names, t) ∷ fields) e = AnyName names e ⊎ Declared fields e

All-map : (P Q : Expr → Type 0) → ((e : Expr) → P e → Q e) → (es : List Expr) → All P es → All Q es
All-map P Q f [] h = tt
All-map P Q f (e ∷ es) h = (f e h.0, All-map P Q f es h.1)

module _ (u : Universe) (is_nil : Expr → Bool) (P : Expr → Type 0) where
  name_statements-Safe :
      (n : ℕ) (names : List String) (t : GoType) (body : Block) (imports : Dict Bool)
      → ((e : Expr) → AnyName names e → P e)
      → IsSafe false is_nil P body
      → Ensures (IsSafe false is_nil P) (name_statements u n (ident "r") names t body imports)
  unfolding name_statements
  name_statements-Safe n [] t body imports within safe = safe
  name_statements-Safe n (name ∷ names) t body imports within safe =
      Ensures-bind (IsSafe false is_nil (Under (ident "r") name)) (IsSafe false is_nil P)
        (reset_statement u n (ident "r") name t false false) _ imports
        (reset_statement-Safe u false is_nil refl n (ident "r") name t false false imports
          (refl, λ e. ground arith))
        (λ b imports' (ws, ran, below).
          name_statements-Safe n names t (append body b) imports' (λ e h. within e (inr h))
            (IsSafe-append false is_nil refl P body b safe
              (ws, ran, All-map (Under (ident "r") name) P (λ e h. within e (inl h)) ws below)))

  field_statements-Safe :
      (n : ℕ) (fields : List (List String × GoType)) (body : Block) (imports : Dict Bool)
      → ((e : Expr) → Declared fields e → P e)
      → IsSafe false is_nil P body
      → Ensures (IsSafe false is_nil P) (field_statements u n (ident "r") fields body imports)
  unfolding field_statements
  field_statements-Safe n [] body imports within safe = safe
  field_statements-Safe n ((names, t) ∷ fields) body imports within safe =
      Ensures-bind (IsSafe false is_nil P) (IsSafe false is_nil P)
        (name_statements u n (ident "r") names t body) _ imports
        (name_statements-Safe n names t body imports (λ e h. within e (inl h)) safe)
        (λ b imports' safe'.
          field_statements-Safe n fields b imports' (λ e h. within e (inr h)) safe')

-- Whenever the generator gives a method body, running it, on a receiver that is nil or not and
-- whichever pointers are nil, follows no nil pointer, writes, clears or resets only the declared
-- fields and what is below them, and does nothing at all on a nil receiver.
pub generate_reset_func-IsSafe :
    (u : Universe) (n : ℕ) (fields : List (List String × GoType)) (imports imports' : Dict Bool)
    (body : Block) (receiver_nil : Bool) (is_nil : Expr → Bool)
    → generate_reset_func u n fields imports ≡ some (generated body, imports')
    → (written : List Expr) × (run receiver_nil is_nil body ≡ some written)
      × All (Declared fields) written
      × (written ≡ (if receiver_nil then [] else written))
unfolding generate_reset_func run
generate_reset_func-IsSafe u n fields imports imports' body receiver_nil is_nil h =
    subst (Ensures Runs) h (
      Ensures-bind (IsSafe false is_nil (Declared fields)) Runs
        (field_statements u n (ident "r") fields empty) _ imports
        (field_statements-Safe u is_nil (Declared fields) n fields empty imports (λ e d. d)
          ([], refl, tt))
        (λ b imports'' safe. checked receiver_nil b safe))
  where
    Runs : Block → Type 0
    Runs body =
        (written : List Expr) × (run receiver_nil is_nil body ≡ some written)
        × All (Declared fields) written
        × (written ≡ (if receiver_nil then [] else written))

    checked :
        (receiver_nil : Bool) (b : Block)
        → IsSafe false is_nil (Declared fields) b
        → (written : List Expr) × (run receiver_nil is_nil (next (return_if_nil "r") b)
            ≡ some written)
          × All (Declared fields) written
          × (written ≡ (if receiver_nil then [] else written))
    checked true b safe = ([], refl, tt, refl)
    checked false b (ws, ran, below) = (ws, ran, below, refl)
