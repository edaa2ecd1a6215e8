-- ===== src/Reset/Typing/Methods.antt =====
-- The whole method of generateResetFunc, under the rules of Reset/Typing.
use mathlib.Core.Path.{subst}
use shortener.Base.{ℕ, String, Bool, true, false, ◌≡◌, refl, inr, some, List, [], ◌∷◌, arith}
use shortener.Base.Dict.{Dict}
use shortener.Reset.Syntax.{Named, GoType, named, struct, Fields, ident, Block, empty, append}
use shortener.Reset.Generator.{
  generated, Universe, has_reset_method, reset_statement, name_statements, field_statements,
  generate_reset_func,
}
use shortener.Reset.Safety.Statements.{Ensures, Ensures-bind}
use shortener.Reset.Typing.{
  IsLocal, HasField, selected, of_pointer, is_receiver, returned, BlockTyped, none_typed,
  next_typed, IsPlain, IsUnderlying,
}
use shortener.Reset.Typing.Places.{append-BlockTyped, same}
use shortener.Reset.Typing.Statements.{reset_statement-Typed}

-- The names are fields of the struct, of the type.
abbrev pub AreFields : Fields → List String → GoType → Type 0
AreFields fs [] t = Unit
AreFields fs (name ∷ names) t =
    ((exported : Bool) × HasField fs name exported t) × AreFields fs names t

-- The declared fields of a struct, with names that are not blank and of types that are plain.
abbrev pub Declares : Universe → Fields → List (List String × GoType) → Type 0
Declares u fs [] = Unit
Declares u fs ((names, t) ∷ fields) = AreFields fs names t × IsPlain u t × Declares u fs fields

module _ (u : Universe) (underlying : (nm : Named) → IsUnderlying (u.underlying nm))
    (plain : (nm : Named) → IsPlain u (u.underlying nm))
    (promoted : (nm : Named)
      → has_reset_method u (u.underlying nm) ≡ true
      → has_reset_method u (named nm) ≡ true)
    (self : Named) (fs : Fields) (is : u.underlying self ≡ struct fs) (own : IsLocal u self) where
  name_statements-Typed :
      (n : ℕ) (names : List String) (t : GoType) (body : Block) (imports : Dict _)
      → AreFields fs names t
      → IsPlain u t
      → BlockTyped u (named self) body
      → Ensures (BlockTyped u (named self)) (name_statements u n (ident "r") names t body imports)
  unfolding name_statements
  name_statements-Typed n [] t body imports known ok typed = typed
  name_statements-Typed n (name ∷ names) t body imports ((exported, known), rest) ok typed =
      Ensures-bind (BlockTyped u (named self)) (BlockTyped u (named self))
        (reset_statement u n (ident "r") name t false false) _ imports
        (reset_statement-Typed u (named self) underlying plain promoted n (ident "r") name t false
          false imports t (selected is_receiver (of_pointer is known (inr (self, refl, own)))) same
          (λ e. ground arith) (λ e. ground arith) ok)
        (λ b imports' typed'.
          name_statements-Typed n names t (append body b) imports' rest ok
            (append-BlockTyped typed typed'))

  field_statements-Typed :
      (n : ℕ) (fields : List (List String × GoType)) (body : Block) (imports : Dict _)
      → Declares u fs fields
      → BlockTyped u (named self) body
      → Ensures (BlockTyped u (named self)) (field_statements u n (ident "r") fields body imports)
  unfolding field_statements
  field_statements-Typed n [] body imports known typed = typed
  field_statements-Typed n ((names, t) ∷ fields) body imports (known, ok, rest) typed =
      Ensures-bind (BlockTyped u (named self)) (BlockTyped u (named self))
        (name_statements u n (ident "r") names t body) _ imports
        (name_statements-Typed n names t body imports known ok typed)
        (λ b imports' typed'. field_statements-Typed n fields b imports' rest typed')

  -- Where no named type stands for a pointer, what every named type stands for is plain, and a named
  -- type has the Reset method of what it stands for: for a struct of the current package whose
  -- declared fields have names that are not blank and plain types, whenever the generator gives a
  -- method body, the body type-checks in a method of a pointer to the struct, where nothing shadows
  -- a name and the packages that it names are imported. A type is plain if, as far as it is written
  -- out and its fields are exported, it has no pointer to a pointer, no array of a type of another
  -- package or of unsafe.Pointer, no instance of a generic type, no name that the current package
  -- may not use, and no exported field whose name is blank.
  pub generate_reset_func-BlockTyped :
      (n : ℕ) (fields : List (List String × GoType)) (imports imports' : Dict _) (body : Block)
      → Declares u fs fields
      → generate_reset_func u n fields imports ≡ some (generated body, imports')
      → BlockTyped u (named self) body
  unfolding generate_reset_func
  generate_reset_func-BlockTyped n fields imports imports' body known h =
      subst (Ensures (BlockTyped u (named self))) h (
        Ensures-bind (BlockTyped u (named self)) (BlockTyped u (named self))
          (field_statements u n (ident "r") fields empty) _ imports
          (field_statements-Typed n fields empty imports known none_typed)
          (λ b imports'' typed. next_typed returned typed))
