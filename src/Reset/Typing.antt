-- ===== src/Reset/Typing.antt =====
-- When the statements of cmd/reset/main.go type-check, by the rules of Go: the types of selectors and
-- of what pointers point to, assignability, the built-in function clear, method calls, and which names a
-- package may use of another one. That a name of another package is imported, and that nothing shadows a
-- name, are not part of it.
pub mod Literals
pub mod Places
pub mod Statements
pub mod Methods
use mathlib.Core.List.Memᴰ
use shortener.Base.{
  ℕ, String, Bool, true, false, ◌==◌, ◌≡◌, ◌≢◌, none, some, [], ◌∷◌, if◌then◌else◌, Memᴰ, ◌⊎◌,
}
use shortener.Base.Text.{◌+s◌}
use shortener.Reset.Syntax.{
  Named, GoType, basic, slice, array, map_of, named, pointer, struct, interface, Fields, end, field,
  Receiver, ident, child, Expr, selector, star, Zero, literal, truncated, array_literal, composite,
  Stmt, assign, clear_call, reset_call, if_not_nil, return_if_nil, Block, empty, next,
}
use shortener.Reset.Generator.{Universe, has_reset_method}

-- A struct has a field of this name and type, that can be named, exported or not.
pub data HasField : Fields → String → Bool → GoType → Type 0 where
  here :
      {name : String} {exported : Bool} {t : GoType} {fs : Fields}
      → name ≢ "_"
      → HasField (field name exported t fs) name exported t
  later :
      {name f : String} {exported exported' : Bool} {t t' : GoType} {fs : Fields}
      → HasField fs f exported t
      → HasField (field name exported' t' fs) f exported t

-- An untyped constant that a basic type holds.
pub data BasicConstant : String → String → Type 0 where
  text : BasicConstant "string" "\"\""
  truth : BasicConstant "bool" "false"
  whole :
      {name : String}
      → Memᴰ name (
          "int" ∷ "int8" ∷ "int16" ∷ "int32" ∷ "int64" ∷ "uint" ∷ "uint8" ∷ "uint16" ∷ "uint32"
          ∷ "uint64" ∷ "uintptr" ∷ [])
      → BasicConstant name "0"
  floating : {name : String} → Memᴰ name ("float32" ∷ "float64" ∷ []) → BasicConstant name "0.0"
  imaginary :
      {name : String} → Memᴰ name ("complex64" ∷ "complex128" ∷ []) → BasicConstant name "0i"

-- A test against nil is allowed.
abbrev pub IsNilable : GoType → Type 0
IsNilable (pointer t) = Unit
IsNilable (interface methods) = Unit
IsNilable _ = ⊥

abbrev pub IsStruct : GoType → Type 0
IsStruct (struct fs) = Unit
IsStruct _ = ⊥

module _ (u : Universe) where
  -- the underlying type
  abbrev pub under : GoType → GoType
  under (named nm) = u.underlying nm
  under t = t

  -- The package that the file belongs to is that of the name, or the name has none.
  abbrev pub IsLocal : Named → Type 0
  IsLocal nm = (nm.pkg ≡ none) ⊎ (pkg : _) × (nm.pkg ≡ some pkg) × (pkg.path ≡ u.current)

  -- The current package may use the name, which stands for the type without type arguments.
  abbrev pub IsUsable : Named → Type 0
  IsUsable nm = (nm.generic ≡ false) × (IsLocal nm ⊎ (nm.exported ≡ true))

  -- The current package may select a field of the type: it is exported, or the type is its own.
  abbrev pub CanSelect : GoType → Bool → Type 0
  CanSelect s exported = (exported ≡ true) ⊎ (nm : Named) × (s ≡ named nm) × IsLocal nm

  -- how a name is written in the current package
  abbrev pub spelled : Named → String
  spelled nm = elim nm.pkg [
    | none ↦ nm.name
    | some pkg ↦ if pkg.path == u.current then nm.name else pkg.name +s "." +s nm.name
  ]

  -- The text denotes the type. What go/types calls the basic type Pointer is unsafe.Pointer.
  pub data Denotes : String → GoType → Type 0 where
    predeclared : {name : String} → name ≢ "Pointer" → Denotes name (basic name)
    local : {nm : Named} → nm.generic ≡ false → IsLocal nm → Denotes nm.name (named nm)

  -- A Reset method without parameters: of the type, of pointers to it, or one that is generated.
  abbrev pub HasReset : GoType → Type 0
  HasReset t =
      (has_reset_method u t ≡ true) ⊎ (nm : Named) × (t ≡ named nm) × (u.reset_types nm ≡ true)

  -- x.Reset() is allowed for an x of the type that has an address
  pub data CanReset : GoType → Type 0 where
    by_value : {t : GoType} → HasReset t → CanReset t
    by_pointer : {t : GoType} → HasReset t → IsStruct (under t) → CanReset (pointer t)

  -- x.f has the type: x is a struct, or a pointer to one
  pub data FieldOf : GoType → String → GoType → Type 0 where
    of_struct :
        {s t : GoType} {f : String} {exported : Bool} {fs : Fields}
        → under s ≡ struct fs
        → HasField fs f exported t
        → CanSelect s exported
        → FieldOf s f t
    of_pointer :
        {s t : GoType} {f : String} {exported : Bool} {fs : Fields}
        → under s ≡ struct fs
        → HasField fs f exported t
        → CanSelect s exported
        → FieldOf (pointer s) f t

  -- In a method of a pointer to the type.
  module _ (self : GoType) where
    mutual
      pub data ReceiverType : Receiver → GoType → Type 0 where
        is_receiver : ReceiverType (ident "r") (pointer self)
        is_field :
            {r : Receiver} {f : String} {t : GoType}
            → ExprType (selector r f) t
            → ReceiverType (child r f) t

      pub data ExprType : Expr → GoType → Type 0 where
        selected :
            {r : Receiver} {s t : GoType} {f : String}
            → ReceiverType r s
            → FieldOf s f t
            → ExprType (selector r f) t
        followed : {e : Expr} {t : GoType} → ExprType e (pointer t) → ExprType (star e) t

    -- The right side can be assigned to a place of the type.
    pub data Fits : Zero → GoType → Type 0 where
      constant :
          {t : GoType} {name text : String}
          → under t ≡ basic name
          → BasicConstant name text
          → Fits (literal text) t
      nil : {t : GoType} → IsNilable (under t) → Fits (literal "nil") t
      resliced :
          {e : Expr} {t elem : GoType} → ExprType e t → under t ≡ slice elem → Fits (truncated e) t
      zero_array :
          {t elem : GoType} {name : String} {n : ℕ}
          → under t ≡ array elem n
          → Denotes name elem
          → Fits (array_literal name n) t
      zero_struct :
          {nm : Named}
          → IsUsable nm
          → IsStruct (u.underlying nm)
          → Fits (composite (spelled nm)) (named nm)

    mutual
      pub data StmtTyped : Stmt → Type 0 where
        assigned :
            {e : Expr} {z : Zero} {t : GoType} → ExprType e t → Fits z t → StmtTyped (assign e z)
        cleared :
            {e : Expr} {t key elem : GoType}
            → ExprType e t
            → under t ≡ map_of key elem
            → StmtTyped (clear_call e)
        reset_typed : {e : Expr} {t : GoType} → ExprType e t → CanReset t → StmtTyped (reset_call e)
        tested :
            {e : Expr} {t : GoType} {b : Block}
            → ExprType e t
            → IsNilable (under t)
            → BlockTyped b
            → StmtTyped (if_not_nil e b)
        returned : StmtTyped (return_if_nil "r")

      pub data BlockTyped : Block → Type 0 where
        none_typed : BlockTyped empty
        next_typed : {s : Stmt} {b : Block} → StmtTyped s → BlockTyped b → BlockTyped (next s b)

  -- No pointer to a pointer, no array of a type of another package or of unsafe.Pointer, no name that
  -- the current package may not use, no instance of a generic type, and no exported field whose name is blank, as far as the type is
  -- written out and its fields are exported.
  unfoldable mutual
    pub IsPlain : GoType → Type 0
    IsPlain (named nm) = IsUsable nm
    IsPlain (array (named nm) n) = (nm.generic ≡ false) × IsLocal nm
    IsPlain (array (basic name) n) = name ≢ "Pointer"
    IsPlain (pointer (pointer t)) = ⊥
    IsPlain (pointer t) = IsPlain t
    IsPlain (struct fs) = ArePlain fs
    IsPlain _ = Unit

    pub ArePlain : Fields → Type 0
    ArePlain end = Unit
    ArePlain (field name exported t fs) = (exported ≡ true → (name ≢ "_") × IsPlain t) × ArePlain fs

-- What a named type stands for: never a named type, and here no pointer either.
abbrev pub IsUnderlying : GoType → Type 0
IsUnderlying (named nm) = ⊥
IsUnderlying (pointer t) = ⊥
IsUnderlying _ = Unit
