-- ===== src/Reset/Generator.antt =====
-- resetStatement and generateResetFunc of cmd/reset/main.go. A call that runs out of fuel is `none`.
use shortener.Base.{
  ℕ, zero, suc, String, Bool, true, false, ◌==◌, Option, none, some, List, [], ◌∷◌, if◌then◌else◌,
  nat_eq,
}
use shortener.Base.Dict.{Dict, insert}
use shortener.Base.Text.{◌+s◌}
use shortener.Reset.Syntax.{
  Named, Method, GoType, basic, slice, array, map_of, named, pointer, struct, interface, other_type,
  Fields, end, field, Receiver, ident, child, Expr, selector, star, Zero, literal, truncated,
  array_literal, composite, Stmt, assign, clear_call, reset_call, if_not_nil, return_if_nil, Block,
  empty, next, single, append,
}

pub data GenError : Type 0 where
  unknown_basic_type : String → GenError
  unknown_element_type : GenError
  -- ErrNotExportedFields
  not_exported_fields : GenError
  interface_pointer : GenError
  unknown_type : String → GenError

pub data Generated (A : Type 0) : Type 0 where
  generated : A → Generated A
  refused : GenError → Generated A

-- The result and the imports that were noted; `none` where the fuel ran out.
abbrev pub Gen : Type 0 → Type 0
Gen A = Dict Bool → Option (Generated A × Dict Bool)

abbrev pub give : {A : Type 0} → A → Gen A
give a imports = some (generated a, imports)

abbrev pub refuse : {A : Type 0} → GenError → Gen A
refuse e imports = some (refused e, imports)

abbrev pub bind : {A B : Type 0} → Gen A → (A → Gen B) → Gen B
bind m k imports = elim (m imports) [
  | none ↦ none
  | some (refused e, imports') ↦ some (refused e, imports')
  | some (generated a, imports') ↦ k a imports'
]

-- the left side that assignmentStatement makes
abbrev pub place : Receiver → String → Bool → Expr
place receiver field' deref =
    if deref then star (selector receiver field') else selector receiver field'

-- assignmentStatement
abbrev pub assignment_statement : Receiver → String → Bool → Zero → Stmt
assignment_statement receiver field' deref z = assign (place receiver field' deref) z

abbrev pub is_one_of : String → List String → Bool
is_one_of name [] = false
is_one_of name (x ∷ xs) = let rest = is_one_of name xs in if name == x then true else rest

-- the literal of a basic type
unfoldable pub basic_literal : String → Option String
basic_literal name =
    if name == "string"
    then some "\"\""
    else if name == "bool"
    then some "false"
    else if is_one_of name (
        "int" ∷ "int8" ∷ "int16" ∷ "int32" ∷ "int64" ∷ "uint" ∷ "uint8" ∷ "uint16" ∷ "uint32"
        ∷ "uint64" ∷ "uintptr" ∷ [])
    then some "0"
    else if is_one_of name ("float32" ∷ "float64" ∷ [])
    then some "0.0"
    else if is_one_of name ("complex64" ∷ "complex128" ∷ [])
    then some "0i"
    else none

-- the name of an array's element type
abbrev pub element_name : GoType → Option String
element_name (basic name) = some name
element_name (named n) = some n.name
element_name _ = none

-- the loop over a method set
abbrev pub has_reset : List Method → Bool
has_reset [] = false
has_reset (method ∷ methods) =
    let rest = has_reset methods in
    if method.name == "Reset" then (if nat_eq method.params 0 then true else rest) else rest

-- the statement of a pointer's target, if there is any, behind the test
abbrev pub guarded : Expr → Block → Block
guarded x empty = empty
guarded x (next s b) = single (if_not_nil x (next s b))

-- the name of a type in the current package or in another, and the import of that
abbrev pub qualified : String → Named → Dict Bool → String × Dict Bool
qualified current n imports = elim n.pkg [
  | none ↦ (n.name, imports)
  | some pkg ↦
      if pkg.path == current
      then (n.name, imports)
      else (pkg.name +s "." +s n.name, insert pkg.path true imports)
]

-- The packages go/types and go/packages: what a named type stands for, method sets, the types that
-- are marked, and the path of the current package.
pub record Universe : Type 0 where
  pub underlying : Named → GoType
  pub method_set : GoType → List Method
  pub reset_types : Named → Bool
  pub current : String

module _ (u : Universe) where
  -- hasResetMethod
  unfoldable pub has_reset_method : GoType → Bool
  has_reset_method t =
      if has_reset (u.method_set t) then true else has_reset (u.method_set (pointer t))

  -- the answer to ErrNotExportedFields in a named type
  abbrev pub or_composite :
      Receiver
      → String
      → Bool
      → Named
      → Option (Generated Block × Dict Bool)
      → Option (Generated Block × Dict Bool)
  or_composite receiver field' deref n none = none
  or_composite receiver field' deref n (some (generated b, imports)) = some (generated b, imports)
  or_composite receiver field' deref n (some (refused not_exported_fields, imports)) =
      let (name, imports') = qualified u.current n imports in
      some
        (generated (single (assignment_statement receiver field' deref (composite name))), imports')
  or_composite receiver field' deref n (some (refused e, imports)) = some (refused e, imports)

  -- the loop over the fields of a struct behind a pointer
  unfoldable pub child_statements : (String → GoType → Gen Block) → Fields → Block → Gen Block
  child_statements reset end b imports = give b imports
  child_statements reset (field name exported t fs) b imports =
      if exported
      then bind (reset name t) (λ c. child_statements reset fs (append b c)) imports
      else refuse not_exported_fields imports

  -- resetStatement: receiver, field, type, pointer, hasReset
  unfoldable pub reset_statement : ℕ → Receiver → String → GoType → Bool → Bool → Gen Block
  unfolding basic_literal child_statements
  reset_statement zero receiver field' t deref has = λ imports. none
  reset_statement (suc n) receiver field' (basic name) deref has = elim (basic_literal name) [
    | none ↦ refuse (unknown_basic_type name)
    | some text ↦ give (single (assignment_statement receiver field' deref (literal text)))
  ]
  reset_statement (suc n) receiver field' (slice elem) deref has = give (
      single (assignment_statement receiver field' deref (truncated (place receiver field' deref))))
  reset_statement (suc n) receiver field' (array elem len) deref has = elim (element_name elem) [
    | none ↦ refuse unknown_element_type
    | some name ↦
        give (single (assignment_statement receiver field' deref (array_literal name len)))
  ]
  reset_statement (suc n) receiver field' (map_of key elem) deref has =
      give (single (clear_call (place receiver field' deref)))
  reset_statement (suc n) receiver field' (named nm) deref has = λ imports.
      let has' =
        if u.reset_types nm then true else if has_reset_method (named nm) then true else has in
      or_composite receiver field' deref nm
        (reset_statement n receiver field' (u.underlying nm) deref has' imports)
  reset_statement (suc n) receiver field' (pointer t) deref has =
      bind (reset_statement n receiver field' t true has)
        (λ b. give (guarded (selector receiver field') b))
  reset_statement (suc n) receiver field' (struct fs) deref has =
      let children =
        child_statements (λ name t. reset_statement n (child receiver field') name t false false) fs
          empty in
      if (if has then true else has_reset_method (struct fs))
      then give (single (reset_call (selector receiver field')))
      else if deref
      then children
      else give empty
  reset_statement (suc n) receiver field' (interface methods) deref has =
      if deref
      then refuse interface_pointer
      else if (if has then true else has_reset_method (interface methods))
      then give (
          single (
            if_not_nil (selector receiver field') (single (reset_call (selector receiver field')))))
      else give (single (assign (selector receiver field') (literal "nil")))
  reset_statement (suc n) receiver field' (other_type text) deref has = refuse (unknown_type text)

  -- the loop of generateResetFunc over the names of one declared field
  unfoldable pub name_statements : ℕ → Receiver → List String → GoType → Block → Gen Block
  unfolding reset_statement
  name_statements n receiver [] t body = give body
  name_statements n receiver (name ∷ names) t body =
      bind (reset_statement n receiver name t false false)
        (λ b. name_statements n receiver names t (append body b))

  -- the loop of generateResetFunc over the declared fields; an embedded field has no names
  unfoldable pub field_statements : ℕ → Receiver → List (List String × GoType) → Block → Gen Block
  unfolding name_statements
  field_statements n receiver [] body = give body
  field_statements n receiver ((names, t) ∷ fields) body =
      bind (name_statements n receiver names t body) (λ b. field_statements n receiver fields b)

  -- the body of the method that generateResetFunc makes: nilCheck, then the fields
  unfoldable pub generate_reset_func : ℕ → List (List String × GoType) → Gen Block
  unfolding field_statements
  generate_reset_func n fields =
      bind (field_statements n (ident "r") fields empty) (λ b. give (next (return_if_nil "r") b))
