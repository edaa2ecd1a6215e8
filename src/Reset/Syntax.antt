-- ===== src/Reset/Syntax.antt =====
-- What cmd/reset/main.go reads of go/types, and the statements that it builds with go/ast.
use shortener.Base.{ℕ, String, Bool, Option, List}

pub record Package : Type 0 where
  pub name : String
  pub path : String

-- types.Named: its object, the name and the package of that, whether it is exported, and whether the
-- type is an instance of a generic one
pub record Named : Type 0 where
  pub object : String
  pub exported : Bool
  pub generic : Bool
  pub name : String
  pub pkg : Option Package

-- a method of a method set: its name and the number of its parameters
pub record Method : Type 0 where
  pub name : String
  pub params : ℕ

-- types.Type; what a named type stands for is looked up, so that a type can hold itself
mutual
  pub data GoType : Type 0 where
    basic : String → GoType
    slice : GoType → GoType
    array : GoType → ℕ → GoType
    map_of : GoType → GoType → GoType
    named : Named → GoType
    pointer : GoType → GoType
    struct : Fields → GoType
    interface : List Method → GoType
    other_type : String → GoType

  -- the fields of a struct: name, whether it is exported, type
  pub data Fields : Type 0 where
    end : Fields
    field : String → Bool → GoType → Fields → Fields

-- the text of a receiver: `r`, or `receiver.field` by fmt.Sprintf
pub data Receiver : Type 0 where
  ident : String → Receiver
  child : Receiver → String → Receiver

-- ast.SelectorExpr and ast.StarExpr
pub data Expr : Type 0 where
  selector : Receiver → String → Expr
  star : Expr → Expr

-- the right side of an assignment
pub data Zero : Type 0 where
  literal : String → Zero
  -- x[:0]
  truncated : Expr → Zero
  -- [n]elem{}
  array_literal : String → ℕ → Zero
  -- name{}
  composite : String → Zero

mutual
  pub data Stmt : Type 0 where
    assign : Expr → Zero → Stmt
    clear_call : Expr → Stmt
    reset_call : Expr → Stmt
    -- if x != nil { … }
    if_not_nil : Expr → Block → Stmt
    -- if r == nil { return }
    return_if_nil : String → Stmt

  pub data Block : Type 0 where
    empty : Block
    next : Stmt → Block → Block

abbrev pub single : Stmt → Block
single s = next s empty

unfoldable pub append : Block → Block → Block
append empty c = c
append (next s b) c = next s (append b c)
