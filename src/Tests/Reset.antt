-- ===== src/Tests/Reset.antt =====
-- The theorems on cmd/reset/main.go at concrete types, declarations and directories.
use shortener.Base.{
  String, Option, ◌==◌, true, false, ◌≡◌, refl, none, some, List, [], ◌∷◌, if◌then◌else◌, arith,
}
use shortener.Base.Lists.{All}
use shortener.Base.Text.{◌+s◌}
use shortener.Errors.{ok}
use shortener.Reset.Syntax.{
  Named, GoType, basic, slice, pointer, named, struct, end, field, ident, Expr, selector, child,
  Block, empty, next, append, assign, truncated, if_not_nil, return_if_nil, literal,
}
use shortener.Reset.Generator.{
  Universe, reset_statement, generate_reset_func, basic_literal, has_reset_method, child_statements,
  name_statements, field_statements,
}
use shortener.Reset.Termination.{Returns, reset_statement-Returns, reset_statement-cyclic}
use shortener.Reset.Safety.{run}
use shortener.Reset.Safety.Methods.{Declared, generate_reset_func-IsSafe}
use shortener.Reset.Marks.{Decl, type_decl, other_decl}
use shortener.Reset.Files.{
  GoPackage, collect_packages, marked_packages, marked_objects, collect_packages-eq-marked,
}

abbrev pub node : Named
node = record { object = "p.Node"; exported = true; generic = false; name = "Node"; pkg = none }

-- a package in which every named type is a struct with one text
abbrev flat : Universe
flat = record {
  underlying = λ n. struct (field "Text" true (basic "string") end);
  method_set = λ t. [];
  reset_types = λ n. false;
  current = "p";
}

-- a package in which every named type is a struct with a pointer to itself
abbrev linked : Universe
linked = record {
  underlying = λ n. struct (field "Next" true (pointer (named n)) end);
  method_set = λ t. [];
  reset_types = λ n. false;
  current = "p";
}

reset_statement-Returns_example :
    Returns (reset_statement flat 5 (ident "r") "first" (pointer (named node)) false false [])
reset_statement-Returns_example =
    reset_statement-Returns flat (λ n. 2) (λ n. omega arith) 5 (ident "r") "first"
      (pointer (named node)) false false [] (omega arith)

reset_statement-cyclic_example :
    reset_statement linked 100 (ident "r") "first" (pointer (named node)) false false [] ≡ none
unfolding has_reset_method
reset_statement-cyclic_example =
    reset_statement-cyclic linked node "Next" end refl refl refl refl 100 (ident "r") "first" false
      []

abbrev fields : List (List String × GoType)
fields = ("names" ∷ [], slice (basic "string")) ∷ ("first" ∷ [], pointer (named node)) ∷ []

-- if r == nil { return }; r.names = r.names[:0]; if r.first != nil { r.first.Text = "" }
abbrev method_body : Block
method_body = next (return_if_nil "r") (
    next (assign (selector (ident "r") "names") (truncated (selector (ident "r") "names"))) (
      next
        (if_not_nil (selector (ident "r") "first")
          (next (assign (selector (child (ident "r") "first") "Text") (literal "\"\"")) empty))
        empty))

generate_reset_func-IsSafe_example :
    (written : List Expr) × (run false (λ e. false) method_body ≡ some written)
    × All (Declared fields) written
    × (written ≡ (if false then [] else written))
unfolding generate_reset_func field_statements name_statements reset_statement child_statements
    has_reset_method basic_literal append
generate_reset_func-IsSafe_example =
    generate_reset_func-IsSafe flat 5 fields [] [] method_body false (λ e. false) refl

abbrev specs : List Decl
specs =
    other_decl
    ∷ type_decl none (
        record { name = "Data"; doc = some ("// generate:reset" ∷ []); is_struct = true }
        ∷ record { name = "Kind"; doc = some ("// generate:reset" ∷ []); is_struct = false }
        ∷ record { name = "Plain"; doc = none; is_struct = true }
        ∷ [])
    ∷ []

-- the objects of the types that are declared, and of no other name
abbrev defs_of : String → Option String
defs_of name =
    if name == "Data"
    then some "p.Data"
    else if name == "Kind"
    then some "p.Kind"
    else if name == "Plain"
    then some "p.Plain"
    else none

abbrev object_of : GoPackage → String → String
object_of p name = "p." +s name

abbrev data_package : GoPackage
data_package = record { path = "p"; files = specs ∷ []; defs = defs_of }

collect_packages-eq-marked_example :
    collect_packages (data_package ∷ []) (record { structs = []; reset_types = [] })
    ≡ ok (record {
      structs = marked_packages (data_package ∷ []);
      reset_types = marked_objects object_of (data_package ∷ []);
    })
collect_packages-eq-marked_example =
    collect_packages-eq-marked object_of (data_package ∷ [])
      (((((refl, (refl, (refl, tt))), tt), tt), tt))
