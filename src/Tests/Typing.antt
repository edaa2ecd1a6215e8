-- ===== src/Tests/Typing.antt =====
-- The theorem on the types of a generated method, for a struct with a slice, a pointer to a struct
-- and a field that is reset by its own method.
use mathlib.Core.Bool.{true≢false}
use shortener.Base.{
  sym, inl, String, Bool, true, false, ◌==◌, eq_iff, ◌≡◌, ◌≢◌, refl, none, List, [], ◌∷◌, arith,
}
use shortener.Reset.Syntax.{
  Named, GoType, basic, slice, array, pointer, named, struct, Fields, end, field, ident, selector,
  child, Block, empty, next, append, assign, truncated, array_literal, if_not_nil, return_if_nil,
  reset_call, literal,
}
use shortener.Reset.Generator.{
  Universe, reset_statement, generate_reset_func, basic_literal, has_reset_method, child_statements,
  name_statements, field_statements,
}
use shortener.Reset.Typing.{here, later, BlockTyped, IsPlain, IsUnderlying}
use shortener.Reset.Typing.Methods.{Declares, generate_reset_func-BlockTyped}
use shortener.Tests.Reset.{node}

not_blank : (name : String) → (name == "_") ≡ false → name ≢ "_"
not_blank name differs e = ground (arith, differs, (eq_iff name "_").1 e)

abbrev byte : String
byte = "byte"

not_pointer : byte ≢ "Pointer"
not_pointer e = ground (arith, (eq_iff byte "Pointer").1 e)

abbrev data_type : Named
data_type = record {
  object = "p.Data";
  exported = true;
  generic = false;
  name = "Data";
  pkg = none;
}

abbrev data_fields : Fields
data_fields = field "names" false (slice (basic "string")) (
    field "first" false (pointer (named node)) (
      field "other" false (pointer (named data_type))
        (field "sum" false (array (basic "byte") 4) end)))

abbrev stands_for : Bool → GoType
stands_for true = struct data_fields
stands_for false = struct (field "Text" true (basic "string") end)

-- a package with a marked struct Data, in which every other name is a struct with one text
abbrev typed : Universe
typed = record {
  underlying = λ n. stands_for (n.name == "Data");
  method_set = λ t. [];
  reset_types = λ n. n.name == "Data";
  current = "p";
}

stands_for-IsUnderlying : (b : Bool) → IsUnderlying (stands_for b)
stands_for-IsUnderlying true = tt
stands_for-IsUnderlying false = tt

stands_for-IsPlain : (b : Bool) → IsPlain typed (stands_for b)
unfolding IsPlain
stands_for-IsPlain true = (
  (λ e. absurd (true≢false (sym e))),
  (
    (λ e. absurd (true≢false (sym e))),
    ((λ e. absurd (true≢false (sym e))), ((λ e. absurd (true≢false (sym e))), tt)),
  ),
)
stands_for-IsPlain false = ((λ e. (not_blank "Text" refl, tt)), tt)

no_methods : (t : GoType) (A : Type 0) → has_reset_method typed t ≡ true → A
unfolding has_reset_method
no_methods t A h = absurd (ground (arith, h))

abbrev declared : List (List String × GoType)
declared =
    ("names" ∷ [], slice (basic "string"))
    ∷ ("first" ∷ [], pointer (named node))
    ∷ ("other" ∷ [], pointer (named data_type))
    ∷ ("sum" ∷ [], array (basic "byte") 4)
    ∷ []

-- if r == nil { return }; r.names = r.names[:0]; if r.first != nil { r.first.Text = "" };
-- if r.other != nil { r.other.Reset() }; r.sum = [4]byte{}
abbrev typed_body : Block
typed_body = next (return_if_nil "r") (
    next (assign (selector (ident "r") "names") (truncated (selector (ident "r") "names"))) (
      next
        (if_not_nil (selector (ident "r") "first")
          (next (assign (selector (child (ident "r") "first") "Text") (literal "\"\"")) empty))
        (next
          (if_not_nil (selector (ident "r") "other")
            (next (reset_call (selector (ident "r") "other")) empty))
          (next (assign (selector (ident "r") "sum") (array_literal "byte" 4)) empty))))

declares : Declares typed data_fields declared
unfolding IsPlain
declares = (
  ((false, here (not_blank "names" refl)), tt),
  tt,
  (
    ((false, (later (here (not_blank "first" refl)))), tt),
    (refl, inl (inl refl)),
    (
      ((false, (later (later (here (not_blank "other" refl))))), tt),
      (refl, inl (inl refl)),
      (((false, (later (later (later (here (not_blank "sum" refl)))))), tt), not_pointer, tt),
    ),
  ),
)

generate_reset_func-BlockTyped_example : BlockTyped typed (named data_type) typed_body
unfolding generate_reset_func field_statements name_statements reset_statement child_statements
    has_reset_method basic_literal append IsPlain
generate_reset_func-BlockTyped_example =
    generate_reset_func-BlockTyped typed (λ nm. stands_for-IsUnderlying (nm.name == "Data"))
      (λ nm. stands_for-IsPlain (nm.name == "Data"))
      (λ nm. no_methods (typed.underlying nm) (has_reset_method typed (named nm) ≡ true)) data_type
      data_fields refl (inl refl) 5 declared [] [] typed_body declares refl
