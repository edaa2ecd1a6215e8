-- ===== src/Reset/Marks.antt =====
-- findRootDir, hasGenerateReset and findResetStructs of cmd/reset/main.go.
use mathlib.Core.List.{append_assoc, append-nil}
use text.Mathlib.Text.{starts_with}
use shortener.Base.{
  String, Bool, true, false, not, ◌&&◌, ◌||◌, ◌≡◌, refl, sym, ap, ◌∙◌, Option, none, some, List, [],
  ◌∷◌, ◌++◌, if◌then◌else◌, arith, map, nat_eq,
}
use shortener.Base.Lists.{All, filter, length}
use shortener.Errors.{Result, ok, err, message}

-- an ast.TypeSpec: its name, its comment lines if it has any, and whether it is a struct
pub record TypeSpec : Type 0 where
  pub name : String
  pub doc : Option (List String)
  pub is_struct : Bool

-- an ast.GenDecl of token TYPE, or any other declaration
pub data Decl : Type 0 where
  type_decl : Option (List String) → List TypeSpec → Decl
  other_decl : Decl

-- ResetStruct: the type's object and its specification
pub record ResetStruct : Type 0 where
  pub obj : String
  pub spec : TypeSpec

abbrev any_marker : List String → Bool
any_marker [] = false
any_marker (line ∷ lines) =
    let rest = any_marker lines in if starts_with line "// generate:reset" then true else rest

-- hasGenerateReset
unfoldable pub has_generate_reset : Option (List String) → Bool
has_generate_reset none = false
has_generate_reset (some lines) = any_marker lines

-- One of the comment's lines begins with the marker.
abbrev pub has_marker : Option (List String) → Bool
has_marker none = false
has_marker (some lines) =
    not (nat_eq (length (filter (λ line. starts_with line "// generate:reset") lines)) 0)

has_generate_reset-eq-has_marker :
    (doc : Option (List String)) → has_generate_reset doc ≡ has_marker doc
unfolding has_generate_reset
has_generate_reset-eq-has_marker none = refl
has_generate_reset-eq-has_marker (some []) = refl
has_generate_reset-eq-has_marker (some (line ∷ lines)) =
    ground (arith, has_generate_reset-eq-has_marker (some lines))

module _ (defs : String → Option String) where
  -- the inner loop of findResetStructs
  unfoldable pub find_in_specs : Bool → List TypeSpec → List ResetStruct → Result (List ResetStruct)
  find_in_specs in_block [] result = ok result
  find_in_specs in_block (spec ∷ specs) result =
      let skipped = find_in_specs in_block specs result in
      if not in_block && not (has_generate_reset spec.doc)
      then skipped
      else if spec.is_struct
      then (elim (defs spec.name) [
        | none ↦ err (message "struct not found")
        | some obj ↦ find_in_specs in_block specs (result ++ record { obj = obj; spec = spec } ∷ [])
      ])
      else skipped

  abbrev then_decls :
      (List ResetStruct → Result (List ResetStruct))
      → Result (List ResetStruct)
      → Result (List ResetStruct)
  then_decls k (ok result) = k result
  then_decls k (err e) = err e

  unfoldable pub find_in_decls : List Decl → List ResetStruct → Result (List ResetStruct)
  unfolding find_in_specs
  find_in_decls [] result = ok result
  find_in_decls (other_decl ∷ decls) result = find_in_decls decls result
  find_in_decls (type_decl doc specs ∷ decls) result =
      then_decls (find_in_decls decls) (find_in_specs (has_generate_reset doc) specs result)

  -- findResetStructs
  unfoldable pub find_reset_structs : List Decl → Result (List ResetStruct)
  unfolding find_in_decls
  find_reset_structs decls = find_in_decls decls []

  -- The structs that a marker stands over, their own or that of their block, in order.
  abbrev is_marked : Bool → TypeSpec → Bool
  is_marked in_block spec = spec.is_struct && (in_block || has_marker spec.doc)

  abbrev pub marked : List Decl → List TypeSpec
  marked [] = []
  marked (other_decl ∷ decls) = marked decls
  marked (type_decl doc specs ∷ decls) = filter (is_marked (has_marker doc)) specs ++ marked decls

  module _ (object : String → String) where
    abbrev pub paired : TypeSpec → ResetStruct
    paired spec = record { obj = object spec.name; spec = spec }

    -- The type checker has an object for each of the types.
    abbrev pub AreDefined : List TypeSpec → Type 0
    AreDefined = All (λ spec. defs spec.name ≡ some (object spec.name))

    -- It has one for each type that the declarations declare.
    abbrev pub AllDefined : List Decl → Type 0
    AllDefined [] = Unit
    AllDefined (other_decl ∷ decls) = AllDefined decls
    AllDefined (type_decl doc specs ∷ decls) = AreDefined specs × AllDefined decls

    find_in_specs-eq-filter :
        (in_block : Bool) (specs : List TypeSpec) (result : List ResetStruct)
        → AreDefined specs
        → find_in_specs in_block specs result
          ≡ ok (result ++ map paired (filter (is_marked in_block) specs))
    unfolding find_in_specs
    find_in_specs-eq-filter in_block [] result known = rw append-nil
    find_in_specs-eq-filter in_block (spec ∷ specs) result known = ground (
      arith,
      known.0,
      has_generate_reset-eq-has_marker spec.doc,
      find_in_specs-eq-filter in_block specs result known.1,
      find_in_specs-eq-filter in_block specs (result ++ paired spec ∷ []) known.1,
      append_assoc result (paired spec ∷ []) (map paired (filter (is_marked in_block) specs)),
    )

    map-append : (xs ys : List TypeSpec) → map paired (xs ++ ys) ≡ map paired xs ++ map paired ys
    map-append [] ys = refl
    map-append (x ∷ xs) ys = ap (λ (l : List ResetStruct). paired x ∷ l) (map-append xs ys)

    find_in_decls-eq-marked :
        (decls : List Decl) (result : List ResetStruct)
        → AllDefined decls
        → find_in_decls decls result ≡ ok (result ++ map paired (marked decls))
    unfolding find_in_decls
    find_in_decls-eq-marked [] result known = rw append-nil
    find_in_decls-eq-marked (other_decl ∷ decls) result known =
        find_in_decls-eq-marked decls result known
    find_in_decls-eq-marked (type_decl doc specs ∷ decls) result known =
        let here = filter (is_marked (has_marker doc)) specs in
        rw
          (
            has_generate_reset-eq-has_marker doc,
            find_in_specs-eq-filter (has_marker doc) specs result known.0,
          )
          (find_in_decls-eq-marked decls (result ++ map paired here) known.1
            ∙ ap ok (
                append_assoc result (map paired here) (map paired (marked decls))
                ∙ ap (λ (l : List ResetStruct). result ++ l)
                    (sym (map-append here (marked decls)))))

    -- Where the type checker has an object for every declared type, findResetStructs collects exactly the
    -- structs with a marker of their own or over their block, each with its object, in the order of
    -- the file.
    pub find_reset_structs-eq-marked :
        (decls : List Decl)
        → AllDefined decls
        → find_reset_structs decls ≡ ok (map paired (marked decls))
    unfolding find_reset_structs
    find_reset_structs-eq-marked decls known = find_in_decls-eq-marked decls [] known
