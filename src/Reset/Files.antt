-- ===== src/Reset/Files.antt =====
-- generateResetFile and makeResets of cmd/reset/main.go, without the loading of the packages and the
-- writing of the files.
use mathlib.Core.List as L
use mathlib.Core.Path.{ap₂, subst}
use shortener.Reset.Safety.Statements.{Ensures, Ensures-any, Ensures-bind}
use shortener.Base.{ℕ, String, Bool, ◌≡◌, refl, sym, ap, ◌∙◌, Option, List, [], ◌∷◌, ◌++◌, map}
use shortener.Base.Lists.{All}
use shortener.Base.Dict.{Dict}
use shortener.Errors.{Result, ok, err}
use shortener.Reset.Syntax.{GoType, Block}
use shortener.Reset.Generator.{Gen, Generated, Universe, give, bind, generate_reset_func}
use shortener.Reset.Marks.{
  TypeSpec, Decl, ResetStruct, find_reset_structs, marked, paired, AllDefined,
  find_reset_structs-eq-marked,
}

-- a struct that is marked: its name and its declared fields
abbrev pub MarkedStruct : Type 0
MarkedStruct = String × List (List String × GoType)

-- the loop of generateResetFile: the methods so far, each with the name of its struct
unfoldable pub generate_methods :
    Universe → ℕ → List MarkedStruct → List (String × Block) → Gen (List (String × Block))
unfolding generate_reset_func
generate_methods u n [] methods = give methods
generate_methods u n ((name, fields) ∷ structs) methods =
    bind (generate_reset_func u n fields)
      (λ body. generate_methods u n structs (methods ++ (name, body) ∷ []))

-- generateResetFile: the imports that were noted, and the methods
unfoldable pub generate_reset_file :
    Universe → ℕ → List MarkedStruct → Option (Generated (List (String × Block)) × Dict Bool)
unfolding generate_methods
generate_reset_file u n structs = generate_methods u n structs [] []

-- packages.Package: the declarations of its files, and the objects of the types that they declare,
-- by their names, which differ within a package
pub record GoPackage : Type 0 where
  pub path : String
  pub files : List (List Decl)
  pub defs : String → Option String

-- what makeResets has collected: the marked structs of each package that has some, and their objects
pub record Collected : Type 0 where
  pub structs : List (String × List TypeSpec)
  pub reset_types : List String

abbrev specs_of : List ResetStruct → List TypeSpec
specs_of = map (λ s. s.spec)

abbrev objects_of : List ResetStruct → List String
objects_of = map (λ s. s.obj)

abbrev then_next : {A B : Type 0} → Result A → (A → Result B) → Result B
then_next (ok a) k = k a
then_next (err e) k = err e

-- the loop over the files of a package
unfoldable pub collect_files :
    (String → Option String)
    → List (List Decl)
    → List TypeSpec
    → List String
    → Result (List TypeSpec × List String)
collect_files defs [] structs types = ok (structs, types)
collect_files defs (file ∷ files) structs types =
    then_next (find_reset_structs defs file)
      (λ found. collect_files defs files (structs ++ specs_of found) (types ++ objects_of found))

-- a package without marked structs is left out
abbrev noted :
    String → List TypeSpec → List (String × List TypeSpec) → List (String × List TypeSpec)
noted path [] packages = packages
noted path (s ∷ structs) packages = packages ++ (path, s ∷ structs) ∷ []

-- the loop over the packages
unfoldable pub collect_packages : List GoPackage → Collected → Result Collected
unfolding collect_files
collect_packages [] c = ok c
collect_packages (p ∷ ps) c =
    then_next (collect_files p.defs p.files [] c.reset_types) (λ r.
      collect_packages ps (record { structs = noted p.path r.0 c.structs; reset_types = r.1 }))

-- The marked structs of a package's files, in order.
abbrev pub all_marked : GoPackage → List (List Decl) → List TypeSpec
all_marked p [] = []
all_marked p (file ∷ files) = marked p.defs file ++ all_marked p files

abbrev pub marked_objects : (GoPackage → String → String) → List GoPackage → List String
marked_objects object [] = []
marked_objects object (p ∷ ps) =
    map (λ s. object p s.name) (all_marked p p.files) ++ marked_objects object ps

abbrev pub marked_packages : List GoPackage → List (String × List TypeSpec)
marked_packages [] = []
marked_packages (p ∷ ps) = noted p.path (all_marked p p.files) [] ++ marked_packages ps

map-append : {A B : Type 0} (f : A → B) (xs ys : List A) → map f (xs ++ ys) ≡ map f xs ++ map f ys
map-append f [] ys = refl
map-append {B = B} f (x ∷ xs) ys = ap (λ (l : List B). f x ∷ l) (map-append f xs ys)

module _ (object : GoPackage → String → String) where
  -- The type checker has an object for every type that the package's files declare.
  abbrev pub IsKnown : GoPackage → Type 0
  IsKnown p = All (AllDefined p.defs (object p)) p.files

  specs_of-paired :
      (p : GoPackage) (specs : List TypeSpec)
      → specs_of (map (paired p.defs (object p)) specs) ≡ specs
  specs_of-paired p [] = refl
  specs_of-paired p (s ∷ specs) = ap (λ (l : List TypeSpec). s ∷ l) (specs_of-paired p specs)

  objects_of-paired :
      (p : GoPackage) (specs : List TypeSpec)
      → objects_of (map (paired p.defs (object p)) specs) ≡ map (λ s. object p s.name) specs
  objects_of-paired p [] = refl
  objects_of-paired p (s ∷ specs) =
      ap (λ (l : List String). object p s.name ∷ l) (objects_of-paired p specs)

  collect_files-eq-marked :
      (p : GoPackage) (files : List (List Decl)) (structs : List TypeSpec) (types : List String)
      → All (AllDefined p.defs (object p)) files
      → collect_files p.defs files structs types
        ≡ ok (
          structs ++ all_marked p files,
          types ++ map (λ s. object p s.name) (all_marked p files),
        )
  unfolding collect_files
  collect_files-eq-marked p [] structs types known = ap ok (
      ap₂ (λ (a : List TypeSpec) (b : List String). (a, b)) (sym (L.append-nil structs))
        (sym (L.append-nil types)))
  collect_files-eq-marked p (file ∷ files) structs types known =
      let here = marked p.defs file in
      let names = map (λ (s : TypeSpec). object p s.name) here in
      ap
        (λ (r : Result (List ResetStruct)). then_next r (λ found.
          collect_files p.defs files (structs ++ specs_of found) (types ++ objects_of found)))
        (find_reset_structs-eq-marked p.defs (object p) file known.0)
      ∙ ap₂
          (λ (a : List TypeSpec) (b : List String).
            collect_files p.defs files (structs ++ a) (types ++ b))
          (specs_of-paired p here) (objects_of-paired p here)
      ∙ collect_files-eq-marked p files (structs ++ here) (types ++ names) known.1
      ∙ ap ok (
          ap₂ (λ (a : List TypeSpec) (b : List String). (a, b))
            (L.append_assoc structs here (all_marked p files))
            (L.append_assoc types names (map (λ s. object p s.name) (all_marked p files))
              ∙ ap (λ (l : List String). types ++ l)
                  (sym (map-append (λ (s : TypeSpec). object p s.name) here (all_marked p files)))))

  noted-append :
      (path : String) (structs : List TypeSpec) (packages : List (String × List TypeSpec))
      → noted path structs packages ≡ packages ++ noted path structs []
  noted-append path [] packages = sym (L.append-nil packages)
  noted-append path (s ∷ structs) packages = refl

  -- The end of the loop over the packages, from any point.
  abbrev collected : List GoPackage → Collected → Collected
  collected ps c = record {
    structs = c.structs ++ marked_packages ps;
    reset_types = c.reset_types ++ marked_objects object ps;
  }

  collect_packages-eq-collected :
      (ps : List GoPackage) (c : Collected)
      → All IsKnown ps
      → collect_packages ps c ≡ ok (collected ps c)
  unfolding collect_packages
  collect_packages-eq-collected [] c known = ap ok (
      ap₂ (λ a b. record { structs = a; reset_types = b }) (sym (L.append-nil c.structs))
        (sym (L.append-nil c.reset_types)))
  collect_packages-eq-collected (p ∷ ps) c known =
      let here = all_marked p p.files in
      let names = map (λ (s : TypeSpec). object p s.name) here in
      ap
        (λ (r : Result (List TypeSpec × List String)). then_next r (λ r.
          collect_packages ps (record { structs = noted p.path r.0 c.structs; reset_types = r.1 })))
        (collect_files-eq-marked p p.files [] c.reset_types known.0)
      ∙ collect_packages-eq-collected ps
          (record { structs = noted p.path here c.structs; reset_types = c.reset_types ++ names })
          known.1
      ∙ ap ok (
          ap₂ (λ a b. record { structs = a; reset_types = b })
            (ap (λ (l : List (String × List TypeSpec)). l ++ marked_packages ps)
                (noted-append p.path here c.structs)
              ∙ L.append_assoc c.structs (noted p.path here []) (marked_packages ps))
            (L.append_assoc c.reset_types names (marked_objects object ps)))

  -- Where the type checker has an object for every type that is declared, the loops of makeResets over the packages
  -- and their files collect, for each package that has some, exactly the structs with a marker of
  -- their own or over their block, in order, and the objects of all of them, which the generator
  -- then knows in every package.
  pub collect_packages-eq-marked :
      (ps : List GoPackage)
      → All IsKnown ps
      → collect_packages ps (record { structs = []; reset_types = [] })
        ≡ ok (record { structs = marked_packages ps; reset_types = marked_objects object ps })
  collect_packages-eq-marked ps known =
      collect_packages-eq-collected ps (record { structs = []; reset_types = [] }) known

-- The file has one method for each struct, in order.
pub generate_reset_file-names :
    (u : Universe) (n : ℕ) (structs : List MarkedStruct)
    → Ensures
        (λ methods. map (λ m. m.0) methods ≡ map (λ s. s.0) structs)
        (generate_reset_file u n structs)
unfolding generate_reset_file generate_methods
generate_reset_file-names u n structs = names structs [] []
  where
    names :
        (structs : List MarkedStruct) (methods : List (String × Block)) (imports : Dict Bool)
        → Ensures
            (λ all. map (λ m. m.0) all ≡ map (λ m. m.0) methods ++ map (λ s. s.0) structs)
            (generate_methods u n structs methods imports)
    names [] methods imports = sym (L.append-nil (map (λ m. m.0) methods))
    names ((name, fields) ∷ structs) methods imports =
        Ensures-bind (λ body. Unit {0})
          (λ all. map (λ m. m.0) all ≡ map (λ m. m.0) methods ++ name ∷ map (λ s. s.0) structs)
          (generate_reset_func u n fields)
          (λ body. generate_methods u n structs (methods ++ (name, body) ∷ [])) imports
          (Ensures-any (generate_reset_func u n fields imports))
          (λ body imports' any.
            subst
              (λ l.
                Ensures (λ all. map (λ m. m.0) all ≡ l)
                  (generate_methods u n structs (methods ++ (name, body) ∷ []) imports'))
              (ap (λ (l : List String). l ++ map (λ s. s.0) structs)
                  (map-append (λ (m : String × Block). m.0) methods ((name, body) ∷ []))
                ∙ L.append_assoc (map (λ m. m.0) methods) (name ∷ []) (map (λ s. s.0) structs))
              (names structs (methods ++ (name, body) ∷ []) imports'))
