-- ===== src/Staticlint/Exitcheck.antt =====
-- cmd/staticlint/exitcheck/exitcheck.go over a data type of the syntax trees of go/ast, with ast.Inspect
-- as its documentation has it: it calls the function on a node, and, if that gives true, goes on to the
-- node's children in order.
use text.Mathlib.Text.{find?}
use shortener.Base.{
  ℕ, String, Bool, true, false, not, ◌||◌, ◌==◌, none, some, List, [], ◌∷◌, ◌++◌, if◌then◌else◌,
}

-- ast.Node, by what the analyzer looks at; any other node is its children
mutual
  pub data Node : Type 0 where
    ident : String → Node
    -- X.Sel
    selector_expr : Node → String → Node
    -- the position, Fun and Args
    call_expr : ℕ → Node → Nodes → Node
    -- whether there is a receiver, the name, the receiver and the type, and the body if there is one
    func_decl : Bool → String → Node → Node → Node
    func_header : Bool → String → Node → Node
    other : Nodes → Node

  pub data Nodes : Type 0 where
    nil : Nodes
    cons : Node → Nodes → Nodes

-- ast.File by its name, as the file set has it, and its declarations
pub record File : Type 0 where
  pub filename : String
  pub decls : Nodes

-- ast.Inspect with a function that gives the positions that it reports, and whether to go on
module _ (f : Node → List ℕ × Bool) where
  unfoldable mutual
    pub inspect : Node → List ℕ
    inspect (ident name) = (f (ident name)).0
    inspect (selector_expr x sel) =
        let (found, more) = f (selector_expr x sel) in
        let below = inspect x ++ (f (ident sel)).0 in if more then found ++ below else found
    inspect (call_expr pos fun args) =
        let (found, more) = f (call_expr pos fun args) in
        let below = inspect fun ++ inspect_all args in if more then found ++ below else found
    inspect (func_decl recv name type body) =
        let (found, more) = f (func_decl recv name type body) in
        let below = (f (ident name)).0 ++ inspect type ++ inspect body in
        if more then found ++ below else found
    inspect (func_header recv name type) =
        let (found, more) = f (func_header recv name type) in
        let below = (f (ident name)).0 ++ inspect type in if more then found ++ below else found
    inspect (other children) =
        let (found, more) = f (other children) in
        let below = inspect_all children in if more then found ++ below else found

    pub inspect_all : Nodes → List ℕ
    inspect_all nil = []
    inspect_all (cons n ns) = inspect n ++ inspect_all ns

-- the inner function of run: a call of `os.Exit` by these two names
unfoldable pub check_call : Node → List ℕ × Bool
check_call (call_expr pos (selector_expr (ident name) sel) args) =
    (if not (sel == "Exit") then [] else if name == "os" then pos ∷ [] else [], true)
check_call _ = ([], true)

-- the outer function of run: the body of a function `main`
unfoldable pub check_decl : Node → List ℕ × Bool
check_decl (func_decl recv name type body) =
    (if recv || not (name == "main") then [] else inspect check_call body, true)
check_decl _ = ([], true)

-- strings.Contains
abbrev pub contains : String → String → Bool
contains s t = elim (find? s t) [ none ↦ false | some _ ↦ true ]

-- the loop of run over the files
unfoldable pub check_files : List File → List ℕ
check_files [] = []
check_files (file ∷ files) =
    let found =
      if contains file.filename "go-build" then [] else inspect_all check_decl file.decls in
    found ++ check_files files

-- run, on a package by its name and its files: the positions that it reports
unfoldable pub run : String → List File → List ℕ
run package_name files = if not (package_name == "main") then [] else check_files files
