-- ===== src/Tests/Staticlint.antt =====
-- The theorem on exitcheck for a package of two files, one of them made by go build.
use shortener.Base.{ℕ, String, ◌≡◌, refl, ◌↔◌, true, false, [], ◌∷◌, Memᴰ}
use shortener.Staticlint.Exitcheck.{
  Node, ident, selector_expr, call_expr, func_decl, other, nil, cons, File, inspect, check_call,
  check_decl, check_files, run,
}
use shortener.Staticlint.Reports.{Exits, run-Exits}

-- os.Exit(x)
abbrev exit_call : ℕ → Node
exit_call pos = call_expr pos (selector_expr (ident "os") "Exit") (cons (ident "x") nil)

-- if x { os.Exit(x) }
abbrev body : Node
body = other (cons (other (cons (ident "x") (cons (exit_call 7) nil))) nil)

abbrev main_file : File
main_file = record {
  filename = "cmd/a/main.go";
  decls = cons (func_decl false "main" (other nil) body) (
      cons (func_decl true "main" (other nil) (exit_call 9))
        (cons (func_decl false "run" (other nil) (exit_call 11)) nil));
}

abbrev built_file : File
built_file = record {
  filename = "/tmp/go-build1/main.go";
  decls = cons (func_decl false "main" (other nil) (exit_call 13)) nil;
}

abbrev main_package : String
main_package = "main"

run-found : run main_package (main_file ∷ built_file ∷ []) ≡ 7 ∷ []
unfolding run check_files check_decl check_call inspect
run-found = refl

run-Exits_example : Memᴰ 7 (run main_package (main_file ∷ built_file ∷ [])) ↔ (
    (main_package ≡ "main")
    × (file : File) × Memᴰ file (main_file ∷ built_file ∷ [])
    × Exits 7 file)
run-Exits_example = run-Exits 7 main_package (main_file ∷ built_file ∷ [])
