-- ===== src/Staticlint/Reports.antt =====
-- What exitcheck reports: the calls of os.Exit, by these names, in the body of a main function.
use mathlib.Core.List.Memᴰ.{append_left, append_right, append_cases, not-nil, eq_of_singleton}
use mathlib.Core.Path.{subst}
use shortener.Base.{
  ℕ, String, true, false, ◌==◌, eq_iff, ◌≡◌, refl, sym, inl, inr, ◌↔◌, List, [], ◌∷◌, Memᴰ,
  if◌then◌else◌, Bool-cases, arith,
}
use shortener.Staticlint.Exitcheck.{
  Node, ident, selector_expr, call_expr, func_decl, Nodes, File, inspect_all, check_call,
  check_decl, contains, check_files, run,
}
use shortener.Staticlint.Inspecting.{
  Has, HasAny, Reported-inspect, AnyReported-inspect_all, inspect-Has, inspect_all-HasAny,
}

-- A call at the position whose function is written `os.Exit`.
abbrev pub IsExitCall : ℕ → Node → Type 0
IsExitCall pos n = (args : Nodes) × (n ≡ call_expr pos (selector_expr (ident "os") "Exit") args)

-- A function, not a method, that is called main, by its body.
abbrev pub IsMain : Node → Node → Type 0
IsMain n body = (type : Node) × (n ≡ func_decl false "main" type body)

check_call_on : (n : Node) → (check_call n).1 ≡ true
unfolding check_call
check_call_on (call_expr pos (selector_expr (ident name) sel) args) = refl
check_call_on n = refl

check_decl_on : (n : Node) → (check_decl n).1 ≡ true
unfolding check_decl
check_decl_on (func_decl recv name type body) = refl
check_decl_on n = refl

module _ (pos : ℕ) where
  check_call-IsExitCall : (n : Node) → Memᴰ pos (check_call n).0 → IsExitCall pos n
  unfolding check_call
  check_call-IsExitCall (call_expr p (selector_expr (ident name) sel) args) h =
      elim (Bool-cases (sel == "Exit")) [
        | inr differs ↦ absurd (not-nil (rw differs at h))
        | inl exits ↦ elim (Bool-cases (name == "os")) [
          | inr differs ↦ absurd (not-nil (rw (exits, differs) at h))
          | inl os ↦
              let same = eq_of_singleton (rw (exits, os) at h) in
              (
                args,
                λ i.
                    call_expr (sym same i)
                      (selector_expr (ident ((eq_iff name "os").0 os i))
                        ((eq_iff sel "Exit").0 exits i))
                      args,
              )
        ]
      ]
  check_call-IsExitCall n h = absurd (not-nil h)

  IsExitCall-check_call : (n : Node) → IsExitCall pos n → Memᴰ pos (check_call n).0
  unfolding check_call
  IsExitCall-check_call n (args, e) = rw e (Memᴰ.head refl)

  check_decl-IsMain :
      (n : Node)
      → Memᴰ pos (check_decl n).0
      → (body : Node) × IsMain n body × (call : Node) × Has body call × IsExitCall pos call
  unfolding check_decl
  check_decl-IsMain (func_decl recv name type body) h = elim (Bool-cases recv) [
    | inl method ↦ absurd (not-nil (rw method at h))
    | inr function ↦ elim (Bool-cases (name == "main")) [
      | inr differs ↦ absurd (not-nil (rw (function, differs) at h))
      | inl main ↦
          let (call, there, reported) =
            Reported-inspect check_call check_call_on pos body (rw (function, main) at h) in
          (
            body,
            (type, λ i. func_decl (function i) ((eq_iff name "main").0 main i) type body),
            call,
            there,
            check_call-IsExitCall call reported,
          )
    ]
  ]
  check_decl-IsMain n h = absurd (not-nil h)

  IsMain-check_decl :
      (n body call : Node)
      → IsMain n body
      → Has body call
      → IsExitCall pos call
      → Memᴰ pos (check_decl n).0
  unfolding check_decl
  IsMain-check_decl n body call (type, e) there exits =
      rw e (inspect-Has check_call check_call_on pos there (IsExitCall-check_call call exits))

  -- A file that is checked has, in the body of a function main, a call of os.Exit at the position.
  abbrev pub Exits : File → Type 0
  Exits file =
      (contains file.filename "go-build" ≡ false)
      × (decl : Node) × HasAny file.decls decl
      × (body : Node) × IsMain decl body
      × (call : Node) × Has body call
      × IsExitCall pos call

  abbrev found : File → List ℕ
  found file = if contains file.filename "go-build" then [] else inspect_all check_decl file.decls

  found-Exits : (file : File) → Memᴰ pos (found file) → Exits file
  found-Exits file h = elim (Bool-cases (contains file.filename "go-build")) [
    | inl built ↦ absurd (not-nil (rw built at h))
    | inr checked ↦
        let (decl, there, reported) =
          AnyReported-inspect_all check_decl check_decl_on pos file.decls (rw checked at h) in
        let (body, main, call, inside, exits) = check_decl-IsMain decl reported in
        (checked, decl, there, body, main, call, inside, exits)
  ]

  Exits-found : (file : File) → Exits file → Memᴰ pos (found file)
  Exits-found file (checked, decl, there, body, main, call, inside, exits) = rw checked (
      inspect_all-HasAny check_decl check_decl_on pos there
        (IsMain-check_decl decl body call main inside exits))

  check_files-Exits :
      (files : List File)
      → Memᴰ pos (check_files files)
      → (file : File) × Memᴰ file files × Exits file
  unfolding check_files
  check_files-Exits [] h = absurd (not-nil h)
  check_files-Exits (file ∷ files) h = elim (append_cases (found file) h) [
    | inl first ↦ (file, Memᴰ.head refl, found-Exits file first)
    | inr rest ↦ let (f, m, x) = check_files-Exits files rest in (f, Memᴰ.tail m, x)
  ]

  Exits-check_files :
      (file : File) (files : List File)
      → Memᴰ file files
      → Exits file
      → Memᴰ pos (check_files files)
  unfolding check_files
  Exits-check_files file [] m x = absurd (not-nil m)
  Exits-check_files file (f ∷ fs) (Memᴰ.head e) x =
      append_left (check_files fs) (Exits-found f (subst Exits e x))
  Exits-check_files file (f ∷ fs) (Memᴰ.tail m) x =
      append_right (found f) (Exits-check_files file fs m x)

  -- exitcheck reports exactly the positions at which, in a package main and in one of its files whose
  -- name does not contain `go-build`, the body of a function main that is no method has a call, at
  -- whatever depth, of a function that is written `os.Exit`.
  pub run-Exits :
      (package_name : String) (files : List File)
      → Memᴰ pos (run package_name files)
        ↔ ((package_name ≡ "main") × (file : File) × Memᴰ file files × Exits file)
  unfolding run
  run-Exits package_name files = elim (Bool-cases (package_name == "main")) [
    | inl main ↦ rw main (
      (λ h.
          let (file, m, x) = check_files-Exits files h in
          ((eq_iff package_name "main").0 main, file, m, x)),
      λ (named, file, m, x). Exits-check_files file files m x,
    )
    | inr other_name ↦ rw other_name (
      (λ h. absurd (not-nil h)),
      λ (named, file, m, x).
          absurd (ground (arith, other_name, (eq_iff package_name "main").1 named)),
    )
  ]
