-- ===== src/Staticlint/Inspecting.antt =====
-- What ast.Inspect finds in a tree: what its function reports of the nodes in it.
use mathlib.Core.List.Memᴰ.{append_left, append_right, append_cases, not-nil}
use mathlib.Core.Path.{subst}
use shortener.Base.{ℕ, String, Bool, true, ◌≡◌, ◌⊎◌, inl, inr, List, ◌++◌, Memᴰ, if◌then◌else◌}
use shortener.Staticlint.Exitcheck.{
  Node, ident, selector_expr, call_expr, func_decl, func_header, other, Nodes, nil, cons, inspect,
  inspect_all,
}

-- The second node stands in the tree of the first.
mutual
  pub data Has : Node → Node → Type 0 where
    itself : {n : Node} → Has n n
    in_expr : {x n : Node} {sel : String} → Has x n → Has (selector_expr x sel) n
    in_sel : {x : Node} {sel : String} → Has (selector_expr x sel) (ident sel)
    in_fun : {pos : ℕ} {fun n : Node} {args : Nodes} → Has fun n → Has (call_expr pos fun args) n
    in_args :
        {pos : ℕ} {fun n : Node} {args : Nodes} → HasAny args n → Has (call_expr pos fun args) n
    in_name :
        {recv : Bool} {name : String} {type body : Node}
        → Has (func_decl recv name type body) (ident name)
    in_type :
        {recv : Bool} {name : String} {type body n : Node}
        → Has type n
        → Has (func_decl recv name type body) n
    in_body :
        {recv : Bool} {name : String} {type body n : Node}
        → Has body n
        → Has (func_decl recv name type body) n
    in_header_name :
        {recv : Bool} {name : String} {type : Node} → Has (func_header recv name type) (ident name)
    in_header :
        {recv : Bool} {name : String} {type n : Node}
        → Has type n
        → Has (func_header recv name type) n
    in_other : {children : Nodes} {n : Node} → HasAny children n → Has (other children) n

  pub data HasAny : Nodes → Node → Type 0 where
    in_first : {m n : Node} {ms : Nodes} → Has m n → HasAny (cons m ms) n
    in_rest : {m n : Node} {ms : Nodes} → HasAny ms n → HasAny (cons m ms) n

-- A function that lets ast.Inspect go on everywhere.
module _ (f : Node → List ℕ × Bool) (goes_on : (n : Node) → (f n).1 ≡ true) (pos : ℕ) where
  -- Some node of the tree is reported at the position.
  abbrev Reported : Node → Type 0
  Reported n = (m : Node) × Has n m × Memᴰ pos (f m).0

  abbrev AnyReported : Nodes → Type 0
  AnyReported ns = (m : Node) × HasAny ns m × Memᴰ pos (f m).0

  unfolded :
      (n : Node) (below : List ℕ)
      → Memᴰ pos (if (f n).1 then (f n).0 ++ below else (f n).0)
      → Memᴰ pos (f n).0 ⊎ Memᴰ pos below
  unfolded n below h =
      append_cases (f n).0
        (subst (λ (b : Bool). Memᴰ pos (if b then (f n).0 ++ below else (f n).0)) (goes_on n) h)

  folded :
      (n : Node) (below : List ℕ)
      → Memᴰ pos (f n).0 ⊎ Memᴰ pos below
      → Memᴰ pos (if (f n).1 then (f n).0 ++ below else (f n).0)
  folded n below (inl h) = rw (goes_on n) (append_left below h)
  folded n below (inr h) = rw (goes_on n) (append_right (f n).0 h)

  mutual
    unfolding inspect

    pub Reported-inspect : (n : Node) → Memᴰ pos (inspect f n) → Reported n
    Reported-inspect (ident name) h = (ident name, itself, h)
    Reported-inspect (selector_expr x sel) h =
        elim (unfolded (selector_expr x sel) (inspect f x ++ (f (ident sel)).0) h) [
          | inl own ↦ (selector_expr x sel, itself, own)
          | inr below ↦ elim (append_cases (inspect f x) below) [
            | inl left ↦ let (m, there, here) = Reported-inspect x left in (m, in_expr there, here)
            | inr right ↦ (ident sel, in_sel, right)
          ]
        ]
    Reported-inspect (call_expr p fun args) h =
        elim (unfolded (call_expr p fun args) (inspect f fun ++ inspect_all f args) h) [
          | inl own ↦ (call_expr p fun args, itself, own)
          | inr below ↦ elim (append_cases (inspect f fun) below) [
            | inl left ↦ let (m, there, here) = Reported-inspect fun left in (m, in_fun there, here)
            | inr right ↦
                let (m, there, here) = AnyReported-inspect_all args right in
                (m, in_args there, here)
          ]
        ]
    Reported-inspect (func_decl recv name type body) h =
        elim (unfolded (func_decl recv name type body)
          ((f (ident name)).0 ++ inspect f type ++ inspect f body) h) [
            | inl own ↦ (func_decl recv name type body, itself, own)
            | inr below ↦ elim (append_cases ((f (ident name)).0 ++ inspect f type) below) [
              | inl left ↦ elim (append_cases (f (ident name)).0 left) [
                | inl first ↦ (ident name, in_name, first)
                | inr second ↦
                    let (m, there, here) = Reported-inspect type second in (m, in_type there, here)
              ]
              | inr right ↦
                  let (m, there, here) = Reported-inspect body right in (m, in_body there, here)
            ]
          ]
    Reported-inspect (func_header recv name type) h =
        elim (unfolded (func_header recv name type) ((f (ident name)).0 ++ inspect f type) h) [
          | inl own ↦ (func_header recv name type, itself, own)
          | inr below ↦ elim (append_cases (f (ident name)).0 below) [
            | inl first ↦ (ident name, in_header_name, first)
            | inr second ↦
                let (m, there, here) = Reported-inspect type second in (m, in_header there, here)
          ]
        ]
    Reported-inspect (other children) h =
        elim (unfolded (other children) (inspect_all f children) h) [
          | inl own ↦ (other children, itself, own)
          | inr below ↦
              let (m, there, here) = AnyReported-inspect_all children below in
              (m, in_other there, here)
        ]

    pub AnyReported-inspect_all : (ns : Nodes) → Memᴰ pos (inspect_all f ns) → AnyReported ns
    AnyReported-inspect_all nil h = absurd (not-nil h)
    AnyReported-inspect_all (cons n ns) h = elim (append_cases (inspect f n) h) [
      | inl first ↦ let (m, there, here) = Reported-inspect n first in (m, in_first there, here)
      | inr rest ↦
          let (m, there, here) = AnyReported-inspect_all ns rest in (m, in_rest there, here)
    ]

  own-inspect : (n : Node) → Memᴰ pos (f n).0 → Memᴰ pos (inspect f n)
  unfolding inspect
  own-inspect (ident name) h = h
  own-inspect (selector_expr x sel) h = folded (selector_expr x sel) _ (inl h)
  own-inspect (call_expr p fun args) h = folded (call_expr p fun args) _ (inl h)
  own-inspect (func_decl recv name type body) h = folded (func_decl recv name type body) _ (inl h)
  own-inspect (func_header recv name type) h = folded (func_header recv name type) _ (inl h)
  own-inspect (other children) h = folded (other children) _ (inl h)

  mutual
    unfolding inspect

    pub inspect-Has : {n m : Node} → Has n m → Memᴰ pos (f m).0 → Memᴰ pos (inspect f n)
    inspect-Has (itself {n}) h = own-inspect n h
    inspect-Has (in_expr {x} {n} {sel} there) h =
        folded (selector_expr x sel) _ (inr (append_left (f (ident sel)).0 (inspect-Has there h)))
    inspect-Has (in_sel {x} {sel}) h =
        folded (selector_expr x sel) _ (inr (append_right (inspect f x) h))
    inspect-Has (in_fun {pos = p} {fun} {n} {args} there) h =
        folded (call_expr p fun args) _
          (inr (append_left (inspect_all f args) (inspect-Has there h)))
    inspect-Has (in_args {pos = p} {fun} {n} {args} there) h =
        folded (call_expr p fun args) _
          (inr (append_right (inspect f fun) (inspect_all-HasAny there h)))
    inspect-Has (in_name {recv} {name} {type} {body}) h =
        folded (func_decl recv name type body) _
          (inr (append_left (inspect f body) (append_left (inspect f type) h)))
    inspect-Has (in_type {recv} {name} {type} {body} there) h =
        folded (func_decl recv name type body) _ (
          inr
            (append_left (inspect f body) (append_right (f (ident name)).0 (inspect-Has there h))))
    inspect-Has (in_body {recv} {name} {type} {body} there) h =
        folded (func_decl recv name type body) _
          (inr (append_right ((f (ident name)).0 ++ inspect f type) (inspect-Has there h)))
    inspect-Has (in_header_name {recv} {name} {type}) h =
        folded (func_header recv name type) _ (inr (append_left (inspect f type) h))
    inspect-Has (in_header {recv} {name} {type} there) h =
        folded (func_header recv name type) _
          (inr (append_right (f (ident name)).0 (inspect-Has there h)))
    inspect-Has (in_other {children} there) h =
        folded (other children) _ (inr (inspect_all-HasAny there h))

    pub inspect_all-HasAny :
        {ns : Nodes} {m : Node} → HasAny ns m → Memᴰ pos (f m).0 → Memᴰ pos (inspect_all f ns)
    inspect_all-HasAny (in_first {m} {n} {ms} there) h =
        append_left (inspect_all f ms) (inspect-Has there h)
    inspect_all-HasAny (in_rest {m} {n} {ms} there) h =
        append_right (inspect f m) (inspect_all-HasAny there h)
