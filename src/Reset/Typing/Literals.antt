-- ===== src/Reset/Typing/Literals.antt =====
-- The literals and the names of element types that resetStatement writes.

use mathlib.Core.Path.{subst}
use shortener.Base.{
  String, true, false, ◌==◌, eq_iff, ◌≡◌, refl, none, some, List, [], ◌∷◌, inl, inr, Bool-cases,
  Option-cases, Memᴰ, arith,
}
use shortener.Base.Dict.{Dict}
use shortener.Reset.Syntax.{Named, GoType, basic, array, named}
use shortener.Reset.Generator.{Universe, basic_literal, element_name, is_one_of, qualified}
use shortener.Reset.Typing.{
  BasicConstant, text, truth, whole, floating, imaginary, IsPlain, Denotes, predeclared, local,
  spelled,
}

some_injective : {a b : String} → some a ≡ some b → a ≡ b
some_injective h = ground arith

is_one_of-Mem : (name : String) (xs : List String) → is_one_of name xs ≡ true → Memᴰ name xs
is_one_of-Mem name [] h = absurd (ground arith)
is_one_of-Mem name (x ∷ xs) h = elim (Bool-cases (name == x)) [
  | inl found ↦ Memᴰ.head ((eq_iff name x).0 found)
  | inr differs ↦ Memᴰ.tail (is_one_of-Mem name xs (rw differs at h))
]

constant_of :
    {name literal known : String}
    → some known ≡ some literal
    → BasicConstant name known
    → BasicConstant name literal
constant_of {name} e c = subst (BasicConstant name) (some_injective e) c

pub basic_literal-BasicConstant :
    (name literal : String) → basic_literal name ≡ some literal → BasicConstant name literal
unfolding basic_literal
basic_literal-BasicConstant name literal h = elim (Bool-cases (name == "string")) [
  | inl is ↦ constant_of (rw is at h) (rw ((eq_iff name "string").0 is) text)
  | inr no_text ↦ elim (Bool-cases (name == "bool")) [
    | inl is ↦ constant_of (rw (no_text, is) at h) (rw ((eq_iff name "bool").0 is) truth)
    | inr no_bool ↦ of_number no_text no_bool
  ]
]
  where
    ints : List String
    ints =
        "int" ∷ "int8" ∷ "int16" ∷ "int32" ∷ "int64" ∷ "uint" ∷ "uint8" ∷ "uint16" ∷ "uint32"
        ∷ "uint64" ∷ "uintptr" ∷ []

    of_number : (name == "string") ≡ false → (name == "bool") ≡ false → BasicConstant name literal
    of_number no_text no_bool = elim (Bool-cases (is_one_of name ints)) [
      | inl is ↦ constant_of (rw (no_text, no_bool, is) at h) (whole (is_one_of-Mem name ints is))
      | inr no_int ↦ elim (Bool-cases (is_one_of name ("float32" ∷ "float64" ∷ []))) [
        | inl is ↦
            constant_of (rw (no_text, no_bool, no_int, is) at h)
              (floating (is_one_of-Mem name ("float32" ∷ "float64" ∷ []) is))
        | inr no_float ↦ elim (Bool-cases (is_one_of name ("complex64" ∷ "complex128" ∷ []))) [
          | inl is ↦
              constant_of (rw (no_text, no_bool, no_int, no_float, is) at h)
                (imaginary (is_one_of-Mem name ("complex64" ∷ "complex128" ∷ []) is))
          | inr no_complex ↦
              let h' : none ≡ some literal =
                rw (no_text, no_bool, no_int, no_float, no_complex) at h in
              absurd (ground (arith, h'))
        ]
      ]
    ]

module _ (u : Universe) where
  pub element_name-Denotes :
      (elem : GoType) (n : _) (name : String)
      → IsPlain u (array elem n)
      → element_name elem ≡ some name
      → Denotes u name elem
  unfolding IsPlain
  element_name-Denotes (basic b) n name plain h =
      subst (λ (x : String). Denotes u x (basic b)) (some_injective h) (predeclared plain)
  element_name-Denotes (named nm) n name plain h =
      subst (λ (x : String). Denotes u x (named nm)) (some_injective h) (local plain.0 plain.1)
  element_name-Denotes t n name plain h = absurd (ground (arith, h))

  pub qualified-spelled :
      (nm : Named) (imports : Dict _) → (qualified u.current nm imports).0 ≡ spelled u nm
  qualified-spelled nm imports = elim (Option-cases nm.pkg) [
    | inl no_package ↦ rw no_package refl
    | inr (pkg, e) ↦ elim (Bool-cases (pkg.path == u.current)) [
      | inl current ↦ rw (e, current) refl
      | inr other ↦ rw (e, other) refl
    ]
  ]
