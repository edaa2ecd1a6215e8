-- ===== src/Reset/Typing/Statements.antt =====
-- The statements of resetStatement, type by type, under the rules of Reset/Typing.
use mathlib.Core.Path.{subst}
use shortener.Base.{
  ℕ, zero, suc, String, Bool, true, false, ◌≡◌, refl, sym, arith, inl, inr, Bool-cases,
  Option-cases, if◌then◌else◌,
}
use shortener.Base.Dict.{Dict}
use shortener.Reset.Syntax.{
  Named, GoType, basic, slice, array, map_of, named, pointer, struct, interface, other_type, Fields,
  Receiver, child, selector, reset_call, empty, single,
}
use shortener.Reset.Generator.{
  Universe, basic_literal, element_name, has_reset_method, reset_statement,
}
use shortener.Reset.Safety.Statements.{Ensures, Ensures-bind}
use shortener.Reset.Typing.{
  IsUsable, IsStruct, HasReset, by_value, is_field, constant, nil, resliced, zero_array, assigned,
  cleared, reset_typed, BlockTyped, none_typed, IsPlain, ArePlain, ExprType, IsUnderlying,
  IsNilable,
}
use shortener.Reset.Typing.Literals.{basic_literal-BasicConstant, element_name-Denotes}
use shortener.Reset.Typing.Places.{
  Refusal, may_hide, one, Stands, same, below, Stands-under, Stands-named, Stands-pointer, Placed,
  place-ExprType, Stands-HasReset, reset-Typed, guarded-Typed, child_statements-Typed,
  or_composite-Typed,
}

abbrev pub NotPointer : GoType → Type 0
NotPointer (pointer t) = ⊥
NotPointer _ = Unit

pointee-IsPlain : (u : Universe) (t : GoType) → IsPlain u (pointer t) → NotPointer t × IsPlain u t
unfolding IsPlain
pointee-IsPlain u (pointer t) h = absurd h
pointee-IsPlain u t h = (tt, h)

underlying-NotPointer : (t : GoType) → IsUnderlying t → NotPointer t
underlying-NotPointer (pointer t) h = h
underlying-NotPointer t h = tt

reset_statement-Refusal :
    (u : Universe) (n : ℕ) (r : Receiver) (f : String) (t : GoType) (deref has : Bool)
    (imports : Dict Bool)
    → Refusal t (reset_statement u n r f t deref has imports)
unfolding reset_statement
reset_statement-Refusal u zero r f t deref has imports = tt
reset_statement-Refusal u (suc n) r f (basic name) deref has imports =
    elim (Option-cases (basic_literal name)) [
      | inl unknown ↦ rw (unknown, reset_statement) tt
      | inr (text, known) ↦ rw (known, reset_statement) tt
    ]
reset_statement-Refusal u (suc n) r f (slice elem) deref has imports = tt
reset_statement-Refusal u (suc n) r f (array elem len) deref has imports =
    elim (Option-cases (element_name elem)) [
      | inl unknown ↦ rw (unknown, reset_statement) tt
      | inr (text, known) ↦ rw (known, reset_statement) tt
    ]
reset_statement-Refusal u (suc n) r f (map_of key elem) deref has imports = tt
reset_statement-Refusal u (suc n) r f (named nm) deref has imports = may_hide (named nm) _ tt
reset_statement-Refusal u (suc n) r f (pointer t) deref has imports = may_hide (pointer t) _ tt
reset_statement-Refusal u (suc n) r f (struct fs) deref has imports = may_hide (struct fs) _ tt
reset_statement-Refusal u (suc n) r f (interface methods) true has imports = tt
reset_statement-Refusal u (suc n) r f (interface methods) false true imports = tt
reset_statement-Refusal u (suc n) r f (interface methods) false false imports =
    elim (Bool-cases (has_reset_method u (interface methods))) [
      | inl method ↦ rw (method, reset_statement) tt
      | inr no_method ↦ rw (no_method, reset_statement) tt
    ]
reset_statement-Refusal u (suc n) r f (other_type text) deref has imports = tt

named-HasReset :
    (u : Universe) (nm : Named) (has : Bool)
    → (has ≡ true → HasReset u (named nm))
    → (if u.reset_types nm then true else if has_reset_method u (named nm) then true else has)
      ≡ true
    → HasReset u (named nm)
named-HasReset u nm has known h = elim (Bool-cases (u.reset_types nm)) [
  | inl marked ↦ inr (nm, refl, marked)
  | inr unmarked ↦ elim (Bool-cases (has_reset_method u (named nm))) [
    | inl method ↦ inl method
    | inr no_method ↦ known (rw (unmarked, no_method) at h)
  ]
]

struct-ArePlain : (u : Universe) (fs : Fields) → IsPlain u (struct fs) → ArePlain u fs
unfolding IsPlain
struct-ArePlain u fs h = h

named-IsUsable : (u : Universe) (nm : Named) → IsPlain u (named nm) → IsUsable u nm
unfolding IsPlain
named-IsUsable u nm h = h

module _ (u : Universe) (self : GoType) (underlying : (nm : Named) → IsUnderlying (u.underlying nm))
    (plain : (nm : Named) → IsPlain u (u.underlying nm))
    (promoted : (nm : Named)
      → has_reset_method u (u.underlying nm) ≡ true
      → has_reset_method u (named nm) ≡ true) where
  pub reset_statement-Typed :
      (n : ℕ) (r : Receiver) (f : String) (t : GoType) (deref has : Bool) (imports : Dict Bool)
      (s : GoType)
      → Placed u self r f deref s
      → Stands u s t
      → (has ≡ true → (nm : Named) × (s ≡ named nm) × HasReset u s)
      → (deref ≡ true → NotPointer t)
      → IsPlain u t
      → Ensures (BlockTyped u self) (reset_statement u n r f t deref has imports)
  unfolding reset_statement
  reset_statement-Typed zero r f t deref has imports s at stands method flat ok = tt
  reset_statement-Typed (suc n) r f (basic name) deref has imports s at stands method flat ok =
      elim (Option-cases (basic_literal name)) [
        | inl unknown ↦ rw (unknown, reset_statement) tt
        | inr (text, known) ↦
            rw (known, reset_statement)
              (one (
                assigned (place-ExprType u self r f deref s at) (
                  constant (Stands-under u s (basic name) stands tt)
                    (basic_literal-BasicConstant name text known))))
      ]
  reset_statement-Typed (suc n) r f (slice elem) deref has imports s at stands method flat ok =
      let placed = place-ExprType u self r f deref s at in
      one (assigned placed (resliced placed (Stands-under u s (slice elem) stands tt)))
  reset_statement-Typed (suc n) r f (array elem len) deref has imports s at stands method flat ok =
      elim (Option-cases (element_name elem)) [
        | inl unknown ↦ rw (unknown, reset_statement) tt
        | inr (text, known) ↦
            rw (known, reset_statement)
              (one (
                assigned (place-ExprType u self r f deref s at) (
                  zero_array (Stands-under u s (array elem len) stands tt)
                    (element_name-Denotes u elem len text ok known))))
      ]
  reset_statement-Typed (suc n) r f (map_of key elem) deref has imports s at stands method flat ok =
      one (
        cleared (place-ExprType u self r f deref s at)
          (Stands-under u s (map_of key elem) stands tt))
  reset_statement-Typed (suc n) r f (named nm) deref has imports s at stands method flat ok =
      let at' = subst (Placed u self r f deref) (Stands-named u underlying s nm stands) at in
      or_composite-Typed u self underlying r f deref nm _ (named-IsUsable u nm ok) at'
        (reset_statement-Refusal u n r f (u.underlying nm) deref _ imports)
        (reset_statement-Typed n r f (u.underlying nm) deref _ imports (named nm) at' (below refl)
          (λ has'. (
            nm,
            refl,
            named-HasReset u nm has
                (λ h.
                  let (nm', e, m) = method h in
                  subst (HasReset u) (Stands-named u underlying s nm stands) m)
                has',
          ))
          (λ e. underlying-NotPointer (u.underlying nm) (underlying nm)) (plain nm))
  reset_statement-Typed (suc n) r f (pointer t) true has imports s at stands method flat ok =
      absurd (flat refl)
  reset_statement-Typed (suc n) r f (pointer t) false has imports s at stands method flat ok =
      let is = Stands-pointer u underlying s t stands in
      let at' = subst (ExprType u self (selector r f)) is at in
      Ensures-bind (BlockTyped u self) (BlockTyped u self) (reset_statement u n r f t true has) _
        imports
        (reset_statement-Typed n r f t true has imports t at' same
          (λ h. let (nm, e, m) = method h in absurd (ground (arith, e, is)))
          (λ e. (pointee-IsPlain u t ok).0) (pointee-IsPlain u t ok).1)
        (λ b imports' typed. guarded-Typed u self (selector r f) (pointer t) b at' tt typed)
  reset_statement-Typed (suc n) r f (struct fs) deref true imports s at stands method flat ok =
      let (nm, e, m) = method refl in
      reset-Typed u self r f deref s at m
        (subst IsStruct (sym (Stands-under u s (struct fs) stands tt)) tt)
  reset_statement-Typed (suc n) r f (struct fs) true false imports s at stands method flat ok =
      let is = Stands-under u s (struct fs) stands tt in
      elim (Bool-cases (has_reset_method u (struct fs))) [
        | inl resets ↦
            rw (resets, reset_statement)
              (reset-Typed u self r f true s at
                (Stands-HasReset u promoted s (struct fs) stands resets)
                (subst IsStruct (sym is) tt))
        | inr no_method ↦
            rw (no_method, reset_statement)
              (child_statements-Typed u self r f fs s
                (λ name t. reset_statement u n (child r f) name t false false) (is_field at) is
                (λ name t imports' at' ok'.
                  reset_statement-Typed n (child r f) name t false false imports' t at' same
                    (λ e. ground arith) (λ e. ground arith) ok')
                fs empty imports (λ name e t h. h) (struct-ArePlain u fs ok) none_typed)
      ]
  reset_statement-Typed (suc n) r f (struct fs) false false imports s at stands method flat ok =
      elim (Bool-cases (has_reset_method u (struct fs))) [
        | inl resets ↦
            rw (resets, reset_statement)
              (reset-Typed u self r f false s at
                (Stands-HasReset u promoted s (struct fs) stands resets)
                (subst IsStruct (sym (Stands-under u s (struct fs) stands tt)) tt))
        | inr no_method ↦ rw (no_method, reset_statement) none_typed
      ]
  reset_statement-Typed (suc n) r f (interface methods) true has imports s at stands method flat
        ok =
      tt
  reset_statement-Typed (suc n) r f (interface methods) false true imports s at stands method flat
        ok =
      let (nm, e, m) = method refl in
      guarded-Typed u self (selector r f) s (single (reset_call (selector r f))) at
        (subst IsNilable (sym (Stands-under u s (interface methods) stands tt)) tt)
        (one (reset_typed at (by_value m)))
  reset_statement-Typed (suc n) r f (interface methods) false false imports s at stands method flat
        ok =
      let nilable = subst IsNilable (sym (Stands-under u s (interface methods) stands tt)) tt in
      elim (Bool-cases (has_reset_method u (interface methods))) [
        | inl resets ↦
            rw (resets, reset_statement)
              (guarded-Typed u self (selector r f) s (single (reset_call (selector r f))) at nilable
                (one (
                  reset_typed at
                    (by_value (Stands-HasReset u promoted s (interface methods) stands resets)))))
        | inr no_method ↦ rw (no_method, reset_statement) (one (assigned at (nil nilable)))
      ]
  reset_statement-Typed (suc n) r f (other_type text) deref has imports s at stands method flat ok =
      tt
