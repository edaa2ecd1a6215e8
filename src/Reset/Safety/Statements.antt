-- ===== src/Reset/Safety/Statements.antt =====
-- The statements of resetStatement, type by type.
use mathlib.Core.List.{append-nil}
use shortener.Base.{
  ℕ, zero, suc, String, Bool, true, false, ◌≡◌, refl, Option, none, some, [], ◌∷◌, arith, inl, inr,
  Bool-cases, Option-cases, ap,
}
use shortener.Base.Dict.{Dict}
use shortener.Reset.Syntax.{
  Named, GoType, basic, slice, array, map_of, named, pointer, struct, interface, other_type, Fields,
  end, field, Receiver, child, Expr, selector, Zero, literal, truncated, array_literal, composite,
  assign, clear_call, reset_call, Block, empty, next, single, append,
}
use shortener.Reset.Generator.{
  Gen, Generated, generated, refused, GenError, Universe, basic_literal, element_name,
  has_reset_method, child_statements, reset_statement, or_composite, bind, guarded, place,
}
use shortener.Reset.Safety.{Under, All-Under-child, readable, evaluable, run, IsSafe, IsSafe-append}

-- What a call gives, if it gives anything, satisfies the predicate.
abbrev pub Ensures : {A : Type 0} → (A → Type 0) → Option (Generated A × Dict Bool) → Type 0
Ensures P none = Unit
Ensures P (some (refused e, imports)) = Unit
Ensures P (some (generated a, imports)) = P a

pub Ensures-bind :
    {A B : Type 0} (P : A → Type 0) (Q : B → Type 0) (m : Gen A) (k : A → Gen B)
    (imports : Dict Bool)
    → Ensures P (m imports)
    → ((a : A) (imports' : Dict Bool) → P a → Ensures Q (k a imports'))
    → Ensures Q (bind m k imports)
Ensures-bind {A} P Q m k imports h cont = of_result (m imports) h
  where
    of_result :
        (r : Option (Generated A × Dict Bool))
        → Ensures P r
        → Ensures Q (elim r [
          | none ↦ none
          | some (refused e, imports') ↦ some (refused e, imports')
          | some (generated a, imports') ↦ k a imports'
        ])
    of_result none h = tt
    of_result (some (refused e, imports')) h = tt
    of_result (some (generated a, imports')) h = cont a imports' h

pub Ensures-any :
    {A : Type 0} (m : Option (Generated A × Dict Bool)) → Ensures (λ (a : A). Unit {0}) m
Ensures-any none = tt
Ensures-any (some (refused e, imports)) = tt
Ensures-any (some (generated a, imports)) = tt

module _ (u : Universe) (receiver_nil : Bool) (is_nil : Expr → Bool)
    (alive : receiver_nil ≡ false) where
  abbrev pub Safe : Receiver → String → Block → Type 0
  Safe r f = IsSafe receiver_nil is_nil (Under r f)

  -- The field's place, or its target, can be reached.
  abbrev pub Reachable : Receiver → String → Bool → Type 0
  Reachable r f deref =
      (readable receiver_nil is_nil r ≡ true) × (deref ≡ true → is_nil (selector r f) ≡ false)

  place-evaluable :
      (r : Receiver) (f : String) (deref : Bool)
      → Reachable r f deref
      → evaluable receiver_nil is_nil (place r f deref) ≡ true
  place-evaluable r f true (there, held) = ground (arith, held refl)
  place-evaluable r f false (there, held) = there

  place-Under : (r : Receiver) (f : String) (deref : Bool) → Under r f (place r f deref)
  place-Under r f true = inl (refl, refl)
  place-Under r f false = inl (refl, refl)

  assign-Safe :
      (r : Receiver) (f : String) (deref : Bool) (z : Zero)
      → Reachable r f deref
      → ((e : Expr) → z ≡ truncated e → e ≡ place r f deref)
      → Safe r f (single (assign (place r f deref) z))
  unfolding run
  assign-Safe r f deref (literal text) ok same =
      (place r f deref ∷ [], rw (place-evaluable r f deref ok, run), (place-Under r f deref, tt))
  assign-Safe r f deref (array_literal text n) ok same =
      (place r f deref ∷ [], rw (place-evaluable r f deref ok), (place-Under r f deref, tt))
  assign-Safe r f deref (composite text) ok same =
      (place r f deref ∷ [], rw (place-evaluable r f deref ok), (place-Under r f deref, tt))
  assign-Safe r f deref (truncated e) ok same =
      rw (same e refl)
        (place r f deref ∷ [], rw (place-evaluable r f deref ok), (place-Under r f deref, tt))

  clear-Safe :
      (r : Receiver) (f : String) (deref : Bool)
      → Reachable r f deref
      → Safe r f (single (clear_call (place r f deref)))
  unfolding run
  clear-Safe r f deref ok =
      (place r f deref ∷ [], rw (place-evaluable r f deref ok), (place-Under r f deref, tt))

  reset-Safe :
      (r : Receiver) (f : String)
      → readable receiver_nil is_nil r ≡ true
      → Safe r f (single (reset_call (selector r f)))
  unfolding run
  reset-Safe r f there = (selector r f ∷ [], rw there, (inl (refl, refl), tt))

  -- A block that is safe where the pointer is not nil is safe behind the test.
  guarded-Safe :
      (r : Receiver) (f : String) (b : Block)
      → readable receiver_nil is_nil r ≡ true
      → (is_nil (selector r f) ≡ false → Safe r f b)
      → Safe r f (guarded (selector r f) b)
  unfolding run
  guarded-Safe r f empty there h = ([], refl, tt)
  guarded-Safe r f (next s b) there h = elim (Bool-cases (is_nil (selector r f))) [
    | inl nil ↦ ([], rw (there, nil), tt)
    | inr held ↦ let (ws, e, p) = h held in (ws, rw (there, held, e) (ap some (append-nil ws)), p)
  ]

  -- What is safe below a field of the target is safe below the field.
  Safe-child : (r : Receiver) (f g : String) (b : Block) → Safe (child r f) g b → Safe r f b
  Safe-child r f g b (ws, e, p) = (ws, e, All-Under-child r f g ws p)

  readable-child :
      (r : Receiver) (f : String)
      → readable receiver_nil is_nil r ≡ true
      → is_nil (selector r f) ≡ false
      → readable receiver_nil is_nil (child r f) ≡ true
  readable-child r f there held = ground arith

  empty-Safe : (r : Receiver) (f : String) → Safe r f empty
  unfolding run
  empty-Safe r f = ([], refl, tt)

  child_statements-Safe :
      (r : Receiver) (f : String) (reset : String → GoType → Gen Block)
      → ((name : String) (t : GoType) (imports : Dict Bool)
          → Ensures (Safe (child r f) name) (reset name t imports))
      → (fs : Fields) (b : Block) (imports : Dict Bool) → Safe r f b
      → Ensures (Safe r f) (child_statements u reset fs b imports)
  unfolding child_statements
  child_statements-Safe r f reset each end b imports h = h
  child_statements-Safe r f reset each (field name false t fs) b imports h = tt
  child_statements-Safe r f reset each (field name true t fs) b imports h =
      Ensures-bind (Safe (child r f) name) (Safe r f) (reset name t) _ imports (each name t imports)
        (λ c imports' safe.
          child_statements-Safe r f reset each fs (append b c) imports' (
            IsSafe-append receiver_nil is_nil alive (Under r f) b c h (Safe-child r f name c safe)))

  or_composite-Safe :
      (r : Receiver) (f : String) (deref : Bool) (nm : Named)
      (m : Option (Generated Block × Dict Bool))
      → Reachable r f deref
      → Ensures (Safe r f) m
      → Ensures (Safe r f) (or_composite u r f deref nm m)
  or_composite-Safe r f deref nm none ok h = tt
  or_composite-Safe r f deref nm (some (generated b, imports)) ok h = h
  or_composite-Safe r f deref nm (some (refused GenError.not_exported_fields, imports)) ok h =
      assign-Safe r f deref (composite _) ok (λ e same. ground arith)
  or_composite-Safe r f deref nm (some (refused (GenError.unknown_basic_type x), imports)) ok h = tt
  or_composite-Safe r f deref nm (some (refused GenError.unknown_element_type, imports)) ok h = tt
  or_composite-Safe r f deref nm (some (refused GenError.interface_pointer, imports)) ok h = tt
  or_composite-Safe r f deref nm (some (refused (GenError.unknown_type x), imports)) ok h = tt

  pub reset_statement-Safe :
      (n : ℕ) (r : Receiver) (f : String) (t : GoType) (deref has : Bool) (imports : Dict Bool)
      → Reachable r f deref
      → Ensures (Safe r f) (reset_statement u n r f t deref has imports)
  unfolding reset_statement
  reset_statement-Safe zero r f t deref has imports ok = tt
  reset_statement-Safe (suc n) r f (basic name) deref has imports ok =
      elim (Option-cases (basic_literal name)) [
        | inl unknown ↦ rw (unknown, reset_statement) tt
        | inr (text, known) ↦
            rw (known, reset_statement)
              (assign-Safe r f deref (literal text) ok (λ e same. ground arith))
      ]
  reset_statement-Safe (suc n) r f (slice elem) deref has imports ok =
      assign-Safe r f deref (truncated (place r f deref)) ok (λ e same. ground arith)
  reset_statement-Safe (suc n) r f (array elem len) deref has imports ok =
      elim (Option-cases (element_name elem)) [
        | inl unknown ↦ rw (unknown, reset_statement) tt
        | inr (text, known) ↦
            rw (known, reset_statement)
              (assign-Safe r f deref (array_literal text len) ok (λ e same. ground arith))
      ]
  reset_statement-Safe (suc n) r f (map_of key elem) deref has imports ok = clear-Safe r f deref ok
  reset_statement-Safe (suc n) r f (named nm) deref has imports ok =
      or_composite-Safe r f deref nm _ ok
        (reset_statement-Safe n r f (u.underlying nm) deref _ imports ok)
  reset_statement-Safe (suc n) r f (pointer t) deref has imports ok =
      elim (Bool-cases (is_nil (selector r f))) [
        | inl nil ↦
            Ensures-bind (λ b. Unit {0}) (Safe r f) (reset_statement u n r f t true has) _ imports
              (Ensures-any (reset_statement u n r f t true has imports))
              (λ b imports' any. guarded-Safe r f b ok.0 (λ held. absurd (ground arith)))
        | inr held ↦
            Ensures-bind (Safe r f) (Safe r f) (reset_statement u n r f t true has) _ imports
              (reset_statement-Safe n r f t true has imports (ok.0, λ e. held))
              (λ b imports' safe. guarded-Safe r f b ok.0 (λ held'. safe))
      ]
  reset_statement-Safe (suc n) r f (struct fs) deref true imports ok = reset-Safe r f ok.0
  reset_statement-Safe (suc n) r f (struct fs) true false imports ok =
      elim (Bool-cases (has_reset_method u (struct fs))) [
        | inl method ↦ rw (method, reset_statement) (reset-Safe r f ok.0)
        | inr no_method ↦
            rw (no_method, reset_statement)
              (child_statements-Safe r f
                (λ name t. reset_statement u n (child r f) name t false false)
                (λ name t imports'.
                  reset_statement-Safe n (child r f) name t false false imports'
                    (readable-child r f ok.0 (ok.1 refl), λ e. ground arith))
                fs empty imports (empty-Safe r f))
      ]
  reset_statement-Safe (suc n) r f (struct fs) false false imports ok =
      elim (Bool-cases (has_reset_method u (struct fs))) [
        | inl method ↦ rw (method, reset_statement) (reset-Safe r f ok.0)
        | inr no_method ↦ rw (no_method, reset_statement) (empty-Safe r f)
      ]
  reset_statement-Safe (suc n) r f (interface methods) true has imports ok = tt
  reset_statement-Safe (suc n) r f (interface methods) false true imports ok =
      guarded-Safe r f (single (reset_call (selector r f))) ok.0 (λ held. reset-Safe r f ok.0)
  reset_statement-Safe (suc n) r f (interface methods) false false imports ok =
      elim (Bool-cases (has_reset_method u (interface methods))) [
        | inl method ↦
            rw (method, reset_statement)
              (guarded-Safe r f (single (reset_call (selector r f))) ok.0
                (λ held. reset-Safe r f ok.0))
        | inr no_method ↦
            rw (no_method, reset_statement)
              (assign-Safe r f false (literal "nil") ok (λ e same. ground arith))
      ]
  reset_statement-Safe (suc n) r f (other_type text) deref has imports ok = tt
