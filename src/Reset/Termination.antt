-- ===== src/Reset/Termination.antt =====
-- resetStatement returns if the named types are built up from one another, and recurs for ever on a
-- type that leads back to itself.
use shortener.Base.{
  ℕ, zero, suc, ◌+◌, ◌≤◌, String, Bool, true, false, ◌≡◌, refl, Option, none, some, arith, inl, inr,
  Bool-cases, Option-cases,
}
use shortener.Base.Dict.{Dict}
use shortener.Reset.Syntax.{
  Named, GoType, basic, slice, array, map_of, named, pointer, struct, interface, other_type, Fields,
  end, field, Receiver, child, Block, append, empty,
}
use shortener.Reset.Generator.{
  Gen, Generated, generated, refused, GenError, Universe, basic_literal, element_name,
  has_reset_method, child_statements, reset_statement, or_composite, bind,
}

-- How deep a type is, where each named type has a rank.
abbrev mutual
  pub weight : (Named → ℕ) → GoType → ℕ
  weight rank (basic name) = 1
  weight rank (slice elem) = 1
  weight rank (array elem len) = 1
  weight rank (map_of key elem) = 1
  weight rank (named nm) = suc (rank nm)
  weight rank (pointer t) = suc (weight rank t)
  weight rank (struct fs) = suc (weight_fields rank fs)
  weight rank (interface methods) = 1
  weight rank (other_type text) = 1

  pub weight_fields : (Named → ℕ) → Fields → ℕ
  weight_fields rank end = 0
  weight_fields rank (field name exported t fs) = weight rank t + weight_fields rank fs

-- The call returns, with statements or with an error.
abbrev pub Returns {ℓ} : {A : Type ℓ} → Option A → Type ℓ
Returns {A = A} m = (a : A) × (m ≡ some a)

Returns-bind :
    {A B : Type 0} (m : Gen A) (k : A → Gen B) (imports : Dict Bool)
    → Returns (m imports)
    → ((a : A) (imports' : Dict Bool) → Returns (k a imports'))
    → Returns (bind m k imports)
Returns-bind m k imports ((refused e, imports'), h) next = ((refused e, imports'), rw (h, bind))
Returns-bind m k imports ((generated a, imports'), h) next =
    let (b, e) = next a imports' in (b, rw (h, bind) e)

weight_pos : (rank : Named → ℕ) (t : GoType) → 1 ≤ weight rank t
weight_pos rank (basic name) = omega arith
weight_pos rank (slice elem) = omega arith
weight_pos rank (array elem len) = omega arith
weight_pos rank (map_of key elem) = omega arith
weight_pos rank (named nm) = omega arith
weight_pos rank (pointer t) = omega arith
weight_pos rank (struct fs) = omega arith
weight_pos rank (interface methods) = omega arith
weight_pos rank (other_type text) = omega arith

module _ (u : Universe) where
  child_statements-Returns :
      (rank : Named → ℕ) (reset : String → GoType → Gen Block) (bound : ℕ)
      → ((name : String) (t : GoType) (imports : Dict Bool)
          → weight rank t ≤ bound
          → Returns (reset name t imports))
      → (fs : Fields) (b : Block) (imports : Dict Bool) → weight_fields rank fs ≤ bound
      → Returns (child_statements u reset fs b imports)
  unfolding child_statements
  child_statements-Returns rank reset bound each end b imports h = (_, refl)
  child_statements-Returns rank reset bound each (field name false t fs) b imports h = (_, refl)
  child_statements-Returns rank reset bound each (field name true t fs) b imports h =
      Returns-bind (reset name t) _ imports (each name t imports (omega arith)) (λ c imports'.
        child_statements-Returns rank reset bound each fs (append b c) imports' (omega arith))

  or_composite-Returns :
      (receiver : Receiver) (field' : String) (deref : Bool) (nm : Named)
      (r : Option (Generated Block × Dict Bool))
      → Returns r
      → Returns (or_composite u receiver field' deref nm r)
  or_composite-Returns receiver field' deref nm none (a, h) = absurd (ground arith)
  or_composite-Returns receiver field' deref nm (some (generated b, imports)) h = (_, refl)
  or_composite-Returns receiver field' deref nm
        (some (refused GenError.not_exported_fields, imports)) h =
      (_, refl)
  or_composite-Returns receiver field' deref nm
        (some (refused (GenError.unknown_basic_type x), imports)) h =
      (_, refl)
  or_composite-Returns receiver field' deref nm
        (some (refused GenError.unknown_element_type, imports)) h =
      (_, refl)
  or_composite-Returns receiver field' deref nm (some (refused GenError.interface_pointer, imports))
        h =
      (_, refl)
  or_composite-Returns receiver field' deref nm (some (refused (GenError.unknown_type x), imports))
        h =
      (_, refl)

  -- Where every named type has a rank at least as high as what it stands for weighs, resetStatement
  -- returns, with statements or with an error, for every type, and needs no more nested calls than
  -- the type weighs.
  pub reset_statement-Returns :
      (rank : Named → ℕ)
      → ((nm : Named) → weight rank (u.underlying nm) ≤ rank nm)
      → (n : ℕ) (receiver : Receiver) (field' : String) (t : GoType) (deref has : Bool)
        (imports : Dict Bool)
      → weight rank t ≤ n
      → Returns (reset_statement u n receiver field' t deref has imports)
  unfolding reset_statement
  reset_statement-Returns rank built zero r f t deref has imports h =
      absurd (omega (arith, weight_pos rank t))
  reset_statement-Returns rank built (suc n) r f (basic name) deref has imports h =
      elim (Option-cases (basic_literal name)) [
        | inl unknown ↦ rw (unknown, reset_statement) (_, refl)
        | inr (text, known) ↦ rw (known, reset_statement) (_, refl)
      ]
  reset_statement-Returns rank built (suc n) r f (slice elem) deref has imports h = (_, refl)
  reset_statement-Returns rank built (suc n) r f (array elem len) deref has imports h =
      elim (Option-cases (element_name elem)) [
        | inl unknown ↦ rw (unknown, reset_statement) (_, refl)
        | inr (text, known) ↦ rw (known, reset_statement) (_, refl)
      ]
  reset_statement-Returns rank built (suc n) r f (map_of key elem) deref has imports h = (_, refl)
  reset_statement-Returns rank built (suc n) r f (named nm) deref has imports h =
      or_composite-Returns r f deref nm _ (
        reset_statement-Returns rank built n r f (u.underlying nm) deref _ imports
          (omega (arith, built nm)))
  reset_statement-Returns rank built (suc n) r f (pointer t) deref has imports h =
      Returns-bind (reset_statement u n r f t true has) _ imports
        (reset_statement-Returns rank built n r f t true has imports (omega arith))
        (λ b imports'. (_, refl))
  reset_statement-Returns rank built (suc n) r f (struct fs) deref true imports h = (_, refl)
  reset_statement-Returns rank built (suc n) r f (struct fs) true false imports h =
      elim (Bool-cases (has_reset_method u (struct fs))) [
        | inl method ↦ rw (method, reset_statement) (_, refl)
        | inr no_method ↦
            rw (no_method, reset_statement)
              (child_statements-Returns rank
                (λ name t. reset_statement u n (child r f) name t false false) n
                (λ name t imports' fits.
                  reset_statement-Returns rank built n (child r f) name t false false imports' fits)
                fs empty imports (omega arith))
      ]
  reset_statement-Returns rank built (suc n) r f (struct fs) false false imports h =
      elim (Bool-cases (has_reset_method u (struct fs))) [
        | inl method ↦ rw (method, reset_statement) (_, refl)
        | inr no_method ↦ rw (no_method, reset_statement) (_, refl)
      ]
  reset_statement-Returns rank built (suc n) r f (interface methods) true has imports h = (_, refl)
  reset_statement-Returns rank built (suc n) r f (interface methods) false true imports h =
      (_, refl)
  reset_statement-Returns rank built (suc n) r f (interface methods) false false imports h =
      elim (Bool-cases (has_reset_method u (interface methods))) [
        | inl method ↦ rw (method, reset_statement) (_, refl)
        | inr no_method ↦ rw (no_method, reset_statement) (_, refl)
      ]
  reset_statement-Returns rank built (suc n) r f (other_type text) deref has imports h = (_, refl)

  -- For a pointer to a named struct without a Reset method and without a marker, whose first field
  -- is exported and points to the struct again, resetStatement never returns, however many nested
  -- calls it may make.
  pub reset_statement-cyclic :
      (nm : Named) (name : String) (rest : Fields)
      → u.underlying nm ≡ struct (field name true (pointer (named nm)) rest)
      → u.reset_types nm ≡ false
      → has_reset_method u (named nm) ≡ false
      → has_reset_method u (struct (field name true (pointer (named nm)) rest)) ≡ false
      → (n : ℕ) (receiver : Receiver) (field' : String) (deref : Bool) (imports : Dict Bool)
      → reset_statement u n receiver field' (pointer (named nm)) deref false imports ≡ none
  unfolding reset_statement child_statements
  reset_statement-cyclic nm name rest self unmarked bare plain zero r f deref imports = refl
  reset_statement-cyclic nm name rest self unmarked bare plain (suc zero) r f deref imports = refl
  reset_statement-cyclic nm name rest self unmarked bare plain (suc (suc zero)) r f deref imports =
      refl
  reset_statement-cyclic nm name rest self unmarked bare plain (suc (suc (suc n))) r f deref
        imports =
      ground (
        arith,
        reset_statement-cyclic nm name rest self unmarked bare plain n (child r f) name false
            imports,
      )
