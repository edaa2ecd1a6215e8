-- ===== src/Reset/Typing/Places.antt =====
-- The pieces that resetStatement puts its statements together from, under the rules of Reset/Typing.
use mathlib.Core.Path.{subst}
use shortener.Base.{
  String, Bool, true, false, ◌≡◌, refl, sym, Option, none, some, arith, inl, if◌then◌else◌,
}
use shortener.Base.Dict.{Dict}
use shortener.Reset.Syntax.{
  Named, GoType, named, pointer, struct, Fields, end, field, Receiver, child, Expr, selector,
  composite, reset_call, Block, empty, next, single, append,
}
use shortener.Reset.Generator.{
  Gen, Generated, generated, refused, GenError, Universe, has_reset_method, child_statements,
  or_composite, guarded, place,
}
use shortener.Reset.Safety.Statements.{Ensures, Ensures-bind}
use shortener.Reset.Typing.{
  HasField, IsUsable, here, later, IsStruct, under, HasReset, by_value, by_pointer, of_pointer,
  ReceiverType, ExprType, selected, followed, Fits, zero_struct, StmtTyped, assigned, reset_typed,
  tested, BlockTyped, none_typed, next_typed, IsPlain, ArePlain, IsUnderlying, IsNilable,
}
use shortener.Reset.Typing.Literals.{qualified-spelled}

-- The types for which a refusal of a field that is not exported can come.
abbrev pub MayHide : GoType → Type 0
MayHide (struct fs) = Unit
MayHide (pointer t) = Unit
MayHide (named nm) = Unit
MayHide _ = ⊥

abbrev pub Refusal : GoType → Option (Generated Block × Dict Bool) → Type 0
Refusal t (some (refused GenError.not_exported_fields, imports)) = MayHide t
Refusal t _ = Unit

pub may_hide : (t : GoType) (m : Option (Generated Block × Dict Bool)) → MayHide t → Refusal t m
may_hide t none h = tt
may_hide t (some (generated b, imports)) h = tt
may_hide t (some (refused GenError.not_exported_fields, imports)) h = h
may_hide t (some (refused e, imports)) h = tt

MayHide-IsStruct : (t : GoType) → MayHide t → IsUnderlying t → IsStruct t
MayHide-IsStruct (struct fs) h i = tt
MayHide-IsStruct t h i = absurd (ground (arith, h, i))

pub append-BlockTyped :
    {u : Universe} {self : GoType} {b c : Block}
    → BlockTyped u self b
    → BlockTyped u self c
    → BlockTyped u self (append b c)
unfolding append
append-BlockTyped none_typed d = d
append-BlockTyped (next_typed s b) d = next_typed s (append-BlockTyped b d)

abbrev pub one :
    {u : Universe} {self : GoType} {s : _} → StmtTyped u self s → BlockTyped u self (single s)
one s = next_typed s none_typed

module _ (u : Universe) where
  -- The type of a place stands for the type that is looked at: it is that, or its name.
  pub data Stands : GoType → GoType → Type 0 where
    same : {t : GoType} → Stands t t
    below : {nm : Named} {t : GoType} → u.underlying nm ≡ t → Stands (named nm) t

  pub Stands-under : (s t : GoType) → Stands s t → IsUnderlying t → under u s ≡ t
  Stands-under s t (below e) i = e
  Stands-under s (named nm) same i = absurd i
  Stands-under s (pointer t) same i = absurd i
  Stands-under s t same i = refl

  module _ (underlying : (nm : Named) → IsUnderlying (u.underlying nm)) where
    pub Stands-named : (s : GoType) (nm : Named) → Stands s (named nm) → s ≡ named nm
    Stands-named s nm same = refl
    Stands-named s nm (below {nm = nm'} e) = absurd (subst IsUnderlying e (underlying nm'))

    pub Stands-pointer : (s t : GoType) → Stands s (pointer t) → s ≡ pointer t
    Stands-pointer s t same = refl
    Stands-pointer s t (below {nm = nm'} e) = absurd (subst IsUnderlying e (underlying nm'))

  pub Stands-HasReset :
      ((nm : Named)
        → has_reset_method u (u.underlying nm) ≡ true
        → has_reset_method u (named nm) ≡ true)
      → (s t : GoType) → Stands s t
      → has_reset_method u t ≡ true
      → HasReset u s
  Stands-HasReset promoted s t same method = inl method
  Stands-HasReset promoted s t (below {nm} e) method =
      inl (promoted nm (subst (λ (t : GoType). has_reset_method u t ≡ true) (sym e) method))

module _ (u : Universe) (self : GoType) where
  -- The field, or what it points to, has the type.
  abbrev pub Placed : Receiver → String → Bool → GoType → Type 0
  Placed r f deref s = ExprType u self (selector r f) (if deref then pointer s else s)

  pub place-ExprType :
      (r : Receiver) (f : String) (deref : Bool) (s : GoType)
      → Placed r f deref s
      → ExprType u self (place r f deref) s
  place-ExprType r f true s at = followed at
  place-ExprType r f false s at = at

  pub reset-Typed :
      (r : Receiver) (f : String) (deref : Bool) (s : GoType)
      → Placed r f deref s
      → HasReset u s
      → IsStruct (under u s)
      → BlockTyped u self (single (reset_call (selector r f)))
  reset-Typed r f true s at method is_struct = one (reset_typed at (by_pointer method is_struct))
  reset-Typed r f false s at method is_struct = one (reset_typed at (by_value method))

  pub guarded-Typed :
      (e : Expr) (t : GoType) (b : Block)
      → ExprType u self e t
      → IsNilable (under u t)
      → BlockTyped u self b
      → BlockTyped u self (guarded e b)
  guarded-Typed e t empty at nilable typed = none_typed
  guarded-Typed e t (next s b) at nilable typed = one (tested at nilable typed)

  pub child_statements-Typed :
      (r : Receiver) (f : String) (all : Fields) (s : GoType) (reset : String → GoType → Gen Block)
      → ReceiverType u self (child r f) (pointer s)
      → under u s ≡ struct all
      → ((name : String) (t : GoType) (imports : Dict Bool)
          → ExprType u self (selector (child r f) name) t
          → IsPlain u t
          → Ensures (BlockTyped u self) (reset name t imports))
      → (fs : Fields) (b : Block) (imports : Dict Bool)
      → ((name : String) (exported : Bool) (t : GoType)
          → HasField fs name exported t
          → HasField all name exported t)
      → ArePlain u fs
      → BlockTyped u self b
      → Ensures (BlockTyped u self) (child_statements u reset fs b imports)
  unfolding child_statements IsPlain
  child_statements-Typed r f all s reset at is each end b imports inside ok typed = typed
  child_statements-Typed r f all s reset at is each (field name false t fs) b imports inside ok
        typed =
      tt
  child_statements-Typed r f all s reset at is each (field name true t fs) b imports inside
        (field_ok, ok) typed =
      Ensures-bind (BlockTyped u self) (BlockTyped u self) (reset name t) _ imports
        (each name t imports
          (selected at (of_pointer is (inside name true t (here (field_ok refl).0)) (inl refl)))
          (field_ok refl).1)
        (λ c imports' typed'.
          child_statements-Typed r f all s reset at is each fs (append b c) imports'
            (λ name' e t' h. inside name' e t' (later h)) ok (append-BlockTyped typed typed'))

  pub or_composite-Typed :
      ((nm : Named) → IsUnderlying (u.underlying nm))
      → (r : Receiver) (f : String) (deref : Bool) (nm : Named)
        (m : Option (Generated Block × Dict Bool))
      → IsUsable u nm
      → Placed r f deref (named nm)
      → Refusal (u.underlying nm) m
      → Ensures (BlockTyped u self) m
      → Ensures (BlockTyped u self) (or_composite u r f deref nm m)
  or_composite-Typed underlying r f deref nm none usable at hides h = tt
  or_composite-Typed underlying r f deref nm (some (generated b, imports)) usable at hides h = h
  or_composite-Typed underlying r f deref nm (some (refused GenError.not_exported_fields, imports))
        usable at hides h =
      one (
        assigned (place-ExprType r f deref (named nm) at) (
          subst (λ (x : String). Fits u self (composite x) (named nm))
            (sym (qualified-spelled u nm imports))
            (zero_struct usable (MayHide-IsStruct (u.underlying nm) hides (underlying nm)))))
  or_composite-Typed underlying r f deref nm (some (refused e, imports)) usable at hides h = tt
