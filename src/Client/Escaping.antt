-- ===== src/Client/Escaping.antt =====
-- What escaping makes of a text: it has no blanks, and it is not shorter.
use Prim.Native.Char.{Char, code}
use Prim.Native.String as Str
use text.Mathlib.TextLemmas.{nil-append, cons-append}
use shortener.Base.{
  ℕ, zero, suc, ◌+◌, ◌*◌, ◌/◌, ◌%◌, ◌≤◌, String, true, false, ◌≡◌, refl, List, [], ◌∷◌, nat_eq, inl,
  inr, Bool-cases, arith,
}
use shortener.Base.Text.{◌+s◌, is_space, trim_left, trim_right, trim_space}
use shortener.Base.Lists.{length}
use shortener.Utils.{char_at_or}
use shortener.Utils.Ids.{size}
use shortener.Client.{unreserved, hex_digits, hex_digit, percent, escape_char, query_escape, utf8}

-- No character is a blank.
abbrev pub HasNoSpace : String → Type 0
HasNoSpace Str.[] = Unit
HasNoSpace (Str.◌∷◌ c s) = (is_space c ≡ false) × HasNoSpace s

pub HasNoSpace-append : (s t : String) → HasNoSpace s → HasNoSpace t → HasNoSpace (s +s t)
HasNoSpace-append Str.[] t h k = rw (nil-append t) k
HasNoSpace-append (Str.◌∷◌ c s) t (own, h) k =
    rw (cons-append c s t) (own, HasNoSpace-append s t h k)

trim_left-HasNoSpace : (s : String) → HasNoSpace s → trim_left is_space s ≡ s
unfolding trim_left
trim_left-HasNoSpace Str.[] h = refl
trim_left-HasNoSpace (Str.◌∷◌ c s) h = rw h.0 refl

trim_right-HasNoSpace : (s : String) → HasNoSpace s → trim_right is_space s ≡ s
unfolding trim_right
trim_right-HasNoSpace Str.[] h = refl
trim_right-HasNoSpace (Str.◌∷◌ c s) h = ground (arith, h.0, trim_right-HasNoSpace s h.1)

pub trim_space-HasNoSpace : (s : String) → HasNoSpace s → trim_space s ≡ s
unfolding trim_space
trim_space-HasNoSpace s h = rw (trim_left-HasNoSpace s h) (trim_right-HasNoSpace s h)

unreserved-space : (c : Char) → unreserved c ≡ true → is_space c ≡ false
unfolding unreserved is_space
unreserved-space c h = ground arith

char_at_or-HasNoSpace :
    (other : Char) (s : String) (n : ℕ)
    → is_space other ≡ false
    → HasNoSpace s
    → is_space (char_at_or other s n) ≡ false
unfolding char_at_or
char_at_or-HasNoSpace other Str.[] n h k = h
char_at_or-HasNoSpace other (Str.◌∷◌ c s) zero h k = k.0
char_at_or-HasNoSpace other (Str.◌∷◌ c s) (suc n) h k = char_at_or-HasNoSpace other s n h k.1

hex_digits-HasNoSpace : HasNoSpace hex_digits
unfolding is_space
hex_digits-HasNoSpace = (
  refl,
  (
    refl,
    (
      refl,
      (
        refl,
        (
          refl,
          (
            refl,
            (refl, (refl, (refl, (refl, (refl, (refl, (refl, (refl, (refl, (refl, tt)))))))))),
          ),
        ),
      ),
    ),
  ),
)

sign : is_space "%" ≡ false
unfolding is_space
sign = refl

plus : is_space "+" ≡ false
unfolding is_space
plus = refl

percent-HasNoSpace : (bytes : List ℕ) → HasNoSpace (percent bytes)
unfolding percent hex_digit
percent-HasNoSpace [] = tt
percent-HasNoSpace (b ∷ bytes) = (
  sign,
  (
    char_at_or-HasNoSpace "0" hex_digits (b / 16) hex_digits-HasNoSpace.0 hex_digits-HasNoSpace,
    (
      char_at_or-HasNoSpace "0" hex_digits (b % 16) hex_digits-HasNoSpace.0 hex_digits-HasNoSpace,
      percent-HasNoSpace bytes,
    ),
  ),
)

escape_char-HasNoSpace : (c : Char) → HasNoSpace (escape_char c)
unfolding escape_char
escape_char-HasNoSpace c = elim (Bool-cases (unreserved c)) [
  | inl keeps ↦ rw keeps (unreserved-space c keeps, tt)
  | inr escapes ↦ elim (Bool-cases (nat_eq (code c) 32)) [
    | inl blank ↦ rw (escapes, blank) (plus, tt)
    | inr other ↦ rw (escapes, other) (percent-HasNoSpace (utf8 c))
  ]
]

pub query_escape-HasNoSpace : (s : String) → HasNoSpace (query_escape s)
unfolding query_escape
query_escape-HasNoSpace Str.[] = tt
query_escape-HasNoSpace (Str.◌∷◌ c s) =
    HasNoSpace-append (escape_char c) (query_escape s) (escape_char-HasNoSpace c)
      (query_escape-HasNoSpace s)

pub size-append : (s t : String) → size (s +s t) ≡ size s + size t
size-append Str.[] t = rw (nil-append t) (omega arith)
size-append (Str.◌∷◌ c s) t = rw (cons-append c s t) (omega (arith, size-append s t))

size-percent : (bytes : List ℕ) → size (percent bytes) ≡ 3 * length bytes
unfolding percent
size-percent [] = refl
size-percent (b ∷ bytes) = omega (arith, size-percent bytes)

length-utf8 : (c : Char) → 1 ≤ length (utf8 c)
unfolding utf8
length-utf8 c = ground arith

size-escape_char : (c : Char) → 1 ≤ size (escape_char c)
unfolding escape_char
size-escape_char c = elim (Bool-cases (unreserved c)) [
  | inl keeps ↦ rw keeps (omega arith)
  | inr escapes ↦ elim (Bool-cases (nat_eq (code c) 32)) [
    | inl blank ↦ rw (escapes, blank) (omega arith)
    | inr other ↦ rw (escapes, other) (omega (arith, size-percent (utf8 c), length-utf8 c))
  ]
]

-- Escaping makes no text shorter.
pub size-query_escape : (s : String) → size s ≤ size (query_escape s)
unfolding query_escape
size-query_escape Str.[] = omega arith
size-query_escape (Str.◌∷◌ c s) =
    omega
      (arith, size-append (escape_char c) (query_escape s), size-escape_char c, size-query_escape s)
