-- ===== src/Utils/Ids.antt =====
-- The ids of generators.go: the slice is in range, the id has the wanted length, and its
-- characters are letters, digits, `-` and `_`.
use Prim.Native.Char.{Char, code}
use Prim.Native.String.{String, [], ◌∷◌}
use mathlib.Core.List as L
use mathlib.Core.List.{List}
use shortener.Base.{
  ℕ, zero, suc, Bool, true, false, ◌&&◌, ◌||◌, leb, nat_eq, ◌%◌, ◌≤◌, ◌<◌, ◌≡◌, refl, ap, arith,
  ◌⊎◌, inl, inr,
}
use shortener.Base.Lists.{length}
use shortener.Utils.{alphabet, char_at_or, digit, encode_to_string, take, generate_id}

-- the number of characters
abbrev pub size : String → ℕ
size [] = 0
size (c ∷ s) = suc (size s)

-- A letter or a digit of ASCII, `-`, or `_`.
abbrev pub is_url_safe : Char → Bool
is_url_safe c =
    let n = code c in
    (leb b'a' n && leb n b'z')
    || (leb b'A' n && leb n b'Z')
    || (leb b'0' n && leb n b'9')
    || nat_eq n b'-'
    || nat_eq n b'_'

abbrev are_url_safe : String → Bool
are_url_safe [] = true
are_url_safe (c ∷ s) = let rest = are_url_safe s in is_url_safe c && rest

-- Every character of the text is one of these.
abbrev pub IsUrlSafe : String → Type 0
IsUrlSafe s = are_url_safe s ≡ true

-- The character stands in the text.
abbrev IsIn : String → Char → Type 0
IsIn [] c = ⊥
IsIn (d ∷ s) c = (c ≡ d) ⊎ IsIn s c

-- Every character of a text stands in `allowed`.
abbrev AllIn : String → String → Type 0
AllIn allowed [] = Unit
AllIn allowed (c ∷ s) = IsIn allowed c × AllIn allowed s

char_at_or-IsIn : (other : Char) (s : String) (n : ℕ) → n < size s → IsIn s (char_at_or other s n)
unfolding char_at_or
char_at_or-IsIn other [] n h = elim h [ ]
char_at_or-IsIn other (c ∷ s) zero h = inl refl
char_at_or-IsIn other (c ∷ s) (suc n) h = inr (char_at_or-IsIn other s n (omega arith))

digit-IsIn : (n : ℕ) → IsIn alphabet (digit n)
unfolding digit
digit-IsIn n = char_at_or-IsIn "A" alphabet (n % 64) (omega arith)

size-encode_to_string : (bytes : List ℕ) → length bytes ≤ size (encode_to_string bytes)
unfolding encode_to_string
size-encode_to_string L.[] = omega arith
size-encode_to_string (L.◌∷◌ a L.[]) = omega arith
size-encode_to_string (L.◌∷◌ a (L.◌∷◌ b L.[])) = omega arith
size-encode_to_string (L.◌∷◌ a (L.◌∷◌ b (L.◌∷◌ c bytes))) =
    omega (arith, size-encode_to_string bytes)

encode_to_string-AllIn : (bytes : List ℕ) → AllIn alphabet (encode_to_string bytes)
unfolding encode_to_string
encode_to_string-AllIn L.[] = tt
encode_to_string-AllIn (L.◌∷◌ a L.[]) = (digit-IsIn _, (digit-IsIn _, tt))
encode_to_string-AllIn (L.◌∷◌ a (L.◌∷◌ b L.[])) = (digit-IsIn _, (digit-IsIn _, (digit-IsIn _, tt)))
encode_to_string-AllIn (L.◌∷◌ a (L.◌∷◌ b (L.◌∷◌ c bytes))) =
    (digit-IsIn _, (digit-IsIn _, (digit-IsIn _, (digit-IsIn _, encode_to_string-AllIn bytes))))

size-take : (n : ℕ) (s : String) → n ≤ size s → size (take n s) ≡ n
unfolding take
size-take zero s h = refl
size-take (suc n) [] h = elim h [ ]
size-take (suc n) (c ∷ s) h = ap suc (size-take n s (omega arith))

take-AllIn : (allowed : String) (n : ℕ) (s : String) → AllIn allowed s → AllIn allowed (take n s)
unfolding take
take-AllIn allowed zero s h = tt
take-AllIn allowed (suc n) [] h = tt
take-AllIn allowed (suc n) (c ∷ s) h = (h.0, take-AllIn allowed n s h.1)

and-true : {a b : Bool} → a && b ≡ true → (a ≡ true) × (b ≡ true)
and-true {a = true} h = (refl, h)
and-true {a = false} h = absurd (ground (arith, h))

alphabet-IsUrlSafe : IsUrlSafe alphabet
alphabet-IsUrlSafe = refl

IsIn-IsUrlSafe : (c : Char) (s : String) → IsIn s c → IsUrlSafe s → is_url_safe c ≡ true
IsIn-IsUrlSafe c [] i h = absurd i
IsIn-IsUrlSafe c (d ∷ s) (inl e) h = rw e (and-true h).0
IsIn-IsUrlSafe c (d ∷ s) (inr i) h = IsIn-IsUrlSafe c s i (and-true h).1

AllIn-IsUrlSafe : (allowed s : String) → IsUrlSafe allowed → AllIn allowed s → IsUrlSafe s
AllIn-IsUrlSafe allowed [] h i = refl
AllIn-IsUrlSafe allowed (c ∷ s) h i =
    rw (IsIn-IsUrlSafe c allowed i.0 h) (AllIn-IsUrlSafe allowed s h i.1)

-- With as many random bytes as characters are wanted, the slice is in range, so that GenerateID
-- does not panic, and the id has the wanted number of characters, each of them a letter or a digit
-- of ASCII, `-` or `_`.
pub generate_id-IsUrlSafe :
    (n : ℕ) (bytes : List ℕ)
    → length bytes ≡ n
    → (n ≤ size (encode_to_string bytes))
      × (size (generate_id n bytes) ≡ n)
      × IsUrlSafe (generate_id n bytes)
unfolding generate_id
generate_id-IsUrlSafe n bytes h =
    let enough : n ≤ size (encode_to_string bytes) = omega (arith, size-encode_to_string bytes) in
    (
      enough,
      size-take n (encode_to_string bytes) enough,
      AllIn-IsUrlSafe alphabet (generate_id n bytes) alphabet-IsUrlSafe
          (take-AllIn alphabet n (encode_to_string bytes) (encode_to_string-AllIn bytes)),
    )
