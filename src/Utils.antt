-- ===== src/Utils.antt =====
-- internal/utils/generators.go: short ids from random bytes by unpadded URL-safe base64. The random
-- bytes are an argument.
pub mod Ids
use Prim.Native.Char.{Char}
use Prim.Native.String.{String, [], ◌∷◌}
use mathlib.Core.List as L
use mathlib.Core.List.{List}
use shortener.Base.{ℕ, zero, suc, ◌+◌, ◌*◌, ◌/◌, ◌%◌}

abbrev pub alphabet : String
alphabet = "ABCDEFGHIJKLMNOPQRSTUVWXYZabcdefghijklmnopqrstuvwxyz0123456789-_"

-- the character at an index, and `other` past the end
unfoldable pub char_at_or : Char → String → ℕ → Char
char_at_or other [] n = other
char_at_or other (c ∷ s) zero = c
char_at_or other (c ∷ s) (suc n) = char_at_or other s n

-- the digit of a 6-bit group
unfoldable pub digit : ℕ → Char
unfolding char_at_or
digit n = char_at_or "A" alphabet (n % 64)

-- base64.RawURLEncoding.EncodeToString
unfoldable pub encode_to_string : List ℕ → String
encode_to_string L.[] = []
encode_to_string (L.◌∷◌ a L.[]) = digit (a / 4) ∷ digit (a % 4 * 16) ∷ []
encode_to_string (L.◌∷◌ a (L.◌∷◌ b L.[])) =
    digit (a / 4) ∷ digit (a % 4 * 16 + b / 16) ∷ digit (b % 16 * 4) ∷ []
encode_to_string (L.◌∷◌ a (L.◌∷◌ b (L.◌∷◌ c bytes))) =
    digit (a / 4)
    ∷ digit (a % 4 * 16 + b / 16)
    ∷ digit (b % 16 * 4 + c / 64)
    ∷ digit (c % 64)
    ∷ encode_to_string bytes

-- s[:n] of a text of one-byte characters
unfoldable pub take : ℕ → String → String
take zero s = []
take (suc n) [] = []
take (suc n) (c ∷ s) = c ∷ take n s

-- GenerateID, where rand.Read has filled the array with `bytes`
unfoldable pub generate_id : ℕ → List ℕ → String
generate_id size bytes = take size (encode_to_string bytes)
