-- ===== src/Repository/Database/Texts.antt =====
-- What PostgreSQL can take for the texts of db.go: no text with the character of code 0, no more
-- characters than the columns of the migrations have, VARCHAR(255), VARCHAR(2048) and VARCHAR(64),
-- and no url that is too long for the unique index, whose entries have at most 2704 bytes.
use Prim.Native.Char.{code}
use Prim.Native.String as Str
use shortener.Base.{ℕ, ◌+◌, ◌≤◌, String, Bool, true, not, ◌&&◌, ◌≡◌, if◌then◌else◌, leb, nat_eq}
use shortener.Utils.Ids.{size}
use shortener.Repository.{Row}

abbrev is_text : String → Bool
is_text Str.[] = true
is_text (Str.◌∷◌ c s) = let rest = is_text s in not (nat_eq (code c) 0) && rest

abbrev pub IsText : String → Type 0
IsText s = is_text s ≡ true

-- the bytes of a text in UTF-8
abbrev pub byte_length : String → ℕ
byte_length Str.[] = 0
byte_length (Str.◌∷◌ c s) =
    (if leb (code c) 127
      then 1
      else if leb (code c) 2047
      then 2
      else if leb (code c) 65535
      then 3
      else 4)
    + byte_length s

-- A row that the table and its indexes can take.
abbrev pub IsStorable : Row → Type 0
IsStorable item =
    IsText item.id
    × (size item.id ≤ 255)
    × IsText item.original_url
    × (byte_length item.original_url ≤ 2048)
    × IsText item.user_id
    × (size item.user_id ≤ 64)
