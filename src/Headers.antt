-- ===== src/Headers.antt =====
-- internal/requests/headers.go. strconv.ParseFloat and its numbers are parameters.
pub mod Parts
use Prim.Native.Char.{Char, code}
use Prim.Native.String.{[], ◌∷◌}
use mathlib.Core.List as L
use text.Mathlib.Text.{starts_with}
use shortener.Base.{String, Bool, Option, none, some, List, ◌++◌, if◌then◌else◌, nat_eq}
use shortener.Base.Text.{is_empty, trim_space}
use shortener.Base.Dict.{Dict, insert}

abbrev prepend : Char → List String → List String
prepend c L.[] = L.◌∷◌ (c ∷ []) L.[]
prepend c (L.◌∷◌ part parts) = L.◌∷◌ (c ∷ part) parts

-- strings.Split by a separator of one character
unfoldable pub split : Char → String → List String
split sep [] = L.◌∷◌ [] L.[]
split sep (c ∷ s) =
    let rest = split sep s in if nat_eq (code c) (code sep) then L.◌∷◌ [] rest else prepend c rest

abbrev cut_after : Char → Option (String × String) → Option (String × String)
cut_after c none = none
cut_after c (some (before, after)) = some (c ∷ before, after)

-- strings.Index of a separator of one character, with the texts before and after it
unfoldable pub cut : Char → String → Option (String × String)
cut sep [] = none
cut sep (c ∷ s) =
    let rest = cut sep s in if nat_eq (code c) (code sep) then some ([], s) else cut_after c rest

-- s[2:] of a text that starts with two characters of one byte
abbrev drop_two : String → String
drop_two [] = []
drop_two (c ∷ []) = []
drop_two (c ∷ d ∷ s) = s

abbrev pub keep_part : String → List String → List String
keep_part part result = if is_empty part then result else result ++ L.◌∷◌ part L.[]

-- the loop of ParseContentEncoding
unfoldable pub content_encodings : List String → List String → List String
content_encodings L.[] result = result
content_encodings (L.◌∷◌ part parts) result =
    content_encodings parts (keep_part (trim_space part) result)

-- ParseContentEncoding
unfoldable pub parse_content_encoding : String → List String
unfolding split content_encodings
parse_content_encoding header = content_encodings (split "," header) L.[]

module _ {Float : Type 0} (parse_float : String → Option Float) (one : Float) where
  abbrev set_quality : String → Option Float → Dict Float → Dict Float
  set_quality encoding none result = result
  set_quality encoding (some q) result = insert encoding q result

  -- the inner loop of ParseAcceptEncoding, which breaks at the first q
  unfoldable pub read_quality : String → List String → Dict Float → Dict Float
  read_quality encoding L.[] result = result
  read_quality encoding (L.◌∷◌ param params) result =
      let rest = read_quality encoding params result in
      let param' = trim_space param in
      if starts_with param' "q="
      then set_quality encoding (parse_float (drop_two param')) result
      else rest

  abbrev accept_with : String → List String → Dict Float → Dict Float
  accept_with encoding params result = read_quality encoding params (insert encoding one result)

  abbrev accept_cut : String → Option (String × String) → Dict Float → Dict Float
  accept_cut part none result = accept_with part L.[] result
  accept_cut part (some (before, after)) result =
      accept_with (trim_space before) (split ";" after) result

  -- the body of the loop of ParseAcceptEncoding
  unfoldable pub accept_part : String → Dict Float → Dict Float
  unfolding split cut read_quality
  accept_part part result =
      let part' = trim_space part in
      if is_empty part' then result else accept_cut part' (cut ";" part') result

  unfoldable pub accept_parts : List String → Dict Float → Dict Float
  accept_parts L.[] result = result
  accept_parts (L.◌∷◌ part parts) result = accept_parts parts (accept_part part result)

  -- ParseAcceptEncoding
  unfoldable pub parse_accept_encoding : String → Dict Float
  unfolding accept_parts
  parse_accept_encoding header = accept_parts (split "," header) L.[]
