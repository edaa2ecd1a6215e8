-- ===== src/Headers/Parts.antt =====
-- Each part of a header that headers.go reads counts by itself, in order.
use Prim.Native.Char.{Char, code}
use Prim.Native.String as Str
use text.Mathlib.TextLemmas.{cons-append, nil-append}
use mathlib.Core.List.{append_assoc, append-nil}
use shortener.Base.{
  String, ◌≡◌, refl, sym, true, false, Bool-cases, Option, List, [], ◌∷◌, ◌++◌, inl, inr, arith,
  nat_eq, ap, none, some, if◌then◌else◌, ◌==◌, ◌∙◌,
}
use shortener.Base.Text.{◌+s◌, is_empty, trim_space}
use shortener.Base.Dict.{Dict, lookup, insert, lookup-insert}
use shortener.Headers.{
  split, keep_part, content_encodings, parse_content_encoding, accept_part, accept_parts,
  read_quality, cut, parse_accept_encoding,
}

split-ne-nil :
    (sep : Char) (s : String)
    → (part : String) × (parts : List String) × (split sep s ≡ part ∷ parts)
unfolding split
split-ne-nil sep Str.[] = ("", [], refl)
split-ne-nil sep (Str.◌∷◌ c s) =
    let (part, parts, e) = split-ne-nil sep s in
    elim (Bool-cases (nat_eq (code c) (code sep))) [
      | inl same ↦ ("", split sep s, ground arith)
      | inr other ↦ (Str.◌∷◌ c part, parts, ground (arith, e))
    ]

-- Splitting at a separator between two texts splits both.
split-append :
    (sep : Char) (s t : String)
    → nat_eq (code sep) (code sep) ≡ true
    → split sep (s +s Str.◌∷◌ sep t) ≡ split sep s ++ split sep t
unfolding split
split-append sep Str.[] t same = rw (nil-append (Str.◌∷◌ sep t)) (ground arith)
split-append sep (Str.◌∷◌ c s) t same =
    let (part, parts, e) = split-ne-nil sep s in
    rw (cons-append c s (Str.◌∷◌ sep t)) (elim (Bool-cases (nat_eq (code c) (code sep))) [
      | inl hit ↦ ground (arith, split-append sep s t same)
      | inr miss ↦ ground (arith, split-append sep s t same, e)
    ])

content_encodings-append :
    (xs ys result : List String)
    → content_encodings (xs ++ ys) result ≡ content_encodings ys (content_encodings xs result)
unfolding content_encodings
content_encodings-append [] ys result = refl
content_encodings-append (x ∷ xs) ys result =
    content_encodings-append xs ys (keep_part (trim_space x) result)

content_encodings-result :
    (xs result : List String) → content_encodings xs result ≡ result ++ content_encodings xs []
unfolding content_encodings
content_encodings-result [] result = sym (append-nil result)
content_encodings-result (x ∷ xs) result = elim (Bool-cases (is_empty (trim_space x))) [
  | inl blank ↦ ground (arith, content_encodings-result xs result)
  | inr some_part ↦ ground (
    arith,
    content_encodings-result xs (result ++ trim_space x ∷ []),
    content_encodings-result xs (trim_space x ∷ []),
    append_assoc result (trim_space x ∷ []) (content_encodings xs []),
  )
]

-- The encodings of two headers joined by a comma are those of the first, then those of the second.
pub parse_content_encoding-append :
    (h t : String)
    → parse_content_encoding (h +s Str.◌∷◌ "," t)
      ≡ parse_content_encoding h ++ parse_content_encoding t
unfolding parse_content_encoding
parse_content_encoding-append h t =
    ap (λ (parts : List String). content_encodings parts []) (split-append "," h t refl)
    ∙ content_encodings-append (split "," h) (split "," t) []
    ∙ content_encodings-result (split "," t) (content_encodings (split "," h) [])

module _ {Float : Type 0} (parse_float : String → Option Float) (one : Float) where
  accept_parts-append :
      (xs ys : List String) (result : Dict Float)
      → accept_parts parse_float one (xs ++ ys) result
        ≡ accept_parts parse_float one ys (accept_parts parse_float one xs result)
  unfolding accept_parts
  accept_parts-append [] ys result = refl
  accept_parts-append (x ∷ xs) ys result =
      accept_parts-append xs ys (accept_part parse_float one x result)

  parse_accept_encoding-append :
      (h t : String)
      → parse_accept_encoding parse_float one (h +s Str.◌∷◌ "," t)
        ≡ accept_parts parse_float one (split "," t) (parse_accept_encoding parse_float one h)
  unfolding parse_accept_encoding
  parse_accept_encoding-append h t =
      ap (λ (parts : List String). accept_parts parse_float one parts [])
        (split-append "," h t refl)
      ∙ accept_parts-append (split "," h) (split "," t) []

  accept_part-name :
      (part : String) (result : Dict Float)
      → is_empty (trim_space part) ≡ false
      → cut ";" (trim_space part) ≡ none
      → accept_part parse_float one part result ≡ insert (trim_space part) one result
  unfolding accept_part read_quality
  accept_part-name part result some_name plain = ground arith

  -- A name without parameters at the end of a header, after a comma and with blanks around it, has
  -- the quality one, whatever the header says of it before; every other name has the quality that
  -- the header before it gives.
  pub parse_accept_encoding-name :
      (h part other : String)
      → split "," part ≡ part ∷ []
      → is_empty (trim_space part) ≡ false
      → cut ";" (trim_space part) ≡ none
      → lookup other (parse_accept_encoding parse_float one (h +s Str.◌∷◌ "," part)) ≡ (
          if trim_space part == other
          then some one
          else lookup other (parse_accept_encoding parse_float one h))
  unfolding accept_parts
  parse_accept_encoding-name h part other single some_name plain = ground (
    arith,
    parse_accept_encoding-append h part,
    accept_part-name part (parse_accept_encoding parse_float one h) some_name plain,
    lookup-insert (trim_space part) other one (parse_accept_encoding parse_float one h),
  )
