-- ===== src/Repository/Disk.antt =====
-- The operating system's file under internal/repository/file.go, and the JSON codec of its lines.
-- A file is the list of its lines that a newline ends, and what stands after the last newline. A call
-- to the system takes the next outcome from a list; when that is empty it works.
use shortener.Base.{String, Bool, Option, none, some, List, [], ◌∷◌, ◌++◌}
use shortener.Errors.{Error, message, sentinel, not_exist, Result, ok, err}

-- fileRecord of file.go
pub record FileRecord : Type 0 where
  pub short_url : String
  pub original_url : String
  pub user_id : String
  pub deleted : Bool

-- encoding/json and bufio.Scanner on lines of text.
pub record Codec : Type 1 where
  pub Line : Type 0
  -- what stands in the file where one text is written after another without a newline between them
  pub join : Line → Line → Line
  -- len(line) == 0
  pub is_blank : Line → Bool
  -- the line does not fit the scanner's buffer of 1 MB
  pub is_too_long : Line → Bool
  -- json.Marshal
  pub marshal : FileRecord → Line
  -- json.Unmarshal, where `none` is an error
  pub unmarshal : Line → Option FileRecord
  -- the lines that Encode writes after SetIndent("", "    ")
  pub encode_indented : List FileRecord → List Line

-- What a file holds: its lines, and a last line that no newline ends, if there is one.
pub record Content (Line : Type 0) : Type 0 where
  pub lines : List Line
  pub tail : Option Line

-- How a call ends. A write that fails may have put some of the text into the file, up to any byte.
pub data Outcome (Line : Type 0) : Type 0 where
  works : Outcome Line
  fails : Content Line → Outcome Line

pub record Disk (Line : Type 0) : Type 0 where
  -- `none` if there is no file at the path
  pub content : Option (Content Line)
  pub outcomes : List (Outcome Line)

abbrev pub system_error : Error
system_error = message "system call failed"

module _ {Line : Type 0} where
  abbrev next_outcome : List (Outcome Line) → Outcome Line
  next_outcome [] = works
  next_outcome (o ∷ _) = o

  abbrev later_outcomes : List (Outcome Line) → List (Outcome Line)
  later_outcomes [] = []
  later_outcomes (_ ∷ os) = os

  abbrev pub empty_file : Content Line
  empty_file = record { lines = []; tail = none }

  abbrev pub whole : List Line → Content Line
  whole lines = record { lines = lines; tail = none }

  abbrev pub content_of : Option (Content Line) → Content Line
  content_of none = empty_file
  content_of (some c) = c

  -- the lines that a scanner finds: the last one need not be ended
  abbrev pub scanned : Content Line → List Line
  scanned c = c.lines ++ (elim c.tail [ none ↦ [] | some line ↦ line ∷ [] ])

  -- a text at the end of a file: what it begins with goes on with the line that is not ended
  abbrev pub at_end : (Line → Line → Line) → Content Line → Content Line → Content Line
  at_end join c new = elim c.tail [
    | none ↦ record { lines = c.lines ++ new.lines; tail = new.tail }
    | some open_line ↦ elim new.lines [
      | l ∷ ls ↦ record { lines = c.lines ++ join open_line l ∷ ls; tail = new.tail }
      | [] ↦ elim new.tail [ none ↦ c | some t ↦ record c { tail = some (join open_line t) } ]
    ]
  ]

  abbrev called : Disk Line → Disk Line
  called d = record d { outcomes = later_outcomes d.outcomes }

  -- os.OpenFile with O_WRONLY|O_APPEND|O_CREATE
  unfoldable pub open_append : Disk Line → Result (Unit {0}) × Disk Line
  open_append d = elim (next_outcome d.outcomes) [
    | works ↦ (ok tt, record (called d) { content = some (content_of d.content) })
    | fails _ ↦ (err system_error, called d)
  ]

  -- Write of an open file at its end
  unfoldable pub write_lines :
      (Line → Line → Line) → List Line → Disk Line → Result (Unit {0}) × Disk Line
  write_lines join lines d = elim (next_outcome d.outcomes) [
    | works ↦ (
      ok tt,
      record (called d) { content = some (at_end join (content_of d.content) (whole lines)) },
    )
    | fails part ↦ (
      err system_error,
      record (called d) { content = some (at_end join (content_of d.content) part) },
    )
  ]

  -- os.Create, which empties the file
  unfoldable pub create : Disk Line → Result (Unit {0}) × Disk Line
  create d = elim (next_outcome d.outcomes) [
    | works ↦ (ok tt, record (called d) { content = some empty_file })
    | fails _ ↦ (err system_error, called d)
  ]

  abbrev existing : Option (Content Line) → Result (List Line)
  existing none = err (sentinel not_exist)
  existing (some c) = ok (scanned c)

  -- os.Open and os.Stat: the lines that are there
  unfoldable pub open_read : Disk Line → Result (List Line) × Disk Line
  open_read d = elim (next_outcome d.outcomes) [
    | works ↦ (existing d.content, called d)
    | fails _ ↦ (err system_error, called d)
  ]

  -- a call that leaves the file as it is: Close, os.CreateTemp, os.Remove, a read
  unfoldable pub call_system : Disk Line → Result (Unit {0}) × Disk Line
  call_system d = elim (next_outcome d.outcomes) [
    | works ↦ (ok tt, called d)
    | fails _ ↦ (err system_error, called d)
  ]
