-- ===== src/Repository/File/Durable.antt =====
-- What file.go wrote, a restart reads back; and what it does not.
use mathlib.Core.List.{append-nil}
use shortener.Base.{
  ◌≡◌, refl, sym, Option-cases, false, none, some, List, [], ◌∷◌, ◌++◌, map, arith, inl, inr, ◌∙◌,
  ap,
}
use shortener.Base.Lists.{All}
use shortener.Errors.{ok}
use shortener.Context.{Context}
use shortener.Repository.{Row}
use shortener.Repository.Disk.{
  FileRecord, Codec, Content, Disk, content_of, whole, scanned, at_end, open_append, write_lines,
}
use shortener.Repository.Memory
use shortener.Repository.Memory.{MemStorage, new_mem_storage, store_row, store_rows}
use shortener.Repository.File.{
  FileStorage, record_of_row, load_lines, load_record, append_records, add_locked, add,
  add_batch_locked, add_batch,
}

module _ (codec : Codec) where
  open codec use {Line, join, is_blank, is_too_long, marshal, unmarshal, encode_indented}

  -- The file is empty or ends in a newline.
  abbrev pub IsEnded : Disk Line → Type 0
  IsEnded d = (content_of d.content).tail ≡ none

  -- Loading the lines of the file gives the maps in memory.
  abbrev pub IsLoadable : FileStorage codec → Type 0
  IsLoadable fs =
      load_lines codec (scanned (content_of fs.disk.content)) new_mem_storage ≡ (ok tt, fs.mem)

  abbrev pub IsDurable : FileStorage codec → Type 0
  IsDurable fs = IsEnded fs.disk × IsLoadable fs

  -- A line for the row is in the scanner's reach.
  abbrev pub Fits : Row → Type 0
  Fits item = is_too_long (marshal (record_of_row item)) ≡ false

  -- json.Unmarshal reads back what json.Marshal wrote, which is no blank line.
  pub record ReadsBack : Type 0 where
    pub unmarshal-marshal : (rec : FileRecord) → unmarshal (marshal rec) ≡ some rec
    pub marshal-ne-blank : (rec : FileRecord) → is_blank (marshal rec) ≡ false

  -- The lines of an indented array begin with one that is no object: `[` or `[]`.
  pub record IndentsArrays : Type 0 where
    pub opening :
        (recs : List FileRecord)
        → (line : Line) × (lines : List Line) × (encode_indented recs ≡ line ∷ lines)
          × (is_blank line ≡ false)
          × (unmarshal line ≡ none)

  load_lines-append :
      (xs ys : List Line) (m m' : MemStorage)
      → load_lines codec xs m ≡ (ok tt, m')
      → load_lines codec (xs ++ ys) m ≡ load_lines codec ys m'
  unfolding load_lines
  load_lines-append [] ys m m' h = ground arith
  load_lines-append (x ∷ xs) ys m m' h = elim (Option-cases (unmarshal x)) [
    | inl bad ↦ ground (arith, load_lines-append xs ys m m')
    | inr (rec, good) ↦
        ground (arith, load_lines-append xs ys m m', load_lines-append xs ys (load_record rec m) m')
  ]

  scanned-ended : (c : Content Line) → c.tail ≡ none → scanned c ≡ c.lines
  scanned-ended c ended = rw ended (append-nil c.lines)

  at_end-whole :
      (c : Content Line) (ls : List Line)
      → c.tail ≡ none
      → at_end join c (whole ls) ≡ whole (c.lines ++ ls)
  at_end-whole c ls ended = rw ended refl

  -- An append that works puts the lines at the end of a file that ends in a newline.
  pub append_records-content :
      (recs : List FileRecord) (d : Disk Line)
      → IsEnded d
      → (append_records codec recs d).0 ≡ ok tt
      → content_of (append_records codec recs d).1.content
        ≡ whole ((content_of d.content).lines ++ map marshal recs)
  unfolding append_records open_append write_lines
  append_records-content [] d ended h =
      ap (λ t. record { lines = (content_of d.content).lines; tail = t }) ended
      ∙ ap whole (sym (append-nil (content_of d.content).lines))
  append_records-content (rec ∷ recs) d ended h =
      ground (arith, at_end-whole (content_of d.content) (map marshal (rec ∷ recs)) ended)

  pub open_append-content :
      (d : Disk Line) → content_of (open_append d).1.content ≡ content_of d.content
  unfolding open_append
  open_append-content d = ground arith

  module _ (laws : ReadsBack) where
    load_lines-rows :
        (items : List Row) (m : MemStorage)
        → All Fits items
        → load_lines codec (map marshal (map record_of_row items)) m ≡ (ok tt, store_rows items m)
    unfolding load_lines load_record store_rows store_row
    load_lines-rows [] m fits = refl
    load_lines-rows (x ∷ xs) m fits = ground (
      arith,
      laws.unmarshal-marshal (record_of_row x),
      laws.marshal-ne-blank (record_of_row x),
      load_lines-rows xs (store_row x m),
    )

    -- What the memory took and the file got is durable.
    persist-IsDurable :
        (items : List Row) (before : Content Line) (m : MemStorage) (d : Disk Line)
        → All Fits items
        → before.tail ≡ none
        → load_lines codec (scanned before) new_mem_storage ≡ (ok tt, m)
        → content_of d.content ≡ whole (before.lines ++ map marshal (map record_of_row items))
        → IsDurable (record { mem = store_rows items m; disk = d })
    persist-IsDurable items before m d fits ended h e =
        let rows = map marshal (map record_of_row items) in
        (
          ap (λ (c : Content Line). c.tail) e,
          ap (λ (c : Content Line). load_lines codec (scanned c) new_mem_storage) e
              ∙ ap (λ ls. load_lines codec ls new_mem_storage) (append-nil (before.lines ++ rows))
              ∙ load_lines-append before.lines rows new_mem_storage m (
                  ap (λ ls. load_lines codec ls new_mem_storage) (sym (scanned-ended before ended))
                  ∙ h)
              ∙ load_lines-rows items m fits,
        )

    -- A row that was added with success is in the file.
    add_locked-IsDurable :
        (item : Row) (fs : FileStorage codec)
        → Fits item
        → IsDurable fs
        → (add_locked codec item fs).0 ≡ ok tt
        → IsDurable (add_locked codec item fs).1
    unfolding add_locked Memory.add_locked store_rows
    add_locked-IsDurable item fs fits h added = ground (
      arith,
      append_records-content (record_of_row item ∷ []) fs.disk h.0,
      persist-IsDurable (item ∷ []) (content_of fs.disk.content) fs.mem
          (append_records codec (record_of_row item ∷ []) fs.disk).1 (fits, tt) h.0 h.1,
    )

    -- Where json.Unmarshal reads back what json.Marshal wrote, the row's line fits the scanner, and
    -- the file, which is empty or ends in a newline, loads to the maps in memory, both are still so
    -- after an `add` that succeeds.
    pub add-IsDurable :
        (ctx : Context) (item : Row) (fs : FileStorage codec)
        → Fits item
        → IsDurable fs
        → (add codec ctx item fs).0 ≡ ok tt
        → IsDurable (add codec ctx item fs).1
    unfolding add
    add-IsDurable ctx item fs fits h added = ground (arith, add_locked-IsDurable item fs fits h)

    add_batch_locked-IsDurable :
        (items : List Row) (fs : FileStorage codec)
        → All Fits items
        → IsDurable fs
        → (add_batch_locked codec items fs).0 ≡ ok tt
        → IsDurable (add_batch_locked codec items fs).1
    unfolding add_batch_locked Memory.add_batch_locked
    add_batch_locked-IsDurable items fs fits h added =
        let d = (open_append fs.disk).1 in
        ground (
          arith,
          open_append-content fs.disk,
          append_records-content (map record_of_row items) d
              (ap (λ (c : Content Line). c.tail) (open_append-content fs.disk) ∙ h.0),
          persist-IsDurable items (content_of fs.disk.content) fs.mem
              (append_records codec (map record_of_row items) d).1 fits h.0 h.1,
        )

    -- Where json.Unmarshal reads back what json.Marshal wrote, the rows' lines fit the scanner, and
    -- the file, which is empty or ends in a newline, loads to the maps in memory, both are still so
    -- after a batch that succeeds.
    pub add_batch-IsDurable :
        (ctx : Context) (items : List Row) (fs : FileStorage codec)
        → All Fits items
        → IsDurable fs
        → (add_batch codec ctx items fs).0 ≡ ok tt
        → IsDurable (add_batch codec ctx items fs).1
    unfolding add_batch
    add_batch-IsDurable ctx items fs fits h added =
        ground (arith, add_batch_locked-IsDurable items fs fits h)
