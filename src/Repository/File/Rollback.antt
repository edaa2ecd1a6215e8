-- ===== src/Repository/File/Rollback.antt =====
-- What a failed write of file.go leaves in memory.
use shortener.Base.{◌≡◌, refl, ◌≢◌, none, List, [], ◌∷◌, arith, ◌∙◌, ap}
use shortener.Base.Lists.{All}
use shortener.Base.Dict.{lookup, delete-insert_self, delete-insert_ne}
use shortener.Errors.{ok}
use shortener.Context.{Context}
use shortener.Repository.{Row}
use shortener.Repository.Disk.{Codec}
use shortener.Repository.Memory
use shortener.Repository.Memory.{MemStorage, new_info, store_row, store_rows, first_existing}
use shortener.Repository.Memory.Batch.{
  IsNewRow, Differs, IsDistinct, All-IsNewRow, first_existing-eq-none_iff,
}
use shortener.Repository.File.{FileStorage, forget_row, forget_rows, add, add_batch}

forget_row-store_row : (x : Row) (m : MemStorage) → IsNewRow m x → forget_row x (store_row x m) ≡ m
unfolding forget_row store_row
forget_row-store_row x m new = cc (
  delete-insert_self x.id (new_info x) m.entries new.0,
  delete-insert_self x.original_url x.id m.url_to_id new.1,
)

forget_row-store_rows :
    (x : Row) (items : List Row) (m : MemStorage)
    → All (Differs x) items
    → forget_row x (store_rows items m) ≡ store_rows items (forget_row x m)
unfolding forget_row store_rows store_row
forget_row-store_rows x [] m d = refl
forget_row-store_rows x (y ∷ ys) m d =
    forget_row-store_rows x ys (store_row y m) d.1
    ∙ ap (store_rows ys) (
        cc (
          delete-insert_ne x.id y.id (new_info y) m.entries d.0.0,
          delete-insert_ne x.original_url y.original_url y.id m.url_to_id d.0.1,
        ))

forget_rows-store_rows :
    (items : List Row) (m : MemStorage)
    → IsDistinct items
    → All (IsNewRow m) items
    → forget_rows items (store_rows items m) ≡ m
unfolding forget_rows store_rows
forget_rows-store_rows [] m d new = refl
forget_rows-store_rows (x ∷ xs) m d new =
    ap (forget_rows xs) (
      forget_row-store_rows x xs (store_row x m) d.0
      ∙ ap (store_rows xs) (forget_row-store_row x m new.0))
    ∙ forget_rows-store_rows xs m d.1 new.1

module _ (codec : Codec) where
  -- An `add` that fails, on the file too, leaves the memory as it was, if the id was new.
  pub add_rollback :
      (ctx : Context) (item : Row) (fs : FileStorage codec)
      → lookup item.id fs.mem.entries ≡ none
      → (add codec ctx item fs).0 ≢ ok tt
      → (add codec ctx item fs).1.mem ≡ fs.mem
  unfolding add Memory.add_locked
  add_rollback ctx item fs fresh failed = ground (arith, forget_row-store_row item fs.mem)

  -- A batch that fails, on the file too, leaves the memory as it was, if its ids were new and no
  -- two rows share an id or a url.
  pub add_batch_rollback :
      (ctx : Context) (items : List Row) (fs : FileStorage codec)
      → IsDistinct items
      → All (λ item. lookup item.id fs.mem.entries ≡ none) items
      → (add_batch codec ctx items fs).0 ≢ ok tt
      → (add_batch codec ctx items fs).1.mem ≡ fs.mem
  unfolding add_batch Memory.add_batch_locked
  add_batch_rollback ctx items fs d fresh failed = ground (
    arith,
    forget_rows-store_rows items fs.mem d,
    first_existing-eq-none_iff items fs.mem,
    All-IsNewRow items fs.mem fresh,
  )
