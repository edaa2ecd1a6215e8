-- ===== src/Context.antt =====
-- A request's context.Context, as far as the program reads it: whether it is done, and the user id
-- of internal/requests/context.go.
use shortener.Base.{String, Option, none, some}
use shortener.Errors.{Error, Result, err}

pub record Context : Type 0 where
  -- ctx.Err() once ctx.Done() is closed
  pub done : Option Error
  pub user_id : Option String

unfoldable pub set_user_id_to_context : Context → String → Context
set_user_id_to_context ctx user_id = record ctx { user_id = some user_id }

unfoldable pub get_user_id_from_context : Context → Option String
get_user_id_from_context ctx = ctx.user_id

-- `select { case <-ctx.Done(): return ctx.Err(); default: }` before the body of a method
abbrev pub unless_done {ℓ κ} : {A : Type ℓ} {S : Type κ} → Context → S → Result A × S → Result A × S
unless_done ctx s body = elim ctx.done [ none ↦ body | some e ↦ (err e, s) ]
