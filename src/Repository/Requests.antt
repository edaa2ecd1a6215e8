-- ===== src/Repository/Requests.antt =====
-- A sequence of calls of a storage's methods and the replies to it.
use shortener.Base.{String, List, [], ◌∷◌}
use shortener.Errors.{Result}
use shortener.Models.{Statistics}
use shortener.Context.{Context}
use shortener.Repository.{Row, UserUrl, Storage}

pub data Request : Type 0 where
  add : Context → Row → Request
  get : Context → String → Request
  ping : Context → Request
  add_batch : Context → List Row → Request
  get_user_urls : Context → String → Request
  delete_batch : Context → String → List String → Request
  get_stats : Context → Request

pub data Reply : Type 0 where
  done : Result (Unit {0}) → Reply
  url : Result String → Reply
  urls : Result (List UserUrl) → Reply
  stats : Result Statistics → Reply

module _ (s : Storage) where
  open s use {State}

  abbrev reply {ℓ} : {A : Type ℓ} → (Result A → Reply) → Result A × State → Reply × State
  reply as_reply (result, st) = (as_reply result, st)

  abbrev pub step : Request → State → Reply × State
  step (add ctx item) st = reply done (s.add ctx item st)
  step (get ctx id) st = reply url (s.get ctx id st)
  step (ping ctx) st = reply done (s.ping ctx st)
  step (add_batch ctx items) st = reply done (s.add_batch ctx items st)
  step (get_user_urls ctx user_id) st = reply urls (s.get_user_urls ctx user_id st)
  step (delete_batch ctx user_id ids) st = reply done (s.delete_batch ctx user_id ids st)
  step (get_stats ctx) st = reply stats (s.get_stats ctx st)

  unfoldable pub run : List Request → State → List Reply × State
  run [] st = ([], st)
  run (r ∷ rs) st =
      let (answer, st') = step r st in let (answers, st'') = run rs st' in (answer ∷ answers, st'')

  unfoldable pub final : List Request → State → State
  unfolding run
  final rs st = (run rs st).1

  unfoldable pub replies : List Request → State → List Reply
  unfolding run
  replies rs st = (run rs st).0
