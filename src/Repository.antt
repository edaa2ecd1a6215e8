-- ===== src/Repository.antt =====
-- internal/repository/storage.go: the rows, what a storage holds for a short id, and the interface
-- Storage that the service is written against.
pub mod Memory
pub mod Disk
pub mod File
pub mod Database
pub mod Requests
use shortener.Base.{String, Bool, List}
use shortener.Errors.{Result}
use shortener.Models.{Statistics}
use shortener.Context.{Context}

pub record Row : Type 0 where
  pub id : String
  pub original_url : String
  pub user_id : String

-- `UserURL` of the package; `short_url` is the bare id
pub record UserUrl : Type 0 where
  pub short_url : String
  pub original_url : String

pub record UrlInfo : Type 0 where
  pub original_url : String
  pub user_id : String
  pub deleted : Bool

-- The methods of a storage, over the state that they read and write.
pub record Storage : Type 1 where
  pub State : Type 0
  pub add : Context → Row → State → Result (Unit {0}) × State
  pub get : Context → String → State → Result String × State
  pub ping : Context → State → Result (Unit {0}) × State
  pub add_batch : Context → List Row → State → Result (Unit {0}) × State
  pub get_user_urls : Context → String → State → Result (List UserUrl) × State
  pub delete_batch : Context → String → List String → State → Result (Unit {0}) × State
  pub get_stats : Context → State → Result Statistics × State
