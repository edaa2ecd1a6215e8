-- ===== src/Tests.antt =====
-- Concrete requests, storages, files and tokens on which the theorems are tried.
pub mod Memory
pub mod Files
pub mod Service
pub mod Web
pub mod Grpc
pub mod Server
pub mod Reset
pub mod Typing
pub mod Audit
pub mod Config
pub mod Gzip
pub mod Database
pub mod Main
pub mod Client
pub mod Staticlint
use shortener.Base.{ℕ, suc, ◌*◌, String, Bool, true, false, Option, none, some, List, [], ◌∷◌}
use mathlib.Core.List.{Permᴰ}
use mathlib.Core.List.Permᴰ
use shortener.Base.Dict.{Dict}
use shortener.Context.{Context}
use shortener.Repository.{Row, UrlInfo}
use shortener.Repository.Disk.{FileRecord, Codec}
use shortener.Repository.Memory.{MemStorage, new_mem_storage}
use shortener.Service.{ServiceConfig}
use shortener.Models.{AuditData, empty_audit_data}
use shortener.Http.{HttpRequest}
use shortener.Handlers.{Json}

abbrev pub visit : Dict UrlInfo → List (String × UrlInfo)
visit d = d

pub visit-perm : (d : Dict UrlInfo) → Permᴰ (visit d) d
visit-perm d = Permᴰ.refl d

abbrev pub anyone : Context
anyone = record { done = none; user_id = none }

abbrev pub anna : Context
anna = record { done = none; user_id = some "anna" }

abbrev pub row_a : Row
row_a = record { id = "AA"; original_url = "u"; user_id = "anna" }

abbrev pub row_b : Row
row_b = record { id = "AB"; original_url = "v"; user_id = "anna" }

abbrev pub info_a : UrlInfo
info_a = record { original_url = "u"; user_id = "anna"; deleted = false }

-- the memory storage with `row_a`
abbrev pub with_a : MemStorage
with_a = record { entries = ("AA", info_a) ∷ []; url_to_id = ("u", "AA") ∷ [] }

abbrev pub config : ServiceConfig
config = record { show_addr = ""; id_size = 2 }

abbrev pub zeros : List ℕ
zeros = 0 ∷ 0 ∷ []

-- bytes that differ from call to call
abbrev pub counted : ℕ → List ℕ
counted n = 4 * suc n ∷ 0 ∷ []

abbrev pub request : HttpRequest
request = record { body = some " u "; host = "h"; forwarded_proto = ""; url_param_id = "AA" }

-- a decoder that knows one id, and reads everything else as it should not be
abbrev pub json : Json
json = record {
  decode_shorten = λ body. none;
  decode_batch = λ body. none;
  decode_ids = λ body. some ("AA" ∷ []);
  encode_shorten = λ r. r.result;
  encode_batch = λ rs. "";
  encode_urls = λ us. "";
  encode_stats = λ s. "";
}

-- a line of a file: a record, or the bracket or a line of an indented array
pub data TextLine : Type 0 where
  object : FileRecord → TextLine
  bracket : TextLine

abbrev parsed : TextLine → Option FileRecord
parsed (object rec) = some rec
parsed bracket = none

abbrev pub lines_codec : Codec
lines_codec = record {
  Line = TextLine;
  join = λ a b. bracket;
  is_blank = λ line. false;
  is_too_long = λ line. false;
  marshal = object;
  unmarshal = parsed;
  encode_indented = λ recs. bracket ∷ [];
}
