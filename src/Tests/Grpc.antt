-- ===== src/Tests/Grpc.antt =====
-- The theorems on the gRPC calls at concrete calls.
use shortener.Base.{String, ◌≡◌, refl, none, some, []}
use shortener.Base.Dict.{lookup}
use shortener.Base.Text.{trim_space}
use shortener.Errors.{message}
use shortener.Models.{empty_audit_data, shorten, follow}
use shortener.Utils.{generate_id, encode_to_string, take, digit, char_at_or}
use shortener.Repository.Memory.{MemStorage, mem_storage, new_mem_storage}
use shortener.Service.{get_url_from_id}
use shortener.Grpc.{
  UnaryHandler, response, status, unauthenticated, shorten_url, expand_url,
  get_user_id_from_metadata, grpc_auth_interceptor, grpc_audit_interceptor,
}
use shortener.Grpc.Expanding.{expand_url-shorten_url}
use shortener.Grpc.Authorization.{interceptors-unauthenticated}
use shortener.Tests.{visit, anyone, anna, with_a, config, zeros}
use shortener.Tests.Web.{jwt}

expand_url-shorten_url_example :
    let created =
      shorten_url
        (mem_storage visit)
        config
        anna
        (some " u ")
        zeros
        (some empty_audit_data)
        new_mem_storage in
    let visited =
      expand_url
        (mem_storage visit)
        config
        anyone
        (some "AA ")
        (some empty_audit_data)
        created.state in
    (created.answer ≡ response (get_url_from_id config "AA" "" ""))
    × (created.audit ≡ some (record { action = shorten; url = "u"; user_id = "" }))
    × (visited.answer ≡ response "u")
    × (visited.audit ≡ some (record { action = follow; url = "u"; user_id = "" }))
unfolding trim_space lookup generate_id encode_to_string take digit char_at_or
expand_url-shorten_url_example =
    expand_url-shorten_url visit config anna anyone "anna" " u " "AA " zeros empty_audit_data
      empty_audit_data new_mem_storage refl refl refl refl refl refl refl

abbrev echo : UnaryHandler String MemStorage
echo ctx audit st = record { answer = response "done"; audit = audit; state = st }

interceptors-unauthenticated_example :
    let (served, events) =
      grpc_audit_interceptor 0
        (grpc_auth_interceptor jwt "key" 0 "/shortener.ShortenerService/ShortenURL" none echo)
        anyone
        with_a in
    (served.answer ≡ status unauthenticated "invalid authorization")
    × (served.state ≡ with_a)
    × (events ≡ [])
unfolding get_user_id_from_metadata
interceptors-unauthenticated_example =
    interceptors-unauthenticated jwt "key" echo anyone with_a 0
      "/shortener.ShortenerService/ShortenURL" none (message "metadata is missing") refl refl
