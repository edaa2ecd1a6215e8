-- ===== src/Server/Calls.antt =====
-- internal/server/grpc.go: the methods that NewGRPCServer registers, behind its chain of interceptors.
-- That a call reaches its method by its full name is generated code's and the package grpc's.
use shortener.Base.{ℕ, String, Option, List}
use shortener.Models.{AuditEvent, UserUrl}
use shortener.Context.{Context}
use shortener.Repository.{Storage}
use shortener.Service.{ServiceConfig}
use shortener.Auth.{Jwt}
use shortener.Grpc.{
  response, status, GrpcServed, UnaryHandler, shorten_url, expand_url, list_user_urls,
  grpc_auth_interceptor, grpc_audit_interceptor,
}

-- a method with its request
pub data Call : Type 0 where
  shorten_call expand_call : Option String → Call
  list_call : Call

-- URLShortenResponse and URLExpandResponse, UserURLsResponse
pub data Reply : Type 0 where
  text : String → Reply
  urls : List UserUrl → Reply

-- what a method reads beside its context: the values of the key authorization, if there is any
-- metadata, the time, and the bytes of crypto/rand
pub record CallArrival : Type 0 where
  pub metadata : Option (List String)
  pub now : ℕ
  pub random : List ℕ

-- info.FullMethod
abbrev pub full_method : Call → String
full_method (shorten_call url) = "/shortener.ShortenerService/ShortenURL"
full_method (expand_call id) = "/shortener.ShortenerService/ExpandURL"
full_method list_call = "/shortener.ShortenerService/ListUserURLs"

abbrev pub map_served :
    {A State : Type 0} → (A → Reply) → GrpcServed A State → GrpcServed Reply State
map_served f served = record {
  answer = elim served.answer [
    | response a ↦ response (f a)
    | status code message ↦ status code message
  ];
  audit = served.audit;
  state = served.state;
}

module _ (storage : Storage) (service : ServiceConfig) (jwt : Jwt) (cookie_secret : String) where
  open storage use {State}

  -- the method of a call
  unfoldable pub method : Call → List ℕ → UnaryHandler Reply State
  method (shorten_call url) random ctx audit st =
      map_served text (shorten_url storage service ctx url random audit st)
  method (expand_call id) random ctx audit st =
      map_served text (expand_url storage service ctx id audit st)
  method list_call random ctx audit st =
      map_served urls (list_user_urls storage service ctx audit st)

  -- a call through the interceptors: what was served, and the events
  unfoldable pub serve_call :
      Call → CallArrival → Context → State → GrpcServed Reply State × List AuditEvent
  unfolding method
  serve_call c a ctx st =
      grpc_audit_interceptor a.now
        (grpc_auth_interceptor jwt cookie_secret a.now (full_method c) a.metadata
          (method c a.random))
        ctx st
