-- ===== src/Client/Forms.antt =====
-- What the server makes of the form that the client posts.

use text.Mathlib.TextLemmas.{cons-append, append_assoc}
use shortener.Base.{
  ℕ, String, false, ◌≡◌, ◌≢◌, refl, sym, ap, ◌∙◌, none, some, List, [], ◌∷◌, arith,
}
use shortener.Base.Text.{◌+s◌, is_empty, is_space, trim_space}
use shortener.Base.Dict.{Dict, lookup}
use shortener.Models.{AuditData}
use shortener.Context.{Context}
use shortener.Http.{HttpRequest, new_writer, play, status_of, header_of}
use shortener.Errors.{Result}
use shortener.Utils.{generate_id}
use shortener.Utils.Ids.{size}
use shortener.Repository.{UrlInfo}
use shortener.Repository.Memory.{MemStorage, mem_storage}
use shortener.Service.{ServiceConfig}
use shortener.Handlers.{shorten_url_handler, expand_url_handler}
use shortener.Handlers.Redirects.{
  shorten_url_handler-created, expand_url_handler-shorten_url_handler,
}
use shortener.Client.{
  unreserved, escape_char, query_escape, encode, PostRequest, read_string, make_request, run_client,
  of_line, answered, trim_newline,
}
use shortener.Client.Escaping.{
  HasNoSpace, HasNoSpace-append, trim_space-HasNoSpace, query_escape-HasNoSpace, size-append,
  size-query_escape,
}

key-HasNoSpace : HasNoSpace "url="
unfolding is_space
key-HasNoSpace = (refl, (refl, (refl, (refl, tt))))

-- What the client posts for a line.
abbrev form : String → String
form long = encode (("url", long) ∷ [])

form_lem : (long : String) → form long ≡ "url=" +s query_escape long
unfolding encode query_escape escape_char unreserved
form_lem long = sym (append_assoc "url" "=" (query_escape long))

form-ne : (long : String) → "url=" +s query_escape long ≢ long
form-ne long e =
    absurd
      (omega (arith, ap size e, size-append "url=" (query_escape long), size-query_escape long))

trim_space-form :
    (long : String) → trim_space ("url=" +s query_escape long) ≡ "url=" +s query_escape long
trim_space-form long =
    trim_space-HasNoSpace ("url=" +s query_escape long)
      (HasNoSpace-append "url=" (query_escape long) key-HasNoSpace (query_escape-HasNoSpace long))

not_empty : (long : String) → is_empty ("url=" +s query_escape long) ≡ false
not_empty long = rw (cons-append "u" "rl=" (query_escape long)) refl

-- The request for a line.
abbrev pub posted : String → PostRequest
posted long = record {
  endpoint = "http://localhost:8080/";
  content_type = "application/x-www-form-urlencoded";
  body = "url=" +s query_escape long;
}

run_client-posted :
    (do' : PostRequest → Result (String × Result String)) (input long : String)
    → read_string input ≡ some long
    → run_client none do' input ≡ answered (do' (posted (trim_newline long)))
unfolding run_client make_request
run_client-posted do' input long read =
    ap (of_line none do') read
    ∙ ap (λ body. answered (do' (record (posted (trim_newline long)) { body = body })))
        (form_lem (trim_newline long))

module _ (visit : Dict UrlInfo → List (String × UrlInfo)) (service : ServiceConfig) where
  -- For a line of input the client hands one request to its HTTP client, and ends with what comes of
  -- it, be it an answer or an error. Where a known
  -- user's request, under a context that is not done, brings its body to a server over a memory
  -- storage that does not hold that body as a url, it is answered by 201, but a visit of the id, under
  -- a context that is not done, is redirected to the body itself, `url=` and the escaped line, which
  -- is never the url that was typed.
  pub expand_url_handler-run_client :
      (do' : PostRequest → Result (String × Result String)) (input long : String)
      (ctx visitor : Context) (user_id : String) (r r' : HttpRequest) (random : List ℕ)
      (d d' : AuditData) (m : MemStorage)
      → read_string input ≡ some long
      → ctx.done ≡ none
      → visitor.done ≡ none
      → ctx.user_id ≡ some user_id
      → r.body ≡ some (posted (trim_newline long)).body
      → r'.url_param_id ≡ generate_id service.id_size random
      → lookup (posted (trim_newline long)).body m.url_to_id ≡ none
      → let served =
          shorten_url_handler (mem_storage visit) service ctx r false random (some d) m in
        let visited =
          expand_url_handler (mem_storage visit) service visitor r' (some d') served.state in
        let location = "url=" +s query_escape (trim_newline long) in
        (run_client none do' input ≡ answered (do' (posted (trim_newline long))))
        × (status_of (play served.calls new_writer) ≡ 201)
        × (status_of (play visited.calls new_writer) ≡ 307)
        × (header_of "Location" (play visited.calls new_writer) ≡ some location)
        × (location ≢ trim_newline long)
  expand_url_handler-run_client do' input long ctx visitor user_id r r' random d d' m read live
        live' known brought same new =
      let typed = trim_newline long in
      let kept = trim_space-form typed in
      let some_url : is_empty (trim_space (posted typed).body) ≡ false =
        rw kept (not_empty typed) in
      let new' : lookup (trim_space (posted typed).body) m.url_to_id ≡ none = rw kept new in
      let created =
        shorten_url_handler-created visit service ctx user_id (posted typed).body r random d m live
          known brought some_url new' in
      let (moved, there, followed) =
        expand_url_handler-shorten_url_handler visit service ctx user_id (posted typed).body r
          random d m live known brought some_url new' visitor r' d' live' same in
      (run_client-posted do' input long read, created.0, moved, there ∙ ap some kept, form-ne typed)
