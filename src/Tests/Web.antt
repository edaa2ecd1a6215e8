-- ===== src/Tests/Web.antt =====
-- The theorems on the handlers and on AuthMiddleware at concrete requests.
use shortener.Base.{
  ◌*◌, ◌≡◌, refl, true, false, none, some, [], ◌∷◌, ◌||◌, not, arith, if◌then◌else◌, nat_eq,
}
use shortener.Base.Dict.{lookup}
use shortener.Base.Text.{is_empty, trim_space}
use shortener.Errors.{ok, err, sentinel, message, gone}
use shortener.Models.{empty_audit_data, follow}
use shortener.Context.{set_user_id_to_context}
use shortener.Http.{HttpRequest, new_writer, play, status_of, header_of}
use shortener.Repository.Memory
use shortener.Repository.Memory.{MemStorage, mem_storage, new_mem_storage}
use shortener.Utils.{generate_id}
use shortener.Handlers.{
  Served, expand_url_handler, shorten_url_handler, shorten_json_handler, ping_handler,
  post_batch_shorten_handler, list_user_urls_handler, delete_user_urls_handler, stats_handler,
}
use shortener.Handlers.Redirects.{expand_url_handler-shorten_url_handler}
use shortener.Handlers.Deletions.{run_tasks, delete_user_urls_handler-get}
use shortener.Handlers.Replies.{SendsOnce, handlers-SendsOnce}
use shortener.Auth.{Jwt, hs256, set_user_cookie}
use shortener.Middlewares.{Handler, with_user, auth_middleware}
use shortener.Middlewares.Authentication.{SignsAndVerifies, auth_middleware-set_user_cookie}
use shortener.Tests.{visit, anyone, anna, with_a, config, zeros, counted, request, json}

abbrev created : Served MemStorage
created =
    shorten_url_handler (mem_storage visit) config anna request false zeros (some empty_audit_data)
      new_mem_storage

abbrev visit_request : HttpRequest
visit_request = record request { url_param_id = generate_id 2 zeros }

expand_url_handler-shorten_url_handler_example :
    let visited =
      expand_url_handler
        (mem_storage visit)
        config
        anyone
        visit_request
        (some empty_audit_data)
        created.state in
    (status_of (play visited.calls new_writer) ≡ 307)
    × (header_of "Location" (play visited.calls new_writer) ≡ some "u")
    × (visited.audit ≡ some (record { action = follow; url = "u"; user_id = "" }))
unfolding trim_space lookup
expand_url_handler-shorten_url_handler_example =
    expand_url_handler-shorten_url_handler visit config anna "anna" " u " request zeros
      empty_audit_data new_mem_storage refl refl refl refl refl anyone visit_request
      empty_audit_data refl refl

delete_user_urls_handler-get_example :
    let served =
      delete_user_urls_handler (mem_storage visit) config json 1 anna request none with_a in
    (status_of (play served.calls new_writer) ≡ 202)
    × (served.state ≡ with_a)
    × (m' : MemStorage) × (run_tasks visit config anyone served.tasks with_a ≡ some m')
    × ((Memory.get anyone "AA" m').0 ≡ err (sentinel gone))
unfolding lookup
delete_user_urls_handler-get_example =
    delete_user_urls_handler-get visit config json anna "anna" request none with_a refl ("AA" ∷ [])
      0 anyone anyone "AA" refl refl refl

handlers-SendsOnce_example :
    SendsOnce
      (shorten_url_handler (mem_storage visit) config anna request false zeros none with_a).calls
    × SendsOnce (expand_url_handler (mem_storage visit) config anna request none with_a).calls
    × SendsOnce (ping_handler (mem_storage visit) config anna none with_a).calls
    × SendsOnce
        (shorten_json_handler
          (mem_storage visit)
          config
          json
          anna
          request
          false
          zeros
          none
          with_a).calls
    × SendsOnce
        (post_batch_shorten_handler
          (mem_storage visit)
          config
          json
          anna
          request
          counted
          none
          with_a).calls
    × SendsOnce
        (list_user_urls_handler
          (mem_storage visit)
          config
          json
          anna
          request
          false
          none
          with_a).calls
    × SendsOnce
        (delete_user_urls_handler (mem_storage visit) config json 1 anna request none with_a).calls
    × SendsOnce (stats_handler (mem_storage visit) config json anna false none with_a).calls
handlers-SendsOnce_example =
    handlers-SendsOnce (mem_storage visit) config json anna request none with_a zeros counted 1

-- a signer whose token is the user id, which verifies a token until second 86400
abbrev pub jwt : Jwt
jwt = record {
  signed_string = λ method claims key.
      if is_empty claims.user_id || not (nat_eq claims.expires_at (24 * 3600))
      then err (message "refused")
      else ok claims.user_id;
  method_of = λ token. if is_empty token then err (message "malformed") else ok hs256;
  verified_claims = λ now token key. ok (true, record { expires_at = 24 * 3600; user_id = token });
}

abbrev echo : Handler MemStorage
echo ctx audit st = record { calls = []; audit = audit; state = st; tasks = [] }

pub jwt-SignsAndVerifies : SignsAndVerifies jwt "key"
jwt-SignsAndVerifies = record {
  method-signed = λ claims token signed. ground arith;
  verified-signed = λ claims token now signed alive. ground arith;
}

auth_middleware-set_user_cookie_example :
    auth_middleware jwt "key" 3600 "new" (some "anna") echo anyone (some empty_audit_data) with_a
    ≡ echo (set_user_id_to_context anyone "anna") (with_user "anna" (some empty_audit_data)) with_a
unfolding set_user_cookie
auth_middleware-set_user_cookie_example =
    auth_middleware-set_user_cookie jwt "key" echo anyone (some empty_audit_data) with_a 0 3600
      "anna" "anna" "new" jwt-SignsAndVerifies refl refl (omega arith)
