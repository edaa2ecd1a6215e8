-- ===== src/Tests/Client.antt =====
-- The theorem on main.go of the client for a typed url with a blank in it.
use shortener.Base.{String, ◌≡◌, ◌≢◌, refl, false, none, some}
use shortener.Base.Text.{◌+s◌}
use shortener.Base.Dict.{lookup}
use shortener.Errors.{Result, ok}
use shortener.Models.{empty_audit_data}
use shortener.Http.{HttpRequest, new_writer, play, status_of, header_of}
use shortener.Utils.{generate_id}
use shortener.Repository.Memory.{mem_storage, new_mem_storage}
use shortener.Handlers.{shorten_url_handler, expand_url_handler}
use shortener.Client.{PostRequest, query_escape, trim_newline, read_string, run_client, answered}
use shortener.Client.Forms.{posted, expand_url_handler-run_client}
use shortener.Tests.{visit, anyone, anna, config, zeros, request}

abbrev created : PostRequest → Result (String × Result String)
created q = ok ("201 Created", ok "http://h/AA")

abbrev form_request : HttpRequest
form_request = record request { body = some (posted "a b").body }

abbrev visit_request : HttpRequest
visit_request = record request { url_param_id = generate_id 2 zeros }

expand_url_handler-run_client_example :
    let served =
      shorten_url_handler
        (mem_storage visit)
        config
        anna
        form_request
        false
        zeros
        (some empty_audit_data)
        new_mem_storage in
    let visited =
      expand_url_handler
        (mem_storage visit)
        config
        anyone
        visit_request
        (some empty_audit_data)
        served.state in
    let location = "url=" +s query_escape "a b" in
    (run_client none created "a b\n" ≡ answered (created (posted "a b")))
    × (status_of (play served.calls new_writer) ≡ 201)
    × (status_of (play visited.calls new_writer) ≡ 307)
    × (header_of "Location" (play visited.calls new_writer) ≡ some location)
    × (location ≢ "a b")
unfolding trim_newline read_string lookup
expand_url_handler-run_client_example =
    expand_url_handler-run_client visit config created "a b\n" "a b\n" anna anyone "anna"
      form_request visit_request zeros empty_audit_data empty_audit_data new_mem_storage refl refl
      refl refl refl refl refl
