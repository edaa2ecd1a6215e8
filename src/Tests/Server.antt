-- ===== src/Tests/Server.antt =====
-- The theorem on the routes of server.go at a concrete visit.
use shortener.Base.{ℕ, ◌≡◌, refl, false, none, some, [], ◌∷◌, arith}
use shortener.Base.Dict.{lookup}
use shortener.Base.Text.{trim_space}
use shortener.Models.{follow, shorten}
use shortener.Http.{new_writer, play, status_of, header_of, cookies_of}
use shortener.Repository.Memory.{mem_storage, new_mem_storage}
use shortener.Service.{get_url_from_id}
use shortener.Utils.{generate_id}
use shortener.Auth.{cookie_name, set_user_cookie}
use shortener.Server.{Endpoint, Arrival, ServerConfig, serve}
use shortener.Grpc.{response}
use shortener.Server.Calls.{text, CallArrival, shorten_call, serve_call}
use shortener.Server.Transports.{serve-serve_call}
use shortener.Server.Visits.{serve-visit}
use shortener.Tests.{visit, anyone, config, zeros, counted, request, json}
use shortener.Tests.Web.{jwt, jwt-SignsAndVerifies}

abbrev pub server_config : ServerConfig ℕ
server_config = record {
  cookie_secret = "key";
  max_parallel_workers = 100;
  parse_ip = λ text. none;
  trusted_subnet = none;
}

abbrev pub arrival : Arrival
arrival = record {
  request = request;
  write_fails = false;
  random = zeros;
  randoms = counted;
  now = 0;
  new_id = "anna";
  cookie = none;
  real_ip = "";
}

abbrev later : Arrival
later = record arrival { request = record request { url_param_id = generate_id 2 zeros }; now = 60 }

serve-visit_example :
    let (first, first_events) =
      serve
        (mem_storage visit)
        config
        json
        jwt
        server_config
        Endpoint.shorten_url
        arrival
        anyone
        new_mem_storage in
    let (second, second_events) =
      serve
        (mem_storage visit)
        config
        json
        jwt
        server_config
        Endpoint.expand
        later
        anyone
        first.state in
    (status_of (play first.calls new_writer) ≡ 201)
    × ((play first.calls new_writer).body ≡ get_url_from_id config (generate_id 2 zeros) "" "h")
    × (cookies_of (play first.calls new_writer) ≡ (cookie_name, "anna") ∷ [])
    × (first_events
        ≡ record { timestamp = 0; action = shorten; user_id = "anna"; url = " u " } ∷ [])
    × (status_of (play second.calls new_writer) ≡ 307)
    × (header_of "Location" (play second.calls new_writer) ≡ some "u")
    × (second_events ≡ record { timestamp = 60; action = follow; user_id = ""; url = "u" } ∷ [])
unfolding trim_space lookup set_user_cookie
serve-visit_example =
    serve-visit visit config json jwt server_config anyone arrival " u " "anna" new_mem_storage refl
      refl refl refl refl refl refl later anyone refl refl

abbrev authorized : CallArrival
authorized = record { metadata = some (" Bearer anna" ∷ []); now = 3600; random = zeros }

serve-serve_call_example :
    let (first, first_events) =
      serve_call
        (mem_storage visit)
        config
        jwt
        "key"
        (shorten_call (some " u "))
        authorized
        anyone
        new_mem_storage in
    let (second, second_events) =
      serve
        (mem_storage visit)
        config
        json
        jwt
        server_config
        Endpoint.expand
        later
        anyone
        first.state in
    (first.answer ≡ response (text (get_url_from_id config (generate_id 2 zeros) "" "")))
    × (first_events
        ≡ record { timestamp = 3600; action = shorten; user_id = "anna"; url = "u" } ∷ [])
    × (status_of (play second.calls new_writer) ≡ 307)
    × (header_of "Location" (play second.calls new_writer) ≡ some "u")
    × (second_events ≡ record { timestamp = 60; action = follow; user_id = ""; url = "u" } ∷ [])
unfolding trim_space lookup set_user_cookie
serve-serve_call_example =
    serve-serve_call visit config json jwt server_config anyone anyone " u " new_mem_storage refl
      refl refl refl authorized "anna" 0 "anna" " Bearer anna" "anna" [] later refl
      jwt-SignsAndVerifies refl refl refl (omega arith) refl refl refl
