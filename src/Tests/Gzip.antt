-- ===== src/Tests/Gzip.antt =====
-- The theorem on gzip.go for a compression that keeps the texts.
use text.Mathlib.TextLemmas.{append-nil}
use shortener.Base.{ℕ, String, true, false, ◌≡◌, refl, ap, ◌∙◌, Option, none, some, List, [], ◌∷◌}
use shortener.Base.Text.{◌+s◌, trim_space}
use shortener.Http.{WriterCall, set_header, write, new_writer, play}
use shortener.Headers.{parse_content_encoding, content_encodings, split}
use shortener.Middlewares.Gzip.{Gzip, GzipPools, compress_writers}
use shortener.Http.Sending.{joined}
use shortener.Middlewares.Gzip.Writing.{Unzips, feed}
use shortener.Middlewares.Gzip.Pools as Pools
use shortener.Repository.Memory.{mem_storage, new_mem_storage}
use shortener.Server.{Endpoint}
use shortener.Server.Compression.{server_calls, serve_compressed, serve_compressed-Served}
use shortener.Tests.{visit, anyone, config, json}
use shortener.Tests.Web.{jwt}
use shortener.Tests.Server.{server_config, arrival}
use shortener.Middlewares.Gzip.Pools.{Served}

abbrev kept : Gzip
kept = record {
  Writer = Unit {0};
  zero_writer = tt;
  new_writer = tt;
  write = λ text z. (z, text);
  close = λ z. "";
  Reader = Option String;
  zero_reader = none;
  new_reader = λ body. some body;
  read_all = λ z. z;
  close_fails = λ z. false;
  parse_media_type = λ text. some text;
  Float = ℕ;
  parse_float = λ text. none;
  one = 1;
  is_positive = λ q. true;
}

feed-joined : (texts : List String) (z : Unit {0}) → (feed kept texts z).1 ≡ joined texts
feed-joined [] z = refl
feed-joined (text ∷ texts) z = ap (λ (s : String). text +s s) (feed-joined texts z)

kept-Unzips : Unzips kept (λ text. some text)
kept-Unzips texts = ap some (append-nil (feed kept texts tt).1 ∙ feed-joined texts tt)

-- a handler that answers the body of its request as html
abbrev echo : Option String → List WriterCall
echo none = []
echo (some text) = set_header "Content-Type" "text/html" ∷ write text ∷ []

abbrev pools : GzipPools kept
pools = record { writers = (compress_writers kept).new ∷ []; readers = [] }

-- a shortening whose body is compressed
serve_compressed-Served_example :
    Pools.Served kept
      (λ text. some text)
      kept-Unzips
      (play
        (server_calls
          (mem_storage visit)
          config
          json
          jwt
          server_config
          Endpoint.shorten_url
          arrival
          anyone
          new_mem_storage
          (some " u "))
        new_writer)
      (serve_compressed
        (mem_storage visit)
        config
        json
        jwt
        server_config
        kept
        "gzip"
        "gzip"
        0
        0
        Endpoint.shorten_url
        arrival
        anyone
        new_mem_storage
        pools)
unfolding parse_content_encoding content_encodings split trim_space
serve_compressed-Served_example =
    serve_compressed-Served (mem_storage visit) config json jwt server_config kept
      (λ text. some text) kept-Unzips "gzip" "gzip" 0 0 Endpoint.shorten_url arrival anyone
      new_mem_storage (some " u ") pools ((refl, tt), tt) refl
