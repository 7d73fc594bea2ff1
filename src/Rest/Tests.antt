-- ===== src/Rest/Tests.antt =====
-- Queries and error responses at concrete values.
use Prim.Native.String.{◌++◌}
use go_mod_edge_utils.Prelude.{
  ℕ, pos, insert, lookup, ◌≡◌, refl, String, Bool, true, false, Option, none, some, [], ◌∷◌, map,
  decimal, if◌then◌else◌, ◌==◌, string_eq,
}
use go_mod_edge_utils.Errors.{
  GoError, nil, foreign, base, BaseError, as_base, kind, message, debug_messages,
}
use go_mod_edge_utils.Errors.Kinds.{kind_status_conflict, kind_contract_invalid}
use go_mod_edge_utils.Rest.Query.{Parsed, number, syntax_error, parse_get_all_objects}
use go_mod_edge_utils.Rest.Query.Ranges.{IsParsed, parse_get_all_objects-IsParsed}
use go_mod_edge_utils.Rest.Query.Times.{parse_start_end}
use go_mod_edge_utils.Rest.Requests.{
  Try, done, raised, http_error, Url, Request, Response, Library, Context, get_request, put_request,
}
use go_mod_edge_utils.Rest.Requests.Created.{IsRequested, IsEncoded, request-IsRequested}
use go_mod_edge_utils.Sse.Polling.{BaseResponse}
use go_mod_edge_utils.Rest.Responses.{Writer, warned, debugged, log_error, respond_with_error}
use go_mod_edge_utils.Rest.Responses.Committed.{
  Commits, IsErrorResponse, respond_with_error-IsErrorResponse,
}
use go_mod_edge_utils.Rest.Sender.{
  HttpSender, Peer, text, value, http_post, set_secret_data, new_http_sender,
}
use go_mod_edge_utils.Rest.Sender.Safety.{IsPosted, http_post-IsPosted}

abbrev atoi : String → Parsed
atoi s = if s == "5" then number (pos 5) else syntax_error "invalid syntax"

abbrev query : String → String
query key = if key == "limit" then "5" else ""

parse_get_all_objects-IsParsed_example :
    IsParsed "f" atoi query 99 49 (parse_get_all_objects "f" atoi query (pos 100) (pos 50))
parse_get_all_objects-IsParsed_example = parse_get_all_objects-IsParsed "f" atoi query 99 49

abbrev conflict : BaseError
conflict = record {
  kind = kind_status_conflict;
  message = "busy";
  caller_info = "a";
  details = none;
}

abbrev wrapped : GoError
wrapped = foreign "outer" (base conflict nil)

abbrev parse_bool : String → Try String Bool
parse_bool s = if s == "true" then done true else raised "invalid syntax"

-- Of two errors the second is reported.
both_unconverted :
    kind (parse_start_end "f" atoi atoi parse_bool (λ key. "x") (pos 9)).err ≡ kind_contract_invalid
unfolding parse_start_end kind
both_unconverted = refl

abbrev joined : String → String → Try String String
joined root path = done (root ++ "/" ++ path)

abbrev place_only : String → Try String Url
place_only s = done (record { place = s; raw_query = "" })

abbrev shown : Url → String
shown u = if u.raw_query == "" then u.place else u.place ++ "?" ++ u.raw_query

abbrev echo_server : Request → Try String (Option Response)
echo_server r =
    if r.method == "GET"
    then done (some (record { status_code = 200; body = done "7" }))
    else done (some (record { status_code = 404; body = done "gone" }))

abbrev library : Library String ℕ ℕ
library = record {
  canonical = λ key. key;
  join_path = joined;
  parse = place_only;
  encode = λ params. params;
  url_text = shown;
  new_request = λ method url body. done tt;
  transport = echo_server;
  marshal = λ n. done (decimal n);
  unmarshal = λ body old. if body == "7" then (7, none) else (old, some "no number");
  unmarshal_message = λ body. none;
}

abbrev no_context : Context
no_context key = none

got_seven : (get_request library no_context "u" 0 "http://a" "b" (some "q=1") none).value ≡ 7
unfolding get_request
got_seven = refl

put_404 :
    (put_request library no_context "u" 0 "http://a" "b" none 5 none).err
    ≡ some (http_error 404 "request failed, status code: 404, err: gone")
unfolding put_request decimal
put_404 = refl

request-IsRequested_example :
    IsRequested library 0 none no_context "u" "GET"
      (λ body. body ≡ none)
      (get_request library no_context "u" 0 "http://a" "b" none none)
    × IsRequested library 0 none no_context "u" "PUT"
        (IsEncoded library 0 none no_context "u" 5)
        (put_request library no_context "u" 0 "http://a" "b" none 5 none)
request-IsRequested_example =
    request-IsRequested library 0 none no_context "u" "http://a" "b" none 5

abbrev peer : Peer ℕ
peer = record {
  canonical = λ key. key;
  parse = place_only;
  url_text = shown;
  new_request = λ method url body. done tt;
  marshal = λ n. done (decimal n);
  get_secret = λ name key. done ((key, "abc") ∷ []);
  transport = λ r. done (record { status_code = 202; body = done "" });
}

abbrev sender : HttpSender
sender = record {
  url = "http://a";
  mime_type = "text/plain";
  secret_data = record {
    secret_name = "db";
    secret_value_key = "token";
    secret_header = "Authorization";
    secret_value_prefix = "Bearer";
  };
  http_request_headers = [];
}

posted_headers :
    map (λ (r : Request). r.headers) (http_post peer "f" sender (text "x")).sent
    ≡ (("Content-Type", "text/plain") ∷ ("Authorization", "Bearer abc") ∷ []) ∷ []
unfolding http_post insert lookup
posted_headers = refl

sender_set :
    set_secret_data "db" "token" "Authorization" "Bearer" (new_http_sender "http://a" "text/plain")
    ≡ sender
unfolding set_secret_data new_http_sender
sender_set = refl

http_post-IsPosted_example :
    IsPosted peer "f" sender (value 5) (http_post peer "f" sender (value 5))
http_post-IsPosted_example = http_post-IsPosted peer "f" sender (value 5)

abbrev write_header : ℕ → Writer → Writer
write_header status w = if w.committed then w else record w { status = status; committed = true }

abbrev encode : String → BaseResponse → Writer → Writer × Option String
encode content_type i w = (record w { body = w.body ++ i.message }, none)

write_header-Commits : Commits write_header encode
write_header-Commits status w new = rw new

abbrev fresh_writer : Writer
fresh_writer = record { headers = []; status = 0; committed = false; body = "" }

respond_with_error-IsErrorResponse_example :
    IsErrorResponse no_context wrapped
      (respond_with_error write_header encode "f" no_context wrapped "" "1" fresh_writer)
respond_with_error-IsErrorResponse_example =
    respond_with_error-IsErrorResponse write_header encode write_header-Commits
      (λ content_type i w committed. (refl, refl, committed)) "f" "" "1" no_context wrapped conflict
      nil fresh_writer (unfold as_base in refl) refl

abbrev busy : GoError
busy =
    base
      (record { kind = "ServiceUnavailable"; message = "busy"; caller_info = "a"; details = none })
      nil

busy_warned : log_error busy ≡ warned "busy" ∷ debugged "a: busy" ∷ []
unfolding log_error message debug_messages
busy_warned = refl
