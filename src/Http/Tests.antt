-- ===== src/Http/Tests.antt =====
-- Runs of the tables of methods and of status codes (src/http.cc).
use muqiu.Common.{◌≡◌, false, refl, arith, inl, some, List, [], ◌∷◌, ◌++◌, map}
use muqiu.Http.Method.{get, codes, http_method_to_string}
use muqiu.Http.Params.{split, parse_loop, parse_param}
use muqiu.Http.ParamLaws.{print, parse_param-print}
use muqiu.Url.Reserved.{lacks→Lacks}
use muqiu.Http.Dump.{
  HttpRequest, request_line, dump_request, dump_headers, dump_connection, dump_body, dump_version,
  decimal, digits, same_ignoring_case,
}
use muqiu.Http.Fields.{read_message}
use muqiu.Http.DumpLaws.{request_fields, read_message-dump_request}
use muqiu.Url.Codec.{Bytes, url_decode, decode_loop, decode_char, is_escape, isxdigit, hex_value}
use muqiu.Http.Status.{http_status_to_string}

not_found : http_status_to_string 404 ≡ codes "Not Found"
unfolding http_status_to_string
not_found = refl

-- Two parameters, the second with a blank in its value.
abbrev two : List (Bytes × Bytes)
two = (b'q' ∷ [], b'1' ∷ []) ∷ (b'a' ∷ [], b' ' ∷ b'&' ∷ []) ∷ []

parse_param-print_example :
    parse_param b'&' (λ key. key) (print b'&' two) ≡ some (map (λ p. (p.0, p.1)) two)
parse_param-print_example =
    parse_param-print b'&' (λ key. key) two (inl refl)
      (((refl, tt), omega arith), (((refl, tt), omega arith), tt))

-- Where a text has no `=` up to the separator, the key runs over it.
no_value : parse_param b'&' (λ key. key) (codes "a&b=1") ≡ some ((codes "a&b", codes "1") ∷ [])
unfolding parse_param parse_loop split url_decode decode_loop decode_char is_escape isxdigit
    hex_value
no_value = refl

-- A request with a header of its own for the connection, which is not printed.
abbrev search : HttpRequest
search = record {
  method = get;
  version = 17;
  is_close = false;
  websocket = false;
  path = codes "/s";
  query = codes "q=1";
  fragment = [];
  body = codes "hi";
  headers = (codes "host", codes "a") ∷ (codes "Connection", codes "x") ∷ [];
}

search_text :
    dump_request search
    ≡ codes "GET /s?q=1 HTTP/1.1"
      ++ (13 ∷ 10 ∷ codes "connection: keep-alive")
      ++ (13 ∷ 10 ∷ codes "host: a")
      ++ (13 ∷ 10 ∷ codes "content-length: 2")
      ++ (13 ∷ 10 ∷ 13 ∷ 10 ∷ codes "hi")
unfolding dump_request request_line dump_headers dump_connection dump_body dump_version decimal
    digits same_ignoring_case http_method_to_string
search_text = refl

read_message-dump_request_example :
    read_message (dump_request search)
    ≡ some (request_line search, request_fields search, codes "hi")
read_message-dump_request_example = read_message-dump_request search (
  lacks→Lacks 13 (codes "/s") refl,
  lacks→Lacks 13 (codes "q=1") refl,
  tt,
  (
    (
      lacks→Lacks b':' (codes "host") refl,
      lacks→Lacks 13 (codes "host") refl,
      lacks→Lacks 13 (codes "a") refl,
    ),
    (
      (
        lacks→Lacks b':' (codes "Connection") refl,
        lacks→Lacks 13 (codes "Connection") refl,
        lacks→Lacks 13 (codes "x") refl,
      ),
      tt,
    ),
  ),
)
