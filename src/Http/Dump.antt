-- ===== src/Http/Dump.antt =====
-- The text of a message: `dump` of `HttpRequest` and of `HttpResponse` (src/http.cc).
--
-- `m_headers` is the list of its entries in the order in which the map gives them.
use muqiu.Common.{ℕ, zero, suc, ◌+◌, ◌/◌, ◌%◌, Bool, true, false, not, ◌&&◌}
use muqiu.Common.{List, [], ◌∷◌, ◌++◌, length, if◌then◌else◌, ◌==◌, ltb, leb}
use muqiu.Url.Codec.{Bytes}
use muqiu.Http.Method.{codes, HttpMethod, http_method_to_string}
use muqiu.Http.Status.{http_status_to_string}

-- A number in decimal, on fuel that its own value is enough for.
unfoldable pub digits : ℕ → ℕ → Bytes
digits zero n = (b'0' + n % 10) ∷ []
digits (suc fuel) n = elim (ltb n 10) [
  | true ↦ (b'0' + n) ∷ []
  | false ↦ digits fuel (n / 10) ++ ((b'0' + n % 10) ∷ [])
]

unfoldable pub decimal : ℕ → Bytes
decimal n = digits n n

abbrev lower : ℕ → ℕ
lower c = if leb b'A' c && leb c b'Z' then c + 32 else c

-- `strcasecmp(s.c_str(), key) == 0`: the text ends at its first NUL.
unfoldable pub same_ignoring_case : Bytes → Bytes → Bool
same_ignoring_case [] [] = true
same_ignoring_case [] (k ∷ ks) = false
same_ignoring_case (c ∷ s) [] = c == 0
same_ignoring_case (c ∷ s) (k ∷ ks) = lower c == lower k && same_ignoring_case s ks

abbrev pub is_connection : Bytes → Bool
is_connection key = same_ignoring_case key (codes "connection")

abbrev pub crlf : Bytes
crlf = 13 ∷ 10 ∷ []

abbrev pub or_empty : Bytes → Bytes → Bytes
or_empty mark [] = []
or_empty mark (c ∷ s) = mark ++ c ∷ s

-- `key: value` and the end of the line.
abbrev pub field : Bytes → Bytes → Bytes
field key value = key ++ (codes ": " ++ (value ++ crlf))

unfoldable pub dump_headers : Bool → List (Bytes × Bytes) → Bytes
dump_headers websocket [] = []
dump_headers websocket ((key, value) ∷ headers) =
    let rest = dump_headers websocket headers in
    if not websocket && is_connection key then rest else field key value ++ rest

unfoldable pub dump_cookies : List Bytes → Bytes
dump_cookies [] = []
dump_cookies (cookie ∷ cookies) = field (codes "Set-Cookie") cookie ++ dump_cookies cookies

unfoldable pub dump_connection : Bool → Bool → Bytes
dump_connection websocket is_close =
    if websocket
    then []
    else field (codes "connection") (if is_close then codes "close" else codes "keep-alive")

unfoldable pub dump_body : Bytes → Bytes
dump_body [] = crlf
dump_body (c ∷ s) = field (codes "content-length") (decimal (length (c ∷ s))) ++ (crlf ++ c ∷ s)

unfoldable pub dump_version : ℕ → Bytes
dump_version version =
    codes "HTTP/" ++ (decimal (version / 16) ++ (codes "." ++ decimal (version % 16)))

pub record HttpRequest : Type 0 where
  pub method : HttpMethod
  pub version : ℕ
  pub is_close : Bool
  pub websocket : Bool
  pub path : Bytes
  pub query : Bytes
  pub fragment : Bytes
  pub body : Bytes
  pub headers : List (Bytes × Bytes)

pub record HttpResponse : Type 0 where
  pub status : ℕ
  pub version : ℕ
  pub is_close : Bool
  pub websocket : Bool
  pub body : Bytes
  pub reason : Bytes
  pub headers : List (Bytes × Bytes)
  pub cookies : List Bytes

unfoldable pub request_line : HttpRequest → Bytes
request_line r =
    http_method_to_string r.method
    ++ (codes " "
        ++ (r.path
            ++ (or_empty (codes "?") r.query
                ++ (or_empty (codes "#") r.fragment ++ (codes " " ++ dump_version r.version)))))

unfoldable pub dump_request : HttpRequest → Bytes
dump_request r =
    request_line r
    ++ (crlf
        ++ (dump_connection r.websocket r.is_close
            ++ (dump_headers r.websocket r.headers ++ dump_body r.body)))

-- A reason that is empty is that of the status.
abbrev pub reason_or : Bytes → Bytes → Bytes
reason_or [] text = text
reason_or (c ∷ s) text = c ∷ s

unfoldable pub status_line : HttpResponse → Bytes
status_line r =
    dump_version r.version
    ++ (codes " "
        ++ (decimal r.status ++ (codes " " ++ reason_or r.reason (http_status_to_string r.status))))

unfoldable pub dump_response : HttpResponse → Bytes
dump_response r =
    status_line r
    ++ (crlf
        ++ (dump_headers r.websocket r.headers
            ++ (dump_cookies r.cookies
                ++ (dump_connection r.websocket r.is_close ++ dump_body r.body))))
