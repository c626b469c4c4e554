-- ===== src/Http/DumpLaws.antt =====
-- The text of a message is read back (src/http.cc).
use muqiu.Common.{◌≡◌, refl, sym, ap, ◌∙◌, arith}
use muqiu.Common.{Bool, true, false, not, ◌&&◌, some, Bool-cases, inl, inr}
use muqiu.Common.{List, [], ◌∷◌, ◌++◌, map, length, append_assoc, append-nil, All, if◌then◌else◌}
use muqiu.Url.Codec.{Bytes}
use muqiu.Url.Reserved.{Lacks, lacks, lacks→Lacks}
use muqiu.Http.Method.{codes}
use muqiu.Http.Decimal.{decimal-Lacks}
use muqiu.Http.Fields.{read_message, IsField, print_fields, print_fields-append, read_message-print}
use muqiu.Http.FirstLine.{IsCleanRequest, IsCleanResponse, request_line-Lacks, status_line-Lacks}
use muqiu.Http.Dump.{
  decimal, is_connection, crlf, field, dump_headers, dump_cookies, dump_connection, dump_body,
  HttpRequest, HttpResponse, request_line, dump_request, status_line, dump_response,
}

-- The headers that are printed: off a websocket that of the connection is not.
abbrev pub kept : Bool → List (Bytes × Bytes) → List (Bytes × Bytes)
kept websocket [] = []
kept websocket ((key, value) ∷ headers) =
    let rest = kept websocket headers in
    if not websocket && is_connection key then rest else (key, value) ∷ rest

abbrev pub cookie_fields : List Bytes → List (Bytes × Bytes)
cookie_fields cookies = map (λ c. (codes "Set-Cookie", c)) cookies

abbrev pub connection_fields : Bool → Bool → List (Bytes × Bytes)
connection_fields true is_close = []
connection_fields false true = (codes "connection", codes "close") ∷ []
connection_fields false false = (codes "connection", codes "keep-alive") ∷ []

abbrev pub length_fields : Bytes → List (Bytes × Bytes)
length_fields [] = []
length_fields (c ∷ s) = (codes "content-length", decimal (length (c ∷ s))) ∷ []

-- The fields of a message.
abbrev pub request_fields : HttpRequest → List (Bytes × Bytes)
request_fields r =
    connection_fields r.websocket r.is_close ++ (kept r.websocket r.headers ++ length_fields r.body)

abbrev pub response_fields : HttpResponse → List (Bytes × Bytes)
response_fields r =
    kept r.websocket r.headers
    ++ (cookie_fields r.cookies
        ++ (connection_fields r.websocket r.is_close ++ length_fields r.body))

dump_headers-print :
    (websocket : Bool) (headers : List (Bytes × Bytes))
    → dump_headers websocket headers ≡ print_fields (kept websocket headers)
unfolding dump_headers
dump_headers-print websocket [] = refl
dump_headers-print websocket ((key, value) ∷ headers) =
    elim (Bool-cases (not websocket && is_connection key)) [
      | inl e ↦ rw e (dump_headers-print websocket headers)
      | inr e ↦
          rw e (ap (λ (t : Bytes). field key value ++ t) (dump_headers-print websocket headers))
    ]

dump_cookies-print :
    (cookies : List Bytes) → dump_cookies cookies ≡ print_fields (cookie_fields cookies)
unfolding dump_cookies
dump_cookies-print [] = refl
dump_cookies-print (c ∷ cookies) =
    ap (λ (t : Bytes). field (codes "Set-Cookie") c ++ t) (dump_cookies-print cookies)

dump_connection-print :
    (websocket is_close : Bool)
    → dump_connection websocket is_close ≡ print_fields (connection_fields websocket is_close)
unfolding dump_connection
dump_connection-print true is_close = refl
dump_connection-print false true = refl
dump_connection-print false false = refl

dump_body-print :
    (body : Bytes) → dump_body body ≡ print_fields (length_fields body) ++ (crlf ++ body)
unfolding dump_body
dump_body-print [] = refl
dump_body-print (c ∷ s) =
    let f = field (codes "content-length") (decimal (length (c ∷ s))) in
    ap (λ (t : Bytes). t ++ (crlf ++ c ∷ s)) (sym (append-nil f))

-- Parts of a head, one behind the other.
join :
    {s t : Bytes} (fs gs : List (Bytes × Bytes)) (rest : Bytes)
    → s ≡ print_fields fs
    → t ≡ print_fields gs ++ rest
    → s ++ t ≡ print_fields (fs ++ gs) ++ rest
join fs gs rest p q =
    rw (p, q)
      (sym (append_assoc (print_fields fs) (print_fields gs) rest)
        ∙ ap (λ (x : Bytes). x ++ rest) (sym (print_fields-append fs gs)))

All-append :
    (fs gs : List (Bytes × Bytes)) → All IsField fs → All IsField gs → All IsField (fs ++ gs)
All-append [] gs a b = b
All-append (f ∷ fs) gs a b = (a.0, All-append fs gs a.1 b)

kept-IsField :
    (websocket : Bool) (headers : List (Bytes × Bytes))
    → All IsField headers
    → All IsField (kept websocket headers)
kept-IsField websocket [] h = tt
kept-IsField websocket ((key, value) ∷ headers) h =
    elim (Bool-cases (not websocket && is_connection key)) [
      | inl e ↦ rw e (kept-IsField websocket headers h.1)
      | inr e ↦ rw e (h.0, kept-IsField websocket headers h.1)
    ]

known :
    (key value : Bytes)
    → lacks b':' key && lacks 13 key ≡ true
    → Lacks 13 value
    → IsField (key, value)
known key value e h =
    (lacks→Lacks b':' key (ground (arith, e)), lacks→Lacks 13 key (ground (arith, e)), h)

cookie_fields-IsField :
    (cookies : List Bytes) → All (Lacks 13) cookies → All IsField (cookie_fields cookies)
cookie_fields-IsField [] h = tt
cookie_fields-IsField (c ∷ cookies) h =
    (known (codes "Set-Cookie") c refl h.0, cookie_fields-IsField cookies h.1)

connection_fields-IsField :
    (websocket is_close : Bool) → All IsField (connection_fields websocket is_close)
connection_fields-IsField true is_close = tt
connection_fields-IsField false true =
    (known (codes "connection") (codes "close") refl (lacks→Lacks 13 (codes "close") refl), tt)
connection_fields-IsField false false = (
  known (codes "connection") (codes "keep-alive") refl (lacks→Lacks 13 (codes "keep-alive") refl),
  tt,
)

length_fields-IsField : (body : Bytes) → All IsField (length_fields body)
length_fields-IsField [] = tt
length_fields-IsField (c ∷ s) = (
  known (codes "content-length") (decimal (length (c ∷ s))) refl
      (decimal-Lacks 13 (length (c ∷ s)) (omega arith)),
  tt,
)

-- A peer that reads the text of a request line by line gets its first line, its fields and its
-- body, if what the caller has set has no CR and no key has a colon. The fields are that of the
-- connection, off a websocket, the headers but for one of the connection, and the length of the
-- body, if it has one.
pub read_message-dump_request :
    (r : HttpRequest)
    → IsCleanRequest r
    → read_message (dump_request r) ≡ some (request_line r, request_fields r, r.body)
unfolding dump_request
read_message-dump_request r clean =
    let connection = connection_fields r.websocket r.is_close in
    let headers = kept r.websocket r.headers in
    let length = length_fields r.body in
    ap (λ (t : Bytes). read_message (request_line r ++ (crlf ++ t)))
      (join connection (headers ++ length) (crlf ++ r.body)
        (dump_connection-print r.websocket r.is_close)
        (join headers length (crlf ++ r.body) (dump_headers-print r.websocket r.headers)
          (dump_body-print r.body)))
    ∙ read_message-print (request_line r) (request_fields r) r.body (request_line-Lacks r clean) (
        All-append connection (headers ++ length) (connection_fields-IsField r.websocket r.is_close)
          (All-append headers length (kept-IsField r.websocket r.headers clean.3)
            (length_fields-IsField r.body)))

-- A peer that reads the text of a response line by line gets its first line, its fields and its
-- body, if what the caller has set has no CR and no key has a colon. The fields are the headers
-- but for one of the connection, the cookies, that of the connection, off a websocket, and the
-- length of the body, if it has one.
pub read_message-dump_response :
    (r : HttpResponse)
    → IsCleanResponse r
    → read_message (dump_response r) ≡ some (status_line r, response_fields r, r.body)
unfolding dump_response
read_message-dump_response r clean =
    let connection = connection_fields r.websocket r.is_close in
    let headers = kept r.websocket r.headers in
    let cookies = cookie_fields r.cookies in
    let length = length_fields r.body in
    ap (λ (t : Bytes). read_message (status_line r ++ (crlf ++ t)))
      (join headers (cookies ++ (connection ++ length)) (crlf ++ r.body)
        (dump_headers-print r.websocket r.headers)
        (join cookies (connection ++ length) (crlf ++ r.body) (dump_cookies-print r.cookies) (
          join connection length (crlf ++ r.body) (dump_connection-print r.websocket r.is_close)
            (dump_body-print r.body))))
    ∙ read_message-print (status_line r) (response_fields r) r.body (status_line-Lacks r clean) (
        All-append headers (cookies ++ (connection ++ length))
          (kept-IsField r.websocket r.headers clean.1)
          (All-append cookies (connection ++ length) (cookie_fields-IsField r.cookies clean.2) (
            All-append connection length (connection_fields-IsField r.websocket r.is_close)
              (length_fields-IsField r.body))))
