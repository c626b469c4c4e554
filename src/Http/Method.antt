-- ===== src/Http/Method.antt =====
-- `HttpMethod` and its texts (src/http.cc, include/http.h).
use Prim.Native.Char.{code}
use Prim.Native.String.{String}
use muqiu.Common.{ℕ, zero, suc, Bool, true, false, ◌&&◌, List, [], ◌∷◌, if◌then◌else◌, ◌==◌}

-- The bytes of a text.
abbrev pub codes : String → List ℕ
codes String.[] = []
codes (String.◌∷◌ c s) = code c ∷ codes s

pub data HttpMethod : Type 0 where
  delete : HttpMethod
  get : HttpMethod
  head : HttpMethod
  post : HttpMethod
  put : HttpMethod
  connect : HttpMethod
  options : HttpMethod
  trace : HttpMethod
  copy : HttpMethod
  lock : HttpMethod
  mkcol : HttpMethod
  move : HttpMethod
  propfind : HttpMethod
  proppatch : HttpMethod
  search : HttpMethod
  unlock : HttpMethod
  bind : HttpMethod
  rebind : HttpMethod
  unbind : HttpMethod
  acl : HttpMethod
  report : HttpMethod
  mkactivity : HttpMethod
  checkout : HttpMethod
  merge : HttpMethod
  msearch : HttpMethod
  notify : HttpMethod
  subscribe : HttpMethod
  unsubscribe : HttpMethod
  patch : HttpMethod
  purge : HttpMethod
  mkcalendar : HttpMethod
  link : HttpMethod
  unlink : HttpMethod
  source : HttpMethod
  invalid_method : HttpMethod

-- The value of an enumerator.
abbrev pub number : HttpMethod → ℕ
number delete = 0
number get = 1
number head = 2
number post = 3
number put = 4
number connect = 5
number options = 6
number trace = 7
number copy = 8
number lock = 9
number mkcol = 10
number move = 11
number propfind = 12
number proppatch = 13
number search = 14
number unlock = 15
number bind = 16
number rebind = 17
number unbind = 18
number acl = 19
number report = 20
number mkactivity = 21
number checkout = 22
number merge = 23
number msearch = 24
number notify = 25
number subscribe = 26
number unsubscribe = 27
number patch = 28
number purge = 29
number mkcalendar = 30
number link = 31
number unlink = 32
number source = 33
number invalid_method = 34

-- HTTP_METHOD_MAP, with each text as the preprocessor spells it.
abbrev pub http_method_map : List (HttpMethod × List ℕ)
http_method_map =
    (delete, codes "DELETE")
    ∷ (get, codes "GET")
    ∷ (head, codes "HEAD")
    ∷ (post, codes "POST")
    ∷ (put, codes "PUT")
    ∷ (connect, codes "CONNECT")
    ∷ (options, codes "OPTIONS")
    ∷ (trace, codes "TRACE")
    ∷ (copy, codes "COPY")
    ∷ (lock, codes "LOCK")
    ∷ (mkcol, codes "MKCOL")
    ∷ (move, codes "MOVE")
    ∷ (propfind, codes "PROPFIND")
    ∷ (proppatch, codes "PROPPATCH")
    ∷ (search, codes "SEARCH")
    ∷ (unlock, codes "UNLOCK")
    ∷ (bind, codes "BIND")
    ∷ (rebind, codes "REBIND")
    ∷ (unbind, codes "UNBIND")
    ∷ (acl, codes "ACL")
    ∷ (report, codes "REPORT")
    ∷ (mkactivity, codes "MKACTIVITY")
    ∷ (checkout, codes "CHECKOUT")
    ∷ (merge, codes "MERGE")
    ∷ (msearch, codes "M - SEARCH")
    ∷ (notify, codes "NOTIFY")
    ∷ (subscribe, codes "SUBSCRIBE")
    ∷ (unsubscribe, codes "UNSUBSCRIBE")
    ∷ (patch, codes "PATCH")
    ∷ (purge, codes "PURGE")
    ∷ (mkcalendar, codes "MKCALENDAR")
    ∷ (link, codes "LINK")
    ∷ (unlink, codes "UNLINK")
    ∷ (source, codes "SOURCE")
    ∷ []

-- `strcmp(a, b) == 0`, and `strncmp(a, b, strlen(a)) == 0`.
abbrev pub same_text : List ℕ → List ℕ → Bool
same_text [] [] = true
same_text [] (y ∷ ys) = false
same_text (x ∷ xs) [] = false
same_text (x ∷ xs) (y ∷ ys) = x == y && same_text xs ys

abbrev pub starts_with : List ℕ → List ℕ → Bool
starts_with [] ys = true
starts_with (x ∷ xs) [] = false
starts_with (x ∷ xs) (y ∷ ys) = x == y && starts_with xs ys

-- The chain of tests that a map expands to: the first that holds gives the result.
unfoldable pub first_match :
    (List ℕ → List ℕ → Bool) → List (HttpMethod × List ℕ) → List ℕ → HttpMethod
first_match test [] m = invalid_method
first_match test ((name, text) ∷ rest) m = if test text m then name else first_match test rest m

unfoldable pub string_to_http_method : List ℕ → HttpMethod
unfolding first_match
string_to_http_method m = first_match same_text http_method_map m

unfoldable pub chars_to_http_method : List ℕ → HttpMethod
unfolding first_match
chars_to_http_method m = first_match starts_with http_method_map m

-- `s_method_string[idx]`.
unfoldable pub text_at : List (HttpMethod × List ℕ) → ℕ → List ℕ
text_at [] idx = codes "<unknown>"
text_at ((name, text) ∷ rest) zero = text
text_at ((name, text) ∷ rest) (suc idx) = text_at rest idx

unfoldable pub http_method_to_string : HttpMethod → List ℕ
unfolding text_at
http_method_to_string m = text_at http_method_map (number m)
