-- ===== src/Http/Params.antt =====
-- The macro PARSE_PARAM and what `HttpRequest` does with it (src/http.cc).
--
-- The position in the text is the text from it on. What the macro inserts is the list of the pairs
-- in order; the map that takes them is no part of the model. The loop runs on fuel, and `none` says
-- that it has run out. `is_form` is the test of the content type, by strcasestr.
use muqiu.Common.{ℕ, zero, suc, Bool, true, false, not, Option, none, some}
use muqiu.Common.{List, [], ◌∷◌, ◌++◌, length, if◌then◌else◌, ◌==◌}
use muqiu.Url.Codec.{Bytes, url_decode}

-- `find`: the text before and behind the first c.
unfoldable pub split : ℕ → Bytes → Option (Bytes × Bytes)
split c [] = none
split c (x ∷ s) =
    if x == c
    then some ([], s)
    else elim (split c s) [ none ↦ none | some (before, behind) ↦ some (x ∷ before, behind) ]

unfoldable pub parse_loop : ℕ → ℕ → (Bytes → Bytes) → Bytes → Option (List (Bytes × Bytes))
parse_loop zero flag trim str = none
parse_loop (suc fuel) flag trim str = elim (split b'=' str) [
  | none ↦ some []
  | some (key, behind) ↦ elim (split flag behind) [
    | none ↦ some ((trim key, url_decode behind true) ∷ [])
    | some (value, rest) ↦ elim (parse_loop fuel flag trim rest) [
      | none ↦ none
      | some pairs ↦ some ((trim key, url_decode value true) ∷ pairs)
    ]
  ]
]

-- PARSE_PARAM(str, m, flag, trim).
unfoldable pub parse_param : ℕ → (Bytes → Bytes) → Bytes → Option (List (Bytes × Bytes))
parse_param flag trim str = parse_loop (suc (length str)) flag trim str

-- The texts of a request, what was inserted into its maps, and the three bits of m_parserParamFlag.
pub record Request : Type 0 where
  pub query : Bytes
  pub body : Bytes
  pub content_type : Bytes
  pub cookie : Bytes
  pub params : List (Bytes × Bytes)
  pub cookies : List (Bytes × Bytes)
  pub query_parsed : Bool
  pub body_parsed : Bool
  pub cookies_parsed : Bool

abbrev is_empty : Bytes → Bool
is_empty [] = true
is_empty (c ∷ s) = false

unfoldable pub init_query_param : Request → Option Request
init_query_param r =
    if r.query_parsed then some r else elim (parse_param b'&' (λ key. key) r.query) [
      | none ↦ none
      | some pairs ↦ some (record r { params = r.params ++ pairs; query_parsed = true })
    ]

unfoldable pub init_body_param : (Bytes → Bool) → Request → Option Request
init_body_param is_form r =
    if r.body_parsed
    then some r
    else if not (is_form r.content_type)
    then some (record r { body_parsed = true })
    else elim (parse_param b'&' (λ key. key) r.body) [
      | none ↦ none
      | some pairs ↦ some (record r { params = r.params ++ pairs; body_parsed = true })
    ]

unfoldable pub init_cookies : (Bytes → Bytes) → Request → Option Request
init_cookies trim r =
    if r.cookies_parsed
    then some r
    else if is_empty r.cookie
    then some (record r { cookies_parsed = true })
    else elim (parse_param b';' trim r.cookie) [
      | none ↦ none
      | some pairs ↦ some (record r { cookies = r.cookies ++ pairs; cookies_parsed = true })
    ]

-- `initParam`.
unfoldable pub init_param : (Bytes → Bool) → (Bytes → Bytes) → Request → Option Request
init_param is_form trim r = elim (init_query_param r) [
  | none ↦ none
  | some r1 ↦ elim (init_body_param is_form r1) [ none ↦ none | some r2 ↦ init_cookies trim r2 ]
]
