-- ===== src/Http/FirstLine.antt =====
-- The first line of a message has no CR (src/http.cc).
use muqiu.Common.{ℕ, zero, suc, ◌/◌, ◌%◌, ◌≡◌, refl, arith}
use muqiu.Common.{Bool, true, false, ◌&&◌, Bool-cases, inl, inr}
use muqiu.Common.{List, [], ◌∷◌, ◌++◌, All, ◌==◌}
use muqiu.Url.Codec.{Bytes}
use muqiu.Url.Reserved.{Lacks, Lacks-append, lacks, lacks→Lacks}
use muqiu.Http.Method.{codes, HttpMethod, http_method_map, text_at, http_method_to_string, number}
use muqiu.Http.Status.{http_status_map, text_of, http_status_to_string}
use muqiu.Http.Decimal.{decimal-Lacks}
use muqiu.Http.Fields.{IsField}
use muqiu.Http.Dump.{
  decimal, or_empty, dump_version, HttpRequest, HttpResponse, request_line, reason_or, status_line,
}

table_lacks : {A : Type 0} → List (A × Bytes) → Bool
table_lacks [] = true
table_lacks ((a, text) ∷ rest) = lacks 13 text && table_lacks rest

text_of-Lacks :
    (table : List (ℕ × Bytes)) (s : ℕ) → table_lacks table ≡ true → Lacks 13 (text_of table s)
unfolding text_of table_lacks
text_of-Lacks [] s e = lacks→Lacks 13 (codes "<unknown>") refl
text_of-Lacks ((code, text) ∷ rest) s e = elim (Bool-cases (code == s)) [
  | inl h ↦ rw (h, text_of) (lacks→Lacks 13 text (ground (arith, e)))
  | inr h ↦ rw (h, text_of) (text_of-Lacks rest s (ground (arith, e)))
]

status_table : table_lacks http_status_map ≡ true
unfolding table_lacks
status_table = refl

text_at-Lacks :
    (table : List (HttpMethod × Bytes)) (i : ℕ)
    → table_lacks table ≡ true
    → Lacks 13 (text_at table i)
unfolding text_at table_lacks
text_at-Lacks [] i e = lacks→Lacks 13 (codes "<unknown>") refl
text_at-Lacks ((m, text) ∷ rest) zero e = lacks→Lacks 13 text (ground (arith, e))
text_at-Lacks ((m, text) ∷ rest) (suc i) e = text_at-Lacks rest i (ground (arith, e))

method_table : table_lacks http_method_map ≡ true
unfolding table_lacks
method_table = refl

http_method_to_string-Lacks : (m : HttpMethod) → Lacks 13 (http_method_to_string m)
unfolding http_method_to_string
http_method_to_string-Lacks m = text_at-Lacks http_method_map (number m) method_table

dump_version-Lacks : (version : ℕ) → Lacks 13 (dump_version version)
unfolding dump_version
dump_version-Lacks version =
    Lacks-append 13 (codes "HTTP/")
      (decimal (version / 16) ++ (codes "." ++ decimal (version % 16)))
      (lacks→Lacks 13 (codes "HTTP/") refl)
      (Lacks-append 13 (decimal (version / 16)) (codes "." ++ decimal (version % 16))
        (decimal-Lacks 13 (version / 16) (omega arith))
        (refl, decimal-Lacks 13 (version % 16) (omega arith)))

or_empty-Lacks :
    (c : ℕ) (s : Bytes) → (c == 13) ≡ false → Lacks 13 s → Lacks 13 (or_empty (c ∷ []) s)
or_empty-Lacks c [] e h = tt
or_empty-Lacks c (x ∷ s) e h = (e, h)

-- No CR in what the caller has set, and no colon in a key.
abbrev pub IsCleanRequest : HttpRequest → Type 0
IsCleanRequest r = Lacks 13 r.path × Lacks 13 r.query × Lacks 13 r.fragment × All IsField r.headers

abbrev pub IsCleanResponse : HttpResponse → Type 0
IsCleanResponse r = Lacks 13 r.reason × All IsField r.headers × All (Lacks 13) r.cookies

pub request_line-Lacks : (r : HttpRequest) → IsCleanRequest r → Lacks 13 (request_line r)
unfolding request_line
request_line-Lacks r (p, q, f, h) =
    let version = dump_version r.version in
    let fragment = or_empty (codes "#") r.fragment in
    let query = or_empty (codes "?") r.query in
    Lacks-append 13 (http_method_to_string r.method)
      (codes " " ++ (r.path ++ (query ++ (fragment ++ (codes " " ++ version)))))
      (http_method_to_string-Lacks r.method)
      (
        refl,
        Lacks-append 13 r.path (query ++ (fragment ++ (codes " " ++ version))) p (
            Lacks-append 13 query (fragment ++ (codes " " ++ version))
              (or_empty-Lacks b'?' r.query refl q)
              (Lacks-append 13 fragment (codes " " ++ version)
                (or_empty-Lacks b'#' r.fragment refl f) (refl, dump_version-Lacks r.version))),
      )

reason_of-Lacks :
    (status : ℕ) (reason : Bytes)
    → Lacks 13 reason
    → Lacks 13 (reason_or reason (http_status_to_string status))
unfolding http_status_to_string
reason_of-Lacks status [] h = text_of-Lacks http_status_map status status_table
reason_of-Lacks status (c ∷ s) h = h

pub status_line-Lacks : (r : HttpResponse) → IsCleanResponse r → Lacks 13 (status_line r)
unfolding status_line
status_line-Lacks r (h, hs, hc) =
    let reason = reason_or r.reason (http_status_to_string r.status) in
    Lacks-append 13 (dump_version r.version)
      (codes " " ++ (decimal r.status ++ (codes " " ++ reason))) (dump_version-Lacks r.version)
      (
        refl,
        Lacks-append 13 (decimal r.status) (codes " " ++ reason)
            (decimal-Lacks 13 r.status (omega arith)) (refl, reason_of-Lacks r.status r.reason h),
      )
