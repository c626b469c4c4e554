-- ===== src/Http/MethodLaws.antt =====
-- The texts of methods are read back (src/http.cc).
use muqiu.Common.{
  ℕ, ◌≡◌, ◌≢◌, refl, ap, ◌∙◌, arith, true, Bool-cases, inl, inr, ◌⊎◌, List, [], ◌∷◌, ◌++◌,
}
use muqiu.Http.Method.{
  HttpMethod, delete, get, head, post, put, connect, options, trace, copy, lock, mkcol, move,
  propfind, proppatch, search, unlock, bind, rebind, unbind, acl, report, mkactivity, checkout,
  merge, msearch, notify, subscribe, unsubscribe, patch, purge, mkcalendar, link, unlink, source,
  invalid_method, http_method_map, same_text, first_match, string_to_http_method,
  chars_to_http_method, http_method_to_string,
}

same_text-eq : (xs ys : List ℕ) → same_text xs ys ≡ true → xs ≡ ys
same_text-eq [] [] h = refl
same_text-eq [] (y ∷ ys) h = absurd (ground (arith, h))
same_text-eq (x ∷ xs) [] h = absurd (ground (arith, h))
same_text-eq (x ∷ xs) (y ∷ ys) h =
    let e : x ≡ y = ground (arith, h) in
    let t : same_text xs ys ≡ true = ground (arith, h) in
    rw e (ap (λ zs. y ∷ zs) (same_text-eq xs ys t))

-- `CharsToHttpMethod` finds each method at the front of a text, whatever follows.
pub chars_to_http_method-http_method_to_string :
    (m : HttpMethod) (rest : List ℕ)
    → m ≢ invalid_method
    → chars_to_http_method (http_method_to_string m ++ rest) ≡ m
unfolding chars_to_http_method http_method_to_string
chars_to_http_method-http_method_to_string delete rest h = refl
chars_to_http_method-http_method_to_string get rest h = refl
chars_to_http_method-http_method_to_string head rest h = refl
chars_to_http_method-http_method_to_string post rest h = refl
chars_to_http_method-http_method_to_string put rest h = refl
chars_to_http_method-http_method_to_string connect rest h = refl
chars_to_http_method-http_method_to_string options rest h = refl
chars_to_http_method-http_method_to_string trace rest h = refl
chars_to_http_method-http_method_to_string copy rest h = refl
chars_to_http_method-http_method_to_string lock rest h = refl
chars_to_http_method-http_method_to_string mkcol rest h = refl
chars_to_http_method-http_method_to_string move rest h = refl
chars_to_http_method-http_method_to_string propfind rest h = refl
chars_to_http_method-http_method_to_string proppatch rest h = refl
chars_to_http_method-http_method_to_string search rest h = refl
chars_to_http_method-http_method_to_string unlock rest h = refl
chars_to_http_method-http_method_to_string bind rest h = refl
chars_to_http_method-http_method_to_string rebind rest h = refl
chars_to_http_method-http_method_to_string unbind rest h = refl
chars_to_http_method-http_method_to_string acl rest h = refl
chars_to_http_method-http_method_to_string report rest h = refl
chars_to_http_method-http_method_to_string mkactivity rest h = refl
chars_to_http_method-http_method_to_string checkout rest h = refl
chars_to_http_method-http_method_to_string merge rest h = refl
chars_to_http_method-http_method_to_string msearch rest h = refl
chars_to_http_method-http_method_to_string notify rest h = refl
chars_to_http_method-http_method_to_string subscribe rest h = refl
chars_to_http_method-http_method_to_string unsubscribe rest h = refl
chars_to_http_method-http_method_to_string patch rest h = refl
chars_to_http_method-http_method_to_string purge rest h = refl
chars_to_http_method-http_method_to_string mkcalendar rest h = refl
chars_to_http_method-http_method_to_string link rest h = refl
chars_to_http_method-http_method_to_string unlink rest h = refl
chars_to_http_method-http_method_to_string source rest h = refl
chars_to_http_method-http_method_to_string invalid_method rest h = absurd (h refl)

known : (m : HttpMethod) → m ≢ invalid_method → string_to_http_method (http_method_to_string m) ≡ m
unfolding string_to_http_method http_method_to_string
known delete h = refl
known get h = refl
known head h = refl
known post h = refl
known put h = refl
known connect h = refl
known options h = refl
known trace h = refl
known copy h = refl
known lock h = refl
known mkcol h = refl
known move h = refl
known propfind h = refl
known proppatch h = refl
known search h = refl
known unlock h = refl
known bind h = refl
known rebind h = refl
known unbind h = refl
known acl h = refl
known report h = refl
known mkactivity h = refl
known checkout h = refl
known merge h = refl
known msearch h = refl
known notify h = refl
known subscribe h = refl
known unsubscribe h = refl
known patch h = refl
known purge h = refl
known mkcalendar h = refl
known link h = refl
known unlink h = refl
known source h = refl
known invalid_method h = absurd (h refl)

-- The entries of a table stand at their methods' numbers.
abbrev IsTable : List (HttpMethod × List ℕ) → Type 0
IsTable [] = Unit
IsTable ((name, text) ∷ rest) = (http_method_to_string name ≡ text) × IsTable rest

http_method_map-IsTable : IsTable http_method_map
unfolding http_method_to_string
http_method_map-IsTable =
    ((
      refl,
      (
        refl,
        (
          refl,
          (
            refl,
            (
              refl,
              (
                refl,
                (
                  refl,
                  (
                    refl,
                    (
                      refl,
                      (
                        refl,
                        (
                          refl,
                          (
                            refl,
                            (
                              refl,
                              (
                                refl,
                                (
                                  refl,
                                  (
                                    refl,
                                    (
                                      refl,
                                      (
                                        refl,
                                        (
                                          refl,
                                          (
                                            refl,
                                            (
                                              refl,
                                              (
                                                refl,
                                                (
                                                  refl,
                                                  (
                                                    refl,
                                                    (
                                                      refl,
                                                      (
                                                        refl,
                                                        (
                                                          refl,
                                                          (
                                                            refl,
                                                            (
                                                            refl,
                                                            (
                                                            refl,
                                                            (refl, (refl, (refl, (refl, tt)))),
                                                            ),
                                                            ),
                                                          ),
                                                        ),
                                                      ),
                                                    ),
                                                  ),
                                                ),
                                              ),
                                            ),
                                          ),
                                        ),
                                      ),
                                    ),
                                  ),
                                ),
                              ),
                            ),
                          ),
                        ),
                      ),
                    ),
                  ),
                ),
              ),
            ),
          ),
        ),
      ),
    ))

found_text :
    (table : List (HttpMethod × List ℕ)) (s : List ℕ)
    → IsTable table
    → (first_match same_text table s ≡ invalid_method)
      ⊎ (http_method_to_string (first_match same_text table s) ≡ s)
unfolding first_match
found_text [] s h = inl refl
found_text ((name, text) ∷ rest) s h = elim (Bool-cases (same_text text s)) [
  | inl e ↦ rw e (inr (h.0 ∙ same_text-eq text s e))
  | inr e ↦ rw e (found_text rest s h.1)
]

-- `StringToHttpMethod` gives each method for its own text, and for a text that is none of these
-- INVALID_METHOD.
pub string_to_http_method_lem :
    ((m : HttpMethod) → m ≢ invalid_method → string_to_http_method (http_method_to_string m) ≡ m)
    × ((s : List ℕ)
        → (string_to_http_method s ≡ invalid_method)
          ⊎ (http_method_to_string (string_to_http_method s) ≡ s))
unfolding string_to_http_method
string_to_http_method_lem = (known, λ s. found_text http_method_map s http_method_map-IsTable)
