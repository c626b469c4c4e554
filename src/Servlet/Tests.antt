-- ===== src/Servlet/Tests.antt =====
-- A run of the dispatch (src/servlet.cc).
use muqiu.Common.{ℕ, ◌≡◌, refl, none}
use muqiu.Common.{List, [], ◌∷◌}
use muqiu.Servlet.Dispatch.{
  same, first_match, new_dispatch, add_servlet, add_glob_servlet, del_servlet, get_matched_servlet,
  or,
}
use muqiu.Servlet.History.{
  Call, adds, adds_glob, dels, apply, run, exact, live, last_default, get_matched_servlet-run,
}

-- Two patterns of which the first is added again, and an exact path that is deleted.
abbrev calls : List (Call ℕ)
calls =
    adds_glob (7 ∷ []) 1
    ∷ adds_glob (8 ∷ []) 2
    ∷ adds (8 ∷ []) 3
    ∷ adds_glob (7 ∷ []) 4
    ∷ dels (8 ∷ [])
    ∷ []

second_pattern : get_matched_servlet same (8 ∷ []) (run calls (new_dispatch 404)) ≡ 2
unfolding get_matched_servlet apply add_servlet add_glob_servlet del_servlet new_dispatch
second_pattern = refl

get_matched_servlet-run_example :
    get_matched_servlet same (8 ∷ []) (run calls (new_dispatch 404))
    ≡ or
        (exact none calls (8 ∷ []))
        (or (first_match same (8 ∷ []) (live calls)) (last_default 404 calls))
get_matched_servlet-run_example = get_matched_servlet-run same 404 calls (8 ∷ [])
