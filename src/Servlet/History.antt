-- ===== src/Servlet/History.antt =====
-- The servlet that answers a path is told by the history of the calls (src/servlet.cc).
use muqiu.Common.{
  ◌≡◌, refl, sym, ap, ◌∙◌, Bool, true, not, ◌&&◌, Bool-cases, Option, none, some, inl, inr,
}
use muqiu.Common.{List, [], ◌∷◌, ◌++◌, append_assoc, if◌then◌else◌}
use muqiu.ByteArray.State.{Bytes}
use muqiu.Servlet.Dispatch.{
  same, find, keep, erase_key, first_match, ServletDispatch, new_dispatch, add_servlet,
  add_glob_servlet, del_servlet, del_glob_servlet, set_default, get_matched_servlet, or,
}
use muqiu.Servlet.Keeping.{
  Distinct, find-assign, find-erase_key, keep-keep, keep-append, keep-Distinct, erase_key-Absent,
  erase_first-erase_key, Distinct-append,
}

-- The calls that change a dispatch.
pub data Call (A : Type 0) : Type 0 where
  adds : Bytes → A → Call A
  adds_glob : Bytes → A → Call A
  dels : Bytes → Call A
  dels_glob : Bytes → Call A
  sets_default : A → Call A

module _ {A : Type 0} where
  unfoldable pub apply : Call A → ServletDispatch A → ServletDispatch A
  apply (adds uri v) d = add_servlet uri v d
  apply (adds_glob uri v) d = add_glob_servlet uri v d
  apply (dels uri) d = del_servlet uri d
  apply (dels_glob uri) d = del_glob_servlet uri d
  apply (sets_default v) d = set_default v d

  abbrev pub run : List (Call A) → ServletDispatch A → ServletDispatch A
  run [] d = d
  run (c ∷ cs) d = run cs (apply c d)

  -- What the calls say of an exact URI: the last word counts, `before` where there is none.
  abbrev pub exact : Option A → List (Call A) → Bytes → Option A
  exact before [] w = before
  exact before (adds uri v ∷ cs) w = exact (if same uri w then some v else before) cs w
  exact before (dels uri ∷ cs) w = exact (if same uri w then none else before) cs w
  exact before (adds_glob uri v ∷ cs) w = exact before cs w
  exact before (dels_glob uri ∷ cs) w = exact before cs w
  exact before (sets_default v ∷ cs) w = exact before cs w

  -- No call is about a pattern.
  abbrev pub untouched : List (Call A) → Bytes → Bool
  untouched [] k = true
  untouched (adds_glob uri v ∷ cs) k = not (same k uri) && untouched cs k
  untouched (dels_glob uri ∷ cs) k = not (same k uri) && untouched cs k
  untouched (adds uri v ∷ cs) k = untouched cs k
  untouched (dels uri ∷ cs) k = untouched cs k
  untouched (sets_default v ∷ cs) k = untouched cs k

  -- The patterns that were added and that no later call is about, in the order of the calls.
  abbrev pub live : List (Call A) → List (Bytes × A)
  live [] = []
  live (adds_glob uri v ∷ cs) = if untouched cs uri then (uri, v) ∷ live cs else live cs
  live (adds uri v ∷ cs) = live cs
  live (dels uri ∷ cs) = live cs
  live (dels_glob uri ∷ cs) = live cs
  live (sets_default v ∷ cs) = live cs

  abbrev pub last_default : A → List (Call A) → A
  last_default a [] = a
  last_default a (sets_default v ∷ cs) = last_default v cs
  last_default a (adds uri v ∷ cs) = last_default a cs
  last_default a (adds_glob uri v ∷ cs) = last_default a cs
  last_default a (dels uri ∷ cs) = last_default a cs
  last_default a (dels_glob uri ∷ cs) = last_default a cs

  run-default :
      (cs : List (Call A)) (d : ServletDispatch A)
      → (run cs d).fallback ≡ last_default d.fallback cs
  unfolding apply add_servlet add_glob_servlet del_servlet del_glob_servlet set_default
  run-default [] d = refl
  run-default (adds uri v ∷ cs) d = run-default cs (add_servlet uri v d)
  run-default (adds_glob uri v ∷ cs) d = run-default cs (add_glob_servlet uri v d)
  run-default (dels uri ∷ cs) d = run-default cs (del_servlet uri d)
  run-default (dels_glob uri ∷ cs) d = run-default cs (del_glob_servlet uri d)
  run-default (sets_default v ∷ cs) d = run-default cs (set_default v d)

  run-exact :
      (cs : List (Call A)) (d : ServletDispatch A) (w : Bytes)
      → find w (run cs d).datas ≡ exact (find w d.datas) cs w
  unfolding apply add_servlet add_glob_servlet del_servlet del_glob_servlet set_default
  run-exact [] d w = refl
  run-exact (adds uri v ∷ cs) d w =
      run-exact cs (add_servlet uri v d) w ∙ ap (λ b. exact b cs w) (find-assign uri w v d.datas)
  run-exact (dels uri ∷ cs) d w =
      run-exact cs (del_servlet uri d) w ∙ ap (λ b. exact b cs w) (find-erase_key uri w d.datas)
  run-exact (adds_glob uri v ∷ cs) d w = run-exact cs (add_glob_servlet uri v d) w
  run-exact (dels_glob uri ∷ cs) d w = run-exact cs (del_glob_servlet uri d) w
  run-exact (sets_default v ∷ cs) d w = run-exact cs (set_default v d) w

  keep_one :
      (cs : List (Call A)) (uri : Bytes) (v : A)
      → keep (untouched cs) ((uri, v) ∷ []) ++ live cs
        ≡ (if untouched cs uri then (uri, v) ∷ live cs else live cs)
  keep_one cs uri v = elim (Bool-cases (untouched cs uri)) [ inl e ↦ rw e refl | inr e ↦ rw e refl ]

  keep_all : (m : List (Bytes × A)) → keep (untouched []) m ++ [] ≡ m
  keep_all [] = refl
  keep_all ((k, v) ∷ m) = ap (λ t. (k, v) ∷ t) (keep_all m)

  run-live :
      (cs : List (Call A)) (d : ServletDispatch A)
      → Distinct d.globs
      → (run cs d).globs ≡ keep (untouched cs) d.globs ++ live cs
  unfolding apply add_servlet add_glob_servlet del_servlet del_glob_servlet set_default
  run-live [] d h = sym (keep_all d.globs)
  run-live (adds uri v ∷ cs) d h = run-live cs (add_servlet uri v d) h
  run-live (dels uri ∷ cs) d h = run-live cs (del_servlet uri d) h
  run-live (sets_default v ∷ cs) d h = run-live cs (set_default v d) h
  run-live (dels_glob uri ∷ cs) d h =
      let e = erase_first-erase_key uri d.globs h in
      run-live cs (del_glob_servlet uri d) (rw e (keep-Distinct (λ k. not (same k uri)) d.globs h))
      ∙ rw e (ap (λ t. t ++ live cs) (keep-keep (untouched cs) (λ k. not (same k uri)) d.globs))
  run-live (adds_glob uri v ∷ cs) d h =
      let e = erase_first-erase_key uri d.globs h in
      let kept = erase_key uri d.globs in
      run-live cs (add_glob_servlet uri v d) (
        rw e (
          Distinct-append uri v kept (keep-Distinct (λ k. not (same k uri)) d.globs h)
            (erase_key-Absent uri d.globs)))
      ∙ rw e (
          ap (λ t. t ++ live cs) (keep-append (untouched cs) kept ((uri, v) ∷ []))
          ∙ (append_assoc (keep (untouched cs) kept) (keep (untouched cs) ((uri, v) ∷ [])) (live cs)
              ∙ (ap (λ t. t ++ (keep (untouched cs) ((uri, v) ∷ []) ++ live cs))
                    (keep-keep (untouched cs) (λ k. not (same k uri)) d.globs)
                  ∙ ap (λ t. keep (untouched (adds_glob uri v ∷ cs)) d.globs ++ t)
                      (keep_one cs uri v))))

  -- After any calls on a new dispatch a path is answered by the servlet that was last added for it,
  -- if it was not deleted since; else by the first pattern that matches, of those that no later call
  -- is about, in the order in which they were added; else by the last default, at first the servlet
  -- of the constructor.
  pub get_matched_servlet-run :
      (fnmatch : Bytes → Bytes → Bool) (not_found : A) (cs : List (Call A)) (path : Bytes)
      → get_matched_servlet fnmatch path (run cs (new_dispatch not_found))
        ≡ or
            (exact none cs path)
            (or (first_match fnmatch path (live cs)) (last_default not_found cs))
  unfolding get_matched_servlet new_dispatch
  get_matched_servlet-run fnmatch not_found cs path =
      let d = new_dispatch not_found in
      rw (run-exact cs d path, run-live cs d tt, run-default cs d) refl
