-- ===== src/Servlet/Dispatch.antt =====
-- `ServletDispatch` (src/servlet.cc, include/servlet.h).
--
-- A pointer to a servlet is a value of a type A with a null, a URI the list of its bytes. The hash
-- map of exact URIs is an association list, `fnmatch` is a parameter that says whether it gives 0.
use muqiu.Common.{Bool, true, false, not, ◌&&◌, Option, none, some}
use muqiu.Common.{List, [], ◌∷◌, ◌++◌, if◌then◌else◌, ◌==◌}
use muqiu.ByteArray.State.{Bytes}

-- Equality of texts.
abbrev pub same : Bytes → Bytes → Bool
same [] [] = true
same [] (y ∷ ys) = false
same (x ∷ xs) [] = false
same (x ∷ xs) (y ∷ ys) = (x == y) && same xs ys

module _ {A : Type 0} where
  -- An assignment `m[uri] = v`, and `find`.
  abbrev pub assign : Bytes → A → List (Bytes × A) → List (Bytes × A)
  assign uri v [] = (uri, v) ∷ []
  assign uri v ((k, w) ∷ m) = if same k uri then (k, v) ∷ m else (k, w) ∷ assign uri v m

  abbrev pub find : Bytes → List (Bytes × A) → Option A
  find uri [] = none
  find uri ((k, v) ∷ m) = if same k uri then some v else find uri m

  -- The entries with a key that passes a test: an `erase` of a map keeps those with another key.
  abbrev pub keep : (Bytes → Bool) → List (Bytes × A) → List (Bytes × A)
  keep p [] = []
  keep p ((k, v) ∷ m) = if p k then (k, v) ∷ keep p m else keep p m

  abbrev pub erase_key : Bytes → List (Bytes × A) → List (Bytes × A)
  erase_key uri m = keep (λ k. not (same k uri)) m

  -- The loop of `addGlobServlet` and `delGlobServlet`: the first entry of the URI goes.
  abbrev pub erase_first : Bytes → List (Bytes × A) → List (Bytes × A)
  erase_first uri [] = []
  erase_first uri ((k, v) ∷ globs) = if same k uri then globs else (k, v) ∷ erase_first uri globs

  -- The first entry whose pattern matches.
  abbrev pub first_match : (Bytes → Bytes → Bool) → Bytes → List (Bytes × A) → Option A
  first_match fnmatch uri [] = none
  first_match fnmatch uri ((k, v) ∷ globs) =
      if fnmatch k uri then some v else first_match fnmatch uri globs

pub record ServletDispatch (A : Type 0) : Type 0 where
  pub datas : List (Bytes × A)
  pub globs : List (Bytes × A)
  pub fallback : A

module _ {A : Type 0} where
  -- The constructor, with the servlet that answers 404.
  unfoldable pub new_dispatch : A → ServletDispatch A
  new_dispatch not_found = record { datas = []; globs = []; fallback = not_found }

  unfoldable pub add_servlet : Bytes → A → ServletDispatch A → ServletDispatch A
  add_servlet uri slt d = record d { datas = assign uri slt d.datas }

  unfoldable pub add_glob_servlet : Bytes → A → ServletDispatch A → ServletDispatch A
  add_glob_servlet uri slt d = record d { globs = erase_first uri d.globs ++ (uri, slt) ∷ [] }

  unfoldable pub del_servlet : Bytes → ServletDispatch A → ServletDispatch A
  del_servlet uri d = record d { datas = erase_key uri d.datas }

  unfoldable pub del_glob_servlet : Bytes → ServletDispatch A → ServletDispatch A
  del_glob_servlet uri d = record d { globs = erase_first uri d.globs }

  unfoldable pub set_default : A → ServletDispatch A → ServletDispatch A
  set_default v d = record d { fallback = v }

  abbrev pub or : Option A → A → A
  or none b = b
  or (some a) b = a

  unfoldable pub get_servlet : A → Bytes → ServletDispatch A → A
  get_servlet null uri d = or (find uri d.datas) null

  unfoldable pub get_glob_servlet : A → Bytes → ServletDispatch A → A
  get_glob_servlet null uri d = or (find uri d.globs) null

  unfoldable pub get_matched_servlet : (Bytes → Bytes → Bool) → Bytes → ServletDispatch A → A
  get_matched_servlet fnmatch uri d =
      or (find uri d.datas) (or (first_match fnmatch uri d.globs) d.fallback)
