-- ===== src/Trim/Edges.antt =====
-- What trimming takes off a text, and what it leaves (src/util.cc).
use muqiu.Common.{
  ℕ, suc, ◌+◌, ◌-◌, ◌≡◌, refl, sym, ap, ◌∙◌, arith, Bool, true, false, none, some, Bool-cases, ◌⊎◌,
  inl, inr,
}
use muqiu.Common.{[], ◌∷◌, ◌++◌, append_assoc, take-append, drop-append, take, drop, All, length}
use muqiu.Trim.Strip.{Bytes, find_first_not_of, find_last_not_of, trim, trim_right}

module _ (blank : ℕ → Bool) where
  abbrev pub IsBlank : Bytes → Type 0
  IsBlank s = All (λ c. blank c ≡ true) s

  -- The text is a blank one, or has a first character that is not blank, at an index.
  data FirstAt (s : Bytes) : Type 0 where
    nowhere : find_first_not_of blank s ≡ none → IsBlank s → FirstAt s
    at :
        (front rest : Bytes) (c : ℕ)
        → find_first_not_of blank s ≡ some (length front)
        → s ≡ front ++ (c ∷ rest)
        → IsBlank front
        → blank c ≡ false
        → FirstAt s

  first_at : (s : Bytes) → FirstAt s
  unfolding find_first_not_of
  first_at [] = nowhere refl tt
  first_at (c ∷ s) = elim (Bool-cases (blank c)) [
    | inr e ↦ at [] s c (rw (e, find_first_not_of) refl) refl tt e
    | inl e ↦ elim (first_at s) [
      | nowhere q b ↦ nowhere (rw (e, q, find_first_not_of) refl) (e, b)
      | at front rest d q w b n ↦
          at (c ∷ front) rest d (rw (e, q, find_first_not_of) refl) (ap (λ t. c ∷ t) w) (e, b) n
    ]
  ]

  data LastAt (s : Bytes) : Type 0 where
    nowhere : find_last_not_of blank s ≡ none → IsBlank s → LastAt s
    at :
        (rest back : Bytes) (c : ℕ)
        → find_last_not_of blank s ≡ some (length rest)
        → s ≡ rest ++ (c ∷ back)
        → IsBlank back
        → blank c ≡ false
        → LastAt s

  last_at : (s : Bytes) → LastAt s
  unfolding find_last_not_of
  last_at [] = LastAt.nowhere refl tt
  last_at (c ∷ s) = elim (last_at s) [
    | LastAt.at rest back d q w b n ↦
        LastAt.at (c ∷ rest) back d (rw (q, find_last_not_of) refl) (ap (λ t. c ∷ t) w) b n
    | LastAt.nowhere q b ↦ elim (Bool-cases (blank c)) [
      | inl e ↦ LastAt.nowhere (rw (q, e, find_last_not_of) refl) (e, b)
      | inr e ↦ LastAt.at [] s c (rw (q, e, find_last_not_of) refl) refl b e
    ]
  ]

  find_last-append :
      (front t : Bytes) (i : ℕ)
      → find_last_not_of blank t ≡ some i
      → find_last_not_of blank (front ++ t) ≡ some (length front + i)
  unfolding find_last_not_of
  find_last-append [] t i e = e ∙ ap some (omega arith)
  find_last-append (c ∷ front) t i e =
      rw (find_last-append front t i e, find_last_not_of) (ap some (omega arith))

  take-back : (hd back : Bytes) (d : ℕ) → take (length hd + 1) (hd ++ (d ∷ back)) ≡ hd ++ (d ∷ [])
  take-back [] back d = refl
  take-back (x ∷ hd) back d =
      let e : suc (length hd) + 1 ≡ suc (length hd + 1) = omega arith in
      rw e (ap (λ t. x ∷ t) (take-back hd back d))

  -- What a trimmed text is: nothing of a blank text; else the text without a blank front and a
  -- blank back, which starts and ends with characters that are not blank.
  pub data TrimOf (str r : Bytes) : Type 0 where
    all_blank : IsBlank str → r ≡ [] → TrimOf str r
    inner :
        (front back hd tl : Bytes) (c d : ℕ)
        → str ≡ front ++ (r ++ back)
        → IsBlank front
        → IsBlank back
        → r ≡ c ∷ tl
        → blank c ≡ false
        → r ≡ hd ++ (d ∷ [])
        → blank d ≡ false
        → TrimOf str r

  starts :
      (hd rest back : Bytes) (c d : ℕ)
      → c ∷ rest ≡ hd ++ (d ∷ back)
      → (tl : Bytes) × (hd ++ (d ∷ []) ≡ c ∷ tl)
  starts [] rest back c d e = ([], cc)
  starts (x ∷ hd) rest back c d e = (hd ++ (d ∷ []), cc)

  trimmed :
      (str front hd back : Bytes) (d : ℕ)
      → find_first_not_of blank str ≡ some (length front)
      → str ≡ front ++ (hd ++ (d ∷ back))
      → find_last_not_of blank (hd ++ (d ∷ back)) ≡ some (length hd)
      → trim blank str ≡ hd ++ (d ∷ [])
  unfolding trim
  trimmed str front hd back d q w l =
      let last : find_last_not_of blank str ≡ some (length front + length hd) =
        ap (find_last_not_of blank) w ∙ find_last-append front (hd ++ (d ∷ back)) (length hd) l in
      let n : length front + length hd - length front + 1 ≡ length hd + 1 = omega arith in
      rw (q, last, trim)
        (ap (λ (k : ℕ). take k (drop (length front) str)) n
          ∙ ap (λ t. take (length hd + 1) (drop (length front) t)) w
          ∙ ap (take (length hd + 1)) (drop-append front (hd ++ (d ∷ back)))
          ∙ take-back hd back d)

  -- `Trim` takes off the blank front and the blank back of every text, and nothing else.
  pub trim-TrimOf : (str : Bytes) → TrimOf str (trim blank str)
  unfolding trim
  trim-TrimOf str = elim (first_at str) [
    | nowhere q b ↦ all_blank b (rw (q, trim) refl)
    | at front rest c q w b n ↦ elim (last_at (c ∷ rest)) [
      | LastAt.nowhere l bl ↦ absurd (ground (arith, n, bl.0))
      | LastAt.at hd back d l e bb nd ↦
          let w' = w ∙ ap (λ t. front ++ t) e in
          let r = trimmed str front hd back d q w' (ap (find_last_not_of blank) (sym e) ∙ l) in
          let (tl, s) = starts hd rest back c d e in
          inner front back hd tl c d
            (w'
              ∙ ap (λ t. front ++ t)
                  (sym (append_assoc hd (d ∷ []) back) ∙ ap (λ t. t ++ back) (sym r)))
            b bb (r ∙ s) n r nd
    ]
  ]

  -- `TrimRight` takes off the blank back, and with it the last character that is not blank.
  pub trim_right-cuts :
      (str : Bytes)
      → (IsBlank str × (trim_right blank str ≡ []))
        ⊎ ((c : ℕ) × (back : Bytes) × (str ≡ trim_right blank str ++ (c ∷ back))
            × (blank c ≡ false)
            × IsBlank back)
  unfolding trim_right
  trim_right-cuts str = elim (last_at str) [
    | LastAt.nowhere q b ↦ inl (b, rw (q, trim_right) refl)
    | LastAt.at rest back c q w b n ↦
        let r : trim_right blank str ≡ rest =
          rw (q, trim_right) (ap (take (length rest)) w ∙ take-append rest (c ∷ back)) in
        inr (c, back, w ∙ ap (λ t. t ++ (c ∷ back)) (sym r), n, b)
  ]
