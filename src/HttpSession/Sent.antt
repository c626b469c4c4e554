-- ===== src/HttpSession/Sent.antt =====
-- What a peer has got of a response (src/http_session.cc).
use muqiu.Common.{ℕ, zero, suc, ◌+◌, ◌≤◌, ◌<◌, ◌≡◌, refl, sym, ap, ◌∙◌, arith, some, inl, inr, ◌⊎◌}
use muqiu.Common.{[], ◌∷◌, ◌++◌, length, take, drop, length-take, length-drop, take_all, take-take}
use muqiu.Common.Int.{ℤ, pos, to_int}
use muqiu.ByteArray.State.{Bytes}
use muqiu.Stream.Ending.{Stops, complete, stopped, write_fix_size-Returns}
use muqiu.Http.Dump.{HttpResponse, dump_response, status_line}
use muqiu.Http.Fields.{read_message}
use muqiu.Http.FirstLine.{IsCleanResponse}
use muqiu.Http.DumpLaws.{response_fields, read_message-dump_response}
use muqiu.HttpSession.Send.{Outlet, write_from, send_response}

-- The contract of `send`: it takes some bytes from the front of what it is shown, and these come
-- behind what the peer has got.
pub record Takes (outlet : Outlet) : Type 0 where
  pub received : outlet.Socket → Bytes
  pub writes :
      (text : Bytes) (n : ℕ) (s : outlet.Socket)
      → (outlet.write text s).0 ≡ pos n
      → (n ≤ length text) × (received (outlet.write text s).1 ≡ received s ++ take n text)

take-nil : (n : ℕ) → take {A = ℕ} n [] ≡ []
take-nil zero = refl
take-nil (suc n) = refl

take-take-drop :
    (o n left : ℕ) (text : Bytes)
    → n ≤ left
    → take (o + n) text ≡ take o text ++ take n (take left (drop o text))
take-take-drop zero n left text h =
    ap (λ (k : ℕ). take k text) (omega arith) ∙ sym (take-take n left text h)
take-take-drop (suc o) n left [] h =
    take-nil (suc o + n) ∙ sym (ap (λ (x : Bytes). take n x) (take-nil left) ∙ take-nil n)
take-take-drop (suc o) n left (c ∷ text) h =
    ap (λ (k : ℕ). take k (c ∷ text)) (let e : suc o + n ≡ suc (o + n) = omega arith in e)
    ∙ ap (λ (x : Bytes). c ∷ x) (take-take-drop o n left text h)

module _ (outlet : Outlet) (takes : Takes outlet) where
  write_from-Moves :
      (text : Bytes) (o left n : ℕ) (s : outlet.Socket)
      → takes.received s ≡ take o text
      → (write_from outlet text s o left).0 ≡ pos n
      → (n ≤ left) × (takes.received (write_from outlet text s o left).1 ≡ take (o + n) text)
  unfolding write_from
  write_from-Moves text o left n s m e =
      let shown = take left (drop o text) in
      let (le, r) = takes.writes shown n s e in
      let le' : n ≤ left = omega (arith, le, length-take left (drop o text)) in
      (le', r ∙ ap (λ (x : Bytes). x ++ take n shown) m ∙ sym (take-take-drop o n left text le'))

  -- A write that took nothing ended the loop: it was shown all that the peer had not got.
  abbrev pub LastWrite : Bytes → ℤ → outlet.Socket → Type 0
  LastWrite text z s' =
      (o : ℕ) × (t : outlet.Socket) × (o < length text)
      × (takes.received t ≡ take o text)
      × (outlet.write (drop o text) t ≡ (z, s'))
      × Stops z

  last-write :
      (text : Bytes) (o left : ℕ) (t : outlet.Socket)
      → takes.received t ≡ take o text
      → 0 < left
      → o + left ≡ length text
      → {z : ℤ} {s' : outlet.Socket} → write_from outlet text t o left ≡ (z, s')
      → Stops z
      → LastWrite text z s'
  unfolding write_from
  last-write text o left t m p l e st =
      let rest : take left (drop o text) ≡ drop o text =
        take_all left (drop o text) (omega (arith, l, length-drop o text)) in
      (o, t, omega (arith, p, l), m, ap (λ (x : Bytes). outlet.write x t) (sym rest) ∙ e, st)

  -- `sendResponse` of a clean response to a peer that had got nothing returns, whatever the socket
  -- does within its contract. Either it returns the length of the text as an `int`, and then the
  -- peer, which reads line by line, has the first line, the fields and the body; or the peer had
  -- got a front of the text that is not all of it when a write was shown the rest, and the result
  -- is what this write has returned, an error or zero, with the socket that it has left.
  pub send_response-read_message :
      (rsp : HttpResponse) (s : outlet.Socket)
      → takes.received s ≡ []
      → IsCleanResponse rsp
      → (z : ℤ) × (s' : outlet.Socket) × (send_response outlet rsp s ≡ some (z, s'))
        × (((z ≡ to_int (length (dump_response rsp)))
              × (read_message (takes.received s')
                  ≡ some (status_line rsp, response_fields rsp, rsp.body)))
            ⊎ LastWrite (dump_response rsp) z s')
  unfolding send_response
  send_response-read_message rsp s fresh clean =
      let text = dump_response rsp in
      let (z, s', e, r) =
        write_fix_size-Returns (write_from outlet text) (λ o t. takes.received t ≡ take o text)
          (write_from-Moves text) (length text) s fresh in
      (
        z,
        s',
        e,
        elim r [
          | complete q m ↦ inl (
            q,
            ap read_message (m ∙ take_all (length text) text (omega arith))
                ∙ read_message-dump_response rsp clean,
          )
          | stopped o left t m p l e' st ↦ inr (last-write text o left t m p l e' st)
        ],
      )
