-- ===== src/HttpSession/Send.antt =====
-- `HttpSession::sendResponse` (src/http_session.cc).
--
-- The socket below is a parameter: what its write returns for the bytes that it is shown.
use muqiu.Common.{ℕ, Option}
use muqiu.Common.{length, take, drop}
use muqiu.Common.Int.{ℤ}
use muqiu.ByteArray.State.{Bytes}
use muqiu.Stream.FixSize.{write_fix_size}
use muqiu.Http.Dump.{HttpResponse, dump_response}

pub record Outlet : Type 1 where
  pub Socket : Type 0
  pub write : Bytes → Socket → ℤ × Socket

module _ (outlet : Outlet) where
  -- `write((const char *)buffer + offset, left)` of a buffer that holds `text`.
  unfoldable pub write_from : Bytes → outlet.Socket → ℕ → ℕ → ℤ × outlet.Socket
  write_from text s offset left = outlet.write (take left (drop offset text)) s

  unfoldable pub send_response : HttpResponse → outlet.Socket → Option (ℤ × outlet.Socket)
  send_response rsp s =
      let text = dump_response rsp in write_fix_size (write_from text) (length text) s
