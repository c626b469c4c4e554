-- ===== src/Hook/Sockets.antt =====
-- The hooked calls find the context of their descriptor (src/hook.cc, src/fdmanager.cc).
use muqiu.Common.{ℕ, ◌<◌, ◌≡◌, refl, ap, ◌∙◌, arith, Bool, true, false, Option, none, some}
use muqiu.Common.Int.{pos}
use muqiu.IoManager.Events.{Event}
use muqiu.IoManager.Counting.{IsValid}
use muqiu.Fd.Context.{FdCtx, get_timeout}
use muqiu.Fd.Manager.{FdManager, get}
use muqiu.Fd.Lookup.{context_of, IsLong, get-GetOf}
use muqiu.Hook.Io.{World, Outside, do_io_on, do_io}
use muqiu.Hook.Waiting.{Free}
use muqiu.Hook.Retry.{Contract, AnswerOf, io_loop-AnswerOf}

-- The context of a socket whose user expects it to block, while it is open.
pub record IsHooked (ctx : FdCtx) : Type 0 where
  pub open_yet : ctx.is_closed ≡ false
  pub socket : ctx.is_socket ≡ true
  pub blocking : ctx.user_nonblock ≡ false

module _ {K : Type 0} (o : Outside K) (fd : ℕ) (event : Event) (c : Contract o fd event) where
  do_io_on-AnswerOf :
      (fuel timeout_so : ℕ) (ctx : FdCtx) (w : World K)
      → IsHooked ctx
      → IsValid w.io
      → Free fd event w.io
      → c.patience w.kernel < fuel
      → AnswerOf o fd event
          (get_timeout timeout_so ctx)
          (do_io_on o fuel fd event timeout_so (some ctx) w)
  unfolding do_io_on get_timeout
  do_io_on-AnswerOf fuel timeout_so ctx w h v free less =
      rw (h.open_yet, h.socket, h.blocking, do_io_on)
        (io_loop-AnswerOf o fd event c fuel (get_timeout timeout_so ctx)
          (record w { timer = none; cancelled = 0 })
          (record {
            quiet = λ t e. absurd (ground (arith, e));
            none_yet = refl;
            valid = v;
            free = free;
          })
          less)

  -- With the hook on, a call on a descriptor whose context is an open socket that its user expects
  -- to block returns, on fuel beyond the patience of the kernel, if no one waits for its event yet.
  -- What it returns is never an interruption or that the call would block: it is what the original
  -- function has returned, a timeout, where the context has one, or that `epoll_ctl` has refused
  -- to watch the descriptor. Its timer will not run afterwards.
  pub do_io-AnswerOf :
      (fstat : ℕ → Option Bool) (getfl : ℕ → ℕ) (fds : FdManager) (ctx : FdCtx)
      (fuel timeout_so : ℕ) (w : World K)
      → IsLong fds
      → context_of fds fd ≡ some ctx
      → IsHooked ctx
      → IsValid w.io
      → Free fd event w.io
      → c.patience w.kernel < fuel
      → AnswerOf o fd event
          (get_timeout timeout_so ctx)
          (do_io o fstat getfl true fds fuel fd event timeout_so w)
  unfolding do_io
  do_io-AnswerOf fstat getfl fds ctx fuel timeout_so w long known h v free less =
      let (r, fds', e, g) = get-GetOf fstat getfl fd false fds long in
      let found : get fstat getfl (pos fd) false fds ≡ some (some ctx, fds') =
        e ∙ ap (λ (x : Option FdCtx). some (x, fds')) (g.known ctx known) in
      rw (found, do_io) (do_io_on-AnswerOf fuel timeout_so ctx w h v free less)
