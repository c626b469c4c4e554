-- ===== src/Hook/Tests.antt =====
-- Runs of hooked calls (src/hook.cc).
use mathlib.Core.Path.{subst}
use muqiu.Common.{
  ℕ, zero, suc, ◌<◌, ◌≡◌, ◌≢◌, refl, arith, Bool, true, false, none, some, some_inj, ◌⊎◌, inl, inr,
}
use muqiu.Common.{[], ◌∷◌, ◌++◌, replicate, get_elem?}
use muqiu.Common.Int.{ℤ, pos, negsuc}
use muqiu.IoManager.Events.{
  Event, read, write, has, FdContext, IoManager, is_none, new_manager, table_for, context_resize,
}
use muqiu.IoManager.Counting.{IsValid, new_manager-IsValid}
use muqiu.Fd.Context.{FdCtx, no_timeout, get_timeout, so_rcvtimeo}
use muqiu.Fd.Manager.{FdManager}
use muqiu.Fd.Lookup.{context_of}
use muqiu.Hook.Io.{World, Outside, eagain, failed_with, do_io}
use muqiu.Hook.Waiting.{here, others, Free}
use muqiu.Hook.Retry.{Contract, AnswerOf}
use muqiu.IoManager.Cancel.{cancel_all}
use muqiu.Hook.Connect.{ConnectOf, connect_with_timeout, connect_with_timeout-ConnectOf}
use muqiu.Hook.Flags.{Kernel, set_flags}
use muqiu.Hook.View.{FlagsSet, set_flags-FlagsSet}
use muqiu.Hook.Closing.{close, close-context_of}
use muqiu.Hook.Sockets.{do_io-AnswerOf}

-- A kernel that blocks as often as its number says, and then gives five bytes.
abbrev call : ℕ → ℤ × ℕ × ℕ
call zero = (pos 5, 0, 0)
call (suc k) = (negsuc 0, eagain, k)

abbrev outside : Outside ℕ
outside = record {
  call = call;
  epoll_ctl_fails = λ op fd es. false;
  epoll_errno = 28;
  now = λ k. 1000;
  new_address = λ m. 1;
  scheduler = 0;
  this_fiber = 7;
  timeout_cb = 3;
  timer_info = 4;
  swap_out = λ w. record w { io = new_manager };
}

abbrev world : World ℕ
world = record {
  kernel = 2;
  errno = 0;
  io = new_manager;
  timers = record { timers = []; tickled = false; previous_time = 0 };
  timer = none;
  cancelled = 0;
}

new_manager-Free : (event : Event) → Free 3 event new_manager
unfolding table_for context_resize
new_manager-Free read c e = subst (λ (x : FdContext). has read x.events ≡ false) (some_inj e) refl
new_manager-Free write c e = subst (λ (x : FdContext). has write x.events ≡ false) (some_inj e) refl

call-patience :
    (k : ℕ)
    → (failed_with 4 (call k).0 (record world { kernel = (call k).2; errno = (call k).1 }) ≡ true)
      ⊎ (failed_with eagain (call k).0 (record world { kernel = (call k).2; errno = (call k).1 })
          ≡ true)
    → (call k).2 < k
call-patience zero h = elim h [
  | inl e ↦ absurd (ground (arith, e))
  | inr e ↦ absurd (ground (arith, e))
]
call-patience (suc k) h = omega arith

abbrev contract : (event : Event) → Contract outside 3 event
contract event = record {
  patience = λ k. k;
  calls = λ w h. call-patience w.kernel h;
  stays = λ to w h.
      others w _ w.kernel w.errno new_manager w.timers (omega arith) new_manager-IsValid
        (λ t e c. c) (here _);
  free = λ w. new_manager-Free event;
}

abbrev socket : FdCtx
socket = record {
  is_init = true;
  is_socket = true;
  sys_nonblock = true;
  user_nonblock = false;
  is_closed = false;
  fd = 3;
  recv_timeout = 50;
  send_timeout = no_timeout;
}

abbrev table : FdManager
table = replicate 3 none ++ some socket ∷ replicate 60 none

do_io-AnswerOf_example :
    AnswerOf outside 3 read
      (get_timeout so_rcvtimeo socket)
      (do_io outside (λ fd. some true) (λ fd. 0) true table 10 3 read so_rcvtimeo world)
do_io-AnswerOf_example =
    do_io-AnswerOf outside 3 read (contract read) (λ fd. some true) (λ fd. 0) table socket 10
      so_rcvtimeo world (omega arith) refl
      (record { open_yet = refl; socket = refl; blocking = refl }) new_manager-IsValid
      (new_manager-Free read) (omega arith)

connect_with_timeout-ConnectOf_example :
    ConnectOf outside
      (λ k. some k)
      3
      1000
      (record world { timer = none; cancelled = 0 })
      (connect_with_timeout outside
        (λ k. some k)
        (λ fd. some true)
        (λ fd. 0)
        true
        table
        3
        1000
        world)
connect_with_timeout-ConnectOf_example =
    connect_with_timeout-ConnectOf outside (λ k. some k) 3 (contract write) (λ fd. some true)
      (λ fd. 0) table socket 1000 world refl
      (record { open_yet = refl; socket = refl; blocking = refl }) new_manager-IsValid
      (new_manager-Free write)

-- A kernel of one word of flags.
abbrev one_word : Kernel ℕ
one_word = record {
  fcntl_setfl = λ fd arg k. (pos 0, arg);
  fcntl_getfl = λ fd k. k;
  ioctl_fionbio = λ fd v k. (pos 0, k);
  setsockopt = λ fd level optname v k. (pos 0, k);
}

set_flags-FlagsSet_example :
    (fds' : FdManager) × (set_flags (λ fd. some true) (λ fd. 0) one_word 3 2 table 2048
      ≡ some (pos 0, fds', 2050))
    × FlagsSet (λ fd. some true) (λ fd. 0) one_word 3 2 socket table fds' (pos 0) 2050
set_flags-FlagsSet_example =
    set_flags-FlagsSet (λ fd. some true) (λ fd. 0) one_word (λ fd arg k e. refl) 3 2 table socket
      2048 refl refl

close-context_of_example :
    (fds' : FdManager) × (done : Bool) × (io' : IoManager) × (close
        (λ fd. some true)
        (λ fd. 0)
        (λ op fd es. false)
        true
        true
        3
        table
        new_manager
      ≡ some (fds', io'))
    × (cancel_all (λ op fd es. false) 3 new_manager ≡ some (done, io'))
    × (context_of fds' 3 ≡ none)
    × ((j : ℕ) → j ≢ 3 → context_of fds' j ≡ context_of table j)
    × IsValid io'
    × (done ≡ true → (c : FdContext) → get_elem? io'.contexts 3 ≡ some c → is_none c.events ≡ true)
close-context_of_example =
    close-context_of (λ fd. some true) (λ fd. 0) (λ op fd es. false) 3 table socket new_manager refl
      new_manager-IsValid
