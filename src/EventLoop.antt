-- ===== src/EventLoop.antt =====
-- include/minirpc/event_loop.hpp and src/event_loop.cpp: the loop over `epoll` and its task queue.
-- Tasks and handlers belong to the program that uses the loop; running one may change the loop (post,
-- stop, add, remove) and the program's own state. What `epoll` and the other system calls answer is
-- an argument.
pub mod Fifo
pub mod Handlers
mod Runs
use insist.Base.{
  ℕ, zero, suc, ◌+◌, ◌≡◌, Bool, true, false, ◌&&◌, ◌||◌, not, if◌then◌else◌, List, [], ◌∷◌, ◌++◌,
  Option, none, some,
}
use insist.Base.Maps.{lookup, insert, erase}
use insist.Session.{Events}

-- `handlers` maps a descriptor to the number of its handler; `wakeups` is the counter of the eventfd.
pub record EventLoop (T : Type 0) : Type 0 where
  pub handlers : List (ℕ × ℕ)
  pub tasks : List T
  pub stopped : Bool
  pub wakeups : ℕ

-- What a call that can throw leaves: the state, and the `errno` that it throws, if any.
pub record Thrown (S : Type 0) : Type 0 where
  pub state : S
  pub errno : Option ℕ

-- The results of `epoll_ctl` that matter: success, `ENOENT` or `EBADF`, or another error.
pub data Ctl : Type 0 where
  done : Ctl
  gone : Ctl
  refused : ℕ → Ctl

module _ {T : Type 0} where
  -- The constructor's members; it goes on to add the handler of the eventfd.
  pub fresh : EventLoop T
  fresh = record { handlers = []; tasks = []; stopped = false; wakeups = 0 }

  -- `add`; `enoent` is the `errno` of a result `gone`.
  pub add : ℕ → Ctl → ℕ → ℕ → EventLoop T → Thrown (EventLoop T)
  add enoent ctl fd handler l =
      let added = record l { handlers = insert fd handler l.handlers } in
      let undone = record l { handlers = erase fd (insert fd handler l.handlers) } in
      elim ctl [
        | done ↦ record { state = added; errno = none }
        | gone ↦ record { state = undone; errno = some enoent }
        | refused e ↦ record { state = undone; errno = some e }
      ]

  -- `modify`: the descriptor may be gone already.
  pub modify : Ctl → EventLoop T → Thrown (EventLoop T)
  modify done l = record { state = l; errno = none }
  modify gone l = record { state = l; errno = none }
  modify (refused e) l = record { state = l; errno = some e }

  pub remove : ℕ → EventLoop T → EventLoop T
  remove fd l = record l { handlers = erase fd l.handlers }

  -- `wakeup`, where the write succeeds.
  pub wakeup : EventLoop T → EventLoop T
  wakeup l = record l { wakeups = l.wakeups + 1 }

  -- `drain_wakeup`, the handler of the eventfd.
  pub drain_wakeup : EventLoop T → EventLoop T
  drain_wakeup l = record l { wakeups = 0 }

  pub post : T → EventLoop T → EventLoop T
  unfolding wakeup
  post t l = wakeup (record l { tasks = l.tasks ++ t ∷ [] })

  pub stop : EventLoop T → EventLoop T
  unfolding wakeup
  stop l = wakeup (record l { stopped = true })

-- The program on the loop: what a task does, and what a handler does with an event. Either may use
-- the loop; to the task queue it can only post.
pub record Program (T W : Type 0) : Type 0 where
  pub run_task : T → EventLoop T → W → EventLoop T × W
  pub handle : ℕ → Events → EventLoop T → W → EventLoop T × W
  pub run_task_posts :
      (t : T) (l : EventLoop T) (w : W)
      → (more : List T) × ((run_task t l w).0.tasks ≡ l.tasks ++ more)
  pub handle_posts :
      (h : ℕ) (e : Events) (l : EventLoop T) (w : W)
      → (more : List T) × ((handle h e l w).0.tasks ≡ l.tasks ++ more)

-- What one `epoll_wait` answers.
pub data Wait : Type 0 where
  ready : List (ℕ × Events) → Wait
  interrupted : Wait
  failed : ℕ → Wait

-- How far `run` has come: it returned, it threw, or it waits in `epoll_wait` for what comes next.
pub data Run (S : Type 0) : Type 0 where
  returned : S → Run S
  threw : ℕ → S → Run S
  waiting : S → Run S

module _ {T W : Type 0} (p : Program T W) where
  -- The loop of `drain_tasks` over the queue that it has swapped out.
  run_all : List T → EventLoop T × W → EventLoop T × W
  run_all [] s = s
  run_all (t ∷ ts) (l, w) = run_all ts (p.run_task t l w)

  pub drain_tasks : EventLoop T × W → EventLoop T × W
  unfolding run_all
  drain_tasks (l, w) = run_all l.tasks (record l { tasks = [] }, w)

  handle_found : Option ℕ → Events → EventLoop T × W → EventLoop T × W
  handle_found none e s = s
  handle_found (some h) e (l, w) = p.handle h e l w

  -- The handler is looked up when its event's turn has come.
  pub dispatch : ℕ × Events → EventLoop T × W → EventLoop T × W
  unfolding handle_found
  dispatch (fd, e) (l, w) = handle_found (lookup fd l.handlers) e (l, w)

  pub dispatch_all : List (ℕ × Events) → EventLoop T × W → EventLoop T × W
  dispatch_all [] s = s
  dispatch_all (e ∷ es) s = dispatch_all es (dispatch e s)

  -- The loop of `run`, over the answers of `epoll_wait`.
  run_loop : List Wait → EventLoop T × W → Run (EventLoop T × W)
  run_loop [] s = if s.0.stopped then returned (drain_tasks s) else waiting (drain_tasks s)
  run_loop (interrupted ∷ ws) s =
      let rest = run_loop ws (drain_tasks s) in
      if s.0.stopped then returned (drain_tasks s) else rest
  run_loop (failed e ∷ ws) s =
      if s.0.stopped then returned (drain_tasks s) else threw e (drain_tasks s)
  run_loop (ready es ∷ ws) s =
      let rest = run_loop ws (dispatch_all es (drain_tasks s)) in
      if s.0.stopped then returned (drain_tasks s) else rest

  pub run : List Wait → EventLoop T × W → Run (EventLoop T × W)
  unfolding run_loop
  run ws (l, w) = run_loop ws (record l { stopped = false }, w)
