-- ===== src/EventLoop/Handlers.antt =====
-- The handlers of the loop: registration, removal and what a removed handler still hears.
use insist.Base.{ℕ, ◌≡◌, ap, arith, Bool, true, false, ◌==◌, if◌then◌else◌, none, some}
use insist.Base.Maps.{lookup, insert, erase, lookup-insert, lookup-erase}
use insist.Session.{Events}
use insist.EventLoop.{
  EventLoop, Program, Ctl, done, gone, refused, add, remove, dispatch, handle_found,
}

-- Whether `epoll_ctl` succeeded.
abbrev succeeds : Ctl → Bool
succeeds done = true
succeeds gone = false
succeeds (refused e) = false

-- After `add` the descriptor has the new handler if `epoll_ctl` succeeded and none at all if it did
-- not, also where it had one before; the other descriptors keep theirs.
pub add-lookup :
    {T : Type 0} (enoent : ℕ) (ctl : Ctl) (fd handler k : ℕ) (l : EventLoop T)
    → (lookup k (add enoent ctl fd handler l).state.handlers
        ≡ (if fd == k then if succeeds ctl then some handler else none else lookup k l.handlers))
unfolding add
add-lookup enoent done fd handler k l = lookup-insert k fd handler l.handlers
add-lookup enoent gone fd handler k l =
    ground (
      arith,
      lookup-insert k fd handler l.handlers,
      lookup-erase k fd (insert fd handler l.handlers),
    )
add-lookup enoent (refused e) fd handler k l =
    ground (
      arith,
      lookup-insert k fd handler l.handlers,
      lookup-erase k fd (insert fd handler l.handlers),
    )

-- An event of a descriptor that has been removed reaches no handler, also if `epoll_wait` reported it
-- before the removal.
pub dispatch-remove :
    {T W : Type 0} (p : Program T W) (fd : ℕ) (e : Events) (l : EventLoop T) (w : W)
    → dispatch p (fd, e) (remove fd l, w) ≡ (remove fd l, w)
unfolding dispatch remove handle_found
dispatch-remove p fd e l w = ap (λ h. handle_found p h e (remove fd l, w)) absent
  where
    absent : lookup fd (erase fd l.handlers) ≡ none
    absent = ground (arith, lookup-erase fd fd l.handlers)
