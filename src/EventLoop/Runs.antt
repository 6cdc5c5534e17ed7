-- ===== src/EventLoop/Runs.antt =====
-- A concrete program on the loop, and the theorems at its runs.
use insist.Base.{ℕ, zero, suc, ◌≡◌, refl, true, List, [], ◌∷◌, ◌++◌, none, sym, append-nil}
use insist.Base.Maps.{lookup}
use insist.Session.{interest}
use insist.EventLoop.{
  EventLoop, Program, Wait, ready, interrupted, gone, fresh, add, post, wakeup, run,
}
use insist.EventLoop.Fifo.{recorded, reached, run-history}
use insist.EventLoop.Handlers.{add-lookup}

-- A task `suc t` posts `t`; a handler posts its own number. The program's state counts the calls.
countdown : ℕ → EventLoop ℕ → EventLoop ℕ
countdown zero l = l
countdown (suc n) l = post n l

countdown-tasks :
    (t : ℕ) (l : EventLoop ℕ) → (more : List ℕ) × ((countdown t l).tasks ≡ l.tasks ++ more)
unfolding countdown post wakeup
countdown-tasks zero l = ([], sym (append-nil l.tasks))
countdown-tasks (suc n) l = (n ∷ [], refl)

abbrev counting : Program ℕ ℕ
counting = record {
  run_task = λ t l w. (countdown t l, suc w);
  handle = λ h e l w. (post h l, suc w);
  run_task_posts = λ t l w. countdown-tasks t l;
  handle_posts = λ h e l w. (h ∷ [], unfold post wakeup in refl);
}

-- The tasks 2 and 0 wait, and the descriptor 4 has the handler 9.
abbrev busy : EventLoop ℕ
busy = record (fresh {T = ℕ}) { tasks = 2 ∷ 0 ∷ []; handlers = (4, 9) ∷ [] }

abbrev two_rounds : List Wait
two_rounds = ready ((4, interest true) ∷ (5, interest true) ∷ []) ∷ interrupted ∷ []

run-history_example :
    let (t, (_, (ran, posted))) =
      reached (run (recorded counting) two_rounds (busy, (0, ([], [])))) in
    ((later : List ℕ) × (ran ≡ (2 ∷ 0 ∷ []) ++ later)) × (ran ++ t.tasks ≡ (2 ∷ 0 ∷ []) ++ posted)
unfolding fresh
run-history_example = run-history counting two_rounds busy 0

add-lookup_example : lookup 4 (add 2 gone 4 7 busy).state.handlers ≡ none
unfolding fresh lookup
add-lookup_example = add-lookup 2 gone 4 7 4 busy
