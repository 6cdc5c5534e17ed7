-- ===== src/EventLoop/Fifo.antt =====
-- The task queue: every posted task runs once, in the order of posting.
use insist.Base.{
  ℕ, ◌≡◌, refl, sym, ap, ◌∙◌, false, if-cases, List, [], ◌∷◌, ◌++◌, append-nil, append_assoc,
  Option, none, some,
}
use insist.Base.Maps.{lookup}
use insist.Session.{Events}
use insist.EventLoop.{
  EventLoop, Program, Wait, ready, interrupted, failed, Run, returned, threw, waiting, run_all,
  handle_found, drain_tasks, dispatch, dispatch_all, run_loop, run,
}

-- The program with two lists beside its own state: the tasks that have run, and those that its tasks
-- and handlers have posted.
unfoldable pub recorded : {T W : Type 0} → Program T W → Program T (W × (List T × List T))
recorded p = record {
  run_task = λ t l w.
      let (l', w') = p.run_task t l w.0 in
      (l', (w', (w.1.0 ++ t ∷ [], w.1.1 ++ (p.run_task_posts t l w.0).0)));
  handle = λ h e l w.
      let (l', w') = p.handle h e l w.0 in
      (l', (w', (w.1.0, w.1.1 ++ (p.handle_posts h e l w.0).0)));
  run_task_posts = λ t l w. p.run_task_posts t l w.0;
  handle_posts = λ h e l w. p.handle_posts h e l w.0;
}

-- The state that `run` has come to.
abbrev pub reached : {S : Type 0} → Run S → S
reached (returned s) = s
reached (threw e s) = s
reached (waiting s) = s

module _ {T W : Type 0} (p : Program T W) where
  abbrev State : Type 0
  State = EventLoop T × (W × (List T × List T))

  -- The tasks that have run, followed by those that wait.
  abbrev history : State → List T
  history s = s.1.1.0 ++ s.0.tasks

  -- The list of what has run grows at its end, and the history by what is posted.
  abbrev Grows : State → State → Type 0
  Grows s t =
      ((ran : List T) × (t.1.1.0 ≡ s.1.1.0 ++ ran))
      × ((more : List T) × (history t ≡ history s ++ more) × (t.1.1.1 ≡ s.1.1.1 ++ more))

  Grows-refl : (s : State) → Grows s s
  Grows-refl s = (([], sym (append-nil _)), ([], sym (append-nil _), sym (append-nil _)))

  Grows-trans : (s t u : State) → Grows s t → Grows t u → Grows s u
  Grows-trans s t u ((x, c), (a, e, g)) ((y, d), (b, f, k)) = (
    (x ++ y, d ∙ ap (λ l. l ++ y) c ∙ append_assoc s.1.1.0 x y),
    (
      a ++ b,
      f ∙ ap (λ l. l ++ b) e ∙ append_assoc (history s) a b,
      k ∙ ap (λ l. l ++ b) g ∙ append_assoc s.1.1.1 a b,
    ),
  )

  handle_found-Grows :
      (h : Option ℕ) (e : Events) (s : State) → Grows s (handle_found (recorded p) h e s)
  unfolding handle_found recorded
  handle_found-Grows none e s = Grows-refl s
  handle_found-Grows (some h) e (l, (w, (log, posted))) =
      let (more, q) = p.handle_posts h e l w in
      (
        ([], sym (append-nil log)),
        (more, ap (λ t. log ++ t) q ∙ sym (append_assoc log l.tasks more), refl),
      )

  dispatch-Grows : (e : ℕ × Events) (s : State) → Grows s (dispatch (recorded p) e s)
  unfolding dispatch
  dispatch-Grows (fd, e) (l, w) = handle_found-Grows (lookup fd l.handlers) e (l, w)

  dispatch_all-Grows :
      (es : List (ℕ × Events)) (s : State) → Grows s (dispatch_all (recorded p) es s)
  unfolding dispatch_all
  dispatch_all-Grows [] s = Grows-refl s
  dispatch_all-Grows (e ∷ es) s =
      Grows-trans s (dispatch (recorded p) e s)
        (dispatch_all (recorded p) es (dispatch (recorded p) e s)) (dispatch-Grows e s)
        (dispatch_all-Grows es (dispatch (recorded p) e s))

  run_all-history :
      (ts : List T) (l : EventLoop T) (w : W) (log posted : List T)
      → let t = run_all (recorded p) ts (l, (w, (log, posted))) in
        (more : List T) × (t.1.1.0 ≡ log ++ ts)
        × (t.0.tasks ≡ l.tasks ++ more)
        × (t.1.1.1 ≡ posted ++ more)
  unfolding run_all recorded
  run_all-history [] l w log posted =
      ([], sym (append-nil log), sym (append-nil l.tasks), sym (append-nil posted))
  run_all-history (t ∷ ts) l w log posted =
      let (now, a) = p.run_task_posts t l w in
      let (later, b, c, d) =
        run_all-history ts (p.run_task t l w).0 (p.run_task t l w).1 (log ++ t ∷ [])
          (posted ++ now) in
      (
        now ++ later,
        b ∙ append_assoc log (t ∷ []) ts,
        c ∙ ap (λ x. x ++ later) a ∙ append_assoc l.tasks now later,
        d ∙ append_assoc posted now later,
      )

  -- `drain_tasks` runs the tasks that wait, each once and in the order of posting; what they post
  -- waits in the queue for the next call.
  drain_tasks-history :
      (l : EventLoop T) (w : W) (log posted : List T)
      → let t = drain_tasks (recorded p) (l, (w, (log, posted))) in
        (more : List T) × (t.1.1.0 ≡ log ++ l.tasks)
        × (t.0.tasks ≡ more)
        × (t.1.1.1 ≡ posted ++ more)
  unfolding drain_tasks
  drain_tasks-history l w log posted =
      run_all-history l.tasks (record l { tasks = [] }) w log posted

  -- A round of the loop comes after the tasks that waited when it began.
  abbrev RunsFirst : State → State → Type 0
  RunsFirst s t =
      ((ran : List T) × (t.1.1.0 ≡ (s.1.1.0 ++ s.0.tasks) ++ ran))
      × ((more : List T) × (history t ≡ history s ++ more) × (t.1.1.1 ≡ s.1.1.1 ++ more))

  drained-RunsFirst : (s : State) → RunsFirst s (drain_tasks (recorded p) s)
  drained-RunsFirst (l, (w, (log, posted))) =
      let (more, a, b, c) = drain_tasks-history l w log posted in
      (([], a ∙ sym (append-nil _)), (more, cc, c))

  RunsFirst-Grows : (s t u : State) → RunsFirst s t → Grows t u → RunsFirst s u
  RunsFirst-Grows s t u ((x, c), (a, e, g)) ((y, d), (b, f, k)) = (
    (x ++ y, d ∙ ap (λ l. l ++ y) c ∙ append_assoc (history s) x y),
    (
      a ++ b,
      f ∙ ap (λ l. l ++ b) e ∙ append_assoc (history s) a b,
      k ∙ ap (λ l. l ++ b) g ∙ append_assoc s.1.1.1 a b,
    ),
  )

  RunsFirst-then : (s t u : State) → RunsFirst s t → RunsFirst t u → RunsFirst s u
  RunsFirst-then s t u a ((y, d), b) =
      RunsFirst-Grows s t u a ((t.0.tasks ++ y, d ∙ append_assoc t.1.1.0 t.0.tasks y), b)

  run_loop-RunsFirst :
      (ws : List Wait) (s : State) → RunsFirst s (reached (run_loop (recorded p) ws s))
  unfolding run_loop
  run_loop-RunsFirst [] s =
      if-cases (λ r. RunsFirst s (reached r)) s.0.stopped (λ _. drained-RunsFirst s)
        (λ _. drained-RunsFirst s)
  run_loop-RunsFirst (interrupted ∷ ws) s =
      if-cases (λ r. RunsFirst s (reached r)) s.0.stopped (λ _. drained-RunsFirst s)
        (λ _.
          RunsFirst-then s (drain_tasks (recorded p) s)
            (reached (run_loop (recorded p) ws (drain_tasks (recorded p) s))) (drained-RunsFirst s)
            (run_loop-RunsFirst ws (drain_tasks (recorded p) s)))
  run_loop-RunsFirst (failed e ∷ ws) s =
      if-cases (λ r. RunsFirst s (reached r)) s.0.stopped (λ _. drained-RunsFirst s)
        (λ _. drained-RunsFirst s)
  run_loop-RunsFirst (ready es ∷ ws) s =
      if-cases (λ r. RunsFirst s (reached r)) s.0.stopped (λ _. drained-RunsFirst s)
        (λ _.
          RunsFirst-then s handled (reached (run_loop (recorded p) ws handled)) first
            (run_loop-RunsFirst ws handled))
    where
      handled : State
      handled = dispatch_all (recorded p) es (drain_tasks (recorded p) s)

      first : RunsFirst s handled
      first =
          RunsFirst-Grows s (drain_tasks (recorded p) s) handled (drained-RunsFirst s)
            (dispatch_all-Grows es (drain_tasks (recorded p) s))

  -- However `run` ends, and while it waits: the tasks that were posted before it began have run first,
  -- in the order of posting; and the tasks that have run, followed by those that wait, are these
  -- tasks and then those that tasks and handlers have posted since, each once and in the order of
  -- posting.
  pub run-history :
      (ws : List Wait) (l : EventLoop T) (w : W)
      → let (t, (_, (ran, posted))) = reached (run (recorded p) ws (l, (w, ([], [])))) in
        ((later : List T) × (ran ≡ l.tasks ++ later)) × (ran ++ t.tasks ≡ l.tasks ++ posted)
  unfolding run
  run-history ws l w =
      let (first, (more, kept, all)) =
        run_loop-RunsFirst ws (record l { stopped = false }, (w, ([], []))) in
      (first, kept ∙ ap (λ m. l.tasks ++ m) (sym all))
