-- ===== src/Connection/Moves.antt =====
-- What a move of one end does to the messages in both directions.
use insist.Base.{
  ℕ, ◌≡◌, refl, sym, ap, subst, ◌∙◌, Bool, true, false, if◌then◌else◌, Bool-cases, inl, inr, List,
  [], ◌∷◌, ◌++◌, append-nil, append_assoc, Option, none, some,
}
use insist.Message.{RpcMessage, IsTyped}
use insist.Wire.Total.{IsNonNegative}
use insist.Session.{
  Session, Events, Receives, Sends, on_write, not_connected, emit_for, handle_events, Task,
  send_frame, close_session, run_task,
}
use insist.Session.Outgoing.{unsent, unsent-append}
use insist.Session.Segments.{arrivals}
use insist.Session.Delivery.{IsSendable, frame}
use insist.Session.Works.{Steady-trans, update_events-Steady, close_from_loop-Steady}
use insist.Session.Steady.{
  async_write-Steady, handle_events-Steady, close_from_loop_closed, handle_events_closed,
}
use insist.Session.Hearing.{Hearing, Hearing-Silent, reads, handle_events-Hearing}
use insist.Session.Silent.{
  Silent, emit_for-Silent, queued, run_task-close_session, run_task-open, run_task-shut,
  run_task-Silent,
}
use insist.Connection.{Port, new_bytes, gets, say, Move, says, hangs_up, runs, dispatches}
use insist.Connection.Saying.{refused, accepted, say-cases}
use insist.Connection.Flow.{Flow, frames, frames-append, new_bytes-more, Steady-owed, Hearing-say}

same_bytes : (s : Session) → new_bytes s s ≡ []
same_bytes s = new_bytes-more s s [] (sym (append-nil s.calls))

-- What the end owes when a task has run.
run_task-owed :
    (t : Task) (others : List Task) (w : Sends) (s : Session) (later : List ℕ)
    → (s.is_open ≡ true → later ≡ unsent s.write_queue ++ frames (t ∷ others))
    → (left : List ℕ) × (later ≡ new_bytes s (run_task t w s) ++ left)
      × ((run_task t w s).is_open ≡ true
          → left ≡ unsent (run_task t w s).write_queue ++ frames others)
run_task-owed close_session others w s later owed =
    subst
      (λ t.
        (left : List ℕ) × (later ≡ new_bytes s t ++ left)
        × (t.is_open ≡ true → left ≡ unsent t.write_queue ++ frames others))
      (sym (run_task-close_session w s))
      (Steady-owed (frames others) later (close_from_loop-Steady s) owed
        (λ down. ap (new_bytes s) (close_from_loop_closed s down) ∙ same_bytes s))
run_task-owed (send_frame bytes handler) others w s later owed = elim (Bool-cases s.is_open) [
  | inl up ↦
      subst
        (λ t.
          (left : List ℕ) × (later ≡ new_bytes s t ++ left)
          × (t.is_open ≡ true → left ≡ unsent t.write_queue ++ frames others))
        (sym (run_task-open bytes handler w s up))
        (unfold new_bytes in
          Steady-owed {s = queued bytes handler s} (frames others) later
            (Steady-trans (update_events-Steady (queued bytes handler s)) (async_write-Steady w _))
            (λ _. owed up ∙ joined) (λ down. cc))
  | inr down ↦
      subst
        (λ t.
          (left : List ℕ) × (later ≡ new_bytes s t ++ left)
          × (t.is_open ≡ true → left ≡ unsent t.write_queue ++ frames others))
        (sym (run_task-shut bytes handler w s down)) (told handler down)
]
  where
    joined :
        unsent s.write_queue ++ (bytes ++ frames others)
        ≡ unsent (queued bytes handler s).write_queue ++ frames others
    joined =
        sym (append_assoc (unsent s.write_queue) bytes (frames others))
        ∙ ap (λ b. (unsent s.write_queue ++ b) ++ frames others) (sym (append-nil bytes))
        ∙ ap (λ b. b ++ frames others) (sym (unsent-append s.write_queue _))

    told :
        (o : Option ℕ)
        → s.is_open ≡ false
        → let t = emit_for o (λ h. on_write h not_connected) s in
          (left : List ℕ) × (later ≡ new_bytes s t ++ left)
          × (t.is_open ≡ true → left ≡ unsent t.write_queue ++ frames others)
    told none down = (later, ap (λ b. b ++ later) (sym (same_bytes s)), λ up. cc)
    told (some h) down = (
      later,
      ap (λ b. b ++ later) (sym (new_bytes-more s _ (on_write h not_connected ∷ []) refl)),
      λ up. cc,
    )

module _ (x y : Port) where
  -- What `x` says reaches `y` later.
  says-Flow :
      (m : RpcMessage) (handler : Option ℕ)
      → IsTyped m
      → IsNonNegative m.status
      → Flow x y
      → Flow (say m handler x) y
  says-Flow m handler typed status f =
      say-cases (λ p. Flow p y) m handler x (λ _. told handler)
        (λ fits. posted (record { typed = typed; status = status; fits = fits }))
    where
      told : (o : Option ℕ) → Flow (refused o x) y
      told none = f
      told (some h) = record {
        later = f.later;
        hearing = f.hearing;
        owed = f.owed;
        handler = f.handler;
      }

      posted : IsSendable m → Flow (accepted m handler x) y
      posted sendable = record {
        later = f.later ++ frame m;
        hearing =
            subst (λ b. Hearing (x.said ++ m ∷ []) b y.session)
              (append_assoc y.arriving f.later (frame m))
              (Hearing-say x.said (y.arriving ++ f.later) m sendable f.hearing);
        owed = λ up.
            ap (λ b. b ++ frame m) (f.owed up)
            ∙ append_assoc (unsent x.session.write_queue) (frames x.posted) (frame m)
            ∙ ap (λ b. unsent x.session.write_queue ++ (frames x.posted ++ b))
                (sym (append-nil (frame m)))
            ∙ ap (λ b. unsent x.session.write_queue ++ b)
                (sym (frames-append x.posted (send_frame (frame m) handler ∷ [])));
        handler = f.handler;
      }

  hangs_up-Flow : Flow x y → Flow (record x { posted = x.posted ++ close_session ∷ [] }) y
  hangs_up-Flow f = record {
    later = f.later;
    hearing = f.hearing;
    owed = λ up.
        f.owed up
        ∙ ap (λ b. unsent x.session.write_queue ++ b)
            (sym (frames-append x.posted (close_session ∷ []) ∙ append-nil _));
    handler = f.handler;
  }

  -- The session of `x` goes on to `t`, and its tasks to `others`.
  goes_on :
      (t : Session) (others : List Task)
      → (f : Flow x y)
      → (left : List ℕ) × (f.later ≡ new_bytes x.session t ++ left)
        × (t.is_open ≡ true → left ≡ unsent t.write_queue ++ frames others)
      → (arriving : List ℕ)
      → Flow
          (record x { session = t; posted = others; arriving = arriving })
          (gets (new_bytes x.session t) y)
  goes_on t others f (left, split, owed) arriving = record {
    later = left;
    hearing =
        subst (λ b. Hearing x.said b y.session)
          (ap (λ l. y.arriving ++ l) split
            ∙ sym (append_assoc y.arriving (new_bytes x.session t) left))
          f.hearing;
    owed = owed;
    handler = f.handler;
  }

  runs-Flow :
      (t : Task) (others : List Task) (w : Sends)
      → x.posted ≡ t ∷ others
      → Flow x y
      → Flow
          (record x { session = run_task t w x.session; posted = others })
          (gets (new_bytes x.session (run_task t w x.session)) y)
  runs-Flow t others w e f =
      goes_on (run_task t w x.session) others f
        (run_task-owed t others w x.session f.later
          (λ up. f.owed up ∙ ap (λ ts. unsent x.session.write_queue ++ frames ts) e))
        x.arriving

  dispatches-Flow :
      (e : Events) (r : Receives) (w : Sends) (arriving : List ℕ)
      → Flow x y
      → Flow
          (record x { session = handle_events e r w x.session; arriving = arriving })
          (gets (new_bytes x.session (handle_events e r w x.session)) y)
  dispatches-Flow e r w arriving f =
      goes_on (handle_events e r w x.session) x.posted f
        (Steady-owed (frames x.posted) f.later (handle_events-Steady e r w x.session) f.owed
          (λ down.
            ap (new_bytes x.session) (handle_events_closed e r w x.session down)
            ∙ same_bytes x.session))
        arriving

  -- What `x` hears in the other direction.
  hears_on :
      (t : Session) (posted : List Task) (said : List RpcMessage) (bytes : List ℕ)
      → Silent x.session t
      → Flow y x
      → Flow
          (record y { arriving = bytes })
          (record { session = t; posted = posted; said = said; arriving = x.arriving })
  hears_on t posted said bytes silent f = record {
    later = f.later;
    hearing = Hearing-Silent y.said (x.arriving ++ f.later) silent f.hearing;
    owed = f.owed;
    handler = (f.handler.0, silent.handler ∙ f.handler.1);
  }

  says-back : (m : RpcMessage) (handler : Option ℕ) → Flow y x → Flow y (say m handler x)
  says-back m handler f =
      say-cases (λ p. Flow y p) m handler x
        (λ _.
          hears_on _ x.posted x.said y.arriving (emit_for-Silent handler _ x.session (λ n. refl)) f)
        (λ _. record { later = f.later; hearing = f.hearing; owed = f.owed; handler = f.handler })

  runs-back :
      (t : Task) (others : List Task) (w : Sends)
      → Flow y x
      → Flow
          (gets (new_bytes x.session (run_task t w x.session)) y)
          (record x { session = run_task t w x.session; posted = others })
  runs-back t others w f =
      hears_on (run_task t w x.session) others x.said _ (run_task-Silent t w x.session) f

  dispatches-back :
      (e : Events) (r : Receives) (w : Sends) (coming : List ℕ)
      → x.arriving ≡ arrivals r ++ coming
      → Flow y x
      → Flow (gets (new_bytes x.session (handle_events e r w x.session)) y) (record x {
        session = handle_events e r w x.session;
        arriving = if reads e x.session then coming else x.arriving;
      })
  dispatches-back e r w coming front f = record {
    later = f.later;
    hearing =
        subst (λ b. Hearing y.said b (handle_events e r w x.session)) (still (reads e x.session))
          (handle_events-Hearing y.said f.handler.0 e r w (coming ++ f.later) x.session f.handler.1
            (subst (λ b. Hearing y.said b x.session)
              (ap (λ b. b ++ f.later) front ∙ append_assoc (arrivals r) coming f.later) f.hearing));
    owed = f.owed;
    handler = (f.handler.0, (handle_events-Steady e r w x.session).works.handler ∙ f.handler.1);
  }
    where
      still :
          (c : Bool)
          → (if c then coming ++ f.later else arrivals r ++ (coming ++ f.later))
            ≡ (if c then coming else x.arriving) ++ f.later
      still true = refl
      still false =
          sym (append_assoc (arrivals r) coming f.later) ∙ ap (λ b. b ++ f.later) (sym front)

-- Every move keeps the messages in both directions together.
pub Move-Flow : {x y x' y' : Port} → Move x y x' y' → Flow x y → Flow y x → Flow x' y' × Flow y' x'
Move-Flow {x} {y} (says m handler typed status) f g =
    (says-Flow x y m handler typed status f, says-back x y m handler g)
Move-Flow {x} {y} hangs_up f g = (
  hangs_up-Flow x y f,
  record { later = g.later; hearing = g.hearing; owed = g.owed; handler = g.handler },
)
Move-Flow {x} {y} (runs t others w e) f g =
    (runs-Flow x y t others w e f, runs-back x y t others w g)
Move-Flow {x} {y} (dispatches e r w coming front) f g =
    (dispatches-Flow x y e r w _ f, dispatches-back x y e r w coming front g)
