-- ===== src/Session/Works.antt =====
-- What an operation of a session adds to the calls and takes from the queue.
use insist.Base.{
  ℕ, ◌≡◌, refl, sym, ap, ◌∙◌, arith, true, false, ◌&&◌, if-cases, List, [], ◌∷◌, ◌++◌, append-nil,
  append_assoc, Option, none, some,
}
use insist.Session.{
  Session, Call, ErrorCode, loop_remove, close_fd, on_close, not_connected, emit_for, update_events,
  fail_frames, drain_queue, release, close_from_loop, fail_and_close,
}
use insist.Session.Outgoing.{on_wire, unsent, on_wire-append, fail_on_wire}

-- From `s` to `t`: the calls that are `more`, and the bytes of the queue that they put on the wire or
-- that are `lost`.
pub record Works (s t : Session) (lost : List ℕ) : Type 0 where
  pub more : List Call
  pub calls : t.calls ≡ s.calls ++ more
  pub bytes : on_wire more ++ (unsent t.write_queue ++ lost) ≡ unsent s.write_queue
  pub handler : t.message_handler ≡ s.message_handler

-- An open session has lost nothing, and has not been opened.
pub record Steady (s t : Session) : Type 0 where
  pub lost : List ℕ
  pub works : Works s t lost
  pub kept : t.is_open ≡ true → lost ≡ []
  pub was_open : t.is_open ≡ true → s.is_open ≡ true

-- Nothing called, nothing sent.
idle-Works :
    (s t : Session)
    → t.calls ≡ s.calls
    → t.write_queue ≡ s.write_queue
    → t.message_handler ≡ s.message_handler
    → Works s t []
idle-Works s t c q h = record {
  more = [];
  calls = c ∙ sym (append-nil s.calls);
  bytes = append-nil _ ∙ ap unsent q;
  handler = h;
}

pub idle-Steady :
    (s t : Session)
    → t.calls ≡ s.calls
    → t.write_queue ≡ s.write_queue
    → t.message_handler ≡ s.message_handler
    → t.is_open ≡ s.is_open
    → Steady s t
idle-Steady s t c q h o = record {
  lost = [];
  works = idle-Works s t c q h;
  kept = λ _. refl;
  was_open = λ up. sym o ∙ up;
}

Works-trans : {s t u : Session} {k l : List ℕ} → Works s t k → Works t u l → Works s u (l ++ k)
Works-trans {s} {t} {u} {k} {l} p q = record {
  more = p.more ++ q.more;
  calls = q.calls ∙ ap (λ c. c ++ q.more) p.calls ∙ append_assoc s.calls p.more q.more;
  bytes =
      ap (λ w. w ++ (unsent u.write_queue ++ (l ++ k))) (on_wire-append p.more q.more)
      ∙ append_assoc (on_wire p.more) (on_wire q.more) _
      ∙ ap (λ w. on_wire p.more ++ w)
          (ap (λ w. on_wire q.more ++ w) (sym (append_assoc (unsent u.write_queue) l k))
            ∙ sym (append_assoc (on_wire q.more) (unsent u.write_queue ++ l) k)
            ∙ ap (λ w. w ++ k) q.bytes)
      ∙ p.bytes;
  handler = q.handler ∙ p.handler;
}

pub Steady-trans : {s t u : Session} → Steady s t → Steady t u → Steady s u
Steady-trans p q = record {
  lost = q.lost ++ p.lost;
  works = Works-trans p.works q.works;
  kept = λ up. ap (λ l. l ++ p.lost) (q.kept up) ∙ p.kept (q.was_open up);
  was_open = λ up. p.was_open (q.was_open up);
}

-- A session that ends up closed may have lost what it likes.
shut-Steady : {s t : Session} {lost : List ℕ} → t.is_open ≡ false → Works s t lost → Steady s t
shut-Steady {lost = lost} down w = record {
  lost = lost;
  works = w;
  kept = λ up. cc;
  was_open = λ up. cc;
}

emit_for-Works :
    (o : Option ℕ) (call : ℕ → Call) (s : Session)
    → ((n : ℕ) → on_wire (call n ∷ []) ≡ [])
    → Works s (emit_for o call s) []
emit_for-Works none call s quiet = idle-Works s s refl refl refl
emit_for-Works (some n) call s quiet = record {
  more = call n ∷ [];
  calls = refl;
  bytes = ap (λ w. w ++ (unsent s.write_queue ++ [])) (quiet n) ∙ append-nil _;
  handler = refl;
}

pub emit_for-Steady :
    (o : Option ℕ) (call : ℕ → Call) (s : Session)
    → ((n : ℕ) → on_wire (call n ∷ []) ≡ [])
    → Steady s (emit_for o call s)
emit_for-Steady none call s quiet = idle-Steady s s refl refl refl refl
emit_for-Steady (some n) call s quiet = record {
  lost = [];
  works = emit_for-Works (some n) call s quiet;
  kept = λ _. refl;
  was_open = λ up. up;
}

pub update_events-Steady : (s : Session) → Steady s (update_events s)
unfolding update_events
update_events-Steady s =
    if-cases (Steady s) (s.registered && s.is_open) (λ _. emit_for-Steady s.fd _ s (λ n. refl))
      (λ _. idle-Steady s s refl refl refl refl)

drain_queue-Works : (e : ErrorCode) (s : Session) → Works s (drain_queue e s) (unsent s.write_queue)
unfolding drain_queue
drain_queue-Works e s = record {
  more = fail_frames e s.write_queue;
  calls = refl;
  bytes = ap (λ w. w ++ unsent s.write_queue) (fail_on_wire e s.write_queue);
  handler = refl;
}

release-Works : (s : Session) → Works s (release s) []
unfolding release
release-Works s =
    Works-trans
      (if-cases (λ t. Works s t []) s.registered
        (λ _. Works-trans shut (emit_for-Works s.fd loop_remove _ (λ n. refl))) (λ _. shut))
      (emit_for-Works s.fd close_fd _ (λ n. refl))
  where
    shut : Works s (record s { is_open = false; fd = none; registered = false }) []
    shut = idle-Works s _ refl refl refl

pub close_from_loop-shut : (s : Session) → (close_from_loop s).is_open ≡ false
unfolding close_from_loop release drain_queue
close_from_loop-shut s = ground arith

-- What closing a session loses is its queue, if it is open.
close_from_loop-Works : (s : Session) → (lost : List ℕ) × Works s (close_from_loop s) lost
unfolding close_from_loop
close_from_loop-Works s =
    if-cases (λ t. (lost : List ℕ) × Works s t lost) s.is_open
      (λ _. (
        unsent (release s).write_queue ++ [],
        Works-trans (Works-trans (release-Works s) (drain_queue-Works not_connected (release s)))
            (emit_for-Works s.close_handler on_close _ (λ n. refl)),
      ))
      (λ _. ([], idle-Works s s refl refl refl))

pub close_from_loop-Steady : (s : Session) → Steady s (close_from_loop s)
close_from_loop-Steady s = shut-Steady (close_from_loop-shut s) (close_from_loop-Works s).1

pub fail_and_close-Steady : (e : ErrorCode) (s : Session) → Steady s (fail_and_close e s)
unfolding fail_and_close
fail_and_close-Steady e s =
    shut-Steady (close_from_loop-shut (drain_queue e s))
      (Works-trans (drain_queue-Works e s) (close_from_loop-Works (drain_queue e s)).1)
