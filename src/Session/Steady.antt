-- ===== src/Session/Steady.antt =====
-- Every operation of a session keeps its calls and the bytes of its queue together.
use mathlib.Core.List.{append_cancel_left}
use insist.Base.{
  ℕ, zero, suc, ◌+◌, ◌≡◌, refl, sym, ap, ◌∙◌, arith, ◌==◌, take, drop, false, ◌&&◌, ◌||◌, ltb, not,
  if◌then◌else◌, if-cases, Bool-cases, inl, inr, List, [], ◌∷◌, ◌++◌, append-nil, append_assoc,
  length, Option, none, some,
}
use insist.Session.{
  Session, OutgoingFrame, Call, Events, socket_took, on_message, on_write, no_error, os, emit_for,
  close_from_loop, Receives, ReadEnd, drained, at_end, broken, receive, Next, wait, refuse, deliver,
  next_message, act, read_frames, after_receive, async_read, Sends, sent, wrote, write_loop,
  async_write, handle_events,
}
use insist.Session.Outgoing.{on_wire, unsent, outgoing, on_wire-append, wrote-outgoing}
use insist.Session.Works.{
  Works, Steady, idle-Steady, Steady-trans, emit_for-Steady, update_events-Steady,
  close_from_loop-Steady, fail_and_close-Steady,
}

act-Steady :
    (again : Session → Session) (n : Next) (s : Session)
    → ((t : Session) → Steady t (again t))
    → Steady s (act again n s)
unfolding act
act-Steady again wait s h = idle-Steady s s refl refl refl refl
act-Steady again (refuse e buffer) s h =
    Steady-trans (idle-Steady s (record s { read_buffer = buffer }) refl refl refl refl)
      (fail_and_close-Steady e (record s { read_buffer = buffer }))
act-Steady again (deliver m rest) s h =
    Steady-trans
      (Steady-trans (idle-Steady s (record s { read_buffer = rest }) refl refl refl refl) (
        emit_for-Steady s.message_handler (λ x. on_message x m) (record s { read_buffer = rest })
          (λ n. refl)))
      (h _)

read_frames-Steady : (fuel : ℕ) (s : Session) → Steady s (read_frames fuel s)
unfolding read_frames
read_frames-Steady zero s = idle-Steady s s refl refl refl refl
read_frames-Steady (suc fuel) s =
    if-cases (Steady s) s.is_open
      (λ _. act-Steady (read_frames fuel) (next_message s.read_buffer) s (read_frames-Steady fuel))
      (λ _. idle-Steady s s refl refl refl refl)

after_receive-Steady : (r : List ℕ × ReadEnd) (s : Session) → Steady s (after_receive r s)
unfolding after_receive
after_receive-Steady (buffer, end) s =
    Steady-trans (idle-Steady s filled refl refl refl refl) (rest end)
  where
    filled : Session
    filled = record s { read_buffer = buffer }

    rest : (end : ReadEnd) → Steady filled (after_receive (buffer, end) s)
    rest drained = read_frames-Steady (suc (length buffer)) filled
    rest at_end = close_from_loop-Steady filled
    rest (broken e) = fail_and_close-Steady (os e) filled

async_read-Steady : (r : Receives) (s : Session) → Steady s (async_read r s)
unfolding async_read
async_read-Steady r s =
    if-cases (Steady s) s.is_open (λ _. after_receive-Steady (receive r s.read_buffer) s)
      (λ _. idle-Steady s s refl refl refl refl)

-- Where the stream of bytes stays the same.
same_outgoing-Works :
    (s t : Session) (more : List Call)
    → t.calls ≡ s.calls ++ more
    → t.message_handler ≡ s.message_handler
    → outgoing t ≡ outgoing s
    → Works s t []
unfolding outgoing
same_outgoing-Works s t more c h e = record {
  more = more;
  calls = c;
  bytes =
      ap (λ w. on_wire more ++ w) (append-nil (unsent t.write_queue))
      ∙ append_cancel_left (on_wire s.calls) _ _ (
          sym (append_assoc (on_wire s.calls) (on_wire more) (unsent t.write_queue))
          ∙ ap (λ w. w ++ unsent t.write_queue)
              (sym (on_wire-append s.calls more) ∙ ap on_wire (sym c))
          ∙ e);
  handler = h;
}

-- What `wrote` calls.
wrote_calls :
    (n : ℕ) (f : OutgoingFrame) (rest : List OutgoingFrame) (s : Session)
    → (more : List Call) × ((wrote n f rest s).calls ≡ s.calls ++ more)
      × ((wrote n f rest s).message_handler ≡ s.message_handler)
      × ((wrote n f rest s).is_open ≡ s.is_open)
unfolding wrote
wrote_calls n f rest s =
    if-cases
      (λ (t : Session).
        (more : List Call) × (t.calls ≡ s.calls ++ more)
        × (t.message_handler ≡ s.message_handler)
        × (t.is_open ≡ s.is_open))
      (f.written + n == length f.bytes) (λ _. finished f.handler)
      (λ _. (took ∷ [], refl, refl, refl))
  where
    took : Call
    took = socket_took (take n (drop f.written f.bytes))

    finished :
        (o : Option ℕ)
        → let t =
            emit_for o
              (λ h. on_write h no_error)
              (record s { calls = s.calls ++ took ∷ []; write_queue = rest }) in
          (more : List Call) × (t.calls ≡ s.calls ++ more)
          × (t.message_handler ≡ s.message_handler)
          × (t.is_open ≡ s.is_open)
    finished none = (took ∷ [], refl, refl, refl)
    finished (some h) = (took ∷ on_write h no_error ∷ [], append_assoc s.calls _ _, refl, refl)

pub wrote-Steady :
    (n : ℕ) (f : OutgoingFrame) (rest : List OutgoingFrame) (s : Session)
    → s.write_queue ≡ f ∷ rest
    → Steady s (wrote n f rest s)
wrote-Steady n f rest s q =
    let (more, calls, handler, same_open) = wrote_calls n f rest s in
    record {
      lost = [];
      works =
          same_outgoing-Works s (wrote n f rest s) more calls handler (wrote-outgoing n f rest s q);
      kept = λ _. refl;
      was_open = λ up. sym same_open ∙ up;
    }

write_loop-Steady :
    (w : Sends) (q : List OutgoingFrame) (s : Session)
    → s.write_queue ≡ q
    → Steady s (write_loop w q s)
unfolding write_loop
write_loop-Steady w [] s q = update_events-Steady s
write_loop-Steady Sends.would_block (f ∷ rest) s q = update_events-Steady s
write_loop-Steady (Sends.failed e) (f ∷ rest) s q = fail_and_close-Steady (os e) s
write_loop-Steady (Sends.interrupted more) (f ∷ rest) s q = write_loop-Steady more (f ∷ rest) s q
write_loop-Steady (sent n e more) (f ∷ rest) s q = elim (Bool-cases (ltb 0 n)) [
  | inl p ↦
      rw (p, write_loop)
        (Steady-trans (wrote-Steady n f rest s q)
          (write_loop-Steady more (wrote n f rest s).write_queue (wrote n f rest s) refl))
  | inr p ↦ rw (p, write_loop) (fail_and_close-Steady (os e) s)
]

pub async_write-Steady : (w : Sends) (s : Session) → Steady s (async_write w s)
unfolding async_write
async_write-Steady w s =
    if-cases (Steady s) s.is_open (λ _. write_loop-Steady w s.write_queue s refl)
      (λ _. idle-Steady s s refl refl refl refl)

pub handle_events-Steady :
    (e : Events) (r : Receives) (w : Sends) (s : Session) → Steady s (handle_events e r w s)
unfolding handle_events
handle_events-Steady e r w s =
    if-cases (Steady s) (not s.is_open) (λ _. unchanged s)
      (λ _.
        if-cases (Steady s) (e.error || e.hang_up) (λ _. close_from_loop-Steady s)
          (λ _. Steady-trans (Steady-trans reading writing) closing))
  where
    unchanged : (t : Session) → Steady t t
    unchanged t = idle-Steady t t refl refl refl refl

    read : Session
    read = if e.readable then async_read r s else s

    reading : Steady s read
    reading = if-cases (Steady s) e.readable (λ _. async_read-Steady r s) (λ _. unchanged s)

    written : Session
    written = if read.is_open && e.writable then async_write w read else read

    writing : Steady read written
    writing =
        if-cases (Steady read) (read.is_open && e.writable) (λ _. async_write-Steady w read)
          (λ _. unchanged read)

    closing :
        Steady written
          (if written.is_open && e.read_hang_up then close_from_loop written else written)
    closing =
        if-cases (Steady written) (written.is_open && e.read_hang_up)
          (λ _. close_from_loop-Steady written) (λ _. unchanged written)

-- A closed session meets nothing more.
pub close_from_loop_closed : (s : Session) → s.is_open ≡ false → close_from_loop s ≡ s
unfolding close_from_loop
close_from_loop_closed s down = ground arith

pub handle_events_closed :
    (e : Events) (r : Receives) (w : Sends) (s : Session)
    → s.is_open ≡ false
    → handle_events e r w s ≡ s
unfolding handle_events
handle_events_closed e r w s down =
    if-cases (λ t. t ≡ s) (not s.is_open) (λ _. refl) (λ up. absurd (ground arith))
