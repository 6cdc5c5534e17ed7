-- ===== src/Session/Outgoing.antt =====
-- The writing side: what `::send` took is a prefix of the frames in the order of the queue.
use insist.Base.{
  ℕ, zero, suc, ◌+◌, ◌≡◌, refl, sym, ap, subst, ◌∙◌, arith, true, false, ◌&&◌, ltb, ◌==◌, not,
  if-cases, Bool-cases, inl, inr, ◌⊎◌, List, [], ◌∷◌, ◌++◌, append-nil, append_assoc, length, take,
  drop, take-append-drop, Option, none, some,
}
use mathlib.Core.Bool.{false≢true}
use insist.Session.{
  Session, Call, ErrorCode, OutgoingFrame, loop_add, loop_modify, loop_remove, close_fd,
  socket_took, on_message, on_write, on_close, os, not_connected, emit_for, update_events,
  fail_frames, drain_queue, release, close_from_loop, fail_and_close, Sends, sent, wrote,
  write_loop, async_write, send_frame, run_task,
}

-- The bytes that the socket has taken so far.
abbrev pub on_wire : List Call → List ℕ
on_wire [] = []
on_wire (socket_took bytes ∷ cs) = bytes ++ on_wire cs
on_wire (_ ∷ cs) = on_wire cs

-- The bytes that still wait in the queue.
abbrev pub unsent : List OutgoingFrame → List ℕ
unsent [] = []
unsent (f ∷ fs) = drop f.written f.bytes ++ unsent fs

-- The bytes that have been taken, followed by those that wait.
unfoldable pub outgoing : Session → List ℕ
outgoing s = on_wire s.calls ++ unsent s.write_queue

pub on_wire-append : (cs ds : List Call) → on_wire (cs ++ ds) ≡ on_wire cs ++ on_wire ds
on_wire-append [] ds = refl
on_wire-append (loop_add fd e ∷ cs) ds = on_wire-append cs ds
on_wire-append (loop_modify fd e ∷ cs) ds = on_wire-append cs ds
on_wire-append (loop_remove fd ∷ cs) ds = on_wire-append cs ds
on_wire-append (close_fd fd ∷ cs) ds = on_wire-append cs ds
on_wire-append (socket_took b ∷ cs) ds =
    ap (λ t. b ++ t) (on_wire-append cs ds) ∙ sym (append_assoc b (on_wire cs) (on_wire ds))
on_wire-append (on_message h m ∷ cs) ds = on_wire-append cs ds
on_wire-append (on_write h e ∷ cs) ds = on_wire-append cs ds
on_wire-append (on_close h ∷ cs) ds = on_wire-append cs ds

wire_quiet :
    (o : Option ℕ) (call : ℕ → Call) (s : Session)
    → ((n : ℕ) → on_wire (call n ∷ []) ≡ [])
    → on_wire (emit_for o call s).calls ≡ on_wire s.calls
wire_quiet none call s q = refl
wire_quiet (some n) call s q =
    on_wire-append s.calls (call n ∷ []) ∙ ap (λ t. on_wire s.calls ++ t) (q n) ∙ append-nil _

quiet-outgoing :
    (o : Option ℕ) (call : ℕ → Call) (s : Session)
    → ((n : ℕ) → on_wire (call n ∷ []) ≡ [])
    → outgoing (emit_for o call s) ≡ outgoing s
unfolding outgoing
quiet-outgoing none call s q = refl
quiet-outgoing (some n) call s q =
    ap (λ t. t ++ unsent s.write_queue)
      (on_wire-append s.calls (call n ∷ []) ∙ ap (λ t. on_wire s.calls ++ t) (q n) ∙ append-nil _)

update_events-outgoing : (s : Session) → outgoing (update_events s) ≡ outgoing s
unfolding update_events
update_events-outgoing s =
    if-cases (λ t. outgoing t ≡ outgoing s) (s.registered && s.is_open)
      (λ _. quiet-outgoing s.fd _ s (λ n. refl)) (λ _. refl)

drop-nil : (n : ℕ) → drop {A = ℕ} n [] ≡ []
drop-nil zero = refl
drop-nil (suc n) = refl

drop-drop : (n k : ℕ) (xs : List ℕ) → drop n (drop k xs) ≡ drop (k + n) xs
drop-drop n zero xs = ap (λ t. drop t xs) (omega arith)
drop-drop n (suc k) [] = drop-nil n ∙ sym (drop-nil (suc k + n))
drop-drop n (suc k) (x ∷ xs) = drop-drop n k xs ∙ sym (ap (λ t. drop t (x ∷ xs)) one_more)
  where
    one_more : suc k + n ≡ suc (k + n)
    one_more = omega arith

drop_all : (xs : List ℕ) → drop (length xs) xs ≡ []
drop_all [] = refl
drop_all (x ∷ xs) = drop_all xs

-- `::send` moves bytes from the queue to the wire.
pub wrote-outgoing :
    (n : ℕ) (f : OutgoingFrame) (rest : List OutgoingFrame) (s : Session)
    → s.write_queue ≡ f ∷ rest
    → outgoing (wrote n f rest s) ≡ outgoing s
unfolding wrote outgoing
wrote-outgoing n f rest s q =
    if-cases (λ t. outgoing t ≡ outgoing s) (f.written + n == length f.bytes)
      (λ done. quiet-outgoing f.handler _ _ (λ k. refl) ∙ moved rest (whole (ground arith)))
      (λ _. moved (record f { written = f.written + n } ∷ rest) refl)
  where
    part : List ℕ
    part = take n (drop f.written f.bytes)

    left : List ℕ
    left = drop (f.written + n) f.bytes

    whole : f.written + n ≡ length f.bytes → unsent rest ≡ left ++ unsent rest
    whole e = ap (λ t. t ++ unsent rest) (sym (ap (λ k. drop k f.bytes) e ∙ drop_all f.bytes))

    moved :
        (queue : List OutgoingFrame)
        → unsent queue ≡ left ++ unsent rest
        → outgoing (record s {
          write_queue = queue;
          calls = s.calls ++ socket_took (take n (drop f.written f.bytes)) ∷ [];
        })
          ≡ outgoing s
    moved queue e =
        ap (λ t. t ++ unsent queue) (on_wire-append s.calls (socket_took part ∷ []))
        ∙ append_assoc (on_wire s.calls) (part ++ []) (unsent queue)
        ∙ ap (λ t. on_wire s.calls ++ t) rejoined
        ∙ ap (λ t. on_wire s.calls ++ unsent t) (sym q)
      where
        rejoined : (part ++ []) ++ unsent queue ≡ drop f.written f.bytes ++ unsent rest
        rejoined =
            ap (λ t. t ++ unsent queue) (append-nil part)
            ∙ ap (λ t. part ++ t) e
            ∙ sym (append_assoc part left (unsent rest))
            ∙ ap (λ t. (part ++ t) ++ unsent rest) (sym (drop-drop n f.written f.bytes))
            ∙ ap (λ t. t ++ unsent rest) (take-append-drop n (drop f.written f.bytes))

-- The bytes `lost` of a connection that closes, none if it stays open.
abbrev pub SendsOn : Session → Session → Type 0
SendsOn s t =
    (lost : List ℕ) × (outgoing t ++ lost ≡ outgoing s) × ((t.is_open ≡ false) ⊎ (lost ≡ []))

stay : (s t : Session) → outgoing t ≡ outgoing s → SendsOn s t
stay s t e = ([], append-nil _ ∙ e, inr refl)

pub fail_on_wire : (e : ErrorCode) (fs : List OutgoingFrame) → on_wire (fail_frames e fs) ≡ []
unfolding fail_frames
fail_on_wire e [] = refl
fail_on_wire e (f ∷ fs) = ground (arith, fail_on_wire e fs)

drain_queue-outgoing : (e : ErrorCode) (s : Session) → outgoing (drain_queue e s) ≡ on_wire s.calls
unfolding drain_queue outgoing
drain_queue-outgoing e s =
    append-nil _
    ∙ on_wire-append s.calls (fail_frames e s.write_queue)
    ∙ ap (λ t. on_wire s.calls ++ t) (fail_on_wire e s.write_queue)
    ∙ append-nil _

release-on_wire : (s : Session) → on_wire (release s).calls ≡ on_wire s.calls
unfolding release
release-on_wire s =
    wire_quiet s.fd close_fd _ (λ n. refl)
    ∙ if-cases (λ (t : Session). on_wire t.calls ≡ on_wire s.calls) s.registered
        (λ _. wire_quiet s.fd loop_remove _ (λ n. refl)) (λ _. refl)

fail_and_close-outgoing :
    (e : ErrorCode) (s : Session) → outgoing (fail_and_close e s) ≡ on_wire s.calls
unfolding fail_and_close close_from_loop drain_queue
fail_and_close-outgoing e s =
    if-cases (λ t. outgoing t ≡ on_wire s.calls) (drain_queue e s).is_open
      (λ _.
        quiet-outgoing s.close_handler on_close _ (λ n. refl)
        ∙ drain_queue-outgoing not_connected (release (drain_queue e s))
        ∙ release-on_wire (drain_queue e s)
        ∙ drained_wire)
      (λ _. drain_queue-outgoing e s)
  where
    drained_wire : on_wire (drain_queue e s).calls ≡ on_wire s.calls
    drained_wire = sym (append-nil _) ∙ unfold outgoing drain_queue in drain_queue-outgoing e s

pub fail_and_close-shut : (e : ErrorCode) (s : Session) → (fail_and_close e s).is_open ≡ false
unfolding fail_and_close close_from_loop drain_queue release
fail_and_close-shut e s = ground arith

fail_and_close-SendsOn : (e : ErrorCode) (s : Session) → SendsOn s (fail_and_close e s)
unfolding outgoing
fail_and_close-SendsOn e s = (
  unsent s.write_queue,
  ap (λ t. t ++ unsent s.write_queue) (fail_and_close-outgoing e s),
  inl (fail_and_close-shut e s),
)

pub write_loop-SendsOn :
    (w : Sends) (q : List OutgoingFrame) (s : Session)
    → s.write_queue ≡ q
    → SendsOn s (write_loop w q s)
unfolding write_loop
write_loop-SendsOn w [] s q = stay s _ (update_events-outgoing s)
write_loop-SendsOn Sends.would_block (f ∷ rest) s q = stay s _ (update_events-outgoing s)
write_loop-SendsOn (Sends.failed e) (f ∷ rest) s q = fail_and_close-SendsOn (os e) s
write_loop-SendsOn (Sends.interrupted more) (f ∷ rest) s q = write_loop-SendsOn more (f ∷ rest) s q
write_loop-SendsOn (sent n e more) (f ∷ rest) s q = elim (Bool-cases (ltb 0 n)) [
  | inl p ↦
      rw (p, write_loop)
        (subst
          (λ o.
            let t = write_loop more (wrote n f rest s).write_queue (wrote n f rest s) in
            (lost : List ℕ) × (outgoing t ++ lost ≡ o) × ((t.is_open ≡ false) ⊎ (lost ≡ [])))
          (wrote-outgoing n f rest s q)
          (write_loop-SendsOn more (wrote n f rest s).write_queue (wrote n f rest s) refl))
  | inr p ↦ rw (p, write_loop) (fail_and_close-SendsOn (os e) s)
]

-- `async_write` sends the bytes of the queue in their order: what has been taken and what still waits
-- is the same stream as before, if the session stays open, and else a prefix of it.
pub async_write-SendsOn : (w : Sends) (s : Session) → SendsOn s (async_write w s)
unfolding async_write
async_write-SendsOn w s =
    if-cases (λ t. SendsOn s t) s.is_open (λ _. write_loop-SendsOn w s.write_queue s refl)
      (λ _. stay s s refl)

pub unsent-append : (fs gs : List OutgoingFrame) → unsent (fs ++ gs) ≡ unsent fs ++ unsent gs
unsent-append [] gs = refl
unsent-append (f ∷ fs) gs =
    ap (λ t. drop f.written f.bytes ++ t) (unsent-append fs gs)
    ∙ sym (append_assoc (drop f.written f.bytes) (unsent fs) (unsent gs))

-- The task that `send` posts puts its frame behind the stream of an open session. Afterwards the
-- stream is the same, or the session is closed and the end of the stream is lost.
pub run_task-outgoing :
    (bytes : List ℕ) (handler : Option ℕ) (w : Sends) (s : Session)
    → s.is_open ≡ true
    → let t = run_task (send_frame bytes handler) w s in
      (lost : List ℕ) × (outgoing t ++ lost ≡ outgoing s ++ bytes)
      × ((t.is_open ≡ false) ⊎ (lost ≡ []))
unfolding run_task
run_task-outgoing bytes handler w s up =
    if-cases
      (λ (t : Session).
        (lost : List ℕ) × (outgoing t ++ lost ≡ outgoing s ++ bytes)
        × ((t.is_open ≡ false) ⊎ (lost ≡ [])))
      (not s.is_open) (λ down. absurd (false≢true (sym (ap not up) ∙ down)))
      (λ _.
        subst
          (λ o.
            let t = async_write w (update_events queued) in
            (lost : List ℕ) × (outgoing t ++ lost ≡ o) × ((t.is_open ≡ false) ⊎ (lost ≡ [])))
          (update_events-outgoing queued ∙ pushed) (async_write-SendsOn w (update_events queued)))
  where
    new_frame : OutgoingFrame
    new_frame = record { bytes = bytes; written = 0; handler = handler }

    queued : Session
    queued = record s { write_queue = s.write_queue ++ new_frame ∷ [] }

    pushed : outgoing queued ≡ outgoing s ++ bytes
    pushed =
        unfold outgoing in
        (ap (λ t. on_wire s.calls ++ t) (unsent-append s.write_queue (new_frame ∷ []))
          ∙ ap (λ t. on_wire s.calls ++ (unsent s.write_queue ++ t)) (append-nil bytes)
          ∙ sym (append_assoc (on_wire s.calls) (unsent s.write_queue) bytes))
