-- ===== src/Transport/Events/Wire.antt =====
-- A stream of events on the wire, and what src/p2p/src/p2p_signaling.c calls for it.
use libp2pchannel.Prelude.{
  Option, some, ℕ, suc, ◌≡◌, refl, ap, Bool, true, ◌&&◌, none, List, [], ◌∷◌, ◌++◌, length,
}
use libp2pchannel.Signaling.Dispatch.{
  read_event, read_failed, SigCallbacks, on_disconnected, sse_thread_func, if_set,
}
use libp2pchannel.Signaling.Dispatch.Laws.{all_dispatched, events_read, sse_thread_func-in_order}
use libp2pchannel.Transport.{line_from, Answer, read_byte, tls_read_line, p2p_tls_read}
use libp2pchannel.Transport.Laws.{Carries}
use libp2pchannel.Transport.Events.{
  Outcome, after_line, Event, no_event, lost, line_room, read_lines, p2p_sse_read_event, readings,
  event_type_size, event_data_size,
}
use libp2pchannel.Transport.Events.Stream.{
  Sent, Fits, event_text, joined, p2p_sse_read_event-event_text,
}

abbrev pub wire : List Sent → List ℕ
wire [] = []
wire (s ∷ ss) = event_text s (wire ss)

pub data AllFit : List Sent → Type 0 where
  nil : AllFit []
  cons :
      {s : Sent} {ss : List Sent}
      → Fits event_type_size event_data_size s
      → AllFit ss
      → AllFit (s ∷ ss)

-- The type and the data of each event.
abbrev pub told : List Sent → List (List ℕ × List ℕ)
told [] = []
told (s ∷ ss) = (s.type, joined s.chunks) ∷ told ss

-- The client runs at the test before each event and before the last read; then `last` is found.
abbrev pub tests : List Sent → Bool → List Bool
tests [] last = true ∷ last ∷ []
tests (s ∷ ss) last = true ∷ tests ss last

read_byte-done :
    {rest : List Answer} (ans : List Answer)
    → (read_byte rest).0 ≡ none
    → Carries rest [] ans
    → (read_byte ans).0 ≡ none
unfolding p2p_tls_read
read_byte-done ans h Carries.done = h
read_byte-done ans h (Carries.retry c) = read_byte-done _ h c

line_from-none :
    (f : List Answer → Option (List ℕ) × List Answer) (p : Option ℕ × List Answer)
    → p.0 ≡ none
    → (line_from f p).0 ≡ none
line_from-none f (none, ans) h = refl
line_from-none f (some c, ans) h = cc

tls_read_line-none :
    (room : ℕ) (ans : List Answer)
    → (read_byte ans).0 ≡ none
    → (tls_read_line (suc room) ans).0 ≡ none
unfolding tls_read_line
tls_read_line-none room ans h = line_from-none (tls_read_line room) (read_byte ans) h

after_line-none :
    (next : Event → List Answer → Outcome) (et_sz ed_sz : ℕ) (e : Event)
    (r : Option (List ℕ) × List Answer)
    → r.0 ≡ none
    → after_line next et_sz ed_sz e r ≡ lost
after_line-none next et_sz ed_sz e (none, ans) h = refl
after_line-none next et_sz ed_sz e (some line, ans) h = cc

p2p_sse_read_event-closed :
    (et_sz ed_sz : ℕ) (ans : List Answer)
    → (read_byte ans).0 ≡ none
    → p2p_sse_read_event et_sz ed_sz ans ≡ lost
unfolding p2p_sse_read_event read_lines
p2p_sse_read_event-closed et_sz ed_sz ans h =
    after_line-none (read_lines (length ans) et_sz ed_sz) et_sz ed_sz no_event
      (tls_read_line line_room ans) (tls_read_line-none 8190 ans h)

readings-wire :
    {rest : List Answer} (ss : List Sent) (last : Bool) (ans : List Answer)
    → AllFit ss
    → (read_byte rest).0 ≡ none
    → Carries rest (wire ss) ans
    → readings (tests ss last) ans ≡ events_read (told ss) (read_failed last ∷ [])
unfolding readings
readings-wire [] last ans f h c =
    rw (p2p_sse_read_event-closed event_type_size event_data_size ans (read_byte-done ans h c)) refl
readings-wire (s ∷ ss) last ans (cons k f) h c =
    let (end, r, t) =
      p2p_sse_read_event-event_text event_type_size event_data_size s (wire ss) ans k c in
    rw r (ap (λ l. read_event s.type (joined s.chunks) ∷ l) (readings-wire ss last end f h t))

-- Of a stream in which every event is well formed and fits, the application is called for just these events,
-- in order: each is dispatched once, and when the connection then ends, the loss is told, unless the client
-- was stopped meanwhile. An event is so if its type is not empty and shorter than
-- its buffer, its data together are shorter than theirs, each of its lines fits the line buffer, and type and
-- lines hold no NUL, newline or carriage return and do not begin with a space. The bytes may come in any pieces, with retries.
pub sse_thread_func-wire :
    {rest : List Answer} (cb : SigCallbacks) (ss : List Sent) (last : Bool) (ans : List Answer)
    → AllFit ss
    → (read_byte rest).0 ≡ none
    → Carries rest (wire ss) ans
    → sse_thread_func cb (readings (tests ss last) ans)
      ≡ all_dispatched cb (told ss) ++ if_set (last && cb.disconnected) on_disconnected
sse_thread_func-wire cb ss last ans f h c =
    rw (readings-wire ss last ans f h c) (sse_thread_func-in_order cb (told ss) last [])
