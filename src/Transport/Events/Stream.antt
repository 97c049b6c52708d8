-- ===== src/Transport/Events/Stream.antt =====
-- Events on the wire: their text, and what src/p2p/src/p2p_tls.c reads of it.
use libp2pchannel.Prelude.{
  ◌≤◌, ℕ, zero, suc, ◌+◌, ◌<◌, ◌≡◌, refl, ap, ◌∙◌, List, [], ◌∷◌, ◌++◌, append_assoc, append-nil,
  arith, length, length-append,
}
use libp2pchannel.Prelude.Text.{codes}
use libp2pchannel.Transport.{Answer}
use libp2pchannel.Transport.Laws.{Carries, IsLine}
use libp2pchannel.Transport.Events.{
  take_field, Event, no_event, ready, line_room, read_lines, p2p_sse_read_event,
}
use libp2pchannel.Transport.Events.Laws.{
  IsLine-append, Unpadded, read_lines-IsLine, read_lines-end, take_field-event, take_field-data,
}

-- An event as a server sends it: its type, and its data in one or more lines.
pub record Sent : Type 0 where
  pub type : List ℕ
  pub chunks : List (List ℕ)

-- The `data:` lines and the empty line, before `more`.
abbrev pub data_text : List (List ℕ) → List ℕ → List ℕ
data_text [] more = 10 ∷ more
data_text (d ∷ ds) more = (codes "data: " ++ d) ++ (10 ∷ data_text ds more)

abbrev pub event_text : Sent → List ℕ → List ℕ
event_text s more = (codes "event: " ++ s.type) ++ (10 ∷ data_text s.chunks more)

abbrev pub joined : List (List ℕ) → List ℕ
joined [] = []
joined (d ∷ ds) = d ++ joined ds

-- One line of data: no control character that ends it, no space before it, and it fits the line buffer.
pub record IsChunk (d : List ℕ) : Type 0 where
  pub line : IsLine d
  pub unpadded : Unpadded d
  pub short : 6 + length d < line_room

pub data AllChunks : List (List ℕ) → Type 0 where
  nil : AllChunks []
  cons : {d : List ℕ} {ds : List (List ℕ)} → IsChunk d → AllChunks ds → AllChunks (d ∷ ds)

-- An event that the buffers of the reader have room for.
pub record Fits (et_sz ed_sz : ℕ) (s : Sent) : Type 0 where
  pub type_line : IsLine s.type
  pub type_unpadded : Unpadded s.type
  pub type_given : 0 < length s.type
  pub type_short : length s.type < et_sz
  pub type_in_line : 7 + length s.type < line_room
  pub chunks : AllChunks s.chunks
  pub data_short : length (joined s.chunks) < ed_sz

-- The loop has the event `out` at `end`, with `more` still to come.
abbrev Reads : List Answer → ℕ → ℕ → ℕ → Event → Event → List ℕ → List Answer → Type 0
Reads rest fuel et_sz ed_sz e out more ans =
    (end : List Answer) × (read_lines fuel et_sz ed_sz e ans ≡ ready out end)
    × Carries rest more end
    × (length end < length ans)

-- One line before the others.
Reads-step :
    (rest : List Answer) (fuel et_sz ed_sz : ℕ) (e e' out : Event) (more : List ℕ)
    (ans mid : List Answer)
    → read_lines (suc fuel) et_sz ed_sz e ans ≡ read_lines fuel et_sz ed_sz e' mid
    → length mid < length ans
    → Reads rest fuel et_sz ed_sz e' out more mid
    → Reads rest (suc fuel) et_sz ed_sz e out more ans
Reads-step rest fuel et_sz ed_sz e e' out more ans mid r s (end, r', t', s') =
    (end, r ∙ r', t', omega (arith, s, s'))

-- A `data:` line before the others.
Reads-data :
    (rest : List Answer) (fuel et_sz ed_sz : ℕ) (e out : Event) (d : List ℕ) (text more : List ℕ)
    (ans : List Answer)
    → IsChunk d
    → length e.json + length d < ed_sz
    → ((mid : List Answer)
        → length mid < length ans
        → Carries rest text mid
        → Reads rest fuel et_sz ed_sz (record e { json = e.json ++ d }) out more mid)
    → (mid : List Answer) × (read_lines (suc fuel) et_sz ed_sz e ans
        ≡ read_lines fuel et_sz ed_sz (take_field et_sz ed_sz (codes "data: " ++ d) e) mid)
      × Carries rest text mid
      × (length mid < length ans)
    → Reads rest (suc fuel) et_sz ed_sz e out more ans
Reads-data rest fuel et_sz ed_sz e out d text more ans k h others (mid, r, t, s) =
    Reads-step rest fuel et_sz ed_sz e (record e { json = e.json ++ d }) out more ans mid
      (r
        ∙ ap (λ q. read_lines fuel et_sz ed_sz q mid)
            (take_field-data et_sz ed_sz d e k.unpadded h))
      s (others mid s t)

-- The data lines and the end of an event, once its type is known.
read_lines-data_text :
    (rest : List Answer) (fuel et_sz ed_sz : ℕ) (e : Event) (ds : List (List ℕ)) (more : List ℕ)
    (ans : List Answer)
    → AllChunks ds
    → 0 < length e.name
    → length e.json + length (joined ds) < ed_sz
    → length ans < fuel
    → Carries rest (data_text ds more) ans
    → Reads rest fuel et_sz ed_sz e (record e { json = e.json ++ joined ds }) more ans
read_lines-data_text rest zero et_sz ed_sz e ds more ans a n h f c = elim f [ ]
read_lines-data_text rest (suc fuel) et_sz ed_sz e [] more ans a n h f c =
    rw append-nil (read_lines-end fuel et_sz ed_sz e more ans (ground (arith, n)) c)
read_lines-data_text rest (suc fuel) et_sz ed_sz e (d ∷ ds) more ans (cons k a) n h f c =
    rw (← append_assoc e.json d (joined ds)) (
      Reads-data rest fuel et_sz ed_sz e _ d (data_text ds more) more ans k
        (omega (arith, h, length-append d (joined ds)))
        (λ mid s t.
          read_lines-data_text rest fuel et_sz ed_sz (record e { json = e.json ++ d }) ds more mid a
            n (omega (arith, h, length-append d (joined ds), length-append e.json d))
            (omega (arith, s, f)) t)
        (read_lines-IsLine fuel et_sz ed_sz e b'd' (codes "ata: " ++ d) (data_text ds more) ans
          (IsLine-append (codes "data: ") refl k.line) (omega (arith, k.short)) c))

typed_end :
    (rest : List Answer) (fuel et_sz ed_sz : ℕ) (s : Sent) (more : List ℕ) (ans mid : List Answer)
    → read_lines (suc fuel) et_sz ed_sz no_event ans
      ≡ read_lines fuel et_sz ed_sz (record { name = s.type; json = [] }) mid
    → Reads rest fuel et_sz ed_sz
        (record { name = s.type; json = [] })
        (record { name = s.type; json = joined s.chunks })
        more
        mid
    → (end : List Answer) × (read_lines (suc fuel) et_sz ed_sz no_event ans
        ≡ ready (record { name = s.type; json = joined s.chunks }) end)
      × Carries rest more end
typed_end rest fuel et_sz ed_sz s more ans mid r (end, r', t', l') = (end, r ∙ r', t')

-- An event whose first line has been read.
read_typed :
    (rest : List Answer) (fuel et_sz ed_sz : ℕ) (s : Sent) (more : List ℕ) (ans : List Answer)
    → Fits et_sz ed_sz s
    → length ans ≤ fuel
    → (mid : List Answer) × (read_lines (suc fuel) et_sz ed_sz no_event ans
        ≡ read_lines fuel et_sz ed_sz
            (take_field et_sz ed_sz (codes "event: " ++ s.type) no_event)
            mid)
      × Carries rest (data_text s.chunks more) mid
      × (length mid < length ans)
    → (end : List Answer) × (read_lines (suc fuel) et_sz ed_sz no_event ans
        ≡ ready (record { name = s.type; json = joined s.chunks }) end)
      × Carries rest more end
read_typed rest fuel et_sz ed_sz s more ans f h (mid, r, t, l) =
    let typed : Event = record { name = s.type; json = [] } in
    let taken = take_field-event et_sz ed_sz s.type no_event f.type_unpadded f.type_short in
    typed_end rest fuel et_sz ed_sz s more ans mid
      (r ∙ ap (λ q. read_lines fuel et_sz ed_sz q mid) taken)
      (read_lines-data_text rest fuel et_sz ed_sz typed s.chunks more mid f.chunks f.type_given
        (omega (arith, f.data_short)) (omega (arith, h, l)) t)

-- The text of an event is read back as the event, its data lines put together, and what follows it is
-- left. The event fits the buffers, each line of it the line buffer, and its type is not empty; its type
-- and its lines hold no NUL, newline or carriage return and do not begin with a space; TLS may bring the
-- bytes one by one with any retries between them.
pub p2p_sse_read_event-event_text :
    {rest : List Answer} (et_sz ed_sz : ℕ) (s : Sent) (more : List ℕ) (ans : List Answer)
    → Fits et_sz ed_sz s
    → Carries rest (event_text s more) ans
    → (end : List Answer) × (p2p_sse_read_event et_sz ed_sz ans
        ≡ ready (record { name = s.type; json = joined s.chunks }) end)
      × Carries rest more end
unfolding p2p_sse_read_event
p2p_sse_read_event-event_text {rest} et_sz ed_sz s more ans f c =
    read_typed rest (length ans) et_sz ed_sz s more ans f (omega arith) (
      read_lines-IsLine (length ans) et_sz ed_sz no_event b'e' (codes "vent: " ++ s.type)
        (data_text s.chunks more) ans (IsLine-append (codes "event: ") refl f.type_line)
        (omega (arith, f.type_in_line)) c)
