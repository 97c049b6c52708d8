-- ===== src/Tests/Transports.antt =====
-- The TLS transport at concrete inputs.
use libp2pchannel.Prelude.{
  ℕ, ◌≡◌, refl, true, false, none, some, List, [], ◌∷◌, ◌++◌, arith, length, replicate,
  length-replicate, pos,
}
use libp2pchannel.Prelude.Text.{codes, starts_with, strstr, atoi, read_digits}
use libp2pchannel.Prelude.Decimal.{decimal, digits, scan_int}
use libp2pchannel.Signaling.Dispatch.{SigCallbacks, sse_thread_func, on_disconnected}
use libp2pchannel.Signaling.Dispatch.Laws.{all_dispatched}
use libp2pchannel.Transport.{Answer, want, got, wrote, want_write, p2p_tls_read}
use libp2pchannel.Transport.Laws.{Carries}
use libp2pchannel.Transport.Events.{ready, p2p_sse_read_event, readings}
use libp2pchannel.Transport.Events.Laws.{IsLine-plain}
use libp2pchannel.Transport.Events.Bounds.{Settles, p2p_sse_read_event-Settles}
use libp2pchannel.Transport.Events.Stream.{Sent, Fits, AllChunks, p2p_sse_read_event-event_text}
use libp2pchannel.Transport.Events.Wire.{AllFit, wire, told, sse_thread_func-wire}
use libp2pchannel.Transport.Http.{
  Connection, post_request, p2p_https_post, status_of, scan_status, content_length,
}
use libp2pchannel.Transport.Http.Heads.{AllLines, head_of}
use libp2pchannel.Transport.Http.Laws.{Takes, Head, p2p_https_post-unread, p2p_https_post-long}

-- One byte with each answer.
abbrev bytewise : List ℕ → List Answer → List Answer
bytewise [] rest = rest
bytewise (c ∷ cs) rest = got (c ∷ []) ∷ bytewise cs rest

bytewise-Carries : (text : List ℕ) (rest : List Answer) → Carries rest text (bytewise text rest)
bytewise-Carries [] rest = Carries.done
bytewise-Carries (c ∷ cs) rest = Carries.byte (bytewise-Carries cs rest)

abbrev bob_joined : Sent
bob_joined = record {
  type = codes "peer_joined";
  chunks = codes "{\"peer_id\":" ∷ codes "\"bob\"}" ∷ [];
}

bob_joined-Fits : Fits 128 8192 bob_joined
bob_joined-Fits = record {
  type_line = IsLine-plain bob_joined.type refl;
  type_unpadded = omega arith;
  type_given = omega arith;
  type_short = omega arith;
  type_in_line = omega arith;
  chunks =
      AllChunks.cons
        (record {
          line = IsLine-plain (codes "{\"peer_id\":") refl;
          unpadded = omega arith;
          short = omega arith;
        })
        (AllChunks.cons
          (record {
            line = IsLine-plain (codes "\"bob\"}") refl;
            unpadded = omega arith;
            short = omega arith;
          })
          AllChunks.nil);
  data_short = omega arith;
}

-- The event comes with a retry in front, and the connection closes behind it.
abbrev arriving : List Answer
arriving = want ∷ bytewise (wire (bob_joined ∷ [])) (got [] ∷ [])

arriving-Carries : Carries (got [] ∷ []) (wire (bob_joined ∷ [])) arriving
arriving-Carries = Carries.retry (bytewise-Carries (wire (bob_joined ∷ [])) (got [] ∷ []))

p2p_sse_read_event-event_text_example :
    (end : List Answer) × (p2p_sse_read_event 128 8192 arriving
      ≡ ready (record { name = codes "peer_joined"; json = codes "{\"peer_id\":\"bob\"}" }) end)
    × Carries (got [] ∷ []) [] end
p2p_sse_read_event-event_text_example =
    p2p_sse_read_event-event_text 128 8192 bob_joined [] arriving bob_joined-Fits arriving-Carries

p2p_sse_read_event-Settles_example :
    Settles 128 8192 arriving (p2p_sse_read_event 128 8192 arriving)
p2p_sse_read_event-Settles_example =
    p2p_sse_read_event-Settles 128 8192 arriving (omega arith) (omega arith)

abbrev pub listening : SigCallbacks
listening = record {
  connected = false;
  disconnected = true;
  room_created = false;
  peer_joined = true;
  peer_left = false;
  ice_offer = false;
  ice_answer = false;
  ice_candidate = false;
  gathering_done = false;
  turn_credentials = false;
  publisher_ready = false;
  request_offer = false;
  error = false;
}

sse_thread_func-wire_example :
    sse_thread_func listening (readings (true ∷ true ∷ true ∷ []) arriving)
    ≡ all_dispatched listening (told (bob_joined ∷ [])) ++ (on_disconnected ∷ [])
unfolding p2p_tls_read
sse_thread_func-wire_example =
    sse_thread_func-wire listening (bob_joined ∷ []) true arriving
      (AllFit.cons bob_joined-Fits AllFit.nil) refl arriving-Carries

-- `HTTP/1.1 200 OK` with a body of two bytes
abbrev head_lines : List (List ℕ)
head_lines = codes "HTTP/1.1 200 OK" ∷ codes "Content-Length: 2" ∷ []

replied-Head :
    Head
      (got (b'o' ∷ b'k' ∷ []) ∷ [])
      (pos 200)
      2
      (bytewise (head_of head_lines) (got (b'o' ∷ b'k' ∷ []) ∷ []))
unfolding status_of scan_status scan_int starts_with content_length strstr atoi read_digits
replied-Head = record {
  first = b'H';
  first_line = codes "TTP/1.1 200 OK";
  lines = codes "Content-Length: 2" ∷ [];
  all_lines =
      AllLines.cons (IsLine-plain (codes "HTTP/1.1 200 OK") refl)
        (AllLines.cons (IsLine-plain (codes "Content-Length: 2") refl) AllLines.nil);
  fits = omega arith;
  carried = bytewise-Carries (head_of head_lines) (got (b'o' ∷ b'k' ∷ []) ∷ []);
  told_status = refl;
  told_length = refl;
}

abbrev server : List ℕ
server = codes "h:1"

-- The request is 116 bytes long.
abbrev ready_to_post : Connection
ready_to_post = record {
  answers = bytewise (head_of head_lines) (got (b'o' ∷ b'k' ∷ []) ∷ []);
  writes = want_write ∷ wrote 116 ∷ [];
  sent = [];
}

request_length : length (post_request server (codes "/v1/signal") (codes "{}")) ≡ 116
unfolding post_request decimal digits
request_length = refl

ready_to_post-Takes :
    Takes (length (post_request server (codes "/v1/signal") (codes "{}"))) [] ready_to_post.writes
ready_to_post-Takes = rw request_length (Takes.retry Takes.whole)

-- A buffer of two bytes has no room for the body.
p2p_https_post-unread_example :
    let (result, c') = p2p_https_post server (codes "/v1/signal") (codes "{}") 2 ready_to_post in
    (result ≡ some (pos 200, [])) × Carries (got (b'o' ∷ b'k' ∷ []) ∷ []) [] c'.answers
p2p_https_post-unread_example =
    p2p_https_post-unread server (codes "/v1/signal") (codes "{}") 2 2 (pos 200) ready_to_post
      (rw request_length (omega arith)) ready_to_post-Takes replied-Head (omega arith)

p2p_https_post-long_example :
    p2p_https_post server (codes "/v1/signal") (replicate 2048 b'a') 8192 ready_to_post
    ≡ (none, ready_to_post)
p2p_https_post-long_example =
    p2p_https_post-long server (codes "/v1/signal") (replicate 2048 b'a') 8192 ready_to_post
      (omega (arith, length-replicate {A = ℕ} 2048 b'a'))
