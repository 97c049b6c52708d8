-- ===== src/Signaling/Connect/Requests.antt =====
-- The requests of the signaling client of src/p2p/src/p2p_signaling.c: its server's address, and room
-- in the buffers.
use libp2pchannel.Prelude.{
  ℕ, zero, suc, ◌+◌, ◌%◌, ◌^◌, ◌≤◌, ◌<◌, ◌≡◌, refl, ◌≢◌, inl, inr, Option, none, some, List, [],
  ◌∷◌, ◌++◌, arith, ne→==, length, length-append, ℤ,
}
use libp2pchannel.Prelude.Text.{codes, snprintf_s, snprintf_s_short, length-snprintf_s}
use libp2pchannel.Prelude.Decimal.{decimal, scan_int-decimal, digits, length-digits}
use libp2pchannel.Transport.Http.{crlf, request_size, get_request, post_request, Connection}
use libp2pchannel.Transport.{Answer, Written}
use libp2pchannel.Transport.Http.{Reply}
use libp2pchannel.Transport.Http.Bodies.{Delivers}
use libp2pchannel.Transport.Http.Laws.{Takes, Head, p2p_https_post-long, p2p_https_post-reply}
use libp2pchannel.Signaling.Build.{Signal}
use libp2pchannel.Signaling.Client.{body_of}
use libp2pchannel.Signaling.Client.Laws.{text_of, body_of-whole}
use libp2pchannel.Signaling.Connect.{Online, post_signal}
use libp2pchannel.Signaling.Connect.{host_part, port_part, parse_url, sse_path, host_hdr}

-- The name of a host, with no colon in it.
abbrev pub NoColon : List ℕ → Type 0
NoColon [] = Unit {0}
NoColon (c ∷ cs) = (c ≢ 58) × NoColon cs

host_part-NoColon :
    (room : ℕ) (host rest : List ℕ)
    → NoColon host
    → length host < room
    → host_part room (host ++ (58 ∷ rest)) ≡ (host, 58 ∷ rest)
unfolding host_part
host_part-NoColon zero host rest n h = elim h [ ]
host_part-NoColon (suc room) [] rest n h = refl
host_part-NoColon (suc room) (c ∷ cs) rest (ne, n) h =
    rw (host_part-NoColon room cs rest n (omega (arith, h)), ne→== c 58 ne) refl

port_part-decimal : (port : ℕ) → port < 65536 → port_part (58 ∷ decimal port) ≡ port
port_part-decimal port h =
    let e : port % 2 ^ 16 ≡ port = omega (arith, h) in rw (scan_int-decimal port) e

-- The address that goes into the `Host` header of a request is read back as the host and the port of the
-- client, for a host of 1 to 254 bytes without a colon and any port of 16 bits.
pub parse_url-host_hdr :
    (c : ℕ) (cs : List ℕ) (port : ℕ)
    → NoColon (c ∷ cs)
    → length (c ∷ cs) < 255
    → port < 65536
    → parse_url (host_hdr (c ∷ cs) port) ≡ some (c ∷ cs, port)
unfolding parse_url host_hdr decimal
parse_url-host_hdr c cs port n h p =
    let size : length (digits (suc port) port) ≤ 5 =
      length-digits 4 (suc port) port (omega (arith, p)) in
    let text = (c ∷ cs) ++ (58 ∷ decimal port) in
    let fits : length text < 280 =
      omega (arith, length-append cs (58 ∷ digits (suc port) port), size, h) in
    rw
      (
        snprintf_s_short 280 text fits,
        host_part-NoColon 255 (c ∷ cs) (decimal port) n h,
        port_part-decimal port p,
      )
      refl

length-get_request :
    (host path : List ℕ) → length (get_request host path) ≡ length path + length host + 76
unfolding get_request
length-get_request host path =
    let line = codes " HTTP/1.1" ++ crlf in
    let accept = codes "Accept: text/event-stream" ++ crlf in
    let more = accept ++ ((codes "Connection: keep-alive" ++ crlf) ++ crlf) in
    let host_line = codes "Host: " ++ (host ++ crlf) in
    omega (
      arith,
      length-append path line,
      length-append (path ++ line) (host_line ++ more),
      length-append host crlf,
      length-append (host ++ crlf) more,
    )

-- The request for the event stream always fits its buffer, whatever the host, the name and the token.
pub get_request-fits :
    (host peer_id token : List ℕ) (port : ℕ)
    → length (get_request (host_hdr host port) (sse_path peer_id token)) < request_size
unfolding host_hdr sse_path
get_request-fits host peer_id token port =
    let name = host ++ (58 ∷ decimal port) in
    let path = codes "/v1/events?peer_id=" ++ (peer_id ++ (codes "&token=" ++ token)) in
    omega (
      arith,
      length-get_request (snprintf_s 280 name) (snprintf_s 1024 path),
      length-snprintf_s 280 name (omega arith),
      length-snprintf_s 1024 path (omega arith),
    )

length-post_request :
    (host path body : List ℕ)
    → length (post_request host path body)
      ≡ length path + length host + length (decimal (length body)) + length body + 100
unfolding post_request
length-post_request host path body =
    let line = codes " HTTP/1.1" ++ crlf in
    let size = codes "Content-Length: " ++ (decimal (length body) ++ crlf) in
    let keep = (codes "Connection: keep-alive" ++ crlf) ++ (crlf ++ body) in
    let type = codes "Content-Type: application/json" ++ crlf in
    let host_line = codes "Host: " ++ (host ++ crlf) in
    let number = decimal (length body) in
    omega (
      arith,
      length-append path line,
      length-append (path ++ line) (host_line ++ (type ++ (size ++ keep))),
      length-append host crlf,
      length-append (host ++ crlf) (type ++ (size ++ keep)),
      length-append number crlf,
      length-append (number ++ crlf) keep,
    )

-- What becomes of a message of the client that is posted: its body goes over the connection, if it has one.
abbrev pub posted_over : Online → ℕ → Connection → Option (List ℕ) → Reply
posted_over c resp_sz conn none = (none, conn)
posted_over c resp_sz conn (some body) = post_signal c body resp_sz conn

-- A message of 2048 bytes or more is never posted: nothing is written to the connection, whatever it would
-- answer, and the result is -1, although its body may have up to 8191 bytes.
pub post_signal-long :
    (c : Online) (s : Signal) (resp_sz : ℕ) (conn : Connection)
    → request_size ≤ length (text_of s)
    → posted_over c resp_sz conn (body_of s) ≡ (none, conn)
unfolding post_signal
post_signal-long c s resp_sz conn h = elim (body_of-whole s) [
  | inl e ↦ rw e refl
  | inr (e, fits) ↦ rw e (
      p2p_https_post-long (host_hdr c.server_host c.server_port) (codes "/v1/signal") (text_of s)
        resp_sz conn h)
]

-- A message of at most 1650 bytes is posted over a connection that takes the request in one write and
-- brings a response with a body: the server is sent the request for it, and the result is the status and
-- the body of the response.
pub post_signal-answered :
    {rest mid : List Answer} {later : List Written} (c : Online) (s : Signal) (resp_sz : ℕ)
    (status : ℤ) (b : ℕ) (bs : List ℕ) (conn : Connection)
    → body_of s ≡ some (text_of s)
    → length (text_of s) ≤ 1650
    → Takes
        (length
          (post_request (host_hdr c.server_host c.server_port) (codes "/v1/signal") (text_of s)))
        later
        conn.writes
    → Head mid status (length (b ∷ bs)) conn.answers
    → length (b ∷ bs) < resp_sz
    → Delivers rest (b ∷ bs) mid
    → posted_over c resp_sz conn (body_of s) ≡ (
      some (status, b ∷ bs),
      record {
        answers = rest;
        writes = later;
        sent =
            conn.sent
            ++ post_request (host_hdr c.server_host c.server_port) (codes "/v1/signal") (text_of s);
      },
    )
unfolding post_signal
post_signal-answered c s resp_sz status b bs conn e h w head fits d =
    let host = host_hdr c.server_host c.server_port in
    let short : length host < 280 = length-snprintf_s 280 _ (omega arith) in
    let digits_few : length (decimal (length (text_of s))) ≤ 4 =
      length-digits 3 (suc (length (text_of s))) (length (text_of s)) (omega (arith, h)) in
    rw e (
      p2p_https_post-reply host (codes "/v1/signal") (text_of s) resp_sz status b bs conn
        (omega
          (arith, length-post_request host (codes "/v1/signal") (text_of s), short, digits_few, h))
        w head fits d)
