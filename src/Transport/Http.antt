-- ===== src/Transport/Http.antt =====
-- The HTTP requests of src/p2p/src/p2p_tls.c: a POST with its response, and the GET that opens the event
-- stream. What the library answers to reads and writes stands in the connection.
pub mod Bodies
pub mod Heads
pub mod Laws
use libp2pchannel.Prelude.{
  ℕ, zero, suc, ◌+◌, ◌-◌, ◌*◌, ◌/◌, ◌%◌, ◌^◌, ◌≤◌, ◌<◌, min, ◌≡◌, refl, sym, ap, ap₂, subst, ◌∙◌,
  ◌≡⟨◌⟩◌, ◌∎, ◌≢◌, ◌↔◌, ◌⊎◌, inl, inr, Bool, true, false, not, ◌&&◌, ◌||◌, Option, none, some, List,
  [], ◌∷◌, ◌++◌, map, append_assoc, append-nil, arith, dec_lt, dec_le, ℕ_discrete, ltb, leb, ◌==◌,
  if◌then◌else◌, ltb→lt, lt→ltb, ge→ltb, eq→==, ne→==, ==_iff, Bool-cases, Option-cases, length,
  get_elem?, get_or, set, take, drop, replicate, memcpy, length-append, length-set,
  length-replicate, length-take, length-drop, take-length, take-take-append, get_or-set_self,
  get_or-set_ne, ℤ, pos, negsuc, to_int32, to_int64, to_uint64, is_negative, List-cases,
}
use libp2pchannel.Prelude.Text.{codes, starts_with, strstr, atoi}
use libp2pchannel.Prelude.Decimal.{decimal, scan_int}
use libp2pchannel.Transport.{
  Answer, Written, p2p_tls_read, first_byte, read_byte, tls_read_full, p2p_tls_write, c_str,
}

-- A connection: what the reads and writes will be answered, and the bytes that were written.
pub record Connection : Type 0 where
  pub answers : List Answer
  pub writes : List Written
  pub sent : List ℕ

-- `sizeof(req)` and `sizeof(hdr_buf) - 1`
abbrev pub request_size : ℕ
request_size = 2048

abbrev pub header_room : ℕ
header_room = 4095

abbrev pub crlf : List ℕ
crlf = 13 ∷ 10 ∷ []

unfoldable pub post_request : List ℕ → List ℕ → List ℕ → List ℕ
post_request host path body =
    (codes "POST " ++ (path ++ (codes " HTTP/1.1" ++ crlf)))
    ++ ((codes "Host: " ++ (host ++ crlf))
        ++ ((codes "Content-Type: application/json" ++ crlf)
            ++ ((codes "Content-Length: " ++ (decimal (length body) ++ crlf))
                ++ ((codes "Connection: keep-alive" ++ crlf) ++ (crlf ++ body)))))

unfoldable pub get_request : List ℕ → List ℕ → List ℕ
get_request host path =
    (codes "GET " ++ (path ++ (codes " HTTP/1.1" ++ crlf)))
    ++ ((codes "Host: " ++ (host ++ crlf))
        ++ ((codes "Accept: text/event-stream" ++ crlf)
            ++ ((codes "Connection: keep-alive" ++ crlf) ++ crlf)))

abbrev pub after_write : List ℕ → Connection → Option ℕ × List Written → Bool × Connection
after_write req c (none, ws) = (false, record c { writes = ws })
after_write req c (some n, ws) =
    (n == length req, record c { writes = ws; sent = c.sent ++ take n req })

-- The request is printed into its buffer and written; a request that does not fit is not, and one write
-- has to take all of it.
unfoldable pub send_request : List ℕ → Connection → Bool × Connection
unfolding p2p_tls_write
send_request req c =
    if leb request_size (length req) then (false, c) else after_write req c (p2p_tls_write c.writes)

-- Do the bytes read, the last one first, end in an empty line?
abbrev pub head_ends : List ℕ → Bool
head_ends seen = starts_with (10 ∷ 13 ∷ 10 ∷ 13 ∷ []) seen

abbrev pub headers_from :
    (List ℕ → List Answer → Option (List ℕ) × List Answer)
    → List ℕ
    → Option ℕ × List Answer
    → Option (List ℕ) × List Answer
headers_from next seen (none, ans) = (none, ans)
headers_from next seen (some c, ans) =
    if head_ends (c ∷ seen) then (some (c ∷ seen), ans) else next (c ∷ seen) ans

-- The loop over the headers, up to an empty line or the end of the buffer; the last byte comes first.
unfoldable pub read_headers : ℕ → List ℕ → List Answer → Option (List ℕ) × List Answer
unfolding p2p_tls_read starts_with
read_headers zero seen ans = (some seen, ans)
read_headers (suc room) seen ans = headers_from (read_headers room) seen (read_byte ans)

unfoldable pub reversed : List ℕ → List ℕ → List ℕ
reversed [] onto = onto
reversed (c ∷ cs) onto = reversed cs (c ∷ onto)

-- `hdr_buf` as a text
abbrev pub header_text : List ℕ → List ℕ
header_text seen = c_str (reversed seen [])

-- `sscanf(text, "HTTP/1.1 %d", &status)`, with the version as an argument
unfoldable pub scan_status : List ℕ → List ℕ → Option ℤ
scan_status version text =
    if starts_with version text then scan_int (drop (length version) text) else none

unfoldable pub status_of : List ℕ → Option ℤ
unfolding scan_status
status_of text = elim (scan_status (codes "HTTP/1.1") text) [
  | some status ↦ some status
  | none ↦ scan_status (codes "HTTP/1.0") text
]

abbrev pub length_after : Option (List ℕ) → ℤ → ℤ
length_after none other = other
length_after (some cl) other = to_int32 (atoi (drop 15 cl))

-- `content_len`, an `int`; 0 if no header tells it. A number that does not fit keeps its low 32 bits, as
-- with an `atoi` that casts the result of `strtol`.
unfoldable pub content_length : List ℕ → ℤ
content_length text =
    length_after (strstr text (codes "Content-Length:"))
      (length_after (strstr text (codes "content-length:")) (pos 0))

-- What is returned, with the body in `resp_buf`; `none` is -1, and the buffer is then not to be read.
abbrev pub Reply : Type 0
Reply = Option (ℤ × List ℕ) × Connection

abbrev pub with_body : ℤ → Connection → Option (List ℕ) × List Answer → Reply
with_body status c (none, ans) = (none, record c { answers = ans })
with_body status c (some body, ans) = (some (status, body), record c { answers = ans })

-- The body is read only if its length is told, and `resp_buf` has room for it and a NUL.
unfoldable pub read_body : ℕ → ℤ → ℤ → Connection → Reply
unfolding tls_read_full
read_body resp_buf_sz status (negsuc n) c = (some (status, []), c)
read_body resp_buf_sz status (pos n) c =
    let whole = with_body status c (tls_read_full n c.answers) in
    if n == 0 || leb resp_buf_sz n
    then (if ltb 0 n && ltb n resp_buf_sz then whole else (some (status, []), c))
    else whole

abbrev pub after_status : ℕ → List ℕ → Option ℤ → Connection → Reply
after_status resp_buf_sz text none c = (none, c)
after_status resp_buf_sz text (some status) c = read_body resp_buf_sz status (content_length text) c

abbrev pub after_headers : ℕ → Connection → Option (List ℕ) × List Answer → Reply
after_headers resp_buf_sz c (none, ans) = (none, record c { answers = ans })
after_headers resp_buf_sz c (some seen, ans) =
    let text = header_text seen in
    after_status resp_buf_sz text (status_of text) (record c { answers = ans })

abbrev pub after_request : ℕ → Bool × Connection → Reply
after_request resp_buf_sz (false, c) = (none, c)
after_request resp_buf_sz (true, c) =
    after_headers resp_buf_sz c (read_headers header_room [] c.answers)

-- `p2p_https_post`
unfoldable pub p2p_https_post : List ℕ → List ℕ → List ℕ → ℕ → Connection → Reply
unfolding post_request send_request read_headers status_of content_length read_body c_str reversed
p2p_https_post host path body resp_buf_sz c =
    after_request resp_buf_sz (send_request (post_request host path body) c)

abbrev pub is_ok : Option ℤ → Bool
is_ok (some (pos n)) = n == 200
is_ok _ = false

abbrev pub opened : Connection → Option (List ℕ) × List Answer → Bool × Connection
opened c (none, ans) = (false, record c { answers = ans })
opened c (some seen, ans) =
    (is_ok (scan_status (codes "HTTP/1.1") (header_text seen)), record c { answers = ans })

abbrev pub after_get : Bool × Connection → Bool × Connection
after_get (false, c) = (false, c)
after_get (true, c) = opened c (read_headers header_room [] c.answers)

-- `p2p_https_get_sse`; the result 0 or -1 as a truth value.
unfoldable pub p2p_https_get_sse : List ℕ → List ℕ → Connection → Bool × Connection
unfolding get_request send_request read_headers scan_status c_str reversed
p2p_https_get_sse host path c = after_get (send_request (get_request host path) c)
