-- ===== src/Transport/Http/Laws.antt =====
-- What a POST of src/p2p/src/p2p_tls.c sends and what it makes of a response.
use libp2pchannel.Prelude.{
  ℕ, zero, suc, ◌≤◌, ◌<◌, ◌≡◌, refl, ◌∙◌, true, false, none, some, List, [], ◌∷◌, ◌++◌, arith, ltb,
  leb, ◌==◌, ge→ltb, eq→==, length, length-append, take-length, ℤ, pos,
}
use libp2pchannel.Prelude.Text.{codes}
use libp2pchannel.Prelude.Decimal.{decimal}
use libp2pchannel.Transport.{Answer, Written, wrote, want_write, p2p_tls_write}
use libp2pchannel.Transport.Laws.{Carries}
use libp2pchannel.Transport.Http.Bodies.{Delivers, tls_read_full-Delivers, Delivers-Carries}
use libp2pchannel.Transport.Http.Heads.{
  head_of, AllLines, read_headers-head_of, header_text-head_of,
}
use libp2pchannel.Transport.Http.{
  crlf, Connection, request_size, header_room, post_request, send_request, after_request, status_of,
  content_length, read_body, p2p_https_post,
}

-- The library takes the whole of `n` bytes in one write, after any retries.
pub data Takes (n : ℕ) (rest : List Written) : List Written → Type 0 where
  whole : Takes n rest (wrote n ∷ rest)
  retry : {ws : List Written} → Takes n rest ws → Takes n rest (want_write ∷ ws)

p2p_tls_write-Takes :
    {n : ℕ} {rest ws : List Written} → 0 < n → Takes n rest ws → p2p_tls_write ws ≡ (some n, rest)
unfolding p2p_tls_write
p2p_tls_write-Takes {n = zero} h t = elim h [ ]
p2p_tls_write-Takes {n = suc n} h whole = refl
p2p_tls_write-Takes {n = suc n} h (retry t) = p2p_tls_write-Takes h t

send_request-Takes :
    {rest : List Written} (req : List ℕ) (c : Connection)
    → 0 < length req
    → length req < request_size
    → Takes (length req) rest c.writes
    → send_request req c ≡ (true, record c { writes = rest; sent = c.sent ++ req })
unfolding send_request
send_request-Takes req c n h t =
    let fits : leb request_size (length req) ≡ false = ground (arith, h) in
    rw (fits, p2p_tls_write-Takes n t, eq→== (length req) (length req) refl, take-length req) refl

-- A request that is too long for its buffer is not sent: neither a read nor a write is made.
send_request-long :
    (req : List ℕ) (c : Connection) → request_size ≤ length req → send_request req c ≡ (false, c)
unfolding send_request
send_request-long req c h =
    let long : leb request_size (length req) ≡ true = ground (arith, h) in rw long refl

post_request-given : (host path body : List ℕ) → 0 < length (post_request host path body)
unfolding post_request
post_request-given host path body = omega arith

read_body-whole :
    {rest : List Answer} (resp_buf_sz : ℕ) (status : ℤ) (c : Connection) (reply : List ℕ)
    → 0 < length reply
    → length reply < resp_buf_sz
    → Delivers rest reply c.answers
    → read_body resp_buf_sz status (pos (length reply)) c
      ≡ (some (status, reply), record c { answers = rest })
unfolding read_body
read_body-whole resp_buf_sz status c reply g h d =
    let some_bytes : (length reply == 0) ≡ false = ground (arith, g) in
    let room : leb resp_buf_sz (length reply) ≡ false = ground (arith, h) in
    rw (some_bytes, room, tls_read_full-Delivers d) refl

read_body-long :
    (resp_buf_sz n : ℕ) (status : ℤ) (c : Connection)
    → resp_buf_sz ≤ n
    → read_body resp_buf_sz status (pos n) c ≡ (some (status, []), c)
unfolding read_body
read_body-long resp_buf_sz n status c h =
    let long : leb resp_buf_sz n ≡ true = ground (arith, h) in
    let no_room : ltb n resp_buf_sz ≡ false = ge→ltb n resp_buf_sz h in
    ground (arith, long, no_room)

-- A head that comes over the connection: its lines, its status and the length that it tells.
pub record Head (mid : List Answer) (status : ℤ) (n : ℕ) (ans : List Answer) : Type 0 where
  pub first : ℕ
  pub first_line : List ℕ
  pub lines : List (List ℕ)
  pub all_lines : AllLines ((first ∷ first_line) ∷ lines)
  pub fits : length (head_of ((first ∷ first_line) ∷ lines)) ≤ header_room
  pub carried : Carries mid (head_of ((first ∷ first_line) ∷ lines)) ans
  pub told_status : status_of (head_of ((first ∷ first_line) ∷ lines)) ≡ some status
  pub told_length : content_length (head_of ((first ∷ first_line) ∷ lines)) ≡ pos n

after_request-Head :
    {mid : List Answer} {status : ℤ} {n : ℕ} (resp_buf_sz : ℕ) (c : Connection)
    → Head mid status n c.answers
    → (end : List Answer) × (after_request resp_buf_sz (true, c)
        ≡ read_body resp_buf_sz status (pos n) (record c { answers = end }))
      × Carries mid [] end
after_request-Head resp_buf_sz c h =
    let (end, r, t) = read_headers-head_of header_room c.answers h.all_lines h.fits h.carried in
    (end, rw (r, header_text-head_of h.all_lines, h.told_status, h.told_length) refl, t)

pub p2p_https_post-reply :
    {rest mid : List Answer} {later : List Written} (host path body : List ℕ) (resp_buf_sz : ℕ)
    (status : ℤ) (b : ℕ) (bs : List ℕ) (c : Connection)
    → length (post_request host path body) < request_size
    → Takes (length (post_request host path body)) later c.writes
    → Head mid status (length (b ∷ bs)) c.answers
    → length (b ∷ bs) < resp_buf_sz
    → Delivers rest (b ∷ bs) mid
    → p2p_https_post host path body resp_buf_sz c ≡ (
      some (status, b ∷ bs),
      record { answers = rest; writes = later; sent = c.sent ++ post_request host path body },
    )
unfolding p2p_https_post
p2p_https_post-reply {later = later} host path body resp_buf_sz status b bs c h w head fits d =
    let req = post_request host path body in
    let sent = send_request-Takes req c (post_request-given host path body) h w in
    let (end, r, t) =
      after_request-Head resp_buf_sz (record c { writes = later; sent = c.sent ++ req }) head in
    rw sent (
      r
      ∙ read_body-whole resp_buf_sz status
          (record c { answers = end; writes = later; sent = c.sent ++ req }) (b ∷ bs) (omega arith)
          fits (Delivers-Carries end t d))

-- A body for which the caller's buffer has no room is not read: the status is returned with an empty body,
-- and all bytes of the body are left for the next reader of the connection. The request is shorter than
-- its buffer and taken in one write, and the `int` that the code reads from the `Content-Length` of the
-- response is not smaller than the buffer.
pub p2p_https_post-unread :
    {mid : List Answer} {later : List Written} (host path body : List ℕ) (resp_buf_sz n : ℕ)
    (status : ℤ) (c : Connection)
    → length (post_request host path body) < request_size
    → Takes (length (post_request host path body)) later c.writes
    → Head mid status n c.answers
    → resp_buf_sz ≤ n
    → let (result, c') = p2p_https_post host path body resp_buf_sz c in
      (result ≡ some (status, [])) × Carries mid [] c'.answers
unfolding p2p_https_post
p2p_https_post-unread {later = later} host path body resp_buf_sz n status c h w head big =
    let req = post_request host path body in
    let sent = send_request-Takes req c (post_request-given host path body) h w in
    let (end, r, t) =
      after_request-Head resp_buf_sz (record c { writes = later; sent = c.sent ++ req }) head in
    let e =
      r
      ∙ read_body-long resp_buf_sz n status
          (record c { answers = end; writes = later; sent = c.sent ++ req }) big in
    rw (sent, e) (refl, t)

le-append : (n : ℕ) (p q : List ℕ) → n ≤ length q → n ≤ length (p ++ q)
le-append n p q h = omega (arith, length-append p q, h)

post_request-body : (host path body : List ℕ) → length body ≤ length (post_request host path body)
unfolding post_request
post_request-body host path body =
    let n = length body in
    let last = crlf ++ body in
    let keep = (codes "Connection: keep-alive" ++ crlf) ++ last in
    let size = codes "Content-Length: " ++ (decimal (length body) ++ crlf) in
    let type = codes "Content-Type: application/json" ++ crlf in
    let h5 = le-append n crlf body (omega arith) in
    let h4 = le-append n (codes "Connection: keep-alive" ++ crlf) last h5 in
    let h3 = le-append n size keep h4 in
    let h2 = le-append n type (size ++ keep) h3 in
    let h1 = le-append n (codes "Host: " ++ (host ++ crlf)) (type ++ (size ++ keep)) h2 in
    le-append n (codes "POST " ++ (path ++ (codes " HTTP/1.1" ++ crlf)))
      ((codes "Host: " ++ (host ++ crlf)) ++ (type ++ (size ++ keep))) h1

-- A body of 2048 bytes or more is never posted, whatever the connection answers: nothing is written or read,
-- and the result is -1.
pub p2p_https_post-long :
    (host path body : List ℕ) (resp_buf_sz : ℕ) (c : Connection)
    → request_size ≤ length body
    → p2p_https_post host path body resp_buf_sz c ≡ (none, c)
unfolding p2p_https_post
p2p_https_post-long host path body resp_buf_sz c h =
    rw
      (send_request-long (post_request host path body) c
        (omega (arith, h, post_request-body host path body)))
      refl
