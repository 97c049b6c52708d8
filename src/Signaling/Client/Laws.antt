-- ===== src/Signaling/Client/Laws.antt =====
-- What a message of the signaling client of src/p2p/src/p2p_signaling.c is, and when it is posted.
use libp2pchannel.Prelude.{
  ℕ, ◌<◌, ◌≡◌, refl, ap, ◌⊎◌, inl, inr, Bool, true, false, ◌&&◌, Option, none, some, List, [], ◌∷◌,
  ◌++◌, arith, ltb, if◌then◌else◌, Bool-cases, length, ℤ,
}
use libp2pchannel.Prelude.Text.{snprintf_s_short}
use libp2pchannel.Signaling.Posts.{max_msg_size}
use libp2pchannel.Signaling.Posts.Laws.{IsValid, contents, contents-post_signal_async}
use libp2pchannel.Signaling.Build.{Signal, build_signal_json, signal_pieces, closing}
use libp2pchannel.Signaling.Build.Laws.{concat, build_signal_json-whole}
use libp2pchannel.Signaling.Client.{Client, body_of, is_success, send_signal, send_signal_async}

abbrev pub is_some : Option (List ℕ) → Bool
is_some none = false
is_some (some body) = true

abbrev pub text_of : Signal → List ℕ
text_of s = concat (signal_pieces s ++ closing)

-- A body is the whole text of its message, and it fits.
pub body_of-whole :
    (s : Signal)
    → (body_of s ≡ none) ⊎ ((body_of s ≡ some (text_of s)) × (length (text_of s) < max_msg_size))
unfolding body_of
body_of-whole s = elim (Bool-cases (build_signal_json s max_msg_size).1) [
  | inl ok ↦
      let (whole, _, fits) = build_signal_json-whole s max_msg_size ok in
      inr (rw (ok, whole) refl, omega (arith, ap length whole))
  | inr bad ↦ inl (rw bad refl)
]

-- A message through the queue: it is accepted just if the client is connected, the message has a body, the
-- worker runs and fewer than 31 bodies wait. Then the whole text of the message, which is shorter than
-- its slot, stands behind those that wait; otherwise the queue is as it was.
pub send_signal_async-queued :
    (s : Signal) (c : Client)
    → IsValid c.post_queue
    → let (c', ok) = send_signal_async s c in
      (ok ≡ (
        c.is_connected
        && (is_some (body_of s)
            && (c.post_queue.running && ltb (length (contents c.post_queue)) 31))))
      × (contents c'.post_queue
          ≡ (if ok then contents c.post_queue ++ (text_of s ∷ []) else contents c.post_queue))
unfolding send_signal_async
send_signal_async-queued s c v = elim (body_of-whole s) [
  | inl e ↦ ground (arith, e)
  | inr (e, fits) ↦ ground (
    arith,
    e,
    snprintf_s_short max_msg_size (text_of s) fits,
    contents-post_signal_async (text_of s) v,
  )
]

-- A message that is posted at once is posted just if the client is connected and the message has a body,
-- and then whole; the call succeeds just if it was posted and the server answers with a status from
-- 200 to 299.
pub send_signal-whole :
    (s : Signal) (status : ℤ) (c : Client)
    → let (posted, ok) = send_signal s status c in
      let goes = c.is_connected && is_some (body_of s) in
      (posted ≡ (if goes then some (text_of s) else none)) × (ok ≡ (goes && is_success status))
unfolding send_signal
send_signal-whole s status c = elim (body_of-whole s) [
  | inl e ↦ ground (arith, e)
  | inr (e, fits) ↦ ground (arith, e)
]
