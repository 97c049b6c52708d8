-- ===== src/Tests/Callbacks.antt =====
-- Runs of the callbacks of a peer and of the remaining sends.
use libp2pchannel.Prelude.{◌≡◌, refl, true, some, none, [], ◌∷◌, pos, ◌^◌, ◌+◌}
use libp2pchannel.Adapter.{quic_connected}
use libp2pchannel.Adapter.FrameType
use libp2pchannel.Peer.{
  failure, on_ice_candidate, on_ice_gathering_done, on_bitrate_change, fresh_peer, on_data_recv,
  success,
}
use libp2pchannel.Peer.Ice.{ice_on_candidate, ice_on_gathering_done, write_socket}
use libp2pchannel.Peer.Quic.{conn_create_notify, handshake_finished}
use libp2pchannel.Peer.Moq.{
  on_session_setup, on_datachannel, on_catalog, on_bitrate, on_video, on_audio, MediaFrame,
  header_of_type,
}
use libp2pchannel.Peer.Send.{
  send_control, send_video_stop, send_video_start, send_audio_stop, send_audio_start, send_ping,
}
use libp2pchannel.Tests.Links.{viewer, linked, waiting}

adopted : (conn_create_notify (some 3) 4 4 waiting).1 ≡ success
unfolding conn_create_notify fresh_peer
adopted = refl

finished : (handshake_finished viewer 70 waiting).0.state ≡ quic_connected
unfolding handshake_finished
finished = refl

passed_on :
    (ice_on_candidate viewer (b'c' ∷ []) waiting ≡ on_ice_candidate 1 (b'c' ∷ []) ∷ [])
    × (ice_on_gathering_done viewer waiting ≡ on_ice_gathering_done 1 ∷ [])
unfolding ice_on_candidate ice_on_gathering_done fresh_peer
passed_on = (refl, refl)

no_agent : write_socket 9000 (λ a. true) 5 (fresh_peer 2) 0 ≡ (fresh_peer 2, 0, none)
unfolding write_socket fresh_peer
no_agent = refl

set_up : (on_session_setup viewer (some 1) (some 2) linked).video_track ≡ none
unfolding on_session_setup fresh_peer
set_up = refl

opened : (on_datachannel waiting).datachannel_ready ≡ true
unfolding on_datachannel
opened = refl

catalogued : on_catalog [] linked ≡ []
unfolding on_catalog
catalogued = refl

bitrate_told : on_bitrate viewer 900 linked ≡ on_bitrate_change 1 900 ∷ []
unfolding on_bitrate fresh_peer
bitrate_told = refl

abbrev arriving : MediaFrame
arriving = record { is_key = true; seq_num = 2 ^ 32 + 5; timestamp_us = 80; bytes = 1 ∷ [] }

video_told :
    (on_video viewer 12 arriving linked).1
    ≡ on_data_recv 1
        (record (header_of_type FrameType.video) {
          flags = 1;
          seq = 5;
          timestamp_us = 80;
          total_len = 1;
          frag_len = 1;
        })
        (some (1 ∷ []))
      ∷ []
unfolding on_video fresh_peer
video_told = refl

audio_subscribed : (on_audio viewer 12 arriving linked).0.audio_subscribe_id ≡ pos 12
unfolding on_audio fresh_peer
audio_subscribed = refl

unlinked :
    ((send_video_stop 9000 true waiting 0).1 ≡ failure)
    × ((send_video_start 9000 true waiting 0).1 ≡ failure)
    × ((send_audio_stop 9000 true waiting 0).1 ≡ failure)
    × ((send_audio_start 9000 true waiting 0).1 ≡ failure)
    × ((send_ping 9000 true waiting 0).1 ≡ failure)
unfolding send_video_stop send_video_start send_audio_stop send_audio_start send_ping send_control
    fresh_peer
unlinked = (refl, refl, refl, refl, refl)
