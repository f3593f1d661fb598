-- ===== src/Stream/Streams.antt =====
-- src/stream.rs, `Stream`: both directions of a stream. (The application's `data` is left out: no
-- operation of the file reads it.)
use dtp.Base.{ℕ, Bool, ◌&&◌, not, ◌==◌, ltb, if◌then◌else◌, bit_and}
use dtp.Stream.RecvBuf.{RecvBuf, recv_buf}
use dtp.Stream.RecvBuf as Recv
use dtp.Stream.SendBuf.{SendBuf, send_buf, new_full, front_off}
use dtp.Stream.SendBuf as Send

pub record Stream : Type 0 where
  pub recv : RecvBuf
  pub send : SendBuf
  pub bidi : Bool
  pub local : Bool

-- `Stream::new` and `Stream::new_full`, at the time `now`.
unfoldable pub stream : ℕ → ℕ → ℕ → Bool → Bool → Stream
unfolding recv_buf send_buf
stream now max_rx_data max_tx_data bidi local = record {
  recv = recv_buf max_rx_data;
  send = send_buf now max_tx_data;
  bidi = bidi;
  local = local;
}

unfoldable pub stream_full : ℕ → ℕ → ℕ → Bool → Bool → ℕ → ℕ → Stream
unfolding recv_buf new_full
stream_full now max_rx_data max_tx_data bidi local deadline priority = record {
  recv = recv_buf max_rx_data;
  send = new_full now max_tx_data deadline priority;
  bidi = bidi;
  local = local;
}

unfoldable pub is_readable : Stream → Bool
unfolding Recv.ready
is_readable s = Recv.ready s.recv

unfoldable pub is_writable : Stream → Bool
unfolding Send.is_fin
is_writable s = not s.send.shut && (not (Send.is_fin s.send) && ltb s.send.off s.send.max_data)

unfoldable pub is_flushable : Stream → Bool
unfolding Send.ready front_off
is_flushable s = Send.ready s.send && ltb (front_off s.send) s.send.max_data

unfoldable pub is_complete : Stream → Bool
unfolding Recv.is_fin Send.is_complete
is_complete s =
    if s.bidi
    then Recv.is_fin s.recv && Send.is_complete s.send
    else if s.local
    then Send.is_complete s.send
    else Recv.is_fin s.recv

-- The two low bits of a stream's number say who opened it and how it goes.
unfoldable pub is_local : ℕ → Bool → Bool
is_local stream_id is_server = bit_and stream_id 0x1 == (if is_server then 1 else 0)

unfoldable pub is_bidi : ℕ → Bool
is_bidi stream_id = bit_and stream_id 0x2 == 0
