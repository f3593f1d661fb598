-- ===== src/Stream/SendBuf/Tests.antt =====
-- Runs of the send buffer, and its theorems on them.
use dtp.Base.{
  ℕ, ◌+◌, ◌-◌, ◌≡◌, refl, [], ◌∷◌, ◌++◌, true, false, ◌&&◌, leb, if◌then◌else◌, take, ok, arith,
  some, none, min,
}
use dtp.Stream.RangeBuf.{RangeBuf}
use dtp.Stream.SendBuf.{SendBuf, send_buf, push_slice}
use dtp.Stream.SendBuf.Queue.{IsQueue, bytes_of}
use dtp.Stream.SendBuf.Write.{IsOpen, push_slice-Appends}

-- Two chunks from offset 3 on, and room for 2 bytes more.
abbrev sending : SendBuf
sending = record (send_buf 0 10) {
  chunks =
      record { bytes = 7 ∷ 8 ∷ []; off = 3; fin = false }
      ∷ record { bytes = 9 ∷ 10 ∷ 11 ∷ []; off = 5; fin = false }
      ∷ [];
  off = 8;
  len = 5;
  acked = (0, 2) ∷ [];
}

sending-IsQueue : IsQueue 3 sending
unfolding send_buf dtp.Stream.SendBuf.new_full dtp.Stream.SendBuf.ack_off
sending-IsQueue = record {
  runs = ground arith;
  count = refl;
  limited = omega arith;
  width = omega arith;
  behind = omega arith;
}

sending-IsOpen : IsOpen 3 sending
unfolding send_buf dtp.Stream.SendBuf.new_full
sending-IsOpen = record { queue = sending-IsQueue; endless = refl; up = refl }

push_slice-Appends_example :
    (n : ℕ) × (s' : SendBuf) × (n ≡ min 3 (sending.max_data - sending.off))
    × (push_slice (1 ∷ 2 ∷ 3 ∷ []) true sending ≡ (ok n, s'))
    × IsQueue 3 s'
    × (bytes_of s'.chunks ≡ bytes_of sending.chunks ++ take n (1 ∷ 2 ∷ 3 ∷ []))
    × (s'.off ≡ sending.off + n)
    × (s'.fin_off ≡ (if true && leb 3 n then some s'.off else none))
push_slice-Appends_example = push_slice-Appends 3 (1 ∷ 2 ∷ 3 ∷ []) true sending sending-IsOpen
