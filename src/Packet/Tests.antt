-- ===== src/Packet/Tests.antt =====
-- Packet numbers on the wire, and their theorems on an example.
use dtp.Base.{ℕ, ◌||◌, ltb, true, false, ◌≡◌, refl, [], ◌∷◌, ok, arith}
use dtp.Base.Maps.{has}
use dtp.Octets.{Octets, get_u}
use dtp.Packet.Window.{
  PktNumWindow, pkt_num_window, insert, contains, nothing, next, Received-contains,
}
use dtp.Packet.Number.{pkt_num_len, encode_pkt_num, decode_pkt_num, decode_pkt_num-encode_pkt_num}

decode-rfc : decode_pkt_num 0xa82f30ea 0x9b32 2 ≡ 0xa82f9b32
unfolding decode_pkt_num
decode-rfc = refl

abbrev room : Octets
room = record { buf = 0 ∷ 0 ∷ 0 ∷ 0 ∷ []; off = 1 }

decode_pkt_num-encode_pkt_num_example :
    (x : ℕ) × (b' : Octets) × (encode_pkt_num 300 room ≡ ok (tt, b'))
    × (get_u 2 (record b' { off = 1 }) ≡ ok (x, b'))
    × (decode_pkt_num 250 x 2 ≡ 300)
unfolding pkt_num_len
decode_pkt_num-encode_pkt_num_example =
    decode_pkt_num-encode_pkt_num 250 300 2 room refl (omega arith) (omega arith) (omega arith)

abbrev two_received : PktNumWindow
two_received = insert 200 (insert 3 pkt_num_window)

Received-contains_example :
    contains 150 two_received ≡ (ltb 150 two_received.lower || has 150 (200 ∷ 3 ∷ []))
unfolding insert
Received-contains_example =
    Received-contains 150
      (next 200 (next 3 nothing (omega arith) (omega arith)) (omega arith) (omega arith))

-- 3 is left of the window from 73 on, 200 was seen, 150 was not.
received_runs :
    (contains 3 two_received ≡ true)
    × (contains 200 two_received ≡ true)
    × (contains 150 two_received ≡ false)
unfolding insert contains
received_runs = (refl, refl, refl)
