-- ===== src/Octets/Tests.antt =====
-- Runs of the buffer operations, on the inputs of the tests in src/octets.rs.
use dtp.Base.{ℕ, ◌+◌, ◌≡◌, refl, List, [], ◌∷◌, ok, arith}
use dtp.Octets.{Octets, get_varint, put_varint, varint_len}
use dtp.Octets.RoundTrip.{get_varint-put_varint}

abbrev d8 : List ℕ
d8 = 0xc2 ∷ 0x19 ∷ 0x7c ∷ 0x5e ∷ 0xff ∷ 0x14 ∷ 0xe8 ∷ 0x8c ∷ []

get_varint_eight :
    get_varint (record { buf = d8; off = 0 })
    ≡ ok (151288809941952652, record { buf = d8; off = 8 })
unfolding get_varint
get_varint_eight = refl

put_varint_four :
    put_varint 494878333 (record { buf = 0 ∷ 0 ∷ 0 ∷ 0 ∷ []; off = 0 })
    ≡ ok (tt, record { buf = 0x9d ∷ 0x7f ∷ 0x3e ∷ 0x7d ∷ []; off = 4 })
unfolding put_varint
put_varint_four = refl

abbrev room : Octets
room = record { buf = 7 ∷ 0 ∷ 0 ∷ 0 ∷ 0 ∷ 9 ∷ []; off = 1 }

get_varint-put_varint_example :
    (b' : Octets) × (put_varint 494878333 room ≡ ok (tt, b'))
    × (b'.off ≡ 1 + 4)
    × (get_varint (record b' { off = 1 }) ≡ ok (494878333, b'))
unfolding varint_len
get_varint-put_varint_example =
    get_varint-put_varint 494878333 4 room (omega arith) refl (omega arith)
