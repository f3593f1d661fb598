-- ===== src/Octets/RoundTrip.antt =====
-- `put_varint` and `get_varint` together, on a buffer.
use dtp.Base.{ℕ, ◌+◌, ◌≤◌, ◌≡◌, ok, length, drop, length-append, arith, ◌∙◌, ap}
use dtp.Octets.{Octets, get_varint, put_varint, varint_len}
use dtp.Octets.Writes.{written, drop-overwrite}
use dtp.Octets.Varint.{varint, IsVarint, varint-Reads, put_varint-Writes, varint_len-length}

-- Where `varint_len` bytes are left for a number below 2 ^ 62, `put_varint` succeeds and moves the
-- offset over exactly so many, and `get_varint` at the old offset returns the number and leaves
-- the buffer as `put_varint` did.
pub get_varint-put_varint :
    (v n : ℕ) (b : Octets)
    → IsVarint v
    → varint_len v ≡ ok n
    → b.off + n ≤ length b.buf
    → (b' : Octets) × (put_varint v b ≡ ok (tt, b'))
      × (b'.off ≡ b.off + n)
      × (get_varint (record b' { off = b.off }) ≡ ok (v, b'))
get_varint-put_varint v n b h e room =
    let same : length (varint v) ≡ n = ground (arith, varint_len-length v h, e) in
    let t = drop (b.off + length (varint v)) b.buf in
    let b' : Octets = written (varint v) b in
    let (b2, run, left, w, l) =
      (varint-Reads v h t).run (record b' { off = b.off })
        (drop-overwrite b.buf b.off (varint v) (omega arith)) in
    let off : b2.off ≡ b'.off = omega (arith, l, length-append (varint v) t) in
    let all : b2 ≡ b' = cc (w, off) in
    (b', (put_varint-Writes v h).fits b (omega arith), omega arith, run ∙ ap (λ s. ok (v, s)) all)
