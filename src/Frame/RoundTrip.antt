-- ===== src/Frame/RoundTrip.antt =====
-- `to_bytes`, `wire_len` and `from_bytes` together.
use dtp.Base.{
  ◌+◌, ◌-◌, ◌≤◌, ◌<◌, ◌≡◌, refl, ap, ◌∙◌, true, length, drop, arith, length-append, ok, err, Error,
}
use dtp.Octets.{Octets, cap}
use dtp.Octets.Writes.{written, length-overwrite, drop-overwrite}
use dtp.Packet.{PacketType}
use dtp.Frame.{Frame, allowed}
use dtp.Frame.Parse.{from_bytes}
use dtp.Frame.Print.{to_bytes}
use dtp.Frame.Wire.{wire, IsEncodable}
use dtp.Frame.Writes.{put_frame-Writes}
use dtp.Frame.Reads.{from_bytes-Reads, Follows}

pub to_bytes_fits :
    (f : Frame) (b : Octets)
    → IsEncodable f
    → b.off + length (wire f) ≤ length b.buf
    → to_bytes f b ≡ ok (length (wire f), written (wire f) b)
unfolding to_bytes
to_bytes_fits f b h room =
    let e : cap b - cap (written (wire f) b) ≡ length (wire f) =
      omega (arith, length-overwrite b.buf b.off (wire f) room) in
    ground (arith, (put_frame-Writes f h).fits b room, e)

pub to_bytes_short :
    (f : Frame) (b : Octets)
    → IsEncodable f
    → b.off ≤ length b.buf
    → length b.buf < b.off + length (wire f)
    → to_bytes f b ≡ err Error.buffer_too_short
unfolding to_bytes
to_bytes_short f b h i full = ground (arith, (put_frame-Writes f h).short b i full)

-- A frame whose fields fit the wire form, written into a buffer that has room for it, is read back
-- from where it was written, by the same number of bytes, if the packet type may carry it and, for
-- PADDING, if no zero byte follows.
pub from_bytes-to_bytes :
    (pkt : PacketType) (f : Frame) (b : Octets)
    → IsEncodable f
    → allowed pkt f ≡ true
    → b.off + length (wire f) ≤ length b.buf
    → Follows f (drop (b.off + length (wire f)) b.buf)
    → (b' : Octets) × (to_bytes f b ≡ ok (length (wire f), b'))
      × (b'.off ≡ b.off + length (wire f))
      × (from_bytes pkt (record b' { off = b.off }) ≡ ok (f, b'))
from_bytes-to_bytes pkt f b h a room z =
    let t = drop (b.off + length (wire f)) b.buf in
    let b' : Octets = written (wire f) b in
    let (b2, e, r, w, l) =
      (from_bytes-Reads pkt f t h a z).run (record b' { off = b.off })
        (drop-overwrite b.buf b.off (wire f) room) in
    let off : b2.off ≡ b'.off = omega (arith, l, length-append (wire f) t) in
    let same : b2 ≡ b' = cc (w, off) in
    (b', to_bytes_fits f b h room, refl, e ∙ ap (λ s. ok (f, s)) same)
