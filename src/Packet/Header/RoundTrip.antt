-- ===== src/Packet/Header/RoundTrip.antt =====
-- `to_bytes`, `from_bytes` and `update_fec_info` together.
use dtp.Base.{
  ℕ, ◌+◌, ◌-◌, ◌≤◌, ◌≡◌, refl, sym, ap, ◌∙◌, List, ◌++◌, append_assoc, replicate, length, drop,
  arith, length-append, take-append_length, drop-append_length, ltb, le→ltb, false, ok,
}
use dtp.Base.Bytes.{to_be}
use dtp.Fec.{FecStatus}
use dtp.Octets.{Octets, with_slice, split_at, overwrite}
use dtp.Octets.Writes.{Writes, Writes-bind, put_u-Writes, written, drop-overwrite}
use dtp.Packet.Header.{Header, from_bytes, to_bytes, put_info, joined, in_second, update_fec_info}
use dtp.Packet.Header.Wire.{short_byte, wire, wire_short, visible, IsWritable, IsTagged}
use dtp.Packet.Header.Writes.{to_bytes-Writes}
use dtp.Packet.Header.Reads.{from_bytes-Reads}

-- A header whose fields fit the wire form, written into a buffer that has room for it, is read back
-- from where it was written, by the same number of bytes, without the packet number, its length and
-- the key phase, if the length of the destination connection id is given and exactly the tag follows
-- a Retry packet.
pub from_bytes-to_bytes_header :
    (tag_len : ℕ) (h : Header) (b : Octets)
    → IsWritable h
    → b.off + length (wire h) ≤ length b.buf
    → IsTagged tag_len h.ty (drop (b.off + length (wire h)) b.buf)
    → (b' : Octets) × (to_bytes h b ≡ ok (tt, b'))
      × (b'.off ≡ b.off + length (wire h))
      × (from_bytes tag_len (length h.dcid) (record b' { off = b.off }) ≡ ok (visible h, b'))
from_bytes-to_bytes_header tag_len h b w room g =
    let t = drop (b.off + length (wire h)) b.buf in
    let b' : Octets = written (wire h) b in
    let (b2, e, r, same_buf, l) =
      (from_bytes-Reads tag_len h t w g).run (record b' { off = b.off })
        (drop-overwrite b.buf b.off (wire h) room) in
    let off : b2.off ≡ b'.off = omega (arith, l, length-append (wire h) t) in
    let same : b2 ≡ b' = cc (same_buf, off) in
    (b', (to_bytes-Writes h w).fits b room, refl, e ∙ ap (λ s. ok (visible h, s)) same)

-- The seven bytes of the numbers.
abbrev numbers : FecStatus → List ℕ
numbers i = to_be 4 i.group_id ++ (to_be 1 i.index ++ (to_be 1 i.m ++ to_be 1 i.n))

put_info-Writes : (i : FecStatus) → Writes (put_info i) (numbers i)
unfolding put_info
put_info-Writes i = Writes-bind _ _ _ _ (put_u-Writes 4 i.group_id) (
    Writes-bind _ _ _ _ (put_u-Writes 1 i.index)
      (Writes-bind _ _ _ _ (put_u-Writes 1 i.m) (put_u-Writes 1 i.n)))

length-numbers : (i : FecStatus) → length (numbers i) ≡ 7
length-numbers i = refl

-- Seven bytes at the begin are replaced.
replaced :
    (i j : FecStatus) (tail : List ℕ)
    → overwrite (numbers i ++ tail) 0 (numbers j) ≡ numbers j ++ tail
replaced i j tail = refl

-- A buffer is updated between the connection id and what follows the numbers.
between :
    (h : Header) (front tail : List ℕ) (i : FecStatus) (off : ℕ)
    → length front ≡ 1 + length h.dcid
    → update_fec_info h (record { buf = front ++ (numbers i ++ tail); off = off })
      ≡ ok (record { buf = front ++ (numbers h.fec_info ++ tail); off = off })
unfolding update_fec_info split_at with_slice in_second joined
between h front tail i off e =
    let old = numbers i ++ tail in
    let new = numbers h.fec_info in
    let room : 0 + length new ≤ length old =
      omega (arith, length-numbers h.fec_info, length-numbers i, length-append (numbers i) tail) in
    let fits = (put_info-Writes h.fec_info).fits (record { buf = old; off = 0 }) room in
    let long : ltb (length (front ++ old)) (1 + length h.dcid) ≡ false =
      le→ltb _ _ (omega (arith, length-append front old)) in
    let left = take-append_length front old (1 + length h.dcid) (sym e) in
    let right = drop-append_length front old (1 + length h.dcid) (sym e) in
    let b : Octets = record { buf = front ++ old; off = off } in
    let split : split_at (1 + length h.dcid) b ≡ ok (with_slice front, with_slice old) =
      rw (split_at, long, left, right) refl in
    ap (in_second h.fec_info b) split
    ∙ ap (joined b (with_slice front)) fits
    ∙ ap (λ x. ok (record b { buf = front ++ x })) (replaced i h.fec_info tail)

-- The numbers for error correction are updated inside a written short header: what is in the buffer
-- then is the header with the new numbers, and what followed.
pub update_fec_info-wire :
    (h : Header) (info : FecStatus) (t : List ℕ) (off : ℕ)
    → update_fec_info (record h { fec_info = info }) (record { buf = wire_short h ++ t; off = off })
      ≡ ok (record { buf = wire_short (record h { fec_info = info }) ++ t; off = off })
update_fec_info-wire h info t off =
    let front = to_be 1 (short_byte h) ++ h.dcid in
    let tail = to_be 1 (4 - h.pkt_num_len) ++ (replicate (4 - h.pkt_num_len) 0 ++ t) in
    ap (λ x. update_fec_info (record h { fec_info = info }) (record { buf = x; off = off }))
      (parts h t)
    ∙ between (record h { fec_info = info }) front tail h.fec_info off (omega arith)
    ∙ ap (λ x. ok (record { buf = x; off = off })) (sym (parts (record h { fec_info = info }) t))
  where
    parts :
        (h : Header) (t : List ℕ)
        → wire_short h ++ t
          ≡ (to_be 1 (short_byte h) ++ h.dcid)
            ++ (numbers h.fec_info
                ++ (to_be 1 (4 - h.pkt_num_len) ++ (replicate (4 - h.pkt_num_len) 0 ++ t)))
    parts h t = simp append_assoc
