-- ===== src/Stream/SendBuf/Queue.antt =====
-- `SendBuf` as a queue of bytes: chunks in one piece, from the front up to the offset.
use dtp.Base.{
  ℕ, ◌+◌, ◌≤◌, ◌<◌, ◌^◌, ◌≡◌, refl, ap, sym, ◌∙◌, List, [], ◌∷◌, ◌++◌, length, arith, length-append,
  append_assoc, append-nil,
}
use dtp.Stream.RangeBuf.{RangeBuf, len, stop}
use dtp.Stream.Heap.{heap_push}
use dtp.Stream.SendBuf.{SendBuf, ack_off}

-- Chunks with data, one behind the other from `lo` to `hi`.
abbrev pub Runs : ℕ → ℕ → List RangeBuf → Type 0
Runs lo hi [] = lo ≡ hi
Runs lo hi (c ∷ h) = (c.off ≡ lo) × (0 < len c) × Runs (stop c) hi h

-- The bytes of the chunks.
unfoldable pub bytes_of : List RangeBuf → List ℕ
bytes_of [] = []
bytes_of (c ∷ h) = c.bytes ++ bytes_of h

pub record IsQueue (front : ℕ) (s : SendBuf) : Type 0 where
  pub runs : Runs front s.off s.chunks
  pub count : front + s.len ≡ s.off
  pub limited : s.off ≤ s.max_data
  pub width : s.max_data < 2 ^ 62
  pub behind : ack_off s.acked ≤ front

pub Runs-le : (lo hi : ℕ) (h : List RangeBuf) → Runs lo hi h → lo ≤ hi
Runs-le lo hi [] r = omega arith
Runs-le lo hi (c ∷ h) r = omega (arith, r.0, Runs-le (stop c) hi h r.2)

pub length-bytes_of : (lo hi : ℕ) (h : List RangeBuf) → Runs lo hi h → lo + length (bytes_of h) ≡ hi
unfolding bytes_of
length-bytes_of lo hi [] r = omega arith
length-bytes_of lo hi (c ∷ h) r =
    omega (arith, r.0, length-append c.bytes (bytes_of h), length-bytes_of (stop c) hi h r.2)

-- A chunk at the end goes to the end of the heap.
pub heap_push_last :
    (lo hi : ℕ) (b : RangeBuf) (h : List RangeBuf)
    → Runs lo hi h
    → b.off ≡ hi
    → heap_push b h ≡ h ++ (b ∷ [])
unfolding heap_push
heap_push_last lo hi b [] r e = refl
heap_push_last lo hi b (c ∷ h) r e =
    ground (arith, e, r.0, r.1, Runs-le (stop c) hi h r.2, heap_push_last (stop c) hi b h r.2 e)

-- A chunk at the front goes to the front.
pub heap_push_first :
    (lo hi : ℕ) (b : RangeBuf) (h : List RangeBuf)
    → Runs lo hi h
    → b.off ≤ lo
    → heap_push b h ≡ b ∷ h
unfolding heap_push
heap_push_first lo hi b [] r e = refl
heap_push_first lo hi b (c ∷ h) r e = ground (arith, e, r.0)

pub Runs-append :
    (lo hi : ℕ) (b : RangeBuf) (h : List RangeBuf)
    → Runs lo hi h
    → b.off ≡ hi
    → 0 < len b
    → Runs lo (stop b) (h ++ (b ∷ []))
Runs-append lo hi b [] r e l = (omega (arith, e), l, refl)
Runs-append lo hi b (c ∷ h) r e l = (r.0, r.1, Runs-append (stop c) hi b h r.2 e l)

pub bytes_of-append :
    (h : List RangeBuf) (b : RangeBuf) → bytes_of (h ++ (b ∷ [])) ≡ bytes_of h ++ b.bytes
unfolding bytes_of
bytes_of-append [] b = append-nil b.bytes
bytes_of-append (c ∷ h) b =
    ap (λ t. c.bytes ++ t) (bytes_of-append h b) ∙ sym (append_assoc c.bytes (bytes_of h) b.bytes)
