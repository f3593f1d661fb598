-- ===== src/Octets/Rules.antt =====
-- The rules by which the reader and the writer of a message are taken step by step: one for each
-- buffer operation in front of a continuation.
use dtp.Base.{
  ℕ, ◌^◌, ◌≤◌, ◌<◌, ◌≡◌, sym, subst, Bool, false, List, ◌++◌, length, arith, Error, ltb, le→ltb,
  ◌+◌, ◌-◌, length-drop, ok,
}
use dtp.Base.Bytes.{to_be}
use dtp.Octets.{
  Octets, get_cap, as_ref, M, ◌>>=◌, ◌>>◌, fail_if, get_varint, get_bytes, get_u,
  get_bytes_with_varint_length, get_bytes_with_u8_length, put_varint, put_bytes,
}
use dtp.Octets.Reads.{Reads, Reads-bind, get_bytes-Reads, get_u-Reads}
use dtp.Octets.Writes.{Writes, Writes-bind, put_bytes-Writes}
use dtp.Octets.Varint.{varint, IsVarint, varint-Reads, put_varint-Writes}

module _ {B : Type 0} {u : List ℕ} {c : B} where
  pub read_num :
      (v : ℕ) (f : ℕ → M B) {s : List ℕ}
      → IsVarint v
      → Reads (f v) s c u
      → Reads (get_varint >>= f) (varint v ++ s) c u
  read_num v f {s} h q = Reads-bind get_varint f (varint-Reads v h s) q

  pub read_bytes :
      (n : ℕ) (xs : List ℕ) (f : List ℕ → M B) {s : List ℕ}
      → length xs ≡ n
      → Reads (f xs) s c u
      → Reads (get_bytes n >>= f) (xs ++ s) c u
  read_bytes n xs f {s} e q =
      subst (λ k. Reads (get_bytes k >>= f) (xs ++ s) c u) e
        (Reads-bind (get_bytes (length xs)) f (get_bytes-Reads xs s) q)

  pub read_u16 :
      (v : ℕ) (f : ℕ → M B) {s : List ℕ}
      → v < 2 ^ 16
      → Reads (f v) s c u
      → Reads (get_u 2 >>= f) (to_be 2 v ++ s) c u
  read_u16 v f {s} h q =
      Reads-bind (get_u 2) f
        (subst (λ w. Reads (get_u 2) (to_be 2 v ++ s) w s) (omega arith)
          (get_u-Reads (to_be 2 v) s))
        q

  pub read_prefixed :
      (xs : List ℕ) (f : List ℕ → M B) {s : List ℕ}
      → IsVarint (length xs)
      → Reads (f xs) s c u
      → Reads (get_bytes_with_varint_length >>= f) (varint (length xs) ++ (xs ++ s)) c u
  read_prefixed xs f {s} h q =
      Reads-bind get_bytes_with_varint_length f {t = s} {a = xs}
        (unfold get_bytes_with_varint_length in
          Reads-bind get_varint get_bytes (varint-Reads (length xs) h (xs ++ s))
            (get_bytes-Reads xs s))
        q

  pub read_u8_prefixed :
      (xs : List ℕ) (f : List ℕ → M B) {s : List ℕ}
      → length xs < 2 ^ 8
      → Reads (f xs) s c u
      → Reads (get_bytes_with_u8_length >>= f) (to_be 1 (length xs) ++ (xs ++ s)) c u
  read_u8_prefixed xs f {s} h q =
      Reads-bind get_bytes_with_u8_length f {t = s} {a = xs}
        (unfold get_bytes_with_u8_length in
          Reads-bind (get_u 1) get_bytes
            (subst (λ w. Reads (get_u 1) (to_be 1 (length xs) ++ (xs ++ s)) w (xs ++ s))
              (omega arith) (get_u-Reads (to_be 1 (length xs)) (xs ++ s)))
            (get_bytes-Reads xs s))
        q

  -- A guard that does not fire.
  pub read_pass :
      (t : Bool) (e : Error) (k : M B) {s : List ℕ}
      → t ≡ false
      → Reads k s c u
      → Reads (fail_if t e >> k) s c u
  read_pass t e k {s} h q = subst (λ x. Reads (fail_if x e >> k) s c u) (sym h) q

pub write_num :
    (v : ℕ) (k : M (Unit {0})) (ys : List ℕ)
    → IsVarint v
    → Writes k ys
    → Writes (put_varint v >> k) (varint v ++ ys)
write_num v k ys h q = Writes-bind (put_varint v) k (varint v) ys (put_varint-Writes v h) q

pub write_prefixed :
    (xs : List ℕ)
    → IsVarint (length xs)
    → Writes (put_varint (length xs) >> put_bytes xs) (varint (length xs) ++ xs)
write_prefixed xs h = write_num (length xs) (put_bytes xs) xs h (put_bytes-Writes xs)

pub read_pass_ltb :
    {B : Type 0} (a b : ℕ) (e : Error) (k : M B) {s u : List ℕ} {c : B}
    → b ≤ a
    → Reads k s c u
    → Reads (fail_if (ltb a b) e >> k) s c u
read_pass_ltb a b e k h q = read_pass (ltb a b) e k (le→ltb a b h) q

module _ {B : Type 0} {u : List ℕ} {c : B} where
  pub read_u8 :
      (v : ℕ) (f : ℕ → M B) {s : List ℕ}
      → v < 2 ^ 8
      → Reads (f v) s c u
      → Reads (get_u 1 >>= f) (to_be 1 v ++ s) c u
  read_u8 v f {s} h q =
      Reads-bind (get_u 1) f
        (subst (λ w. Reads (get_u 1) (to_be 1 v ++ s) w s) (omega arith)
          (get_u-Reads (to_be 1 v) s))
        q

  pub read_u32 :
      (v : ℕ) (f : ℕ → M B) {s : List ℕ}
      → v < 2 ^ 32
      → Reads (f v) s c u
      → Reads (get_u 4 >>= f) (to_be 4 v ++ s) c u
  read_u32 v f {s} h q =
      Reads-bind (get_u 4) f
        (subst (λ w. Reads (get_u 4) (to_be 4 v ++ s) w s) (omega arith)
          (get_u-Reads (to_be 4 v) s))
        q

  -- The room that is left is the number of bytes that are left to read.
  pub read_cap :
      (f : ℕ → M B) (s : List ℕ) → Reads (f (length s)) s c u → Reads (get_cap >>= f) s c u
  read_cap f s q = record { run = λ b h. step b h }
    where
      step :
          (b : Octets)
          → as_ref b ≡ s
          → (b' : Octets) × ((get_cap >>= f) b ≡ ok (c, b'))
            × (as_ref b' ≡ u)
            × (b'.buf ≡ b.buf)
            × (b'.off + length u ≡ b.off + length s)
      step b h =
          let same : length (as_ref b) ≡ length s = rw h in
          let room : length b.buf - b.off ≡ length s = omega (arith, length-drop b.off b.buf) in
          rw (room) (q.run b h)
