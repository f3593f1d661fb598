-- ===== src/Recovery/Packets.antt =====
-- The packets that are out, as a list by ascending number: their bytes, and what is removed.
use dtp.Base.{
  Bool-cases, ltb→lt, ◌&&◌, ◌||◌, not, ℕ, ◌+◌, ◌<◌, ◌≡◌, inl, inr, refl, Bool, true, false, none,
  some, List, [], ◌∷◌, All, ltb, ◌==◌, if◌then◌else◌, arith,
}
use dtp.Recovery.{Sent, find, without, insert}
use dtp.Recovery.Acks.{take_frames}
use dtp.Recovery.Calls.{unacked_bytes}

-- What a packet adds to the bytes in flight.
abbrev pub weight : Sent → ℕ
weight p = if p.in_flight then p.size else 0

abbrev pub IsAscending : List Sent → Type 0
IsAscending [] = Unit {0}
IsAscending (p ∷ ps) = All (λ q. p.pkt_num < q.pkt_num) ps × IsAscending ps

pub find_number : (k : ℕ) (ps : List Sent) (p : Sent) → find k ps ≡ some p → p.pkt_num ≡ k
unfolding find
find_number k [] p h = cc
find_number k (q ∷ ps) p h = ground (arith, h, find_number k ps p)

pub unacked_bytes-without :
    (k : ℕ) (ps : List Sent) (p : Sent)
    → find k ps ≡ some p
    → unacked_bytes ps ≡ weight p + unacked_bytes (without k ps)
unfolding find without unacked_bytes
unacked_bytes-without k [] p h = cc
unacked_bytes-without k (q ∷ ps) p h = ground (arith, h, unacked_bytes-without k ps p)

pub unacked_bytes-insert :
    (p : Sent) (ps : List Sent)
    → find p.pkt_num ps ≡ none
    → unacked_bytes (insert p ps) ≡ weight p + unacked_bytes ps
unfolding find insert unacked_bytes
unacked_bytes-insert p [] h = refl
unacked_bytes-insert p (q ∷ ps) h = ground (arith, h, unacked_bytes-insert p ps)

pub unacked_bytes-take_frames :
    (k : ℕ) (ps : List Sent) → unacked_bytes (take_frames k ps) ≡ unacked_bytes ps
unfolding take_frames unacked_bytes
unacked_bytes-take_frames k [] = refl
unacked_bytes-take_frames k (q ∷ ps) = ground (arith, unacked_bytes-take_frames k ps)

module _ (P : Sent → Type 0) where
  pub All-find : (k : ℕ) (ps : List Sent) (p : Sent) → All P ps → find k ps ≡ some p → P p
  unfolding find
  All-find k [] p a h = cc
  All-find k (q ∷ ps) p a h = ground (arith, a, h, All-find k ps p a.1)

  pub All-without : (k : ℕ) (ps : List Sent) → All P ps → All P (without k ps)
  unfolding without
  All-without k [] a = tt
  All-without k (q ∷ ps) a = ground (arith, a, All-without k ps a.1)

  pub All-insert : (p : Sent) (ps : List Sent) → P p → All P ps → All P (insert p ps)
  unfolding insert
  All-insert p [] h a = (h, tt)
  All-insert p (q ∷ ps) h a = ground (arith, h, a, All-insert p ps h a.1)

  pub All-take_frames :
      (k : ℕ) (ps : List Sent)
      → ((p : Sent) → P p → P (record p { frames = [] }))
      → All P ps
      → All P (take_frames k ps)
  unfolding take_frames
  All-take_frames k [] f a = tt
  All-take_frames k (q ∷ ps) f a = ground (arith, a, f q a.0, All-take_frames k ps f a.1)

pub All-imp :
    {P Q : Sent → Type 0} (ps : List Sent) → ((p : Sent) → P p → Q p) → All P ps → All Q ps
All-imp [] f a = tt
All-imp (p ∷ ps) f a = (f p a.0, All-imp ps f a.1)

pub without-IsAscending : (k : ℕ) (ps : List Sent) → IsAscending ps → IsAscending (without k ps)
unfolding without
without-IsAscending k [] a = tt
without-IsAscending k (q ∷ ps) a =
    ground
      (arith, a, All-without (λ x. q.pkt_num < x.pkt_num) k ps a.0, without-IsAscending k ps a.1)

pub insert-IsAscending : (p : Sent) (ps : List Sent) → IsAscending ps → IsAscending (insert p ps)
unfolding insert
insert-IsAscending p [] a = (tt, tt)
insert-IsAscending p (q ∷ ps) a = elim (Bool-cases (ltb p.pkt_num q.pkt_num)) [
  | inl e ↦
      let l = ltb→lt p.pkt_num q.pkt_num e in
      rw (insert, e) ((l, All-imp ps (λ x h. omega arith) a.0), a)
  | inr e ↦ elim (Bool-cases (q.pkt_num == p.pkt_num)) [
    | inl f ↦
        let s : q.pkt_num ≡ p.pkt_num = ground (arith, f) in
        rw (insert, e, f) (All-imp ps (λ x h. omega arith) a.0, a.1)
    | inr f ↦
        let l : q.pkt_num < p.pkt_num = ground (arith, e, f) in
        rw (insert, e, f)
          (All-insert (λ x. q.pkt_num < x.pkt_num) p ps l a.0, insert-IsAscending p ps a.1)
  ]
]

pub take_frames-IsAscending :
    (k : ℕ) (ps : List Sent) → IsAscending ps → IsAscending (take_frames k ps)
unfolding take_frames
take_frames-IsAscending k [] a = tt
take_frames-IsAscending k (q ∷ ps) a = ground (
  arith,
  a,
  All-take_frames (λ x. q.pkt_num < x.pkt_num) k ps (λ p h. h) a.0,
  take_frames-IsAscending k ps a.1,
)

-- Whether a packet is out.
unfoldable pub is_out : ℕ → List Sent → Bool
is_out x [] = false
is_out x (p ∷ ps) = p.pkt_num == x || is_out x ps

pub is_out-take_frames : (x k : ℕ) (ps : List Sent) → is_out x (take_frames k ps) ≡ is_out x ps
unfolding is_out take_frames
is_out-take_frames x k [] = refl
is_out-take_frames x k (q ∷ ps) = ground (arith, is_out-take_frames x k ps)

pub not_out : (x : ℕ) (ps : List Sent) → All (λ q. x < q.pkt_num) ps → is_out x ps ≡ false
unfolding is_out
not_out x [] a = refl
not_out x (q ∷ ps) a = ground (arith, a.0, not_out x ps a.1)

pub is_out-without :
    (x k : ℕ) (ps : List Sent)
    → IsAscending ps
    → is_out x (without k ps) ≡ (is_out x ps && not (x == k))
unfolding is_out without
is_out-without x k [] a = refl
is_out-without x k (q ∷ ps) a = ground (arith, not_out q.pkt_num ps a.0, is_out-without x k ps a.1)

pub find-is_out : (x : ℕ) (ps : List Sent) → find x ps ≡ none → is_out x ps ≡ false
unfolding find is_out
find-is_out x [] e = refl
find-is_out x (q ∷ ps) e = ground (arith, e, find-is_out x ps)

pub found-is_out : (x : ℕ) (ps : List Sent) (p : Sent) → find x ps ≡ some p → is_out x ps ≡ true
unfolding find is_out
found-is_out x [] p e = cc
found-is_out x (q ∷ ps) p e = ground (arith, e, found-is_out x ps p)

pub is_out-insert : (p : Sent) (ps : List Sent) → is_out p.pkt_num (insert p ps) ≡ true
unfolding is_out insert
is_out-insert p [] = ground arith
is_out-insert p (q ∷ ps) = ground (arith, is_out-insert p ps)
