-- ===== src/Packet/Window.antt =====
-- src/packet.rs, `PktNumWindow`: which packet numbers were received. The 128-bit word `window` is only
-- used as a set of bits: it is the function that says of each bit whether it is set.
use dtp.Base.{
  ℕ, ◌+◌, ◌-◌, ◌%◌, ◌^◌, ◌≤◌, ◌<◌, ◌≡◌, refl, Bool, true, false, ◌&&◌, ◌||◌, List, [], ◌∷◌, ltb,
  leb, ◌==◌, if◌then◌else◌, arith, Bool-cases, inl, inr, ltb→lt,
}
use dtp.Base.Words.{saturating_add64}
use dtp.Base.Maps.{has}

pub record PktNumWindow : Type 0 where
  pub lower : ℕ
  pub window : ℕ → Bool

abbrev pub pkt_num_window : PktNumWindow
pkt_num_window = record { lower = 0; window = λ k. false }

abbrev pub upper : PktNumWindow → ℕ
upper w = saturating_add64 w.lower 128 - 1

-- `checked_shl(n).unwrap_or(0)`, at the bit `k`.
abbrev pub shifted : ℕ → (ℕ → Bool) → ℕ → Bool
shifted n window k = ltb n 128 && (leb n k && window (k - n))

-- The word `window | (1 << n)`, at the bit `k`; the amount of a shift wraps around.
abbrev pub with_bit : ℕ → (ℕ → Bool) → ℕ → Bool
with_bit n window k = (k == n % 128) || window k

-- The right end moves to `seq`; the distance is cut to 32 bits.
abbrev pub moved : ℕ → PktNumWindow → PktNumWindow
moved seq w =
    let diff = seq - upper w in
    record { lower = (w.lower + diff) % 2 ^ 64; window = shifted (diff % 2 ^ 32) w.window }

abbrev pub marked : ℕ → PktNumWindow → PktNumWindow
marked seq w = record w { window = with_bit (upper w - seq) w.window }

unfoldable pub insert : ℕ → PktNumWindow → PktNumWindow
insert seq w =
    if ltb seq w.lower then w else marked seq (if ltb (upper w) seq then moved seq w else w)

unfoldable pub contains : ℕ → PktNumWindow → Bool
contains seq w =
    if ltb (upper w) seq
    then false
    else if ltb seq w.lower
    then true
    else w.window ((upper w - seq) % 128)

-- Within the window the bits say which numbers were seen, and beyond it none was.
pub record IsWindow (seen : List ℕ) (w : PktNumWindow) : Type 0 where
  pub bits : (n : ℕ) → w.lower ≤ n → n ≤ w.lower + 127 → w.window (w.lower + 127 - n) ≡ has n seen
  pub beyond : (n : ℕ) → w.lower + 127 < n → has n seen ≡ false
  pub width : w.lower + 128 < 2 ^ 64

upper_lem : (w : PktNumWindow) → w.lower + 128 < 2 ^ 64 → upper w ≡ w.lower + 127
upper_lem w h = omega arith

-- A packet number counts as received exactly if it is left of the window or was seen.
pub contains_lem :
    (n : ℕ) (seen : List ℕ) (w : PktNumWindow)
    → IsWindow seen w
    → contains n w ≡ (ltb n w.lower || has n seen)
unfolding contains
contains_lem n seen w s =
    let u = upper_lem w s.width in
    elim (Bool-cases (ltb (w.lower + 127) n)) [
      | inl e ↦
          let b = s.beyond n (ltb→lt (w.lower + 127) n e) in
          let l : ltb n w.lower ≡ false = ground (arith, e) in rw (contains, u, e, l, b) refl
      | inr e ↦ elim (Bool-cases (ltb n w.lower)) [
        | inl f ↦ rw (contains, u, e, f) refl
        | inr f ↦
            let k : (w.lower + 127 - n) % 128 ≡ w.lower + 127 - n = ground (arith, e, f) in
            rw (contains, u, e, f, k) (s.bits n (ground (arith, f)) (ground (arith, e)))
      ]
    ]

left-IsWindow :
    (seq : ℕ) (seen : List ℕ) (w : PktNumWindow)
    → IsWindow seen w
    → seq < w.lower
    → IsWindow (seq ∷ seen) w
unfolding has
left-IsWindow seq seen w s h = record {
  bits = λ n a b. ground (arith, s.bits n a b, h, a);
  beyond = λ n a. ground (arith, s.beyond n a, h, a);
  width = s.width;
}

marked-IsWindow :
    (seq : ℕ) (seen : List ℕ) (w : PktNumWindow)
    → IsWindow seen w
    → w.lower ≤ seq
    → seq ≤ w.lower + 127
    → IsWindow (seq ∷ seen) (marked seq w)
unfolding has
marked-IsWindow seq seen w s h k =
    let u = upper_lem w s.width in
    let m : (upper w - seq) % 128 ≡ w.lower + 127 - seq = omega (arith, u) in
    record {
      bits = λ n a b. rw m (ground (arith, s.bits n a b, h, k, a, b));
      beyond = λ n a. ground (arith, s.beyond n a, k, a);
      width = s.width;
    }

and_false : (b : Bool) → (b && false) ≡ false
and_false true = refl
and_false false = refl

shifted_bits :
    (seq n : ℕ) (seen : List ℕ) (w : PktNumWindow)
    → IsWindow seen w
    → w.lower + 127 < seq
    → seq - 127 ≤ n
    → n ≤ seq - 127 + 127
    → shifted (seq - (w.lower + 127)) w.window (seq - 127 + 127 - n) ≡ has n seen
shifted_bits seq n seen w s l a b = elim (Bool-cases (ltb (w.lower + 127) n)) [
  | inl e ↦
      let past : leb (seq - (w.lower + 127)) (seq - 127 + 127 - n) ≡ false =
        ground (arith, e, l, a, b) in
      rw (past, s.beyond n (ltb→lt (w.lower + 127) n e))
        (and_false (ltb (seq - (w.lower + 127)) 128))
  | inr e ↦
      let i : n ≤ w.lower + 127 = ground (arith, e) in
      let near : ltb (seq - (w.lower + 127)) 128 ≡ true = ground (arith, i, a, l) in
      let in_word : leb (seq - (w.lower + 127)) (seq - 127 + 127 - n) ≡ true =
        ground (arith, i, a, b, l) in
      let bit : seq - 127 + 127 - n - (seq - (w.lower + 127)) ≡ w.lower + 127 - n =
        omega (arith, i, a, b, l) in
      rw (near, in_word, bit) (s.bits n (omega (arith, i, a, l)) i)
]

moved-IsWindow :
    (seq : ℕ) (seen : List ℕ) (w : PktNumWindow)
    → IsWindow seen w
    → w.lower + 127 < seq
    → seq + 1 < 2 ^ 64
    → seq < w.lower + 127 + 2 ^ 32
    → IsWindow seen (moved seq w) × ((moved seq w).lower + 127 ≡ seq)
moved-IsWindow seq seen w s l h k =
    let u = upper_lem w s.width in
    let c : (w.lower + (seq - upper w)) % 2 ^ 64 ≡ seq - 127 = omega (arith, u) in
    let d : (seq - upper w) % 2 ^ 32 ≡ seq - (w.lower + 127) = omega (arith, u) in
    rw (c, d)
      (
        record {
          bits = λ n a b. shifted_bits seq n seen w s l a b;
          beyond = λ n a. s.beyond n (omega arith);
          width = omega arith;
        },
        omega arith,
      )

pub insert-IsWindow :
    (seq : ℕ) (seen : List ℕ) (w : PktNumWindow)
    → IsWindow seen w
    → seq + 1 < 2 ^ 64
    → seq < w.lower + 127 + 2 ^ 32
    → IsWindow (seq ∷ seen) (insert seq w)
unfolding insert
insert-IsWindow seq seen w s h k =
    let u = upper_lem w s.width in
    elim (Bool-cases (ltb seq w.lower)) [
      | inl e ↦ rw (insert, e) (left-IsWindow seq seen w s (ltb→lt seq w.lower e))
      | inr e ↦ elim (Bool-cases (ltb (upper w) seq)) [
        | inl f ↦
            let (s', l) = moved-IsWindow seq seen w s (ground (arith, f, u)) h k in
            rw (insert, e, f)
              (marked-IsWindow seq seen (moved seq w) s' (omega (arith, l)) (omega (arith, l)))
        | inr f ↦
            rw (insert, e, f)
              (marked-IsWindow seq seen w s (ground (arith, e)) (ground (arith, f, u)))
      ]
    ]

-- The windows after the packet numbers of the list, each less than 2 ^ 32 beyond the right end.
pub data Received : List ℕ → PktNumWindow → Type 0 where
  nothing : Received [] pkt_num_window
  next :
      {seen : List ℕ} {w : PktNumWindow} (seq : ℕ)
      → Received seen w
      → seq + 1 < 2 ^ 64
      → seq < w.lower + 127 + 2 ^ 32
      → Received (seq ∷ seen) (insert seq w)

pkt_num_window-IsWindow : IsWindow [] pkt_num_window
unfolding has
pkt_num_window-IsWindow = record { bits = λ n a b. refl; beyond = λ n a. refl; width = omega arith }

Received-IsWindow : {seen : List ℕ} {w : PktNumWindow} → Received seen w → IsWindow seen w
Received-IsWindow nothing = pkt_num_window-IsWindow
Received-IsWindow (next {seen} {w} seq r h k) = insert-IsWindow seq seen w (Received-IsWindow r) h k

-- After any packet numbers, each less than 2 ^ 32 beyond the right end of the window, a number
-- counts as received exactly if it is left of the window or was one of them.
pub Received-contains :
    (n : ℕ) {seen : List ℕ} {w : PktNumWindow}
    → Received seen w
    → contains n w ≡ (ltb n w.lower || has n seen)
Received-contains n {seen} {w} r = contains_lem n seen w (Received-IsWindow r)
