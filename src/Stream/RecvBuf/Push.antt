-- ===== src/Stream/RecvBuf/Push.antt =====
-- `RecvBuf::push` and `RecvBuf::push_evaluation`: what is stored is the peer's stream.
use dtp.Base.{
  ℕ, zero, suc, ◌-◌, ◌≤◌, ◌<◌, ◌^◌, ◌≡◌, refl, Bool, true, false, Option, none, some, List, [], ◌∷◌,
  ◌⊎◌, arith, All, leb, ltb, max, ◌&&◌, not, length-take, length-drop, if◌then◌else◌, Bool-cases,
  inl, inr, Result, ok, err, panic, Error,
}
use native.Mathlib.Decide.{dec_lt}
use dtp.Stream.RangeBuf.{RangeBuf, len, max_off, stop, split_off, is_empty}
use dtp.Stream.Spells.{Spells, IsPart, IsPart-front, IsPart-back, All-mono, heap_push-All}
use dtp.Stream.RecvBuf.{
  RecvBuf, cut_start, cut_end, cut_by, skip_read, store, push_loop, admit, push_with, is_contained,
  overlaps_end, set_fin, breaks_final_size, is_some,
}

-- The chunks are parts of the stream, and no offset is past the length received, nor that past the
-- limit given to the peer.
pub record IsReading (σ : ℕ → ℕ) (s : RecvBuf) : Type 0 where
  pub parts : All (IsPart σ s.len) s.chunks
  pub read : s.off ≤ s.len
  pub limited : s.len ≤ s.max_data
  pub granted : s.max_data ≤ s.max_data_next
  pub width : s.max_data_next < 2 ^ 64

module _ (σ : ℕ → ℕ) (lo hi : ℕ) where
  -- What a round works on: a part of the stream that the application has not read, at most `n`
  -- bytes long.
  record IsLeft (n : ℕ) (c : RangeBuf) : Type 0 where
    part : IsPart σ hi c
    unread : lo ≤ c.off
    size : len c ≤ n

  -- A tail split off is shorter.
  abbrev IsTail : ℕ → Option RangeBuf → Type 0
  IsTail n none = Unit {0}
  IsTail n (some t) = IsLeft (n - 1) t × (0 < n)

  cut_start-IsLeft :
      (n : ℕ) (b c : RangeBuf) → is_contained b c ≡ false → IsLeft n c → IsLeft n (cut_start b c)
  unfolding cut_start is_contained
  cut_start-IsLeft n b c e p = elim (Bool-cases (leb b.off c.off && ltb c.off (max_off b))) [
    | inl f ↦ rw f (record {
      part = IsPart-back σ hi (max_off b - c.off) c (ground (arith, f)) p.part;
      unread = omega (arith, p.unread);
      size = omega (arith, p.size, length-drop (max_off b - c.off) c.bytes);
    })
    | inr f ↦ rw f p
  ]

  cut_end-IsLeft :
      (n : ℕ) (b c : RangeBuf) (t : Option RangeBuf)
      → IsLeft n c
      → IsTail n t
      → IsLeft n (cut_end b c t).0 × IsTail n (cut_end b c t).1
  unfolding cut_end overlaps_end
  cut_end-IsLeft n b c t p q = elim (Bool-cases (overlaps_end b c)) [
    | inl f ↦
        let l : (c.off < b.off) × (b.off < max_off c) = ground (arith, f) in
        rw f (
          record {
            part = IsPart-front σ hi (b.off - c.off) c p.part;
            unread = p.unread;
            size = omega (arith, p.size, length-take (b.off - c.off) c.bytes);
          },
          (
            record {
              part = IsPart-back σ hi (b.off - c.off) c (omega (arith, l.1)) p.part;
              unread = omega (arith, p.unread);
              size = omega (arith, p.size, l.0, l.1, length-drop (b.off - c.off) c.bytes);
            },
            omega (arith, p.size, l.0, l.1),
          ),
        )
    | inr f ↦ rw f (p, q)
  ]

  abbrev IsCut : ℕ → Option (RangeBuf × Option RangeBuf) → Type 0
  IsCut n none = Unit {0}
  IsCut n (some (c, t)) = IsLeft n c × IsTail n t

  cut_by-IsCut :
      (n : ℕ) (bs : List RangeBuf) (c : RangeBuf) (t : Option RangeBuf)
      → IsLeft n c
      → IsTail n t
      → IsCut n (cut_by bs c t)
  unfolding cut_by
  cut_by-IsCut n [] c t p q = (p, q)
  cut_by-IsCut n (b ∷ bs) c t p q = elim (Bool-cases (is_contained b c)) [
    | inl e ↦ rw e tt
    | inr e ↦
        let (kept, tail) = cut_end-IsLeft n b (cut_start b c) t (cut_start-IsLeft n b c e p) q in
        rw e (cut_by-IsCut n bs _ _ kept tail)
  ]

-- Why `push` may refuse the chunk `c`.
abbrev pub IsRefusal : RangeBuf → RecvBuf → Error → Type 0
IsRefusal c s e =
    ((e ≡ Error.flow_control) × (s.max_data < max_off c))
    ⊎ ((e ≡ Error.final_size)
        × (max_off c ≤ s.max_data)
        × ((breaks_final_size s.fin_off c ≡ true) ⊎ ((c.fin ≡ true) × (max_off c < s.len))))

-- How `push` may end: without a panic, with an error for a reason, or with the state still good.
abbrev pub Keeps : (ℕ → ℕ) → (Error → Type 0) → Result RecvBuf → Type 0
Keeps σ R (ok s) = IsReading σ s
Keeps σ R (err e) = R e
Keeps σ R panic = ⊥

skip_read-IsLeft :
    (σ : ℕ → ℕ) (lo hi : ℕ) (c : RangeBuf)
    → IsPart σ hi c
    → lo ≤ max_off c
    → (b : RangeBuf) × (skip_read lo c ≡ ok b) × IsLeft σ lo hi (len c) b
unfolding skip_read
skip_read-IsLeft σ lo hi c p h = elim (dec_lt c.off lo) [
  | yes l ↦ (
    (split_off (lo - c.off) c).1,
    ground arith,
    record {
      part = IsPart-back σ hi (lo - c.off) c (omega (arith, h, l)) p;
      unread = omega (arith, l);
      size = omega (arith, length-drop (lo - c.off) c.bytes);
    },
  )
  | no g ↦ (c, ground arith, record { part = p; unread = omega (arith, g); size = omega arith })
]

store-IsReading :
    (σ : ℕ → ℕ) (now : ℕ) (good : ℕ → RecvBuf → Bool) (c : RangeBuf) (s : RecvBuf)
    → IsReading σ s
    → IsPart σ s.max_data c
    → IsReading σ (store now good c s)
unfolding store
store-IsReading σ now good c s v p = record {
  parts =
      heap_push-All (IsPart σ (max s.len (max_off c))) c s.chunks
        (record { spells = p.spells; below = omega arith })
        (All-mono σ s.len (max s.len (max_off c)) s.chunks (omega arith) v.parts);
  read = omega (arith, v.read);
  limited = omega (arith, v.limited, p.below);
  granted = v.granted;
  width = v.width;
}

module _ (σ : ℕ → ℕ) (R : Error → Type 0) (good : ℕ → RecvBuf → Bool) where
  -- A round after its `for` loop, where the rounds for a shorter tail keep the state good.
  round-Keeps :
      (again : RangeBuf → RecvBuf → Result RecvBuf) (now n : ℕ) (s : RecvBuf)
      (r : Option (RangeBuf × Option RangeBuf))
      → IsReading σ s
      → IsCut σ s.off s.max_data n r
      → ((t : RangeBuf) (s' : RecvBuf)
          → 0 < n
          → len t ≤ n - 1
          → IsReading σ s'
          → IsPart σ s'.max_data t
          → s'.off ≤ max_off t
          → Keeps σ R (again t s'))
      → Keeps σ R (elim r [
        | none ↦ ok s
        | some (kept, tail?) ↦ elim tail? [
          | none ↦ ok (store now good kept s)
          | some tail ↦ again tail (store now good kept s)
        ]
      ])
  unfolding store
  round-Keeps again now n s none v q h = v
  round-Keeps again now n s (some (c, none)) v q h = store-IsReading σ now good c s v q.0.part
  round-Keeps again now n s (some (c, some t)) v q h =
      h t (store now good c s) q.1.1 q.1.0.size (store-IsReading σ now good c s v q.0.part)
        q.1.0.part (omega (arith, q.1.0.unread))

  push_loop-Keeps :
      (iter : List RangeBuf → List RangeBuf) (clock : ℕ → ℕ) (fuel : ℕ) (c : RangeBuf) (s : RecvBuf)
      → len c < fuel
      → IsReading σ s
      → IsPart σ s.max_data c
      → s.off ≤ max_off c
      → Keeps σ R (push_loop iter clock good fuel c s)
  unfolding push_loop
  push_loop-Keeps iter clock zero c s l v p h = absurd (omega arith)
  push_loop-Keeps iter clock (suc fuel) c s l v p h =
      let (b, e, q) = skip_read-IsLeft σ s.off s.max_data c p h in
      rw (e, Keeps)
        (round-Keeps (push_loop iter clock good fuel) (clock fuel) (len c) s
          (cut_by (iter s.chunks) b none) v
          (cut_by-IsCut σ s.off s.max_data (len c) (iter s.chunks) b none q tt)
          (λ t s' pos m a p' h'.
            push_loop-Keeps iter clock fuel t s' (omega (arith, pos, m, l)) a p' h'))

-- What goes on from `admit` lies within the limit and not before the offset.
abbrev Admits : (ℕ → ℕ) → RangeBuf → RecvBuf → Result (RecvBuf × Bool) → Type 0
Admits σ c s0 (ok (s, false)) = IsReading σ s
Admits σ c s0 (ok (s, true)) = IsReading σ s × IsPart σ s.max_data c × (s.off ≤ max_off c)
Admits σ c s0 (err e) = IsRefusal c s0 e
Admits σ c s0 panic = ⊥

module _ (σ : ℕ → ℕ) (c : RangeBuf) (s : RecvBuf) where
  refuse-Admits :
      (t : Bool) (e : Error) (r : Result (RecvBuf × Bool))
      → (t ≡ true → IsRefusal c s e)
      → (t ≡ false → Admits σ c s r)
      → Admits σ c s (if t then err e else r)
  refuse-Admits true e r k h = k refl
  refuse-Admits false e r k h = h refl

  ignore-Admits :
      (t : Bool) (s' : RecvBuf) (r : Result (RecvBuf × Bool))
      → IsReading σ s'
      → (t ≡ false → Admits σ c s r)
      → Admits σ c s (if t then ok (s', false) else r)
  ignore-Admits true s' r v h = v
  ignore-Admits false s' r v h = h refl

  set_fin-IsReading :
      IsReading σ s
      → IsReading σ (set_fin c s)
        × ((set_fin c s).max_data ≡ s.max_data)
        × ((set_fin c s).off ≡ s.off)
  unfolding set_fin
  set_fin-IsReading v = elim (Bool-cases c.fin) [
    | inl e ↦ rw e (
      record {
        parts = v.parts;
        read = v.read;
        limited = v.limited;
        granted = v.granted;
        width = v.width;
      },
      refl,
      refl,
    )
    | inr e ↦ rw e (v, refl, refl)
  ]

  admit-Admits : stop c < 2 ^ 64 → IsReading σ s → Spells σ c.off c.bytes → Admits σ c s (admit c s)
  unfolding admit
  admit-Admits b v p =
      let (w, m, o) = set_fin-IsReading v in
      let same : max_off c ≡ stop c = omega arith in
      refuse-Admits (ltb s.max_data (max_off c)) _ _ (λ e1. inl (refl, ground (arith, e1)))
        λ e1.
          refuse-Admits (breaks_final_size s.fin_off c) _ _
            (λ e2. inr (refl, ground (arith, e1), inl e2))
            λ e2.
              refuse-Admits (c.fin && ltb (max_off c) s.len) _ _
                (λ e3. inr (refl, ground (arith, e1), inr (ground (arith, e3))))
                λ e3. ignore-Admits (is_some s.fin_off && is_empty c) s _ v λ e4.
                  ignore-Admits (c.fin && is_empty c && is_some s.fin_off) s _ v λ e5.
                    ignore-Admits (not c.fin && is_empty c) _ _ w λ e6.
                      ignore-Admits (leb (max_off c) s.off && not (is_empty c)) _ _ w λ e7.
                        ignore-Admits s.drain _ (ok (set_fin c s, true)) w λ e8. (
                          w,
                          record { spells = p; below = rw m (ground (arith, e1, same)) },
                          rw o (ground (arith, e3, e6, e7, o, v.read)),
                        )

-- While the chunks stored are parts of the stream `σ` within the limit, pushing another part of
-- it, whose end is a 64-bit number, never panics and keeps them so, whatever the order in which the heap lists its chunks, the
-- clock, and the rule for data in time. It answers `FlowControl` only beyond the limit, and
-- `FinalSize` only within it for data that contradicts the final size or what was received.
pub push_with-IsReading :
    (σ : ℕ → ℕ) (iter : List RangeBuf → List RangeBuf) (clock : ℕ → ℕ) (good : ℕ → RecvBuf → Bool)
    (c : RangeBuf) (s : RecvBuf)
    → stop c < 2 ^ 64
    → IsReading σ s
    → Spells σ c.off c.bytes
    → Keeps σ (IsRefusal c s) (push_with iter clock good c s)
unfolding push_with
push_with-IsReading σ iter clock good c s b v p = go (admit c s) refl (admit-Admits σ c s b v p)
  where
    go :
        (r : Result (RecvBuf × Bool))
        → admit c s ≡ r
        → Admits σ c s r
        → Keeps σ (IsRefusal c s) (push_with iter clock good c s)
    go (ok (t, true)) e h =
        rw (e, Keeps)
          (push_loop-Keeps σ (IsRefusal c s) good iter clock (suc (len c)) c t (omega arith) h.0 h.1
            h.2)
    go (ok (t, false)) e h = rw (e, Keeps) h
    go (err x) e h = rw (e, Keeps) h
    go panic e h = absurd h
