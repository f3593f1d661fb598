-- ===== src/Stream/RecvBuf/Pop.antt =====
-- `RecvBuf::pop`: what the application reads is the peer's stream, in order.
use dtp.Base.{
  ℕ, zero, suc, ◌+◌, ◌-◌, ◌≤◌, ◌<◌, ◌≡◌, refl, ap, Bool, true, false, List, [], ◌∷◌, ◌++◌, ◌⊎◌,
  length, arith, All, ltb, ◌&&◌, ◌==◌, length-take, length-append, if◌then◌else◌, Bool-cases, inl,
  inr, Result, ok, err, panic, Error,
}
use dtp.Stream.RangeBuf.{RangeBuf, len}
use dtp.Stream.Spells.{Spells, Spells-append, IsPart, IsPart-front, IsPart-back, heap_push-All}
use dtp.Stream.RecvBuf.{RecvBuf, split_front, pop_loop, pop, ready, is_fin}
use dtp.Stream.RecvBuf.Push.{IsReading}

module _ (σ : ℕ → ℕ) (hi : ℕ) where
  split_front-IsPart :
      (cap : ℕ) (b : RangeBuf) (h : List RangeBuf)
      → IsPart σ hi b
      → All (IsPart σ hi) h
      → IsPart σ hi (split_front cap b h).0
        × All (IsPart σ hi) (split_front cap b h).1
        × ((split_front cap b h).0.off ≡ b.off)
        × (len (split_front cap b h).0 ≤ cap)
        × ((len (split_front cap b h).0 ≡ cap) ⊎ ((split_front cap b h).1 ≡ h))
  unfolding split_front
  split_front-IsPart cap b h p a = elim (Bool-cases (ltb cap (len b))) [
    | inl e ↦
        let l : cap < len b = ground (arith, e) in
        rw e (
          IsPart-front σ hi cap b p,
          heap_push-All (IsPart σ hi) _ h (IsPart-back σ hi cap b (omega (arith, l)) p) a,
          refl,
          omega (arith, length-take cap b.bytes),
          inl (omega (arith, l, length-take cap b.bytes)),
        )
    | inr e ↦ rw e (p, a, refl, ground (arith, e), inr refl)
  ]

-- How the loop may end, with `out` copied before.
abbrev Ends : (ℕ → ℕ) → ℕ → ℕ → Result (List ℕ × RecvBuf) → Type 0
Ends σ start cap (ok (out, s)) =
    Spells σ start out × (s.off ≡ start + length out) × (length out ≤ cap) × IsReading σ s
Ends σ start cap (err e) = ⊥
Ends σ start cap panic = ⊥

Ends-if :
    (σ : ℕ → ℕ) (start cap : ℕ) (t : Bool) (r q : Result (List ℕ × RecvBuf))
    → (t ≡ true → Ends σ start cap r)
    → Ends σ start cap q
    → Ends σ start cap (if t then r else q)
Ends-if σ start cap true r q h k = h refl
Ends-if σ start cap false r q h k = k

module _ (σ : ℕ → ℕ) where
  advanced-IsReading :
      (n : ℕ) (h : List RangeBuf) (s : RecvBuf)
      → IsReading σ s
      → All (IsPart σ s.len) h
      → s.off + n ≤ s.len
      → IsReading σ (record s { chunks = h; off = s.off + n })
  advanced-IsReading n h s v a l = record {
    parts = a;
    read = l;
    limited = v.limited;
    granted = v.granted;
    width = v.width;
  }

  -- A round, where the rounds after it end well: `pop` on the chunks `q` of `s`.
  round-Ends :
      (start total cap : ℕ) (out : List ℕ) (s : RecvBuf)
      (again : ℕ → List ℕ → RecvBuf → Result (List ℕ × RecvBuf)) (q : List RangeBuf)
      → IsReading σ s
      → All (IsPart σ s.len) q
      → length out + cap ≤ total
      → s.off ≡ start + length out
      → Spells σ start out
      → ((cap' : ℕ) (out' : List ℕ) (s' : RecvBuf)
          → (suc (length s'.chunks) ≡ length q) ⊎ (cap' ≡ 0)
          → 0 < cap
          → length out' + cap' ≤ total
          → s'.off ≡ start + length out'
          → Spells σ start out'
          → IsReading σ s'
          → Ends σ start total (again cap' out' s'))
      → Ends σ start total (elim q [
        | [] ↦ ok (out, s)
        | b ∷ h ↦
            let taken = split_front cap b h in
            let n = len taken.0 in
            let rest =
              again
                (cap - n)
                (out ++ taken.0.bytes)
                (record s { chunks = taken.1; off = s.off + n }) in
            if ltb 0 cap && b.off == s.off then rest else ok (out, s)
      ])
  round-Ends start total cap out s again [] v a c o p k = (p, o, omega arith, v)
  round-Ends start total cap out s again (b ∷ h) v a c o p k =
      let (part, parts, off, fit, left) = split_front-IsPart σ s.len cap b h a.0 a.1 in
      let taken = split_front cap b h in
      let l : length (out ++ taken.0.bytes) ≡ length out + len taken.0 =
        length-append out taken.0.bytes in
      Ends-if σ start total (ltb 0 cap && b.off == s.off) _ _
        (λ e.
          let at : (0 < cap) × (b.off ≡ s.off) = ground (arith, e) in
          k (cap - len taken.0) (out ++ taken.0.bytes)
            (record s { chunks = taken.1; off = s.off + len taken.0 })
            (elim left [
              | inl full ↦ inr (omega (arith, full))
              | inr same ↦ inl (ap (λ (t : List RangeBuf). suc (length t)) same)
            ])
            at.0 (omega (arith, l, fit)) (omega (arith, l))
            (Spells-append σ start taken.0.off out taken.0.bytes (omega (arith, off, at.1)) p
              part.spells)
            (advanced-IsReading (len taken.0) taken.1 s v parts
              (omega (arith, part.below, off, at.1))))
        (p, o, omega arith, v)

  pop_loop-Ends :
      (start total fuel cap : ℕ) (out : List ℕ) (s : RecvBuf)
      → ((length s.chunks + 1 < fuel) ⊎ (cap ≡ 0))
      → 0 < fuel
      → length out + cap ≤ total
      → s.off ≡ start + length out
      → Spells σ start out
      → IsReading σ s
      → Ends σ start total (pop_loop fuel cap out s)
  unfolding pop_loop
  pop_loop-Ends start total zero cap out s f z c o p v = absurd (omega arith)
  pop_loop-Ends start total (suc fuel) cap out s f z c o p v =
      round-Ends start total cap out s (pop_loop fuel) s.chunks v v.parts c o p
        (λ cap' out' s' q pos c' o' p' v'.
          pop_loop-Ends start total fuel cap' out' s' (ground arith) (ground arith) c' o' p' v')

-- How `pop` may end on `s`: `Done` where nothing is ready, or with bytes of the stream from the
-- offset on, at most `cap`, the offset behind them and the state still good.
abbrev pub Delivers : (ℕ → ℕ) → ℕ → RecvBuf → Result (List ℕ × Bool × RecvBuf) → Type 0
Delivers σ cap s (ok (out, fin, s')) =
    (ready s ≡ true)
    × Spells σ s.off out
    × (s'.off ≡ s.off + length out)
    × (length out ≤ cap)
    × (fin ≡ is_fin s')
    × IsReading σ s'
Delivers σ cap s (err e) = (ready s ≡ false) × (e ≡ Error.done)
Delivers σ cap s panic = ⊥

-- `pop` never panics. Where nothing is ready it answers `Done`, and otherwise it returns the bytes
-- of the stream from the offset on, at most as many as there is room for, moves the offset behind
-- them, reports the end of the stream and keeps the state good.
pub pop-Delivers :
    (σ : ℕ → ℕ) (cap : ℕ) (s : RecvBuf) → IsReading σ s → Delivers σ cap s (pop cap s)
unfolding pop
pop-Delivers σ cap s v = elim (Bool-cases (ready s)) [
  | inr e ↦ rw (e, Delivers) (e, refl)
  | inl e ↦ go e (pop_loop (suc (suc (length s.chunks))) cap [] s) refl (
      pop_loop-Ends σ s.off cap (suc (suc (length s.chunks))) cap [] s (inl (omega arith))
        (omega arith) (omega arith) (omega arith) tt v)
]
  where
    go :
        ready s ≡ true
        → (r : Result (List ℕ × RecvBuf)) → pop_loop (suc (suc (length s.chunks))) cap [] s ≡ r
        → Ends σ s.off cap r
        → Delivers σ cap s (pop cap s)
    go e (ok (out, t)) f h =
        rw (e, f, Delivers)
          (
            e,
            h.0,
            h.1,
            h.2,
            refl,
            record {
              parts = h.3.parts;
              read = h.3.read;
              limited = h.3.limited;
              granted = omega (arith, h.3.granted, h.3.width);
              width = omega (arith, h.3.width);
            },
          )
    go e (err x) f h = absurd h
    go e panic f h = absurd h
