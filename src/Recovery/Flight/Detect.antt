-- ===== src/Recovery/Flight/Detect.antt =====
-- Which packets are lost, by a test on each packet that is out.
use dtp.Base.{
  ℕ, ◌+◌, ◌≤◌, ◌<◌, ◌≡◌, ◌⊎◌, inl, inr, refl, sym, ap, ◌∙◌, subst, ◌&&◌, not, Bool, true, false,
  Option, none, some, List, [], ◌∷◌, ◌++◌, All, leb, if◌then◌else◌, arith, Bool-cases, min,
}
use dtp.Frame.{Frame}
use dtp.Recovery.{Sent, find, without}
use dtp.Recovery.Losses.{up_to, is_lost, lost_pkts, next_loss_time, sooner}
use dtp.Recovery.Packets.{IsAscending, All-imp}

-- A packet that was sent no later than an acknowledged one, and is lost or is not yet.
abbrev pub leaves : ℕ → ℕ → ℕ → Sent → Bool
leaves delay now largest p = leb p.pkt_num largest && is_lost delay now largest p

abbrev pub waits : ℕ → ℕ → ℕ → Sent → Bool
waits delay now largest p = leb p.pkt_num largest && not (is_lost delay now largest p)

unfoldable pub remaining : ℕ → ℕ → ℕ → List Sent → List Sent
remaining delay now largest [] = []
remaining delay now largest (p ∷ ps) =
    let rest = remaining delay now largest ps in
    if leaves delay now largest p then rest else p ∷ rest

-- The frames of the lost packets that are in flight, in the order of their numbers.
abbrev pub frames_in_flight : Sent → List Frame
frames_in_flight p = if p.in_flight then p.frames else []

unfoldable pub lost_frames : ℕ → ℕ → ℕ → List Sent → List Frame
lost_frames delay now largest [] = []
lost_frames delay now largest (p ∷ ps) =
    let rest = lost_frames delay now largest ps in
    if leaves delay now largest p then frames_in_flight p ++ rest else rest

-- One packet after the other is removed, each found when its turn comes.
unfoldable pub without_each : List ℕ → List Sent → List Sent
without_each [] ps = ps
without_each (k ∷ ks) ps = without_each ks (without k ps)

abbrev pub AreFound : List ℕ → List Sent → List Frame → Type 0
AreFound [] ps fs = fs ≡ []
AreFound (k ∷ ks) ps fs =
    (p : Sent) × (gs : List Frame) × (find k ps ≡ some p)
    × (fs ≡ frames_in_flight p ++ gs)
    × AreFound ks (without k ps) gs

find_past : (k : ℕ) (p : Sent) (ps : List Sent) → p.pkt_num < k → find k (p ∷ ps) ≡ find k ps
unfolding find
find_past k p ps h = ground (arith, h)

without_past :
    (k : ℕ) (p : Sent) (ps : List Sent) → p.pkt_num < k → without k (p ∷ ps) ≡ p ∷ without k ps
unfolding without
without_past k p ps h = ground (arith, h)

past-AreFound :
    (ks : List ℕ) (p : Sent) (ps : List Sent) (fs : List Frame)
    → All (λ k. p.pkt_num < k) ks
    → AreFound ks ps fs
    → AreFound ks (p ∷ ps) fs
past-AreFound [] p ps fs a f = f
past-AreFound (k ∷ ks) p ps fs a (q, gs, e, c, f) = (
  q,
  gs,
  find_past k p ps a.0 ∙ e,
  c,
  subst (λ x. AreFound ks x gs) (sym (without_past k p ps a.0))
      (past-AreFound ks p (without k ps) gs a.1 f),
)

past-without_each :
    (ks : List ℕ) (p : Sent) (ps : List Sent)
    → All (λ k. p.pkt_num < k) ks
    → without_each ks (p ∷ ps) ≡ p ∷ without_each ks ps
unfolding without_each
past-without_each [] p ps a = refl
past-without_each (k ∷ ks) p ps a =
    ap (without_each ks) (without_past k p ps a.0) ∙ past-without_each ks p (without k ps) a.1

find_first : (p : Sent) (ps : List Sent) → find p.pkt_num (p ∷ ps) ≡ some p
unfolding find
find_first p ps = ground arith

without_first : (p : Sent) (ps : List Sent) → without p.pkt_num (p ∷ ps) ≡ ps
unfolding without
without_first p ps = ground arith

module _ (delay now largest : ℕ) where
  above :
      (b : ℕ) (ps : List Sent)
      → All (λ q. b < q.pkt_num) ps
      → All (λ k. b < k) (lost_pkts delay now largest (up_to largest ps))
  unfolding lost_pkts up_to
  above b [] a = tt
  above b (p ∷ ps) a = ground (arith, a.0, above b ps a.1)

  nothing_leaves :
      (ps : List Sent)
      → All (λ q. largest < q.pkt_num) ps
      → (remaining delay now largest ps ≡ ps) × (lost_frames delay now largest ps ≡ [])
  unfolding remaining lost_frames
  nothing_leaves [] a = (refl, refl)
  nothing_leaves (p ∷ ps) a =
      let (r, f) = nothing_leaves ps a.1 in (ground (arith, a.0, r), ground (arith, a.0, f))

  -- The numbers of the loop are those of the packets that leave.
  pub lost_pkts-remaining :
      (ps : List Sent)
      → IsAscending ps
      → let ks = lost_pkts delay now largest (up_to largest ps) in
        AreFound ks ps (lost_frames delay now largest ps)
        × (without_each ks ps ≡ remaining delay now largest ps)
  unfolding lost_pkts up_to remaining lost_frames without_each
  lost_pkts-remaining [] a = (refl, refl)
  lost_pkts-remaining (p ∷ ps) a = elim (Bool-cases (leb p.pkt_num largest)) [
    | inr l ↦
        let b : largest < p.pkt_num = ground (arith, l) in
        let (r, f) = nothing_leaves ps (All-imp ps (λ q k. omega arith) a.0) in
        rw (l) (f, ap (λ x. p ∷ x) (sym r))
    | inl l ↦
        let ks = lost_pkts delay now largest (up_to largest ps) in
        let fs = lost_frames delay now largest ps in
        let (f, r) = lost_pkts-remaining ps a.1 in
        elim (Bool-cases (is_lost delay now largest p)) [
          | inl k ↦
              rw (l, k)
                (
                  (
                    p,
                    fs,
                    find_first p ps,
                    refl,
                    subst (λ x. AreFound ks x fs) (sym (without_first p ps)) f,
                  ),
                  ap (without_each ks) (without_first p ps) ∙ r,
                )
          | inr k ↦
              let b = above p.pkt_num ps a.0 in
              rw (l, k)
                (past-AreFound ks p ps fs b f, past-without_each ks p ps b ∙ ap (λ x. p ∷ x) r)
        ]
  ]

  abbrev pub IsDue : ℕ → List Sent → Type 0
  IsDue t [] = ⊥
  IsDue t (p ∷ ps) = ((waits delay now largest p ≡ true) × (t ≡ p.time + delay)) ⊎ IsDue t ps

  -- The least time at which a packet that waits is lost.
  abbrev pub IsEarliest : Option ℕ → List Sent → Type 0
  IsEarliest none ps = All (λ p. waits delay now largest p ≡ false) ps
  IsEarliest (some t) ps =
      All (λ p. waits delay now largest p ≡ true → t ≤ p.time + delay) ps × IsDue t ps

  -- The same from a time that is known before.
  abbrev From : Option ℕ → Option ℕ → List Sent → Type 0
  From before none ps = (before ≡ none) × All (λ p. waits delay now largest p ≡ false) ps
  From before (some t) ps =
      All (λ p. waits delay now largest p ≡ true → t ≤ p.time + delay) ps
      × ((s : ℕ) → before ≡ some s → t ≤ s)
      × (IsDue t ps ⊎ (before ≡ some t))

  none_wait :
      (ps : List Sent)
      → All (λ q. largest < q.pkt_num) ps
      → All (λ p. waits delay now largest p ≡ false) ps
  none_wait ps a = All-imp ps (λ q h. ground (arith, h)) a

  unchanged-From :
      (before : Option ℕ) (ps : List Sent)
      → All (λ p. waits delay now largest p ≡ false) ps
      → From before before ps
  unchanged-From none ps a = (refl, a)
  unchanged-From (some t) ps a =
      (All-imp ps (λ q h k. absurd (cc)) a, λ s e. ground (arith, e), inr refl)

  skip-From :
      (before after : Option ℕ) (p : Sent) (ps : List Sent)
      → waits delay now largest p ≡ false
      → From before after ps
      → From before after (p ∷ ps)
  skip-From before none p ps w (e, a) = (e, (w, a))
  skip-From before (some t) p ps w (a, b, c) =
      ((λ k. absurd (cc), a), b, elim c [ inl d ↦ inl (inr d) | inr d ↦ inr d ])

  which :
      (s t u : ℕ) (p : Sent) (ps : List Sent)
      → min s u ≡ t
      → waits delay now largest p ≡ true
      → (((waits delay now largest p ≡ true) × (t ≡ u)) ⊎ IsDue t ps) ⊎ (some s ≡ some t)
  which s t u p ps m w = elim (Bool-cases (leb s u)) [
    | inl l ↦ inr (ap some (ground (arith, l, m)))
    | inr l ↦ inl (inl (w, ground (arith, l, m)))
  ]

  wait-From :
      (before after : Option ℕ) (p : Sent) (ps : List Sent)
      → waits delay now largest p ≡ true
      → From (sooner before (p.time + delay)) after ps
      → From before after (p ∷ ps)
  unfolding sooner
  wait-From none none p ps w (e, a) = absurd (cc)
  wait-From (some s) none p ps w (e, a) = absurd (cc)
  wait-From none (some t) p ps w (a, b, c) = (
    (λ k. b (p.time + delay) refl, a),
    λ s e. absurd (cc),
    elim c [ inl d ↦ inl (inr d) | inr d ↦ inl (inl (w, ground (arith, d))) ],
  )
  wait-From (some s) (some t) p ps w (a, b, c) =
      let l = b (min s (p.time + delay)) refl in
      (
        (λ k. omega arith, a),
        λ x e. ground (arith, e, l),
        elim c [
          | inl d ↦ inl (inr d)
          | inr d ↦ which s t (p.time + delay) p ps (ground (arith, d)) w
        ],
      )

  next_loss_time-From :
      (before : Option ℕ) (ps : List Sent)
      → IsAscending ps
      → From before (next_loss_time delay now largest (up_to largest ps) before) ps
  unfolding next_loss_time up_to
  next_loss_time-From before [] a = unchanged-From before [] tt
  next_loss_time-From before (p ∷ ps) a = elim (Bool-cases (leb p.pkt_num largest)) [
    | inr l ↦
        let b : largest < p.pkt_num = ground (arith, l) in
        rw (l) (
          unchanged-From before (p ∷ ps)
            (none_wait (p ∷ ps) (b, All-imp ps (λ q k. omega arith) a.0)))
    | inl l ↦ elim (Bool-cases (is_lost delay now largest p)) [
      | inl k ↦
          rw (l, next_loss_time, k)
            (skip-From before (next_loss_time delay now largest (up_to largest ps) before) p ps
              (rw (l, k) refl) (next_loss_time-From before ps a.1))
      | inr k ↦
          let before' = sooner before (p.time + delay) in
          rw (l, next_loss_time, k)
            (wait-From before (next_loss_time delay now largest (up_to largest ps) before') p ps
              (rw (l, k) refl) (next_loss_time-From before' ps a.1))
    ]
  ]

  -- The loop computes the least time at which a packet that waits is lost, where there is one.
  pub next_loss_time-IsEarliest :
      (ps : List Sent)
      → IsAscending ps
      → IsEarliest (next_loss_time delay now largest (up_to largest ps) none) ps
  next_loss_time-IsEarliest ps a =
      go (next_loss_time delay now largest (up_to largest ps) none) (next_loss_time-From none ps a)
    where
      go : (o : Option ℕ) → From none o ps → IsEarliest o ps
      go none f = f.1
      go (some t) f = (f.0, elim f.2 [ inl d ↦ d | inr d ↦ absurd (cc) ])
