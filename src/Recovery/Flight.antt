-- ===== src/Recovery/Flight.antt =====
-- The bytes in flight are those of the packets that are out: the invariant, and what each part of
pub mod Acked
pub mod Loop
pub mod Detect
pub mod Lost
pub mod Detected
pub mod Operations
pub mod Answers
pub mod Timeouts
-- an operation does to it.
use dtp.Base.{
  ℕ, ◌+◌, ◌-◌, ◌*◌, ◌≤◌, ◌<◌, ◌^◌, ◌≡◌, ◌⊎◌, inl, inr, refl, ◌∙◌, sym, subst, Bool, true, false,
  Option, none, some, List, [], ◌∷◌, ◌++◌, All, ◌==◌, if◌then◌else◌, ltb, Result, ok, arith,
  Bool-cases, Option-cases, ==_iff,
}
use dtp.Base.Errors.{◌>>=◌}
use dtp.Base.Maps.{lookup, update, lookup-update, lookup-update_other}
use dtp.Fec.Numbers.{FecPacketNumbers, packet_acked, packet_lost, get_delta, get_recovered_pns}
use dtp.Minmax.{running_min}
use dtp.Recovery.{
  biased, Epoch, initial, handshake, application, PerEpoch, at, put, is_counted, Sent, find,
  without, CongestionControl, Scales, Recovery,
}
use dtp.Recovery.Timer.{rtt}
use dtp.Recovery.Acks.{
  take_frames, on_packet_recovered, recover_each, recover, adjust, filtered, collect_sample,
  acked_in_group, acked_in_flight, on_packet_acked,
}
use dtp.Recovery.Calls.{unacked_bytes}
use dtp.Recovery.Packets.{
  is_out, is_out-take_frames, weight, IsAscending, find_number, unacked_bytes-without,
  unacked_bytes-take_frames, All-find, All-without, All-take_frames, All-imp, without-IsAscending,
  take_frames-IsAscending,
}
use dtp.Recovery.Reno.{KeepsFlight}

abbrev pub Groups : Type 0
Groups = List (ℕ × FecPacketNumbers)

-- A packet has 65535 bytes at most, and its group is known if it has one.
abbrev pub IsFit : Groups → Sent → Type 0
IsFit groups p =
    (p.size ≤ 65535)
    × ((p.fec_info.group_id ≡ 0)
        ⊎ ((g : FecPacketNumbers) × (lookup p.fec_info.group_id groups ≡ some g)))

abbrev pub AreFit : Groups → List Sent → Type 0
AreFit groups ps = IsAscending ps × All (IsFit groups) ps

-- What a packet adds to the bytes that congestion control counts.
abbrev pub counted : Epoch → Sent → ℕ
counted e p = if is_counted e then weight p else 0

-- `pending` bytes are of packets that are no longer in the list and still counted. The bytes that are
-- counted and those acknowledged since the begin are `budget` at most.
pub record IsTracked {C : Type 0} (Sound : ℕ → ℕ → C → Type 0) (budget pending : ℕ)
    (sent : PerEpoch (List Sent)) (c : C) (groups : Groups) : Type 0 where
  pub bound : ℕ
  pub sound : Sound (pending + unacked_bytes sent.of_application) bound c
  pub room : pending + unacked_bytes sent.of_application + bound ≤ budget
  pub width : budget < 2 ^ 53
  pub fit : (e : Epoch) → AreFit groups (at e sent)

abbrev pub Tracks : {C : Type 0} → (ℕ → ℕ → C → Type 0) → ℕ → ℕ → Recovery C → Type 0
Tracks Sound budget pending r = IsTracked Sound budget pending r.sent r.cc r.pns_in_fec_group

pub uncounted :
    (e : Epoch) (p : Sent) → (p.in_flight ≡ false) ⊎ (is_counted e ≡ false) → counted e p ≡ 0
uncounted e p (inl f) = ground (arith, f)
uncounted e p (inr f) = rw (f) refl

pub at-put : {A : Type 0} (e : Epoch) (a : A) (x : PerEpoch A) → at e (put e a x) ≡ a
unfolding at put
at-put initial a x = refl
at-put handshake a x = refl
at-put application a x = refl

-- A predicate of the three arrays follows a change of one.
pub put-all :
    {A : Type 0} (P : A → Type 0) (e : Epoch) (a : A) (x : PerEpoch A)
    → P a
    → ((d : Epoch) → P (at d x))
    → (d : Epoch) → P (at d (put e a x))
unfolding at put
put-all P initial a x h f initial = h
put-all P initial a x h f handshake = f handshake
put-all P initial a x h f application = f application
put-all P handshake a x h f initial = f initial
put-all P handshake a x h f handshake = h
put-all P handshake a x h f application = f application
put-all P application a x h f initial = f initial
put-all P application a x h f handshake = f handshake
put-all P application a x h f application = h

known-update :
    (i j : ℕ) (g : FecPacketNumbers) (groups : Groups)
    → (h : FecPacketNumbers) × (lookup i groups ≡ some h)
    → (h : FecPacketNumbers) × (lookup i (update j g groups) ≡ some h)
known-update i j g groups (h, e) = elim (Bool-cases (i == j)) [
  | inl same ↦
      let k : i ≡ j = ground (arith, same) in
      (g, subst (λ x. lookup x (update j g groups) ≡ some g) (sym k) (lookup-update j g groups))
  | inr other ↦ (h, rw (lookup-update_other i j g groups (λ k. ground (arith, other, k))) e)
]

pub update-IsFit :
    (j : ℕ) (g : FecPacketNumbers) (groups : Groups) (p : Sent)
    → IsFit groups p
    → IsFit (update j g groups) p
update-IsFit j g groups p (s, inl z) = (s, inl z)
update-IsFit j g groups p (s, inr k) = (s, inr (known-update p.fec_info.group_id j g groups k))

-- Sampling leaves the packets, the congestion control and the groups as they are.
abbrev pub Kept : {C : Type 0} → Recovery C → Recovery C → Type 0
Kept r r' = (r'.sent ≡ r.sent) × (r'.cc ≡ r.cc) × (r'.pns_in_fec_group ≡ r.pns_in_fec_group)

-- The same packets are out.
abbrev pub SameOut : PerEpoch (List Sent) → PerEpoch (List Sent) → Type 0
SameOut s s' = (d : Epoch) (x : ℕ) → is_out x (at d s') ≡ is_out x (at d s)

module _ {C : Type 0} where
  on_packet_recovered-SameOut :
      (k : ℕ) (r : Recovery C) → SameOut r.sent (on_packet_recovered k r).sent
  unfolding on_packet_recovered at
  on_packet_recovered-SameOut k r d x = elim (Option-cases (find k r.sent.of_application)) [
    | inl e ↦ rw (on_packet_recovered, e) refl
    | inr (p, e) ↦ rw (on_packet_recovered, e) (same d)
  ]
    where
      same :
          (d : Epoch)
          → is_out x (at d (record r.sent { of_application = take_frames k r.sent.of_application }))
            ≡ is_out x (at d r.sent)
      same initial = refl
      same handshake = refl
      same application = is_out-take_frames x k r.sent.of_application

  recover_each-SameOut : (ks : List ℕ) (r : Recovery C) → SameOut r.sent (recover_each ks r).sent
  unfolding recover_each
  recover_each-SameOut [] r d x = refl
  recover_each-SameOut (k ∷ ks) r d x =
      recover_each-SameOut ks (on_packet_recovered k r) d x ∙ on_packet_recovered-SameOut k r d x

  pub recover-SameOut : (o : Option (List ℕ)) (r : Recovery C) → SameOut r.sent (recover o r).sent
  unfolding recover
  recover-SameOut none r d x = refl
  recover-SameOut (some ks) r d x = recover_each-SameOut ks r d x

module _ {C : Type 0} (Sound : ℕ → ℕ → C → Type 0) where
  pub no_bytes :
      {budget : ℕ} (e : Epoch) (p : Sent) (r : Recovery C)
      → counted e p ≡ 0
      → Tracks Sound budget (counted e p) r
      → Tracks Sound budget 0 r
  no_bytes {budget} e p r z t = subst (λ w. Tracks Sound budget w r) z t

  pub Kept-Tracks :
      {budget pending : ℕ} (r r' : Recovery C)
      → Kept r r'
      → Tracks Sound budget pending r
      → Tracks Sound budget pending r'
  Kept-Tracks {budget} {pending} r r' (s, c, g) t = rw (s, c, g) t

  pub update-IsTracked :
      (j : ℕ) (g : FecPacketNumbers) {budget pending : ℕ} {sent : PerEpoch (List Sent)} {c : C}
      {groups : Groups}
      → IsTracked Sound budget pending sent c groups
      → IsTracked Sound budget pending sent c (update j g groups)
  update-IsTracked j g {budget} {pending} {sent} {c} {groups} t = record {
    bound = t.bound;
    sound = t.sound;
    room = t.room;
    width = t.width;
    fit = λ e. ((t.fit e).0, All-imp (at e sent) (update-IsFit j g groups) (t.fit e).1);
  }

  removed_bytes :
      (e : Epoch) (k : ℕ) (sent : PerEpoch (List Sent)) (p : Sent)
      → find k (at e sent) ≡ some p
      → 0 + unacked_bytes sent.of_application
        ≡ counted e p + unacked_bytes (put e (without k (at e sent)) sent).of_application
  unfolding at put is_counted
  removed_bytes initial k sent p h = omega arith
  removed_bytes handshake k sent p h = omega arith
  removed_bytes application k sent p h =
      omega (arith, unacked_bytes-without k sent.of_application p h)

  -- A packet leaves the list and its bytes are pending.
  pub without-IsTracked :
      (e : Epoch) (k : ℕ) {budget : ℕ} (sent : PerEpoch (List Sent)) {c : C} {groups : Groups}
      (p : Sent)
      → find k (at e sent) ≡ some p
      → IsTracked Sound budget 0 sent c groups
      → IsTracked Sound budget (counted e p) (put e (without k (at e sent)) sent) c groups
  without-IsTracked e k {budget} sent {c} {groups} p h t =
      let b = removed_bytes e k sent p h in
      let r = t.room in
      record {
        bound = t.bound;
        sound = subst (λ f. Sound f t.bound c) b t.sound;
        room = omega arith;
        width = t.width;
        fit =
            put-all (AreFit groups) e (without k (at e sent)) sent
              (
                without-IsAscending k (at e sent) (t.fit e).0,
                All-without (IsFit groups) k (at e sent) (t.fit e).1,
              )
              t.fit;
      }

  take_frames-IsTracked :
      (k : ℕ) {budget pending : ℕ} (sent : PerEpoch (List Sent)) {c : C} {groups : Groups}
      → IsTracked Sound budget pending sent c groups
      → IsTracked Sound budget pending
          (record sent { of_application = take_frames k sent.of_application })
          c
          groups
  unfolding at
  take_frames-IsTracked k {budget} {pending} sent {c} {groups} t =
      let b = unacked_bytes-take_frames k sent.of_application in
      let r = t.room in
      let sent' = record sent { of_application = take_frames k sent.of_application } in
      record {
        bound = t.bound;
        sound = subst (λ f. Sound (pending + f) t.bound c) (sym b) t.sound;
        room = omega arith;
        width = t.width;
        fit = fits;
      }
    where
      fits :
          (e : Epoch)
          → AreFit groups
              (at e (record sent { of_application = take_frames k sent.of_application }))
      fits initial = t.fit initial
      fits handshake = t.fit handshake
      fits application = (
        take_frames-IsAscending k sent.of_application (t.fit application).0,
        All-take_frames (IsFit groups) k sent.of_application (λ p h. h) (t.fit application).1,
      )

  -- What `on_packet_recovered` and the sampling change has no part in the invariant.
  pub on_packet_recovered-IsTracked :
      (k : ℕ) {budget pending : ℕ} (r : Recovery C)
      → IsTracked Sound budget pending r.sent r.cc r.pns_in_fec_group
      → let r' = on_packet_recovered k r in
        IsTracked Sound budget pending r'.sent r'.cc r'.pns_in_fec_group
  unfolding on_packet_recovered
  on_packet_recovered-IsTracked k r t = elim (Option-cases (find k r.sent.of_application)) [
    | inl e ↦ rw (on_packet_recovered, e) t
    | inr (p, e) ↦ rw (on_packet_recovered, e) (take_frames-IsTracked k r.sent t)
  ]

  recover_each-IsTracked :
      (ks : List ℕ) {budget pending : ℕ} (r : Recovery C)
      → IsTracked Sound budget pending r.sent r.cc r.pns_in_fec_group
      → let r' = recover_each ks r in
        IsTracked Sound budget pending r'.sent r'.cc r'.pns_in_fec_group
  unfolding recover_each
  recover_each-IsTracked [] r t = t
  recover_each-IsTracked (k ∷ ks) r t =
      recover_each-IsTracked ks (on_packet_recovered k r) (on_packet_recovered-IsTracked k r t)

  pub recover-IsTracked :
      (o : Option (List ℕ)) {budget pending : ℕ} (r : Recovery C)
      → IsTracked Sound budget pending r.sent r.cc r.pns_in_fec_group
      → let r' = recover o r in IsTracked Sound budget pending r'.sent r'.cc r'.pns_in_fec_group
  unfolding recover
  recover-IsTracked none r t = t
  recover-IsTracked (some ks) r t = recover_each-IsTracked ks r t

  module _ (control : CongestionControl C) (scales : Scales) where
    adjust-Kept : (now last : ℕ) (r : Recovery C) → Kept r (adjust control scales now last r)
    unfolding adjust
    adjust-Kept now last r = elim (Bool-cases (ltb now (last + r.min_rtt * 2))) [
      | inl e ↦ rw (adjust, e) (refl, refl, refl)
      | inr e ↦ rw (adjust, e) (refl, refl, refl)
    ]

    filtered-Kept :
        (now delta : ℕ) (last : Option ℕ) (r : Recovery C)
        → Kept r (filtered control scales now delta last r)
    unfolding filtered
    filtered-Kept now delta none r = (refl, refl, refl)
    filtered-Kept now delta (some last) r =
        let window = r.min_rtt * 2 in
        let (value, filter) =
          running_min (scales.quarter_window window) (scales.half_window window) window now
            (biased delta) r.min_filter in
        adjust-Kept now last (record r { delta = biased value; min_filter = filter })

    pub collect_sample-Kept :
        (now : ℕ) (delta : Option ℕ) (r : Recovery C)
        → Kept r (collect_sample control scales now delta r)
    unfolding collect_sample
    collect_sample-Kept now none r = (refl, refl, refl)
    collect_sample-Kept now (some delta) r = filtered-Kept now delta r.last_adjust_time r
