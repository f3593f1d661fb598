-- ===== src/Stream/Map/Limits.antt =====
-- The counts of opened streams stay within their limits, and a collected stream stays away.
use dtp.Base.{
  ℕ, ◌+◌, ◌≤◌, ◌<◌, ◌≡◌, ◌⊎◌, ◌^◌, ◌∙◌, refl, sym, ap, subst, inl, inr, Bool, true, false, none,
  some, List, [], ◌∷◌, if◌then◌else◌, leb, Result, ok, err, panic, Error, arith, Bool-cases,
  Option-cases,
}
use dtp.Base.Maps.{lookup, update, erase, has, include, lookup-update_other}
use dtp.Stream.Streams.{Stream, stream_full, is_local, is_bidi, is_writable}
use dtp.Stream.Map.{
  StreamMap, TransportParams, same, data_limits, open_stream, use_stream, add_stream, create,
  get_or_create,
}

module _ {A : Type 0} where
  pub lookup-erase-none :
      (j k : ℕ) (m : List (ℕ × A)) → lookup j m ≡ none → lookup j (erase k m) ≡ none
  unfolding lookup erase
  lookup-erase-none j k [] e = refl
  lookup-erase-none j k (x ∷ m) e = ground (arith, e, lookup-erase-none j k m)

pub has-include_inv :
    (j k : ℕ) (xs : List ℕ) → has j (include k xs) ≡ true → (j ≡ k) ⊎ (has j xs ≡ true)
unfolding has include
has-include_inv j k xs h = ground (arith, h)

-- No stream of the map was collected.
pub record IsAway (streams : List (ℕ × Stream)) (collected : List ℕ) : Type 0 where
  pub gone : (id : ℕ) → has id collected ≡ true → lookup id streams ≡ none

pub update-IsAway :
    (id : ℕ) (s : Stream) (streams : List (ℕ × Stream)) (collected : List ℕ)
    → has id collected ≡ false
    → IsAway streams collected
    → IsAway (update id s streams) collected
update-IsAway id s streams collected h a = record {
  gone = λ j k. lookup-update_other j id s streams (λ e. cc) ∙ a.gone j k;
}

module _ {S : Type 0} where
  pub record IsWithin (m : StreamMap S) : Type 0 where
    pub local_bidi : m.local_opened_streams_bidi ≤ m.peer_max_streams_bidi
    pub local_uni : m.local_opened_streams_uni ≤ m.peer_max_streams_uni
    pub peer_bidi : m.peer_opened_streams_bidi ≤ m.local_max_streams_bidi
    pub peer_uni : m.peer_opened_streams_uni ≤ m.local_max_streams_uni
    pub next_bidi : m.local_max_streams_bidi ≤ m.local_max_streams_bidi_next
    pub next_uni : m.local_max_streams_uni ≤ m.local_max_streams_uni_next
    pub width_bidi : m.local_max_streams_bidi_next < 2 ^ 64
    pub width_uni : m.local_max_streams_uni_next < 2 ^ 64
    pub away : IsAway m.streams m.collected

  -- How many streams of the kind of `id` are opened, and how many may be.
  abbrev pub opened : ℕ → Bool → StreamMap S → ℕ
  opened id is_server m =
      if is_local id is_server
      then (if is_bidi id then m.local_opened_streams_bidi else m.local_opened_streams_uni)
      else (if is_bidi id then m.peer_opened_streams_bidi else m.peer_opened_streams_uni)

  abbrev pub limit : ℕ → Bool → StreamMap S → ℕ
  limit id is_server m =
      if is_local id is_server
      then (if is_bidi id then m.peer_max_streams_bidi else m.peer_max_streams_uni)
      else (if is_bidi id then m.local_max_streams_bidi else m.local_max_streams_uni)

  abbrev Opens : ℕ → Bool → StreamMap S → Result (StreamMap S) → Type 0
  Opens id is_server m (ok m') =
      IsWithin m'
      × (opened id is_server m < limit id is_server m)
      × (opened id is_server m' ≡ opened id is_server m + 1)
      × (m'.streams ≡ m.streams)
      × (m'.collected ≡ m.collected)
  Opens id is_server m (err e) =
      (e ≡ Error.stream_limit) × (limit id is_server m ≤ opened id is_server m)
  Opens id is_server m panic = ⊥

  open_stream-Opens :
      (id : ℕ) (is_server : Bool) (m : StreamMap S)
      → IsWithin m
      → Opens id is_server m (open_stream id is_server m)
  unfolding open_stream
  open_stream-Opens id is_server m w = elim (Bool-cases (is_local id is_server)) [
    | inl a ↦ elim (Bool-cases (is_bidi id)) [
      | inl b ↦ elim (Bool-cases (leb m.peer_max_streams_bidi m.local_opened_streams_bidi)) [
        | inl c ↦ rw (Opens, open_stream, opened, limit, a, b, c) (ground (arith, c))
        | inr c ↦ rw (Opens, open_stream, opened, limit, a, b, c) (ground (arith, c, w))
      ]
      | inr b ↦ elim (Bool-cases (leb m.peer_max_streams_uni m.local_opened_streams_uni)) [
        | inl c ↦ rw (Opens, open_stream, opened, limit, a, b, c) (ground (arith, c))
        | inr c ↦ rw (Opens, open_stream, opened, limit, a, b, c) (ground (arith, c, w))
      ]
    ]
    | inr a ↦ elim (Bool-cases (is_bidi id)) [
      | inl b ↦ elim (Bool-cases (leb m.local_max_streams_bidi m.peer_opened_streams_bidi)) [
        | inl c ↦ rw (Opens, open_stream, opened, limit, a, b, c) (ground (arith, c))
        | inr c ↦ rw (Opens, open_stream, opened, limit, a, b, c) (ground (arith, c, w))
      ]
      | inr b ↦ elim (Bool-cases (leb m.local_max_streams_uni m.peer_opened_streams_uni)) [
        | inl c ↦ rw (Opens, open_stream, opened, limit, a, b, c) (ground (arith, c))
        | inr c ↦ rw (Opens, open_stream, opened, limit, a, b, c) (ground (arith, c, w))
      ]
    ]
  ]

  use_stream_lem :
      (id : ℕ) (s : Stream) (m : StreamMap S)
      → (ids : List ℕ) × (use_stream id s m ≡ (s, record m { writable = ids }))
  unfolding use_stream
  use_stream_lem id s m = elim (Bool-cases (is_writable s)) [
    | inl e ↦ (include id m.writable, rw (use_stream, e) refl)
    | inr e ↦ (m.writable, rw (use_stream, e) refl)
  ]

  -- What `get_or_create` does on each branch.
  abbrev pub Creates :
      ℕ
      → ℕ
      → TransportParams
      → TransportParams
      → Bool
      → Bool
      → ℕ
      → ℕ
      → StreamMap S
      → Result (Stream × StreamMap S)
      → Type 0
  Creates now id lp pp local is_server deadline priority m (ok (s, m')) =
      IsWithin m'
      × (m'.collected ≡ m.collected)
      × (((lookup id m.streams ≡ some s)
            × (m'.streams ≡ m.streams)
            × (opened id is_server m' ≡ opened id is_server m))
          ⊎ ((lookup id m.streams ≡ none)
              × (same local (is_local id is_server) ≡ true)
              × (has id m.collected ≡ false)
              × (opened id is_server m < limit id is_server m)
              × (opened id is_server m' ≡ opened id is_server m + 1)
              × (s
                  ≡ stream_full now (data_limits id local lp pp).0 (data_limits id local lp pp).1
                      (is_bidi id) local deadline priority)
              × (m'.streams ≡ update id s m.streams)))
  Creates now id lp pp local is_server deadline priority m (err e) =
      (lookup id m.streams ≡ none)
      × (((e ≡ Error.invalid_stream_state) × (same local (is_local id is_server) ≡ false))
          ⊎ ((e ≡ Error.done)
              × (same local (is_local id is_server) ≡ true)
              × (has id m.collected ≡ true))
          ⊎ ((e ≡ Error.stream_limit)
              × (same local (is_local id is_server) ≡ true)
              × (has id m.collected ≡ false)
              × (limit id is_server m ≤ opened id is_server m)))
  Creates now id lp pp local is_server deadline priority m panic = ⊥

  pub writable-IsWithin :
      (m : StreamMap S) (js : List ℕ) → IsWithin m → IsWithin (record m { writable = js })
  writable-IsWithin m js w = ground (arith, w)

  add_stream-IsWithin :
      (id : ℕ) (s : Stream) (m : StreamMap S)
      → has id m.collected ≡ false
      → IsWithin m
      → IsWithin (add_stream id s m)
  unfolding add_stream
  add_stream-IsWithin id s m h w =
      ground (arith, w, update-IsAway id s m.streams m.collected h w.away)

  create-Creates :
      (now id : ℕ) (lp pp : TransportParams) (local is_server : Bool) (deadline priority : ℕ)
      (m : StreamMap S) (r : Result (StreamMap S))
      → lookup id m.streams ≡ none
      → same local (is_local id is_server) ≡ true
      → has id m.collected ≡ false
      → Opens id is_server m r
      → Creates now id lp pp local is_server deadline priority m
          (create now id lp pp local deadline priority r)
  unfolding create add_stream
  create-Creates now id lp pp local is_server deadline priority m (err e) n a h o =
      (n, inr (inr (o.0, a, h, o.1)))
  create-Creates now id lp pp local is_server deadline priority m panic n a h o = elim o [ ]
  create-Creates now id lp pp local is_server deadline priority m (ok m') n a h
        (w, lt, up, ss, cs) =
      let limits = data_limits id local lp pp in
      let s = stream_full now limits.0 limits.1 (is_bidi id) local deadline priority in
      let (js, e) = use_stream_lem id s (add_stream id s m') in
      subst (λ p. Creates now id lp pp local is_server deadline priority m (ok p)) (sym e)
        (
          writable-IsWithin (add_stream id s m') js
              (add_stream-IsWithin id s m' (ap (has id) cs ∙ h) w),
          cs,
          inr (n, a, h, lt, up, refl, ap (update id s) ss),
        )

  -- Where the invariant holds, `get_or_create` keeps it and never panics. A stream of the table is
  -- returned and not counted again. Another is opened exactly if the caller's side is that of its
  -- number, it was not collected and the count of its side and kind is under its limit: it then
  -- counts one more and is added with the limits of the transport parameters. Otherwise the error
  -- is `InvalidStreamState`, `Done` or `StreamLimit`, the first of the three tests that fails.
  pub get_or_create-Creates :
      (now id : ℕ) (lp pp : TransportParams) (local is_server : Bool) (deadline priority : ℕ)
      (m : StreamMap S)
      → IsWithin m
      → Creates now id lp pp local is_server deadline priority m
          (get_or_create now id lp pp local is_server deadline priority m)
  unfolding get_or_create
  get_or_create-Creates now id lp pp local is_server deadline priority m w =
      elim (Option-cases (lookup id m.streams)) [
        | inr (s, e) ↦
            let (js, f) = use_stream_lem id s m in
            rw (get_or_create, e)
              (subst (λ p. Creates now id lp pp local is_server deadline priority m (ok p)) (sym f)
                (writable-IsWithin m js w, refl, inl (e, refl, refl)))
        | inl e ↦ elim (Bool-cases (same local (is_local id is_server))) [
          | inr a ↦ rw (get_or_create, e, a, Creates) (e, inl (refl, a))
          | inl a ↦ elim (Bool-cases (has id m.collected)) [
            | inl h ↦ rw (get_or_create, e, a, h, Creates) (e, inr (inl (refl, a, h)))
            | inr h ↦
                rw (get_or_create, e, a, h)
                  (create-Creates now id lp pp local is_server deadline priority m
                    (open_stream id is_server m) e a h (open_stream-Opens id is_server m w))
          ]
        ]
      ]
