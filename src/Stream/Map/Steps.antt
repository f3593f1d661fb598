-- ===== src/Stream/Map/Steps.antt =====
-- The operations of the table of streams as steps, and what every run of them keeps.
use dtp.Base.{
  ℕ, ◌<◌, ◌≡◌, ◌^◌, refl, sym, subst, inl, inr, Bool, some, if◌then◌else◌, ok, err, Error, arith,
  Bool-cases,
}
use dtp.Base.Maps.{lookup, update, has-include}
use dtp.Stream.Streams.{Stream, is_local}
use dtp.Stream.Map.{
  StreamMap, TransportParams, same, get_or_create, collect, cancel_block, push_flushable,
  pop_flushable, mark_readable, mark_writable, mark_canceled, mark_almost_full,
  update_peer_max_streams_bidi, update_peer_max_streams_uni, update_max_streams_bidi,
  update_max_streams_uni, stream_map,
}
use dtp.Stream.Map.Limits.{IsWithin, Creates, get_or_create-Creates}
use dtp.Scheduler.{Scheduler}
use dtp.Stream.Map.Flush.{peek_flushable}
use dtp.Stream.Map.Keeps.{
  IsMore, same_ids, Keeps, collect-IsMore, collect-IsWithin, update_known, cancel_block-Keeps,
  pop_flushable-Keeps, peek_flushable-Keeps,
}

stream_map-IsWithin :
    {S : Type 0} (sched : S) (bidi uni : ℕ)
    → bidi < 2 ^ 64
    → uni < 2 ^ 64
    → IsWithin (stream_map sched bidi uni)
unfolding lookup
stream_map-IsWithin sched bidi uni b u = record {
  local_bidi = omega arith;
  local_uni = omega arith;
  peer_bidi = omega arith;
  peer_uni = omega arith;
  next_bidi = omega arith;
  next_uni = omega arith;
  width_bidi = b;
  width_uni = u;
  away = record { gone = λ id h. refl };
}

module _ {S : Type 0} (W : Type 0) where
  -- One call of an operation that changes the table. (`changed` is a change through `get_mut`.)
  pub data Step (m m' : StreamMap S) : Type 0 where
    created :
        (now id : ℕ) (lp pp : TransportParams) (local is_server : Bool) (deadline priority : ℕ)
        (s : Stream)
        → get_or_create now id lp pp local is_server deadline priority m ≡ ok (s, m')
        → Step m m'
    changed :
        (id : ℕ) (s t : Stream)
        → lookup id m.streams ≡ some s
        → m' ≡ record m { streams = update id t m.streams }
        → Step m m'
    collected : (id : ℕ) (local : Bool) → m' ≡ collect id local m → Step m m'
    canceled : (id : ℕ) → m' ≡ (cancel_block id m).1 → Step m m'
    credited_bidi : (v : ℕ) → m' ≡ update_peer_max_streams_bidi v m → Step m m'
    credited_uni : (v : ℕ) → m' ≡ update_peer_max_streams_uni v m → Step m m'
    advanced_bidi : m' ≡ (update_max_streams_bidi m).1 → Step m m'
    advanced_uni : m' ≡ (update_max_streams_uni m).1 → Step m m'
    marked_readable : (id : ℕ) (on : Bool) → m' ≡ mark_readable id on m → Step m m'
    marked_writable : (id : ℕ) (on : Bool) → m' ≡ mark_writable id on m → Step m m'
    marked_canceled : (id : ℕ) (on : Bool) → m' ≡ mark_canceled id on m → Step m m'
    marked_almost_full : (id : ℕ) (on : Bool) → m' ≡ mark_almost_full id on m → Step m m'
    pushed : (id : ℕ) → m' ≡ push_flushable id m → Step m m'
    popped : m' ≡ (pop_flushable m).1 → Step m m'
    peeked :
        (sched : Scheduler W S) (bandwidth rtt : W) (next now : ℕ)
        → m' ≡ (peek_flushable sched bandwidth rtt next now m).1
        → Step m m'

  pub data Reach (m : StreamMap S) : StreamMap S → Type 0 where
    start : Reach m m
    then_step : {m' m'' : StreamMap S} → Reach m m' → Step m' m'' → Reach m m''

  Step-Keeps : (m m' : StreamMap S) → IsWithin m → Step m m' → Keeps m m'
  Step-Keeps m m' w (created now id lp pp local is_server deadline priority s e) =
      let (w', cs, _) =
        subst (Creates now id lp pp local is_server deadline priority m) e
          (get_or_create-Creates now id lp pp local is_server deadline priority m w) in
      (w', subst (λ c. IsMore m.collected c) (sym cs) same_ids)
  Step-Keeps m m' w (changed id s t e f) =
      rw f (ground (arith, w, update_known id s t m w e), same_ids)
  Step-Keeps m m' w (collected id local e) =
      rw e (collect-IsWithin id local m w, collect-IsMore id local m)
  Step-Keeps m m' w (canceled id e) = rw e (cancel_block-Keeps id m w)
  Step-Keeps m m' w (credited_bidi v e) = rw e (ground (arith, w), same_ids)
  Step-Keeps m m' w (credited_uni v e) = rw e (ground (arith, w), same_ids)
  Step-Keeps m m' w (advanced_bidi e) = rw e (ground (arith, w), same_ids)
  Step-Keeps m m' w (advanced_uni e) = rw e (ground (arith, w), same_ids)
  Step-Keeps m m' w (marked_readable id on e) = rw e (ground (arith, w), same_ids)
  Step-Keeps m m' w (marked_writable id on e) = rw e (ground (arith, w), same_ids)
  Step-Keeps m m' w (marked_canceled id on e) = rw e (ground (arith, w), same_ids)
  Step-Keeps m m' w (marked_almost_full id on e) = rw e (ground (arith, w), same_ids)
  Step-Keeps m m' w (pushed id e) = rw e (ground (arith, w), same_ids)
  Step-Keeps m m' w (popped e) = rw e (pop_flushable-Keeps m w)
  Step-Keeps m m' w (peeked sched bandwidth rtt next now e) =
      rw e (peek_flushable-Keeps sched bandwidth rtt next now m w)

  Reach-Keeps : (m m' : StreamMap S) → IsWithin m → Reach m m' → Keeps m m'
  Reach-Keeps m m' w start = (w, same_ids)
  Reach-Keeps m m'' w (then_step {m'} r s) =
      let (w', more) = Reach-Keeps m m' w r in
      let (w'', more') = Step-Keeps m' m'' w' s in
      (w'', record { kept = λ id h. more'.kept id (more.kept id h) })

  -- From a new table with 64-bit limits, every run of operations keeps, for each side and kind, the
  -- count of opened streams within its limit and the limit within the one to announce next, which
  -- stays a 64-bit number; and no stream of the table is a collected one.
  pub Reach-IsWithin :
      (sched : S) (bidi uni : ℕ) (m : StreamMap S)
      → bidi < 2 ^ 64
      → uni < 2 ^ 64
      → Reach (stream_map sched bidi uni) m
      → IsWithin m
  Reach-IsWithin sched bidi uni m b u r =
      (Reach-Keeps (stream_map sched bidi uni) m (stream_map-IsWithin sched bidi uni b u) r).0

  -- Where the invariant holds, a stream that is collected cannot be opened again after any run of
  -- operations: `get_or_create` returns `Done`, or `InvalidStreamState` for the wrong side.
  pub collect-Refused :
      (now id : ℕ) (lp pp : TransportParams) (dropped local is_server : Bool)
      (deadline priority : ℕ) (m m' : StreamMap S)
      → IsWithin m
      → Reach (collect id dropped m) m'
      → get_or_create now id lp pp local is_server deadline priority m'
        ≡ err
            (if same local (is_local id is_server) then Error.done else Error.invalid_stream_state)
  unfolding get_or_create collect
  collect-Refused now id lp pp dropped local is_server deadline priority m m' w r =
      let (w', more) = Reach-Keeps (collect id dropped m) m' (collect-IsWithin id dropped m w) r in
      let h = more.kept id (has-include id m.collected) in
      let n = w'.away.gone id h in
      elim (Bool-cases (same local (is_local id is_server))) [
        | inl e ↦ rw (get_or_create, n, e, h) refl
        | inr e ↦ rw (get_or_create, n, e) refl
      ]
