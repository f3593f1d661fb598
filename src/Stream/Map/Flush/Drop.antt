-- ===== src/Stream/Map/Flush/Drop.antt =====
-- The blocks that are late are canceled, the others are kept.
use dtp.Base.{ℕ, ◌≡◌, ◌≢◌, refl, sym, subst, ◌∙◌, true, false, some, List, [], ◌∷◌, arith, All, ok}
use dtp.Base.Maps.{
  has, include, exclude, lookup, update, has-include, has-include_old, lookup-update,
  lookup-update_other,
}
use native.Mathlib.Decide.{ℕ_discrete}
use dtp.Scheduler.{Block}
use dtp.Stream.SendBuf.{shutdown, block_size}
use dtp.Stream.Streams.{Stream}
use dtp.Stream.Map.{StreamMap, get_block, cancel_block}

abbrev pub closed : Stream → Stream
closed s = record s { send = record s.send { shut = true; chunks = [] } }

has_other : (id j : ℕ) (js : List ℕ) → has id (j ∷ js) ≡ false → j ≢ id
unfolding has
has_other id j js d = ground (arith, d)

pub has_rest : (id j : ℕ) (js : List ℕ) → has id (j ∷ js) ≡ false → has id js ≡ false
unfolding has
has_rest id j js d = ground (arith, d)

module _ {S : Type 0} where
  -- The stream is there, is not shut down and has a start time.
  abbrev pub IsReady : StreamMap S → ℕ → Type 0
  IsReady m id =
      (s : Stream) × (lookup id m.streams ≡ some s)
      × (s.send.shut ≡ false)
      × (t : ℕ) × (s.send.start_time ≡ some t)

  -- The stream is marked as canceled, and nothing more is sent on it.
  abbrev pub IsCanceled : StreamMap S → ℕ → Type 0
  IsCanceled m id =
      (has id m.canceled ≡ true)
      × (s : Stream) × (lookup id m.streams ≡ some s)
      × (s.send.shut ≡ true)

  pub get_block_lem :
      (m : StreamMap S) (id : ℕ)
      → IsReady m id
      → (b : Block) × (get_block id m ≡ ok b) × (b.block_id ≡ id)
  unfolding get_block
  get_block_lem m id (s, e, u, t, f) = (
    record {
      block_id = id;
      block_deadline = s.send.deadline;
      block_priority = s.send.priority;
      block_create_time = t;
      block_size = block_size s.send;
      remaining_size = s.send.len;
    },
    rw (e, f, get_block) refl,
    refl,
  )

  -- The map after `cancel_block`.
  abbrev pub canceled_map : ℕ → Stream → StreamMap S → StreamMap S
  canceled_map id s m = record m {
    canceled = include id m.canceled;
    canceled_depend = include id m.canceled_depend;
    streams = update id (closed s) m.streams;
    writable = exclude id m.writable;
  }

  pub cancel_block_lem :
      (m : StreamMap S) (id : ℕ) (s : Stream)
      → lookup id m.streams ≡ some s
      → s.send.shut ≡ false
      → cancel_block id m ≡ (ok tt, canceled_map id s m)
  unfolding cancel_block shutdown
  cancel_block_lem m id s e u = rw (e, u, cancel_block, shutdown) refl

  -- One more is canceled, and none less.
  pub cancel-IsCanceled :
      (m : StreamMap S) (id : ℕ) (s : Stream) → IsCanceled (canceled_map id s m) id
  cancel-IsCanceled m id s =
      (has-include id m.canceled, closed s, lookup-update id (closed s) m.streams, refl)

  cancel-IsCanceled_old :
      (m : StreamMap S) (id : ℕ) (s : Stream) (j : ℕ)
      → IsCanceled m j
      → IsCanceled (canceled_map id s m) j
  cancel-IsCanceled_old m id s j (h, t, e, u) = elim (ℕ_discrete j id) [
    | yes p ↦ subst (λ i. IsCanceled (canceled_map id s m) i) (sym p) (cancel-IsCanceled m id s)
    | no n ↦ (
      has-include_old j id m.canceled h,
      t,
      lookup-update_other j id (closed s) m.streams n ∙ e,
      u,
    )
  ]

  pub cancel-All-IsCanceled :
      (m : StreamMap S) (id : ℕ) (s : Stream) (js : List ℕ)
      → All (IsCanceled m) js
      → All (IsCanceled (canceled_map id s m)) js
  cancel-All-IsCanceled m id s [] h = tt
  cancel-All-IsCanceled m id s (j ∷ js) h =
      (cancel-IsCanceled_old m id s j h.0, cancel-All-IsCanceled m id s js h.1)

  -- The stream `j` of `m` is the ready stream of `m0`.
  abbrev pub Intact : StreamMap S → StreamMap S → ℕ → Type 0
  Intact m0 m j = IsReady m0 j × (lookup j m.streams ≡ lookup j m0.streams)

  pub cancel-Intact :
      (m0 m : StreamMap S) (id : ℕ) (s : Stream) (js : List ℕ)
      → has id js ≡ false
      → All (Intact m0 m) js
      → All (Intact m0 (canceled_map id s m)) js
  cancel-Intact m0 m id s [] d h = tt
  cancel-Intact m0 m id s (j ∷ js) d h = (
    (h.0.0, lookup-update_other j id (closed s) m.streams (has_other id j js d) ∙ h.0.1),
    cancel-Intact m0 m id s js (has_rest id j js d) h.1,
  )

  pub Intact-IsReady : (m0 m : StreamMap S) (j : ℕ) → Intact m0 m j → IsReady m j
  Intact-IsReady m0 m j ((s, e, u, t, f), q) = (s, q ∙ e, u, t, f)

  pub Intact-get_block :
      (m0 m : StreamMap S) (j : ℕ) → Intact m0 m j → get_block j m ≡ get_block j m0
  unfolding get_block
  Intact-get_block m0 m j h = rw (h.1, get_block) refl
