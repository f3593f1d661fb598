-- ===== src/Scheduler/Basic.antt =====
-- src/scheduler/mod.rs, `BasicScheduler`: first come, first served.
use dtp.Base.{
  ℕ, ◌<◌, ◌≡◌, ◌⊎◌, refl, sym, subst, inl, inr, Option, none, some, List, [], ◌∷◌, ◌==◌,
  if◌then◌else◌, Result, ok, err, panic, arith, Bool-cases,
}
use dtp.Scheduler.{Block, Scheduler, never_drop, do_nothing}

pub record BasicScheduler : Type 0 where
  pub last_block_id : Option ℕ

abbrev pub new_basic : BasicScheduler
new_basic = record { last_block_id = none }

-- The `for` loop: what is left of the block `id`, or none (-1 in the source) if it is not there.
unfoldable pub size_left : ℕ → List Block → Option ℕ
size_left id [] = none
size_left id (b ∷ bs) = if b.block_id == id then some b.remaining_size else size_left id bs

-- `len`, with 0 for every value that is not positive.
unfoldable pub last_size : Option ℕ → List Block → ℕ
unfolding size_left
last_size none bs = 0
last_size (some id) bs = elim (size_left id bs) [ none ↦ 0 | some n ↦ n ]

-- `blocks_vec[0]` panics without blocks, and `unwrap` without a last block.
unfoldable pub select_basic : List Block → BasicScheduler → Result (ℕ × BasicScheduler)
unfolding last_size
select_basic bs s =
    if last_size s.last_block_id bs == 0
    then elim bs [
      | [] ↦ panic
      | b ∷ _ ↦ ok (b.block_id, record { last_block_id = some b.block_id })
    ]
    else elim s.last_block_id [ none ↦ panic | some id ↦ ok (id, s) ]

abbrev pub basic_scheduler : {W : Type 0} → Scheduler W BasicScheduler
basic_scheduler = record {
  select_block = λ bs pacing_rate rtt next_packet_id current_time s. select_basic bs s;
  should_drop_block = never_drop;
  peek_through_flushable = do_nothing;
}

-- A block of the list with this id.
abbrev pub Has : ℕ → List Block → Type 0
Has id [] = ⊥
Has id (b ∷ bs) = (b.block_id ≡ id) ⊎ Has id bs

-- The first block of the list with the id has this much left.
size_left-Has : (id n : ℕ) (bs : List Block) → size_left id bs ≡ some n → Has id bs
unfolding size_left
size_left-Has id n [] e = cc
size_left-Has id n (b ∷ bs) e = ground (arith, e, size_left-Has id n bs)

-- What `select_basic` does on a list with a first block: it goes on with the last block while data
-- of it is left, and takes the first of the list otherwise; it remembers its choice.
abbrev pub Selects : Block → List Block → BasicScheduler → Result (ℕ × BasicScheduler) → Type 0
Selects b bs s (ok (id, s')) =
    Has id (b ∷ bs)
    × (s'.last_block_id ≡ some id)
    × (((s.last_block_id ≡ some id) × (0 < last_size s.last_block_id (b ∷ bs)))
        ⊎ ((id ≡ b.block_id) × (last_size s.last_block_id (b ∷ bs) ≡ 0)))
Selects b bs s _ = ⊥

last_size-Has :
    (o : Option ℕ) (bs : List Block) → 0 < last_size o bs → (id : ℕ) × (o ≡ some id) × Has id bs
unfolding last_size
last_size-Has none bs h = absurd (omega arith)
last_size-Has (some id) bs h = go (size_left id bs) refl h
  where
    go :
        (r : Option ℕ)
        → size_left id bs ≡ r
        → 0 < elim r [ none ↦ 0 | some n ↦ n ]
        → (i : ℕ) × (some id ≡ some i) × Has i bs
    go none e l = absurd (omega arith)
    go (some n) e l = (id, refl, size_left-Has id n bs e)

-- Where there is a block, the basic scheduler never panics: it goes on with the last block chosen
-- while data of it is left, and otherwise takes the first.
pub select_basic-Selects :
    (b : Block) (bs : List Block) (s : BasicScheduler) → Selects b bs s (select_basic (b ∷ bs) s)
unfolding select_basic
select_basic-Selects b bs s = elim (Bool-cases (last_size s.last_block_id (b ∷ bs) == 0)) [
  | inl e ↦ rw (e, Selects) (inl refl, refl, inr (refl, ground (arith, e)))
  | inr e ↦
      let pos : 0 < last_size s.last_block_id (b ∷ bs) = ground (arith, e) in
      let (id, o, h) = last_size-Has s.last_block_id (b ∷ bs) pos in
      rw e (
        subst (λ r. Selects b bs s (elim r [ none ↦ panic | some i ↦ ok (i, s) ])) (sym o)
          (h, o, inl (o, pos)))
]

Selects-Has :
    (b : Block) (bs : List Block) (s : BasicScheduler) (r : Result (ℕ × BasicScheduler))
    → Selects b bs s r
    → (id : ℕ) × (s' : BasicScheduler) × (r ≡ ok (id, s')) × Has id (b ∷ bs)
Selects-Has b bs s (ok (id, s')) h = (id, s', refl, h.0)
Selects-Has b bs s (err e) h = elim h [ ]
Selects-Has b bs s panic h = elim h [ ]

-- In the form that the table of streams asks of a scheduler.
pub select_basic-Has :
    (b : Block) (bs : List Block) (s : BasicScheduler)
    → (id : ℕ) × (s' : BasicScheduler) × (select_basic (b ∷ bs) s ≡ ok (id, s')) × Has id (b ∷ bs)
select_basic-Has b bs s = Selects-Has b bs s (select_basic (b ∷ bs) s) (select_basic-Selects b bs s)
