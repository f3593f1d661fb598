-- ===== src/Stream/SendBuf/Write.antt =====
-- `SendBuf::push_slice` appends to the queue what the limit admits.
use dtp.Base.{
  ℕ, zero, suc, ◌+◌, ◌-◌, ◌≤◌, ◌<◌, ◌≡◌, refl, ap, sym, subst, ◌∙◌, Bool, true, false, ◌&&◌, Option,
  none, some, List, [], ◌∷◌, ◌++◌, length, take, drop, arith, leb, ltb, ◌==◌, min, Result, ok,
  length-append, length-take, length-drop, take-append-drop, append_assoc, append-nil,
  if◌then◌else◌, Bool-cases, inl, inr,
}
use dtp.Stream.RangeBuf.{RangeBuf, range_buf, len, max_off}
use dtp.Stream.SendBuf.{
  SendBuf, push, push_round, push_chunks, push_all, push_slice, max_write_size, cap,
  breaks_final_size, returns,
}
use dtp.Stream.SendBuf.Queue.{
  IsQueue, Runs, Runs-le, bytes_of, heap_push_last, Runs-append, bytes_of-append,
}

-- A queue that still takes data.
pub record IsOpen (front : ℕ) (s : SendBuf) : Type 0 where
  pub queue : IsQueue front s
  pub endless : s.fin_off ≡ none
  pub up : s.shut ≡ false

-- The state with the chunk `c` at the end.
abbrev appended : RangeBuf → SendBuf → SendBuf
appended c s = record s {
  chunks = s.chunks ++ (c ∷ []);
  len = s.len + len c;
  fin_off = if c.fin then some (max_off c) else s.fin_off;
}

push_last :
    (front : ℕ) (c : RangeBuf) (s : SendBuf)
    → IsOpen front s
    → c.off ≡ s.off
    → 0 < len c
    → s.off + len c ≤ s.max_data
    → push c s ≡ (ok tt, appended c s)
unfolding push breaks_final_size
push_last front c s v e l b = ground (
  arith,
  whole,
  v.endless,
  v.up,
  v.queue.behind,
  Runs-le front s.off s.chunks v.queue.runs,
  heap_push_last front s.off c s.chunks v.queue.runs e,
)
  where
    whole : max_off c ≡ s.off + len c
    whole = omega (arith, e, v.queue.width)

appended-IsQueue :
    (front : ℕ) (c : RangeBuf) (s : SendBuf)
    → IsQueue front s
    → c.off ≡ s.off
    → 0 < len c
    → s.off + len c ≤ s.max_data
    → IsQueue front (record (appended c s) { off = s.off + len c })
appended-IsQueue front c s v e l room = record {
  runs =
      subst (λ o. Runs front o (s.chunks ++ (c ∷ []))) (omega (arith, e))
        (Runs-append front s.off c s.chunks v.runs e l);
  count = omega (arith, v.count);
  limited = room;
  width = v.width;
  behind = v.behind;
}

abbrev some_end : Bool → List ℕ → Bool
some_end fin xs = fin && ltb 0 (length xs)

-- `xs` was appended, and with it the end of the stream if `fin` and there was any.
record Wrote (front : ℕ) (xs : List ℕ) (fin : Bool) (s : SendBuf) (r : Result (Unit {0}) × SendBuf)
    : Type 0 where
  pub done : r.0 ≡ ok tt
  pub queue : IsQueue front r.1
  pub bytes : bytes_of r.1.chunks ≡ bytes_of s.chunks ++ xs
  pub moves : r.1.off ≡ s.off + length xs
  pub ends : r.1.fin_off ≡ (if some_end fin xs then some r.1.off else none)

nil_of_length : (xs : List ℕ) → length xs ≡ 0 → xs ≡ []
nil_of_length [] e = refl
nil_of_length (x ∷ xs) e = absurd (omega arith)

-- The state after the chunk `c` of the bytes in front of `more`.
abbrev moved : RangeBuf → SendBuf → SendBuf
moved c s = record (appended c s) { off = s.off + len c }

more-Wrote :
    (front : ℕ) (xs ys zs : List ℕ) (fin : Bool) (s : SendBuf) (r : Result (Unit {0}) × SendBuf)
    → xs ++ ys ≡ zs
    → some_end fin ys ≡ some_end fin zs
    → Wrote front ys fin (moved (range_buf xs s.off false) s) r
    → Wrote front zs fin s r
more-Wrote front xs ys zs fin s r e f w = record {
  done = w.done;
  queue = w.queue;
  bytes =
      w.bytes
      ∙ rw (bytes_of-append s.chunks (range_buf xs s.off false), ← e)
          (append_assoc (bytes_of s.chunks) xs ys);
  moves = w.moves ∙ rw (← e) (omega (arith, length-append xs ys));
  ends = rw f at w.ends;
}

moved-IsOpen :
    (front : ℕ) (xs : List ℕ) (s : SendBuf)
    → IsOpen front s
    → 0 < length xs
    → s.off + length xs ≤ s.max_data
    → IsOpen front (moved (range_buf xs s.off false) s)
moved-IsOpen front xs s v l room = record {
  queue = appended-IsQueue front _ s v.queue refl l room;
  endless = v.endless;
  up = v.up;
}

push_round_eq :
    (front : ℕ) (xs : List ℕ) (sent total : ℕ) (fin last : Bool) (s : SendBuf)
    (again : ℕ → SendBuf → Result (Unit {0}) × SendBuf)
    → 0 < length xs
    → IsOpen front s
    → s.off + length xs ≤ s.max_data
    → (sent + length xs == total && fin) ≡ last
    → push_round again xs sent total fin s
      ≡ again (sent + length xs) (moved (range_buf xs s.off last) s)
unfolding push_round
push_round_eq front xs sent total fin last s again pos v room e =
    rw (e, push_last front (range_buf xs s.off last) s v refl pos room) refl

last-Wrote :
    (front : ℕ) (xs ys zs : List ℕ) (s : SendBuf)
    → xs ++ ys ≡ zs
    → length ys ≡ 0
    → 0 < length xs
    → IsOpen front s
    → s.off + length zs ≤ s.max_data
    → Wrote front zs true s (ok tt, moved (range_buf xs s.off true) s)
last-Wrote front xs ys zs s e z pos v room =
    let same : xs ≡ zs = sym (append-nil xs) ∙ ap (λ t. xs ++ t) (sym (nil_of_length ys z)) ∙ e in
    subst (λ l. Wrote front l true s (ok tt, moved (range_buf xs s.off true) s)) same
      (record {
        done = refl;
        queue =
            appended-IsQueue front _ s v.queue refl pos
              (omega (arith, ap (λ (l : List ℕ). length l) same));
        bytes = bytes_of-append s.chunks _;
        moves = refl;
        ends = ground (arith, pos);
      })

round-Wrote :
    (front : ℕ) (xs ys zs : List ℕ) (sent total : ℕ) (fin : Bool) (s : SendBuf)
    (again : ℕ → SendBuf → Result (Unit {0}) × SendBuf)
    → xs ++ ys ≡ zs
    → 0 < length xs
    → sent + length zs ≡ total
    → s.off + length zs ≤ s.max_data
    → IsOpen front s
    → ((t : SendBuf) → length ys ≡ 0 → again (sent + length xs) t ≡ (ok tt, t))
    → ((t : SendBuf)
        → t.off + length ys ≤ t.max_data
        → IsOpen front t
        → Wrote front ys fin t (again (sent + length xs) t))
    → Wrote front zs fin s (push_round again xs sent total fin s)
round-Wrote front xs ys zs sent total fin s again whole pos t room v stop go_on =
    let n : length xs + length ys ≡ length zs = rw (← whole) (omega (arith, length-append xs ys)) in
    elim (Bool-cases (sent + length xs == total && fin)) [
      | inl e ↦
          let here : (sent + length xs ≡ total) × (fin ≡ true) = ground (arith, e) in
          rw
            (
              push_round_eq front xs sent total fin true s again pos v (omega (arith, n)) e,
              stop (moved (range_buf xs s.off true) s) (omega (arith, here.0, n)),
              here.1,
            )
            (last-Wrote front xs ys zs s whole (omega (arith, here.0, n)) pos v room)
      | inr e ↦
          rw (push_round_eq front xs sent total fin false s again pos v (omega (arith, n)) e) (
            more-Wrote front xs ys zs fin s _ whole (ground (arith, e, n)) (
              go_on (moved (range_buf xs s.off false) s) (omega (arith, n))
                (moved-IsOpen front xs s v pos (omega (arith, n)))))
    ]

push_chunks-Wrote :
    (front fuel : ℕ) (xs : List ℕ) (sent total : ℕ) (fin : Bool) (s : SendBuf)
    → length xs ≤ fuel
    → sent + length xs ≡ total
    → s.off + length xs ≤ s.max_data
    → IsOpen front s
    → Wrote front xs fin s (push_chunks fuel xs sent total fin s)
unfolding push_chunks
push_chunks-Wrote front fuel [] sent total fin s f t room v = record {
  done = refl;
  queue = v.queue;
  bytes = sym (append-nil (bytes_of s.chunks));
  moves = omega arith;
  ends = ground (arith, v.endless);
}
push_chunks-Wrote front zero (x ∷ xs) sent total fin s f t room v = absurd (omega arith)
push_chunks-Wrote front (suc fuel) (x ∷ xs) sent total fin s f t room v =
    let n : length (drop 999 xs) ≤ fuel = omega (arith, length-drop 999 xs) in
    round-Wrote front (take max_write_size (x ∷ xs)) (drop max_write_size (x ∷ xs)) (x ∷ xs) sent
      total fin s (λ sent' s'. push_chunks fuel (drop max_write_size (x ∷ xs)) sent' total fin s')
      (take-append-drop max_write_size (x ∷ xs)) (omega arith) t room v
      (λ u z. rw (nil_of_length (drop 999 xs) z) refl)
      (λ u r w.
        push_chunks-Wrote front fuel (drop 999 xs) (sent + length (take max_write_size (x ∷ xs)))
          total fin u n (omega (arith, t, length-take 999 xs, length-drop 999 xs)) r w)

push_all_lem :
    (front : ℕ) (xs : List ℕ) (fin : Bool) (s : SendBuf)
    → IsOpen front s
    → s.off + length xs ≤ s.max_data
    → (s' : SendBuf) × (push_all xs fin s ≡ (ok (length xs), s')) × Wrote front xs fin s (ok tt, s')
unfolding push_all
push_all_lem front xs fin s v room =
    let w =
      push_chunks-Wrote front (length xs) xs 0 (length xs) fin s (omega arith) (omega arith) room
        v in
    let s' = (push_chunks (length xs) xs 0 (length xs) fin s).1 in
    (
      s',
      rw (w.done) refl,
      record { done = refl; queue = w.queue; bytes = w.bytes; moves = w.moves; ends = w.ends },
    )

take_all : (xs : List ℕ) → take (length xs) xs ≡ xs
take_all [] = refl
take_all (x ∷ xs) = ap (λ t. x ∷ t) (take_all xs)

ended-IsQueue :
    (front : ℕ) (fin_off : Option ℕ) (s : SendBuf)
    → IsQueue front s
    → IsQueue front (record s { fin_off = fin_off })
ended-IsQueue front fin_off s v = record {
  runs = v.runs;
  count = v.count;
  limited = v.limited;
  width = v.width;
  behind = v.behind;
}

push_slice_nil :
    (front : ℕ) (fin : Bool) (s : SendBuf)
    → IsOpen front s
    → push_slice [] fin s ≡ (ok 0, record s { fin_off = if fin then some s.off else none })
unfolding push_slice breaks_final_size
push_slice_nil front fin s v = ground (arith, v.endless, v.up)

not_ltb : (a b : ℕ) → ltb a b ≡ false → b ≤ a
not_ltb a b e = ground (arith, e)

is_ltb : (a b : ℕ) → ltb a b ≡ true → a < b
is_ltb a b e = ground (arith, e)

ends_full :
    (fin : Bool) (xs : List ℕ) (o x : Option ℕ)
    → (length xs == 0) ≡ false
    → o ≡ (if some_end fin xs then x else none)
    → o ≡ (if fin && leb (length xs) (length xs) then x else none)
ends_full fin xs o x e h = ground (arith, e, h)

ends_short :
    (fin : Bool) (n m : ℕ) (o x : Option ℕ)
    → n < m
    → o ≡ none
    → o ≡ (if fin && leb m n then x else none)
ends_short fin n m o x l h = ground (arith, l, h)

push_slice_lem :
    (xs : List ℕ) (fin : Bool) (s : SendBuf) (r : Result ℕ × SendBuf)
    → s.shut ≡ false
    → (length xs == 0) ≡ false
    → (if ltb (cap s) (length xs) then push_all (take (cap s) xs) false s else push_all xs fin s)
      ≡ r
    → push_slice xs fin s ≡ r
unfolding push_slice
push_slice_lem xs fin s r up e h =
    ap
      (λ t.
        if t
        then (ok (length xs), s)
        else if length xs == 0
        then (returns 0 (push (range_buf [] s.off fin) s).0, (push (range_buf [] s.off fin) s).1)
        else if ltb (cap s) (length xs)
        then push_all (take (cap s) xs) false s
        else push_all xs fin s)
      up
    ∙ ap
        (λ t.
          if t
          then (returns 0 (push (range_buf [] s.off fin) s).0, (push (range_buf [] s.off fin) s).1)
          else if ltb (cap s) (length xs)
          then push_all (take (cap s) xs) false s
          else push_all xs fin s)
        e
    ∙ h

-- `push_slice` on a queue that still takes data stores as many bytes as the limit admits, at the
-- end and in order, returns their number, and sets the final offset exactly if `fin` is given and
-- all the data fits. The queue stays within the limit.
pub push_slice-Appends :
    (front : ℕ) (data' : List ℕ) (fin : Bool) (s : SendBuf)
    → IsOpen front s
    → (n : ℕ) × (s' : SendBuf) × (n ≡ min (length data') (s.max_data - s.off))
      × (push_slice data' fin s ≡ (ok n, s'))
      × IsQueue front s'
      × (bytes_of s'.chunks ≡ bytes_of s.chunks ++ take n data')
      × (s'.off ≡ s.off + n)
      × (s'.fin_off ≡ (if fin && leb (length data') n then some s'.off else none))
unfolding push_slice
push_slice-Appends front xs fin s v =
    let room : cap s ≡ s.max_data - s.off = omega (arith, v.queue.limited, v.queue.width) in
    elim (Bool-cases (length xs == 0)) [
      | inl e ↦
          let nil : xs ≡ [] = nil_of_length xs (ground (arith, e)) in
          (
            0,
            record s { fin_off = if fin then some s.off else none },
            omega (arith, ap (λ (l : List ℕ). length l) nil),
            ap (λ l. push_slice l fin s) nil ∙ push_slice_nil front fin s v,
            ended-IsQueue front _ s v.queue,
            sym (append-nil (bytes_of s.chunks)),
            omega arith,
            rw nil (ground arith),
          )
      | inr e ↦ elim (Bool-cases (ltb (cap s) (length xs))) [
        | inl f ↦
            let l : cap s < length xs = is_ltb (cap s) (length xs) f in
            let n : length (take (cap s) xs) ≡ cap s = omega (arith, l, length-take (cap s) xs) in
            let (s', g, w) =
              push_all_lem front (take (cap s) xs) false s v
                (omega (arith, n, room, v.queue.limited)) in
            (
              cap s,
              s',
              omega (arith, l, room),
              push_slice_lem xs fin s _ v.up e (rw f (g ∙ ap (λ i. (ok i, s')) n)),
              w.queue,
              w.bytes,
              omega (arith, w.moves, n),
              ends_short fin (cap s) (length xs) s'.fin_off (some s'.off) l w.ends,
            )
        | inr f ↦
            let l : length xs ≤ cap s = not_ltb (cap s) (length xs) f in
            let (s', g, w) =
              push_all_lem front xs fin s v (omega (arith, l, room, v.queue.limited)) in
            (
              length xs,
              s',
              omega (arith, l, room),
              push_slice_lem xs fin s _ v.up e (rw f g),
              w.queue,
              rw (take_all xs) w.bytes,
              w.moves,
              ends_full fin xs s'.fin_off (some s'.off) e w.ends,
            )
      ]
    ]
