-- ===== src/Stream/RecvBuf/Tests.antt =====
-- Runs of the receive buffer, and its theorems on them.
use dtp.Base.{ℕ, ◌≡◌, refl, List, [], ◌∷◌, true, false, replicate, ok, arith, Result, some, Bool}
use dtp.Stream.RangeBuf.{RangeBuf, max_off}
use dtp.Stream.RecvBuf.{
  RecvBuf, recv_buf, push_with, push, pop, push_loop, admit, cut_by, skip_read, store, reset,
}
use dtp.Stream.RecvBuf.Push.{IsReading, IsRefusal, Keeps, push_with-IsReading}
use dtp.Stream.RecvBuf.Pop.{Delivers, pop-Delivers}
use dtp.Stream.RecvBuf.Control.{Resets, reset-Resets}

-- The stream whose byte at each offset is the offset.
abbrev count : ℕ → ℕ
count i = i

abbrev same : List RangeBuf → List RangeBuf
same h = h

abbrev early : ℕ → RecvBuf → Bool
early bct s = true

abbrev later : RangeBuf
later = record { bytes = 6 ∷ 7 ∷ []; off = 6; fin = true }

abbrev wide : RangeBuf
wide = record { bytes = 3 ∷ 4 ∷ 5 ∷ 6 ∷ []; off = 3; fin = false }

-- Three bytes were read, a later chunk is there.
abbrev state : RecvBuf
state = record (recv_buf 20) { chunks = later ∷ []; off = 3; len = 8; fin_off = some 8 }

state-IsReading : IsReading count state
unfolding recv_buf
state-IsReading = record {
  parts = (record { spells = (refl, (refl, tt)); below = omega arith }, tt);
  read = omega arith;
  limited = omega arith;
  granted = omega arith;
  width = omega arith;
}

push_with-IsReading_example :
    Keeps count (IsRefusal wide state) (push_with same (λ i. 100) early wide state)
push_with-IsReading_example =
    push_with-IsReading count same (λ i. 100) early wide state (omega arith) state-IsReading
      (refl, (refl, (refl, (refl, tt))))

abbrev ready_state : RecvBuf
ready_state = record state { off = 6 }

ready_state-IsReading : IsReading count ready_state
unfolding recv_buf
ready_state-IsReading = record {
  parts = (record { spells = (refl, (refl, tt)); below = omega arith }, tt);
  read = omega arith;
  limited = omega arith;
  granted = omega arith;
  width = omega arith;
}

pop-Delivers_example : Delivers count 1 ready_state (pop 1 ready_state)
pop-Delivers_example = pop-Delivers count 1 ready_state ready_state-IsReading

reset-Resets_example : Resets count 9 state (reset 9 state)
reset-Resets_example = reset-Resets count 9 state state-IsReading

-- A chunk that two stored ones cut, where the heap lists the later of the two first: of its tail
-- only the part before the later one is kept, and the bytes from 22 on are lost.
abbrev span : ℕ → ℕ → RangeBuf
span off n = record { bytes = replicate n 0; off = off; fin = false }

abbrev ends : Result RecvBuf → List ℕ
ends (ok s) = go s.chunks
  where
    go : List RangeBuf → List ℕ
    go [] = []
    go (c ∷ h) = max_off c ∷ go h
ends _ = []

abbrev listed : List RangeBuf → List RangeBuf
listed (a ∷ b ∷ c ∷ h) = a ∷ c ∷ b ∷ h
listed h = h

push-lost :
    ends (
      push listed
        (λ i. 100)
        (span 7 23)
        (record (recv_buf 99) { chunks = span 5 1 ∷ span 10 2 ∷ span 20 2 ∷ []; len = 22 }))
    ≡ 6 ∷ 10 ∷ 12 ∷ 20 ∷ 22 ∷ []
unfolding push push_with push_loop admit cut_by skip_read store recv_buf
push-lost = refl
