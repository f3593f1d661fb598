-- ===== src/Stream/RecvBuf/Control.antt =====
-- The other operations of `RecvBuf` that change it.
use dtp.Base.{
  ℕ, ◌+◌, ◌-◌, ◌<◌, ◌≡◌, refl, true, false, arith, ◌⊎◌, Bool-cases, inl, inr, Result, ok, err,
  panic, Error, Option, some, none, ltb, if◌then◌else◌, ◌≢◌,
}
use dtp.Stream.RecvBuf.{RecvBuf, is_other, reset, update_max_data, shutdown, set_block_info}
use dtp.Stream.RecvBuf.Push.{IsReading, Keeps}

-- How `reset` at `size` may end on `s`: the final size is set, and the number is what the peer never
-- sent, where no other final size is known; or it contradicts the data received or the final size
-- known.
abbrev pub Resets : (ℕ → ℕ) → ℕ → RecvBuf → Result (ℕ × RecvBuf) → Type 0
Resets σ size s (ok (n, s')) =
    IsReading σ s'
    × (s'.fin_off ≡ some size)
    × (s.len + n ≡ size)
    × (s'.len ≡ s.len)
    × ((f : ℕ) → s.fin_off ≡ some f → f ≡ size)
Resets σ size s (err e) =
    (e ≡ Error.final_size) × ((size < s.len) ⊎ ((f : ℕ) × (s.fin_off ≡ some f) × (f ≢ size)))
Resets σ size s panic = ⊥

is_other_lem :
    (fin_off : Option ℕ) (size : ℕ)
    → is_other fin_off size ≡ true
    → (f : ℕ) × (fin_off ≡ some f) × (f ≢ size)
unfolding is_other
is_other_lem none size e = cc
is_other_lem (some f) size e = (f, refl, λ same. ground (arith, e, same))

not_other :
    (fin_off : Option ℕ) (size : ℕ)
    → is_other fin_off size ≡ false
    → (f : ℕ) → fin_off ≡ some f
    → f ≡ size
unfolding is_other
not_other none size e = λ f h. cc
not_other (some g) size e = λ f h. ground (arith, e, h)

bounded :
    (σ : ℕ → ℕ) (size : ℕ) (s : RecvBuf)
    → IsReading σ s
    → ((f : ℕ) → s.fin_off ≡ some f → f ≡ size)
    → Resets σ size s (
        if ltb size s.len
        then err Error.final_size
        else ok (size - s.len, record s { fin_off = some size }))
bounded σ size s v known = elim (Bool-cases (ltb size s.len)) [
  | inl e ↦ rw e (refl, inl (ground (arith, e)))
  | inr e ↦ rw e (
    record {
      parts = v.parts;
      read = v.read;
      limited = v.limited;
      granted = v.granted;
      width = v.width;
    },
    refl,
    ground (arith, e),
    refl,
    known,
  )
]

-- `reset` on a good state sets the final size, keeps it good and returns how many bytes below it were
-- never received, or answers `FinalSize` where it is below the data received or another final size
-- is known; it succeeds only where neither is so.
pub reset-Resets :
    (σ : ℕ → ℕ) (size : ℕ) (s : RecvBuf) → IsReading σ s → Resets σ size s (reset size s)
unfolding reset
reset-Resets σ size s v = elim (Bool-cases (is_other s.fin_off size)) [
  | inl e ↦ rw e (refl, inr (is_other_lem s.fin_off size e))
  | inr e ↦ rw e (bounded σ size s v (not_other s.fin_off size e))
]

-- `update_max_data`, `shutdown` and `set_block_info` keep the state good; `shutdown` fails with
-- `Done` where the stream is shut down already.
pub control-IsReading :
    (σ : ℕ → ℕ) (size priority deadline start : ℕ) (s : RecvBuf)
    → IsReading σ s
    → IsReading σ (update_max_data s).1
      × Keeps σ (λ e. (e ≡ Error.done) × (s.drain ≡ true)) (shutdown s)
      × IsReading σ (set_block_info size priority deadline start s)
unfolding update_max_data shutdown set_block_info
control-IsReading σ size priority deadline start s v = (
  record {
    parts = v.parts;
    read = v.read;
    limited = omega (arith, v.limited, v.granted);
    granted = omega arith;
    width = v.width;
  },
  elim (Bool-cases s.drain) [
    | inl e ↦ rw e (refl, refl)
    | inr e ↦ rw e (record {
      parts = tt;
      read = v.read;
      limited = v.limited;
      granted = v.granted;
      width = v.width;
    })
  ],
  record {
    parts = v.parts;
    read = v.read;
    limited = v.limited;
    granted = v.granted;
    width = v.width;
  },
)
