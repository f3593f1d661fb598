-- ===== src/Fec/Numbers.antt =====
-- src/fec.rs, `FecPacketNumbers`: which packets of a group were sent, acknowledged and lost. The
-- numbers sent are a list of entries by ascending index, the sets are lists of numbers.
use dtp.Base.{
  ℕ, ◌+◌, ◌-◌, ◌%◌, Option, none, some, List, [], ◌∷◌, ltb, leb, ◌==◌, if◌then◌else◌, length, arith,
  Bool-cases, inl, inr, leb→le, ◌<◌, ◌≤◌, refl, ◌≡◌, ◌&&◌, not,
}
use dtp.Base.Maps.{has, include}

pub record FecPacketNumbers : Type 0 where
  pub m : ℕ
  pub n : ℕ
  pub packet_number_sent : List (ℕ × ℕ)
  pub packet_number_acked : List ℕ
  pub packet_number_lost : List ℕ

abbrev pub fec_packet_numbers : ℕ → ℕ → FecPacketNumbers
fec_packet_numbers m n = record {
  m = m;
  n = n;
  packet_number_sent = [];
  packet_number_acked = [];
  packet_number_lost = [];
}

-- `BTreeMap::insert`
unfoldable pub put : ℕ → ℕ → List (ℕ × ℕ) → List (ℕ × ℕ)
put k v [] = (k, v) ∷ []
put k v ((j, w) ∷ es) =
    let rest = put k v es in
    if ltb k j then (k, v) ∷ (j, w) ∷ es else if k == j then (k, v) ∷ es else (j, w) ∷ rest

unfoldable pub packet_sent : ℕ → ℕ → FecPacketNumbers → FecPacketNumbers
unfolding put
packet_sent index pn p = record p { packet_number_sent = put index pn p.packet_number_sent }

unfoldable pub packet_acked : ℕ → FecPacketNumbers → FecPacketNumbers
unfolding include
packet_acked pn p = record p { packet_number_acked = include pn p.packet_number_acked }

unfoldable pub packet_lost : ℕ → FecPacketNumbers → FecPacketNumbers
unfolding include
packet_lost pn p = record p { packet_number_lost = include pn p.packet_number_lost }

-- The 8-bit signed difference, as its two's complement pattern.
unfoldable pub get_delta : FecPacketNumbers → Option ℕ
get_delta p =
    if ltb (length p.packet_number_lost + length p.packet_number_acked) (p.m + p.n)
    then none
    else some ((length p.packet_number_acked % 256 + 256 - p.m) % 256)

unfoldable pub not_acked : List (ℕ × ℕ) → List ℕ → List ℕ
unfolding has
not_acked [] acked = []
not_acked (e ∷ es) acked =
    let rest = not_acked es acked in if has e.1 acked then rest else e.1 ∷ rest

unfoldable pub get_recovered_pns : FecPacketNumbers → Option (List ℕ)
unfolding not_acked
get_recovered_pns p =
    if leb p.m (length p.packet_number_acked)
    then some (not_acked p.packet_number_sent p.packet_number_acked)
    else none

-- The packet numbers of the entries.
abbrev pub values : List (ℕ × ℕ) → List ℕ
values [] = []
values (e ∷ es) = e.1 ∷ values es

has-not_acked :
    (pn : ℕ) (es : List (ℕ × ℕ)) (acked : List ℕ)
    → has pn (not_acked es acked) ≡ (has pn (values es) && not (has pn acked))
unfolding not_acked has
has-not_acked pn [] acked = refl
has-not_acked pn (e ∷ es) acked = ground (arith, has-not_acked pn es acked)

abbrev pub Recovered : ℕ → FecPacketNumbers → Option (List ℕ) → Type 0
Recovered pn p none = length p.packet_number_acked < p.m
Recovered pn p (some pns) =
    (p.m ≤ length p.packet_number_acked)
    × (has pn pns ≡ (has pn (values p.packet_number_sent) && not (has pn p.packet_number_acked)))

-- `get_recovered_pns` has an answer exactly if `m` packets at least were acknowledged; a number is
-- in the answer exactly if it was sent and not acknowledged.
pub get_recovered_pns-Recovered :
    (pn : ℕ) (p : FecPacketNumbers) → Recovered pn p (get_recovered_pns p)
unfolding get_recovered_pns
get_recovered_pns-Recovered pn p = elim (Bool-cases (leb p.m (length p.packet_number_acked))) [
  | inl e ↦
      rw (get_recovered_pns, e, Recovered)
        (
          leb→le p.m (length p.packet_number_acked) e,
          has-not_acked pn p.packet_number_sent p.packet_number_acked,
        )
  | inr e ↦ rw (get_recovered_pns, e, Recovered) (ground (arith, e))
]
