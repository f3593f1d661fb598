-- ===== src/Params/Entries.antt =====
-- `decode_loop` on the entry of a parameter.
use dtp.Base.{
  ℕ, zero, suc, ◌+◌, ◌^◌, ◌<◌, ◌≡◌, refl, sym, ap, subst, ◌∙◌, Bool, true, false, not, Option, none,
  some, List, [], ◌++◌, append_assoc, append-nil, length-append, ◌==◌, if◌then◌else◌, length, arith,
  Bool-cases, inl, inr, Result, ok, Error,
}
use dtp.Base.Bytes.{to_be}
use dtp.Octets.{
  M, ◌>>=◌, pure, lift, get_u, get_bytes, get_varint, get_bytes_with_u16_length, with_slice,
}
use dtp.Octets.Reads.{Reads, Reads-bind, Reads-pure, get_bytes-Reads, lift-Reads}
use dtp.Octets.Varint.{varint, IsVarint, varint-Reads, length-varint_pos}
use dtp.Octets.Rules.{read_u16, read_cap}
use dtp.Params.{TransportParams, used, number, checked, decode_param, decode_loop}
use dtp.Params.Wire.{entry, number_entry, blob_entry, flag_entry, HasLength, sent}

-- With fuel for the bytes that are left, the loop turns `tp` into `tp'` by them.
pub record Decodes (s : Bool) (tp : TransportParams) (bytes : List ℕ) (tp' : TransportParams)
    : Type 0 where
  pub run : (fuel : ℕ) → length bytes < fuel → Reads (decode_loop fuel s tp) bytes tp' []

-- A round of the loop, by the room that is left.
abbrev round : ℕ → Bool → TransportParams → ℕ → M TransportParams
round fuel s tp left = if left == 0 then pure tp else (do
  id ← get_u 2
  val ← get_bytes_with_u16_length
  tp' ← lift (decode_param s id val tp)
  decode_loop fuel s tp')

entry_parts :
    (id : ℕ) (bs rest : List ℕ)
    → entry id bs ++ rest ≡ to_be 2 id ++ (to_be 2 (length bs) ++ (bs ++ rest))
entry_parts id bs rest = simp append_assoc

length-entry :
    (id : ℕ) (bs rest : List ℕ) → length (entry id bs ++ rest) ≡ 4 + length bs + length rest
length-entry id bs rest = omega (arith, length-append bs rest, split)
  where
    split : length (entry id bs ++ rest) ≡ 4 + length (bs ++ rest)
    split = ap length (entry_parts id bs rest) ∙ omega arith

pub Decodes-nil : (s : Bool) (tp : TransportParams) → Decodes s tp [] tp
unfolding decode_loop
Decodes-nil s tp = record { run = λ fuel h. go fuel h }
  where
    go : (fuel : ℕ) → 0 < fuel → Reads (decode_loop fuel s tp) [] tp []
    go zero h = absurd (omega arith)
    go (suc fuel) h = read_cap (round fuel s tp) [] (Reads-pure tp [])

read_u16_prefixed :
    {B : Type 0} (xs : List ℕ) (f : List ℕ → M B) {s u : List ℕ} {c : B}
    → length xs < 2 ^ 16
    → Reads (f xs) s c u
    → Reads (get_bytes_with_u16_length >>= f) (to_be 2 (length xs) ++ (xs ++ s)) c u
read_u16_prefixed xs f {s} h q =
    Reads-bind get_bytes_with_u16_length f {t = s} {a = xs}
      (unfold get_bytes_with_u16_length in read_u16 (length xs) get_bytes h (get_bytes-Reads xs s))
      q

Decodes-entry :
    (s : Bool) (id : ℕ) (bs : List ℕ) {tp tp1 tp2 : TransportParams} (rest : List ℕ)
    → id < 2 ^ 16
    → length bs < 2 ^ 16
    → decode_param s id bs tp ≡ ok tp1
    → Decodes s tp1 rest tp2
    → Decodes s tp (entry id bs ++ rest) tp2
unfolding decode_loop
Decodes-entry s id bs {tp} {tp1} {tp2} rest hi hl e d = record { run = λ fuel h. go fuel h }
  where
    go :
        (fuel : ℕ)
        → length (entry id bs ++ rest) < fuel
        → Reads (decode_loop fuel s tp) (entry id bs ++ rest) tp2 []
    go zero h = absurd (omega arith)
    go (suc fuel) h =
        let l = length-entry id bs rest in
        let nz : (length (entry id bs ++ rest) == 0) ≡ false = ground (arith, l) in
        let inner : Reads
            (get_u 2 >>= λ id. get_bytes_with_u16_length >>= λ val.
              lift (decode_param s id val tp) >>= λ tp'. decode_loop fuel s tp')
            (to_be 2 id ++ (to_be 2 (length bs) ++ (bs ++ rest))) tp2 [] =
          read_u16 id _ hi (
            read_u16_prefixed bs _ hl (
              Reads-bind (lift (decode_param s id bs tp)) _
                (lift-Reads (decode_param s id bs tp) rest e) (d.run fuel (omega arith)))) in
        read_cap (round fuel s tp) (entry id bs ++ rest)
          (rw (nz) (rw (entry_parts id bs rest) inner))

-- A number in the bytes of a parameter.
pub number_lem : (v : ℕ) (f : ℕ → Result TransportParams) → IsVarint v → number (varint v) f ≡ f v
unfolding number used with_slice
number_lem v f h =
    let whole : varint v ++ [] ≡ varint v = append-nil (varint v) in
    let reads = subst (λ x. Reads get_varint x v []) whole (varint-Reads v h []) in
    let (b', e, _, _, _) = reads.run (record { buf = varint v; off = 0 }) refl in ap (used f) e

-- A parameter with a number: it is read where it is written, and it may be left out where the value
-- would be the one that is there.
pub Decodes-number :
    (s : Bool) (id v : ℕ) {tp tp2 : TransportParams} (tp1 : TransportParams) (rest : List ℕ)
    → id < 2 ^ 16
    → IsVarint v
    → ((v == 0) ≡ false → decode_param s id (varint v) tp ≡ ok tp1)
    → (v ≡ 0 → tp1 ≡ tp)
    → Decodes s tp1 rest tp2
    → Decodes s tp (number_entry id v ++ rest) tp2
Decodes-number s id v {tp} {tp2} tp1 rest hi hv e z d = elim (Bool-cases (v == 0)) [
  | inl n ↦ let same = z (ground (arith, n)) in rw (n) (subst (λ x. Decodes s x rest tp2) same d)
  | inr n ↦
      rw (n) (Decodes-entry s id (varint v) rest hi (omega (arith, length-varint_pos v)) (e n) d)
]

pub Decodes-flag :
    (s b : Bool) {tp2 : TransportParams} (tp : TransportParams) (rest : List ℕ)
    → tp.disable_active_migration ≡ false
    → Decodes s (record tp { disable_active_migration = b }) rest tp2
    → Decodes s tp (flag_entry 0x000c b ++ rest) tp2
unfolding decode_param
Decodes-flag s false {tp2} tp rest z d =
    subst (λ x. Decodes s x rest tp2) (ap (λ b. record tp { disable_active_migration = b }) (sym z))
      d
Decodes-flag s true tp rest z d = Decodes-entry s 0x000c [] rest (omega arith) (omega arith) refl d

pub Decodes-id :
    (s : Bool) (o : Option (List ℕ)) {tp2 : TransportParams} (tp : TransportParams) (rest : List ℕ)
    → tp.original_connection_id ≡ none
    → HasLength o (λ n. n < 2 ^ 16)
    → Decodes (not s) (record tp { original_connection_id = sent s o }) rest tp2
    → Decodes (not s) tp (blob_entry s 0x0000 o ++ rest) tp2
unfolding decode_param
Decodes-id false o {tp2} tp rest z h d =
    subst (λ x. Decodes true x rest tp2)
      (ap (λ x. record tp { original_connection_id = x }) (sym z)) d
Decodes-id true none {tp2} tp rest z h d =
    subst (λ x. Decodes false x rest tp2)
      (ap (λ x. record tp { original_connection_id = x }) (sym z)) d
Decodes-id true (some v) tp rest z h d = Decodes-entry false 0x0000 v rest (omega arith) h refl d

token_lem :
    (v : List ℕ) (f : List ℕ → Result TransportParams)
    → length v ≡ 16
    → used f (get_bytes 16 (with_slice v)) ≡ f v
unfolding used with_slice
token_lem v f h =
    let whole : v ++ [] ≡ v = append-nil v in
    let reads : Reads (get_bytes 16) v v [] =
      subst (λ n. Reads (get_bytes n) v v []) h
        (subst (λ x. Reads (get_bytes (length v)) x v []) whole (get_bytes-Reads v [])) in
    let (b', e, _, _, _) = reads.run (record { buf = v; off = 0 }) refl in ap (used f) e

pub Decodes-token :
    (s : Bool) (o : Option (List ℕ)) {tp2 : TransportParams} (tp : TransportParams) (rest : List ℕ)
    → tp.stateless_reset_token ≡ none
    → HasLength o (λ n. n ≡ 16)
    → Decodes (not s) (record tp { stateless_reset_token = sent s o }) rest tp2
    → Decodes (not s) tp (blob_entry s 0x0002 o ++ rest) tp2
unfolding decode_param
Decodes-token false o {tp2} tp rest z h d =
    subst (λ x. Decodes true x rest tp2) (ap (λ x. record tp { stateless_reset_token = x }) (sym z))
      d
Decodes-token true none {tp2} tp rest z h d =
    subst (λ x. Decodes false x rest tp2)
      (ap (λ x. record tp { stateless_reset_token = x }) (sym z)) d
Decodes-token true (some v) tp rest z h d =
    Decodes-entry false 0x0002 v rest (omega arith) (omega arith)
      (token_lem v (λ v. ok (record tp { stateless_reset_token = some v })) h) d

pub passes :
    (v : ℕ) (bad : ℕ → Bool) (x : Error) (f : ℕ → TransportParams)
    → IsVarint v
    → bad v ≡ false
    → number (varint v) (λ v. checked (bad v) x (f v)) ≡ ok (f v)
passes v bad x f h b = number_lem v (λ v. checked (bad v) x (f v)) h ∙ rw (b) refl
