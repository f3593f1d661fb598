-- ===== src/Fec/Tests.antt =====
-- Runs of a group of one shard of data and one of redundancy, its copy.
use dtp.Base.{
  ℕ, ◌+◌, ◌≤◌, ◌≡◌, refl, ap, subst, ap, subst, Bool, true, false, Option, none, some, List, [],
  ◌∷◌, length, take, ok, panic, arith,
}
use dtp.Fec.{FecStatus, FecFrame, FecAlgorithm, no_code}
use dtp.Fec.Group.{FecGroup, fec_group, and_then, filled, nth, encode, feed_fec_frame, reconstruct}
use dtp.Base.Maps.{has, include}
use dtp.Fec.Group.Missing.{reconstruct-Panics}
use dtp.Fec.Numbers.{
  FecPacketNumbers, fec_packet_numbers, packet_sent, packet_acked, put, get_recovered_pns,
  not_acked,
}
use dtp.Fec.Group.Shards.{Agrees, present, HasData, lost, Sized, IsErasureCode}
use dtp.Fec.Group.Receive.{kept, feed_all, indices, AllCarry, Fits, feed_all-Recovers}
use dtp.Fec.Group.Recover.{answer, Redundant, reconstruct-Recovers, encode-Redundant}

abbrev copy_data : List (List ℕ) → List (List ℕ)
copy_data (x ∷ y ∷ []) = x ∷ x ∷ []
copy_data v = v

abbrev copy_back : List (Option (List ℕ)) → List (Option (List ℕ))
copy_back (none ∷ some y ∷ []) = some y ∷ some y ∷ []
copy_back p = p

abbrev copy_code : FecAlgorithm
copy_code = record {
  encode_shards = λ v. (true, copy_data v);
  reconstruct_data = λ p. (true, copy_back p);
  verify_shards = λ v. (true, true);
}

copy_encodes :
    (v : List (List ℕ))
    → length v ≡ 1 + 1
    → Sized 2 v
    → (w : List (List ℕ)) × (copy_code.encode_shards v ≡ (true, w))
      × (length w ≡ 1 + 1)
      × (take 1 w ≡ take 1 v)
copy_encodes (x ∷ y ∷ []) l s = (x ∷ x ∷ [], refl, refl, refl)
copy_encodes [] l s = absurd (omega arith)
copy_encodes (x ∷ []) l s = absurd (omega arith)
copy_encodes (x ∷ y ∷ z ∷ v) l s = absurd (omega arith)

copied :
    (x : List ℕ) (p : List (Option (List ℕ)))
    → Agrees p (x ∷ x ∷ [])
    → 1 ≤ present p
    → HasData 1 (copy_back p) (x ∷ x ∷ [])
copied x [] a h = elim a [ ]
copied x (none ∷ []) a h = elim a [ ]
copied x (some y ∷ []) a h = elim a.1 [ ]
copied x (none ∷ none ∷ []) a h = absurd (omega arith)
copied x (none ∷ some z ∷ []) a h = (a.0, tt)
copied x (some y ∷ none ∷ []) a h = (a.0, tt)
copied x (some y ∷ some z ∷ []) a h = (a.0, tt)
copied x (none ∷ none ∷ o ∷ p) a h = elim a [ ]
copied x (none ∷ some z ∷ o ∷ p) a h = elim a.1 [ ]
copied x (some y ∷ none ∷ o ∷ p) a h = elim a.1 [ ]
copied x (some y ∷ some z ∷ o ∷ p) a h = elim a.1.1 [ ]

copy_restores :
    (v w : List (List ℕ)) (p : List (Option (List ℕ)))
    → length v ≡ 1 + 1
    → Sized 2 v
    → copy_code.encode_shards v ≡ (true, w)
    → Agrees p w
    → 1 ≤ present p
    → (q : List (Option (List ℕ))) × (copy_code.reconstruct_data p ≡ (true, q)) × HasData 1 q w
copy_restores (x ∷ y ∷ []) w p l s e a h = (
  copy_back p,
  refl,
  subst (λ u. Agrees p u → HasData 1 (copy_back p) u) (ap (λ (t : Bool × List (List ℕ)). t.1) e)
      (λ b. copied x p b h) a,
)
copy_restores [] w p l s e a h = absurd (omega arith)
copy_restores (x ∷ []) w p l s e a h = absurd (omega arith)
copy_restores (x ∷ y ∷ z ∷ v) w p l s e a h = absurd (omega arith)

copy-IsErasureCode : IsErasureCode copy_code 1 1 2
copy-IsErasureCode = record { encodes = copy_encodes; restores = copy_restores }

-- A group of frame number 7, at the sender and at the receiver.
abbrev status : ℕ → FecStatus
status index = record { m = 1; n = 1; group_id = 7; index = index }

abbrev group : List (Option (List ℕ)) → FecGroup
group shards = record {
  info = status 0;
  shard_size = 2;
  r = copy_code;
  next_index = 1;
  shards = shards;
  restored = false;
}

encode-Redundant_example :
    (w : List (List ℕ)) × (fs : List FecFrame) × (encode (group (some (5 ∷ 6 ∷ []) ∷ none ∷ []))
      ≡ ok fs)
    × (copy_code.encode_shards (filled 2 (some (5 ∷ 6 ∷ []) ∷ none ∷ [])) ≡ (true, w))
    × (take 1 w ≡ take 1 (filled 2 (some (5 ∷ 6 ∷ []) ∷ none ∷ [])))
    × (length fs ≡ 1)
    × Redundant (status 0) 1 w fs
encode-Redundant_example =
    encode-Redundant (group (some (5 ∷ 6 ∷ []) ∷ none ∷ [])) copy-IsErasureCode refl (refl, tt)
      (omega arith)

abbrev redundant_frame : FecFrame
redundant_frame = record { info = status 1; bytes = 5 ∷ 6 ∷ [] }

abbrev vector : List (List ℕ)
vector = (5 ∷ 6 ∷ []) ∷ (5 ∷ 6 ∷ []) ∷ []

abbrev make_copy : ℕ → ℕ → Option FecAlgorithm
make_copy m n = some copy_code

twice-AllCarry : AllCarry (status 0) 2 vector (redundant_frame ∷ redundant_frame ∷ [])
unfolding nth
twice-AllCarry = ((refl, refl, refl, refl, refl), ((refl, refl, refl, refl, refl), tt))

twice_enough : 1 ≤ present (kept (indices (redundant_frame ∷ redundant_frame ∷ []) []) 0 vector)
unfolding has
twice_enough = omega arith

-- The redundant frame comes twice, the data frame is lost.
feed_all-Recovers_example :
    (g : FecGroup) × (and_then
        (fec_group make_copy (status 0) 2)
        (feed_all (redundant_frame ∷ redundant_frame ∷ []))
      ≡ ok g)
    × (g.shards ≡ kept (indices (redundant_frame ∷ redundant_frame ∷ []) []) 0 vector)
    × ((reconstruct g).0
        ≡ ok (
            answer (
              lost 1 (kept (indices (redundant_frame ∷ redundant_frame ∷ []) []) 0 vector) vector)))
    × Fits (status 0) 2 redundant_frame (feed_fec_frame redundant_frame g)
feed_all-Recovers_example =
    feed_all-Recovers make_copy copy_code (status 0) 2 ((5 ∷ 6 ∷ []) ∷ (0 ∷ 0 ∷ []) ∷ []) vector
      (redundant_frame ∷ redundant_frame ∷ []) redundant_frame refl copy-IsErasureCode refl
      (refl, (refl, tt)) refl twice-AllCarry twice_enough

reconstruct-Recovers_example :
    (reconstruct (group (none ∷ some (5 ∷ 6 ∷ []) ∷ []))).0
    ≡ ok (answer (lost 1 (none ∷ some (5 ∷ 6 ∷ []) ∷ []) vector))
reconstruct-Recovers_example =
    reconstruct-Recovers (group (none ∷ some (5 ∷ 6 ∷ []) ∷ [])) 1 2
      ((5 ∷ 6 ∷ []) ∷ (0 ∷ 0 ∷ []) ∷ []) vector copy-IsErasureCode refl (refl, (refl, tt)) refl
      (refl, tt) (omega arith)

-- Two shards of data and one of redundancy without the feature `fec`: the second is missing.
abbrev bare_group : FecGroup
bare_group = record {
  info = record { m = 2; n = 1; group_id = 7; index = 0 };
  shard_size = 1;
  r = no_code;
  next_index = 0;
  shards = some (5 ∷ []) ∷ none ∷ none ∷ [];
  restored = false;
}

second_missing : nth bare_group.shards 1 ≡ ok none
unfolding nth
second_missing = refl

reconstruct-Panics_example : (reconstruct bare_group).0 ≡ panic
reconstruct-Panics_example = reconstruct-Panics bare_group 1 refl (omega arith) second_missing

abbrev numbers : FecPacketNumbers
numbers = packet_acked 8 (packet_sent 1 9 (packet_sent 0 8 (fec_packet_numbers 1 1)))

get_recovered_pns_runs : get_recovered_pns numbers ≡ some (9 ∷ [])
unfolding get_recovered_pns not_acked packet_acked packet_sent put has include
get_recovered_pns_runs = refl
