-- ===== src/Stellar/Sequence/Run.antt =====
-- Reservations one after the other.
use brand_blitz.Prelude.{Bool, ℕ, zero, suc, ◌+◌, ◌≡◌, refl, List, [], ◌∷◌, some, arith, length}
use brand_blitz.Stellar.Sequence.{Store, reserve_sequence, reset_sequence}

-- The account sequences of successive reservations; the network may report another base each time.
pub reserve_all : Bool → List ℕ → Store → List ℕ
unfolding reserve_sequence
reserve_all has_set_if_absent [] s = []
reserve_all has_set_if_absent (loaded ∷ more) s =
    (reserve_sequence has_set_if_absent loaded s).0.account_sequence
    ∷ reserve_all has_set_if_absent more (reserve_sequence has_set_if_absent loaded s).1

abbrev pub count_up : ℕ → ℕ → List ℕ
count_up zero n = []
count_up (suc k) n = n ∷ count_up k (suc n)

reserve_all-from :
    (has_set_if_absent : Bool) (loads : List ℕ) (b k : ℕ)
    → reserve_all has_set_if_absent loads (record { base = some b; offset = some k })
      ≡ count_up (length loads) (b + k)
unfolding reserve_all
reserve_all-from has_set_if_absent [] b k = refl
reserve_all-from has_set_if_absent (l ∷ loads) b k =
    ground (arith, reserve_all-from has_set_if_absent loads b (k + 1))

-- After a reset to what the network reports, any number of reservations yields that number and the
-- ones behind it, without gap or repetition, whatever the network reports later.
pub reserve_all-reset :
    (has_set_if_absent : Bool) (b : ℕ) (s : Store) (loads : List ℕ)
    → reserve_all has_set_if_absent loads (reset_sequence b s).1 ≡ count_up (length loads) b
unfolding reserve_all reset_sequence
reserve_all-reset has_set_if_absent b s [] = refl
reserve_all-reset has_set_if_absent b s (l ∷ loads) =
    ground (arith, reserve_all-from has_set_if_absent loads b 1)
