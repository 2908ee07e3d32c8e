-- ===== src/Provenance/Ladder.antt =====
-- `Stance.at_least` of src/aizk/provenance.py as a join on the ladder, and the perspective keys.
use aizk.Base.{ℕ, ◌≡◌, ◌↔◌, ◌⊎◌, false, max, arith}
use aizk.Provenance.{Stance, rank, at_least, EpistemicKind, perspective_key, speaker_bound}

pub rank-injective : (s t : Stance) → rank s ≡ rank t → s ≡ t
rank-injective s t h = ground arith

-- A stance with a floor is the one of the two that stands further down the ladder, and flooring is
-- commutative, idempotent and associative.
pub at_least-IsJoin :
    (s t u : Stance)
    → (rank (at_least s t) ≡ max (rank s) (rank t))
      × ((at_least s t ≡ s) ⊎ (at_least s t ≡ t))
      × (at_least s t ≡ at_least t s)
      × (at_least s s ≡ s)
      × (at_least (at_least s t) u ≡ at_least s (at_least t u))
at_least-IsJoin s t u = (ground arith, ground arith, ground arith, ground arith, ground arith)

-- Two creators share a perspective on a kind exactly when the kind is not bound to its speaker, or
-- they are the same creator.
pub perspective_key-eq_iff :
    (k : EpistemicKind) (a b : ℕ)
    → (perspective_key k a ≡ perspective_key k b) ↔ ((speaker_bound k ≡ false) ⊎ (a ≡ b))
unfolding perspective_key
perspective_key-eq_iff k a b = ground arith
