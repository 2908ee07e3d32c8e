-- ===== src/Provenance.antt =====
-- src/aizk/provenance.py: the two epistemic axes of a claim. A creator's identifier is a number,
-- and a perspective key is the partition that its text names.
pub mod Ladder
use aizk.Base.{ℕ, Bool, true, false, leb, if◌then◌else◌}

pub data EpistemicKind : Type 0 where
  world experience observation opinion preference procedure negative_result : EpistemicKind

abbrev pub speaker_bound : EpistemicKind → Bool
speaker_bound experience = true
speaker_bound observation = true
speaker_bound opinion = true
speaker_bound preference = true
speaker_bound _ = false

-- `"world"` or `f"speaker:{created_by}"`
pub data PerspectiveKey : Type 0 where
  shared : PerspectiveKey
  speaker : ℕ → PerspectiveKey

unfoldable pub perspective_key : EpistemicKind → ℕ → PerspectiveKey
perspective_key kind created_by = if speaker_bound kind then speaker created_by else shared

-- Declared from most to least settled.
pub data Stance : Type 0 where
  settled reported hedged disputed refuted : Stance

-- `list(type(self)).index(self)`
abbrev pub rank : Stance → ℕ
rank settled = 0
rank reported = 1
rank hedged = 2
rank disputed = 3
rank refuted = 4

abbrev pub distorting : Stance → Bool
distorting s = leb (rank hedged) (rank s)

abbrev pub decisive : Stance → Bool
decisive settled = true
decisive refuted = true
decisive _ = false

-- `max` by rank keeps the first of two equal ranks.
abbrev pub at_least : Stance → Stance → Stance
at_least s floor = if leb (rank floor) (rank s) then s else floor

abbrev pub is_settled : Stance → Bool
is_settled settled = true
is_settled _ = false
