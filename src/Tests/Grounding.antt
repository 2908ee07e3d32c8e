-- ===== src/Tests/Grounding.antt =====
-- A quote whose case and spaces differ from the source's.
use aizk.Base.{[], ◌∷◌, Text, codes, ◌==◌, if◌then◌else◌}
use aizk.Grounding.{Chars}

-- Only the letter W has a case here.
abbrev chars : Chars
chars = record { is_space = λ c. c == 32; casefold = λ c. if c == 87 then 119 ∷ [] else c ∷ [] }

abbrev quote : Text
quote = codes " water  boils"

abbrev source : Text
source = codes "Water `boils` at 100 C"
