-- ===== src/Tests/Quality.antt =====
-- A conversion that kept half of a short page.
use aizk.Base.{◌*◌, ◌≤◌, ◌<◌, ◌≡◌, ◌≢◌, ◌⊎◌, refl, none, some, [], ◌∷◌, Text, codes}
use aizk.Quality.{Normal, measure, rejection, assess, truncated, removed_all}
use aizk.Quality.Gate.{assess_lem}

abbrev raw : Normal
raw = record { without_markup = λ t. t; lines = λ t. t ∷ []; casefold = λ t. t }

abbrev live : Text
live = codes "low water at noon"

let_half : assess raw (some live) (codes "low water") ≡ none
unfolding assess measure rejection
let_half = refl

refused_short : assess raw (some live) (codes "low") ≡ some truncated
unfolding assess measure rejection
refused_short = refl

refused_empty : assess raw (some live) [] ≡ some removed_all
unfolding assess measure rejection
refused_empty = refl

assess_lem_example :
    (assess raw (some live) live ≡ none)
    × (((measure raw live).characters ≡ 0) × (assess raw (some live) (codes "low water") ≡ none)
        ⊎ (0 < (measure raw live).characters)
          × ((assess raw (some live) (codes "low water") ≢ none)
              ⊎ (0 < (measure raw (codes "low water")).characters)
                × (35 * (measure raw live).characters
                    ≤ 100 * (measure raw (codes "low water")).characters)
                × (100 * (measure raw (codes "low water")).characters
                    ≤ 250 * (measure raw live).characters)))
assess_lem_example = assess_lem raw live (codes "low water")
