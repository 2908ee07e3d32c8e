-- ===== src/Tests/Watermark.antt =====
-- Two dirty references, one of which is raised again while the profiles are written.
use aizk.Base.{◌≡◌, refl, Bool, true, List, [], ◌∷◌, Text, codes}
use aizk.Watermark.{
  entity_dirty, fact_count, key_of, read, bump, bump_many, pending_refs, amount, consume, Statement,
  bumped, bumped_many, performed, refresh_dirty, run_if_grown,
}
use aizk.Watermark.Refines.{counts, counts_of, read-performed}
use aizk.Watermark.Passes.{raises_of, left_over, refresh_dirty_lem}

abbrev a : Text
a = codes "a"

abbrev b : Text
b = codes "b"

abbrev less : Text → Text → Bool
less s t = true

abbrev history : List Statement
history =
    bumped_many (1 ∷ []) entity_dirty (a ∷ b ∷ a ∷ []) 2 10
    ∷ bumped (key_of (1 ∷ []) entity_dirty b) 1 11
    ∷ []

abbrev meanwhile : List Statement
meanwhile = bumped (key_of (1 ∷ []) entity_dirty a) 5 12 ∷ []

seen_first : pending_refs less (1 ∷ []) entity_dirty 1 (performed history []) ≡ (a, 2) ∷ []
unfolding pending_refs performed bump_many bump
seen_first = refl

left_for_a :
    read
      (key_of (1 ∷ []) entity_dirty a)
      (refresh_dirty less (1 ∷ []) 1 meanwhile 13 (performed history []))
    ≡ 5
unfolding refresh_dirty pending_refs performed bump_many bump consume read
left_for_a = refl

refresh_dirty_lem_example :
    read
      (key_of (1 ∷ []) entity_dirty a)
      (refresh_dirty less (1 ∷ []) 1 meanwhile 13 (performed history []))
    ≡ left_over
        (amount a (pending_refs less (1 ∷ []) entity_dirty 1 (performed history [])))
        (read (key_of (1 ∷ []) entity_dirty a) (performed history []))
        (raises_of meanwhile (key_of (1 ∷ []) entity_dirty a))
refresh_dirty_lem_example =
    refresh_dirty_lem less (1 ∷ []) 1 13 history meanwhile (key_of (1 ∷ []) entity_dirty a) (tt, tt)
      refl

read-performed_example :
    read (key_of (1 ∷ []) entity_dirty b) (performed history [])
    ≡ counts_of history (counts []) (key_of (1 ∷ []) entity_dirty b)
read-performed_example = read-performed history [] (key_of (1 ∷ []) entity_dirty b)

ran_first : (run_if_grown (1 ∷ []) fact_count 10 12 [] 20 []).0 ≡ true
unfolding run_if_grown read
ran_first = refl
