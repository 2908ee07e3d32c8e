-- ===== src/Tests/Graph.antt =====
-- Two joined entities under a partition into single nodes, a page with a menu, and a round of three
-- facts against one claim.
use aizk.Base.{
  ℕ, ◌≡◌, ◌<◌, inl, inr, refl, true, false, Option, none, some, List, [], ◌∷◌, Text, codes, All, In,
  Subseq, arith, length, ◌||◌, elem,
}
use aizk.Communities.{CommunityFact, Graph, graph_of, Detector, Louvain, kept_of, detect}
use aizk.Communities.Measure.{total, count, count_all, Partitions}
use aizk.Communities.Partition.{IsLeaf, detect_lem}
use aizk.Boilerplate.{MarkdownBlock, Texts}
use aizk.Boilerplate.Cleaner.{Cleaner, prune, clean}
use aizk.Boilerplate.Sections.{without_empty_sections, prune-eq-without_empty_sections}
use aizk.Boilerplate.Content.{clean-keeps}
use aizk.Consolidation.{
  set, FactMatch, refute, update, ConsolidationVerdict, FactCandidate, Distances, FactPlan,
  plan_facts, verdicts_of, ambiguous, resolve, merged_verdicts, Write, writes, revisions,
  settle_contradictions, stored_stance,
}
use aizk.Consolidation.Verdicts.{FitAll, Keeps}
use aizk.Consolidation.Known.{IsMatched, revised_ids, keys_of, no_standoff, round_lem}
use aizk.Consolidation.Standoffs.{ordinal_of, last_doubt, refuted_by, settle_lem, first_doubt_kept}
use aizk.Provenance.{Stance, hedged}

abbrev singles : List ℕ → List (List ℕ)
singles [] = []
singles (n ∷ ns) = (n ∷ []) ∷ singles ns

-- Every entity in a cluster of its own.
abbrev single : Louvain
single g = singles g.nodes

count_all-singles : (n : ℕ) (ns : List ℕ) → count_all n (singles ns) ≡ count n ns
count_all-singles n [] = refl
count_all-singles n (m ∷ ns) = omega (arith, count_all-singles n ns)

total-singles : (ns : List ℕ) → total (singles ns) ≡ length ns
total-singles [] = refl
total-singles (m ∷ ns) = omega (arith, total-singles ns)

inhabited-singles : (ns : List ℕ) → All (λ c. 0 < length c) (singles ns)
inhabited-singles [] = tt
inhabited-singles (m ∷ ns) = (omega arith, inhabited-singles ns)

single-Partitions : Partitions single
single-Partitions = record {
  members = λ g n. count_all-singles n g.nodes;
  sizes = λ g. total-singles g.nodes;
  inhabited = λ g. inhabited-singles g.nodes;
}

abbrev detector : Detector
detector = record { max_size = 2; min_size = 1; max_depth = 1 }

abbrev joined : List CommunityFact
joined = record { subject_id = 1; object_id = some 2; statement = 0 } ∷ []

abbrev pair : Graph
pair = record { nodes = 1 ∷ 2 ∷ []; edges = (1, 2) ∷ [] }

detect_lem_example :
    (done : List (List ℕ)) × (detect detector single 4 joined ≡ some (kept_of detector done))
    × All (IsLeaf detector single pair) done
    × ((n : ℕ) → count_all n done ≡ count n pair.nodes)
unfolding graph_of
detect_lem_example =
    detect_lem detector single 4 joined single-Partitions (λ e. absurd (omega (arith, e)))
      (omega arith)

abbrev block : Text → Option ℕ → ℕ → List Text → MarkdownBlock
block text level chars links = record {
  text = text;
  fenced = false;
  heading_level = level;
  title = none;
  links = links;
  label_chars = 0;
  prose_chars = chars;
}

abbrev heading : MarkdownBlock
heading = block (codes "## Notes") (some 2) 5 []

abbrev paragraph : MarkdownBlock
paragraph = block (codes "Water boils at 100 C at sea level.") none 300 []

abbrev trailing : MarkdownBlock
trailing = block (codes "### More") (some 3) 4 []

abbrev page : List MarkdownBlock
page = heading ∷ paragraph ∷ trailing ∷ []

abbrev texts : Texts
texts = record { hostname = λ t. none; words = λ t. t ∷ []; casefold = λ t. t }

abbrev cleaner : Cleaner
cleaner = record {
  density_top = 3;
  density_bottom = 5;
  min_prose_chars = 200;
  min_intro_chars = 24;
  min_menu_links = 3;
  max_menu_chars = 36;
  chrome_headings = codes "navigation" ∷ [];
}

clean_run : clean cleaner texts [] page ≡ heading ∷ paragraph ∷ []
unfolding clean
clean_run = refl

prune-eq-without_empty_sections_example : prune page ≡ without_empty_sections page
prune-eq-without_empty_sections_example = prune-eq-without_empty_sections page

clean-keeps_example :
    Subseq (clean cleaner texts [] page) page × In paragraph (clean cleaner texts [] page)
clean-keeps_example =
    clean-keeps cleaner texts [] page paragraph (refl, refl, inr (omega arith, omega arith, refl))
      (inr (inl refl))

abbrev distances : Distances
distances = record { borderline = 25; automatic = 10 }

abbrev claim : FactMatch
claim = record { id = 40; object_id = none; distance = 20 }

abbrev doubtful : FactCandidate
doubtful = record { policy = set; object_id = none; contests = true; stance = hedged }

abbrev found : List (FactCandidate × List FactMatch)
found = (doubtful, claim ∷ []) ∷ (doubtful, claim ∷ []) ∷ (doubtful, []) ∷ []

abbrev refuting : ConsolidationVerdict
refuting = record { action = refute; supersedes = some 40 }

-- The model answers for the first fact and names a stranger for the second.
abbrev resolution : List ConsolidationVerdict
resolution = refuting ∷ record { action = update; supersedes = some 7 } ∷ []

round_lem_example :
    (vs : List ConsolidationVerdict) × (merged_verdicts
        (verdicts_of (plan_facts distances found))
        (resolve 0 (ambiguous (plan_facts distances found)) resolution)
      ≡ some vs)
    × FitAll (plan_facts distances found) vs
    × Keeps (plan_facts distances found) vs
    × All
        (IsMatched (plan_facts distances found))
        (revised_ids (revisions (writes 0 (plan_facts distances found) vs)))
    × All
        (IsMatched (plan_facts distances found))
        (settle_contradictions (writes 0 (plan_facts distances found) vs) no_standoff).retracted
    × All (IsMatched (plan_facts distances found)) (
        keys_of
          (settle_contradictions (writes 0 (plan_facts distances found) vs) no_standoff).contested)
round_lem_example = round_lem distances found resolution

abbrev plan : FactPlan
plan = record { candidate = doubtful; matches = claim ∷ []; verdict = none }

abbrev write : ℕ → Write
write ordinal = record { ordinal = ordinal; plan = plan; verdict = refuting }

settle_lem_example :
    (ordinal_of 40 (settle_contradictions (write 0 ∷ write 1 ∷ []) no_standoff).contested
      ≡ last_doubt 40 (write 0 ∷ write 1 ∷ []) none)
    × (elem 40 (settle_contradictions (write 0 ∷ write 1 ∷ []) no_standoff).retracted
        ≡ (false || refuted_by 40 (write 0 ∷ write 1 ∷ [])))
settle_lem_example = settle_lem 40 (write 0 ∷ write 1 ∷ []) no_standoff

first_doubt_kept_example :
    (stored_stance (settle_contradictions (write 0 ∷ write 1 ∷ []) no_standoff) (write 0) ≡ hedged)
    × (stored_stance (settle_contradictions (write 0 ∷ write 1 ∷ []) no_standoff) (write 1)
        ≡ Stance.disputed)
first_doubt_kept_example =
    first_doubt_kept (write 0) (write 1) 40 refl refl refl refl (λ e. absurd (omega (arith, e)))
