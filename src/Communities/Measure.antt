-- ===== src/Communities/Measure.antt =====
-- The measure for the loop of `detect` in src/aizk/graph/communities.py: the work that is pending.
use aizk.Base.{
  ℕ, ◌+◌, ◌-◌, ◌*◌, ◌≤◌, ◌<◌, ◌≡◌, List, [], ◌∷◌, ◌++◌, ◌==◌, All, length, arith, if◌then◌else◌,
}
use aizk.Communities.{Graph, Detector, Louvain, at_depth}

abbrev pub total : List (List ℕ) → ℕ
total [] = 0
total (c ∷ cs) = length c + total cs

abbrev pub count : ℕ → List ℕ → ℕ
count n [] = 0
count n (m ∷ ms) = (if m == n then 1 else 0) + count n ms

abbrev pub count_all : ℕ → List (List ℕ) → ℕ
count_all n [] = 0
count_all n (c ∷ cs) = count n c + count_all n cs

-- What Louvain documents: a partition of the graph's nodes into sets with members.
pub record Partitions (partition : Louvain) : Type 0 where
  pub members : (g : Graph) (n : ℕ) → count_all n (partition g) ≡ count n g.nodes
  pub sizes : (g : Graph) → total (partition g) ≡ length g.nodes
  pub inhabited : (g : Graph) → All (λ c. 0 < length c) (partition g)

-- A cluster may still be split as often as its depth leaves levels.
abbrev pub weight : Detector → List ℕ × ℕ → ℕ
weight cfg (c, depth) = length c * (cfg.max_depth + 1 - depth)

abbrev pub work : Detector → List (List ℕ × ℕ) → ℕ
work cfg [] = 0
work cfg (p ∷ ps) = weight cfg p + work cfg ps

pub work-append :
    (cfg : Detector) (ps qs : List (List ℕ × ℕ)) → work cfg (ps ++ qs) ≡ work cfg ps + work cfg qs
work-append cfg [] qs = omega arith
work-append cfg (p ∷ ps) qs = omega (arith, work-append cfg ps qs)

pub work-at_depth :
    (cfg : Detector) (depth : ℕ) (cs : List (List ℕ))
    → work cfg (at_depth depth cs) ≡ total cs * (cfg.max_depth + 1 - depth)
work-at_depth cfg depth [] = omega arith
work-at_depth cfg depth (c ∷ cs) = omega (arith, work-at_depth cfg depth cs)

-- Every pending cluster has members, and is no deeper than the detector goes.
abbrev pub IsPending : Detector → List ℕ × ℕ → Type 0
IsPending cfg (c, depth) = (0 < length c) × (depth ≤ cfg.max_depth)

pub at_depth-IsPending :
    (cfg : Detector) (depth : ℕ) (cs : List (List ℕ))
    → depth ≤ cfg.max_depth
    → All (λ c. 0 < length c) cs
    → All (IsPending cfg) (at_depth depth cs)
at_depth-IsPending cfg depth [] d h = tt
at_depth-IsPending cfg depth (c ∷ cs) d h = ((h.0, d), at_depth-IsPending cfg depth cs d h.1)

product_grows : (n k : ℕ) → 0 < n → n * k + 1 ≤ n * (k + 1)
product_grows n k h = omega arith

pub weight_pos :
    (cfg : Detector) (c : List ℕ) (depth : ℕ) → IsPending cfg (c, depth) → 1 ≤ weight cfg (c, depth)
weight_pos cfg c depth p =
    let levels : cfg.max_depth + 1 - depth ≡ cfg.max_depth - depth + 1 = omega (arith, p.1) in
    rw levels (omega (arith, product_grows (length c) (cfg.max_depth - depth) p.0))

-- The parts of a split cluster weigh less than the cluster.
pub split_lighter :
    (cfg : Detector) (c : List ℕ) (depth : ℕ) (parts : List (List ℕ))
    → 0 < length c
    → depth < cfg.max_depth
    → total parts ≡ length c
    → work cfg (at_depth (depth + 1) parts) + 1 ≤ weight cfg (c, depth)
split_lighter cfg c depth parts pos below same =
    let k = cfg.max_depth - depth in
    let levels : cfg.max_depth + 1 - depth ≡ k + 1 = omega (arith, below) in
    let lower : cfg.max_depth + 1 - (depth + 1) ≡ k = omega (arith, below) in
    rw (work-at_depth cfg (depth + 1) parts, lower, levels, same) (product_grows (length c) k pos)
