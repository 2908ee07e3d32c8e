-- ===== src/Communities/Partition.antt =====
-- `detect` of src/aizk/graph/communities.py: its answer as a partition of the entities.
use aizk.Base.{
  ℕ, zero, suc, ◌+◌, ◌-◌, ◌*◌, ◌≤◌, ◌<◌, ◌≡◌, ◌≢◌, refl, ap, ◌⊎◌, true, false, not, ◌&&◌, some,
  List, [], ◌∷◌, ◌++◌, ltb, ◌==◌, All, length, arith, Bool-cases, inl, inr, All-append, In,
}
use aizk.Communities.{
  CommunityFact, Graph, Detector, Louvain, subgraph, at_depth, repeats, refined, refine, graph_of,
  empty_graph, kept_of, detect,
}
use aizk.Communities.Measure.{
  total, count, count_all, Partitions, work, work-append, work-at_depth, IsPending,
  at_depth-IsPending, weight_pos, split_lighter,
}

abbrev count_pending : ℕ → List (List ℕ × ℕ) → ℕ
count_pending n [] = 0
count_pending n (p ∷ ps) = count n p.0 + count_pending n ps

count_pending-append :
    (n : ℕ) (ps qs : List (List ℕ × ℕ))
    → count_pending n (ps ++ qs) ≡ count_pending n ps + count_pending n qs
count_pending-append n [] qs = omega arith
count_pending-append n (p ∷ ps) qs = omega (arith, count_pending-append n ps qs)

count_pending-at_depth :
    (n depth : ℕ) (cs : List (List ℕ)) → count_pending n (at_depth depth cs) ≡ count_all n cs
count_pending-at_depth n depth [] = refl
count_pending-at_depth n depth (c ∷ cs) = omega (arith, count_pending-at_depth n depth cs)

count_all-snoc :
    (n : ℕ) (cs : List (List ℕ)) (c : List ℕ)
    → count_all n (cs ++ c ∷ []) ≡ count_all n cs + count n c
count_all-snoc n [] c = omega arith
count_all-snoc n (d ∷ cs) c = omega (arith, count_all-snoc n cs c)

module _ (cfg : Detector) (partition : Louvain) (g : Graph) where
  -- The clusters of the recursion with their depths: those of the first pass, and the parts of one
  -- that is too large, not as deep as the detector goes, and not the whole graph again, when Louvain
  -- finds more than one part in it.
  pub data Reached : List ℕ → ℕ → Type 0 where
    first : (c : List ℕ) → In c (partition g) → Reached c 0
    deeper :
        (parent c : List ℕ) (depth : ℕ)
        → Reached parent depth
        → cfg.max_size < length parent
        → depth < cfg.max_depth
        → (depth ≡ 0 → length parent ≢ length g.nodes)
        → 1 < length (partition (subgraph g parent))
        → In c (partition (subgraph g parent))
        → Reached c (depth + 1)

  -- Why a leaf that was reached at a depth is not split: it is small enough, it is as deep as the
  -- detector goes, it is the whole graph again, or Louvain finds no split of it.
  abbrev pub IsLeaf : List ℕ → Type 0
  IsLeaf c =
      (0 < length c)
      × ((depth : ℕ) × Reached c depth
          × ((length c ≤ cfg.max_size)
              ⊎ ((depth ≡ cfg.max_depth)
                  ⊎ ((depth ≡ 0) × (length c ≡ length g.nodes)
                      ⊎ (length (partition (subgraph g c)) ≤ 1)))))

  abbrev IsReached : List ℕ × ℕ → Type 0
  IsReached p = Reached p.0 p.1

  at_depth-IsReached :
      (depth : ℕ) (cs : List (List ℕ))
      → ((c : List ℕ) → In c cs → Reached c depth)
      → All IsReached (at_depth depth cs)
  at_depth-IsReached depth [] h = tt
  at_depth-IsReached depth (c ∷ cs) h =
      (h c (inl refl), at_depth-IsReached depth cs (λ d m. h d (inr m)))

  refined-tried :
      (c : List ℕ) (depth : ℕ)
      → ltb cfg.max_size (length c) ≡ true
      → ltb depth cfg.max_depth ≡ true
      → repeats cfg partition g c depth ≡ false
      → refined cfg partition g c depth ≡ partition (subgraph g c)
  refined-tried c depth a b d = ground arith

  as_deep : (d m : ℕ) → d ≤ m → ltb d m ≡ false → d ≡ m
  as_deep d m h e = ground arith

  ltb-one : (cs : List (List ℕ)) → ltb 1 (length cs) ≡ false → length cs ≤ 1
  ltb-one cs h = ground arith

  leaf :
      (c : List ℕ) (depth : ℕ)
      → IsPending cfg (c, depth)
      → Reached c depth
      → ltb 1 (length (refined cfg partition g c depth)) ≡ false
      → IsLeaf c
  leaf c depth p r h = elim (Bool-cases (ltb cfg.max_size (length c))) [
    | inr small ↦ (p.0, (depth, r, inl (ground arith)))
    | inl big ↦ elim (Bool-cases (ltb depth cfg.max_depth)) [
      | inr deep ↦ (p.0, (depth, r, inr (inl (as_deep depth cfg.max_depth p.1 deep))))
      | inl more ↦ elim (Bool-cases (repeats cfg partition g c depth)) [
        | inl again ↦ (p.0, (depth, r, inr (inr (inl (ground arith)))))
        | inr new ↦
            let tried = refined-tried c depth big more new in
            (p.0, (depth, r, inr (inr (inr (ltb-one (partition (subgraph g c)) (rw tried at h))))))
      ]
    ]
  ]

  -- The parts of a cluster that is split.
  parts_below :
      (c : List ℕ) (depth : ℕ)
      → Reached c depth
      → ltb 1 (length (refined cfg partition g c depth)) ≡ true
      → All IsReached (at_depth (depth + 1) (refined cfg partition g c depth))
  parts_below c depth r h =
      elim (Bool-cases (
        ltb cfg.max_size (length c)
        && (ltb depth cfg.max_depth && not (repeats cfg partition g c depth)))) [
          | inr stop ↦ absurd (cc (rw stop at h))
          | inl go ↦
              let split_in : ltb 1 (length (partition (subgraph g c))) ≡ true = rw go at h in
              rw go (
                at_depth-IsReached (depth + 1) (partition (subgraph g c)) (λ d m.
                  deeper c d depth r (ground arith) (ground arith) (λ a b. ground arith)
                    (more_than_one (partition (subgraph g c)) split_in) m))
        ]
    where
      more_than_one : (cs : List (List ℕ)) → ltb 1 (length cs) ≡ true → 1 < length cs
      more_than_one cs e = ground arith

  split :
      (c : List ℕ) (depth : ℕ)
      → ltb 1 (length (refined cfg partition g c depth)) ≡ true
      → (refined cfg partition g c depth ≡ partition (subgraph g c)) × (depth < cfg.max_depth)
  split c depth h =
      elim (Bool-cases (
        ltb cfg.max_size (length c)
        && (ltb depth cfg.max_depth && not (repeats cfg partition g c depth)))) [
          | inl go ↦ (rw go refl, ground arith)
          | inr stop ↦ absurd (cc (rw stop at h))
        ]

  pub record IsDone (pending : List (List ℕ × ℕ)) (leaves done : List (List ℕ)) : Type 0 where
    pub leaf_each : All IsLeaf done
    pub members : (n : ℕ) → count_all n done ≡ count_all n leaves + count_pending n pending

  refine-IsDone :
      Partitions partition
      → (fuel : ℕ) (pending : List (List ℕ × ℕ)) (leaves : List (List ℕ)) → work cfg pending ≤ fuel
      → All (IsPending cfg) pending
      → All IsReached pending
      → All IsLeaf leaves
      → (done : List (List ℕ)) × (refine cfg partition g fuel pending leaves ≡ some done)
        × IsDone pending leaves done
  unfolding refine
  refine-IsDone law fuel [] leaves w p r l =
      (leaves, refl, record { leaf_each = l; members = λ n. omega arith })
  refine-IsDone law zero ((c, depth) ∷ pending) leaves w p r l =
      absurd (omega (arith, weight_pos cfg c depth p.0))
  refine-IsDone law (suc fuel) ((c, depth) ∷ pending) leaves w p r l =
      elim (Bool-cases (ltb 1 (length (refined cfg partition g c depth)))) [
        | inl more ↦
            let parts = refined cfg partition g c depth in
            let (tried, below) = split c depth more in
            let same : total parts ≡ length c = rw tried (law.sizes (subgraph g c)) in
            let lighter = split_lighter cfg c depth parts p.0.0 below same in
            let (done, e, d) =
              refine-IsDone law fuel (pending ++ at_depth (depth + 1) parts) leaves
                (omega (arith, lighter, work-append cfg pending (at_depth (depth + 1) parts)))
                (All-append (IsPending cfg) pending (at_depth (depth + 1) parts) p.1 (
                  at_depth-IsPending cfg (depth + 1) parts (omega (arith, below))
                    (rw tried (law.inhabited (subgraph g c)))))
                (All-append IsReached pending (at_depth (depth + 1) parts) r.1
                  (parts_below c depth r.0 more))
                l in
            (
              done,
              rw (more, refine) e,
              record {
                leaf_each = d.leaf_each;
                members = λ n. omega (
                  arith,
                  d.members n,
                  count_pending-append n pending (at_depth (depth + 1) parts),
                  count_pending-at_depth n (depth + 1) parts,
                  ap (count_all n) tried,
                  law.members (subgraph g c) n,
                );
              },
            )
        | inr none_left ↦
            let lighter = weight_pos cfg c depth p.0 in
            let (done, e, d) =
              refine-IsDone law fuel pending (leaves ++ c ∷ []) (omega (arith, lighter)) p.1 r.1
                (All-append IsLeaf leaves (c ∷ []) l (leaf c depth p.0 r.0 none_left, tt)) in
            (
              done,
              rw (none_left, refine) e,
              record {
                leaf_each = d.leaf_each;
                members = λ n. omega (arith, d.members n, count_all-snoc n leaves c);
              },
            )
      ]

-- When the graph of the facts has an edge, Louvain returns partitions into inhabited parts, and
-- there is fuel for one round of every entity and level, the detector answers. The clusters it keeps
-- are those of a flat partition of the graph's entities that are large enough. Every cluster of that
-- partition is inhabited and was reached, at some depth, by splitting only clusters that were too
-- large; and at that depth it is small enough, as deep as the detector goes, the whole graph again, or
-- not split by Louvain.
pub detect_lem :
    (cfg : Detector) (partition : Louvain) (fuel : ℕ) (facts : List CommunityFact)
    → Partitions partition
    → length (graph_of facts empty_graph).edges ≢ 0
    → length (graph_of facts empty_graph).nodes * (cfg.max_depth + 1) ≤ fuel
    → (done : List (List ℕ)) × (detect cfg partition fuel facts ≡ some (kept_of cfg done))
      × All (IsLeaf cfg partition (graph_of facts empty_graph)) done
      × ((n : ℕ) → count_all n done ≡ count n (graph_of facts empty_graph).nodes)
unfolding detect
detect_lem cfg partition fuel facts law edges enough =
    let g = graph_of facts empty_graph in
    let begun = partition g in
    let levels : cfg.max_depth + 1 - 0 ≡ cfg.max_depth + 1 = omega arith in
    let bound : work cfg (at_depth 0 begun) ≤ fuel =
      rw (work-at_depth cfg 0 begun, levels, law.sizes g) enough in
    let (done, e, d) =
      refine-IsDone cfg partition g law fuel (at_depth 0 begun) [] bound
        (at_depth-IsPending cfg 0 begun (omega arith) (law.inhabited g))
        (at_depth-IsReached cfg partition g 0 begun (λ c m. Reached.first c m)) tt in
    let some_edge : (length g.edges == 0) ≡ false = ground arith in
    (
      done,
      rw (some_edge, e, detect) refl,
      d.leaf_each,
      λ n. omega (arith, d.members n, count_pending-at_depth n 0 begun, law.members g n),
    )
