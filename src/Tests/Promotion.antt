-- ===== src/Tests/Promotion.antt =====
-- A note of one person that is moved to an organization, and moved again.
use aizk.Base.{◌≡◌, ◌≢◌, refl, arith, ℕ, true, none, some, List, map, [], ◌∷◌, codes, All, false}
use aizk.Promotion.{active_at, Origin, authored, web_cache, Document, Chunk, FactClaim, Store}
use aizk.Promotion.Rows.{distinct}
use aizk.Promotion.Share.{quarantined, not_visible, Attempt, gave, refused, Promoter, share}
use aizk.Promotion.Carry.{
  created, current, Promotion, Work, work_of, create, settle_work, carry, transfer,
}
use aizk.Promotion.Standing.Finding.{IsTable}
use aizk.Promotion.Standing.Confined.{Confined}
use aizk.Promotion.Quarantine.{carry-Confined}
use aizk.Promotion.Covers.Facts.{Covers, settle_work-Covers}
use aizk.Promotion.Move.Retired.{Unclaimed}
use aizk.Promotion.Move.Moved.{MovedAll}
use aizk.Promotion.Move.Complete.{IsCopied, transfer_lem}
use aizk.Promotion.Move.Again.{unchanged, transfer_again}

abbrev note : ℕ → Origin → Document
note i o = record {
  id = i;
  title = some (codes "plan");
  subject_type = none;
  source_uri = none;
  observed_at = none;
  expires_at = none;
  artifact_id = none;
  artifact_content_id = none;
  content_hash = 7;
  origin = o;
  created_by = 1;
  scopes = 1 ∷ [];
  promoted_from = none;
}

abbrev span : Chunk
span = record {
  id = 2;
  document_id = 0;
  ord = 0;
  text = codes "a";
  lexical = none;
  tokens = none;
  provenance = 0;
  embedding = none;
  processed_at = some 1;
  created_by = 1;
  scopes = 1 ∷ [];
}

abbrev claim : FactClaim
claim = record {
  id = 3;
  content_id = 50;
  valid_from = none;
  valid_to = none;
  recorded_to = none;
  attributes = [];
  perspective_key = codes "world";
  source_chunk_id = some 2;
  promoted_from = none;
  created_by = 1;
  scopes = 1 ∷ [];
}

abbrev shelf : Store
shelf = record {
  next_id = 4;
  documents = note 0 authored ∷ note 1 web_cache ∷ [];
  chunks = span ∷ [];
  claims = claim ∷ [];
  contents = record { id = 50; subject_id = 60; object_id = some 61 } ∷ [];
  entities = [];
  artifacts = [];
  artifact_contents = [];
}

abbrev promoter : Promoter
promoter = record { target = 9 ∷ []; user_id = 1 }

abbrev done : {A : Type 0} → A → Attempt A → A
done d (gave a) = a
done d (refused e) = d

abbrev moved : List Promotion × Store
moved = done ([], shelf) (transfer promoter 10 11 (0 ∷ 0 ∷ []) true shelf)

promoted : moved.0 ≡ record { source = 0; destination = 4; outcome = created } ∷ []
unfolding transfer share
promoted = refl

moves : transfer promoter 10 11 (0 ∷ 0 ∷ []) true shelf ≡ gave (moved.0, moved.1)
unfolding transfer share
moves = refl

shelf-IsTable : IsTable shelf.next_id shelf.documents
shelf-IsTable = (omega arith, refl, (omega arith, refl, tt))

transfer_lem_example :
    MovedAll (9 ∷ []) 10 11 shelf.documents moved.1.documents (distinct [] (0 ∷ 0 ∷ [])) moved.0
    × All (IsCopied shelf moved.1) moved.0
    × Unclaimed (distinct [] (0 ∷ 0 ∷ [])) moved.1.chunks moved.1.claims
transfer_lem_example =
    transfer_lem promoter 10 11 (0 ∷ 0 ∷ []) shelf moved.0 moved.1 shelf-IsTable (refl, (refl, tt))
      (omega arith, tt) moves

transfer_again_example :
    transfer promoter 20 21 (0 ∷ 0 ∷ []) true moved.1 ≡ gave (map unchanged moved.0, moved.1)
transfer_again_example =
    transfer_again promoter 10 20 11 21 (0 ∷ 0 ∷ []) shelf moved.0 moved.1 shelf-IsTable
      (refl, (refl, tt)) (omega arith) (omega arith) moves

-- A cached page is refused, and an unknown document is named.
refuses_page : carry promoter 10 11 (0 ∷ 1 ∷ []) shelf ≡ refused (quarantined (1 ∷ []))
unfolding carry
refuses_page = refl

refuses_unknown : carry promoter 10 11 (0 ∷ 3 ∷ []) shelf ≡ refused (not_visible 3)
unfolding carry
refuses_unknown = refl

abbrev carried : List Promotion × Store
carried = done ([], shelf) (carry promoter 10 11 (0 ∷ []) shelf)

carries : carry promoter 10 11 (0 ∷ []) shelf ≡ gave (carried.0, carried.1)
unfolding carry share
carries = refl

carry-Confined_example : Confined (9 ∷ []) shelf.documents carried.1.documents
carry-Confined_example =
    carry-Confined promoter 10 11 (0 ∷ []) shelf carried.0 carried.1 shelf-IsTable
      (refl, (refl, tt)) carries

abbrev work : Work
work = work_of promoter 10 shelf (note 0 authored)

abbrev settled : Promotion × Store
settled =
    done (record { source = 0; destination = 0; outcome = current }, shelf)
      (settle_work promoter 11 work shelf)

settles : settle_work promoter 11 work shelf ≡ gave (settled.0, settled.1)
unfolding create share
settles = refl

created-ne-current : created ≢ current
created-ne-current e = cc

wrote : settled.0.outcome ≢ current
unfolding create share
wrote = created-ne-current

settle_work-Covers_example : All (Covers (9 ∷ []) settled.1.claims) work.facts
settle_work-Covers_example =
    settle_work-Covers promoter 11 work shelf settled.0 settled.1 wrote settles

-- The original that was moved is shared into a second place: its copy has ended when it is made.
abbrev elsewhere : Promoter
elsewhere = record { target = 8 ∷ []; user_id = 1 }

abbrev second : List Promotion × Store
second = done ([], shelf) (carry elsewhere 20 21 (0 ∷ []) moved.1)

ended_copy :
    map (λ (d : Document). active_at d 21) second.1.documents ≡ false ∷ true ∷ false ∷ true ∷ []
unfolding transfer carry share
ended_copy = refl
