-- ===== src/Promotion/Share.antt =====
-- src/aizk/store/models/tables/artifact.py, `Artifact.share`: the artifact and the revision of the
-- destination that stand for a source's original. The advisory lock that keeps a peer out is left
-- out: the model is one transaction.
use aizk.Base.{
  ℕ, suc, ◌+◌, Bool, ◌&&◌, ◌||◌, Option, none, some, List, [], ◌∷◌, text_eq, opt_eq, ◌==◌, max,
  find_by, if◌then◌else◌,
}
use aizk.Promotion.{Document, Artifact, ArtifactContent, Store, both}

-- What stops a share; `conflict` is a unique index of the database.
pub data Error : Type 0 where
  not_visible : ℕ → Error
  quarantined : List ℕ → Error
  conflict : Error

-- A call that raises refuses.
pub data Attempt (X : Type 0) : Type 0 where
  refused : Error → Attempt X
  gave : X → Attempt X

infixl 5 ◌>>=◌
abbrev pub ◌>>=◌ : {X Y : Type 0} → Attempt X → (X → Attempt Y) → Attempt Y
refused why >>= next = refused why
gave x >>= next = next x

-- The destination and the caller of one batch.
pub record Promoter : Type 0 where
  pub target : List ℕ
  pub user_id : ℕ

abbrev pub shares_artifact : List ℕ → Artifact → Artifact → Bool
shares_artifact target source a =
    (opt_eq a.promoted_from (some source.id) || both source.source_uri a.source_uri)
    && text_eq a.scopes target

-- The artifact of the target that stands for the source's, and the store after it was made.
abbrev pub standing_artifact : Promoter → Artifact → Option Artifact → Store → ℕ × Store
standing_artifact p source (some a) s = (a.id, s)
standing_artifact p source none s = (
  s.next_id,
  record s {
    next_id = suc s.next_id;
    artifacts =
        record {
          id = s.next_id;
          source_uri = source.source_uri;
          promoted_from = some source.id;
          created_by = p.user_id;
          scopes = p.target;
          copied = source.copied;
        }
        ∷ s.artifacts;
  },
)

-- `max(revision)`, 0 where there is none.
abbrev pub last_revision : ℕ → List ArtifactContent → ℕ
last_revision artifact_id [] = 0
last_revision artifact_id (c ∷ cs) =
    let rest = last_revision artifact_id cs in
    if c.artifact_id == artifact_id then max c.revision rest else rest

abbrev pub holds_blob : ℕ → ArtifactContent → ArtifactContent → Bool
holds_blob artifact_id content c = (c.artifact_id == artifact_id) && (c.blob_id == content.blob_id)

abbrev pub standing_content :
    Promoter → ArtifactContent → ℕ → Option ArtifactContent → Store → ℕ × Store
standing_content p content artifact_id (some c) s = (c.id, s)
standing_content p content artifact_id none s = (
  s.next_id,
  record s {
    next_id = suc s.next_id;
    artifact_contents =
        record {
          id = s.next_id;
          artifact_id = artifact_id;
          blob_id = content.blob_id;
          revision = last_revision artifact_id s.artifact_contents + 1;
          created_by = p.user_id;
          scopes = p.target;
          copied = content.copied;
        }
        ∷ s.artifact_contents;
  },
)

abbrev pub Shared : Type 0
Shared = (Option ℕ × Option ℕ) × Store

abbrev pub shared : Promoter → Artifact → ArtifactContent → Store → Shared
shared p artifact content s =
    let (a, s1) =
      standing_artifact p artifact (find_by (shares_artifact p.target artifact) s.artifacts) s in
    let (c, s2) =
      standing_content p content a (find_by (holds_blob a content) s1.artifact_contents) s1 in
    ((some a, some c), s2)

-- The artifact and its content, joined so that a forged pair is not found.
abbrev pub paired :
    Promoter → Document → Option Artifact → Option ArtifactContent → Store → Attempt Shared
paired p source (some a) (some c) s = gave (shared p a c s)
paired p source (some a) none s = refused (not_visible source.id)
paired p source none c s = refused (not_visible source.id)

abbrev pub share_of : Promoter → Document → Option ℕ → Option ℕ → Store → Attempt Shared
share_of p source none c s = gave ((none, none), s)
share_of p source (some a) none s = gave ((none, none), s)
share_of p source (some a) (some c) s =
    paired p source (find_by (λ (x : Artifact). x.id == a) s.artifacts)
      (find_by (λ (x : ArtifactContent). (x.id == c) && (x.artifact_id == a)) s.artifact_contents) s

-- `Artifact.share`
unfoldable pub share : Promoter → Document → Store → Attempt Shared
share p source s = share_of p source source.artifact_id source.artifact_content_id s
