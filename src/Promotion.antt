-- ===== src/Promotion.antt =====
-- src/aizk/store/models/tables/document.py, chunk.py, fact.py, entity.py and artifact.py: the rows that
-- sharing a document reads and writes, as far as row security lets the caller's session both read and write them.
-- Columns that are only copied (vectors, JSON values, markdown) are given by numbers. Identifiers come
-- from a counter that the store keeps, for uuid7.
pub mod Rows
pub mod Share
pub mod Ground
pub mod Carry
pub mod Standing
pub mod Quarantine
pub mod Covers
pub mod Move
use aizk.Base.{
  ℕ, Bool, true, false, ◌&&◌, ◌||◌, Option, none, some, List, [], ◌∷◌, Text, text_eq, ltb, not,
  ◌==◌, if◌then◌else◌,
}

-- `Document.Origin`
pub data Origin : Type 0 where
  authored : Origin
  web_cache : Origin

abbrev pub is_web_cache : Origin → Bool
is_web_cache authored = false
is_web_cache web_cache = true

pub record Document : Type 0 where
  pub id : ℕ
  pub title : Option Text
  pub subject_type : Option Text
  pub source_uri : Option Text
  pub observed_at : Option ℕ
  pub expires_at : Option ℕ
  pub artifact_id : Option ℕ
  pub artifact_content_id : Option ℕ
  pub content_hash : ℕ
  pub origin : Origin
  pub created_by : ℕ
  pub scopes : List ℕ
  pub promoted_from : Option ℕ

pub record Chunk : Type 0 where
  pub id : ℕ
  pub document_id : ℕ
  pub ord : ℕ
  pub text : Text
  pub lexical : Option Text
  pub tokens : Option ℕ
  pub provenance : ℕ
  pub embedding : Option ℕ
  pub processed_at : Option ℕ
  pub created_by : ℕ
  pub scopes : List ℕ

-- A row of `fact_claim`; an attribute is a key with its value.
pub record FactClaim : Type 0 where
  pub id : ℕ
  pub content_id : ℕ
  pub valid_from : Option ℕ
  pub valid_to : Option ℕ
  pub recorded_to : Option ℕ
  pub attributes : List (Text × ℕ)
  pub perspective_key : Text
  pub source_chunk_id : Option ℕ
  pub promoted_from : Option ℕ
  pub created_by : ℕ
  pub scopes : List ℕ

-- What a live fact takes of its immutable content.
pub record FactContent : Type 0 where
  pub id : ℕ
  pub subject_id : ℕ
  pub object_id : Option ℕ

pub record EntityClaim : Type 0 where
  pub content_id : ℕ
  pub created_by : ℕ
  pub scopes : List ℕ

-- `copied` stands for the columns that a shared artifact takes over unchanged.
pub record Artifact : Type 0 where
  pub id : ℕ
  pub source_uri : Option Text
  pub promoted_from : Option ℕ
  pub created_by : ℕ
  pub scopes : List ℕ
  pub copied : ℕ

pub record ArtifactContent : Type 0 where
  pub id : ℕ
  pub artifact_id : ℕ
  pub blob_id : ℕ
  pub revision : ℕ
  pub created_by : ℕ
  pub scopes : List ℕ
  pub copied : ℕ

pub record Store : Type 0 where
  pub next_id : ℕ
  pub documents : List Document
  pub chunks : List Chunk
  pub claims : List FactClaim
  pub contents : List FactContent
  pub entities : List EntityClaim
  pub artifacts : List Artifact
  pub artifact_contents : List ArtifactContent

-- `x is None or x > moment`
abbrev pub ends_after : Option ℕ → ℕ → Bool
ends_after none moment = true
ends_after (some e) moment = ltb moment e

-- `x is None or x <= moment`
abbrev pub begun_by : Option ℕ → ℕ → Bool
begun_by none moment = true
begun_by (some b) moment = not (ltb moment b)

abbrev pub is_open : Option ℕ → Bool
is_open none = true
is_open (some t) = false

-- `Document.active_at`, and `is_active` where the moment is the database's.
abbrev pub active_at : Document → ℕ → Bool
active_at d moment = ends_after d.expires_at moment

abbrev pub is_current : FactClaim → ℕ → Bool
is_current c now = is_open c.recorded_to && (begun_by c.valid_from now && ends_after c.valid_to now)

-- `id in ids`, where the column may be null.
abbrev pub among : Option ℕ → List ℕ → Bool
among none ids = false
among (some n) [] = false
among (some n) (i ∷ ids) = (i == n) || among (some n) ids

-- Two optional texts that are present and equal, as a unique index compares them.
abbrev pub both : Option Text → Option Text → Bool
both none b = false
both (some a) none = false
both (some a) (some b) = text_eq a b

abbrev pub same : Option ℕ → Option ℕ → Bool
same none b = false
same (some a) none = false
same (some a) (some b) = a == b

-- The unique indexes of `document`: a title of one subject type, a locator, and a copy of one source,
-- each once in a scope set.
abbrev pub collides : Document → Document → Bool
collides d e =
    text_eq d.scopes e.scopes
    && ((both d.subject_type e.subject_type && both d.title e.title)
        || (both d.source_uri e.source_uri || same d.promoted_from e.promoted_from))
