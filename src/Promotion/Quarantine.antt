-- ===== src/Promotion/Quarantine.antt =====
-- src/aizk/graph/promote.py: what a share leaves alone.
use aizk.Base.{ℕ, ◌≡◌, List}
use aizk.Promotion.{Store}
use aizk.Promotion.Share.{gave, Promoter}
use aizk.Promotion.Carry.{Promotion, carry}
use aizk.Promotion.Standing.Finding.{IsTable}
use aizk.Promotion.Standing.Rounds.{Apart}
use aizk.Promotion.Standing.Confined.{Confined}
use aizk.Promotion.Move.Moved.{carry-Batch}

-- In a table of documents none of which stands in the target and is named, a share that succeeds leaves
-- the documents outside the target as they were, in the same order, and adds no cached page to any
-- scope: the cached pages after it are among those before it.
pub carry-Confined :
    (p : Promoter) (began now : ℕ) (ids : List ℕ) (s : Store) (qs : List Promotion) (t : Store)
    → IsTable s.next_id s.documents
    → Apart p.target ids s.documents
    → carry p began now ids s ≡ gave (qs, t)
    → Confined p.target s.documents t.documents
carry-Confined p began now ids s qs t table apart e =
    (carry-Batch p began now ids s qs t table apart e).confined
