-- ===== src/Web.antt =====
-- src/aizk/web: the half of `find` that may reach the public web. A text is its code points. What
-- the outside world answers to one call is in `World`: the allowance and the providers answer by
-- everything that happened before.
pub mod Router
pub mod Sanitizer
pub mod Egress
pub mod Service
pub mod Trace
pub mod Cleared
pub mod Chains
pub mod Endings
pub mod Receipts
pub mod Cache
pub mod Probe
pub mod Rehearsal
use aizk.Base.{
  ℕ, ◌+◌, Bool, true, false, ◌||◌, Option, none, some, List, [], ◌∷◌, ◌++◌, Text, codes, leb,
}

-- `WebMode`
pub data WebMode : Type 0 where
  auto off force : WebMode

pub data SearchLane : Type 0 where
  keyword semantic no_lane : SearchLane

pub data Freshness : Type 0 where
  stable dated volatile : Freshness

pub data Refusal : Type 0 where
  memory_answered private_subject web_off not_permitted planner_unavailable planner_declined
        sanitizer_refused quota_exhausted provider_failure :
      Refusal

-- `Refusal.planned`
abbrev pub planned : Refusal → Bool
planned memory_answered = false
planned private_subject = false
planned web_off = false
planned not_permitted = false
planned _ = true

-- `WebQueryPlan`, less the reason.
pub record WebQueryPlan : Type 0 where
  pub needs_web : Bool
  pub search_query : Option Text
  pub lane : SearchLane
  pub freshness : Freshness

pub record SanctionedPlan : Type 0 where
  pub query : Text
  pub lane : SearchLane
  pub freshness : Freshness

-- A searcher or a fetcher: its name and the units of one call.
pub record Provider : Type 0 where
  pub name : Text
  pub spend : ℕ

-- `WebResult`
pub record WebResult : Type 0 where
  pub url : Text
  pub title : Option Text
  pub snippet : Option Text

-- `'\n'.join` of the parts that are there and not empty, else the link.
abbrev pub part : Option Text → List Text
part none = []
part (some []) = []
part (some (c ∷ cs)) = (c ∷ cs) ∷ []

abbrev pub joined : Text → List Text → Text
joined url [] = url
joined url (a ∷ []) = a
joined url (a ∷ b ∷ ts) = a ++ codes "\n" ++ b

abbrev pub preview : WebResult → Text
preview r = joined r.url (part r.title ++ part r.snippet)

pub record WebPage : Type 0 where
  pub url : Text
  pub markdown : Text
  pub provider : Text
  pub title : Option Text
  pub persistable : Bool

pub record WebFinding : Type 0 where
  pub url : Text
  pub text : Text
  pub provider : Text
  pub title : Option Text
  pub persistable : Bool

-- What the call does outside of itself, in order.
pub data Event : Type 0 where
  -- the question went to the extraction endpoint
  asked : Event
  -- units were charged for a search or for a fetch
  charged_search : Provider → ℕ → Event
  charged_fetch : Provider → ℕ → Event
  -- a query or a link went to a provider
  searched : Provider → Text → Event
  fetched : Provider → Text → Event
  -- a ledger row was written, under an ordinal
  accounted_search : Provider → ℕ → Event
  accounted_fetch : Provider → ℕ → Event
  -- a page was written to the store, to expire so many days later
  cached : Text → ℕ → Event

pub data Verdict : Type 0 where
  clean rejected unavailable : Verdict

-- Everything outside, as one call finds it: whether the allowance, when its counter answers, admits
-- the units, what a provider answers (`none` when it is unavailable), what the planner and the
-- detector answer, what the scanner says, and whether the store takes a page. An error that is raised
-- instead of an answer ends the call (`Cut` of Web/Service).
pub record World : Type 0 where
  pub admits : List Event → ℕ → Bool
  pub search : List Event → Provider → Text → Option (List WebResult)
  pub fetch : List Event → Provider → Text → Option WebPage
  pub ask : Option WebQueryPlan
  pub mentions : Text → Option (List Text)
  pub scan : Text → Verdict
  pub takes : Text → Bool

-- `WebOutcome`, before its receipt is put into words.
pub data WebOutcome : Type 0 where
  refused : Refusal → WebOutcome
  fruitless : Refusal → Text → SearchLane → List Text → WebOutcome
  sent : List WebFinding → Text → SearchLane → List Text → WebOutcome
