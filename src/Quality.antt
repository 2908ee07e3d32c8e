-- ===== src/Quality.antt =====
-- src/aizk/artifacts/quality.py: the gate that a new conversion of a document passes before it takes
-- the place of the live text. Ratios are fractions that are compared exactly, where the code divides in
-- floating point. Normalization and the stripping of markup and white space are parameters.
pub mod Gate
use aizk.Base.{
  ℕ, ◌+◌, ◌-◌, ◌*◌, max, Bool, true, false, not, ◌&&◌, ◌||◌, Option, none, some, List, [], ◌∷◌,
  Text, length, filter_by, first_of, text_eq, map, leb, ltb, ◌==◌, if◌then◌else◌,
}

-- What Python's libraries make of a Markdown text: its text without markup, and its lines, each
-- without superfluous white space.
pub record Normal : Type 0 where
  pub without_markup : Text → Text
  pub lines : Text → List Text
  pub casefold : Text → Text

pub record Ratio : Type 0 where
  pub part : ℕ
  pub whole : ℕ

pub record TextQuality : Type 0 where
  pub characters : ℕ
  pub repeated_line_ratio : Ratio
  pub cjk_characters : ℕ
  pub kana_ratio : Ratio

abbrev pub is_kana : ℕ → Bool
is_kana c = leb 0x3040 c && leb c 0x30ff

abbrev pub is_cjk : ℕ → Bool
is_cjk c = is_kana c || (leb 0x3400 c && leb c 0x9fff)

abbrev pub total_length : List Text → ℕ
total_length [] = 0
total_length (t ∷ ts) = length t + total_length ts

abbrev pub copies : Text → List Text → ℕ
copies t ts = length (filter_by (text_eq t) ts)

-- The characters of all copies of a line but the first, over the lines of `Counter`.
abbrev pub repeated_of : List Text → List Text → ℕ
repeated_of ts [] = 0
repeated_of ts (t ∷ distinct) = length t * (copies t ts - 1) + repeated_of ts distinct

abbrev pub long_lines : Normal → Text → List Text
long_lines n markdown = map n.casefold (filter_by (λ line. leb 12 (length line)) (n.lines markdown))

unfoldable pub measure : Normal → Text → TextQuality
measure n markdown =
    let text = n.without_markup markdown in
    let lines = long_lines n markdown in
    let cjk = length (filter_by is_cjk text) in
    record {
      characters = length text;
      repeated_line_ratio = record {
        part = repeated_of lines (first_of [] lines);
        whole = max 1 (total_length lines);
      };
      cjk_characters = cjk;
      kana_ratio = record { part = length (filter_by is_kana text); whole = max 1 cjk };
    }

pub data Rejection : Type 0 where
  removed_all inflated truncated duplicated_layout repeats_page lost_kana : Rejection

-- A ratio is more than so many hundredths.
abbrev pub above : Ratio → ℕ → Bool
above r hundredths = ltb (hundredths * r.whole) (100 * r.part)

-- One ratio is more than a tenth above another.
abbrev pub tenth_above : Ratio → Ratio → Bool
tenth_above r s = ltb (10 * (s.part * r.whole) + s.whole * r.whole) (10 * (r.part * s.whole))

abbrev pub length_ratio : TextQuality → TextQuality → Ratio
length_ratio current candidate = record { part = candidate.characters; whole = current.characters }

abbrev pub lost_script : TextQuality → TextQuality → Bool
lost_script current candidate =
    (leb 20 current.cjk_characters
      && leb (2 * current.kana_ratio.whole) (100 * current.kana_ratio.part))
    && (leb 20 candidate.cjk_characters
        && ltb (100 * (candidate.kana_ratio.part * current.kana_ratio.whole))
            (35 * (current.kana_ratio.part * candidate.kana_ratio.whole)))

unfoldable pub rejection : TextQuality → TextQuality → Option Rejection
rejection current candidate =
    let ratio = length_ratio current candidate in
    let more = tenth_above candidate.repeated_line_ratio current.repeated_line_ratio in
    if current.characters == 0
    then none
    else if candidate.characters == 0
    then some removed_all
    else if above ratio 250
    then some inflated
    else if ltb (100 * ratio.part) (35 * ratio.whole)
    then some truncated
    else if above ratio 150 && more
    then some duplicated_layout
    else if above candidate.repeated_line_ratio 45 && more
    then some repeats_page
    else if lost_script current candidate
    then some lost_kana
    else none

abbrev pub or_empty : Option Text → Text
or_empty none = []
or_empty (some t) = t

-- `assess`, whose answer is accepted when there is no reason against it.
unfoldable pub assess : Normal → Option Text → Text → Option Rejection
assess n current candidate = rejection (measure n (or_empty current)) (measure n candidate)
