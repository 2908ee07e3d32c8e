-- ===== src/Web/Cache.antt =====
-- src/aizk/web/cache.py: what of a call's findings is answered with, and what is stored.
use aizk.Base.{
  append_assoc, append_nil, ℕ, ◌≡◌, refl, ap, sym, ◌∙◌, Bool, true, false, not, ◌&&◌, List, [], ◌∷◌,
  ◌++◌, map, filter_by, if◌then◌else◌,
}
use aizk.Web.{WebFinding, Event, cached, Verdict, clean, rejected, unavailable, World}
use aizk.Web.Egress.{Egress, PageSettings, store, scanned, kept, keep}

abbrev pub is_rejected : Verdict → Bool
is_rejected rejected = true
is_rejected _ = false

abbrev pub is_clean : Verdict → Bool
is_clean clean = true
is_clean _ = false

module _ (w : World) where
  -- Which findings are part of the answer, and which are written.
  abbrev pub survives : WebFinding → Bool
  survives f = not (f.persistable && is_rejected (w.scan f.text))

  abbrev pub storable : WebFinding → Bool
  storable f = f.persistable && (is_clean (w.scan f.text) && w.takes f.url)

  abbrev pub stored : ℕ → WebFinding → Event
  stored days f = cached f.url days

  -- One finding's part of both.
  abbrev One : PageSettings → Bool → WebFinding → ℕ → Egress → Type 0
  One cfg p f days s =
      let v = w.scan f.text in
      let x = kept w cfg p f days s in
      (x.0 ≡ (if not (p && is_rejected v) then f ∷ [] else []))
      × (x.1.events
          ≡ s.events ++ (if p && (is_clean v && w.takes f.url) then stored days f ∷ [] else []))

  scanned-clean :
      (cfg : PageSettings) (f : WebFinding) (days : ℕ) (s : Egress) (b : Bool)
      → w.takes f.url ≡ b
      → (store w cfg f days s).events ≡ s.events ++ (if b then stored days f ∷ [] else [])
  scanned-clean cfg f days s true e = rw e refl
  scanned-clean cfg f days s false e = rw e (sym (append_nil s.events))

  kept-One :
      (cfg : PageSettings) (p : Bool) (f : WebFinding) (days : ℕ) (s : Egress) → One cfg p f days s
  kept-One cfg false f days s = (refl, sym (append_nil s.events))
  kept-One cfg true f days s =
      elim (w.scan f.text)
        as (λ v.
          ((scanned w cfg v f days s).0 ≡ (if not (true && is_rejected v) then f ∷ [] else []))
          × ((scanned w cfg v f days s).1.events
              ≡ s.events
                ++ (if true && (is_clean v && w.takes f.url) then stored days f ∷ [] else []))) [
                  | clean ↦ (refl, scanned-clean cfg f days s (w.takes f.url) refl)
                  | rejected ↦ (refl, sym (append_nil s.events))
                  | unavailable ↦ (refl, sym (append_nil s.events))
                ]

  map-if :
      (g : WebFinding → Event) (b : Bool) (f : WebFinding) (fs : List WebFinding)
      → (if b then g f ∷ [] else []) ++ map g fs ≡ map g (if b then f ∷ fs else fs)
  map-if g true f fs = refl
  map-if g false f fs = refl

  cons-if :
      (b : Bool) (f : WebFinding) (fs : List WebFinding)
      → (if b then f ∷ [] else []) ++ fs ≡ (if b then f ∷ fs else fs)
  cons-if true f fs = refl
  cons-if false f fs = refl

  -- `keep` answers with all findings but the licensed pages that the scanner rejects, in order, and
  -- it writes exactly the licensed pages that the scanner passes and the store takes, in order, each
  -- with the days of its freshness.
  pub keep_lem :
      (cfg : PageSettings) (fs : List WebFinding) (days : ℕ) (s : Egress)
      → ((keep w cfg fs days s).0 ≡ filter_by survives fs)
        × ((keep w cfg fs days s).1.events ≡ s.events ++ map (stored days) (filter_by storable fs))
  unfolding keep
  keep_lem cfg [] days s = (refl, sym (append_nil s.events))
  keep_lem cfg (f ∷ fs) days s =
      let here = kept w cfg f.persistable f days s in
      let (a, e) = kept-One cfg f.persistable f days s in
      let (b, k) = keep_lem cfg fs days here.1 in
      let extra = if storable f then stored days f ∷ [] else [] in
      (
        ap (λ t. t ++ (keep w cfg fs days here.1).0) a
            ∙ ap (λ t. (if survives f then f ∷ [] else []) ++ t) b
            ∙ cons-if (survives f) f (filter_by survives fs),
        k
            ∙ ap (λ t. t ++ map (stored days) (filter_by storable fs)) e
            ∙ append_assoc s.events extra (map (stored days) (filter_by storable fs))
            ∙ ap (λ t. s.events ++ t) (map-if (stored days) (storable f) f (filter_by storable fs)),
      )
