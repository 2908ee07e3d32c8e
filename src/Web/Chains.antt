-- ===== src/Web/Chains.antt =====
-- src/aizk/web/service.py: the chains of providers, followed as the steps of a call.
use aizk.Base.{
  ℕ, ◌+◌, ◌-◌, inl, inr, ◌≡◌, ◌≢◌, refl, Bool, true, false, Bool-cases, Option, none, some, List,
  [], ◌∷◌, ◌++◌, Text, length, In, In-append_left, arith,
}
use aizk.Web.{
  Provider, WebResult, WebPage, WebFinding, Event, charged_search, searched, charged_fetch, fetched,
  cached, accounted_search, accounted_fetch, World, Verdict, clean, rejected, unavailable,
}
use aizk.Web.Egress.{
  Egress, Searched, PageSettings, did, settled, sending, search, fetching, opened, fetch, read,
  scanned, kept, keep,
}
use aizk.Web.Trace.{Trace, begin, search_call, fetch_call, store_page}

length-named : (ps : List Text) (p : Text) → length (ps ++ p ∷ []) ≡ length ps + 1
length-named [] p = refl
length-named (q ∷ ps) p = omega (arith, length-named ps p)

module _ (w : World) (query : Text) (origin : Egress) where
  settled-Trace :
      (o : Option (List WebResult)) (p : Provider) (s : Egress) (rest : Searched × Egress)
      → Trace w query origin false s
      → Trace w query origin false rest.1
      → Trace w query origin false (settled o p s rest).1
  settled-Trace none p s rest h k = k
  settled-Trace (some []) p s rest h k = k
  settled-Trace (some (r ∷ rs)) p s rest h k = h

  pub search-Trace :
      (n : ℕ) (ps : List Provider) (s : Egress)
      → n ≡ length s.providers
      → Trace w query origin false s
      → Trace w query origin false (search w query n ps s).1
  unfolding search
  search-Trace n [] s e h = h
  search-Trace n (p ∷ ps) s e h = elim (Bool-cases (w.admits s.events p.spend)) [
    | inl ok ↦
        let next = search_call p n h ok e in
        let rest =
          search-Trace (n + 1) ps (did (sending w query p s) (accounted_search p n ∷ []))
            (omega (arith, e, length-named s.providers p.name)) next in
        rw ok (
          settled-Trace (w.search (sending w query p s).events p query) p
            (did (sending w query p s) (accounted_search p n ∷ []))
            (search w query (n + 1) ps (did (sending w query p s) (accounted_search p n ∷ []))) next
            rest)
    | inr ko ↦ rw ko h
  ]

  opened-Trace :
      {b : Bool} (o : Option WebPage) (s : Egress) (rest : Option WebPage × Egress)
      → Trace w query origin b s
      → Trace w query origin b rest.1
      → Trace w query origin b (opened o s rest).1
  opened-Trace none s rest h k = k
  opened-Trace (some page) s rest h k = h

  fetch-Trace :
      {b : Bool} (url : Text) (ps : List Provider) (s : Egress)
      → Trace w query origin b s
      → Trace w query origin b (fetch w url ps s).1
  unfolding fetch
  fetch-Trace url [] s h = h
  fetch-Trace url (p ∷ ps) s h = elim (Bool-cases (w.admits s.events 1)) [
    | inl ok ↦
        let o = length (s.providers ++ p.name ∷ []) - 1 in
        let next = fetch_call p o url h ok (omega (arith, length-named s.providers p.name)) in
        rw ok (
          opened-Trace (w.fetch (fetching w url p s).events p url)
            (did (fetching w url p s) (accounted_fetch p o ∷ []))
            (fetch w url ps (did (fetching w url p s) (accounted_fetch p o ∷ []))) next
            (fetch-Trace url ps (did (fetching w url p s) (accounted_fetch p o ∷ [])) next))
    | inr ko ↦ rw ko h
  ]

  module _ (cfg : PageSettings) where
    pub read-Trace :
        {b : Bool} (results : List WebResult) (searcher : Provider) (ps : List Provider)
        (s : Egress)
        → Trace w query origin b s
        → Trace w query origin b (read w cfg results searcher ps s).1
    unfolding read
    read-Trace [] searcher ps s h = h
    read-Trace (r ∷ rs) searcher ps s h =
        read-Trace rs searcher ps (fetch w r.url ps s).1 (fetch-Trace r.url ps s h)

    kept_by :
        (v : Verdict) (f : WebFinding) (days : ℕ) (s : Egress) {b : Bool}
        → Trace w query origin b s
        → (c : Bool) × Trace w query origin c (scanned w cfg v f days s).1
    kept_by rejected f days s {b} h = (b, h)
    kept_by unavailable f days s {b} h = (b, h)
    kept_by clean f days s {b} h = elim (Bool-cases (w.takes f.url)) [
      | inl e ↦ rw e (true, store_page f.url days h)
      | inr e ↦ rw e (b, h)
    ]

    kept-Trace :
        (p : Bool) (f : WebFinding) (days : ℕ) (s : Egress) {b : Bool}
        → Trace w query origin b s
        → (c : Bool) × Trace w query origin c (kept w cfg p f days s).1
    kept-Trace true f days s h = kept_by (w.scan f.text) f days s h
    kept-Trace false f days s {b} h = (b, h)

    pub keep-Trace :
        (fs : List WebFinding) (days : ℕ) (s : Egress) {b : Bool}
        → Trace w query origin b s
        → (c : Bool) × Trace w query origin c (keep w cfg fs days s).1
    unfolding keep
    keep-Trace [] days s {b} h = (b, h)
    keep-Trace (f ∷ fs) days s {b} h =
        let (c, k) = kept-Trace f.persistable f days s h in
        keep-Trace fs days (kept w cfg f.persistable f days s).1 k

  next_not_nil : (ps : List Text) (p : Text) → (ps ++ p ∷ []) ≢ []
  next_not_nil [] p e = cc
  next_not_nil (q ∷ ps) p e = cc

  -- Before any page is stored, a call that reached nobody did nothing.
  pub Trace-quiet :
      {b : Bool} {s : Egress}
      → b ≡ false
      → s.providers ≡ []
      → Trace w query origin b s
      → s.events ≡ origin.events
  Trace-quiet e h begin = refl
  Trace-quiet e h (search_call {b} {s} p o t admitted counted) =
      elim (next_not_nil s.providers p.name h) [ ]
  Trace-quiet e h (fetch_call {b} {s} p o url t admitted counted) =
      elim (next_not_nil s.providers p.name h) [ ]
  Trace-quiet e h (store_page url days t) = cc

  pub Trace-In :
      (a : Event) {b : Bool} {s : Egress}
      → In a origin.events
      → Trace w query origin b s
      → In a s.events
  Trace-In a m begin = m
  Trace-In a m (search_call {b} {s} p o t admitted counted) =
      In-append_left a (did s (charged_search p p.spend ∷ searched p query ∷ [])).events
        (accounted_search p o ∷ [])
        (In-append_left a s.events (charged_search p p.spend ∷ searched p query ∷ [])
          (Trace-In a m t))
  Trace-In a m (fetch_call {b} {s} p o url t admitted counted) =
      In-append_left a (did s (charged_fetch p 1 ∷ fetched p url ∷ [])).events
        (accounted_fetch p o ∷ [])
        (In-append_left a s.events (charged_fetch p 1 ∷ fetched p url ∷ []) (Trace-In a m t))
  Trace-In a m (store_page {b} {s} url days t) =
      In-append_left a s.events (cached url days ∷ []) (Trace-In a m t)
