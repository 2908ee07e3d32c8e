-- ===== src/Web/Trace.antt =====
-- src/aizk/web/service.py: one call's egress as a sequence of steps, and what each step leaves true.
use aizk.Base.{
  append_assoc, append_nil, ℕ, zero, suc, ◌≡◌, refl, ap, sym, ◌∙◌, subst, Bool, true, false, List,
  [], ◌∷◌, ◌++◌, Text, length, length-append, All, All-append, arith,
}
use aizk.Web.{
  Provider, Event, charged_search, charged_fetch, searched, fetched, accounted_search,
  accounted_fetch, cached, World,
}
use aizk.Web.Egress.{Egress, did, sending, fetching}

-- The states that a call can go through once its query was sanctioned; the index says whether a page
-- was stored.
pub data Trace (w : World) (query : Text) (origin : Egress) : Bool → Egress → Type 0 where
  begin : Trace w query origin false origin
  search_call :
      {b : Bool} {s : Egress} (p : Provider) (o : ℕ)
      → Trace w query origin b s
      → w.admits s.events p.spend ≡ true
      → o ≡ length s.providers
      → Trace w query origin b (did (sending w query p s) (accounted_search p o ∷ []))
  fetch_call :
      {b : Bool} {s : Egress} (p : Provider) (o : ℕ) (url : Text)
      → Trace w query origin b s
      → w.admits s.events 1 ≡ true
      → o ≡ length s.providers
      → Trace w query origin b (did (fetching w url p s) (accounted_fetch p o ∷ []))
  store_page :
      {b : Bool} {s : Egress} (url : Text) (days : ℕ)
      → Trace w query origin b s
      → Trace w query origin true (did s (cached url days ∷ []))

-- The names of the providers that were reached, and the ordinals of the rows of the ledger.
abbrev pub contact : Event → List Text
contact (searched p query) = p.name ∷ []
contact (fetched p url) = p.name ∷ []
contact _ = []

abbrev pub contacts : List Event → List Text
contacts [] = []
contacts (e ∷ es) = contact e ++ contacts es

abbrev pub row : Event → List ℕ
row (accounted_search p o) = o ∷ []
row (accounted_fetch p o) = o ∷ []
row _ = []

abbrev pub ordinals : List Event → List ℕ
ordinals [] = []
ordinals (e ∷ es) = row e ++ ordinals es

abbrev pub upto : ℕ → List ℕ
upto zero = []
upto (suc n) = upto n ++ n ∷ []

abbrev pub Carries : Text → Event → Type 0
Carries query (searched p t) = t ≡ query
Carries query _ = Unit

-- A request follows the charge that the allowance admitted.
abbrev pub PaidEvent : World → List Event → Event → Type 0
PaidEvent w before (searched p t) =
    (es : List Event) × (before ≡ es ++ charged_search p p.spend ∷ [])
    × (w.admits es p.spend ≡ true)
PaidEvent w before (fetched p t) =
    (es : List Event) × (before ≡ es ++ charged_fetch p 1 ∷ []) × (w.admits es 1 ≡ true)
PaidEvent w before _ = Unit

abbrev pub Paid : World → List Event → List Event → Type 0
Paid w before [] = Unit
Paid w before (e ∷ es) = PaidEvent w before e × Paid w (before ++ e ∷ []) es

contacts-append : (xs ys : List Event) → contacts (xs ++ ys) ≡ contacts xs ++ contacts ys
contacts-append [] ys = refl
contacts-append (x ∷ xs) ys =
    ap (λ t. contact x ++ t) (contacts-append xs ys)
    ∙ sym (append_assoc (contact x) (contacts xs) (contacts ys))

ordinals-append : (xs ys : List Event) → ordinals (xs ++ ys) ≡ ordinals xs ++ ordinals ys
ordinals-append [] ys = refl
ordinals-append (x ∷ xs) ys =
    ap (λ t. row x ++ t) (ordinals-append xs ys)
    ∙ sym (append_assoc (row x) (ordinals xs) (ordinals ys))

Paid-append :
    (w : World) (before xs ys : List Event)
    → Paid w before xs
    → Paid w (before ++ xs) ys
    → Paid w before (xs ++ ys)
Paid-append w before [] ys hx hy = subst (λ (t : List Event). Paid w t ys) (append_nil before) hy
Paid-append w before (x ∷ xs) ys hx hy = (
  hx.0,
  Paid-append w (before ++ x ∷ []) xs ys hx.1
      (subst (λ (t : List Event). Paid w t ys) (sym (append_assoc before (x ∷ []) xs)) hy),
)

module _ (w : World) (query : Text) where
  -- What every state of a call satisfies.
  pub record IsSound (s : Egress) : Type 0 where
    pub carried : All (Carries query) s.events
    pub paid : Paid w [] s.events
    pub contacted : contacts s.events ≡ s.providers
    pub ledger : ordinals s.events ≡ upto (length s.providers)

  ordinals-next :
      (es : List Event) (more : List Event) (n : ℕ)
      → ordinals es ≡ upto n
      → ordinals more ≡ n ∷ []
      → ordinals (es ++ more) ≡ upto (suc n)
  ordinals-next es more n h e =
      ordinals-append es more ∙ ap (λ t. t ++ ordinals more) h ∙ ap (λ t. upto n ++ t) e

  contacts-next :
      (es : List Event) (more : List Event) (ps new : List Text)
      → contacts es ≡ ps
      → contacts more ≡ new
      → contacts (es ++ more) ≡ ps ++ new
  contacts-next es more ps new h e =
      contacts-append es more ∙ ap (λ t. t ++ contacts more) h ∙ ap (λ t. ps ++ t) e

  length-next : (ps : List Text) (p : Text) → length (ps ++ p ∷ []) ≡ suc (length ps)
  length-next ps p = length-append ps (p ∷ []) ∙ omega arith

  -- One call: its charge, its request and its row.
  call-IsSound :
      (s : Egress) (p : Provider) (c e a : Event)
      → IsSound s
      → Carries query c × Carries query e × Carries query a
      → Paid w s.events (c ∷ e ∷ a ∷ [])
      → contacts (c ∷ e ∷ a ∷ []) ≡ p.name ∷ []
      → ordinals (c ∷ e ∷ a ∷ []) ≡ length s.providers ∷ []
      → IsSound (record {
        events = (s.events ++ c ∷ e ∷ []) ++ a ∷ [];
        providers = s.providers ++ p.name ∷ [];
      })
  call-IsSound s p c e a h carries pays names rows =
      let joined = append_assoc s.events (c ∷ e ∷ []) (a ∷ []) in
      record {
        carried =
            subst (λ (t : List Event). All (Carries query) t) (sym joined)
              (All-append (Carries query) s.events (c ∷ e ∷ a ∷ []) h.carried
                (carries.0, (carries.1, (carries.2, tt))));
        paid =
            subst (λ (t : List Event). Paid w [] t) (sym joined)
              (Paid-append w [] s.events (c ∷ e ∷ a ∷ []) h.paid pays);
        contacted =
            ap contacts joined
            ∙ contacts-next s.events (c ∷ e ∷ a ∷ []) s.providers (p.name ∷ []) h.contacted names;
        ledger =
            ap ordinals joined
            ∙ ordinals-next s.events (c ∷ e ∷ a ∷ []) (length s.providers) h.ledger rows
            ∙ ap upto (sym (length-next s.providers p.name));
      }

  pub Trace-IsSound :
      {origin s : Egress} {b : Bool} → IsSound origin → Trace w query origin b s → IsSound s
  Trace-IsSound h begin = h
  Trace-IsSound h (search_call {b} {s} p o t admitted counted) =
      call-IsSound s p (charged_search p p.spend) (searched p query) (accounted_search p o)
        (Trace-IsSound h t) (tt, refl, tt) (tt, ((s.events, refl, admitted), (tt, tt))) refl
        (ap (λ n. n ∷ []) counted)
  Trace-IsSound h (fetch_call {b} {s} p o url t admitted counted) =
      call-IsSound s p (charged_fetch p 1) (fetched p url) (accounted_fetch p o) (Trace-IsSound h t)
        (tt, tt, tt) (tt, ((s.events, refl, admitted), (tt, tt))) refl (ap (λ n. n ∷ []) counted)
  Trace-IsSound h (store_page {b} {s} url days t) =
      let k = Trace-IsSound h t in
      record {
        carried = All-append (Carries query) s.events (cached url days ∷ []) k.carried (tt, tt);
        paid = Paid-append w [] s.events (cached url days ∷ []) k.paid (tt, tt);
        contacted =
            contacts-next s.events (cached url days ∷ []) s.providers [] k.contacted refl
            ∙ append_nil s.providers;
        ledger =
            ordinals-append s.events (cached url days ∷ [])
            ∙ append_nil (ordinals s.events)
            ∙ k.ledger;
      }
