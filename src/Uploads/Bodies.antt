-- ===== src/Uploads/Bodies.antt =====
-- src/aizk/artifacts/uploads.py, src/aizk/api/app.py: the body of a PUT, and when it reaches the
-- intake.
use aizk.Base.{
  append_assoc, append_nil, ℕ, ◌+◌, ◌≤◌, ◌<◌, ◌≡◌, inl, inr, refl, ap, ◌∙◌, subst, true, false,
  Bool-cases, Option, none, some, List, [], ◌∷◌, ◌++◌, Text, length, length-append, ltb, ltb→lt,
  ◌==◌, ==_iff, text_eq, if◌then◌else◌, arith,
}
use aizk.Identity.{IdentitySettings}
use aizk.Uploads.{
  UploadTicket, TicketRecord, Codec, UploadCapability, Claimed, unknown_or_used, expired,
  invalid_ticket, ticket_of, first_row, restored, redeemed, restore, claim, gathered, gather,
  wrong_size, wrong_hash, accepted, deliver, Received, not_claimed, over_budget, delivered, body_of,
  answered, receive_upload,
}
use aizk.Uploads.Rows.{of_capability}

abbrev pub concat : List (List ℕ) → List ℕ
concat [] = []
concat (c ∷ cs) = c ++ concat cs

gathered_lem :
    (received : List ℕ) (chunks : List (List ℕ)) (budget : ℕ)
    → length received ≤ budget
    → gathered received chunks budget ≡ (
        if ltb budget (length (received ++ concat chunks))
        then none
        else some (received ++ concat chunks))
gathered_lem received [] budget h =
    rw (append_nil received, not_over (length received) budget h) refl
  where
    not_over : (n m : ℕ) → n ≤ m → ltb m n ≡ false
    not_over n m h = ground arith
gathered_lem received (chunk ∷ chunks) budget h =
    elim (Bool-cases (ltb budget (length received + length chunk))) [
      | inl over ↦ rw (over, too_long over) refl
      | inr fits ↦ rw fits (
          gathered_lem (received ++ chunk) chunks budget (
            omega (
              arith,
              length-append received chunk,
              not_lt budget (length received + length chunk) fits,
            ))
          ∙ ap (λ t. if ltb budget (length t) then none else some t)
              (append_assoc received chunk (concat chunks)))
    ]
  where
    not_lt : (m n : ℕ) → ltb m n ≡ false → n ≤ m
    not_lt m n h = ground arith

    longer : (m n k : ℕ) → ltb m n ≡ true → n ≤ k → ltb m k ≡ true
    longer m n k h l = ground arith

    too_long :
        ltb budget (length received + length chunk) ≡ true
        → ltb budget (length (received ++ (chunk ++ concat chunks))) ≡ true
    too_long over =
        longer budget (length received + length chunk)
          (length (received ++ (chunk ++ concat chunks))) over
          (omega (
            arith,
            length-append received (chunk ++ concat chunks),
            length-append chunk (concat chunks),
          ))

-- `gather` gives back the whole body when it is within the budget and refuses it otherwise, however
-- the body is cut into chunks.
pub gather_lem :
    (chunks : List (List ℕ)) (budget : ℕ)
    → gather chunks budget
      ≡ (if ltb budget (length (concat chunks)) then none else some (concat chunks))
unfolding gather
gather_lem chunks budget = gathered_lem [] chunks budget (omega arith)

module _ (codec : Codec) (sha256 : List ℕ → Text) (cfg : IdentitySettings) where
  -- A live row of the capability, and the ticket it holds.
  pub record Holds (capability now : ℕ) (rows : List (UploadCapability codec))
      (ticket : UploadTicket) : Type 0 where
    pub row : UploadCapability codec
    pub kept : TicketRecord
    pub first : first_row codec (of_capability codec capability rows) ≡ some row
    pub live : now ≤ row.expires_at
    pub valid : codec.validate row.ticket ≡ some kept
    pub same : ticket ≡ restore cfg kept

  -- What each answer to a PUT says.
  abbrev pub Explains : ℕ → ℕ → List (List ℕ) → List (UploadCapability codec) → Received → Type 0
  Explains capability now chunks rows not_claimed =
      (ticket : UploadTicket) → ¬ Holds capability now rows ticket
  Explains capability now chunks rows over_budget =
      (ticket : UploadTicket) × Holds capability now rows ticket
      × (ticket.declared.size < length (concat chunks))
  Explains capability now chunks rows (delivered wrong_size) =
      (ticket : UploadTicket) × Holds capability now rows ticket
      × (length (concat chunks) < ticket.declared.size)
  Explains capability now chunks rows (delivered wrong_hash) =
      (ticket : UploadTicket) × Holds capability now rows ticket
      × (length (concat chunks) ≡ ticket.declared.size)
      × (text_eq (sha256 (concat chunks)) ticket.declared.sha256 ≡ false)
  Explains capability now chunks rows (delivered (accepted user artifact target companion)) =
      (ticket : UploadTicket) × Holds capability now rows ticket
      × (artifact.content ≡ concat chunks)
      × (length artifact.content ≡ ticket.declared.size)
      × (text_eq (sha256 artifact.content) ticket.declared.sha256 ≡ true)
      × (user ≡ ticket.user)
      × (target ≡ ticket.target)
      × (companion ≡ ticket.declared.companion_text)

  -- What each answer of `claim` says.
  Says : ℕ → ℕ → List (UploadCapability codec) → Claimed codec → Type 0
  Says capability now rows (ticket_of ticket) = Holds capability now rows ticket
  Says capability now rows _ = (ticket : UploadTicket) → ¬ Holds capability now rows ticket

  clash : {A : Type 0} (o : Option A) (a b : A) → o ≡ some a → o ≡ some b → a ≡ b
  clash o a b e h = cc

  restored-Says :
      (capability now : ℕ) (rows : List (UploadCapability codec)) (row : UploadCapability codec)
      (o : Option TicketRecord)
      → first_row codec (of_capability codec capability rows) ≡ some row
      → now ≤ row.expires_at
      → codec.validate row.ticket ≡ o
      → Says capability now rows (restored codec cfg o)
  unfolding Says
  restored-Says capability now rows row none e l v = λ ticket held.
      let one =
        clash (first_row codec (of_capability codec capability rows)) held.row row held.first e in
      let bad =
        subst (λ (r : UploadCapability codec). codec.validate r.ticket ≡ some held.kept) one
          held.valid in
      cc
  restored-Says capability now rows row (some kept) e l v = record {
    row = row;
    kept = kept;
    first = e;
    live = l;
    valid = v;
    same = refl;
  }

  redeemed-Says :
      (capability now : ℕ) (rows : List (UploadCapability codec))
      (o : Option (UploadCapability codec))
      → first_row codec (of_capability codec capability rows) ≡ o
      → Says capability now rows (redeemed codec cfg now o)
  unfolding Says
  redeemed-Says capability now rows none e = λ ticket held. let bad = held.first in cc
  redeemed-Says capability now rows (some row) e = elim (Bool-cases (ltb row.expires_at now)) [
    | inl late ↦ rw late (λ ticket held.
        let one =
          clash (first_row codec (of_capability codec capability rows)) held.row row held.first e in
        let live = subst (λ (r : UploadCapability codec). now ≤ r.expires_at) one held.live in
        omega (arith, live, ltb→lt row.expires_at now late))
    | inr live ↦ rw live (
        restored-Says capability now rows row (codec.validate row.ticket) e
          (not_lt now row.expires_at live) refl)
  ]
    where
      not_lt : (m n : ℕ) → ltb n m ≡ false → m ≤ n
      not_lt m n h = ground arith

  deliver-Explains :
      (capability now : ℕ) (chunks : List (List ℕ)) (rows : List (UploadCapability codec))
      (ticket : UploadTicket)
      → Holds capability now rows ticket
      → Explains capability now chunks rows
          (body_of codec sha256 ticket (gather chunks ticket.declared.size))
  unfolding deliver
  deliver-Explains capability now chunks rows ticket held =
      elim (Bool-cases (ltb ticket.declared.size (length (concat chunks)))) [
        | inl over ↦
            rw (gather_lem chunks ticket.declared.size, over)
              (ticket, held, ltb→lt ticket.declared.size (length (concat chunks)) over)
        | inr fits ↦ elim (Bool-cases (length (concat chunks) == ticket.declared.size)) [
          | inr short ↦
              rw (gather_lem chunks ticket.declared.size, fits, short)
                (ticket, held, below (length (concat chunks)) ticket.declared.size fits short)
          | inl exact ↦
              elim (Bool-cases (text_eq (sha256 (concat chunks)) ticket.declared.sha256)) [
                | inr differs ↦
                    rw (gather_lem chunks ticket.declared.size, fits, exact, differs)
                      (
                        ticket,
                        held,
                        (==_iff (length (concat chunks)) ticket.declared.size).0 exact,
                        differs,
                      )
                | inl same ↦
                    rw (gather_lem chunks ticket.declared.size, fits, exact, same)
                      (
                        ticket,
                        held,
                        refl,
                        (==_iff (length (concat chunks)) ticket.declared.size).0 exact,
                        same,
                        refl,
                        refl,
                        refl,
                      )
              ]
        ]
      ]
    where
      below : (n m : ℕ) → ltb m n ≡ false → (n == m) ≡ false → n < m
      below n m h k = ground arith

  answered-Explains :
      (capability now : ℕ) (chunks : List (List ℕ)) (rows : List (UploadCapability codec))
      (got : Claimed codec)
      → Says capability now rows got
      → Explains capability now chunks rows (answered codec sha256 chunks got)
  unfolding Says
  answered-Explains capability now chunks rows unknown_or_used h = h
  answered-Explains capability now chunks rows expired h = h
  answered-Explains capability now chunks rows invalid_ticket h = h
  answered-Explains capability now chunks rows (ticket_of ticket) h =
      deliver-Explains capability now chunks rows ticket h

  -- What the answer to a PUT says is so: it is not claimed only if no live row with a valid ticket is
  -- there; over budget, a wrong size or a wrong digest only if the body compares so with the
  -- declaration of a live ticket; and the intake is reached only with the whole body, of the declared
  -- size and digest, for the restored caller, target and companion text of a live ticket.
  pub receive_upload_lem :
      (capability : ℕ) (chunks : List (List ℕ)) (now : ℕ) (rows : List (UploadCapability codec))
      → Explains capability now chunks rows
          (receive_upload codec sha256 cfg capability chunks now rows).0
  unfolding receive_upload claim
  receive_upload_lem capability chunks now rows =
      answered-Explains capability now chunks rows
        (redeemed codec cfg now (first_row codec (of_capability codec capability rows)))
        (redeemed-Says capability now rows (first_row codec (of_capability codec capability rows))
          refl)
