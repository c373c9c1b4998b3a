-- ===== src/Shipping/Garbled.antt =====
-- What a line that is not JSON does to the log of core/app/stages.py.
use sentinelai_v.Prelude.{
  String, ◌≡◌, ◌⊎◌, refl, ◌∙◌, Bool, true, false, inl, inr, Option, none, List, [], ◌∷◌, ◌++◌, All,
  All-append, All-map, Member, if◌then◌else◌,
}
use sentinelai_v.Siem.{RootHashPayload, SignatureCheck, ingest_root}
use sentinelai_v.Siem.Chain.{ingest-Ends}
use sentinelai_v.Shipping.{
  Delivery, answered, timed_out, unreachable, Line, logged, blank, garbled, Shipper, post, first_of,
  others, keep_if, retry_lines, retry_wal,
}

-- The rows of a table that are of another one or stand in some lines.
abbrev pub IsFrom : List RootHashPayload → List Line → RootHashPayload → Type 0
IsFrom rows lines row = Member row rows ⊎ Member (logged row) lines

All-own : (lines : List Line) → All (λ l. Member l lines) lines
All-own [] = tt
All-own (l ∷ lines) = (
  inl refl,
  All-map (λ k. Member k lines) (λ k. Member k (l ∷ lines)) lines (λ k. inr) (All-own lines),
)

All-IsFrom : (lines : List Line) (rows : List RootHashPayload) → All (IsFrom rows lines) rows
All-IsFrom lines [] = tt
All-IsFrom lines (r ∷ rows) = (
  inl (inl refl),
  All-map (IsFrom rows lines) (IsFrom (r ∷ rows) lines) rows (λ k. wider k) (All-IsFrom lines rows),
)
  where
    wider : (k : RootHashPayload) → IsFrom rows lines k → IsFrom (r ∷ rows) lines k
    wider k (inl m) = inl (inr m)
    wider k (inr m) = inr m

module _ (verify : String → String → SignatureCheck) where
  abbrev pub retry_all : List (List Delivery) → Shipper → Shipper
  retry_all [] s = s
  retry_all (ds ∷ rounds) s = retry_all rounds (retry_wal verify ds s)

  module _ (rows : List RootHashPayload) (before : List Line) where
    ingest-IsFrom :
        (fails : Bool) (p : RootHashPayload) (table : List RootHashPayload)
        → Member (logged p) before
        → All (IsFrom rows before) table
        → All (IsFrom rows before) (ingest_root verify fails p table).1
    ingest-IsFrom fails p table m all = elim (ingest-Ends verify fails p table) [
      | inr refused ↦ rw refused.1 all
      | inl (taken, out) ↦ rw out (All-append (IsFrom rows before) table (p ∷ []) all (inr m, tt))
    ]

    post-IsFrom :
        (d : Delivery) (p : RootHashPayload) (table : List RootHashPayload)
        → Member (logged p) before
        → All (IsFrom rows before) table
        → All (IsFrom rows before) (post verify d p table).1
    post-IsFrom (answered fails) p table m all = ingest-IsFrom fails p table m all
    post-IsFrom (timed_out fails) p table m all = ingest-IsFrom fails p table m all
    post-IsFrom unreachable p table m all = all

    -- How the loop ends over lines among which one is garbled: it raises, the log is left alone, and the
    -- witness has got nothing but what stands before that line.
    record IsStopped (s : Shipper) (x : Option (List Line) × Shipper) : Type 0 where
      raises : x.0 ≡ none
      unwritten : x.1.wal ≡ s.wal
      sent : All (IsFrom rows before) x.1.siem

    retried-IsStopped :
        (raises : Bool) (p : RootHashPayload) (s t : Shipper) (x : Option (List Line) × Shipper)
        → t.wal ≡ s.wal
        → IsStopped t x
        → IsStopped s (keep_if verify raises (logged p) x.0, x.1)
    retried-IsStopped raises p s t x same h = record {
      raises = rw h.raises refl;
      unwritten = h.unwritten ∙ same;
      sent = h.sent;
    }

    stopped :
        (lines after : List Line) (ds : List Delivery) (s : Shipper)
        → All (λ l. Member l before) lines
        → All (IsFrom rows before) s.siem
        → IsStopped s (retry_lines verify ds (lines ++ garbled ∷ after) s)
    unfolding retry_lines
    stopped [] after ds s m all = record { raises = refl; unwritten = refl; sent = all }
    stopped (blank ∷ lines) after ds s m all = stopped lines after ds s m.1 all
    stopped (garbled ∷ lines) after ds s m all = record {
      raises = refl;
      unwritten = refl;
      sent = all;
    }
    stopped (logged p ∷ lines) after ds s m all =
        let x = post verify (first_of verify ds) p s.siem in
        let posted = post-IsFrom (first_of verify ds) p s.siem m.0 all in
        by_flag x.0 x.1 posted (λ t sound. stopped lines after (others verify ds) t m.1 sound)
      where
        by_flag :
            (raises : Bool) (table : List RootHashPayload)
            → All (IsFrom rows before) table
            → ((t : Shipper)
                → All (IsFrom rows before) t.siem
                → IsStopped t (retry_lines verify (others verify ds) (lines ++ garbled ∷ after) t))
            → let t : Shipper =
                if raises
                then record s { siem = table }
                else record s { prev_root = p.root_hash; siem = table } in
              let y = retry_lines verify (others verify ds) (lines ++ garbled ∷ after) t in
              IsStopped s (keep_if verify raises (logged p) y.0, y.1)
        by_flag true table posted later =
            let t : Shipper = record s { siem = table } in
            retried-IsStopped true p s t _ refl (later t posted)
        by_flag false table posted later =
            let t : Shipper = record s { prev_root = p.root_hash; siem = table } in
            retried-IsStopped false p s t _ refl (later t posted)

    retry_wal-stopped :
        (after : List Line) (ds : List Delivery) (s : Shipper)
        → s.wal ≡ before ++ garbled ∷ after
        → All (IsFrom rows before) s.siem
        → ((retry_wal verify ds s).wal ≡ s.wal)
          × All (IsFrom rows before) (retry_wal verify ds s).siem
    unfolding retry_wal
    retry_wal-stopped after ds s log all =
        let here = rw (← log) at (stopped before after ds s (All-own before) all) in
        rw here.raises (here.unwritten, here.sent)

  -- A line of the log that is not JSON blocks it for good: however often the log is retried, and
  -- whatever becomes of each POST, the log stays as it is, and the witness gets nothing by it but
  -- what stands before that line.
  pub garbled_line_blocks :
      (before after : List Line) (rounds : List (List Delivery)) (s : Shipper)
      → s.wal ≡ before ++ garbled ∷ after
      → ((retry_all rounds s).wal ≡ s.wal) × All (IsFrom s.siem before) (retry_all rounds s).siem
  garbled_line_blocks before after rounds s log = go rounds s log (All-IsFrom before s.siem)
    where
      go :
          (rounds : List (List Delivery)) (t : Shipper)
          → t.wal ≡ before ++ garbled ∷ after
          → All (IsFrom s.siem before) t.siem
          → ((retry_all rounds t).wal ≡ t.wal)
            × All (IsFrom s.siem before) (retry_all rounds t).siem
      go [] t log all = (refl, all)
      go (ds ∷ rounds) t log all =
          let (kept, sent) = retry_wal-stopped s.siem before after ds t log all in
          let rest = go rounds (retry_wal verify ds t) (kept ∙ log) sent in (rest.0 ∙ kept, rest.1)
