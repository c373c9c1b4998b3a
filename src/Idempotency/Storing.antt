-- ===== src/Idempotency/Storing.antt =====
-- The steps of core/idempotency.py that write STARTED and COMPLETED keep the invariant.
use sentinelai_v.Prelude.{
  String, ◌≡◌, refl, ap, ◌∙◌, subst, some, List, ◌∷◌, ◌++◌, ◌≤◌, All, All-map, arith,
}
use sentinelai_v.Idempotency.{
  Response, started, completed, Answer, Phase, polling, starting, storing, releasing, Worker, World,
  stored, moved,
}
use sentinelai_v.Idempotency.Counting.{
  inside, busy, count, at, count_split, count_move, busy_le_inside, All-replace,
}
use sentinelai_v.Idempotency.Invariant.{
  IsHonest, IsOwn, Form, undecided, decided, IsExclusive, moved-IsHonest, not-decided, one_lock,
  more-IsHonest,
}

module _ (lower decode : String → String) where
  -- STARTED is written by a request that goes on to the endpoint, or that does not learn of it.
  pub started_only :
      (s : World) (before after : List Worker) (h : String) (p' : Phase)
      → s.workers ≡ before ++ at h starting ∷ after
      → inside p' ≤ 1
      → IsHonest lower decode s.ran (at h p')
      → IsExclusive lower decode s
      → IsExclusive lower decode
          (record (moved lower decode s before h p' after) { state = some (started h) })
  started_only s before after h p' here le_one own x = record {
    form = go x.form;
    honest = moved-IsHonest lower decode s before after h starting p' here x.honest own;
  }
    where
      go :
          Form lower decode s
          → Form lower decode
              (record (moved lower decode s before h p' after) { state = some (started h) })
      go (undecided unset nothing few) =
          undecided (λ h' r e. cc e) nothing
            (let m = count_move inside starting p' h s.workers before after here in
              omega (arith, m, few, le_one))
      go (decided h' r state one none_busy) =
          absurd (not-decided lower decode s before after h starting starting here refl none_busy)

  -- The request that stores a response was the only one inside, so no other is on the way to.
  pub stored_once :
      (s : World) (before after : List Worker) (h : String) (r : Response) (a : Answer)
      → s.workers ≡ before ++ at h (storing r) ∷ after
      → IsOwn lower decode ((h, stored lower decode r) ∷ s.ran) h a
      → IsExclusive lower decode s
      → IsExclusive lower decode (record (moved lower decode s before h (releasing a) after) {
        state = some (completed h (stored lower decode r));
        ran = (h, stored lower decode r) ∷ s.ran;
      })
  stored_once s before after h r a here own x = go x.form
    where
      next : World
      next = record (moved lower decode s before h (releasing a) after) {
        state = some (completed h (stored lower decode r));
        ran = (h, stored lower decode r) ∷ s.ran;
      }

      go : Form lower decode s → IsExclusive lower decode next
      go (undecided unset nothing few) = record {
        form =
            decided h (stored lower decode r) refl
              (ap (λ xs. (h, stored lower decode r) ∷ xs) nothing)
              (let old =
                  ap (count inside) here ∙ count_split inside before after (at h (storing r)) in
                let new = count_split busy before after (at h (releasing a)) in
                omega (
                  arith,
                  old,
                  new,
                  few,
                  one_lock lower decode s.lock,
                  busy_le_inside before,
                  busy_le_inside after,
                ));
        honest =
            All-replace (IsHonest lower decode ((h, stored lower decode r) ∷ s.ran)) before after
              (at h (storing r)) (at h (releasing a))
              (subst (All (IsHonest lower decode ((h, stored lower decode r) ∷ s.ran))) here (
                All-map (IsHonest lower decode s.ran)
                  (IsHonest lower decode ((h, stored lower decode r) ∷ s.ran)) s.workers
                  (λ w.
                    more-IsHonest lower decode (h, stored lower decode r) s.ran w.payload_hash
                      w.phase)
                  x.honest))
              own;
      }
      go (decided h' r' state one none_busy) =
          absurd (not-decided lower decode s before after h (storing r) polling here refl none_busy)
