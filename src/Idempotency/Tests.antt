-- ===== src/Idempotency/Tests.antt =====
-- Two requests under one key, the second of which waits for the answer of the first. Names of
-- headers are in lower case, and decoding is the identity.
use sentinelai_v.Prelude.{
  String, ◌≡◌, ◌≢◌, ◌↔◌, arith, refl, true, false, none, some, List, [], ◌∷◌, ◌≤◌, ◌+◌, length, inl,
  inr,
}
use sentinelai_v.Idempotency.{
  Response, completed, replayed, fresh, Phase, polling, answered, Worker, World, check_state,
  kept_headers, stored, route, passes_on, key_required, arrives, locks, checks, starts, responds,
  stores, releases, finds_completed, Reach, begin, step, fresh_world, expire_lock,
}
use sentinelai_v.Idempotency.Counting.{at_endpoint, count, at}
use sentinelai_v.Idempotency.Exclusion.{
  one_at_a_time, one_answer, Serves, from_cache, from_endpoint,
}
use sentinelai_v.Idempotency.Scope.{Origin, redis_key, lock_key, Matches, same_keys_iff}
use sentinelai_v.Idempotency.Expiry.{one_running, expired_lock_admits_second}

abbrev same : String → String
same s = s

abbrev reply : Response
reply = record {
  status_code = 200;
  body = "paid";
  headers = ("content-type", "json") ∷ ("content-length", "4") ∷ [];
}

abbrev cached : Response
cached = record reply { headers = ("content-type", "json") ∷ [] }

header_dropped : stored same same reply ≡ cached
unfolding kept_headers
header_dropped = refl

posts_need_key : route true "POST" none ≡ key_required
unfolding route
posts_need_key = refl

gets_pass : route true "GET" (some "k") ≡ passes_on
unfolding route
gets_pass = refl

abbrev both : Phase → Phase → World
both p q = record {
  lock = false;
  state = some (completed "h" cached);
  workers = at "h" p ∷ at "h" q ∷ [];
  ran = ("h", cached) ∷ [];
}

first_done : Reach same same fresh_world (both polling (answered (fresh reply)))
unfolding check_state kept_headers
first_done =
    step
      (step
        (step
          (step
            (step
              (step (step (step begin (arrives "h")) (locks [] [] "h" refl refl))
                (checks [] [] "h" refl))
              (starts [] [] "h" refl))
            (responds [] [] "h" reply refl))
          (stores [] [] "h" reply refl))
        (releases [] [] "h" (fresh reply) refl))
      (arrives "h")

both_done : Reach same same fresh_world (both (answered (replayed cached)) (answered (fresh reply)))
unfolding check_state
both_done =
    let rest : List Worker = at "h" (answered (fresh reply)) ∷ [] in
    step
      (step (step first_done (finds_completed [] rest "h" "h" cached refl refl))
        (checks [] rest "h" refl))
      (releases [] rest "h" (replayed cached) refl)

one_at_a_time_example :
    let s = both (answered (replayed cached)) (answered (fresh reply)) in
    count at_endpoint s.workers + length s.ran ≤ 1
one_at_a_time_example =
    one_at_a_time same same (both (answered (replayed cached)) (answered (fresh reply))) both_done

by_endpoint : Serves same same (at "h" (answered (fresh reply))) cached
unfolding kept_headers
by_endpoint = from_endpoint reply refl refl refl

one_answer_example : (Path String "h" "h") × (cached ≡ cached)
one_answer_example =
    one_answer same same (both (answered (replayed cached)) (answered (fresh reply)))
      (at "h" (answered (replayed cached))) (at "h" (answered (fresh reply))) cached cached
      both_done (inl refl) (inr (inl refl)) (from_cache refl) by_endpoint

expired_lock_admits_second_example :
    Reach same same fresh_world (one_running same same "h")
    × ((s : World) × Reach same same (expire_lock (one_running same same "h")) s
        × (count at_endpoint s.workers ≡ 2))
expired_lock_admits_second_example = expired_lock_admits_second same same "h"

abbrev from_host : String → String → Origin
from_host host key = record {
  path = "/v1/banking/transfer";
  host = some host;
  idempotency_key = key;
}

-- Two IPv6 clients with one state and one lock.
shared_state : redis_key (from_host "2001:db8::1" "a:b") ≡ redis_key (from_host "2001:db8::1:a" "b")
unfolding redis_key
shared_state = refl

abbrev first_origin : Origin
first_origin = from_host "10.0.0.1" "k"

abbrev second_origin : Origin
second_origin = from_host "10.0.0.2" "k"

same_keys_iff_example :
    ((redis_key first_origin ≡ redis_key second_origin) ↔ Matches first_origin second_origin)
    × ((lock_key first_origin ≡ lock_key second_origin) ↔ Matches first_origin second_origin)
    × (redis_key first_origin ≢ lock_key second_origin)
same_keys_iff_example =
    same_keys_iff first_origin second_origin
      (record { plain_path = ground arith; plain_client = ground arith })
      (record { plain_path = ground arith; plain_client = ground arith })
