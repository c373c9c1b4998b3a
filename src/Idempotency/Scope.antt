-- ===== src/Idempotency/Scope.antt =====
-- core/idempotency.py: the two keys in Redis that a request works on, and which requests share them.
use sentinelai_v.Prelude.{
  String, ◌≡◌, ◌≢◌, ◌↔◌, refl, sym, ap, ◌∙◌, Option, none, some, eq_iff, arith,
}
use sentinelai_v.Prelude.Text.{join_colon, ColonFree, join_by_inj, join_by_assoc, append_inj}
use text.Mathlib.TextLemmas.{append_assoc}
use Prim.Native.String.{◌++◌}

-- What of a request the keys depend on: its path, the client's address if there is one, and the
-- Idempotency-Key.
pub record Origin : Type 0 where
  pub path : String
  pub host : Option String
  pub idempotency_key : String

abbrev pub client_identity : Option String → String
client_identity none = "unknown"
client_identity (some host) = host

abbrev pub scope_of : Origin → String
scope_of o = join_colon o.path (client_identity o.host)

abbrev pub scoped : Origin → String
scoped o = join_colon (scope_of o) o.idempotency_key

unfoldable pub redis_key : Origin → String
redis_key o = "idem:state:" ++ scoped o

unfoldable pub lock_key : Origin → String
lock_key o = "idem:lock:" ++ scoped o

-- No ":" in the path and in the client's address, as in an IPv4 one.
pub record IsPlain (o : Origin) : Type 0 where
  pub plain_path : ColonFree o.path
  pub plain_client : ColonFree (client_identity o.host)

-- Two requests have one path, one client and one key.
abbrev pub Matches : Origin → Origin → Type 0
Matches a b =
    (a.path ≡ b.path)
    × (client_identity a.host ≡ client_identity b.host)
    × (a.idempotency_key ≡ b.idempotency_key)

scoped_inj : (a b : Origin) → IsPlain a → IsPlain b → scoped a ≡ scoped b → Matches a b
scoped_inj a b ha hb e =
    let e' =
      sym (join_by_assoc ":" a.path (client_identity a.host) a.idempotency_key)
      ∙ e
      ∙ join_by_assoc ":" b.path (client_identity b.host) b.idempotency_key in
    let (path, rest) = join_by_inj ":" a.path b.path _ _ ha.plain_path hb.plain_path e' in
    let (client, key) =
      join_by_inj ":" (client_identity a.host) (client_identity b.host) _ _ ha.plain_client
        hb.plain_client rest in
    (path, client, key)

Matches-scoped : (a b : Origin) → Matches a b → scoped a ≡ scoped b
Matches-scoped a b (path, client, key) =
    ap (λ p. join_colon (join_colon p (client_identity a.host)) a.idempotency_key) path
    ∙ ap (λ c. join_colon (join_colon b.path c) a.idempotency_key) client
    ∙ ap (λ k. join_colon (scope_of b) k) key

states_not_locks : (x y : String) → "idem:state:" ++ x ≢ "idem:lock:" ++ y
states_not_locks x y e =
    let heads : "idem:s" ≡ "idem:l" =
      (append_inj "idem:s" "idem:l" ("tate:" ++ x) ("ock:" ++ y) refl
        (sym (append_assoc "idem:s" "tate:" x) ∙ e ∙ append_assoc "idem:l" "ock:" y)).0 in
    ground (arith, heads, eq_iff "idem:s" "idem:l")

-- Where paths and addresses hold no ":", two requests work on one stored state exactly if they have
-- one path, one client and one Idempotency-Key, and then, and only then, on one lock. No state is
-- ever kept under a lock's key.
pub same_keys_iff :
    (a b : Origin)
    → IsPlain a
    → IsPlain b
    → ((redis_key a ≡ redis_key b) ↔ Matches a b)
      × ((lock_key a ≡ lock_key b) ↔ Matches a b)
      × (redis_key a ≢ lock_key b)
unfolding redis_key lock_key
same_keys_iff a b ha hb = (
  (
    (λ e. scoped_inj a b ha hb (append_inj "idem:state:" "idem:state:" _ _ refl e).1),
    λ m. ap (λ s. "idem:state:" ++ s) (Matches-scoped a b m),
  ),
  (
    (λ e. scoped_inj a b ha hb (append_inj "idem:lock:" "idem:lock:" _ _ refl e).1),
    λ m. ap (λ s. "idem:lock:" ++ s) (Matches-scoped a b m),
  ),
  states_not_locks (scoped a) (scoped b),
)
