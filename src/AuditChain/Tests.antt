-- ===== src/AuditChain/Tests.antt =====
-- Tests of the hash chain, with a digest that replaces each "|" by "/".
use Prim.Native.Char.{Char, code}
use sentinelai_v.Prelude.{
  String, ◌≡◌, ◌≢◌, refl, List, [], ◌∷◌, map, arith, if◌then◌else◌, ltb, All, ◌⊎◌, Bool-cases, inl,
  inr, eq_iff,
}
use sentinelai_v.Prelude.Text.{BarFree}
use sentinelai_v.Database.{AuditRow}
use sentinelai_v.AuditChain.{
  genesis_hash, data_to_hash, last_hash, next_seq_id, hash_taken, append_record, verify_from,
  verify_audit_chain, intact, compromised, broken_link, forged_data,
}
use sentinelai_v.AuditChain.Intact.{IsVerified, append_all, journal_not_compromised}
use sentinelai_v.AuditChain.Tamper.{entry_of, IsDelimited, Break, journals_agree}
use sentinelai_v.AuditChain.Limits.{moved_bar_unseen}

abbrev clean : Char → Char
clean c = if ltb (code c) 124 then c else "/"

abbrev digest : String → String
digest String.[] = String.[]
digest (String.◌∷◌ c s) = String.◌∷◌ (clean c) (digest s)

clean-free : (c : Char) → code (clean c) ≢ 124
clean-free c = elim (Bool-cases (ltb (code c) 124)) [
  | inl low ↦ rw low (ground arith)
  | inr high ↦ rw high (ground arith)
]

digest-BarFree : (s : String) → BarFree (digest s)
digest-BarFree String.[] = tt
digest-BarFree (String.◌∷◌ c s) = (clean-free c, digest-BarFree s)

abbrev requests : List (String × String × String)
requests = ("t1", "INTENT_CREATED", "{}") ∷ ("t1", "AUTH_APPROVED", "{}") ∷ []

abbrev first : AuditRow
first = record {
  seq_id = 1;
  tx_id = "t1";
  action = "INTENT_CREATED";
  payload = "{}";
  prev_hash = genesis_hash;
  current_hash = digest (data_to_hash genesis_hash "t1" "INTENT_CREATED" "{}");
}

abbrev second : AuditRow
second = record {
  seq_id = 2;
  tx_id = "t1";
  action = "AUTH_APPROVED";
  payload = "{}";
  prev_hash = first.current_hash;
  current_hash = digest (data_to_hash first.current_hash "t1" "AUTH_APPROVED" "{}");
}

append_two : append_all digest [] requests ≡ first ∷ second ∷ []
unfolding append_record last_hash next_seq_id hash_taken
append_two = refl

audit_two : verify_audit_chain digest (first ∷ second ∷ []) ≡ intact
unfolding verify_audit_chain verify_from
audit_two = refl

audit_changed :
    verify_audit_chain digest (first ∷ record second { payload = "{1}" } ∷ [])
    ≡ compromised (forged_data 2)
unfolding verify_audit_chain verify_from
audit_changed = refl

audit_deleted : verify_audit_chain digest (second ∷ []) ≡ compromised (broken_link 2)
unfolding verify_audit_chain verify_from
audit_deleted = refl

journal_not_compromised_example :
    verify_audit_chain digest (append_all digest [] requests) ≢ compromised (broken_link 2)
journal_not_compromised_example = journal_not_compromised digest requests (broken_link 2)

two-IsVerified : IsVerified digest (first ∷ second ∷ [])
unfolding verify_from
two-IsVerified = refl

abbrev renumbered : List AuditRow
renumbered = first ∷ record second { seq_id = 7 } ∷ []

two-IsDelimited : All IsDelimited (first ∷ second ∷ [])
two-IsDelimited = (
  record { tx_id_free = ground arith; action_free = ground arith },
  (record { tx_id_free = ground arith; action_free = ground arith }, tt),
)

renumbered-IsVerified : IsVerified digest renumbered
unfolding verify_from
renumbered-IsVerified = refl

renumbered-IsDelimited : All IsDelimited renumbered
renumbered-IsDelimited = (
  record { tx_id_free = ground arith; action_free = ground arith },
  (record { tx_id_free = ground arith; action_free = ground arith }, tt),
)

same_head : last_hash (first ∷ second ∷ []) ≡ last_hash renumbered
unfolding last_hash
same_head = refl

journals_agree_example :
    Break digest ⊎ (map entry_of (first ∷ second ∷ []) ≡ map entry_of renumbered)
journals_agree_example =
    journals_agree digest digest-BarFree (first ∷ second ∷ []) renumbered two-IsVerified
      renumbered-IsVerified two-IsDelimited renumbered-IsDelimited same_head

forged_digest :
    digest (data_to_hash genesis_hash "t2" "INTENT_CREATED" "{}")
    ≢ digest (data_to_hash genesis_hash "t1" "INTENT_CREATED" "{}")
forged_digest e = ground (
  arith,
  eq_iff (digest (data_to_hash genesis_hash "t2" "INTENT_CREATED" "{}"))
      (digest (data_to_hash genesis_hash "t1" "INTENT_CREATED" "{}")),
)

moved_bar_unseen_example :
    verify_from digest genesis_hash (record first { tx_id = "a|b"; action = "c" } ∷ [])
    ≡ verify_from digest genesis_hash (record first { tx_id = "a"; action = "b|c" } ∷ [])
moved_bar_unseen_example = moved_bar_unseen digest [] [] first "a" "b" "c"
