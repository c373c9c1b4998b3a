-- ===== src/Merkle/Tests.antt =====
-- Roots of small batches. The digest is a pair of brackets.
use sentinelai_v.Prelude.{String, ◌≡◌, ◌⊎◌, ◌≤◌, suc, refl, List, [], ◌∷◌, length}
use sentinelai_v.AuditChain.{genesis_hash}
use sentinelai_v.Merkle.{next_level, merkle_from, build_merkle_root}
use sentinelai_v.Merkle.Recursion.{IsAbove, build_merkle_root-levels}
use sentinelai_v.Merkle.Binding.{Collision, hashed_texts, same_root_same_batch}
use Prim.Native.String

abbrev bracket : String → String
bracket s = String.◌++◌ "(" (String.◌++◌ s ")")

abbrev five : List String
five = "a" ∷ "b" ∷ "c" ∷ "d" ∷ "e" ∷ []

root_of_five : build_merkle_root bracket five ≡ "(((ab)(cd))((ee)(ee)))"
unfolding build_merkle_root merkle_from next_level
root_of_five = refl

build_merkle_root-levels_example :
    (build_merkle_root bracket [] ≡ genesis_hash)
    × (build_merkle_root bracket ("a" ∷ []) ≡ "a")
    × ((above : List String)
        → IsAbove bracket five above
        → build_merkle_root bracket five ≡ build_merkle_root bracket above)
    × ((above : List String) × IsAbove bracket five above × (suc (length above) ≤ length five))
build_merkle_root-levels_example = build_merkle_root-levels bracket "a" "b" ("c" ∷ "d" ∷ "e" ∷ [])

abbrev zeros : String → String
zeros s = genesis_hash

abbrev batch : List String
batch = genesis_hash ∷ genesis_hash ∷ genesis_hash ∷ []

-- Another batch with the same root under this digest.
abbrev other_batch : List String
other_batch =
    "ffffffffffffffffffffffffffffffffffffffffffffffffffffffffffffffff" ∷ genesis_hash ∷ genesis_hash
    ∷ []

same_roots : build_merkle_root zeros batch ≡ build_merkle_root zeros other_batch
unfolding build_merkle_root merkle_from next_level
same_roots = refl

same_root_same_batch_example :
    Collision zeros (hashed_texts zeros 3 batch) (hashed_texts zeros 3 other_batch)
    ⊎ (batch ≡ other_batch)
same_root_same_batch_example =
    same_root_same_batch zeros (λ s. refl) batch other_batch refl (refl, (refl, (refl, tt)))
      (refl, (refl, (refl, tt))) same_roots
