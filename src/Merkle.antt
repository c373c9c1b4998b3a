-- ===== src/Merkle.antt =====
-- core/crypto_audit.py: `MerkleManager`, the root of a batch of hashes. Its key and `sign_hash` are
-- the parameter `sign` of the modules that sign.
pub mod Recursion
pub mod Binding
mod Tests
use sentinelai_v.Prelude.{ℕ, zero, suc, String, List, [], ◌∷◌, length}
use sentinelai_v.AuditChain.{genesis_hash}
use Prim.Native.String.{◌++◌}

module _ (sha256 : String → String) where
  -- The loop of `build_merkle_root`: the hashes two by two, the last one twice if it is alone.
  unfoldable pub next_level : List String → List String
  next_level [] = []
  next_level (left ∷ []) = sha256 (left ++ left) ∷ []
  next_level (left ∷ right ∷ rest) = sha256 (left ++ right) ∷ next_level rest

  -- At most so many levels; the number of hashes is enough.
  unfoldable pub merkle_from : ℕ → List String → String
  merkle_from n [] = genesis_hash
  merkle_from n (x ∷ []) = x
  merkle_from zero (x ∷ y ∷ rest) = genesis_hash
  merkle_from (suc n) (x ∷ y ∷ rest) = merkle_from n (next_level (x ∷ y ∷ rest))

  unfoldable pub build_merkle_root : List String → String
  build_merkle_root leaf_hashes = merkle_from (length leaf_hashes) leaf_hashes
