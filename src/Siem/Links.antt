-- ===== src/Siem/Links.antt =====
-- Lemmas on the links of the table of siem_service.py.
use sentinelai_v.Prelude.{
  String, ◌≡◌, ◌≢◌, ◌⊎◌, refl, inl, inr, false, Bool-cases, List, [], ◌∷◌, ◌++◌, ◌==◌, eq_iff, All,
  arith,
}
use sentinelai_v.AuditChain.{genesis_hash}
use sentinelai_v.Siem.{RootHashPayload, is_stored, get_latest_root}

-- A row follows the root before it, or any row does if that root is all zeros, as before the first.
abbrev pub Follows : String → RootHashPayload → Type 0
Follows last row = (last ≡ genesis_hash) ⊎ (row.prev_hash ≡ last)

abbrev pub IsLinked : String → List RootHashPayload → Type 0
IsLinked last [] = Unit
IsLinked last (row ∷ rows) = Follows last row × IsLinked row.root_hash rows

abbrev pub last_from : String → List RootHashPayload → String
last_from last [] = last
last_from last (row ∷ rows) = last_from row.root_hash rows

pub latest-last_from :
    (rows : List RootHashPayload) → get_latest_root rows ≡ last_from genesis_hash rows
unfolding get_latest_root
latest-last_from [] = refl
latest-last_from (row ∷ []) = refl
latest-last_from (row ∷ row' ∷ rows) = latest-last_from (row' ∷ rows)

pub IsLinked-snoc :
    (last : String) (rows : List RootHashPayload) (row : RootHashPayload)
    → IsLinked last rows
    → Follows (last_from last rows) row
    → IsLinked last (rows ++ row ∷ [])
IsLinked-snoc last [] row h follows = (follows, tt)
IsLinked-snoc last (x ∷ rows) row h follows = (h.0, IsLinked-snoc x.root_hash rows row h.1 follows)

pub unstored :
    (root : String) (rows : List RootHashPayload)
    → is_stored root rows ≡ false
    → All (λ row. row.root_hash ≢ root) rows
unfolding is_stored
unstored root [] h = tt
unstored root (row ∷ rows) h = elim (Bool-cases (row.root_hash == root)) [
  | inl same ↦ ground arith
  | inr other ↦ (
    (λ e. ground (arith, e, other, eq_iff row.root_hash root)),
    unstored root rows (rw other at h),
  )
]
