-- ===== src/Merkle/Recursion.antt =====
-- `build_merkle_root` of core/crypto_audit.py, level by level.
use sentinelai_v.Prelude.{
  ℕ, zero, suc, String, ◌≡◌, refl, sym, ap, ◌∙◌, Option, none, some, List, [], ◌∷◌, ◌++◌, length,
  ◌+◌, ◌*◌, ◌≤◌, arith,
}
use mathlib.Core.Path.{ap₂}
use mathlib.Core.Option.{some-injective}
use sentinelai_v.AuditChain.{genesis_hash}
use sentinelai_v.Merkle.{next_level, merkle_from, build_merkle_root}

-- An even number of hashes.
abbrev pub IsEven : List String → Type 0
IsEven [] = Unit
IsEven (x ∷ []) = ⊥
IsEven (x ∷ y ∷ rest) = IsEven rest

-- `l[i]`, if there is such a place.
abbrev pub get_elem? : List String → ℕ → Option String
get_elem? [] i = none
get_elem? (x ∷ xs) zero = some x
get_elem? (x ∷ xs) (suc i) = get_elem? xs i

same_elems : (xs ys : List String) → ((i : ℕ) → get_elem? xs i ≡ get_elem? ys i) → xs ≡ ys
same_elems [] [] h = refl
same_elems [] (y ∷ ys) h = (let bad : none ≡ some y = h 0 in cc bad)
same_elems (x ∷ xs) [] h = (let bad : some x ≡ none = h 0 in cc bad)
same_elems (x ∷ xs) (y ∷ ys) h =
    ap₂ ◌∷◌ (some-injective x y (h 0)) (same_elems xs ys (λ i. h (suc i)))

twice_suc : (i : ℕ) → 2 * suc i ≡ suc (suc (2 * i))
twice_suc i = omega arith

module _ (sha256 : String → String) where
  pub length-next_level : (xs : List String) → 2 * length (next_level sha256 xs) ≤ length xs + 1
  unfolding next_level
  length-next_level [] = omega arith
  length-next_level (x ∷ []) = omega arith
  length-next_level (x ∷ y ∷ rest) = omega (arith, length-next_level rest)

  -- Two bounds on the levels that are both large enough give one root.
  merkle_from_enough :
      (n m : ℕ) (xs : List String)
      → length xs ≤ n
      → length xs ≤ m
      → merkle_from sha256 n xs ≡ merkle_from sha256 m xs
  unfolding merkle_from
  merkle_from_enough n m [] h k = refl
  merkle_from_enough n m (x ∷ []) h k = refl
  merkle_from_enough zero m (x ∷ y ∷ rest) h k = absurd (omega (arith, h))
  merkle_from_enough (suc n) zero (x ∷ y ∷ rest) h k = absurd (omega (arith, k))
  merkle_from_enough (suc n) (suc m) (x ∷ y ∷ rest) h k =
      let shorter = length-next_level (x ∷ y ∷ rest) in
      merkle_from_enough n m (next_level sha256 (x ∷ y ∷ rest)) (omega (arith, shorter, h))
        (omega (arith, shorter, k))

  -- One step of the recursion.
  unfold_level :
      (xs : List String) (x y : String)
      → build_merkle_root sha256 (x ∷ y ∷ xs)
        ≡ build_merkle_root sha256 (next_level sha256 (x ∷ y ∷ xs))
  unfolding build_merkle_root merkle_from
  unfold_level xs x y =
      let shorter = length-next_level (x ∷ y ∷ xs) in
      merkle_from_enough (suc (length xs)) (length (next_level sha256 (x ∷ y ∷ xs)))
        (next_level sha256 (x ∷ y ∷ xs)) (omega (arith, shorter)) (omega arith)

  -- The hash above two neighbours, of which the second may be missing.
  abbrev pub parent : Option String → Option String → Option String
  parent none right = none
  parent (some left) none = some (sha256 (Prim.Native.String.◌++◌ left left))
  parent (some left) (some right) = some (sha256 (Prim.Native.String.◌++◌ left right))

  -- At each place of the level above stands the hash of the two below it.
  abbrev pub IsAbove : List String → List String → Type 0
  IsAbove below above =
      (i : ℕ) → get_elem? above i ≡ parent (get_elem? below (2 * i)) (get_elem? below (suc (2 * i)))

  next_level-IsAbove : (xs : List String) → IsAbove xs (next_level sha256 xs)
  unfolding next_level
  next_level-IsAbove [] i = refl
  next_level-IsAbove (x ∷ []) zero = refl
  next_level-IsAbove (x ∷ []) (suc i) = rw (twice_suc i) refl
  next_level-IsAbove (x ∷ y ∷ rest) zero = refl
  next_level-IsAbove (x ∷ y ∷ rest) (suc i) = rw (twice_suc i) (next_level-IsAbove rest i)

  -- The root of no hash is all zeros, and that of one hash is itself. Of more hashes it is the root
  -- of any list that has at each place the hash of the two at twice that place, or of the one there
  -- joined with itself if it stands alone; and there is such a list, which is shorter.
  pub build_merkle_root-levels :
      (x y : String) (xs : List String)
      → (build_merkle_root sha256 [] ≡ genesis_hash)
        × (build_merkle_root sha256 (x ∷ []) ≡ x)
        × ((above : List String)
            → IsAbove (x ∷ y ∷ xs) above
            → build_merkle_root sha256 (x ∷ y ∷ xs) ≡ build_merkle_root sha256 above)
        × ((above : List String) × IsAbove (x ∷ y ∷ xs) above
            × (suc (length above) ≤ length (x ∷ y ∷ xs)))
  unfolding build_merkle_root merkle_from
  build_merkle_root-levels x y xs =
      let level = next_level sha256 (x ∷ y ∷ xs) in
      let pointwise = next_level-IsAbove (x ∷ y ∷ xs) in
      (
        refl,
        refl,
        (λ above h.
            unfold_level xs x y
            ∙ ap (build_merkle_root sha256)
                (same_elems level above (λ i. pointwise i ∙ sym (h i)))),
        (level, pointwise, omega (arith, length-next_level (x ∷ y ∷ xs))),
      )

  next_level-twice :
      (xs : List String) (x : String)
      → IsEven xs
      → next_level sha256 (xs ++ x ∷ []) ≡ next_level sha256 (xs ++ x ∷ x ∷ [])
  unfolding next_level
  next_level-twice [] x even = refl
  next_level-twice (y ∷ []) x even = absurd even
  next_level-twice (y ∷ z ∷ rest) x even =
      ap (λ l. sha256 (Prim.Native.String.◌++◌ y z) ∷ l) (next_level-twice rest x even)

  -- The last hash of an odd batch of at least three may be repeated: the longer batch has the same
  -- root.
  repeated_leaf_unseen :
      (a b x : String) (rest : List String)
      → IsEven rest
      → build_merkle_root sha256 (a ∷ b ∷ rest ++ x ∷ [])
        ≡ build_merkle_root sha256 (a ∷ b ∷ rest ++ x ∷ x ∷ [])
  repeated_leaf_unseen a b x rest even =
      unfold_level (rest ++ x ∷ []) a b
      ∙ ap (build_merkle_root sha256) (next_level-twice (a ∷ b ∷ rest) x even)
      ∙ sym (unfold_level (rest ++ x ∷ x ∷ []) a b)
