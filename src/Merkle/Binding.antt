-- ===== src/Merkle/Binding.antt =====
-- core/crypto_audit.py: two batches and their roots.
use sentinelai_v.Prelude.{
  ℕ, zero, suc, String, ◌≡◌, ◌≢◌, ◌⊎◌, refl, sym, ap, ◌∙◌, inl, inr, Bool-cases, ◌==◌, eq_iff, List,
  [], ◌∷◌, length, map, All, Member, Member-append, Member-append_right, ◌≤◌, arith,
}
use mathlib.Core.List
use mathlib.Core.Path.{ap₂}
use mathlib.Core.List.{head-eq_of_cons-eq, tail-eq_of_cons-eq}
use sentinelai_v.Prelude.Text.{append_inj}
use sentinelai_v.Merkle.{next_level, merkle_from, build_merkle_root}
use sentinelai_v.Merkle.Recursion.{length-next_level}
use Prim.Native.String.{◌++◌, len}

abbrev pub IsDigest : String → Type 0
IsDigest s = len s ≡ 64

module _ (sha256 : String → String) where
  -- Two different texts of these lists have one digest.
  pub record Collision (ss ts : List String) : Type 0 where
    pub first : String
    pub second : String
    pub from_first : Member first ss
    pub from_second : Member second ts
    pub differ : first ≢ second
    pub agree : sha256 first ≡ sha256 second

  larger :
      (ss ts ss' ts' : List String)
      → ((s : String) → Member s ss → Member s ss')
      → ((t : String) → Member t ts → Member t ts')
      → Collision ss ts
      → Collision ss' ts'
  larger ss ts ss' ts' f g c = record {
    first = c.first;
    second = c.second;
    from_first = f c.first c.from_first;
    from_second = g c.second c.from_second;
    differ = c.differ;
    agree = c.agree;
  }

  -- The texts that are hashed for one level: the hashes below two by two, the last one twice if it
  -- is alone.
  abbrev pub paired : List String → List String
  paired [] = []
  paired (left ∷ []) = (left ++ left) ∷ []
  paired (left ∷ right ∷ rest) = (left ++ right) ∷ paired rest

  -- All texts that are hashed for a root, level by level, at most so many.
  abbrev pub hashed_texts : ℕ → List String → List String
  hashed_texts n [] = []
  hashed_texts n (x ∷ []) = []
  hashed_texts zero (x ∷ y ∷ rest) = []
  hashed_texts (suc n) (x ∷ y ∷ rest) =
      List.◌++◌ (paired (x ∷ y ∷ rest)) (hashed_texts n (map sha256 (paired (x ∷ y ∷ rest))))

  next_level-paired : (xs : List String) → next_level sha256 xs ≡ map sha256 (paired xs)
  unfolding next_level
  next_level-paired [] = refl
  next_level-paired (x ∷ []) = refl
  next_level-paired (x ∷ y ∷ rest) = ap (λ l. sha256 (x ++ y) ∷ l) (next_level-paired rest)

  same_digest :
      (s t : String) (ss ts : List String)
      → sha256 s ≡ sha256 t
      → Collision (s ∷ ss) (t ∷ ts) ⊎ (s ≡ t)
  same_digest s t ss ts e = elim (Bool-cases (s == t)) [
    | inl same ↦ inr ((eq_iff s t).0 same)
    | inr other ↦ inl (record {
      first = s;
      second = t;
      from_first = inl refl;
      from_second = inl refl;
      differ = λ same. ground (arith, same, other, eq_iff s t);
      agree = e;
    })
  ]

  same_pair :
      (a b x y : String) (ss ts : List String)
      → IsDigest a
      → IsDigest b
      → sha256 (a ++ x) ≡ sha256 (b ++ y)
      → Collision ((a ++ x) ∷ ss) ((b ++ y) ∷ ts) ⊎ ((a ≡ b) × (x ≡ y))
  same_pair a b x y ss ts da db e = elim (same_digest (a ++ x) (b ++ y) ss ts e) [
    | inl broken ↦ inl broken
    | inr same ↦ inr (append_inj a b x y (da ∙ sym db) same)
  ]

  same_level :
      (xs ys : List String)
      → length xs ≡ length ys
      → All IsDigest xs
      → All IsDigest ys
      → next_level sha256 xs ≡ next_level sha256 ys
      → Collision (paired xs) (paired ys) ⊎ (xs ≡ ys)
  unfolding next_level
  same_level [] [] l dx dy e = inr refl
  same_level [] (y ∷ ys) l dx dy e = absurd (omega (arith, l))
  same_level (x ∷ xs) [] l dx dy e = absurd (omega (arith, l))
  same_level (x ∷ []) (y ∷ []) l dx dy e =
      elim (same_pair x y x y [] [] dx.0 dy.0 (head-eq_of_cons-eq e)) [
        | inl broken ↦ inl broken
        | inr (same, same') ↦ inr (ap (λ z. z ∷ []) same)
      ]
  same_level (x ∷ []) (y ∷ z ∷ ys) l dx dy e = absurd (omega (arith, l))
  same_level (x ∷ z ∷ xs) (y ∷ []) l dx dy e = absurd (omega (arith, l))
  same_level (a ∷ x ∷ xs) (b ∷ y ∷ ys) l dx dy e =
      let rests = same_level xs ys (omega (arith, l)) dx.1.1 dy.1.1 (tail-eq_of_cons-eq e) in
      elim (same_pair a b x y (paired xs) (paired ys) dx.0 dy.0 (head-eq_of_cons-eq e)) [
        | inl broken ↦ inl broken
        | inr (same, same') ↦ elim rests [
          | inl broken ↦
              inl (larger (paired xs) (paired ys) _ _ (λ s m. inr m) (λ t m. inr m) broken)
          | inr same_rest ↦ inr (ap₂ ◌∷◌ same (ap₂ ◌∷◌ same' same_rest))
        ]
      ]

  All-next_level :
      (digests : (s : String) → IsDigest (sha256 s)) (xs : List String)
      → All IsDigest (next_level sha256 xs)
  unfolding next_level
  All-next_level digests [] = tt
  All-next_level digests (x ∷ []) = (digests (x ++ x), tt)
  All-next_level digests (x ∷ y ∷ rest) = (digests (x ++ y), All-next_level digests rest)

  same_lengths :
      (xs ys : List String)
      → length xs ≡ length ys
      → length (next_level sha256 xs) ≡ length (next_level sha256 ys)
  unfolding next_level
  same_lengths [] [] l = refl
  same_lengths [] (y ∷ ys) l = absurd (omega (arith, l))
  same_lengths (x ∷ xs) [] l = absurd (omega (arith, l))
  same_lengths (x ∷ []) (y ∷ []) l = refl
  same_lengths (x ∷ []) (y ∷ z ∷ ys) l = absurd (omega (arith, l))
  same_lengths (x ∷ z ∷ xs) (y ∷ []) l = absurd (omega (arith, l))
  same_lengths (a ∷ x ∷ xs) (b ∷ y ∷ ys) l = ap suc (same_lengths xs ys (omega (arith, l)))

  merkle_from_inj :
      ((s : String) → IsDigest (sha256 s))
      → (n : ℕ) (xs ys : List String) → length xs ≤ n
      → length xs ≡ length ys
      → All IsDigest xs
      → All IsDigest ys
      → merkle_from sha256 n xs ≡ merkle_from sha256 n ys
      → Collision (hashed_texts n xs) (hashed_texts n ys) ⊎ (xs ≡ ys)
  unfolding merkle_from
  merkle_from_inj digests n [] [] h l dx dy e = inr refl
  merkle_from_inj digests n [] (y ∷ ys) h l dx dy e = absurd (omega (arith, l))
  merkle_from_inj digests n (x ∷ xs) [] h l dx dy e = absurd (omega (arith, l))
  merkle_from_inj digests n (x ∷ []) (y ∷ []) h l dx dy e = inr (ap (λ z. z ∷ []) e)
  merkle_from_inj digests n (x ∷ []) (y ∷ z ∷ ys) h l dx dy e = absurd (omega (arith, l))
  merkle_from_inj digests n (x ∷ z ∷ xs) (y ∷ []) h l dx dy e = absurd (omega (arith, l))
  merkle_from_inj digests zero (a ∷ x ∷ xs) (b ∷ y ∷ ys) h l dx dy e = absurd (omega (arith, h))
  merkle_from_inj digests (suc n) (a ∷ x ∷ xs) (b ∷ y ∷ ys) h l dx dy e =
      let above =
        merkle_from_inj digests n (next_level sha256 (a ∷ x ∷ xs)) (next_level sha256 (b ∷ y ∷ ys))
          (omega (arith, h, length-next_level sha256 (a ∷ x ∷ xs)))
          (same_lengths (a ∷ x ∷ xs) (b ∷ y ∷ ys) l) (All-next_level digests (a ∷ x ∷ xs))
          (All-next_level digests (b ∷ y ∷ ys)) e in
      let below = paired (a ∷ x ∷ xs) in
      let below' = paired (b ∷ y ∷ ys) in
      elim above [
        | inl broken ↦ inl (
            larger (hashed_texts n (next_level sha256 (a ∷ x ∷ xs)))
              (hashed_texts n (next_level sha256 (b ∷ y ∷ ys))) _ _
              (λ s m.
                Member-append_right s below (hashed_texts n (map sha256 below))
                  (rw (next_level-paired (a ∷ x ∷ xs)) at m))
              (λ t m.
                Member-append_right t below' (hashed_texts n (map sha256 below'))
                  (rw (next_level-paired (b ∷ y ∷ ys)) at m))
              broken)
        | inr same ↦ elim (same_level (a ∷ x ∷ xs) (b ∷ y ∷ ys) l dx dy same) [
          | inl broken ↦ inl (
              larger below below' _ _ (λ s m. Member-append s below _ m)
                (λ t m. Member-append t below' _ m) broken)
          | inr equal ↦ inr equal
        ]
      ]

  -- Where every digest has 64 characters: two batches of one size whose hashes have 64 characters
  -- each and that have one root are the same batch, in the same order; or else one of the texts
  -- that are hashed on the way to the one root and a different one of those for the other have one
  -- digest.
  pub same_root_same_batch :
      ((s : String) → IsDigest (sha256 s))
      → (xs ys : List String) → length xs ≡ length ys
      → All IsDigest xs
      → All IsDigest ys
      → build_merkle_root sha256 xs ≡ build_merkle_root sha256 ys
      → Collision (hashed_texts (length xs) xs) (hashed_texts (length ys) ys) ⊎ (xs ≡ ys)
  unfolding build_merkle_root
  same_root_same_batch digests xs ys l dx dy e = rw (← l) (
      merkle_from_inj digests (length xs) xs ys (omega arith) l dx dy
        (e ∙ ap (λ n. merkle_from sha256 n ys) (sym l)))
