-- ===== src/Prelude/Lists.antt =====
-- Lists under the library's names over the native numbers, and predicates on lists by recursion.
use Prim.Native.Nat.{ℕ, suc, ◌+◌}
use Prim.Native.String.{String}
use mathlib.Core.Path.{◌≡◌, refl, sym, ap, ◌∙◌, subst}
use mathlib.Core.Bool.{Bool, true}
use mathlib.Core.Logic.{◌≢◌, ◌⊎◌, inl, inr}
use mathlib.Core.Option.{Option, none, some}
use mathlib.Core.List.{List, [], ◌∷◌, ◌++◌, map}
use mathlib.Core.Option.{some-injective}
use native.Mathlib.Omega.{arith}
use sentinelai_v.Prelude.Compare.{if◌then◌else◌, Bool-cases}

module _ {ℓ} {A : Type ℓ} where
  abbrev pub length : List A → ℕ
  length [] = 0
  length (x ∷ xs) = suc (length xs)

  -- The first element that passes a test: `fetchone` of a filtered `SELECT`.
  abbrev pub find? : (A → Bool) → List A → Option A
  find? p [] = none
  find? p (x ∷ xs) = if p x then some x else find? p xs

  abbrev pub get_last? : List A → Option A
  get_last? [] = none
  get_last? (x ∷ []) = some x
  get_last? (x ∷ y ∷ ys) = get_last? (y ∷ ys)

  abbrev pub All {κ} : (A → Type κ) → List A → Type κ
  All P [] = Unit
  All P (x ∷ xs) = P x × All P xs

  pub get_last?-snoc : (xs : List A) (x : A) → get_last? (xs ++ x ∷ []) ≡ some x
  get_last?-snoc [] x = refl
  get_last?-snoc (y ∷ []) x = refl
  get_last?-snoc (y ∷ z ∷ zs) x = get_last?-snoc (z ∷ zs) x

  pub length-append : (xs ys : List A) → length (xs ++ ys) ≡ length xs + length ys
  length-append [] ys = omega arith
  length-append (x ∷ xs) ys = omega (arith, length-append xs ys)

module _ {A : Type 0} where
  abbrev pub Member : A → List A → Type 0
  Member a [] = ⊥
  Member a (x ∷ xs) = (a ≡ x) ⊎ Member a xs

  -- No two rows have one key: a column that is a primary key or UNIQUE.
  abbrev pub DistinctBy : (A → String) → List A → Type 0
  DistinctBy key [] = Unit
  DistinctBy key (x ∷ xs) = All (λ y. key y ≢ key x) xs × DistinctBy key xs

module _ {A : Type 0} where
  pub All-Member {κ} : (P : A → Type κ) (a : A) (xs : List A) → All P xs → Member a xs → P a
  All-Member P a [] h m = absurd m
  All-Member P a (x ∷ xs) h (inl e) = subst P (sym e) h.0
  All-Member P a (x ∷ xs) h (inr m) = All-Member P a xs h.1 m

  pub All-append {κ} : (P : A → Type κ) (xs ys : List A) → All P xs → All P ys → All P (xs ++ ys)
  All-append P [] ys hx hy = hy
  All-append P (x ∷ xs) ys hx hy = (hx.0, All-append P xs ys hx.1 hy)

  pub All-map {κ μ} :
      (P : A → Type κ) (Q : A → Type μ) (xs : List A) → ((a : A) → P a → Q a) → All P xs → All Q xs
  All-map P Q [] f h = tt
  All-map P Q (x ∷ xs) f h = (f x h.0, All-map P Q xs f h.1)

  pub find?-Member :
      (p : A → Bool) (xs : List A) {a : A} → find? p xs ≡ some a → Member a xs × (p a ≡ true)
  find?-Member p [] h = cc
  find?-Member p (x ∷ xs) {a} h = elim (Bool-cases (p x)) [
    | inl hit ↦
        let e : x ≡ a = some-injective _ _ (rw hit at h) in
        (inl (sym e), subst (λ y. p y ≡ true) e hit)
    | inr miss ↦ let ih = find?-Member p xs (rw miss at h) in (inr ih.0, ih.1)
  ]

  -- Where a key is unique, the row that passes the test and is alone with its key is the one found.
  pub find?-unique :
      (p : A → Bool) (key : A → String) (xs : List A) (a : A)
      → DistinctBy key xs
      → Member a xs
      → p a ≡ true
      → ((y : A) → p y ≡ true → key y ≡ key a)
      → find? p xs ≡ some a
  find?-unique p key [] a d m h same = absurd m
  find?-unique p key (x ∷ xs) a d (inl e) h same = rw (← e, h)
  find?-unique p key (x ∷ xs) a d (inr m) h same = elim (Bool-cases (p x)) [
    | inl hit ↦ absurd (All-Member (λ y. key y ≢ key x) a xs d.0 m (sym (same x hit)))
    | inr miss ↦ rw miss (find?-unique p key xs a d.1 m h same)
  ]

module _ {A : Type 0} where
  pub Member-append : (a : A) (xs ys : List A) → Member a xs → Member a (xs ++ ys)
  Member-append a [] ys m = absurd m
  Member-append a (x ∷ xs) ys (inl e) = inl e
  Member-append a (x ∷ xs) ys (inr m) = inr (Member-append a xs ys m)

  pub Member-snoc : (a : A) (xs : List A) → Member a (xs ++ a ∷ [])
  Member-snoc a [] = inl refl
  Member-snoc a (x ∷ xs) = inr (Member-snoc a xs)

  pub All-map_list {κ} :
      (P : A → Type κ) (f : A → A) (xs : List A) → All (λ x. P (f x)) xs → All P (map f xs)
  All-map_list P f [] h = tt
  All-map_list P f (x ∷ xs) h = (h.0, All-map_list P f xs h.1)

  pub DistinctBy-snoc :
      (key : A → String) (xs : List A) (a : A)
      → DistinctBy key xs
      → All (λ y. key y ≢ key a) xs
      → DistinctBy key (xs ++ a ∷ [])
  DistinctBy-snoc key [] a d h = (tt, tt)
  DistinctBy-snoc key (x ∷ xs) a d h = (
    All-append (λ y. key y ≢ key x) xs (a ∷ []) d.0 ((λ e. h.0 (sym e)), tt),
    DistinctBy-snoc key xs a d.1 h.1,
  )

  pub Member-append_right : (a : A) (xs ys : List A) → Member a ys → Member a (xs ++ ys)
  Member-append_right a [] ys m = m
  Member-append_right a (x ∷ xs) ys m = inr (Member-append_right a xs ys m)

  pub Member-map : (f : A → A) (a : A) (xs : List A) → Member a xs → Member (f a) (map f xs)
  Member-map f a [] m = absurd m
  Member-map f a (x ∷ xs) (inl e) = inl (ap f e)
  Member-map f a (x ∷ xs) (inr m) = inr (Member-map f a xs m)

  -- A change of other fields keeps a key unique.
  pub DistinctBy-map :
      (key : A → String) (f : A → A) (xs : List A)
      → ((x : A) → key (f x) ≡ key x)
      → DistinctBy key xs
      → DistinctBy key (map f xs)
  DistinctBy-map key f [] same d = tt
  DistinctBy-map key f (x ∷ xs) same d = (
    All-map_list (λ y. key y ≢ key (f x)) f xs
        (All-map (λ y. key y ≢ key x) (λ y. key (f y) ≢ key (f x)) xs
          (λ y ne e. ne (sym (same y) ∙ e ∙ same x)) d.0),
    DistinctBy-map key f xs same d.1,
  )
