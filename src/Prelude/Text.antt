-- ===== src/Prelude/Text.antt =====
-- f-strings that join fields by a mark, and when such a text determines its fields.
use Prim.Native.Char.{Char, code}
use Prim.Native.Nat.{zero, ◌+◌}
use Prim.Native.String.{String, ◌++◌, len, slice}
use mathlib.Core.Path.{◌≡◌, refl, sym, ap, ◌∙◌}
use mathlib.Core.Logic.{◌≢◌}
use text.Mathlib.TextPositions.{slice-append_left, slice-append_right, len-append}
use text.Mathlib.TextLemmas.{
  append_assoc, nil-append, cons-append, head-eq_of_cons-eq, tail-eq_of_cons-eq,
}

module _ (mark : Char) where
  -- f"{a}|{b}", with the mark for the bar
  abbrev pub join_by : String → String → String
  join_by a b = a ++ (String.◌∷◌ mark "" ++ b)

  -- A text without the mark.
  abbrev pub IsFree : String → Type 0
  IsFree String.[] = Unit
  IsFree (String.◌∷◌ c s) = (code c ≢ code mark) × IsFree s

  mark-append : (x : String) → String.◌∷◌ mark "" ++ x ≡ String.◌∷◌ mark x
  mark-append x = cons-append mark "" x ∙ ap (String.◌∷◌ mark) (nil-append x)

  join_by-nil : (x : String) → join_by "" x ≡ String.◌∷◌ mark x
  join_by-nil x = nil-append (String.◌∷◌ mark "" ++ x) ∙ mark-append x

  join_by-cons : (c : Char) (a x : String) → join_by (String.◌∷◌ c a) x ≡ String.◌∷◌ c (join_by a x)
  join_by-cons c a x = cons-append c a (String.◌∷◌ mark "" ++ x)

  -- Up to its first mark a text is determined.
  pub join_by_inj :
      (a b x y : String) → IsFree a → IsFree b → join_by a x ≡ join_by b y → (a ≡ b) × (x ≡ y)
  join_by_inj String.[] String.[] x y ha hb e =
      (refl, tail-eq_of_cons-eq (sym (join_by-nil x) ∙ e ∙ join_by-nil y))
  join_by_inj String.[] (String.◌∷◌ d b) x y ha hb e =
      absurd
        (hb.0 (ap code (sym (head-eq_of_cons-eq (sym (join_by-nil x) ∙ e ∙ join_by-cons d b y)))))
  join_by_inj (String.◌∷◌ c a) String.[] x y ha hb e =
      absurd (ha.0 (ap code (head-eq_of_cons-eq (sym (join_by-cons c a x) ∙ e ∙ join_by-nil y))))
  join_by_inj (String.◌∷◌ c a) (String.◌∷◌ d b) x y ha hb e =
      let e' : String.◌∷◌ c (join_by a x) ≡ String.◌∷◌ d (join_by b y) =
        sym (join_by-cons c a x) ∙ e ∙ join_by-cons d b y in
      let (p, q) = join_by_inj a b x y ha.1 hb.1 (tail-eq_of_cons-eq e') in
      (λ i. String.◌∷◌ (head-eq_of_cons-eq e' i) (p i), q)

  pub join_by_assoc : (a b c : String) → join_by (join_by a b) c ≡ join_by a (join_by b c)
  join_by_assoc a b c =
      append_assoc a (String.◌∷◌ mark "" ++ b) (String.◌∷◌ mark "" ++ c)
      ∙ ap (λ t. a ++ t) (append_assoc (String.◌∷◌ mark "") b (String.◌∷◌ mark "" ++ c))

-- f"{a}|{b}"
abbrev pub join_bar : String → String → String
join_bar = join_by "|"

abbrev pub BarFree : String → Type 0
BarFree = IsFree "|"

pub join_bar_inj :
    (a b x y : String) → BarFree a → BarFree b → join_bar a x ≡ join_bar b y → (a ≡ b) × (x ≡ y)
join_bar_inj = join_by_inj "|"

pub join_bar_assoc : (a b c : String) → join_bar (join_bar a b) c ≡ join_bar a (join_bar b c)
join_bar_assoc = join_by_assoc "|"

-- f"{a}:{b}"
abbrev pub join_colon : String → String → String
join_colon = join_by ":"

abbrev pub ColonFree : String → Type 0
ColonFree = IsFree ":"

-- Texts joined without a mark are determined where the first parts are of one length.
pub append_inj : (a b x y : String) → len a ≡ len b → a ++ x ≡ b ++ y → (a ≡ b) × (x ≡ y)
append_inj a b x y same e =
    let heads : a ≡ b =
      sym (slice-append_left a x)
      ∙ ap (λ n. slice (a ++ x) zero n) same
      ∙ ap (λ s. slice s zero (len b)) e
      ∙ slice-append_left b y in
    let total : len a + len x ≡ len b + len y = sym (len-append a x) ∙ ap len e ∙ len-append b y in
    let rests : x ≡ y =
      sym (slice-append_right a x)
      ∙ ap (λ n. slice (a ++ x) n (len a + len x)) same
      ∙ ap (λ n. slice (a ++ x) (len b) n) total
      ∙ ap (λ s. slice s (len b) (len b + len y)) e
      ∙ slice-append_right b y in
    (heads, rests)
