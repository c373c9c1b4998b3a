-- ===== src/AuditChain/Tamper.antt =====
-- What the hash chain fixes: two journals that pass the audit with one last hash hold the same
-- entries, or they exhibit a break of the hash function.
use mathlib.Core.List.{append-nil}
use sentinelai_v.Prelude.{
  String, ◌≡◌, ◌≢◌, refl, sym, ap, ◌∙◌, subst, List, [], ◌∷◌, ◌++◌, map, ◌==◌, eq_iff, arith,
  Bool-cases, inl, inr, ◌⊎◌, All, none,
}
use sentinelai_v.Prelude.Text.{join_bar_inj, BarFree}
use sentinelai_v.Database.{AuditRow}
use sentinelai_v.AuditChain.{genesis_hash, data_to_hash, last_hash, verify_from}
use sentinelai_v.AuditChain.Intact.{IsVerified, head_from, head_from-cons}

-- A row without its number, which the hash does not cover.
pub record Entry : Type 0 where
  pub tx_id : String
  pub action : String
  pub payload : String
  pub prev_hash : String
  pub current_hash : String

abbrev pub entry_of : AuditRow → Entry
entry_of row = record {
  tx_id = row.tx_id;
  action = row.action;
  payload = row.payload;
  prev_hash = row.prev_hash;
  current_hash = row.current_hash;
}

-- The two fields before the payload hold no "|": identifiers are UUIDs and actions are constants.
pub record IsDelimited (row : AuditRow) : Type 0 where
  pub tx_id_free : BarFree row.tx_id
  pub action_free : BarFree row.action

abbrev hashed : AuditRow → String
hashed row = data_to_hash row.prev_hash row.tx_id row.action row.payload

module _ {A : Type 0} where
  abbrev rev_onto : List A → List A → List A
  rev_onto [] acc = acc
  rev_onto (x ∷ xs) acc = rev_onto xs (x ∷ acc)

  rev_onto-rev_onto : (xs acc ys : List A) → rev_onto (rev_onto xs acc) ys ≡ rev_onto acc (xs ++ ys)
  rev_onto-rev_onto [] acc ys = refl
  rev_onto-rev_onto (x ∷ xs) acc ys = rev_onto-rev_onto xs (x ∷ acc) ys

  rev_onto_inj : (xs ys : List A) → rev_onto xs [] ≡ rev_onto ys [] → xs ≡ ys
  rev_onto_inj xs ys e =
      sym (append-nil xs)
      ∙ sym (rev_onto-rev_onto xs [] [])
      ∙ ap (λ l. rev_onto l []) e
      ∙ rev_onto-rev_onto ys [] []
      ∙ append-nil ys

All-rev_onto :
    (P : AuditRow → Type 0) (xs acc : List AuditRow)
    → All P xs
    → All P acc
    → All P (rev_onto xs acc)
All-rev_onto P [] acc hx ha = ha
All-rev_onto P (x ∷ xs) acc hx ha = All-rev_onto P xs (x ∷ acc) hx.1 (hx.0, ha)

map-rev_onto :
    (xs acc : List AuditRow)
    → map entry_of (rev_onto xs acc) ≡ rev_onto (map entry_of xs) (map entry_of acc)
map-rev_onto [] acc = refl
map-rev_onto (x ∷ xs) acc = map-rev_onto xs (x ∷ acc)

genesis_free : BarFree genesis_hash
genesis_free = ground arith

hashed_inj :
    (x y : AuditRow)
    → BarFree x.prev_hash
    → BarFree y.prev_hash
    → IsDelimited x
    → IsDelimited y
    → hashed x ≡ hashed y
    → (x.prev_hash ≡ y.prev_hash)
      × (x.tx_id ≡ y.tx_id)
      × (x.action ≡ y.action)
      × (x.payload ≡ y.payload)
hashed_inj x y px py dx dy e =
    let (same_prev, rest) = join_bar_inj _ _ _ _ px py e in
    let (same_tx, rest') = join_bar_inj _ _ _ _ dx.tx_id_free dy.tx_id_free rest in
    let (same_action, same_payload) = join_bar_inj _ _ _ _ dx.action_free dy.action_free rest' in
    (same_prev, same_tx, same_action, same_payload)

entry_path :
    (x y : AuditRow)
    → (x.prev_hash ≡ y.prev_hash)
      × (x.tx_id ≡ y.tx_id)
      × (x.action ≡ y.action)
      × (x.payload ≡ y.payload)
    → x.current_hash ≡ y.current_hash
    → entry_of x ≡ entry_of y
entry_path x y (prev, tx, action, payload) current = λ i. record {
  tx_id = tx i;
  action = action i;
  payload = payload i;
  prev_hash = prev i;
  current_hash = current i;
}

module _ (sha256 : String → String) where
  -- Two texts with one digest, or a text whose digest is the genesis hash.
  pub data Break : Type 0 where
    collision : (s t : String) → s ≢ t → sha256 s ≡ sha256 t → Break
    genesis_preimage : (s : String) → sha256 s ≡ genesis_hash → Break

  -- The chain read backwards from its head, the newest row first.
  abbrev Chain : List AuditRow → String → Type 0
  Chain [] h = h ≡ genesis_hash
  Chain (r ∷ rs) h = (r.current_hash ≡ h) × (sha256 (hashed r) ≡ h) × Chain rs r.prev_hash

  Chain-verify_from :
      (e : String) (xs acc : List AuditRow)
      → verify_from sha256 e xs ≡ none
      → Chain acc e
      → Chain (rev_onto xs acc) (head_from e xs)
  unfolding verify_from
  Chain-verify_from e [] acc h c = c
  Chain-verify_from e (x ∷ xs) acc h c = rw head_from-cons (
      Chain-verify_from x.current_hash xs (x ∷ acc) (ground arith)
        (refl, ground (arith, eq_iff (sha256 (hashed x)) x.current_hash), rw (rest_linked) c))
    where
      rest_linked : x.prev_hash ≡ e
      rest_linked = ground (arith, eq_iff x.prev_hash e)

  cons_same :
      (x y : AuditRow) (xs ys : List AuditRow)
      → entry_of x ≡ entry_of y
      → Break ⊎ (map entry_of xs ≡ map entry_of ys)
      → Break ⊎ (map entry_of (x ∷ xs) ≡ map entry_of (y ∷ ys))
  cons_same x y xs ys e (inl broken) = inl broken
  cons_same x y xs ys e (inr same) = inr (λ i. e i ∷ same i)

  module _ (hex : (t : String) → BarFree (sha256 t)) where
    Chain-BarFree : (rs : List AuditRow) (h : String) → Chain rs h → BarFree h
    Chain-BarFree [] h c = subst BarFree (sym c) genesis_free
    Chain-BarFree (r ∷ rs) h c = subst BarFree c.1 (hex (hashed r))

    Chain-same :
        (xs ys : List AuditRow) (h : String)
        → Chain xs h
        → Chain ys h
        → All IsDelimited xs
        → All IsDelimited ys
        → Break ⊎ (map entry_of xs ≡ map entry_of ys)
    Chain-same [] [] h cx cy dx dy = inr refl
    Chain-same [] (y ∷ ys) h cx cy dx dy = inl (genesis_preimage (hashed y) (cy.1 ∙ cx))
    Chain-same (x ∷ xs) [] h cx cy dx dy = inl (genesis_preimage (hashed x) (cx.1 ∙ cy))
    Chain-same (x ∷ xs) (y ∷ ys) h cx cy dx dy = elim (Bool-cases (hashed x == hashed y)) [
      | inl same ↦
          let parts =
            hashed_inj x y (Chain-BarFree xs x.prev_hash cx.2) (Chain-BarFree ys y.prev_hash cy.2)
              dx.0 dy.0 ((eq_iff (hashed x) (hashed y)).0 same) in
          cons_same x y xs ys (entry_path x y parts (cx.0 ∙ sym cy.0))
            (Chain-same xs ys x.prev_hash cx.2 (subst (Chain ys) (sym parts.0) cy.2) dx.1 dy.1)
      | inr differ ↦ inl (
          collision (hashed x) (hashed y) (λ e. cc (differ, (eq_iff (hashed x) (hashed y)).1 e))
            (cx.1 ∙ sym cy.1))
    ]

    -- Two journals that pass the audit and end in one hash have the same entries, in the same order
    -- and number, field by field, row numbers aside; or else they show two texts with one digest or
    -- a text whose digest is the genesis hash. Digests, identifiers and actions hold no "|".
    pub journals_agree :
        (rows rows' : List AuditRow)
        → IsVerified sha256 rows
        → IsVerified sha256 rows'
        → All IsDelimited rows
        → All IsDelimited rows'
        → last_hash rows ≡ last_hash rows'
        → Break ⊎ (map entry_of rows ≡ map entry_of rows')
    unfolding last_hash
    journals_agree rows rows' v v' d d' e =
        elim (Chain-same (rev_onto rows []) (rev_onto rows' []) (last_hash rows)
          (Chain-verify_from genesis_hash rows [] v refl)
          (subst (Chain (rev_onto rows' [])) (sym e)
            (Chain-verify_from genesis_hash rows' [] v' refl))
          (All-rev_onto IsDelimited rows [] d tt) (All-rev_onto IsDelimited rows' [] d' tt)) [
            | inl broken ↦ inl broken
            | inr same ↦
                inr (rev_onto_inj _ _ (sym (map-rev_onto rows []) ∙ same ∙ map-rev_onto rows' []))
          ]
