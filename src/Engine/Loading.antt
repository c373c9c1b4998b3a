-- ===== src/Engine/Loading.antt =====
-- What a load of core/sentinel-core/src/store.rs makes of a list of policies.
use sentinelai_v.Prelude.{
  String, ◌≡◌, refl, sym, ap, subst, ◌∙◌, inl, inr, false, Bool-cases, Option, none, some, List, [],
  ◌∷◌, ◌++◌, ◌==◌, eq_iff, if◌then◌else◌, length, arith,
}
use mathlib.Core.List.{append-nil, append_assoc}
use sentinelai_v.Prelude.Result.{ok, err, Exception}
use sentinelai_v.Engine.{
  Policy, PolicyConfig, ToolEntry, get_policies, push_policy, collect, load_from_file,
}

-- The policies of a tool, in the order of the file.
abbrev pub for_tool : String → List Policy → List Policy
for_tool tool [] = []
for_tool tool (p ∷ ps) = if p.tool_name == tool then p ∷ for_tool tool ps else for_tool tool ps

-- What the map holds for a tool: nothing where no policy is for it.
abbrev pub some_if_any : List Policy → Option (List Policy)
some_if_any [] = none
some_if_any (p ∷ ps) = some (p ∷ ps)

abbrev extended : Option (List Policy) → List Policy → Option (List Policy)
extended none ps = some_if_any ps
extended (some qs) ps = some (qs ++ ps)

extended-nil : (o : Option (List Policy)) → extended o [] ≡ o
extended-nil none = refl
extended-nil (some qs) = ap some (append-nil qs)

extended-extended :
    (o : Option (List Policy)) (p : Policy) (ps : List Policy)
    → extended (extended o (p ∷ [])) ps ≡ extended o (p ∷ ps)
extended-extended none p ps = refl
extended-extended (some qs) p ps = ap some (append_assoc qs (p ∷ []) ps)

push_policy-own :
    (p : Policy) (m : List ToolEntry)
    → get_policies p.tool_name (push_policy p m) ≡ extended (get_policies p.tool_name m) (p ∷ [])
unfolding push_policy get_policies
push_policy-own p [] = ground (arith, eq_iff p.tool_name p.tool_name)
push_policy-own p (e ∷ rest) = elim (Bool-cases (e.tool == p.tool_name)) [
  | inl hit ↦ rw hit (rw hit refl)
  | inr miss ↦ rw miss (rw miss (push_policy-own p rest))
]

push_policy-other :
    (p : Policy) (tool : String) (m : List ToolEntry)
    → (p.tool_name == tool) ≡ false
    → get_policies tool (push_policy p m) ≡ get_policies tool m
unfolding push_policy get_policies
push_policy-other p tool [] other = rw other refl
push_policy-other p tool (e ∷ rest) other = elim (Bool-cases (e.tool == p.tool_name)) [
  | inl hit ↦
      let elsewhere : (e.tool == tool) ≡ false =
        ap (λ t. t == tool) ((eq_iff e.tool p.tool_name).0 hit) ∙ other in
      rw (hit, elsewhere) refl
  | inr miss ↦ rw miss (
      ap (λ o. if e.tool == tool then some e.policies else o) (push_policy-other p tool rest other))
]

collect-extended :
    (tool : String) (ps : List Policy) (m : List ToolEntry)
    → get_policies tool (collect ps m) ≡ extended (get_policies tool m) (for_tool tool ps)
unfolding collect
collect-extended tool [] m = sym (extended-nil (get_policies tool m))
collect-extended tool (p ∷ ps) m = elim (Bool-cases (p.tool_name == tool)) [
  | inl hit ↦
      let same = (eq_iff p.tool_name tool).0 hit in
      collect-extended tool ps (push_policy p m)
      ∙ ap (λ o. extended o (for_tool tool ps))
          (subst (λ t. get_policies t (push_policy p m) ≡ extended (get_policies t m) (p ∷ [])) same
            (push_policy-own p m))
      ∙ rw hit (extended-extended (get_policies tool m) p (for_tool tool ps))
  | inr miss ↦
      collect-extended tool ps (push_policy p m) ∙ rw (push_policy-other p tool m miss, miss) refl
]

-- A load that succeeds counts the policies of the file and makes the store hold, for every tool, the
-- policies of the file that are for it, in their order, and nothing of what it held before; one that
-- fails changes nothing.
pub load_from_file-groups :
    (config : PolicyConfig) (e : Exception) (tool : String) (before : List ToolEntry)
    → let loaded = load_from_file (ok config) before in
      (loaded.0 ≡ ok (length config.policies))
      × (get_policies tool loaded.1 ≡ some_if_any (for_tool tool config.policies))
      × (load_from_file (err e) before ≡ (err e, before))
unfolding load_from_file get_policies
load_from_file-groups config e tool before = (refl, collect-extended tool config.policies [], refl)
