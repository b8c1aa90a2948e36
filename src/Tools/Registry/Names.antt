-- ===== src/Tools/Registry/Names.antt =====
-- No two tools of the registry share a name (services/tools/registry.py).
use cyber_tracker_ai.Base.{
  ℕ, String, ◌≡◌, ◌≢◌, refl, ap, sym, ◌∙◌, none, some, List, [], ◌∷◌, ◌==◌, nat_eq, string_eq,
  arith, Bool-cases, Option-cases, inl, inr,
}
use mathlib.Core.Path.{subst}
use cyber_tracker_ai.Base.Dict.{Dict, get, put, get-put}
use cyber_tracker_ai.Base.Text.{Text, text_eq, text_beq_iff}
use cyber_tracker_ai.Base.Result.{Result, ok}
use cyber_tracker_ai.Tools.Verification.{ToolRecord, TrustStatus, VerificationResult}
use cyber_tracker_ai.Tools.Registry.{
  ToolRegistry, RegistryError, values, get_by_name, create, change, update_trust_status,
  record_verification,
}

-- A call that changes the registry.
pub data Call : Type 0 where
  creates : ToolRecord → Call
  sets_status : ℕ → TrustStatus → Call
  records : ℕ → Dict String VerificationResult → Call

unfoldable pub step : Call → ToolRegistry → ToolRegistry
step (creates tool) r = (create tool r).1
step (sets_status id status) r = (update_trust_status id status r).1
step (records id report) r = (record_verification id report r).1

unfoldable pub run : List Call → ToolRegistry → ToolRegistry
run [] r = r
run (c ∷ cs) r = run cs (step c r)

-- Every tool stands under its identifier, and tools of the same name are the same.
pub record IsNamed (r : ToolRegistry) : Type 0 where
  pub keyed : (i : ℕ) (t : ToolRecord) → get r i ≡ some t → t.id ≡ i
  pub named :
      (i j : ℕ) (t u : ToolRecord) → get r i ≡ some t → get r j ≡ some u → t.name ≡ u.name → i ≡ j

-- A name that is not found belongs to no tool.
get_by_name-none :
    (name : Text) (r : ToolRegistry) (i : ℕ) (t : ToolRecord)
    → get_by_name name r ≡ none
    → get r i ≡ some t
    → t.name ≢ name
unfolding get_by_name values get
get_by_name-none name [] i t h k e = cc
get_by_name-none name ((j, u) ∷ r) i t h k e = elim (Bool-cases (j == i)) [
  | inl here ↦ ground (arith, here, h, k, e, text_beq_iff u.name name)
  | inr later ↦ get_by_name-none name r i t (ground (arith, h)) (ground (arith, later, k)) e
]

create-free :
    (tool : ToolRecord) (r : ToolRegistry)
    → get_by_name tool.name r ≡ none
    → create tool r ≡ (ok tool, put r tool.id tool)
unfolding create
create-free tool r free = ground (arith, free)

create-taken :
    (tool : ToolRecord) (r : ToolRegistry) (t : ToolRecord)
    → get_by_name tool.name r ≡ some t
    → (create tool r).1 ≡ r
unfolding create
create-taken tool r t taken = ground (arith, taken)

put-IsNamed :
    (tool : ToolRecord) (r : ToolRegistry)
    → ((j : ℕ) (u : ToolRecord) → get r j ≡ some u → j ≢ tool.id → u.name ≢ tool.name)
    → IsNamed r
    → IsNamed (put r tool.id tool)
put-IsNamed tool r new n = record {
  keyed = λ i t h. ground (arith, h, get-put r tool.id i tool, n.keyed i t);
  named = λ i j t u h k e. ground (
    arith,
    h,
    k,
    e,
    get-put r tool.id i tool,
    get-put r tool.id j tool,
    n.named i j t u,
    new i t,
    new j u,
  );
}

create-IsNamed : (tool : ToolRecord) (r : ToolRegistry) → IsNamed r → IsNamed (create tool r).1
create-IsNamed tool r n = elim (Option-cases (get_by_name tool.name r)) [
  | inl free ↦
      subst IsNamed
        (sym (
          ap (λ (p : Result RegistryError ToolRecord × ToolRegistry). p.1)
            (create-free tool r free)))
        (put-IsNamed tool r (λ j u here other. get_by_name-none tool.name r j u free here) n)
  | inr (t, taken) ↦ subst IsNamed (sym (create-taken tool r t taken)) n
]

change-IsNamed :
    (id : ℕ) (f : ToolRecord → ToolRecord) (r : ToolRegistry)
    → ((t : ToolRecord) → ((f t).id ≡ t.id) × ((f t).name ≡ t.name))
    → IsNamed r
    → IsNamed (change id f r).1
unfolding change
change-IsNamed id f r same n = elim (Option-cases (get r id)) [
  | inl missing ↦ rw (missing, change) n
  | inr (t, here) ↦
      rw (here, change)
        (let keyed : (f t).id ≡ id = (same t).0 ∙ n.keyed id t here in
          subst (λ k. IsNamed (put r k (f t))) keyed
            (put-IsNamed (f t) r
              (λ j u there other e.
                other (n.named j id u t there here (e ∙ (same t).1) ∙ sym keyed))
              n))
]

step-IsNamed : (c : Call) (r : ToolRegistry) → IsNamed r → IsNamed (step c r)
unfolding step update_trust_status record_verification
step-IsNamed (creates tool) r n = create-IsNamed tool r n
step-IsNamed (sets_status id status) r n =
    change-IsNamed id (λ t. record t { trust_status = status }) r (λ t. (refl, refl)) n
step-IsNamed (records id report) r n =
    change-IsNamed id (λ t. record t { verification = report }) r (λ t. (refl, refl)) n

run_from : (calls : List Call) (r : ToolRegistry) → IsNamed r → IsNamed (run calls r)
unfolding run
run_from [] r n = n
run_from (c ∷ cs) r n = run_from cs (step c r) (step-IsNamed c r n)

-- From an empty registry, after any calls: every tool stands under its own identifier, and no two
-- identifiers have tools of the same name.
pub run-IsNamed : (calls : List Call) → IsNamed (run calls [])
run-IsNamed calls = run_from calls [] (record {
  keyed = λ i t h. absurd (unfold get in cc);
  named = λ i j t u h k e. absurd (unfold get in cc);
})
