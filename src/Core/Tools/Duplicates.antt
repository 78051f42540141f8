-- ===== src/Core/Tools/Duplicates.antt =====
-- Repeated calls of a tool that is not a read.
use mathlib.Core.Option.{some-injective}
use markting_call_center.Base.{
  String, string_eq, true, false, Option, some, none, List, [], ◌∷◌, Dict, get, has_key,
  has_key-put, is_some, ◌==◌, ◌≡◌, ◌≢◌, ap, ◌∙◌, sym, Bool-cases, inl, inr, beq_false, beq_refl,
}
use markting_call_center.Contracts.Tools.{
  ToolInvocation, ToolDeclaration, ToolOutcome, is_completed,
}
use markting_call_center.Core.Tools.{
  Wiring, Pipeline, Payload, remember, earlier, idempotency_key, payload, is_read, run, run_all,
  outcome_from,
}
use markting_call_center.Core.Tools.Cases.{run-Ends}

remember-has_key :
    (seen : Dict String ToolOutcome) (key : Option String) (out : ToolOutcome) (k : String)
    → has_key seen k ≡ true
    → has_key (remember seen key out) k ≡ true
unfolding remember
remember-has_key seen none out k h = h
remember-has_key seen (some key) out k h = elim (Bool-cases (key == "")) [
  | inl t ↦ rw t h
  | inr f ↦ rw f (
      rw (has_key-put seen key k out)
        (elim (Bool-cases (key == k)) [ inl t ↦ rw t | inr n ↦ rw n h ]))
]

remember_self :
    (seen : Dict String ToolOutcome) (out : ToolOutcome) (k : String)
    → k ≢ ""
    → has_key (remember seen (some k) out) k ≡ true
unfolding remember
remember_self seen out k n = rw (beq_false k "" n) (rw (has_key-put seen k k out, beq_refl k))

module _ (w : Wiring) where
  run-has_key :
      (p : Pipeline) (inv : ToolInvocation) (k : String)
      → has_key p.seen k ≡ true
      → has_key (run w p inv).0.seen k ≡ true
  run-has_key p inv k h = elim (run-Ends w inv p) [
    | inl quiet ↦ rw quiet.seen_kept h
    | inr done ↦
        rw done.remembered
          (elim (Bool-cases (is_completed (outcome_from inv (done.backend inv)).status)) [
            | inl t ↦ rw t (remember-has_key p.seen _ _ k h)
            | inr f ↦ rw f h
          ])
  ]

  run_all-has_key :
      (p : Pipeline) (invs : List ToolInvocation) (k : String)
      → has_key p.seen k ≡ true
      → has_key (run_all w p invs).seen k ≡ true
  unfolding run_all
  run_all-has_key p [] k h = h
  run_all-has_key p (inv ∷ invs) k h =
      run_all-has_key (run w p inv).0 invs k (run-has_key p inv k h)

  same_declaration :
      (tool_id : String) (d e : ToolDeclaration)
      → get w.declarations tool_id ≡ some d
      → get w.declarations tool_id ≡ some e
      → d ≡ e
  same_declaration tool_id d e p q = some-injective d e (sym p ∙ q)

  completed-has_key :
      (p : Pipeline) (inv : ToolInvocation) (decl : ToolDeclaration) (k : String)
      → get w.declarations inv.tool_id ≡ some decl
      → idempotency_key w.digest decl inv ≡ some k
      → k ≢ ""
      → is_completed (run w p inv).1.status ≡ true
      → has_key (run w p inv).0.seen k ≡ true
  completed-has_key p inv decl k d key n h = elim (run-Ends w inv p) [
    | inl quiet ↦ absurd (cc quiet.no_success)
    | inr done ↦
        let out = outcome_from inv (done.backend inv) in
        let same = same_declaration inv.tool_id done.decl decl done.authorized.declared d in
        elim (Bool-cases (is_completed out.status)) [
          | inl t ↦ rw done.remembered (
              rw t (
                rw (ap (λ c. idempotency_key w.digest c inv) same ∙ key)
                  (remember_self p.seen _ k n)))
          | inr f ↦ absurd (cc (rw (done.result, f) at h))
        ]
  ]

  earlier-some :
      (seen : Dict String ToolOutcome) (k : String)
      → k ≢ ""
      → has_key seen k ≡ true
      → earlier seen (some k) ≢ none
  unfolding earlier
  earlier-some seen k n h e = cc (rw (ap is_some (rw (beq_false k "" n) at e)) at h)

  -- Once a call that is no read has succeeded, a call of the same tool in the same session with the
  -- same identifying arguments is never executed again, however many calls came in between: it uses no
  -- budget and reports no success. The digest of a call is assumed never to be the empty text.
  pub run_once :
      (p : Pipeline) (inv later : ToolInvocation) (between : List ToolInvocation)
      (decl : ToolDeclaration)
      → ((session_id tool_id : String) (q : Payload) → w.digest session_id tool_id q ≢ "")
      → get w.declarations inv.tool_id ≡ some decl
      → is_read decl.impact ≡ false
      → is_completed (run w p inv).1.status ≡ true
      → later.session_id ≡ inv.session_id
      → later.tool_id ≡ inv.tool_id
      → payload decl later ≡ payload decl inv
      → let p' = run_all w (run w p inv).0 between in
        ((run w p' later).0.budget ≡ p'.budget) × (is_completed (run w p' later).1.status ≡ false)
  unfolding idempotency_key
  run_once p inv later between decl digests d writes done ses tool args =
      let p' = run_all w (run w p inv).0 between in
      let k = w.digest inv.session_id inv.tool_id (payload decl inv) in
      let n = digests inv.session_id inv.tool_id (payload decl inv) in
      let known =
        run_all-has_key (run w p inv).0 between k
          (completed-has_key p inv decl k d (rw writes) n done) in
      let same_key : idempotency_key w.digest decl later ≡ some k = rw writes (cc) in
      elim (run-Ends w later p') [
        | inl quiet ↦ (quiet.budget_kept, quiet.no_success)
        | inr again ↦
            let same =
              same_declaration inv.tool_id again.decl decl (rw tool at again.authorized.declared)
                d in
            absurd (
              earlier-some p'.seen k n known (
                sym (
                  ap (earlier p'.seen) (ap (λ c. idempotency_key w.digest c later) same ∙ same_key))
                ∙ again.authorized.is_fresh))
      ]
