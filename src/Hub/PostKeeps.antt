-- ===== src/Hub/PostKeeps.antt =====
-- A posted operation keeps the tables consistent.
use rgb_multisig_hub.Base.{
  ℕ, ◌+◌, ◌*◌, ◌≡◌, refl, sym, subst, ◌∙◌, String, Bool, true, false, ◌&&◌, Option, List, [], ◌∷◌,
  ◌==◌, count, length, indicator, arith, All, All-imp, is_some, count_mono,
}
use rgb_multisig_hub.Operations.{
  OperationType, create_utxos, issuance, send_rgb, send_btc, inflation, blind_receive,
  witness_receive, burn, get_threshold_for_operation,
}
use rgb_multisig_hub.World.{Operation, CosignerOpStatus, Db}
use rgb_multisig_hub.Database.Rows.{
  operation_has_idx, operation_is_pending, status_is_of, status_is_entry,
}
use rgb_multisig_hub.State.{AppState}
use rgb_multisig_hub.Routes.Post.Save.{initial_status, new_operation}
use rgb_multisig_hub.Votes.Decision.{is_vote}
use rgb_multisig_hub.Hub.Settled.{
  IsConfigured, Consistent, Settled, Verdict, threshold_of, votes, processed,
}
use rgb_multisig_hub.Hub.Created.{Created, count-Created, unique-Created}
use rgb_multisig_hub.Hub.Posting.{Posted}

count_const : (b : Bool) (cs : List (ℕ × String)) → count (λ _. b) cs ≡ indicator b * length cs
count_const b [] = omega arith
count_const b (c ∷ cs) = omega (arith, count_const b cs)

count_and_const :
    (b : Bool) (p : ℕ × String → Bool) (cs : List (ℕ × String))
    → count (λ x. p x && b) cs ≡ indicator b * count p cs
count_and_const b p [] = omega arith
count_and_const b p (c ∷ cs) = ground (arith, count_and_const b p cs)

-- An operation starts under the status that no votes call for.
new-Verdict :
    (state : AppState) (type : OperationType)
    → IsConfigured state
    → Verdict (initial_status type) (threshold_of state type) 0 0 0 (length state.cosigners_by_idx)
unfolding initial_status get_threshold_for_operation
new-Verdict state create_utxos c = omega arith
new-Verdict state issuance c = tt
new-Verdict state send_rgb c = omega arith
new-Verdict state send_btc c = omega arith
new-Verdict state inflation c = omega arith
new-Verdict state blind_receive c = tt
new-Verdict state witness_receive c = tt
new-Verdict state burn c = omega arith

module _ {i : ℕ} {cs : List (ℕ × String)} {s t : List CosignerOpStatus}
    (created : Created i cs s t) where
  -- A new entry has no vote and is not processed.
  pub votes-Created : (v : Bool) (j : ℕ) → votes v j t ≡ votes v j s
  votes-Created v j =
      count-Created (λ r. status_is_of j r && is_vote v r) (λ _. false) (λ c k. ground arith)
        created
      ∙ rw (count_const false cs) (omega arith)

  pub processed-Created : (j : ℕ) → processed j t ≡ processed j s
  processed-Created j =
      count-Created (λ r. status_is_of j r && is_some r.processed_at) (λ _. false)
        (λ c k. ground arith) created
      ∙ rw (count_const false cs) (omega arith)

module _ (state : AppState) (ops : List Operation) (s t : List CosignerOpStatus) (i : ℕ)
    (before : Consistent state ops s) (unused : count (operation_has_idx i) ops ≡ 0)
    (created : Created i state.cosigners_by_idx s t) where
  entries_of-Created :
      (j : ℕ)
      → count (status_is_of j) t
        ≡ (indicator (i == j) + count (operation_has_idx j) ops) * length state.cosigners_by_idx
  entries_of-Created j =
      count-Created (status_is_of j) (λ _. i == j) (λ c k. refl) created
      ∙ rw (count_const (i == j) state.cosigners_by_idx, before.entries_of j) (omega arith)

  entry-Created :
      (c j : ℕ)
      → count (status_is_entry c j) t
        ≡ (indicator (i == j) + count (operation_has_idx j) ops)
          * count (λ p. p.0 == c) state.cosigners_by_idx
  entry-Created c j =
      count-Created (status_is_entry c j) (λ d. d == c && i == j) (λ d k. refl) created
      ∙ rw (count_and_const (i == j) (λ p. p.0 == c) state.cosigners_by_idx, before.entry c j)
          (omega arith)

  no_entry : (q : CosignerOpStatus → Bool) → count (λ r. status_is_of i r && q r) s ≡ 0
  no_entry q =
      let le = count_mono (λ r. status_is_of i r && q r) (status_is_of i) s (λ r h. ground arith) in
      let none_of : count (status_is_of i) s ≡ 0 = before.entries_of i ∙ rw unused (omega arith) in
      omega arith

  Settled-Created : All (Settled state t) ops
  Settled-Created =
      All-imp (Settled state s) (Settled state t) ops
        (λ op e h.
          rw
            (
              votes-Created created true op.idx,
              votes-Created created false op.idx,
              processed-Created created op.idx,
            )
            h)
        before.settled

  module _ (configured : IsConfigured state) (type : OperationType) (c : ℕ) (seed : Option (List ℕ))
      (time : ℕ) where
    Settled-new : Settled state t (new_operation type c seed time i)
    Settled-new =
        rw
          (
            votes-Created created true i,
            votes-Created created false i,
            processed-Created created i,
            no_entry (is_vote true),
            no_entry (is_vote false),
            no_entry (λ r. is_some r.processed_at),
          )
          (new-Verdict state type configured)

    pub posted-Consistent :
        count operation_is_pending ops ≡ 0
        → Consistent state (new_operation type c seed time i ∷ ops) t
    posted-Consistent idle = record {
      one_pending = ground arith;
      op_unique = λ j. ground (arith, before.op_unique j);
      status_unique = unique-Created created before.status_unique;
      entries_of = entries_of-Created;
      entry = entry-Created;
      settled = (Settled-new, Settled-Created);
    }

pub Posted-Consistent :
    (state : AppState) (c i : ℕ) (before after : Db)
    → IsConfigured state
    → Posted state c i before after
    → count operation_is_pending before.operations ≡ 0
    → Consistent state before.operations before.statuses
    → Consistent state after.operations after.statuses
Posted-Consistent state c i before after configured p idle h =
    subst (λ ops. Consistent state ops after.statuses) (sym p.operation)
      (posted-Consistent state before.operations before.statuses after.statuses i h p.unused
        p.entries configured p.type c p.seed p.time idle)
