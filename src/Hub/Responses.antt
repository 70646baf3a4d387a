-- ===== src/Hub/Responses.antt =====
-- A response that passes its commit leaves the tables consistent.
use rgb_multisig_hub.Base.{
  ℕ, ◌%◌, ◌*◌, ◌≤◌, ◌≡◌, ◌≢◌, refl, sym, ap, subst, ◌∙◌, Bool, true, false, Option, none, some,
  List, ◌==◌, count, length, arith, All, All-imp, All-update_where, Elem, eq_of_unique,
  count-update_where, count-update_where_same, Bool-cases, inl, inr,
}
use rgb_multisig_hub.Operations.{OperationStatus, pending}
use rgb_multisig_hub.World.{Operation, CosignerOpStatus, Db}
use rgb_multisig_hub.Database.Rows.{
  operation_has_idx, operation_is_pending, status_has_idx, status_is_of, status_is_entry,
}
use rgb_multisig_hub.State.{AppState, total_cosigners}
use rgb_multisig_hub.Votes.{new_status}
use rgb_multisig_hub.Routes.Respond.{set_status, set_response}
use rgb_multisig_hub.Hub.Settled.{
  IsConfigured, Consistent, Settled, Verdict, threshold_of, votes, processed,
}
use rgb_multisig_hub.Hub.Responding.{decided, Responded}
use rgb_multisig_hub.Hub.RespondKeeps.{
  response_facts, status_after, unmoved, votes_other, processed_after, decision_is,
}

module _ (state : AppState) (c i : ℕ) (before after : Db) (configured : IsConfigured state)
    (r : Responded state c i before after)
    (h : Consistent state before.operations before.statuses) where
  abbrev ops : List Operation
  ops = before.operations

  count_idx-decided :
      (j : ℕ) (d : Option OperationStatus)
      → count (operation_has_idx j) (decided i d ops) ≡ count (operation_has_idx j) ops
  count_idx-decided j none = refl
  count_idx-decided j (some s) =
      count-update_where_same (operation_has_idx i) (operation_has_idx j) (set_status s) ops
        (λ x. refl)

  one_pending-decided :
      (d : Option OperationStatus) → count operation_is_pending (decided i d ops) ≤ 1
  one_pending-decided none = h.one_pending
  one_pending-decided (some s) =
      let m =
        count-update_where (operation_has_idx i) operation_is_pending (set_status s) r.op ops
          r.allowed.op_there (ground (arith, r.allowed.op_idx)) (h.op_unique i) in
      ground (arith, m, h.one_pending, r.allowed.op_pending)

  abbrev VerdictOf : OperationStatus → Operation → Type 0
  VerdictOf s x =
      Verdict s (threshold_of state x.type) (votes true x.idx after.statuses)
        (votes false x.idx after.statuses) (processed x.idx after.statuses)
        (length state.cosigners_by_idx)

  -- The operation with that key is the one that was found.
  same_operation : (x : Operation) → Elem x ops → operation_has_idx i x ≡ true → r.op ≡ x
  same_operation x there here =
      eq_of_unique (operation_has_idx i) r.op x ops r.allowed.op_there there
        (ground (arith, r.allowed.op_idx)) here (h.op_unique i)

  settled_here :
      (s : OperationStatus)
      → Verdict s
          (some r.threshold)
          (votes true i after.statuses)
          (votes false i after.statuses)
          (processed i after.statuses)
          (length state.cosigners_by_idx)
      → (x : Operation) → Elem x ops
      → operation_has_idx i x ≡ true
      → VerdictOf s x
  settled_here s v x there here =
      let total = length state.cosigners_by_idx in
      let rows = after.statuses in
      subst (VerdictOf s) (same_operation x there here) (
        subst
          (λ t.
            Verdict s t (votes true r.op.idx rows) (votes false r.op.idx rows)
              (processed r.op.idx rows) total)
          (sym r.threshold_is)
          (subst
            (λ k.
              Verdict s (some r.threshold) (votes true k rows) (votes false k rows)
                (processed k rows) total)
            (sym r.allowed.op_idx) v))

  Settled-elsewhere :
      (x : Operation)
      → Settled state before.statuses x
      → operation_has_idx i x ≡ false
      → Settled state after.statuses x
  Settled-elsewhere x v away =
      let ne : x.idx ≢ i = λ e. ground arith in
      rw
        (
          votes_other state c i before after configured r h true x.idx ne,
          votes_other state c i before after configured r h false x.idx ne,
          processed_after state c i before after configured r h x.idx,
        )
        v

  Settled-undecided :
      Verdict pending
        (some r.threshold)
        (votes true i after.statuses)
        (votes false i after.statuses)
        (processed i after.statuses)
        (length state.cosigners_by_idx)
      → (x : Operation) → Elem x ops
      → Settled state before.statuses x
      → Settled state after.statuses x
  Settled-undecided v x there old = elim (Bool-cases (operation_has_idx i x)) [
    | inl here ↦
        let is_pending : x.status ≡ pending =
          ap (λ (o : Operation). o.status) (sym (same_operation x there here))
          ∙ r.allowed.op_pending in
        subst (λ s. VerdictOf s x) (sym is_pending) (settled_here pending v x there here)
    | inr away ↦ Settled-elsewhere x old away
  ]

  Settled-decided :
      (d : Option OperationStatus)
      → Verdict
          (status_after d)
          (some r.threshold)
          (votes true i after.statuses)
          (votes false i after.statuses)
          (processed i after.statuses)
          (length state.cosigners_by_idx)
      → All (Settled state after.statuses) (decided i d ops)
  Settled-decided none v =
      All-imp (Settled state before.statuses) (Settled state after.statuses) ops
        (Settled-undecided v) h.settled
  Settled-decided (some s) v =
      All-update_where (Settled state before.statuses) (Settled state after.statuses)
        (operation_has_idx i) (set_status s) ops (λ x there old here. settled_here s v x there here)
        (λ x there old away. Settled-elsewhere x old away) h.settled

  -- A test that does not see what a response changes.
  unseen :
      (q : CosignerOpStatus → Bool)
      → ((x : CosignerOpStatus) → q (set_response r.ack r.time r.file x) ≡ q x)
      → count q after.statuses ≡ count q before.statuses
  unseen = unmoved state c i before after configured r h

  Consistent-decided :
      (d : Option OperationStatus)
      → new_status
          (votes true i after.statuses % 256)
          (votes false i after.statuses % 256)
          r.threshold
          (total_cosigners state)
        ≡ d
      → Consistent state (decided i d ops) after.statuses
  Consistent-decided d e = record {
    one_pending = one_pending-decided d;
    op_unique = λ j. rw (count_idx-decided j d) (h.op_unique j);
    status_unique = λ k.
        rw
          (unseen (status_has_idx k)
            (λ x. ap (λ j. j == k) (response_facts r.ack r.time r.file x).0))
          (h.status_unique k);
    entries_of = λ j.
        unseen (status_is_of j) (λ x. ap (λ m. m == j) (response_facts r.ack r.time r.file x).2)
        ∙ h.entries_of j
        ∙ ap (λ n. n * length state.cosigners_by_idx) (sym (count_idx-decided j d));
    entry = λ m j.
        unseen (status_is_entry m j)
          (λ x. let (_, p, o, _, _) = response_facts r.ack r.time r.file x in rw (p, o) refl)
        ∙ h.entry m j
        ∙ ap (λ n. n * count (λ p. p.0 == m) state.cosigners_by_idx) (sym (count_idx-decided j d));
    settled = Settled-decided d (decision_is state c i before after configured r h d e);
  }

  pub Responded-Consistent : Consistent state after.operations after.statuses
  Responded-Consistent =
      subst (λ l. Consistent state l after.statuses) (sym r.concluded) (Consistent-decided _ refl)
