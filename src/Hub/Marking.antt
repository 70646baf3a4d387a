-- ===== src/Hub/Marking.antt =====
-- What `mark_operation_processed` of src/routes.rs does to the entries, and that it keeps the tables
-- consistent.
use rgb_multisig_hub.Base.{
  ℕ, ◌≡◌, ◌≢◌, refl, sym, ap, subst, ◌∙◌, Bool, true, false, ◌&&◌, Option, none, some, count,
  update_where, is_some, arith, All-imp, Elem, eq_of_unique, count-update_where,
  count-update_where_same, Bool-cases, inl, inr,
}
use rgb_multisig_hub.Errors.{ApiError_from_db_err}
use rgb_multisig_hub.Operations.{OperationStatus, pending, approved, discarded, is_pending}
use rgb_multisig_hub.World.{Env, IsLawful, World, ok, Operation, CosignerOpStatus, Db}
use rgb_multisig_hub.World.Inversion.{>>=-run, pure-eq-ok, raise_if-eq-ok, ok_or-eq-ok}
use rgb_multisig_hub.World.Atomic.{ReadOnly-run, ReadOnly-now}
use rgb_multisig_hub.Database.Rows.{
  operation_has_idx, status_has_idx, status_is_of, status_is_entry,
}
use rgb_multisig_hub.Database.Reads.{
  ReadOnly-get_operation_by_idx, ReadOnly-get_cosigner_op_status_entry,
}
use rgb_multisig_hub.Database.Effects.{update_cosigner_op_status-eq-ok}
use rgb_multisig_hub.State.{AppState}
use rgb_multisig_hub.Routes.Processed.{
  set_processed_at, check_mark_allowed, mark_operation_processed,
}
use rgb_multisig_hub.Hub.Settled.{Consistent, Settled, Verdict, votes, processed, threshold_of}
use rgb_multisig_hub.Hub.Responding.{found_operation, found_entry}

-- The cosigner `c` may mark operation `i` as processed: it is decided, and not yet marked.
pub record MayMark (c i : ℕ) (op : Operation) (entry : CosignerOpStatus) (db : Db) : Type 0 where
  pub op_there : Elem op db.operations
  pub op_idx : op.idx ≡ i
  pub op_decided : is_pending op.status ≡ false
  pub entry_there : Elem entry db.statuses
  pub entry_cosigner : entry.cosigner_idx ≡ c
  pub entry_operation : entry.operation_idx ≡ i
  pub unmarked : entry.processed_at ≡ none

-- The entry has the time of the mark, and nothing else has changed.
pub record Marked (c i : ℕ) (before after : Db) : Type 0 where
  pub op : Operation
  pub entry : CosignerOpStatus
  pub allowed : MayMark c i op entry before
  pub time : ℕ
  pub recorded : after ≡ record before {
    statuses = update_where (status_has_idx entry.idx) (set_processed_at time) before.statuses;
  }

module _ (env : Env) (lawful : IsLawful env) where
  check_mark_allowed-MayMark :
      (c i : ℕ) (w : World) {r : CosignerOpStatus} {u : World}
      → check_mark_allowed env c i w ≡ (ok r, u)
      → ((op : Operation) × MayMark c i op r w.db) × (u.db ≡ w.db)
  unfolding check_mark_allowed
  check_mark_allowed-MayMark c i w {r} {u} h = >>=-run _ _ w h λ o w1 q1 h1.
      >>=-run _ _ w1 h1 λ op w2 q2 h2. >>=-run _ _ w2 h2 λ _ w3 q3 h3.
        >>=-run _ _ w3 h3 λ e w4 q4 h4. >>=-run _ _ w4 h4 λ entry w5 q5 h5.
          >>=-run _ _ w5 h5 λ _ w6 q6 h6.
            let (e2, s2) = ok_or-eq-ok _ _ w1 q2 in
            let (e3, s3) = raise_if-eq-ok _ _ w2 q3 in
            let (e5, s5) = ok_or-eq-ok _ _ w4 q5 in
            let (e6, s6) = raise_if-eq-ok _ _ w5 q6 in
            let (op_there, op_idx) = found_operation env lawful i w q1 op e2 in
            let (entry_there, entry_c, entry_i) = found_entry env lawful c i w3 q4 entry e5 in
            let same : w3.db ≡ w.db =
              ap (λ (z : World). z.db) (s3 ∙ s2)
              ∙ ReadOnly-run (ReadOnly-get_operation_by_idx env i) q1 in
            let (result, s7) = pure-eq-ok entry w6 h6 in
            (
              (
                op,
                subst (λ p. MayMark c i op p w.db) result
                    (record {
                      op_there = op_there;
                      op_idx = op_idx;
                      op_decided = e3;
                      entry_there = subst (λ (d : Db). Elem entry d.statuses) same entry_there;
                      entry_cosigner = entry_c;
                      entry_operation = entry_i;
                      unmarked = ground arith;
                    }),
              ),
              ap (λ (z : World). z.db) (s7 ∙ s6 ∙ s5)
                  ∙ ReadOnly-run (ReadOnly-get_cosigner_op_status_entry env c i) q4
                  ∙ same,
            )

  -- With dependencies that do as documented: a mark that succeeds found the operation not pending and
  -- the cosigner's entry without a mark; it has set the time in the rows under the entry's key, and
  -- changed nothing else of the tables.
  pub mark_operation_processed-Marked :
      (c i : ℕ) (w : World) {a : Unit {0}} {u : World}
      → mark_operation_processed env c i w ≡ (ok a, u)
      → Marked c i w.db u.db
  unfolding mark_operation_processed
  mark_operation_processed-Marked c i w {a} {u} h = >>=-run _ _ w h λ entry w1 q1 h1.
      >>=-run _ _ w1 h1 λ time w2 q2 h2.
        let ((op, may), same) = check_mark_allowed-MayMark c i w q1 in
        let put = update_cosigner_op_status-eq-ok env entry.idx _ w2 h2 in
        record {
          op = op;
          entry = entry;
          allowed = may;
          time = time;
          recorded =
              put
              ∙ ap
                  (λ (d : Db). record d {
                    statuses =
                        update_where (status_has_idx entry.idx) (set_processed_at time) d.statuses;
                  })
                  (ReadOnly-run (ReadOnly-now env) q2 ∙ same);
        }

-- Only of a pending operation does the verdict look at who has processed it.
Verdict-decided :
    (s : OperationStatus) (t : Option ℕ) (a n d e total : ℕ)
    → is_pending s ≡ false
    → Verdict s t a n d total
    → Verdict s t a n e total
Verdict-decided pending t a n d e total f v = cc
Verdict-decided approved (some t) a n d e total f v = v
Verdict-decided approved none a n d e total f v = tt
Verdict-decided discarded (some t) a n d e total f v = v
Verdict-decided discarded none a n d e total f v = v

module _ (state : AppState) (c i : ℕ) (before after : Db) (m : Marked c i before after)
    (h : Consistent state before.operations before.statuses) where
  ops_same : after.operations ≡ before.operations
  ops_same = ap (λ (d : Db). d.operations) m.recorded

  -- A test that does not see what a mark changes.
  unseen :
      (q : CosignerOpStatus → Bool)
      → ((x : CosignerOpStatus) → q (set_processed_at m.time x) ≡ q x)
      → count q after.statuses ≡ count q before.statuses
  unseen q same =
      ap (λ (d : Db). count q d.statuses) m.recorded
      ∙ count-update_where_same (status_has_idx m.entry.idx) q _ before.statuses same

  processed_other : (j : ℕ) → j ≢ i → processed j after.statuses ≡ processed j before.statuses
  processed_other j ne =
      let q = λ (s : CosignerOpStatus). status_is_of j s && is_some s.processed_at in
      let moved =
        count-update_where (status_has_idx m.entry.idx) q (set_processed_at m.time) m.entry
          before.statuses m.allowed.entry_there (ground arith) (h.status_unique m.entry.idx) in
      ap (λ (d : Db). count q d.statuses) m.recorded ∙ ground (arith, m.allowed.entry_operation)

  pub votes_same : (v : Bool) (j : ℕ) → votes v j after.statuses ≡ votes v j before.statuses
  votes_same v j = unseen _ (λ x. refl)

  decided_here :
      (x : Operation)
      → Elem x before.operations
      → operation_has_idx i x ≡ true
      → is_pending x.status ≡ false
  decided_here x there here =
      subst (λ (o : Operation). is_pending o.status ≡ false)
        (eq_of_unique (operation_has_idx i) m.op x before.operations m.allowed.op_there there
          (ground (arith, m.allowed.op_idx)) here (h.op_unique i))
        m.allowed.op_decided

  Settled-Marked :
      (x : Operation)
      → Elem x before.operations
      → Settled state before.statuses x
      → Settled state after.statuses x
  Settled-Marked x there v = elim (Bool-cases (operation_has_idx i x)) [
    | inl here ↦
        rw (votes_same true x.idx, votes_same false x.idx)
          (Verdict-decided x.status (threshold_of state x.type) _ _ _ _ _
            (decided_here x there here) v)
    | inr away ↦
        rw
          (votes_same true x.idx, votes_same false x.idx, processed_other x.idx (λ e. ground arith))
          v
  ]

  pub Marked-Consistent : Consistent state after.operations after.statuses
  Marked-Consistent =
      subst (λ l. Consistent state l after.statuses) (sym ops_same)
        (record {
          one_pending = h.one_pending;
          op_unique = h.op_unique;
          status_unique = λ k. rw (unseen (status_has_idx k) (λ x. refl)) (h.status_unique k);
          entries_of = λ j. unseen (status_is_of j) (λ x. refl) ∙ h.entries_of j;
          entry = λ d j. unseen (status_is_entry d j) (λ x. refl) ∙ h.entry d j;
          settled =
              All-imp (Settled state before.statuses) (Settled state after.statuses)
                before.operations Settled-Marked h.settled;
        })
