-- ===== src/Hub/Responding.antt =====
-- What `respond_to_operation` of src/routes.rs does to the operations and the entries up to the
-- commit of its transaction.
use rgb_multisig_hub.Base.{
  ℕ, ◌+◌, ◌%◌, ◌==◌, not, ◌≡◌, ap, subst, ◌∙◌, Bool, true, false, ◌&&◌, Option, none, some, List,
  count, count-filter, Elem, update_where, arith,
}
use rgb_multisig_hub.Errors.{ApiError_from_db_err}
use rgb_multisig_hub.Operations.{OperationStatus, pending}
use rgb_multisig_hub.World.{Env, IsLawful, World, ok, Operation, CosignerOpStatus, Db}
use rgb_multisig_hub.World.Inversion.{
  >>=-run, pure-eq-ok, raise_if-eq-ok, ok_or-eq-ok, expect-eq-ok, query-eq-ok,
}
use rgb_multisig_hub.World.Atomic.{ReadOnly-run}
use rgb_multisig_hub.Database.Rows.{
  operation_has_idx, status_has_idx, status_is_of, status_is_entry, all,
}
use rgb_multisig_hub.Database.{get_operation_by_idx, get_cosigner_op_status_entry}
use rgb_multisig_hub.Database.Reads.{
  ReadOnly-get_operation_by_idx, ReadOnly-get_cosigner_op_status_entry,
}
use rgb_multisig_hub.Database.Answers.{one-some}
use rgb_multisig_hub.Database.Latest.{IsLast, get_last_cosigner_processed_op_idx-IsLast}
use rgb_multisig_hub.State.{AppState, total_cosigners}
use rgb_multisig_hub.Votes.{new_status}
use rgb_multisig_hub.Votes.Decision.{is_vote}
use rgb_multisig_hub.Routes.Respond.{set_status, set_response, check_respond_allowed}
use rgb_multisig_hub.Hub.Settled.{votes, threshold_of}

-- The operations after a decision on operation `i`.
abbrev pub decided : ℕ → Option OperationStatus → List Operation → List Operation
decided i none ops = ops
decided i (some status) ops = update_where (operation_has_idx i) (set_status status) ops

-- The cosigner `c` may respond to operation `i`: it is pending, the cosigner's entry has no response,
-- and it is the next one after the last that the cosigner has marked.
pub record MayRespond (c i : ℕ) (op : Operation) (entry : CosignerOpStatus) (db : Db) : Type 0 where
  pub op_there : Elem op db.operations
  pub op_idx : op.idx ≡ i
  pub op_pending : op.status ≡ pending
  pub entry_there : Elem entry db.statuses
  pub entry_cosigner : entry.cosigner_idx ≡ c
  pub entry_operation : entry.operation_idx ≡ i
  pub unvoted : entry.ack ≡ none
  pub last : ℕ
  pub last_marked : IsLast c db.statuses last
  pub next_one : i ≡ last + 1

-- The response is in the entry, and the operation has the status that the votes call for.
pub record Responded (state : AppState) (c i : ℕ) (before after : Db) : Type 0 where
  pub op : Operation
  pub entry : CosignerOpStatus
  pub allowed : MayRespond c i op entry before
  pub ack : Bool
  pub time : ℕ
  pub file : Option ℕ
  pub recorded :
      after.statuses
      ≡ update_where (status_has_idx entry.idx) (set_response ack time file) before.statuses
  pub threshold : ℕ
  pub threshold_is : threshold_of state op.type ≡ some threshold
  pub concluded :
      after.operations
      ≡ decided i
          (new_status
            (votes true i after.statuses % 256)
            (votes false i after.statuses % 256)
            threshold
            (total_cosigners state))
          before.operations

eq_of_passed : (n m : ℕ) → not (n == m) ≡ false → n ≡ m
eq_of_passed n m h = ground arith

module _ (env : Env) (lawful : IsLawful env) where
  pub votes_seen :
      (v : Bool) (tick i : ℕ) (rows : List CosignerOpStatus)
      → count (is_vote v) (all env tick (status_is_of i) rows) ≡ votes v i rows
  votes_seen v tick i rows =
      count-filter (status_is_of i) (is_vote v) (env.scan CosignerOpStatus tick rows)
      ∙ lawful.scan_count CosignerOpStatus tick (λ s. status_is_of i s && is_vote v s) rows

  pub found_operation :
      (i : ℕ) (w : World) {o : Option Operation} {u : World}
      → get_operation_by_idx env i w ≡ (ok o, u)
      → (op : Operation) → o ≡ some op
      → Elem op w.db.operations × (op.idx ≡ i)
  unfolding get_operation_by_idx
  found_operation i w h op e =
      let (a, s) = query-eq-ok env _ w h in
      let (p, there) =
        one-some env lawful w.tick (operation_has_idx i) w.db.operations op (a ∙ e) in
      (there, ground arith)

  pub found_entry :
      (c i : ℕ) (w : World) {o : Option CosignerOpStatus} {u : World}
      → get_cosigner_op_status_entry env c i w ≡ (ok o, u)
      → (r : CosignerOpStatus) → o ≡ some r
      → Elem r w.db.statuses × (r.cosigner_idx ≡ c) × (r.operation_idx ≡ i)
  unfolding get_cosigner_op_status_entry
  found_entry c i w h r e =
      let (a, s) = query-eq-ok env _ w h in
      let (p, there) = one-some env lawful w.tick (status_is_entry c i) w.db.statuses r (a ∙ e) in
      (there, ground arith, ground arith)

  pub check_respond_allowed-MayRespond :
      (c i : ℕ) (w : World) {r : Operation × CosignerOpStatus} {u : World}
      → check_respond_allowed env c i w ≡ (ok r, u)
      → MayRespond c i r.0 r.1 w.db
  unfolding check_respond_allowed
  check_respond_allowed-MayRespond c i w {r} {u} h = >>=-run _ _ w h λ o w1 q1 h1.
      >>=-run _ _ w1 h1 λ op w2 q2 h2. >>=-run _ _ w2 h2 λ _ w3 q3 h3.
        >>=-run _ _ w3 h3 λ e w4 q4 h4. >>=-run _ _ w4 h4 λ entry w5 q5 h5.
          >>=-run _ _ w5 h5 λ _ w6 q6 h6. >>=-run _ _ w6 h6 λ last w7 q7 h7.
            >>=-run _ _ w7 h7 λ _ w8 q8 h8.
              let (e2, s2) = ok_or-eq-ok _ _ w1 q2 in
              let (e3, s3) = raise_if-eq-ok _ _ w2 q3 in
              let (e5, s5) = expect-eq-ok _ _ w4 q5 in
              let (e6, s6) = raise_if-eq-ok _ _ w5 q6 in
              let (e8, s8) = raise_if-eq-ok _ _ w7 q8 in
              let (op_there, op_idx) = found_operation i w q1 op e2 in
              let (entry_there, entry_c, entry_i) = found_entry c i w3 q4 entry e5 in
              let same : w3.db ≡ w.db =
                ap (λ (z : World). z.db) (s3 ∙ s2)
                ∙ ReadOnly-run (ReadOnly-get_operation_by_idx env i) q1 in
              let read : w6.db ≡ w.db =
                ap (λ (z : World). z.db) (s6 ∙ s5)
                ∙ ReadOnly-run (ReadOnly-get_cosigner_op_status_entry env c i) q4
                ∙ same in
              let (result, _) = pure-eq-ok (op, entry) w8 h8 in
              subst (λ p. MayRespond c i p.0 p.1 w.db) result
                (record {
                  op_there = op_there;
                  op_idx = op_idx;
                  op_pending = ground arith;
                  entry_there = subst (λ (d : Db). Elem entry d.statuses) same entry_there;
                  entry_cosigner = entry_c;
                  entry_operation = entry_i;
                  unvoted = ground arith;
                  last = last;
                  last_marked =
                      subst (λ (d : Db). IsLast c d.statuses last) read
                        (get_last_cosigner_processed_op_idx-IsLast env lawful c w6 q7);
                  next_one = eq_of_passed i (last + 1) e8;
                })
