-- ===== src/Hub/IntegrityRequests.antt =====
-- The requests of src/routes.rs keep the references between the tables, however they end.
use rgb_multisig_hub.Base.{ℕ, ◌≡◌, refl, sym, subst, Bool, Option, none, some}
use rgb_multisig_hub.Errors.{ApiError, ApiError_from_db_err}
use rgb_multisig_hub.World.{TransferStatus, Env, World, Db, M, Operation, CosignerOpStatus}
use rgb_multisig_hub.World.Atomic.{
  ReadOnly-run, ReadOnly-raise, ReadOnly-now, ReadOnly-expect, ReadOnly-raise_if, ReadOnly-ok_or,
  ReadOnly-query,
}
use rgb_multisig_hub.World.Triples.{
  Triple, Triple-ReadOnly, Triple-bind, Triple-pure, Triple-imp, Triple-transaction,
}
use rgb_multisig_hub.Database.{set_or_keep, new_transfer_status, transfer_row, set_transfer_status}
use rgb_multisig_hub.Database.Reads.{database_reads, ReadOnly-get_next_address_index}
use rgb_multisig_hub.State.{AppState}
use rgb_multisig_hub.Auth.{AuthenticatedUser, cosigner, watch_only}
use rgb_multisig_hub.Multipart.{Multipart}
use rgb_multisig_hub.Routes.Addresses.{BumpAddressIndicesRequest, bump_index, bump_address_indices}
use rgb_multisig_hub.Routes.Transfers.{register_transfer_status, set_or_read}
use rgb_multisig_hub.Routes.Processed.{set_processed_at, mark_operation_processed}
use rgb_multisig_hub.Routes.Respond.{record_response, respond_to_operation}
use rgb_multisig_hub.Routes.Reads.{ReadOnly-get_operation_by_idx_with_files}
use rgb_multisig_hub.Routes.FormReads.{
  ReadOnly-respond_form, ReadOnly-check_respond_allowed, ReadOnly-respond_validate,
}
use rgb_multisig_hub.World.{IsLawful, Outcome, ok, err, panic}
use rgb_multisig_hub.World.Triples.{Ends}
use rgb_multisig_hub.Routes.Respond.{check_respond_allowed}
use rgb_multisig_hub.Hub.Responding.{check_respond_allowed-MayRespond}
use rgb_multisig_hub.Hub.IntegrityKeeps.{reading, save_response-Integral}
use rgb_multisig_hub.Base.{count_of_Elem}
use rgb_multisig_hub.Database.Rows.{operation_has_idx}
use rgb_multisig_hub.Hub.Requests.{Request, world_after}
use rgb_multisig_hub.Hub.Aside.{ReadOnly-check_mark_allowed}
use rgb_multisig_hub.Hub.Integrity.{HasCosigner, Integral}
use rgb_multisig_hub.Hub.IntegrityRows.{same_key}
use rgb_multisig_hub.Hub.IntegrityWrites.{
  OpThere, insert_transfer_status-Integral, update_cosigner_op_status-Integral,
  update_next_address_index-Integral,
}

-- The cosigner who asks, where the request writes a row that refers to them, is one of the table.
abbrev pub HasRequester : Request → Db → Type 0
HasRequester (Request.post_operation c form) db = HasCosigner c db
HasRequester (Request.transfer_status (cosigner c) req) db = HasCosigner c.idx db
HasRequester _ db = Unit

module _ (env : Env) (lawful : IsLawful env) (state : AppState) where
  check_respond_allowed-Integral :
      (c i : ℕ)
      → Triple
          (Integral state)
          (Integral state)
          (check_respond_allowed env c i)
          (λ r. OpThere state r.0.idx)
  check_respond_allowed-Integral c i = record {
    run = λ w h. go w h (check_respond_allowed env c i w) refl;
  }
    where
      go :
          (w : World)
          → Integral state w.db
          → (o : Outcome ApiError (Operation × CosignerOpStatus) × World)
          → check_respond_allowed env c i w ≡ o
          → Ends (Integral state) (λ r. OpThere state r.0.idx) o.0 o.1.db
      go w h (ok r, u) e =
          let may = check_respond_allowed-MayRespond env lawful c i w e in
          let same : u.db ≡ w.db = ReadOnly-run (ReadOnly-check_respond_allowed env c i) e in
          subst (OpThere state r.0.idx) (sym same) (
            h,
            count_of_Elem (operation_has_idx r.0.idx) r.0 w.db.operations may.op_there
                (same_key _ _ refl),
          )
      go w h (err x, u) e =
          subst (Integral state) (sym (ReadOnly-run (ReadOnly-check_respond_allowed env c i) e)) h
      go w h (panic x, u) e =
          subst (Integral state) (sym (ReadOnly-run (ReadOnly-check_respond_allowed env c i) e)) h

  record_response-Integral :
      (c : ℕ) (form : Multipart)
      → Triple
          (Integral state)
          (Integral state)
          (record_response env state c form)
          (λ _. Integral state)
  unfolding record_response
  record_response-Integral c form =
      Triple-bind (reading env state (ReadOnly-respond_form env _ _ _)) λ parsed.
        Triple-bind (reading env state (ReadOnly-respond_validate parsed)) λ req.
          Triple-bind (check_respond_allowed-Integral c req.operation_idx) λ allowed.
            Triple-bind
              (Triple-transaction env ⦃from = ApiError_from_db_err⦄ (λ db h. h.0) _
                (save_response-Integral env state allowed.0 allowed.1 _ _))
              λ _. Triple-pure _ (λ db h. h)

  pub respond_to_operation-Integral :
      (c : ℕ) (form : Multipart)
      → Triple
          (Integral state)
          (Integral state)
          (respond_to_operation env state c form)
          (λ _. Integral state)
  unfolding respond_to_operation
  respond_to_operation-Integral c form = Triple-bind (record_response-Integral c form) λ i.
      Triple-bind
        (reading env state (ReadOnly-get_operation_by_idx_with_files env state i (some c)))
        λ o. reading env state (ReadOnly-expect _ _)

  pub mark_operation_processed-Integral :
      (c i : ℕ)
      → Triple
          (Integral state)
          (Integral state)
          (mark_operation_processed env c i)
          (λ _. Integral state)
  unfolding mark_operation_processed
  mark_operation_processed-Integral c i =
      Triple-bind (reading env state (ReadOnly-check_mark_allowed env c i)) λ s.
        Triple-bind (reading env state (ReadOnly-now env)) λ time.
          update_cosigner_op_status-Integral env state (Integral state) s.idx
            (set_processed_at time) (λ db h. h) (λ db h x k. k)

  pub bump_address_indices-Integral :
      (req : BumpAddressIndicesRequest)
      → Triple
          (Integral state)
          (Integral state)
          (bump_address_indices env req)
          (λ _. Integral state)
  unfolding bump_address_indices bump_index
  bump_address_indices-Integral req = Triple-bind (reading env state (ReadOnly-raise_if _ _)) λ _.
      Triple-transaction env ⦃from = ApiError_from_db_err⦄ (λ db h. h) _
        (Triple-bind (reading env state (ReadOnly-get_next_address_index env)) λ index.
          Triple-bind (reading env state (ReadOnly-ok_or _ _)) λ n.
            Triple-bind (update_next_address_index-Integral env state _ _)
              λ _. Triple-pure _ (λ db h. h))

  set_or_keep-Integral :
      (batch c time : ℕ) (accepted : Bool) (found : Option TransferStatus)
      → Triple
          (Integral state)
          (λ db. Integral state db × HasCosigner c db)
          (set_or_keep env batch c time accepted found)
          (λ _. Integral state)
  unfolding set_or_keep new_transfer_status
  set_or_keep-Integral batch c time accepted none =
      Triple-bind
        (insert_transfer_status-Integral env state c (transfer_row batch c time accepted)
          (λ k. refl))
        λ k. Triple-pure _ (λ db h. h)
  set_or_keep-Integral batch c time accepted (some old) =
      Triple-imp (λ db h. h.0) (reading env state (search database_reads))

  set_transfer_status-Integral :
      (batch c time : ℕ) (accepted : Bool)
      → Triple
          (Integral state)
          (λ db. Integral state db × HasCosigner c db)
          (set_transfer_status env batch c time accepted)
          (λ _. Integral state)
  unfolding set_transfer_status
  set_transfer_status-Integral batch c time accepted =
      Triple-bind
        (Triple-ReadOnly (Integral state) _ (λ db h. h.0)
          (ReadOnly-query env ⦃from = ApiError_from_db_err⦄ _))
        (set_or_keep-Integral batch c time accepted)

  pub transfer_status-Integral :
      (user : AuthenticatedUser) (batch : ℕ) (accept : Option Bool)
      → Triple
          (Integral state)
          (λ db.
            Integral state db
            × HasRequester
                (Request.transfer_status user
                  (record { batch_transfer_idx = batch; accept = accept }))
                db)
          (set_or_read env state user batch accept)
          (λ _. Integral state)
  unfolding set_or_read register_transfer_status
  transfer_status-Integral watch_only batch (some a) =
      Triple-imp (λ db h. h.0) (reading env state (ReadOnly-raise _))
  transfer_status-Integral (cosigner c) batch (some a) =
      Triple-bind (Triple-ReadOnly (Integral state) _ (λ db h. h.0) (ReadOnly-now env)) λ time.
        Triple-bind
          (Triple-transaction env ⦃from = ApiError_from_db_err⦄ (λ db h. h.0) _
            (set_transfer_status-Integral batch c.idx time a))
          λ row. Triple-pure _ (λ db h. h)
  transfer_status-Integral user batch none =
      Triple-imp (λ db h. h.0) (reading env state (search database_reads))

  Ends-Integral :
      {E A : Type 0} (o : Outcome E A) (db : Db)
      → Ends (Integral state) (λ _. Integral state) o db
      → Integral state db
  Ends-Integral (ok a) db h = h
  Ends-Integral (err e) db h = h
  Ends-Integral (panic s) db h = h

  pub after_Triple :
      {E A : Type 0} {before : Db → Type 0} {m : M E A}
      → Triple (Integral state) before m (λ _. Integral state)
      → (w : World) → before w.db
      → Integral state (world_after m w).db
  after_Triple {m = m} t w h = Ends-Integral (m w).0 (m w).1.db (t.run w h)
