-- ===== src/Hub/Reach.antt =====
-- Every world that requests can reach is consistent, and nothing that was decided is undone.
use rgb_multisig_hub.Base.{
  ℕ, ◌+◌, ◌≤◌, ◌<◌, ◌≡◌, ◌↔◌, refl, sym, ap, subst, true, false, Option, none, some, List, [],
  length, arith, Elem, All_of_Elem,
}
use rgb_multisig_hub.Operations.{OperationStatus, pending, approved, discarded, is_pending}
use rgb_multisig_hub.World.{Env, IsLawful, World, Operation, CosignerOpStatus, Db}
use rgb_multisig_hub.World.Atomic.{ReadOnly-bind, ReadOnly-expect}
use rgb_multisig_hub.Database.Reads.{ReadOnly-get_last_cosigner_processed_op_idx}
use rgb_multisig_hub.State.{AppState}
use rgb_multisig_hub.Multipart.{Multipart}
use rgb_multisig_hub.Routes.Reads.{
  ReadOnly-get_operation_by_idx, ReadOnly-get_operation_by_idx_with_files, ReadOnly-get_file,
  ReadOnly-info, ReadOnly-get_current_address_indices,
}
use rgb_multisig_hub.Routes.Processed.{get_last_processed_op_idx}
use rgb_multisig_hub.Routes.Atomicity.{
  mark_operation_processed-Atomic, post_operation-Atomic, record_response-Atomic,
}
use rgb_multisig_hub.Routes.Respond.{record_response, respond_to_operation}
use rgb_multisig_hub.Hub.Settled.{
  IsConfigured, Consistent, IsConsistent, Settled, Verdict, votes, processed, threshold_of,
}
use rgb_multisig_hub.Hub.Bystanders.{votes_part, bump_address_indices-Keeps, transfer_status-Keeps}
use rgb_multisig_hub.Hub.Posting.{post_operation-Posted}
use rgb_multisig_hub.Hub.PostKeeps.{Posted-Consistent}
use rgb_multisig_hub.Hub.Recording.{record_response-Recorded}
use rgb_multisig_hub.Hub.Responses.{Responded-Consistent}
use rgb_multisig_hub.Hub.Marking.{mark_operation_processed-Marked, Marked-Consistent}
use rgb_multisig_hub.Hub.Progress.{
  Progress, Progress-refl, Progress-trans, Progress-same, Posted-Progress, Responded-Progress,
  Marked-Progress,
}
use rgb_multisig_hub.Hub.Requests.{Request, serve, Reach, start, then, Atomic-elim, >>=-db}

-- The tables are consistent, and nothing of `before` is undone.
abbrev pub Better : AppState → Db → Db → Type 0
Better state before after = Consistent state after.operations after.statuses × Progress before after

module _ (state : AppState) (before : Db)
    (h : Consistent state before.operations before.statuses) where
  Better-same : (after : Db) → votes_part after ≡ votes_part before → Better state before after
  Better-same after e = (
    subst (λ (r : List Operation × List CosignerOpStatus). Consistent state r.0 r.1) (sym e) h,
    Progress-same before after e,
  )

module _ (env : Env) (lawful : IsLawful env) (state : AppState)
    (configured : IsConfigured state) where
  respond-Better :
      (c : ℕ) (form : Multipart) (w : World)
      → Consistent state w.db.operations w.db.statuses
      → Better state w.db (serve env state (Request.respond_to_operation c form) w).db
  unfolding serve respond_to_operation
  respond-Better c form w h =
      subst (Better state w.db)
        (sym (
          >>=-db (record_response env state c form) _ w (λ i.
            ReadOnly-bind (ReadOnly-get_operation_by_idx_with_files env state i _)
              (λ o. ReadOnly-expect _ _))))
        (Atomic-elim (record_response-Atomic env state c form) (Better state w.db) w
          (Better-same state w.db h w.db refl)
          λ i u e.
            let r = (record_response-Recorded env lawful state c form w e).responded in
            (
              Responded-Consistent state c i w.db u.db configured r h,
              Responded-Progress state c i w.db u.db configured r h,
            ))

  -- Every request, whatever its outcome, leaves the tables consistent and undoes no decision, vote or
  -- mark.
  pub serve-Better :
      (req : Request) (w : World)
      → Consistent state w.db.operations w.db.statuses
      → Better state w.db (serve env state req w).db
  unfolding serve get_last_processed_op_idx
  serve-Better (Request.bump_address_indices req) w h =
      Better-same state w.db h _ ((bump_address_indices-Keeps env req).kept w)
  serve-Better Request.get_current_address_indices w h =
      Better-same state w.db h _ (ap votes_part ((ReadOnly-get_current_address_indices env).same w))
  serve-Better (Request.get_file id) w h =
      Better-same state w.db h _ (ap votes_part ((ReadOnly-get_file env state id).same w))
  serve-Better (Request.get_operation_by_idx user i) w h =
      Better-same state w.db h _
        (ap votes_part ((ReadOnly-get_operation_by_idx env state user i).same w))
  serve-Better (Request.info user) w h =
      Better-same state w.db h _ (ap votes_part ((ReadOnly-info env state user).same w))
  serve-Better (Request.get_last_processed_op_idx c) w h =
      Better-same state w.db h _
        (ap votes_part ((ReadOnly-get_last_cosigner_processed_op_idx env c).same w))
  serve-Better (Request.mark_operation_processed c i) w h =
      Atomic-elim (mark_operation_processed-Atomic env c i) (Better state w.db) w
        (Better-same state w.db h w.db refl)
        λ a u e.
          let m = mark_operation_processed-Marked env lawful c i w e in
          (Marked-Consistent state c i w.db u.db m h, Marked-Progress state c i w.db u.db m h)
  serve-Better (Request.post_operation c form) w h =
      Atomic-elim (post_operation-Atomic env state c form) (Better state w.db) w
        (Better-same state w.db h w.db refl)
        λ i u e.
          let (p, idle, free) = post_operation-Posted env lawful state c form w e in
          (
            Posted-Consistent state c i w.db u.db configured p idle h,
            Posted-Progress state c i w.db u.db p,
          )
  serve-Better (Request.respond_to_operation c form) w h = respond-Better c form w h
  serve-Better (Request.transfer_status user req) w h =
      Better-same state w.db h _ ((transfer_status-Keeps env state user req).kept w)

  -- Whatever requests come, in whatever order and with whatever outcomes: from consistent tables they
  -- reach consistent tables, and undo no decision, vote or mark.
  pub Reach-Better :
      (w u : World)
      → Reach env state w u
      → Consistent state w.db.operations w.db.statuses
      → Better state w.db u.db
  Reach-Better w _ start h = (h, Progress-refl w.db)
  Reach-Better w _ (then {u = v} before req) h =
      let (ok_v, so_far) = Reach-Better w v before h in
      let (ok_u, more) = serve-Better req v ok_v in (ok_u, Progress-trans w.db v.db _ so_far more)

fresh-Consistent :
    (state : AppState) (db : Db)
    → db.operations ≡ []
    → db.statuses ≡ []
    → Consistent state db.operations db.statuses
fresh-Consistent state db no_ops no_rows =
    subst (λ l. Consistent state l db.statuses) (sym no_ops)
      (subst (Consistent state []) (sym no_rows) (record {
        one_pending = omega arith;
        op_unique = λ i. omega arith;
        status_unique = λ k. omega arith;
        entries_of = λ i. omega arith;
        entry = λ c i. omega arith;
        settled = tt;
      }))

-- What a status means: it is a function of the votes, or of the lack of a threshold.
abbrev pub Decided : OperationStatus → Option ℕ → ℕ → ℕ → ℕ → Type 0
Decided status (some t) acks nacks total =
    ((status ≡ approved) ↔ (t ≤ acks))
    × ((status ≡ discarded) ↔ ((acks < t) × (total < nacks + t)))
    × ((status ≡ pending) ↔ ((acks < t) × (nacks + t ≤ total)))
Decided status none acks nacks total = status ≡ approved

Verdict-Decided :
    (status : OperationStatus) (threshold : Option ℕ) (acks nacks done total : ℕ)
    → Verdict status threshold acks nacks done total
    → Decided status threshold acks nacks total
Verdict-Decided pending (some _) acks nacks done total v = ground arith
Verdict-Decided approved (some _) acks nacks done total v = ground arith
Verdict-Decided discarded (some _) acks nacks done total v = ground arith
Verdict-Decided pending none acks nacks done total v = absurd v
Verdict-Decided approved none acks nacks done total v = refl
Verdict-Decided discarded none acks nacks done total v = absurd v

module _ (env : Env) (lawful : IsLawful env) (state : AppState) (configured : IsConfigured state)
    (w : World) (no_operations : w.db.operations ≡ []) (no_statuses : w.db.statuses ≡ []) where
  -- With dependencies that do as documented and at most 255 cosigners with reachable thresholds, a hub
  -- that starts without operations is consistent after any sequence of requests, whatever their
  -- outcomes, errors and panics included: at most one operation is pending, keys are unique, every
  -- operation has one entry for each cosigner and no entry is of anything else, and every operation
  -- has the status that its votes call for.
  pub Reach-IsConsistent : (u : World) → Reach env state w u → IsConsistent state u.db
  Reach-IsConsistent u reached = record {
    tables =
        (Reach-Better env lawful state configured w u reached
          (fresh-Consistent state w.db no_operations no_statuses)).0;
  }

  further-Progress : (u v : World) → Reach env state w u → Reach env state u v → Progress u.db v.db
  further-Progress u v reached further =
      (Reach-Better env lawful state configured u v further (Reach-IsConsistent u reached).tables).1

  -- With dependencies that do as documented, at most 255 cosigners with reachable thresholds, and a
  -- start without operations: the row of an operation that is not pending in a world that the
  -- hub has reached stands unchanged after any further requests, whatever their outcomes.
  pub Reach-final :
      (u v : World)
      → Reach env state w u
      → Reach env state u v
      → (x : Operation) → Elem x u.db.operations
      → is_pending x.status ≡ false
      → Elem x v.db.operations
  Reach-final u v reached further = (further-Progress u v reached further).final

  -- With dependencies that do as documented, at most 255 cosigners with reachable thresholds, and a
  -- start without operations: from a world that the hub has reached no further requests,
  -- whatever their outcomes, lower the number of positive votes, of negative votes or of marks of an
  -- operation.
  pub Reach-votes :
      (u v : World)
      → Reach env state w u
      → Reach env state u v
      → (i : ℕ)
      → (votes true i u.db.statuses ≤ votes true i v.db.statuses)
        × (votes false i u.db.statuses ≤ votes false i v.db.statuses)
        × (processed i u.db.statuses ≤ processed i v.db.statuses)
  Reach-votes u v reached further i =
      let p = further-Progress u v reached further in
      (p.votes_stay true i, p.votes_stay false i, p.marks_stay i)

  -- With dependencies that do as documented, at most 255 cosigners with reachable thresholds, and a
  -- start without operations: in any world that the hub has reached, an operation whose type has a
  -- threshold t is approved just if its positive votes reach t, discarded just if they do not and the
  -- cosigners who have not refused are fewer than t, and pending just if they do not and those
  -- cosigners are at least t; an operation whose type has no threshold is approved.
  pub Reach-status :
      (u : World)
      → Reach env state w u
      → (op : Operation) → Elem op u.db.operations
      → Decided op.status
          (threshold_of state op.type)
          (votes true op.idx u.db.statuses)
          (votes false op.idx u.db.statuses)
          (length state.cosigners_by_idx)
  Reach-status u reached op there = Verdict-Decided op.status (threshold_of state op.type) _ _ _ _ (
      All_of_Elem (Settled state u.db.statuses) op u.db.operations
        (Reach-IsConsistent u reached).tables.settled there)
