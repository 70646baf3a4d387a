-- ===== src/Hub/Answers.antt =====
-- The answer on a transfer stands: whatever requests come, no later answer differs from the first.
use rgb_multisig_hub.Base.{
  ℕ, ◌≤◌, ◌≡◌, sym, ap, subst, ◌∙◌, inl, inr, Bool, true, Option, none, some, List, ◌∷◌, arith,
  count, Elem, eq_of_unique, ◌==◌, Bool-cases,
}
use rgb_multisig_hub.Errors.{ApiError_from_db_err}
use rgb_multisig_hub.World.{Env, IsLawful, World, ok, Db, TransferStatus}
use rgb_multisig_hub.World.Atomic.{ReadOnly, ReadOnly-raise}
use rgb_multisig_hub.Database.Reads.{database_reads}
use rgb_multisig_hub.World.Keeps.{Keeps, Keeps-exec}
use rgb_multisig_hub.Database.{update_next_address_index}
use rgb_multisig_hub.Database.Rows.{transfer_is_of}
use rgb_multisig_hub.State.{AppState}
use rgb_multisig_hub.Auth.{AuthenticatedUser, AuthenticatedCosigner, cosigner, watch_only}
use rgb_multisig_hub.Routes.Addresses.{BumpAddressIndicesRequest, bump_address_indices}
use rgb_multisig_hub.Routes.Atomicity.{transfer_status-Atomic}
use rgb_multisig_hub.Routes.Transfers.{
  TransferStatusInfo, info_of, transfer_status, set_or_read, register_transfer_status,
}
use rgb_multisig_hub.Routes.FirstAnswer.{Answered, transfer_status-Answered}
use rgb_multisig_hub.Hub.SideTables.{bump_address_indices-kept_part}
use rgb_multisig_hub.Hub.Aside.{Rest}
use rgb_multisig_hub.Hub.Induction.{Reach-aside}
use rgb_multisig_hub.Hub.Requests.{Reach, Atomic-elim, world_after}

abbrev transfers_of : Db → List TransferStatus
transfers_of db = db.transfers

-- No transfer has two rows, and the rows of `before` are there.
pub record Answers (before : Db) (db : Db) : Type 0 where
  pub one_each : (batch : ℕ) → count (transfer_is_of batch) db.transfers ≤ 1
  pub stay : (x : TransferStatus) → Elem x before.transfers → Elem x db.transfers

Answers-same :
    (before db after : Db)
    → transfers_of after ≡ transfers_of db
    → Answers before db
    → Answers before after
Answers-same before db after e a = record {
  one_each = λ batch. rw e (a.one_each batch);
  stay = λ x there. subst (Elem x) (sym e) (a.stay x there);
}

is_of :
    (row : TransferStatus) (batch : ℕ)
    → row.batch_transfer_idx ≡ batch
    → transfer_is_of batch row ≡ true
is_of row batch h = ground arith

one_more :
    (row : TransferStatus) (k batch : ℕ) (rows : List TransferStatus)
    → row.batch_transfer_idx ≡ batch
    → count (transfer_is_of batch) rows ≡ 0
    → count (transfer_is_of k) rows ≤ 1
    → count (transfer_is_of k) (row ∷ rows) ≤ 1
one_more row k batch rows is_of missing h = elim (Bool-cases (row.batch_transfer_idx == k)) [
  | inl e ↦
      let same : batch ≡ k = ground arith in
      let gone : count (transfer_is_of k) rows ≡ 0 =
        subst (λ b. count (transfer_is_of b) rows ≡ 0) same missing in
      ground arith
  | inr e ↦ ground arith
]

module _ (before db : Db) (a : Answers before db) where
  Answers-Answered :
      (c batch : ℕ) (answer : Bool) (row : TransferStatus) (after : Db)
      → Answered c batch answer row db after
      → Answers before after
  Answers-Answered c batch answer row after h = elim h.kept_or_new [
    | inl same ↦ Answers-same before db after (ap transfers_of same) a
    | inr (none_there, by, new) ↦ record {
      one_each = λ k.
          rw (ap transfers_of new)
            (one_more row k batch db.transfers h.of_transfer none_there (a.one_each k));
      stay = λ x there. subst (Elem x) (sym (ap transfers_of new)) (inr (a.stay x there));
    }
  ]

module _ (env : Env) where
  bump_address_indices-transfers :
      (req : BumpAddressIndicesRequest) → Keeps transfers_of (bump_address_indices env req)
  unfolding update_next_address_index
  bump_address_indices-transfers req =
      bump_address_indices-kept_part transfers_of env
        (λ k f.
          Keeps-exec env ⦃from = ApiError_from_db_err⦄ transfers_of _
            (λ tick db a after e. ground arith))
        req

module _ (env : Env) (state : AppState) where
  ReadOnly-watch_only :
      (batch : ℕ) (answer : Bool)
      → ReadOnly (
          transfer_status env state watch_only
            (record { batch_transfer_idx = batch; accept = some answer }))
  unfolding transfer_status set_or_read register_transfer_status
  ReadOnly-watch_only batch answer = ReadOnly-raise _

  ReadOnly-read :
      (user : AuthenticatedUser) (batch : ℕ)
      → ReadOnly
          (transfer_status env state user (record { batch_transfer_idx = batch; accept = none }))
  unfolding transfer_status set_or_read
  ReadOnly-read user batch = search database_reads

module _ (env : Env) (lawful : IsLawful env) (state : AppState) (before : Db) where
  transfer_status-Answers :
      (user : AuthenticatedUser) (batch : ℕ) (accept : Option Bool) (w : World)
      → Answers before w.db
      → Answers before
          (world_after
            (transfer_status env state user
              (record { batch_transfer_idx = batch; accept = accept }))
            w).db
  transfer_status-Answers (cosigner c) batch (some answer) w a =
      Atomic-elim (transfer_status-Atomic env state (cosigner c) _) (Answers before) w a λ i u e.
        let (row, info, done) = transfer_status-Answered env lawful state c batch answer w e in
        Answers-Answered before w.db a c.idx batch answer row u.db done
  transfer_status-Answers watch_only batch (some answer) w a =
      Answers-same before w.db _
        (ap transfers_of ((ReadOnly-watch_only env state batch answer).same w)) a
  transfer_status-Answers user batch none w a =
      Answers-same before w.db _ (ap transfers_of ((ReadOnly-read env state user batch).same w)) a

  Reach-Answers : (w u : World) → Reach env state w u → Answers before w.db → Answers before u.db
  Reach-Answers =
      Reach-aside env state (Answers before)
        (λ db after e. Answers-same before db after (ap (λ (p : Rest). p.1) e))
        (λ req w. Answers-same before w.db _ ((bump_address_indices-transfers env req).kept w))
        (λ user req w. transfer_status-Answers user req.batch_transfer_idx req.accept w)

module _ (env : Env) (lawful : IsLawful env) (state : AppState) where
  -- With dependencies that do as documented: let two cosigners, or one twice, set the status of a transfer
  -- successfully, the first in tables in which no transfer has two rows, and whatever requests come
  -- between, with whatever outcomes. Then both gave the same answer and are told the same status: that of
  -- the first, with its cosigner and its time.
  pub answers_agree :
      (c d : AuthenticatedCosigner) (batch : ℕ) (first later : Bool) (w u v z : World)
      {i j : Option TransferStatusInfo}
      → ((k : ℕ) → count (transfer_is_of k) w.db.transfers ≤ 1)
      → transfer_status env state
          (cosigner c)
          (record { batch_transfer_idx = batch; accept = some first })
          w
        ≡ (ok i, u)
      → Reach env state u v
      → transfer_status env state
          (cosigner d)
          (record { batch_transfer_idx = batch; accept = some later })
          v
        ≡ (ok j, z)
      → (first ≡ later) × (i ≡ j)
  answers_agree c d batch first later w u v z {i} {j} unique h between k =
      let (row, told, done) = transfer_status-Answered env lawful state c batch first w h in
      let (again, retold, redone) = transfer_status-Answered env lawful state d batch later v k in
      let from : Answers w.db w.db = record { one_each = unique; stay = λ x there. there } in
      let a = Answers-Answered w.db w.db from c.idx batch first row u.db done in
      let b =
        Reach-Answers env lawful state u.db u v between
          (record { one_each = a.one_each; stay = λ x there. there }) in
      let e = Answers-Answered u.db v.db b d.idx batch later again z.db redone in
      let same =
        eq_of_unique (transfer_is_of batch) row again z.db.transfers (e.stay row done.there)
          redone.there (is_of row batch done.of_transfer) (is_of again batch redone.of_transfer)
          (e.one_each batch) in
      (
        sym done.has_answer ∙ ap (λ (r : TransferStatus). r.accepted) same ∙ redone.has_answer,
        told ∙ ap (λ r. some (info_of state r)) same ∙ sym retold,
      )
