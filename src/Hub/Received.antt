-- ===== src/Hub/Received.antt =====
-- The calls that come to the hub, one after the other, and the foreign keys of migration/ in every world
-- that they lead to.
use rgb_multisig_hub.Base.{
  ℕ, ◌≡◌, refl, sym, subst, inl, inr, String, str_eq, Option, some, List, [], ◌∷◌, All, Bool-cases,
}
use rgb_multisig_hub.Errors.{AuthError}
use rgb_multisig_hub.World.{Env, IsLawful, World, Db, Outcome, ok, err, panic}
use rgb_multisig_hub.World.Atomic.{ReadOnly-run}
use rgb_multisig_hub.Hub.IntegrityRows.{some_inj}
use rgb_multisig_hub.State.{AppState, get_idx}
use rgb_multisig_hub.Auth.{Biscuit, AuthenticatedUser, cosigner, watch_only, authenticate}
use rgb_multisig_hub.Auth.Tokens.{Known, authenticate-Authenticated}
use rgb_multisig_hub.Database.Reads.{ReadOnly-get_last_cosigner_processed_op_idx}
use rgb_multisig_hub.Routes.Reads.{
  ReadOnly-get_operation_by_idx, ReadOnly-get_file, ReadOnly-info,
  ReadOnly-get_current_address_indices,
}
use rgb_multisig_hub.Routes.Processed.{get_last_processed_op_idx}
use rgb_multisig_hub.Routes.Transfers.{transfer_status}
use rgb_multisig_hub.Hub.Requests.{Request, serve}
use rgb_multisig_hub.Hub.Gate.{Call, path_of, extract, admit, receive}
use rgb_multisig_hub.Hub.Guests.{ReadOnly-authenticate}
use rgb_multisig_hub.Hub.Integrity.{HasCosigner, Integral}
use rgb_multisig_hub.Hub.IntegrityKeeps.{post_operation-Integral}
use rgb_multisig_hub.Hub.IntegrityRequests.{
  HasRequester, after_Triple, bump_address_indices-Integral, mark_operation_processed-Integral,
  respond_to_operation-Integral, transfer_status-Integral,
}

-- Calls with the `Authorization` headers that they come with; the last one came last.
pub data Received (biscuit : Biscuit) (env : Env) (state : AppState) (key : biscuit.PublicKey)
    : World → World → Type 0 where
  start : {w : World} → Received biscuit env state key w w
  then :
      {w u : World}
      → Received biscuit env state key w u
      → (header : Option String) (call : Call)
      → Received biscuit env state key w (receive biscuit env state key header call u)

module _ (env : Env) (lawful : IsLawful env) (state : AppState) where
  serve-Integral :
      (req : Request) (w : World)
      → Integral state w.db
      → HasRequester req w.db
      → Integral state (serve env state req w).db
  unfolding serve get_last_processed_op_idx transfer_status
  serve-Integral (Request.bump_address_indices req) w h by =
      after_Triple env lawful state (bump_address_indices-Integral env lawful state req) w h
  serve-Integral Request.get_current_address_indices w h by =
      subst (Integral state) (sym ((ReadOnly-get_current_address_indices env).same w)) h
  serve-Integral (Request.get_file id) w h by =
      subst (Integral state) (sym ((ReadOnly-get_file env state id).same w)) h
  serve-Integral (Request.get_operation_by_idx user i) w h by =
      subst (Integral state) (sym ((ReadOnly-get_operation_by_idx env state user i).same w)) h
  serve-Integral (Request.info user) w h by =
      subst (Integral state) (sym ((ReadOnly-info env state user).same w)) h
  serve-Integral (Request.get_last_processed_op_idx c) w h by =
      subst (Integral state) (sym ((ReadOnly-get_last_cosigner_processed_op_idx env c).same w)) h
  serve-Integral (Request.mark_operation_processed c i) w h by =
      after_Triple env lawful state (mark_operation_processed-Integral env lawful state c i) w h
  serve-Integral (Request.post_operation c form) w h by =
      after_Triple env lawful state (post_operation-Integral env state c form) w (h, by)
  serve-Integral (Request.respond_to_operation c form) w h by =
      after_Triple env lawful state (respond_to_operation-Integral env lawful state c form) w h
  serve-Integral (Request.transfer_status user req) w h by =
      after_Triple env lawful state
        (transfer_status-Integral env lawful state user req.batch_transfer_idx req.accept) w (h, by)

get_idx-HasCosigner :
    (db : Db) (xpub : String) (known : List (String × ℕ)) {c : ℕ}
    → All (λ (p : String × ℕ). HasCosigner p.1 db) known
    → get_idx xpub known ≡ some c
    → HasCosigner c db
unfolding get_idx
get_idx-HasCosigner db xpub [] h e = cc
get_idx-HasCosigner db xpub ((x, i) ∷ known) h e = elim (Bool-cases (str_eq x xpub)) [
  | inl same ↦ subst (λ k. HasCosigner k db) (some_inj (rw (get_idx, same) at e)) h.0
  | inr other ↦ get_idx-HasCosigner db xpub known h.1 (rw (get_idx, other) at e)
]

-- The cosigner of the table whom a user is, if they are one.
abbrev UserThere : AuthenticatedUser → Db → Type 0
UserThere (cosigner c) db = HasCosigner c.idx db
UserThere watch_only db = Unit

Known-UserThere :
    (state : AppState) (path role : String) (xpub : Option String) (user : AuthenticatedUser)
    (db : Db)
    → Integral state db
    → Known state path role xpub user
    → UserThere user db
Known-UserThere state path role xpub (cosigner c) db h known =
    get_idx-HasCosigner db c.xpub state.cosigners_by_xpub h.by_xpub known.2
Known-UserThere state path role xpub watch_only db h known = tt

module _ (env : Env) (lawful : IsLawful env) (state : AppState) where
  admit-Integral :
      (user : AuthenticatedUser) (call : Call) (w : World)
      → Integral state w.db
      → UserThere user w.db
      → Integral state (admit env state call (ok user) w).db
  unfolding extract
  admit-Integral (cosigner c) (Call.post_operation form) w h there =
      serve-Integral env lawful state (Request.post_operation c.idx form) w h there
  admit-Integral watch_only (Call.post_operation form) w h there = h
  admit-Integral user (Call.bump_address_indices req) w h there =
      serve-Integral env lawful state (Request.bump_address_indices req) w h tt
  admit-Integral (cosigner c) (Call.transfer_status req) w h there =
      serve-Integral env lawful state (Request.transfer_status (cosigner c) req) w h there
  admit-Integral watch_only (Call.transfer_status req) w h there =
      serve-Integral env lawful state (Request.transfer_status watch_only req) w h tt
  admit-Integral user Call.get_current_address_indices w h there =
      serve-Integral env lawful state Request.get_current_address_indices w h tt
  admit-Integral user (Call.get_file id) w h there =
      serve-Integral env lawful state (Request.get_file id) w h tt
  admit-Integral (cosigner c) Call.get_last_processed_op_idx w h there =
      serve-Integral env lawful state (Request.get_last_processed_op_idx c.idx) w h tt
  admit-Integral watch_only Call.get_last_processed_op_idx w h there = h
  admit-Integral user (Call.get_operation_by_idx i) w h there =
      serve-Integral env lawful state (Request.get_operation_by_idx user i) w h tt
  admit-Integral user Call.info w h there =
      serve-Integral env lawful state (Request.info user) w h tt
  admit-Integral (cosigner c) (Call.mark_operation_processed i) w h there =
      serve-Integral env lawful state (Request.mark_operation_processed c.idx i) w h tt
  admit-Integral watch_only (Call.mark_operation_processed i) w h there = h
  admit-Integral (cosigner c) (Call.respond_to_operation form) w h there =
      serve-Integral env lawful state (Request.respond_to_operation c.idx form) w h tt
  admit-Integral watch_only (Call.respond_to_operation form) w h there = h

module _ (biscuit : Biscuit) (env : Env) (lawful : IsLawful env) (state : AppState)
    (key : biscuit.PublicKey) where
  receive-Integral :
      (header : Option String) (call : Call) (w : World)
      → Integral state w.db
      → Integral state (receive biscuit env state key header call w).db
  unfolding receive
  receive-Integral header call w h =
      go (authenticate biscuit state key header (path_of call) w).0
        (authenticate biscuit state key header (path_of call) w).1 refl
    where
      go :
          (o : Outcome AuthError AuthenticatedUser) (u : World)
          → authenticate biscuit state key header (path_of call) w ≡ (o, u)
          → Integral state (admit env state call o u).db
      go (ok user) u e =
          let (a, same) = authenticate-Authenticated biscuit state key header (path_of call) w e in
          let still = subst (λ (z : World). Integral state z.db) (sym same) h in
          admit-Integral env lawful state user call u still
            (Known-UserThere state (path_of call) a.role _ user u.db still a.known)
      go (err x) u e =
          subst (Integral state)
            (sym
              (ReadOnly-run (ReadOnly-authenticate biscuit env state key header (path_of call)) e))
            h
      go (panic x) u e =
          subst (Integral state)
            (sym
              (ReadOnly-run (ReadOnly-authenticate biscuit env state key header (path_of call)) e))
            h

  pub Received-Integral :
      (w u : World) → Received biscuit env state key w u → Integral state w.db → Integral state u.db
  Received-Integral w _ start h = h
  Received-Integral w _ (then {u} before header call) h =
      receive-Integral header call u (Received-Integral w u before h)
