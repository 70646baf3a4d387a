-- ===== src/Routes/Shown.antt =====
-- What `get_operation_by_idx` of src/routes.rs shows of an operation.
use rgb_multisig_hub.Base.{
  ℕ, ◌≤◌, ◌≡◌, refl, sym, ap, subst, ◌∙◌, inl, inr, ◌↔◌, String, Bool, true, false, Option, none,
  some, List, [], ◌∷◌, arith, Elem, count, ◌==◌, ==_iff, Bool-cases, eq_of_unique,
}
use rgb_multisig_hub.Errors.{ApiError_from_db_err}
use rgb_multisig_hub.World.{Env, IsLawful, World, ok, Cosigner, CosignerOpStatus, Operation, Db}
use rgb_multisig_hub.World.Inversion.{>>=-run, pure-eq-ok, expect-eq-ok, query-eq-ok}
use rgb_multisig_hub.Database.Rows.{cosigner_has_idx, operation_has_idx, status_is_entry}
use rgb_multisig_hub.Database.{get_cosigner_by_idx, get_operation_by_idx as find_operation}
use rgb_multisig_hub.Database.Answers.{one-some}
use rgb_multisig_hub.State.{AppState}
use rgb_multisig_hub.Auth.{AuthenticatedUser}
use rgb_multisig_hub.Hub.Settled.{threshold_of}
use rgb_multisig_hub.Routes.Lookup.{
  OperationResponse, my_entry, operation_response, response_of, get_operation_by_idx_with_files,
  get_operation_by_idx, cosigner_idx_of,
}
use rgb_multisig_hub.Routes.Voters.{Voted}
use rgb_multisig_hub.Routes.Entries.{IsRead, entries-IsRead, voters-Voted}

my_entry-found :
    (c : ℕ) (s : CosignerOpStatus) (v : Cosigner) (pairs : List (CosignerOpStatus × Cosigner))
    → Elem (s, v) pairs
    → s.cosigner_idx ≡ c
    → (s' : CosignerOpStatus) × (v' : Cosigner) × Elem (s', v') pairs
      × (s'.cosigner_idx ≡ c)
      × (my_entry (some c) pairs ≡ (s'.ack, s'.processed_at))
unfolding my_entry
my_entry-found c s v [] there at = absurd there
my_entry-found c s v ((t, u) ∷ pairs) there at = elim (Bool-cases (t.cosigner_idx == c)) [
  | inl e ↦ (t, u, inl refl, (==_iff t.cosigner_idx c).0 e, rw e refl)
  | inr e ↦ elim there [
    | inl same ↦
        let eq : t.cosigner_idx ≡ c =
          ap (λ (z : CosignerOpStatus × Cosigner). z.0.cosigner_idx) (sym same) ∙ at in
        absurd (ground (arith, e, eq))
    | inr p ↦ let (s', v', q, r, f) = my_entry-found c s v pairs p at in (s', v', inr q, r, rw e f)
  ]
]

-- What a response shows: the row of the operation, the threshold of its type, the xPub of its
-- initiator, exactly those who voted for and against, and the vote and the mark of the user.
pub record IsShown (state : AppState) (user : Option ℕ) (i : ℕ) (db : Db) (r : OperationResponse)
    : Type 0 where
  pub op : Operation
  pub in_operations : Elem op db.operations
  pub op_idx : op.idx ≡ i
  pub shown_idx : r.operation_idx ≡ i
  pub shown_status : r.status ≡ op.status
  pub shown_type : r.operation_type ≡ op.type
  pub shown_created_at : r.created_at ≡ op.created_at
  pub shown_threshold : r.threshold ≡ threshold_of state op.type
  pub initiator : Cosigner
  pub in_cosigners : Elem initiator db.cosigners
  pub initiator_idx : initiator.idx ≡ op.initiator_idx
  pub shown_initiator : r.initiator_xpub ≡ initiator.xpub
  pub acked : (x : String) → Elem x r.acked_by ↔ Voted true i db x
  pub nacked : (x : String) → Elem x r.nacked_by ↔ Voted false i db x
  pub mine :
      (c : ℕ)
      → user ≡ some c
      → (s : CosignerOpStatus) → Elem s db.statuses
      → s.operation_idx ≡ i
      → s.cosigner_idx ≡ c
      → (r.my_response ≡ s.ack) × (r.processed_at ≡ s.processed_at)

module _ (env : Env) (lawful : IsLawful env) (state : AppState) where
  my_entry-mine :
      (user : Option ℕ) (i : ℕ) (db : Db) (pairs : List (CosignerOpStatus × Cosigner))
      → ((c : ℕ) → count (status_is_entry c i) db.statuses ≤ 1)
      → IsRead env lawful i db pairs
      → (c : ℕ) → user ≡ some c
      → (s : CosignerOpStatus) → Elem s db.statuses
      → s.operation_idx ≡ i
      → s.cosigner_idx ≡ c
      → ((my_entry user pairs).0 ≡ s.ack) × ((my_entry user pairs).1 ≡ s.processed_at)
  my_entry-mine user i db pairs single read c is_user s there of at =
      let (s1, c1, in_pairs, holds) =
        read.complete (λ z. z.cosigner_idx == c) s there of ((==_iff s.cosigner_idx c).1 at) in
      let (s2, c2, found, at2, shows) =
        my_entry-found c s1 c1 pairs in_pairs ((==_iff s1.cosigner_idx c).0 holds) in
      let (a, b, d, e) = read.sound s2 c2 found in
      let one : s2 ≡ s =
        eq_of_unique (status_is_entry c i) s2 s db.statuses a there (ground (arith, at2, b))
          (ground (arith, at, of)) (single c) in
      let all = ap (λ o. my_entry o pairs) is_user ∙ shows in
      (
        ap (λ (z : Option Bool × Option ℕ). z.0) all ∙ ap (λ (z : CosignerOpStatus). z.ack) one,
        ap (λ (z : Option Bool × Option ℕ). z.1) all
            ∙ ap (λ (z : CosignerOpStatus). z.processed_at) one,
      )

  operation_response-IsShown :
      (op : Operation) (user : Option ℕ) (w : World) {r : OperationResponse} {u : World}
      → Elem op w.db.operations
      → ((k : ℕ) → count (cosigner_has_idx k) w.db.cosigners ≤ 1)
      → ((c : ℕ) → count (status_is_entry c op.idx) w.db.statuses ≤ 1)
      → operation_response env state op user w ≡ (ok r, u)
      → IsShown state user op.idx w.db r
  unfolding operation_response get_cosigner_by_idx
  operation_response-IsShown op user w {r} there distinct single h =
      >>=-run _ _ w h λ found w1 q1 h1. >>=-run _ _ w1 h1 λ initiator w2 q2 h2.
        >>=-run _ _ w2 h2 λ pairs w3 q3 h3. >>=-run _ _ w3 h3 λ op_files w4 q4 h4.
          >>=-run _ _ w4 h4 λ files w5 q5 h5. >>=-run _ _ w5 h5 λ psbts w6 q6 h6.
            let (seen, s1) = query-eq-ok env _ w q1 in
            let (is_c, s2) = expect-eq-ok _ _ w1 q2 in
            let (shown, _) = pure-eq-ok _ w6 h6 in
            let (passes, stands) =
              one-some env lawful w.tick (cosigner_has_idx op.initiator_idx) w.db.cosigners
                initiator (seen ∙ is_c) in
            let same : w2.db ≡ w.db = ap (λ (z : World). z.db) (s2 ∙ s1) in
            let read =
              subst (λ d. IsRead env lawful op.idx d pairs) same
                (entries-IsRead env lawful op.idx w2 q3) in
            subst (IsShown state user op.idx w.db) shown (record {
              op = op;
              in_operations = there;
              op_idx = refl;
              shown_idx = refl;
              shown_status = refl;
              shown_type = refl;
              shown_created_at = refl;
              shown_threshold = refl;
              initiator = initiator;
              in_cosigners = stands;
              initiator_idx = (==_iff initiator.idx op.initiator_idx).0 passes;
              shown_initiator = refl;
              acked = voters-Voted env lawful true op.idx w.db pairs distinct read;
              nacked = voters-Voted env lawful false op.idx w.db pairs distinct read;
              mine = my_entry-mine user op.idx w.db pairs single read;
            })

  response_of-IsShown :
      (user : Option ℕ) (found : Option Operation) (i : ℕ) (v : World) {r : OperationResponse}
      {u : World}
      → ((op : Operation)
          → found ≡ some op
          → (operation_has_idx i op ≡ true) × Elem op v.db.operations)
      → ((k : ℕ) → count (cosigner_has_idx k) v.db.cosigners ≤ 1)
      → ((c : ℕ) → count (status_is_entry c i) v.db.statuses ≤ 1)
      → response_of env state user found v ≡ (ok (some r), u)
      → IsShown state user i v.db r
  unfolding response_of
  response_of-IsShown user none i v is_op distinct single h =
      let (e, _) = pure-eq-ok _ v h in absurd (ground arith)
  response_of-IsShown user (some op) i v {r} is_op distinct single h =
      >>=-run _ _ v h λ shown w1 q1 h1.
        let (e, _) = pure-eq-ok _ w1 h1 in
        let (passes, there) = is_op op refl in
        let at : op.idx ≡ i = (==_iff op.idx i).0 passes in
        let same : shown ≡ r = ground arith in
        subst (IsShown state user i v.db) same (
          subst (λ k. IsShown state user k v.db shown) at
            (operation_response-IsShown op user v there distinct
              (λ c. subst (λ k. count (status_is_entry c k) v.db.statuses ≤ 1) (sym at) (single c))
              q1))

  -- With dependencies that do as documented, where no two cosigners share a key and no cosigner has
  -- two entries of the operation: a lookup that returns a response shows the row of an operation
  -- under that key, with the threshold of its type and the xPub of its initiator; the xPubs it lists
  -- are exactly those of the cosigners whose entries accept and those whose entries refuse; and the
  -- vote and the mark that it shows to a cosigner are those of the cosigner's entry.
  pub get_operation_by_idx-IsShown :
      (user : AuthenticatedUser) (i : ℕ) (w : World) {r : OperationResponse} {u : World}
      → ((k : ℕ) → count (cosigner_has_idx k) w.db.cosigners ≤ 1)
      → ((c : ℕ) → count (status_is_entry c i) w.db.statuses ≤ 1)
      → get_operation_by_idx env state user i w ≡ (ok (some r), u)
      → IsShown state (cosigner_idx_of env state user) i w.db r
  unfolding get_operation_by_idx get_operation_by_idx_with_files find_operation
  get_operation_by_idx-IsShown user i w {r} {u} distinct single h =
      >>=-run _ _ w h λ found w1 q1 h1.
        let (seen, s1) = query-eq-ok env _ w q1 in
        let same : w.db ≡ w1.db = ap (λ (z : World). z.db) (sym s1) in
        subst (λ d. IsShown state (cosigner_idx_of env state user) i d r) (sym same)
          (response_of-IsShown (cosigner_idx_of env state user) found i w1
            (λ op is_op.
              subst (λ (d : Db). (operation_has_idx i op ≡ true) × Elem op d.operations) same
                (one-some env lawful w.tick (operation_has_idx i) w.db.operations op
                  (seen ∙ is_op)))
            (subst (λ (d : Db). (k : ℕ) → count (cosigner_has_idx k) d.cosigners ≤ 1) same distinct)
            (subst (λ (d : Db). (c : ℕ) → count (status_is_entry c i) d.statuses ≤ 1) same single)
            h1)
