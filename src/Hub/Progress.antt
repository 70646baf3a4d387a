-- ===== src/Hub/Progress.antt =====
-- What a change of the tables never takes back: decisions, votes and marks.
use rgb_multisig_hub.Base.{
  ℕ, ◌≤◌, ◌≡◌, sym, ap, subst, Bool, false, ◌&&◌, Option, none, some, List, ◌==◌, is_some, arith,
  Elem, Elem-update_where, eq_of_unique, count-update_where, Bool-cases, inl, inr,
}
use rgb_multisig_hub.Operations.{OperationStatus, is_pending}
use rgb_multisig_hub.World.{Operation, CosignerOpStatus, Db}
use rgb_multisig_hub.Database.Rows.{operation_has_idx, status_has_idx, status_is_of}
use rgb_multisig_hub.State.{AppState}
use rgb_multisig_hub.Routes.Processed.{set_processed_at}
use rgb_multisig_hub.Routes.Respond.{set_status}
use rgb_multisig_hub.Hub.Settled.{IsConfigured, Consistent, votes, processed}
use rgb_multisig_hub.Hub.Bystanders.{votes_part}
use rgb_multisig_hub.Hub.PostKeeps.{votes-Created, processed-Created}
use rgb_multisig_hub.Hub.Posting.{Posted}
use rgb_multisig_hub.Hub.Responding.{decided, Responded}
use rgb_multisig_hub.Hub.RespondKeeps.{votes_other, votes_here, processed_after}
use rgb_multisig_hub.Hub.Marking.{Marked, votes_same}

-- A decided operation's row stays as it is, and no operation loses a vote or a mark.
pub record Progress (before after : Db) : Type 0 where
  pub final :
      (x : Operation)
      → Elem x before.operations
      → is_pending x.status ≡ false
      → Elem x after.operations
  pub votes_stay : (v : Bool) (i : ℕ) → votes v i before.statuses ≤ votes v i after.statuses
  pub marks_stay : (i : ℕ) → processed i before.statuses ≤ processed i after.statuses

pub Progress-refl : (db : Db) → Progress db db
Progress-refl db = record {
  final = λ x there settled. there;
  votes_stay = λ v i. omega arith;
  marks_stay = λ i. omega arith;
}

pub Progress-trans : (a b c : Db) → Progress a b → Progress b c → Progress a c
Progress-trans a b c p q = record {
  final = λ x there settled. q.final x (p.final x there settled) settled;
  votes_stay = λ v i. omega (arith, p.votes_stay v i, q.votes_stay v i);
  marks_stay = λ i. omega (arith, p.marks_stay i, q.marks_stay i);
}

pub Progress-same : (a b : Db) → votes_part b ≡ votes_part a → Progress a b
Progress-same a b e = record {
  final = λ x there settled.
      subst (Elem x) (sym (ap (λ (r : List Operation × List CosignerOpStatus). r.0) e)) there;
  votes_stay = λ v i.
      rw (ap (λ (r : List Operation × List CosignerOpStatus). votes v i r.1) e) (omega arith);
  marks_stay = λ i.
      rw (ap (λ (r : List Operation × List CosignerOpStatus). processed i r.1) e) (omega arith);
}

pub Posted-Progress :
    (state : AppState) (c i : ℕ) (before after : Db)
    → Posted state c i before after
    → Progress before after
Posted-Progress state c i before after p = record {
  final = λ x there settled. subst (Elem x) (sym p.operation) (inr there);
  votes_stay = λ v j. rw (votes-Created p.entries v j) (omega arith);
  marks_stay = λ j. rw (processed-Created p.entries j) (omega arith);
}

Elem-decided :
    (i : ℕ) (d : Option OperationStatus) (x : Operation) (ops : List Operation)
    → operation_has_idx i x ≡ false
    → Elem x ops
    → Elem x (decided i d ops)
Elem-decided i none x ops away there = there
Elem-decided i (some s) x ops away there =
    Elem-update_where (operation_has_idx i) (set_status s) x ops away there

module _ (state : AppState) (c i : ℕ) (before after : Db) (configured : IsConfigured state)
    (r : Responded state c i before after)
    (h : Consistent state before.operations before.statuses) where
  -- The operation that a response may decide was pending.
  elsewhere :
      (x : Operation)
      → Elem x before.operations
      → is_pending x.status ≡ false
      → operation_has_idx i x ≡ false
  elsewhere x there settled = elim (Bool-cases (operation_has_idx i x)) [
    | inl here ↦
        let same =
          eq_of_unique (operation_has_idx i) r.op x before.operations r.allowed.op_there there
            (ground (arith, r.allowed.op_idx)) here (h.op_unique i) in
        absurd
          (ground (arith, ap (λ (o : Operation). is_pending o.status) same, r.allowed.op_pending))
    | inr away ↦ away
  ]

  votes_grow : (v : Bool) (j : ℕ) → votes v j before.statuses ≤ votes v j after.statuses
  votes_grow v j = elim (Bool-cases (j == i)) [
    | inl here ↦
        let e : j ≡ i = ground arith in
        subst (λ k. votes v k before.statuses ≤ votes v k after.statuses) (sym e)
          (omega (arith, votes_here state c i before after configured r h v))
    | inr away ↦
        omega (arith, votes_other state c i before after configured r h v j (λ e. ground arith))
  ]

  pub Responded-Progress : Progress before after
  Responded-Progress = record {
    final = λ x there settled.
        subst (Elem x) (sym r.concluded)
          (Elem-decided i _ x before.operations (elsewhere x there settled) there);
    votes_stay = votes_grow;
    marks_stay = λ j. omega (arith, processed_after state c i before after configured r h j);
  }

module _ (state : AppState) (c i : ℕ) (before after : Db) (m : Marked c i before after)
    (h : Consistent state before.operations before.statuses) where
  marks_grow : (j : ℕ) → processed j before.statuses ≤ processed j after.statuses
  marks_grow j =
      let q = λ (s : CosignerOpStatus). status_is_of j s && is_some s.processed_at in
      let moved =
        count-update_where (status_has_idx m.entry.idx) q (set_processed_at m.time) m.entry
          before.statuses m.allowed.entry_there (ground arith) (h.status_unique m.entry.idx) in
      rw (ap (λ (d : Db). processed j d.statuses) m.recorded) (ground (arith, m.allowed.unmarked))

  pub Marked-Progress : Progress before after
  Marked-Progress = record {
    final =
        λ x there settled. subst (Elem x) (sym (ap (λ (d : Db). d.operations) m.recorded)) there;
    votes_stay = λ v j. omega (arith, votes_same state c i before after m h v j);
    marks_stay = marks_grow;
  }
