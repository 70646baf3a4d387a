-- ===== src/Votes/Decision.antt =====
-- What the `u8` arithmetic of `respond_to_operation` in src/routes.rs comes to: exact counts and the
-- intended decision, for at most 255 cosigners.
use rgb_multisig_hub.Base.{
  ℕ, ◌+◌, ◌%◌, ◌≤◌, ◌<◌, ◌≡◌, ◌∙◌, ◌↔◌, Bool, true, false, ◌&&◌, Option, none, some, List, [], ◌∷◌,
  foldl, count, length, arith, count_disjoint,
}
use rgb_multisig_hub.Operations.{approved, discarded}
use rgb_multisig_hub.World.{CosignerOpStatus}
use rgb_multisig_hub.Votes.{add_vote, count_votes, new_status}

-- Whether a response is the given one.
abbrev pub voted : Bool → Option Bool → Bool
voted _ none = false
voted true (some v) = v
voted false (some true) = false
voted false (some false) = true

abbrev pub is_vote : Bool → CosignerOpStatus → Bool
is_vote v s = voted v s.ack

votes_from :
    (a n : ℕ) (entries : List CosignerOpStatus)
    → a < 256
    → n < 256
    → foldl (λ votes s. add_vote s.ack votes) (a, n) entries
      ≡ ((a + count (is_vote true) entries) % 256, (n + count (is_vote false) entries) % 256)
unfolding add_vote
votes_from a n [] ha hn = ground arith
votes_from a n (s ∷ entries) ha hn = ground (
  arith,
  votes_from ((a + 1) % 256) n entries (omega arith) hn,
  votes_from a ((n + 1) % 256) entries ha (omega arith),
  votes_from a n entries ha hn,
)

-- The counts are exact modulo 256.
pub count_votes_lem :
    (entries : List CosignerOpStatus)
    → count_votes entries
      ≡ (count (is_vote true) entries % 256, count (is_vote false) entries % 256)
unfolding count_votes
count_votes_lem entries = votes_from 0 0 entries (omega arith) (omega arith) ∙ ground arith

vote_one : (s : CosignerOpStatus) → (is_vote true s && is_vote false s) ≡ false
vote_one s = ground arith

-- Over at most 255 entries, the counts in the `u8` arithmetic are the numbers of positive and of
-- negative responses.
pub count_votes_exact :
    (entries : List CosignerOpStatus)
    → length entries ≤ 255
    → count_votes entries ≡ (count (is_vote true) entries, count (is_vote false) entries)
count_votes_exact entries h =
    ground (
      arith,
      count_votes_lem entries,
      count_disjoint (is_vote true) (is_vote false) entries vote_one,
    )

module _ (acks nacks threshold total : ℕ) (fits : total ≤ 255) (reachable : threshold ≤ total) where
  -- With at most 255 cosigners and a threshold that they can reach, an operation is approved just if
  -- the positive responses reach the threshold; it is discarded just if they do not and the cosigners
  -- who have not refused are too few to reach it; otherwise it stays pending.
  pub new_status_lem :
      ((new_status acks nacks threshold total ≡ some approved) ↔ (threshold ≤ acks))
      × ((new_status acks nacks threshold total ≡ some discarded)
          ↔ ((acks < threshold) × (total < nacks + threshold)))
      × ((new_status acks nacks threshold total ≡ none)
          ↔ ((acks < threshold) × (nacks + threshold ≤ total)))
  unfolding new_status
  new_status_lem = (ground arith, ground arith, ground arith)
