-- ===== src/Files/Identity.antt =====
-- What `compute_file_id` of src/utils.rs returns: the hash of the whole content, however the reads
-- cut it.
use rgb_multisig_hub.Base.{
  ℕ, zero, suc, ◌<◌, ◌≡◌, refl, ap, ◌∙◌, ◌⊎◌, inl, inr, String, Option, none, some, List, [], ◌∷◌,
  length, take, drop, take-append-drop, length-drop, arith, subst,
}
use rgb_multisig_hub.Errors.{ApiError}
use rgb_multisig_hub.World.{
  Env, IsLawful, World, Outcome, M, ok, err, pure, panic, continue, ◌>>=◌, io_step,
}
use rgb_multisig_hub.Files.{io_call, hash_blocks, compute_file_id}

-- The hash of a content that is fed at once.
abbrev pub content_id : Env → List ℕ → String
content_id env content = env.hex_encode (env.finalize (env.update_hasher env.new_hasher content))

-- A run that returns `a`, or stops at an IO error of the file system, and changes nothing.
abbrev pub ReturnsOrIo : {A : Type 0} → Env → A → World → Outcome ApiError A × World → Type 0
ReturnsOrIo env a w (r, u) =
    ((r ≡ ok a) ⊎ ((n : ℕ) × (e : String) × (env.io_error n ≡ some e) × (r ≡ err (ApiError.io e))))
    × (u.db ≡ w.db)
    × (u.files ≡ w.files)

module _ (env : Env) {A B : Type 0} where
  continue-ReturnsOrIo :
      (r : Outcome ApiError A) (f : A → M ApiError B) (a : A) (b : B) (w v : World)
      → ReturnsOrIo env a w (r, v)
      → ((x : World) → ReturnsOrIo env b x (f a x))
      → ReturnsOrIo env b w (continue r f v)
  continue-ReturnsOrIo (ok c) f a b w v (inl e, d, s) next =
      let same : c ≡ a = cc in
      let rest : ReturnsOrIo env b v (f c v) = rw same (next v) in (rest.0, rest.1 ∙ d, rest.2 ∙ s)
  continue-ReturnsOrIo (ok c) f a b w v (inr (n, x, p, q), d, s) next = cc
  continue-ReturnsOrIo (err c) f a b w v (inl e, d, s) next = cc
  continue-ReturnsOrIo (err c) f a b w v (inr (n, x, p, q), d, s) next = (inr (n, x, p, cc q), d, s)
  continue-ReturnsOrIo (panic c) f a b w v (inl e, d, s) next = cc
  continue-ReturnsOrIo (panic c) f a b w v (inr (n, x, p, q), d, s) next = cc

  ReturnsOrIo-bind :
      (m : M ApiError A) (f : A → M ApiError B) (a : A) (b : B) (w : World)
      → ReturnsOrIo env a w (m w)
      → ((x : World) → ReturnsOrIo env b x (f a x))
      → ReturnsOrIo env b w ((m >>= f) w)
  unfolding ◌>>=◌
  ReturnsOrIo-bind m f a b w h next = continue-ReturnsOrIo (m w).0 f a b w (m w).1 h next

module _ (env : Env) where
  io_call-ReturnsOrIo : (w : World) → ReturnsOrIo env tt w (io_call env w)
  unfolding io_step
  io_call-ReturnsOrIo w = go (env.io_error w.tick) refl
    where
      go : (o : Option String) → env.io_error w.tick ≡ o → ReturnsOrIo env tt w (io_call env w)
      go none e = rw (e, io_step) (inl refl, refl, refl)
      go (some x) e = rw (e, io_step) (inr (w.tick, x, e, refl), refl, refl)

  pure-ReturnsOrIo : {A : Type 0} (a : A) (w : World) → ReturnsOrIo env a w (pure a w)
  unfolding pure
  pure-ReturnsOrIo a w = (inl refl, refl, refl)

module _ (env : Env) (lawful : IsLawful env) where
  hash_blocks_lem :
      (fuel : ℕ) (rest : List ℕ) (hasher : env.Hasher) (w : World)
      → length rest < fuel
      → ReturnsOrIo env (env.update_hasher hasher rest) w (hash_blocks env fuel rest hasher w)
  unfolding hash_blocks
  hash_blocks_lem zero rest hasher w h = absurd (omega arith)
  hash_blocks_lem (suc fuel) [] hasher w h = rw (lawful.update_hasher-nil hasher) (
      ReturnsOrIo-bind env (io_call env) (λ _. pure hasher) tt hasher w (io_call-ReturnsOrIo env w)
        (pure-ReturnsOrIo env hasher))
  hash_blocks_lem (suc fuel) (x ∷ rest) hasher w h =
      let n = env.read_len w.tick in
      let block = take n (x ∷ rest) in
      let left = drop n (x ∷ rest) in
      let fed = env.update_hasher hasher block in
      ReturnsOrIo-bind env (io_call env) (λ _. hash_blocks env fuel left fed) tt
        (env.update_hasher hasher (x ∷ rest)) w (io_call-ReturnsOrIo env w)
        (λ v.
          subst (λ o. ReturnsOrIo env o v (hash_blocks env fuel left fed v))
            (lawful.update_hasher-append hasher block left
              ∙ ap (env.update_hasher hasher) (take-append-drop n (x ∷ rest)))
            (hash_blocks_lem fuel left fed v
              (omega (arith, lawful.read_len_pos w.tick, length-drop n (x ∷ rest)))))

  -- With dependencies that do as documented: the identifier of a file is the hash of its content,
  -- whatever number of bytes each read yields; the only other end is an IO error of the file system;
  -- the tables and the files are left as they were.
  pub compute_file_id_lem :
      (content : List ℕ) (w : World)
      → ReturnsOrIo env (content_id env content) w (compute_file_id env content w)
  unfolding compute_file_id
  compute_file_id_lem content w =
      ReturnsOrIo-bind env (io_call env)
        (λ _. hash_blocks env (suc (length content)) content env.new_hasher >>= λ hasher.
          pure (env.hex_encode (env.finalize hasher)))
        tt (content_id env content) w (io_call-ReturnsOrIo env w)
        (λ v.
          ReturnsOrIo-bind env (hash_blocks env (suc (length content)) content env.new_hasher)
            (λ hasher. pure (env.hex_encode (env.finalize hasher)))
            (env.update_hasher env.new_hasher content) (content_id env content) v
            (hash_blocks_lem (suc (length content)) content env.new_hasher v (omega arith))
            (pure-ReturnsOrIo env (content_id env content)))
