-- ===== src/Files/Reads.antt =====
-- The file operations of src/utils.rs leave the tables alone.
use rgb_multisig_hub.Base.{ℕ, zero, suc, refl, is_empty, take, drop, String, List}
use rgb_multisig_hub.World.{Env}
use rgb_multisig_hub.World.Atomic.{
  ReadOnly, ReadOnly-bind, ReadOnly-if, ReadOnly-pure, ReadOnly-io_step, read_only_rules,
}
use rgb_multisig_hub.Files.{exists, hash_blocks, compute_file_id, persist_temp_file, store_file}

ReadOnly-exists : (path : String) → ReadOnly (exists path)
unfolding exists
ReadOnly-exists path = record { same = λ w. refl }

module _ (env : Env) where
  hash_blocks_same :
      (fuel : ℕ) (rest : List ℕ) (hasher : env.Hasher) → ReadOnly (hash_blocks env fuel rest hasher)
  unfolding hash_blocks
  hash_blocks_same zero rest hasher = record { same = λ w. refl }
  hash_blocks_same (suc fuel) rest hasher = record {
    same = λ w.
        let n = env.read_len w.tick in
        let again = hash_blocks_same fuel (drop n rest) (env.update_hasher hasher (take n rest)) in
        (ReadOnly-bind (ReadOnly-io_step env _ _)
            (λ _. ReadOnly-if (is_empty rest) (ReadOnly-pure hasher) again)).same
          w;
  }

  ReadOnly-compute_file_id : (content : List ℕ) → ReadOnly (compute_file_id env content)
  unfolding compute_file_id
  ReadOnly-compute_file_id content = search (read_only_rules, hash_blocks_same) depth 10

  ReadOnly-persist_temp_file :
      (content : List ℕ) (path : String) → ReadOnly (persist_temp_file env content path)
  unfolding persist_temp_file
  ReadOnly-persist_temp_file content path = search read_only_rules depth 10

  pub ReadOnly-store_file :
      (dir : String) (content : List ℕ) → ReadOnly (store_file env dir content)
  unfolding store_file
  ReadOnly-store_file dir content = ReadOnly-bind (ReadOnly-compute_file_id content) λ id.
      ReadOnly-bind (ReadOnly-exists _) λ there.
        ReadOnly-if there (ReadOnly-pure id)
          (ReadOnly-bind (ReadOnly-persist_temp_file content _) (λ _. ReadOnly-pure id))
