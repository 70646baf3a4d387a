-- ===== src/Hub/Uploads.antt =====
-- The upload of files in the handlers of src/routes.rs, for any part of the tables that the entry of a
-- file leaves alone.
use rgb_multisig_hub.Base.{ℕ, Option, none, some, List, [], ◌∷◌}
use rgb_multisig_hub.Operations.{FileType}
use rgb_multisig_hub.World.{Env, Db, OpFile}
use rgb_multisig_hub.World.Atomic.{ReadOnly-pure}
use rgb_multisig_hub.World.Keeps.{Keeps, Keeps-ReadOnly, Keeps-bind}
use rgb_multisig_hub.Database.{set_op_file}
use rgb_multisig_hub.Files.Reads.{ReadOnly-store_file}
use rgb_multisig_hub.State.{AppState}
use rgb_multisig_hub.Routes.Post.Save.{save_file, save_files, save_psbt}
use rgb_multisig_hub.Routes.Respond.{save_response_psbt}

module _ {X : Type 0} (part : Db → X) (env : Env) (state : AppState)
    (entry : (row : ℕ → OpFile) → Keeps part (set_op_file env row)) where
  save_file-kept_part :
      (i : ℕ) (t : FileType) (content : List ℕ) → Keeps part (save_file env state i t content)
  unfolding save_file
  save_file-kept_part i t content =
      Keeps-bind (Keeps-ReadOnly part (ReadOnly-store_file env _ content)) (λ id. entry _)

  pub save_files-kept_part :
      (i : ℕ) (files : List (FileType × List ℕ)) → Keeps part (save_files env state i files)
  unfolding save_files
  save_files-kept_part i [] = Keeps-ReadOnly part (ReadOnly-pure _)
  save_files-kept_part i ((t, content) ∷ files) =
      let rest = save_files-kept_part i files in
      Keeps-bind (save_file-kept_part i t content) (λ _. rest)

  pub save_psbt-kept_part :
      (i : ℕ) (psbt : Option (List ℕ)) → Keeps part (save_psbt env state i psbt)
  unfolding save_psbt
  save_psbt-kept_part i none = Keeps-ReadOnly part (ReadOnly-pure _)
  save_psbt-kept_part i (some content) =
      Keeps-bind (save_file-kept_part i _ content) (λ _. Keeps-ReadOnly part (ReadOnly-pure _))

  pub save_response_psbt-kept_part :
      (i : ℕ) (psbt : Option (List ℕ)) → Keeps part (save_response_psbt env state i psbt)
  unfolding save_response_psbt
  save_response_psbt-kept_part i none = Keeps-ReadOnly part (ReadOnly-pure _)
  save_response_psbt-kept_part i (some content) =
      Keeps-bind (Keeps-ReadOnly part (ReadOnly-store_file env _ content))
        λ id. Keeps-bind (entry _) (λ k. Keeps-ReadOnly part (ReadOnly-pure _))
