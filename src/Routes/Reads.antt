-- ===== src/Routes/Reads.antt =====
-- The requests of src/routes.rs that read, and the parts of the others that do, leave the tables alone.
use rgb_multisig_hub.Base.{ℕ, String, str_eq, Option, none, some, List, [], ◌∷◌, refl}
use rgb_multisig_hub.Errors.{ApiError}
use rgb_multisig_hub.World.{Env, World, M, pure, OpFile, Cosigner, CosignerOpStatus, Operation}
use rgb_multisig_hub.World.Atomic.{
  ReadOnly, ReadOnly-bind, ReadOnly-pure, ReadOnly-if, read_only_rules,
}
use rgb_multisig_hub.Database.Reads.{database_reads}
use rgb_multisig_hub.State.{AppState}
use rgb_multisig_hub.Auth.{AuthenticatedUser}
use rgb_multisig_hub.Routes.Lookup.{
  FileMetadata, file_size, operation_files, add_response_file, response_of, response_file,
  response_files, operation_response, get_operation_by_idx_with_files, get_operation_by_idx,
  get_file, info,
}
use rgb_multisig_hub.Routes.Addresses.{get_current_address_indices}

ReadOnly-gets : {A : Type 0} (f : World → A) → ReadOnly {E = ApiError} (λ w. pure (f w) w)
unfolding pure
ReadOnly-gets f = record { same = λ w. refl }

module _ (env : Env) (state : AppState) where
  ReadOnly-file_size : (id : String) → ReadOnly (file_size env state id)
  unfolding file_size
  ReadOnly-file_size id = search (read_only_rules, ReadOnly-gets) depth 8

  pub ReadOnly-operation_files :
      (xpub : String) (files : List OpFile) → ReadOnly (operation_files env state xpub files)
  unfolding operation_files
  ReadOnly-operation_files xpub [] = ReadOnly-pure _
  ReadOnly-operation_files xpub (file ∷ files) =
      let rest = ReadOnly-operation_files xpub files in
      ReadOnly-bind (ReadOnly-file_size file.file_id)
        λ size. ReadOnly-bind rest (λ r. ReadOnly-pure _)

  pub ReadOnly-response_file : (c : Cosigner) (i : ℕ) → ReadOnly (response_file env state c i)
  unfolding response_file
  ReadOnly-response_file c i = search (database_reads, ReadOnly-file_size) depth 8

  ReadOnly-add_response_file :
      (c : Cosigner) (psbt : Option ℕ) {rest : M ApiError (List FileMetadata)}
      → ReadOnly rest
      → ReadOnly (add_response_file env state c psbt rest)
  unfolding add_response_file
  ReadOnly-add_response_file c none r = r
  ReadOnly-add_response_file c (some i) r =
      ReadOnly-bind (ReadOnly-response_file c i) λ file. ReadOnly-bind r (λ files. ReadOnly-pure _)

  ReadOnly-response_files :
      (xpub : String) (entries : List (CosignerOpStatus × Cosigner))
      → ReadOnly (response_files env state xpub entries)
  unfolding response_files
  ReadOnly-response_files xpub [] = ReadOnly-pure _
  ReadOnly-response_files xpub ((status, c) ∷ entries) =
      let rest = ReadOnly-response_files xpub entries in
      ReadOnly-if (str_eq c.xpub xpub) rest
        (ReadOnly-add_response_file c status.psbt_op_file_idx rest)

  ReadOnly-operation_response :
      (op : Operation) (c : Option ℕ) → ReadOnly (operation_response env state op c)
  unfolding operation_response
  ReadOnly-operation_response op c =
      search (database_reads, ReadOnly-operation_files, ReadOnly-response_files) depth 16

  ReadOnly-response_of :
      (c : Option ℕ) (found : Option Operation) → ReadOnly (response_of env state c found)
  unfolding response_of
  ReadOnly-response_of c none = ReadOnly-pure _
  ReadOnly-response_of c (some op) =
      ReadOnly-bind (ReadOnly-operation_response op c) (λ r. ReadOnly-pure _)

  pub ReadOnly-get_operation_by_idx_with_files :
      (i : ℕ) (c : Option ℕ) → ReadOnly (get_operation_by_idx_with_files env state i c)
  unfolding get_operation_by_idx_with_files
  ReadOnly-get_operation_by_idx_with_files i c = search (database_reads, ReadOnly-response_of)

  pub ReadOnly-get_operation_by_idx :
      (user : AuthenticatedUser) (i : ℕ) → ReadOnly (get_operation_by_idx env state user i)
  unfolding get_operation_by_idx
  ReadOnly-get_operation_by_idx user i = ReadOnly-get_operation_by_idx_with_files i _

  pub ReadOnly-get_file : (id : String) → ReadOnly (get_file env state id)
  unfolding get_file
  ReadOnly-get_file id = search (read_only_rules, ReadOnly-gets) depth 10

  pub ReadOnly-info : (user : AuthenticatedUser) → ReadOnly (info env state user)
  unfolding info
  ReadOnly-info user = search database_reads

module _ (env : Env) where
  pub ReadOnly-get_current_address_indices : ReadOnly (get_current_address_indices env)
  unfolding get_current_address_indices
  ReadOnly-get_current_address_indices = search database_reads
