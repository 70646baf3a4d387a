-- ===== src/Routes/FormReads.antt =====
-- Reading and checking the forms of `post_operation` and `respond_to_operation` leaves the tables
-- alone.
use rgb_multisig_hub.Base.{ℕ, Bool, true, false, Option, none, some, List, [], ◌∷◌}
use rgb_multisig_hub.Operations.{FileType}
use rgb_multisig_hub.World.{Env}
use rgb_multisig_hub.World.Atomic.{
  ReadOnly, ReadOnly-bind, ReadOnly-pure, ReadOnly-raise, ReadOnly-raise_if, read_only_rules,
}
use rgb_multisig_hub.Multipart.{Field}
use rgb_multisig_hub.Multipart.Reads.{multipart_reads}
use rgb_multisig_hub.Database.Reads.{database_reads}
use rgb_multisig_hub.Routes.Post.Form
use rgb_multisig_hub.Routes.Post.Form.{PostForm}
use rgb_multisig_hub.Routes.Post.Save.{check_post_allowed}
use rgb_multisig_hub.Routes.Respond
use rgb_multisig_hub.Routes.Respond.{RespondForm}

ReadOnly-add_file :
    (t : FileType) (content : List ℕ) (form : PostForm) → ReadOnly (Form.add_file t content form)
unfolding Form.add_file
ReadOnly-add_file t content form = search read_only_rules depth 6

ReadOnly-check_seed : (b : Bool) (seed : Option (List ℕ)) → ReadOnly (Form.check_seed b seed)
unfolding Form.check_seed
ReadOnly-check_seed true none = ReadOnly-raise _
ReadOnly-check_seed false (some s) = ReadOnly-raise _
ReadOnly-check_seed true (some s) = ReadOnly-pure _
ReadOnly-check_seed false none = ReadOnly-pure _

module _ (env : Env) where
  ReadOnly-read_operation_type :
      (field : Field) (form : PostForm) → ReadOnly (Form.read_operation_type env field form)
  unfolding Form.read_operation_type
  ReadOnly-read_operation_type field form = search multipart_reads depth 8

  ReadOnly-read_seed : (field : Field) (form : PostForm) → ReadOnly (Form.read_seed env field form)
  unfolding Form.read_seed
  ReadOnly-read_seed field form = search multipart_reads depth 8

  ReadOnly-read_file_field :
      (field : Field) (form : PostForm) → ReadOnly (Form.read_file_field env field form)
  unfolding Form.read_file_field
  ReadOnly-read_file_field field form = search (multipart_reads, ReadOnly-add_file) depth 8

  ReadOnly-post_field :
      (field : Field) (form : PostForm) → ReadOnly (Form.read_field env field form)
  unfolding Form.read_field
  ReadOnly-post_field field form =
      search
        (
          read_only_rules, ReadOnly-read_operation_type, ReadOnly-read_seed,
          ReadOnly-read_file_field,
        )
        depth 8

  pub ReadOnly-post_form :
      (fields : List Field) (broken : Bool) (form : PostForm)
      → ReadOnly (Form.read_form env fields broken form)
  unfolding Form.read_form
  ReadOnly-post_form [] broken form =
      ReadOnly-bind (ReadOnly-raise_if broken _) (λ _. ReadOnly-pure form)
  ReadOnly-post_form (field ∷ fields) broken form =
      let rest = ReadOnly-post_form fields broken in
      ReadOnly-bind (ReadOnly-post_field field form) rest

  pub ReadOnly-check_post_allowed : (c : ℕ) → ReadOnly (check_post_allowed env c)
  unfolding check_post_allowed
  ReadOnly-check_post_allowed c = search database_reads depth 8

  ReadOnly-respond_field :
      (field : Field) (form : RespondForm) → ReadOnly (Respond.read_field env field form)
  unfolding Respond.read_field
  ReadOnly-respond_field field form = search multipart_reads depth 10

  pub ReadOnly-respond_form :
      (fields : List Field) (broken : Bool) (form : RespondForm)
      → ReadOnly (Respond.read_form env fields broken form)
  unfolding Respond.read_form
  ReadOnly-respond_form [] broken form =
      ReadOnly-bind (ReadOnly-raise_if broken _) (λ _. ReadOnly-pure form)
  ReadOnly-respond_form (field ∷ fields) broken form =
      let rest = ReadOnly-respond_form fields broken in
      ReadOnly-bind (ReadOnly-respond_field field form) rest

  pub ReadOnly-check_respond_allowed : (c i : ℕ) → ReadOnly (Respond.check_respond_allowed env c i)
  unfolding Respond.check_respond_allowed
  ReadOnly-check_respond_allowed c i = search database_reads depth 14

pub ReadOnly-post_validate : (form : PostForm) → ReadOnly (Form.validate_form form)
unfolding Form.validate_form
ReadOnly-post_validate form = search (read_only_rules, ReadOnly-check_seed) depth 8

pub ReadOnly-respond_validate : (form : RespondForm) → ReadOnly (Respond.validate_form form)
unfolding Respond.validate_form
ReadOnly-respond_validate form = search read_only_rules depth 8
