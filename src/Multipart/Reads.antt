-- ===== src/Multipart/Reads.antt =====
-- Reading a field of a form leaves the tables alone.
use rgb_multisig_hub.Base.{ℕ, ◌+◌, String, Option, none, some, List, [], ◌∷◌, ◌++◌, length}
use rgb_multisig_hub.World.{Env}
use rgb_multisig_hub.World.Atomic.{
  ReadOnly, ReadOnly-bind, ReadOnly-pure, ReadOnly-raise, ReadOnly-io_step, read_only_rules,
}
use rgb_multisig_hub.Multipart.{
  Field, when_read, field_bytes, field_text, write_chunks, receive_file,
}

ReadOnly-when_read :
    {A : Type 0} (e : Option String) (s : String) (a : A) → ReadOnly (when_read e s a)
ReadOnly-when_read none s a = ReadOnly-pure a
ReadOnly-when_read (some e) s a = ReadOnly-raise _

pub ReadOnly-field_bytes : (field : Field) → ReadOnly (field_bytes field)
unfolding field_bytes
ReadOnly-field_bytes field = ReadOnly-when_read _ _ _

module _ (env : Env) where
  pub ReadOnly-field_text : (field : Field) → ReadOnly (field_text env field)
  unfolding field_text
  ReadOnly-field_text field = ReadOnly-when_read _ _ _

  ReadOnly-write_chunks :
      (chunks : List (List ℕ)) (e : Option String) (written : List ℕ) (size : ℕ)
      → ReadOnly (write_chunks env chunks e written size)
  unfolding write_chunks
  ReadOnly-write_chunks [] e written size = ReadOnly-when_read e _ _
  ReadOnly-write_chunks (chunk ∷ chunks) e written size =
      let rest = ReadOnly-write_chunks chunks e (written ++ chunk) (size + length chunk) in
      ReadOnly-bind (ReadOnly-io_step env _ _) (λ _. rest)

  pub ReadOnly-receive_file : (s : String) (field : Field) → ReadOnly (receive_file env s field)
  unfolding receive_file
  ReadOnly-receive_file s field = search (read_only_rules, ReadOnly-write_chunks) depth 12

pub ruleset multipart_reads =
    (read_only_rules, ReadOnly-field_bytes, ReadOnly-field_text, ReadOnly-receive_file)
