-- ===== src/Startup/Version.antt =====
-- The version of rgb-lib in the configuration, as src/startup.rs reads it and holds it against the
-- supported range.
use Prim.Native.String.{◌++◌ as append}
use rgb_multisig_hub.Base.{ℕ, String, ◌&&◌, ◌||◌, List, [], ◌∷◌, ◌==◌, ltb}
use rgb_multisig_hub.Errors.{AppError}
use rgb_multisig_hub.Text.{split, parse_u32}
use rgb_multisig_hub.World.{M, pure, raise, ok_or, raise_if, ◌>>=◌, ◌>>◌}

abbrev pub min_rgb_lib_version : String
min_rgb_lib_version = "0.3"

abbrev pub max_rgb_lib_version : String
max_rgb_lib_version = "0.3"

-- The numbers of a text that has been split at its dots.
unfoldable pub parse_parts : String → List String → M AppError (ℕ × ℕ)
parse_parts version (first ∷ second ∷ []) = do
  major ←
      ok_or (parse_u32 first)
        (AppError.invalid_rgb_lib_version (append "invalid major version: " first))
  minor ←
      ok_or (parse_u32 second)
        (AppError.invalid_rgb_lib_version (append "invalid minor version: " second))
  pure (major, minor)
parse_parts version _ = raise (
    AppError.invalid_rgb_lib_version
      (append "version must be in format 'major.minor', got: " version))

unfoldable pub parse_version : String → M AppError (ℕ × ℕ)
unfolding parse_parts
parse_version version = parse_parts version (split 46 version)

-- The messages name the constants, whatever the parameters are.
unfoldable pub validate_rgb_lib_version : String → String → String → M AppError (Unit {0})
unfolding parse_version
validate_rgb_lib_version version min_version max_version = do
  (major, minor) ← parse_version version
  (min_major, min_minor) ← parse_version min_version
  (max_major, max_minor) ← parse_version max_version
  raise_if (ltb major min_major || major == min_major && ltb minor min_minor) (
      AppError.invalid_rgb_lib_version (
        append "rgb-lib version "
          (append version (append " is below minimum supported version " min_rgb_lib_version))))
  raise_if (ltb max_major major || major == max_major && ltb max_minor minor) (
      AppError.invalid_rgb_lib_version (
        append "rgb-lib version "
          (append version (append " is above maximum supported version " max_rgb_lib_version))))
