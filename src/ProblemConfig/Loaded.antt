-- ===== src/ProblemConfig/Loaded.antt =====
-- What a configuration that was loaded has.
use problem_verifier.Prelude.{
  ℕ, ◌≡◌, refl, ◌⊎◌, inl, inr, true, false, Option, none, some, codes, arith, [], ◌∷◌, ◌++◌, subst,
  strip, not, ◌&&◌, ◌==◌, list_eq, nat_eq,
}
use problem_verifier.Prelude.Result.{ok, ok-injective, >>=-eq-ok, raise_if, problem_config_error}
use problem_verifier.Json.{Members, find_member}
use problem_verifier.Runtime.{Runtime}
use problem_verifier.Files.{Files, FilePath, is_dir}
use problem_verifier.ProblemConfig.{
  ValidationMode, default, custom, custom_interactive, ProblemConfig, find_validator_dir,
}
use problem_verifier.ProblemConfig.ValidatorDir.{find_validator_dir-is_dir}
use problem_verifier.ProblemConfig.Load.{
  Yaml, lacks_validator, config_with, config_of, load_problem_config, mode_of, get, get_or,
  is_given, pass_fail, type_error_text, limits_of, flags_of, flags_source, no_validator_error,
  read_yaml, top_level,
}

module _ {R : Runtime} (Y : Yaml R) where
  -- The validator of a configuration is a directory, and only a default validation has none.
  abbrev pub HasValidator : Files → ProblemConfig R → Type 0
  HasValidator files config =
      ((config.validation ≡ default) × (config.validator_dir ≡ none))
      ⊎ ((p : FilePath) × (config.validator_dir ≡ some p) × (is_dir p files ≡ true))

  of_mode :
      (files : Files) (mode : ValidationMode) (dir : Option FilePath)
      → lacks_validator mode dir ≡ false
      → ((p : FilePath) → dir ≡ some p → is_dir p files ≡ true)
      → ((mode ≡ default) × (dir ≡ none))
        ⊎ ((p : FilePath) × (dir ≡ some p) × (is_dir p files ≡ true))
  of_mode files mode (some p) h k = inr (p, refl, k p refl)
  of_mode files default none h k = inl (refl, refl)
  of_mode files custom none h k = ground arith
  of_mode files custom_interactive none h k = ground arith

  config_with_lem :
      (raw : Members R.Float) (problem_dir : FilePath) (time_limit : R.Float) (memory_mib : ℕ)
      (multiplier : R.Float) (dir : Option FilePath) {config : ProblemConfig R}
      → config_with Y raw problem_dir time_limit memory_mib multiplier dir ≡ ok config
      → (config.validator_dir ≡ dir) × (lacks_validator config.validation dir ≡ false)
  unfolding config_with
  config_with_lem raw problem_dir time_limit memory_mib multiplier dir h =
      let (mode, mode_found, h1) = >>=-eq-ok (mode_of Y dir (get Y (codes "validation") raw)) _ h in
      let (done, given, h2) =
        >>=-eq-ok (raise_if (lacks_validator mode dir) (problem_config_error no_validator_error)) _
          h1 in
      let (flags, flags_found, h3) =
        >>=-eq-ok (flags_of Y (flags_source Y raw (get Y (codes "validator_flags") raw))) _ h2 in
      subst (λ c. (c.validator_dir ≡ dir) × (lacks_validator c.validation dir ≡ false))
        (ok-injective h3) (refl, ground arith)

  of_config :
      (files : Files) (problem_dir : FilePath) (config : ProblemConfig R) (dir : Option FilePath)
      → config.validator_dir ≡ dir
      → lacks_validator config.validation dir ≡ false
      → find_validator_dir problem_dir files ≡ ok dir
      → HasValidator files config
  of_config files problem_dir config dir same lacks found = rw same (
      of_mode files config.validation dir lacks
        λ p is. (find_validator_dir-is_dir problem_dir files (rw is at found)).0)

  config_of_lem :
      (raw : Members R.Float) (problem_dir : FilePath) (files : Files) (time_limit : R.Float)
      (memory_mib : ℕ) {config : ProblemConfig R}
      → config_of Y raw problem_dir files time_limit memory_mib ≡ ok config
      → HasValidator files config
  unfolding config_of
  config_of_lem raw problem_dir files time_limit memory_mib {config} h =
      let problem_type = strip (get_or Y Y.text_of pass_fail (find_member (codes "type") raw)) in
      let is_new = is_given Y (find_member (codes "problem_format_version") raw) in
      let (t, typed, h1) =
        >>=-eq-ok
          (raise_if (is_new && not (problem_type == pass_fail))
            (problem_config_error (type_error_text Y problem_type)))
          _ h in
      let (limits, e1, h2) = >>=-eq-ok (limits_of Y (get Y (codes "limits") raw)) _ h1 in
      let (limit, e2, h3) =
        >>=-eq-ok (get_or Y Y.float_value (ok time_limit) (find_member (codes "time_limit") limits))
          _ h2 in
      let (memory, e3, h4) =
        >>=-eq-ok (get_or Y Y.nat_value (ok memory_mib) (find_member (codes "memory") limits)) _
          h3 in
      let (multiplier, e4, h5) =
        >>=-eq-ok
          (get_or Y Y.float_value (ok (R.of_nat 5)) (find_member (codes "time_multiplier") limits))
          _ h4 in
      let (dir, found, h6) = >>=-eq-ok (find_validator_dir problem_dir files) _ h5 in
      let (same, lacks) = config_with_lem raw problem_dir limit memory multiplier dir h6 in
      of_config files problem_dir config dir same lacks found

  -- A configuration that is loaded has a validator whose directory is there, unless its validation is
  -- the default one; so the assertions on the directory hold when the solution is judged.
  pub load_problem_config-HasValidator :
      (problem_dir : FilePath) (files : Files) (time_limit : R.Float) (memory_mib : ℕ)
      {config : ProblemConfig R}
      → load_problem_config Y problem_dir files time_limit memory_mib ≡ ok config
      → HasValidator files config
  unfolding load_problem_config
  load_problem_config-HasValidator problem_dir files time_limit memory_mib h =
      let path = problem_dir ++ (codes "problem.yaml" ∷ []) in
      let (document, e1, h1) = >>=-eq-ok (read_yaml Y path files) _ h in
      let (raw, e2, h2) = >>=-eq-ok (top_level Y document) _ h1 in
      config_of_lem raw problem_dir files time_limit memory_mib h2
