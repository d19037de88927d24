-- ===== src/ProblemConfig/Load.antt =====
-- `load_problem_config` of src/icpc_verify/problemcfg.py. A YAML document is read as the values that JSON
-- has too; PyYAML is a parameter, with Python's conversions of what it returns.
use problem_verifier.Prelude.{
  ℕ, Bool, true, false, not, ◌&&◌, List, [], ◌∷◌, ◌++◌, Option, none, some, Str, Bytes, codes,
  if◌then◌else◌, ◌==◌, nat_eq, list_eq, join, split, strip,
}
use problem_verifier.Prelude.Result.{
  Result, ok, err, ◌>>=◌, ◌>>◌, raise_if, problem_config_error, value_error,
}
use problem_verifier.Json.{
  Json, null, text, array, object, Items, nil, cons, Members, end, find_member,
}
use problem_verifier.Runtime.{Runtime}
use problem_verifier.Files.{Files, FilePath, is_file, read_bytes, file_name, path_text}
use problem_verifier.Sandbox.{truth}
use problem_verifier.ProblemConfig.{
  ValidationMode, default, custom, custom_interactive, ProblemConfig, find_validator_dir,
}

pub record Yaml (R : Runtime) : Type 0 where
  -- `yaml.safe_load(text)`; `none` is the `YAMLError`.
  pub load : Str → Option (Json R.Float)
  -- `str(x)`, `float(x)` and `int(x)` of a value
  pub text_of : Json R.Float → Str
  pub float_value : Json R.Float → Result R.Float
  pub nat_value : Json R.Float → Result ℕ
  -- `shlex.split(text)`
  pub split_shell : Str → Result (List Str)

unfoldable pub no_yaml_error : FilePath → Str
no_yaml_error path = codes "problem.yaml 이 없습니다: " ++ path_text path

unfoldable pub yaml_error : Str
yaml_error = codes "problem.yaml 파싱에 실패했습니다"

unfoldable pub top_level_error : Str
top_level_error = codes "problem.yaml 의 최상위는 mapping 이어야 합니다"

unfoldable pub limits_error : Str
limits_error = codes "limits 는 mapping 이어야 합니다"

unfoldable pub no_validator_error : Str
no_validator_error = codes "validation 이 custom 인데 output_validator(s)/ 디렉토리를 찾지 못했습니다"

unfoldable pub flags_error : Str
flags_error = codes "validator_flags 는 문자열이나 리스트여야 합니다"

abbrev pub pass_fail : Str
pass_fail = codes "pass-fail"

-- Only a default validation does without a validator.
abbrev pub lacks_validator : ValidationMode → Option FilePath → Bool
lacks_validator default validator_dir = false
lacks_validator custom none = true
lacks_validator custom (some p) = false
lacks_validator custom_interactive none = true
lacks_validator custom_interactive (some p) = false

abbrev pub default_mode : Option FilePath → ValidationMode
default_mode none = default
default_mode (some p) = custom

module _ {R : Runtime} (Y : Yaml R) where
  unfoldable pub type_error_text : Str → Str
  type_error_text problem_type =
      codes "type 이 " ++ (R.repr problem_type ++ codes " 입니다. pass-fail 문제만 지원합니다")

  unfoldable pub validation_error : Str → Str
  validation_error value = codes "알 수 없는 validation 값입니다: " ++ R.repr value

  abbrev parsed : Option (Json R.Float) → Result (Json R.Float)
  parsed none = err (problem_config_error yaml_error)
  parsed (some raw) = ok raw

  abbrev decoded : Option Str → Result (Json R.Float)
  decoded none = err value_error
  decoded (some content) = parsed (Y.load content)

  abbrev read_yaml_bytes : Result Bytes → Result (Json R.Float)
  read_yaml_bytes (ok data') = decoded (R.decode_strict data')
  read_yaml_bytes (err e) = err e

  unfoldable pub read_yaml : FilePath → Files → Result (Json R.Float)
  read_yaml path files =
      if not (is_file path files)
      then err (problem_config_error (no_yaml_error path))
      else read_yaml_bytes (read_bytes path files)

  unfoldable pub top_level : Json R.Float → Result (Members R.Float)
  top_level null = ok end
  top_level (object members) = ok members
  top_level _ = err (problem_config_error top_level_error)

  -- `raw.get(key)`
  abbrev pub or_none : Option (Json R.Float) → Json R.Float
  or_none none = null
  or_none (some value) = value

  abbrev pub get : Str → Members R.Float → Json R.Float
  get key members = or_none (find_member key members)

  abbrev pub is_given : Option (Json R.Float) → Bool
  is_given none = false
  is_given (some value) = true

  abbrev pub get_or : {A : Type 0} → (Json R.Float → A) → A → Option (Json R.Float) → A
  get_or read fallback none = fallback
  get_or read fallback (some value) = read value

  abbrev mapping : Json R.Float → Result (Members R.Float)
  mapping (object members) = ok members
  mapping _ = err (problem_config_error limits_error)

  unfoldable pub limits_of : Json R.Float → Result (Members R.Float)
  limits_of value = if truth R value then mapping value else ok end

  abbrev mode_named : Str → Result ValidationMode
  mode_named name =
      if name == codes "default"
      then ok default
      else if name == codes "custom"
      then ok custom
      else if name == codes "custom interactive"
      then ok custom_interactive
      else err (problem_config_error (validation_error name))

  unfoldable pub mode_of : Option FilePath → Json R.Float → Result ValidationMode
  mode_of validator_dir null = ok (default_mode validator_dir)
  mode_of validator_dir value = mode_named (join (codes " ") (split (Y.text_of value)))

  abbrev args_of : Json R.Float → Json R.Float
  args_of (object members) = get (codes "args") members
  args_of _ = null

  -- `flags_source`: of an empty `output_validator`, as of one that is no mapping, there are no args.
  unfoldable pub flags_source : Members R.Float → Json R.Float → Json R.Float
  flags_source raw null = args_of (get (codes "output_validator") raw)
  flags_source raw value = value

  abbrev item_texts : Items R.Float → List Str
  item_texts nil = []
  item_texts (cons value items) = Y.text_of value ∷ item_texts items

  unfoldable pub flags_of : Json R.Float → Result (List Str)
  flags_of null = ok []
  flags_of (text value) = Y.split_shell value
  flags_of (array items) = ok (item_texts items)
  flags_of _ = err (problem_config_error flags_error)

  unfoldable pub format_of : Bool → Str
  format_of is_new = if is_new then codes "2023-07" else codes "legacy"

  -- From `raw_validation` on.
  unfoldable pub config_with :
      Members R.Float
      → FilePath
      → R.Float
      → ℕ
      → R.Float
      → Option FilePath
      → Result (ProblemConfig R)
  config_with raw problem_dir time_limit memory_mib time_multiplier validator_dir = do
    mode ← mode_of validator_dir (get (codes "validation") raw)
    raise_if (lacks_validator mode validator_dir) (problem_config_error no_validator_error)
    flags ← flags_of (flags_source raw (get (codes "validator_flags") raw))
    ok (record {
      name = get_or Y.text_of (file_name problem_dir) (find_member (codes "name") raw);
      time_limit = time_limit;
      memory_mib = memory_mib;
      time_multiplier = time_multiplier;
      validation = mode;
      validator_flags = flags;
      validator_dir = validator_dir;
      format_version = format_of (is_given (find_member (codes "problem_format_version") raw));
    })

  -- Behind the top level: the type, the limits and the validator's directory.
  unfoldable pub config_of :
      Members R.Float → FilePath → Files → R.Float → ℕ → Result (ProblemConfig R)
  config_of raw problem_dir files default_time_limit default_memory_mib = do
    let is_new = is_given (find_member (codes "problem_format_version") raw)
    let problem_type = strip (get_or Y.text_of pass_fail (find_member (codes "type") raw))
    raise_if (is_new && not (problem_type == pass_fail))
        (problem_config_error (type_error_text problem_type))
    limits ← limits_of (get (codes "limits") raw)
    time_limit ←
        get_or Y.float_value (ok default_time_limit) (find_member (codes "time_limit") limits)
    memory_mib ← get_or Y.nat_value (ok default_memory_mib) (find_member (codes "memory") limits)
    time_multiplier ←
        get_or Y.float_value (ok (R.of_nat 5)) (find_member (codes "time_multiplier") limits)
    validator_dir ← find_validator_dir problem_dir files
    config_with raw problem_dir time_limit memory_mib time_multiplier validator_dir

  unfoldable pub load_problem_config : FilePath → Files → R.Float → ℕ → Result (ProblemConfig R)
  load_problem_config problem_dir files default_time_limit default_memory_mib = do
    document ← read_yaml (problem_dir ++ (codes "problem.yaml" ∷ [])) files
    raw ← top_level document
    config_of raw problem_dir files default_time_limit default_memory_mib
