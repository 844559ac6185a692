-- ===== src/Config/Load.antt =====
-- relay/config.py: `load_config`. The file system and the YAML parser are outside.
use openai_ipmi_proxy.Prelude.{
  ◌≡◌, refl, ap, ◌∙◌, sym, inl, inr, Bool-cases, arith, Bool, true, false, Option, none, some,
  if◌then◌else◌,
}
use openai_ipmi_proxy.Config.Result.{
  ConfigError, file_not_found, invalid_yaml, not_a_mapping_at_top, Result, ok, raised, ◌>>=◌,
  Ensures, Ensures-raised, Ensures-after,
}
use openai_ipmi_proxy.Config.Node.{Node, null, bool, int, float, text, other, list, mapping, Floats}
use openai_ipmi_proxy.Config.Models.{RelayConfig}
use openai_ipmi_proxy.Config.Sections.{Outside}
use openai_ipmi_proxy.Config.Build.{build}
use openai_ipmi_proxy.Config.Rules.{OrderedLiterals, IsConfig}
use openai_ipmi_proxy.Config.Valid.Power.{HostRequired, build_power-HostRequired}
use openai_ipmi_proxy.Config.Valid.Whole.{build-IsConfig}
use openai_ipmi_proxy.Config.Environ.{Environ, EnvFiles, load_env_files, load_env_files_twice}
use openai_ipmi_proxy.Config.Interpolate.{interpolate}

-- The files: whether there is a configuration, what the parser makes of it (`none` where it raises
-- `YAMLError`), and the files of variables
pub record Disk (F : Type 0) : Type 0 where
  pub is_file : Bool
  pub document : Option (Node F)
  pub env_files : EnvFiles

-- `isinstance(raw, dict)`
abbrev pub as_mapping : {F : Type 0} → Option (Node F) → Result (Node F)
as_mapping none = raised invalid_yaml
as_mapping (some (mapping fields)) = ok (mapping fields)
as_mapping (some v) = raised not_a_mapping_at_top

module _ {F : Type 0} (floats : Floats F) (outside : Outside) where
  -- `_build(data)` of a mapping, which `_interpolate` keeps one
  abbrev pub build_node : Node F → Result (RelayConfig F)
  build_node (mapping fields) = build floats outside fields
  build_node v = raised not_a_mapping_at_top

  unfoldable pub read_config : Environ → Option (Node F) → Result (RelayConfig F)
  unfolding build interpolate
  read_config environ document = do
    raw ← as_mapping document
    node ← interpolate environ "$" raw
    build_node node

  -- The environment as the call leaves it, and the result
  unfoldable pub load_config : Disk F → Environ → Environ × Result (RelayConfig F)
  unfolding read_config load_env_files
  load_config disk environ =
      if disk.is_file
      then (let loaded = load_env_files disk.env_files environ in
          (loaded, read_config loaded disk.document))
      else (environ, raised file_not_found)

  build_node-IsConfig :
      (ordered : OrderedLiterals floats) (v : Node F)
      → Ensures (IsConfig floats outside) (build_node v)
  build_node-IsConfig ordered (mapping fields) = record {
    result = build-IsConfig floats outside ordered fields;
  }
  build_node-IsConfig ordered null = Ensures-raised _
  build_node-IsConfig ordered (bool b) = Ensures-raised _
  build_node-IsConfig ordered (int n) = Ensures-raised _
  build_node-IsConfig ordered (float x) = Ensures-raised _
  build_node-IsConfig ordered (text s) = Ensures-raised _
  build_node-IsConfig ordered (other b) = Ensures-raised _
  build_node-IsConfig ordered (list items) = Ensures-raised _

  read_config-IsConfig :
      (ordered : OrderedLiterals floats) (environ : Environ) (document : Option (Node F))
      → Ensures (IsConfig floats outside) (read_config environ document)
  unfolding read_config
  read_config-IsConfig ordered environ document =
      Ensures-after
        λ raw is_mapping. Ensures-after λ node interpolated. build_node-IsConfig ordered node

  load_config-read :
      (disk : Disk F) (environ : Environ)
      → disk.is_file ≡ true
      → load_config disk environ ≡ (
        load_env_files disk.env_files environ,
        read_config (load_env_files disk.env_files environ) disk.document,
      )
  load_config-read disk environ h = unfold load_config in rw h refl

  load_config-missing :
      (disk : Disk F) (environ : Environ)
      → disk.is_file ≡ false
      → load_config disk environ ≡ (environ, raised file_not_found)
  load_config-missing disk environ h = unfold load_config in rw h refl

  not_ok : (error : ConfigError) (config : RelayConfig F) → ¬ (raised error ≡ ok config)
  not_ok error config h = ground (arith, h)

  -- The call of `load_config` in `create_app`, after the one in `main`, finds the same files, leaves the environment as the first one left it, and has the same result, whether a configuration or an error.
  pub load_config_twice :
      (disk : Disk F) (environ : Environ)
      → load_config disk (load_config disk environ).0 ≡ load_config disk environ
  load_config_twice disk environ = elim (Bool-cases disk.is_file) [
    | inl there ↦
        let first = load_config-read disk environ there in
        ap (λ p. load_config disk p.0) first
        ∙ load_config-read disk _ there
        ∙ ap (λ e. (e, read_config e disk.document)) (load_env_files_twice disk.env_files environ)
        ∙ sym first
    | inr missing ↦ ap (λ p. load_config disk p.0) (load_config-missing disk environ missing)
  ]

  -- Whatever files and environment there are, a configuration that `load_config` returns is valid, given that the literals of the floats are ordered as the numbers they stand for. The names of the servers, of the endpoints and of the clients stand once, and so does each path prefix; each endpoint names a configured server, its prefix begins with a slash, and it has a slot if it is queued; at most one is the catch-all; each power block is the one of its server's type: of redfish with a user and a password that are not blank, and a block that has neither a host nor a base URL is refused; of noop with a known state; of aws-ec2 with a region and an instance that are not blank, a known way to turn off, and two keys or a profile; each schedule is a cron expression of five fields; the database can be created at its path, as far as the nearest directory that exists tells; and no port, timeout, interval, depth or retention is below its minimum.
  pub load_config-IsConfig :
      (ordered : OrderedLiterals floats) (disk : Disk F) (environ : Environ)
      (config : RelayConfig F)
      → (load_config disk environ).1 ≡ ok config
      → IsConfig floats outside config × HostRequired F
  load_config-IsConfig ordered disk environ config h = elim (Bool-cases disk.is_file) [
    | inl there ↦ (
      (read_config-IsConfig ordered _ disk.document).result config
          (sym (ap (λ p. p.1) (load_config-read disk environ there)) ∙ h),
      build_power-HostRequired,
    )
    | inr missing ↦
        absurd
          (not_ok _ config (sym (ap (λ p. p.1) (load_config-missing disk environ missing)) ∙ h))
  ]
