-- ===== src/Start.antt =====
-- cmd/controller/main.go up to the call of `sharedmain.MainWithConfig`, and pkg/version/version.go.
use Prim.Native.Char.{code}
use Prim.Native.String as Str
use tektoncd_pruner.Prelude.{
  String, ℤ, ◌+ℤ◌, eqb_ℤ, pos, Bool, not, List, [], ◌∷◌, ◌==◌, if◌then◌else◌,
}
use tektoncd_pruner.Go.Text.{same, split}
use tektoncd_pruner.Go.Time.{wrap64}

-- The values of the command line's flags, as they are parsed.
pub record Flags : Type 0 where
  pub threads_per_controller : ℤ
  pub namespace : String
  pub disable_ha : Bool

-- `strings.ReplaceAll(s, " ", "")`; 32 is the code of the space
unfoldable pub without_spaces : String → String
without_spaces Str.[] = ""
without_spaces (Str.◌∷◌ c s) =
    let rest = without_spaces s in if same (code c) 32 then rest else Str.◌∷◌ c rest

-- the namespaces that the program logs; 44 is the code of the comma
unfoldable pub scoped_namespaces : String → List String
unfolding without_spaces split
scoped_namespaces namespace =
    if not (namespace == "") then split 44 (without_spaces namespace) else []

-- The controllers that the program starts.
pub data ControllerName : Type 0 where
  tekton_pruner_controller pipeline_run_controller task_run_controller : ControllerName

-- `version.Version` and `version.Get`: what the build sets, and what the runtime knows.
pub record Version : Type 0 where
  pub version : String
  pub git_commit : String
  pub build_date : String
  pub go_lang : String
  pub platform : String
  pub arch : String

unfoldable pub get_version : String → String → String → String → String → String → Version
get_version version git_commit build_date go_lang platform arch = record {
  git_commit = git_commit;
  version = version;
  build_date = build_date;
  go_lang = go_lang;
  platform = platform;
  arch = arch;
}

-- `float32` with the operations that the program uses, and the defaults of the vendored `rest`.
module _ (Float32 : Type 0) (is_zero : Float32 → Bool) (doubled : Float32 → Float32)
    (default_qps : Float32) (default_burst : ℤ) where
  -- `rest.Config`: how many requests per second the client may make
  pub record Config : Type 0 where
    pub qps : Float32
    pub burst : ℤ

  -- `2 * n`, of an `int`
  abbrev double : ℤ → ℤ
  double n = wrap64 (n +ℤ n)

  -- the defaults where the configuration sets nothing, and then twice the rates, for the controllers
  unfoldable pub with_rates : Config → Config
  unfolding wrap64 ◌+ℤ◌
  with_rates cfg =
      let qps = if is_zero cfg.qps then doubled default_qps else cfg.qps in
      let burst = if eqb_ℤ cfg.burst (pos 0) then default_burst else cfg.burst in
      record { qps = doubled qps; burst = double burst }

  -- What `MainWithConfig` is called with, and what was logged before.
  pub record Start : Type 0 where
    pub default_threads_per_controller : ℤ
    pub logged_namespaces : List String
    pub ha_disabled : Bool
    pub component : String
    pub config : Config
    pub controllers : List ControllerName

  -- `main`
  unfoldable pub main : Flags → Config → Start
  unfolding with_rates scoped_namespaces
  main flags cfg = record {
    default_threads_per_controller = flags.threads_per_controller;
    logged_namespaces = scoped_namespaces flags.namespace;
    ha_disabled = flags.disable_ha;
    component = "tekton-pruner-controller";
    config = with_rates cfg;
    controllers = tekton_pruner_controller ∷ pipeline_run_controller ∷ task_run_controller ∷ [];
  }
