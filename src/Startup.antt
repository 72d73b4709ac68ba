-- ===== src/Startup.antt =====
-- cmd/gopass/main.go: what the program does when it starts. What the system answers is a parameter; the calls
-- that `main` makes to the engine, the settings server and the driver's clean-up are listed in their order.
pub mod Loading
pub mod Running
pub mod Examples
use go_pass.Base.{
  ℕ, Bool, true, false, not, ◌&&◌, List, [], ◌∷◌, ◌++◌, Option, none, some, if◌then◌else◌, Text,
  Text-discrete, Bytes, codes, lookup, insert, erase,
}
use go_pass.Config.{Config, default_config, load, Files, Disk, save}
use go_pass.Singleton.{AcquireError}
use go_pass.Singleton.Processes.{System, acquired_by}
use go_pass.Singleton.{Creation}
use go_pass.Engine.Control.{Engine}
use go_pass.Engine.Lifecycle.{Machine, StartError, new, start}

-- JSON, whether an existing file can be read, whether it is a directory, and whether `Rename` works.
pub record Surroundings : Type 0 where
  pub decode : Bytes → Config → Option Config
  pub print : Config → Option Bytes
  pub read_ok : Bool
  pub is_dir : Bool
  pub rename_ok : Bool
  pub disk : Disk

abbrev pub read_file : Surroundings → Files → Text → Option Bytes
read_file s fs path = if s.read_ok && not s.is_dir then lookup Text-discrete path fs else none

-- `errors.Is(err, fs.ErrNotExist)`
abbrev pub is_missing : Surroundings → Files → Text → Bool
is_missing s fs path =
    s.read_ok
    && not s.is_dir
    && elim (lookup Text-discrete path fs) [ none ↦ true | some _ ↦ false ]

abbrev pub rename : Text → Text → Files → Files
rename path backup fs = elim (lookup Text-discrete path fs) [
  | none ↦ fs
  | some content ↦ insert Text-discrete backup content (erase Text-discrete path fs)
]

abbrev pub backup_of : Text → Text
backup_of path = path ++ codes ".corrupt"

-- A configuration that cannot be loaded; none is `log.Fatalf`.
unfoldable pub replace_corrupt : Surroundings → Text → Files → Option Config × Files
unfolding save default_config lookup erase
replace_corrupt s path fs =
    if s.is_dir
    then (none, fs)
    else if s.rename_ok
    then (
      some default_config,
      (save s.print s.disk default_config path (rename path (backup_of path) fs)).0,
    )
    else (some default_config, fs)

unfoldable pub load_config : Surroundings → Text → Files → Option Config × Files
unfolding replace_corrupt load
load_config s path fs = elim (load (read_file s fs) s.decode path) [
  | some cfg ↦ (some cfg, fs)
  | none ↦
      if is_missing s fs path
      then (some default_config, (save s.print s.disk default_config path fs).0)
      else replace_corrupt s path fs
]

pub data Call : Type 0 where
  cleans_up starts_engine starts_api shuts_down_api stops_engine : Call

pub data Ending : Type 0 where
  not_alone : AcquireError → Ending
  config_is_directory : Ending
  not_started : StartError → Ending
  finished : Ending

-- `main` of process `p` from the moment that it has the lock, until it is told to quit.
unfoldable pub run_alone :
    Type 0 → Surroundings → Machine → (Text → Bool) → Text → Files → List Call × (Files × Ending)
unfolding load_config new start
run_alone S s m api_listens path fs =
    let (loaded, fs') = load_config s path fs in
    elim loaded [
      | none ↦ (cleans_up ∷ [], (fs', config_is_directory))
      | some cfg ↦
          let (e, tracker) = new {S = S} cfg in
          elim (start m tracker e).1.0 [
            | some err ↦ (cleans_up ∷ starts_engine ∷ [], (fs', not_started err))
            | none ↦
                if api_listens cfg.listen_addr
                then (
                  cleans_up ∷ starts_engine ∷ starts_api ∷ shuts_down_api ∷ stops_engine ∷ [],
                  (fs', finished),
                )
                else (cleans_up ∷ starts_engine ∷ starts_api ∷ stops_engine ∷ [], (fs', finished))
          ]
    ]

unfoldable pub main :
    Type 0
    → (Text → Option Bytes)
    → ℕ
    → (Bytes → Creation)
    → Surroundings
    → Machine
    → (Text → Bool)
    → Text
    → System
    → Files
    → System × (List Call × (Files × Ending))
unfolding run_alone
main S utf16 p create_mutex s m api_listens path system fs =
    let (system', failed) = acquired_by utf16 p create_mutex system in
    elim failed [
      | some err ↦ (system', ([], (fs, not_alone err)))
      | none ↦ (system', run_alone S s m api_listens path fs)
    ]
