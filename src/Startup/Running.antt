-- ===== src/Startup/Running.antt =====
-- main.go: that an instance touches nothing while another one runs, and in which order it winds up.
use go_pass.Base.{
  ℕ, ◌≡◌, ◌⊎◌, refl, Bool, List, [], Option, none, some, inl, inr, arith, Text, Bytes,
}
use go_pass.Config.{Files}
use go_pass.Singleton.{Creation, AcquireError}
use go_pass.Singleton.Processes.{System, IsDocumented, acquired_by, Reachable}
use go_pass.Singleton.Exclusion.{Alone, Outcome, acquire_alone}
use go_pass.Engine.Lifecycle.{Machine}
use go_pass.Startup.{Surroundings, Call, not_alone, run_alone, main}

-- Nothing was called, no file has changed, and every process has the lock or not as before.
pub record Untouched (before after : System) (fs fs' : Files) (calls : List Call) : Type 0 where
  pub calls_are : calls ≡ []
  pub files_are : fs' ≡ fs
  pub locks_are : (q : ℕ) → after.handle_of q ≡ before.handle_of q

module _ (S : Type 0) (utf16 : Text → Option Bytes) (p : ℕ) (create_mutex : Bytes → Creation)
    (s : Surroundings) (m : Machine) (api_listens : Text → Bool) (path : Text) (system : System)
    (fs : Files) (system' : System) where
  main_refused :
      (err : AcquireError)
      → acquired_by utf16 p create_mutex system ≡ (system', some err)
      → main S utf16 p create_mutex s m api_listens path system fs
        ≡ (system', ([], (fs, not_alone err)))
  unfolding main
  main_refused err e = ground arith

  main_locked :
      acquired_by utf16 p create_mutex system ≡ (system', none)
      → main S utf16 p create_mutex s m api_listens path system fs
        ≡ (system', run_alone S s m api_listens path fs)
  unfolding main
  main_locked e = ground arith

main_from :
    (S : Type 0) (utf16 : Text → Option Bytes) (p : ℕ) (create_mutex : Bytes → Creation)
    (s : Surroundings) (m : Machine) (api_listens : Text → Bool) (path : Text) (system : System)
    (fs : Files) (r : System × Option AcquireError)
    → acquired_by utf16 p create_mutex system ≡ r
    → Outcome p system r
    → let after = main S utf16 p create_mutex s m api_listens path system fs in
      Alone p after.0 ⊎ Untouched system after.0 fs after.1.1.0 after.1.0
main_from S utf16 p create_mutex s m api_listens path system fs (system', none) e alone =
    rw (main_locked S utf16 p create_mutex s m api_listens path system fs system' e) (inl alone)
main_from S utf16 p create_mutex s m api_listens path system fs (system', some err) e kept =
    rw (main_refused S utf16 p create_mutex s m api_listens path system fs system' err e)
      (inr (record { calls_are = refl; files_are = refl; locks_are = kept }))

-- In every state that instances bring about, on a system whose named objects behave as documented: when the
-- program is started, either it has the lock and no other process has it, or it has made no call to the
-- driver's clean-up, the engine or the settings server, has changed no file, and every lock is as before.
pub main-Alone :
    (S : Type 0) (utf16 : Text → Option Bytes) (p : ℕ) (create_mutex : Bytes → Creation)
    (s : Surroundings) (m : Machine) (api_listens : Text → Bool) (path : Text) (system : System)
    (fs : Files)
    → ((name : Bytes) → IsDocumented system (create_mutex name))
    → Reachable utf16 system
    → let after = main S utf16 p create_mutex s m api_listens path system fs in
      Alone p after.0 ⊎ Untouched system after.0 fs after.1.1.0 after.1.0
main-Alone S utf16 p create_mutex s m api_listens path system fs documented r =
    main_from S utf16 p create_mutex s m api_listens path system fs
      (acquired_by utf16 p create_mutex system) refl
      (acquire_alone utf16 p create_mutex system documented r)
