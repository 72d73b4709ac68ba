-- ===== src/Singleton.antt =====
-- internal/singleton/singleton.go: the lock that lets one instance run. The system's named objects are a
-- parameter: `Creation` is what a call of `CreateMutex` returns.
pub mod Processes
pub mod Exclusion
pub mod Examples
use go_pass.Base.{
  ℕ, Bool, true, false, not, List, [], ◌∷◌, Option, none, some, ◌==◌, if◌then◌else◌, Text, Bytes,
  codes,
}

pub data CreateError : Type 0 where
  already_exists access_denied : CreateError
  errno : ℕ → CreateError

pub data AcquireError : Type 0 where
  already_running bad_name : AcquireError
  create_failed : ℕ → AcquireError

unfoldable pub classify_create_mutex_err : Option CreateError → Option AcquireError
classify_create_mutex_err none = none
classify_create_mutex_err (some already_exists) = some already_running
classify_create_mutex_err (some access_denied) = some already_running
classify_create_mutex_err (some (errno n)) = some (create_failed n)

-- The handle, 0 for none, and the error; on an object that exists both may be there.
pub record Creation : Type 0 where
  pub handle : ℕ
  pub failure : Option CreateError

abbrev pub mutex_name : Text
mutex_name = codes "Global\\GoPass_SingleInstance_v1"

-- The handles that `acquire` leaves open of the one created, and the handle and error that it returns. `utf16`
-- is `UTF16PtrFromString`, none where the name has a NUL.
unfoldable pub acquire_once :
    (Text → Option Bytes) → (Bytes → Creation) → List ℕ × (ℕ × Option AcquireError)
unfolding classify_create_mutex_err
acquire_once utf16 create_mutex = elim (utf16 mutex_name) [
  | none ↦ ([], (0, some bad_name))
  | some name ↦
      let made = create_mutex name in
      let opened = if made.handle == 0 then [] else made.handle ∷ [] in
      elim (classify_create_mutex_err made.failure) [
        | some err ↦ ([], (0, some err))
        | none ↦ (opened, (made.handle, none))
      ]
]

-- `Acquire` on the package's handle: the handles newly left open, the package's handle, and the error.
unfoldable pub acquire :
    (Text → Option Bytes) → (Bytes → Creation) → ℕ → List ℕ × (ℕ × Option AcquireError)
unfolding acquire_once
acquire utf16 create_mutex handle =
    if not (handle == 0)
    then ([], (handle, none))
    else (let attempt = acquire_once utf16 create_mutex in
        elim attempt.1.1 [
          | some err ↦ (attempt.0, (handle, some err))
          | none ↦ (attempt.0, (attempt.1.0, none))
        ])
