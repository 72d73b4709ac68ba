-- ===== src/Config/Saving.antt =====
-- config.go, `Save`: the files afterwards.
use go_pass.Base.{
  ◌≡◌, ◌≢◌, ◌⊎◌, ◌∙◌, ap, refl, false, inl, inr, Bool-cases, Bool, Option, none, some, arith, ite,
  if◌then◌else◌, Bytes, Text, Text-discrete, lookup, lookup-insert, lookup-erase,
}
use go_pass.Config.{Config, Files, Disk, save, put, remove}

-- `CreateTemp` makes up the name of a new file.
abbrev pub IsFresh : Files → Text → Option Text → Type 0
IsFresh fs path none = Unit {0}
IsFresh fs path (some tmp) = (lookup Text-discrete tmp fs ≡ none) × (tmp ≢ path)

lookup-put :
    (j path : Text) (content : Bytes) (fs : Files)
    → lookup Text-discrete j (put path content fs)
      ≡ ite (Text-discrete path j) (some content) (lookup Text-discrete j fs)
lookup-put j path content fs = lookup-insert Text-discrete j path content fs

lookup-remove :
    (j path : Text) (fs : Files)
    → lookup Text-discrete j (remove path fs)
      ≡ ite (Text-discrete path j) none (lookup Text-discrete j fs)
lookup-remove j path fs = lookup-erase Text-discrete j path fs

-- A temporary file leaves no trace.
lookup-remove-put :
    (j tmp : Text) (content : Bytes) (fs : Files)
    → lookup Text-discrete tmp fs ≡ none
    → lookup Text-discrete j (remove tmp (put tmp content fs)) ≡ lookup Text-discrete j fs
lookup-remove-put j tmp content fs fresh =
    ground (arith, lookup-remove j tmp (put tmp content fs), lookup-put j tmp content fs)

-- The files after a save: the one saved to as printed if it worked, and everything else as before.
abbrev pub saved : Option Bytes → Text → Files → Text → Bool → Option Bytes
saved printed path fs j ok =
    if ok
    then ite (Text-discrete path j) printed (lookup Text-discrete j fs)
    else lookup Text-discrete j fs

-- Is the file a temporary one that may be left behind?
abbrev pub IsLeft : Disk → Text → Bool → Type 0
IsLeft disk j ok = (disk.temp ≡ some j) × ((disk.remove_ok ≡ false) × (ok ≡ false))

-- A save is all or nothing, whatever fails on the way: either it reports success and the file has the
-- whole printed configuration, or it reports an error and the file is as before. Every other file is
-- as before in both cases, unless it is the temporary one, the save failed and the removal of the
-- temporary file failed too. The name of the temporary file is new.
pub save_lem :
    (print : Config → Option Bytes) (disk : Disk) (c : Config) (path : Text) (fs : Files) (j : Text)
    → IsFresh fs path disk.temp
    → (lookup Text-discrete j (save print disk c path fs).0
        ≡ saved (print c) path fs j (save print disk c path fs).1)
      ⊎ IsLeft disk j (save print disk c path fs).1
save_lem print disk c path fs j fresh = go (print c) disk.temp refl refl fresh
  where
    go :
        (p : Option Bytes) (temp : Option Text)
        → print c ≡ p
        → disk.temp ≡ temp
        → IsFresh fs path temp
        → (lookup Text-discrete j (save print disk c path fs).0
            ≡ saved (print c) path fs j (save print disk c path fs).1)
          ⊎ IsLeft disk j (save print disk c path fs).1
    go none temp e f h = inl (unfold save in ground arith)
    go (some printed) none e f h = inl (unfold save in ground arith)
    go (some printed) (some tmp) e f h = elim (Bool-cases (save print disk c path fs).1) [
      | inl ok ↦ inl (
          unfold save in
          ground (
            arith,
            lookup-remove-put j tmp printed fs h.0,
            lookup-put j path printed (remove tmp (put tmp printed fs)),
          ))
      | inr failed ↦ elim (Bool-cases disk.remove_ok) [
        | inl removes ↦ inl (
            unfold save in
            ground (
              arith,
              lookup-remove-put j tmp (disk.written printed) fs h.0,
              lookup-remove-put j tmp printed fs h.0,
            ))
        | inr stays ↦ elim (Text-discrete tmp j) [
          | yes same ↦ inr (f ∙ ap some same, (stays, failed))
          | no differs ↦ inl (
              unfold save in
              ground
                (arith, lookup-put j tmp (disk.written printed) fs, lookup-put j tmp printed fs))
        ]
      ]
    ]
