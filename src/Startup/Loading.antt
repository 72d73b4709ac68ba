-- ===== src/Startup/Loading.antt =====
-- main.go: the files after the configuration is loaded.
use go_pass.Base.{
  ◌≡◌, ◌≢◌, ◌⊎◌, refl, sym, ap, ◌∙◌, true, false, not, ◌||◌, Option, none, some, inl, inr, arith,
  Bool-cases, Option-cases, Text, Text-discrete, Bytes, codes, lookup, insert, erase, lookup-insert,
  lookup-erase, length, length-append,
}
use go_pass.Config.{Config, default_config, load, Files, Disk, save}
use go_pass.Config.Saving.{IsFresh, save_lem}
use go_pass.Startup.{
  Surroundings, read_file, is_missing, rename, backup_of, replace_corrupt, load_config,
}

backup_other : (path : Text) → path ≢ backup_of path
backup_other path same = omega (arith, ap length same, length-append path (codes ".corrupt"))

rename_absent :
    (path backup : Text) (fs : Files)
    → lookup Text-discrete path fs ≡ none
    → rename path backup fs ≡ fs
rename_absent path backup fs e = ground arith

rename_present :
    (path backup : Text) (fs : Files) (content : Bytes)
    → lookup Text-discrete path fs ≡ some content
    → rename path backup fs ≡ insert Text-discrete backup content (erase Text-discrete path fs)
rename_present path backup fs content e = ground arith

-- A file that is neither renamed nor renamed to.
lookup-rename_other :
    (path backup : Text) (fs : Files) (j : Text)
    → path ≢ j
    → backup ≢ j
    → lookup Text-discrete j (rename path backup fs) ≡ lookup Text-discrete j fs
lookup-rename_other path backup fs j away apart =
    elim (Option-cases (lookup Text-discrete path fs)) [
      | inl e ↦ rw (rename_absent path backup fs e) refl
      | inr (content, e) ↦ rw (rename_present path backup fs content e) (
          ground (
            arith,
            lookup-insert Text-discrete j backup content (erase Text-discrete path fs),
            lookup-erase Text-discrete j path fs,
          ))
    ]

lookup-rename_new :
    (path backup : Text) (fs : Files) (content : Bytes)
    → lookup Text-discrete path fs ≡ some content
    → lookup Text-discrete backup (rename path backup fs) ≡ some content
lookup-rename_new path backup fs content e = rw (rename_present path backup fs content e) (
    ground (arith, lookup-insert Text-discrete backup backup content (erase Text-discrete path fs)))

save_other :
    (print : Config → Option Bytes) (disk : Disk) (c : Config) (path : Text) (fs : Files) (j : Text)
    → IsFresh fs path disk.temp
    → path ≢ j
    → disk.temp ≢ some j
    → lookup Text-discrete j (save print disk c path fs).0 ≡ lookup Text-discrete j fs
save_other print disk c path fs j fresh away apart = elim (save_lem print disk c path fs j fresh) [
  | inr left ↦ absurd (apart left.0)
  | inl kept ↦ elim (Bool-cases (save print disk c path fs).1) [
    | inl e ↦ ground arith
    | inr e ↦ ground arith
  ]
]

-- A file that is there does not have the new name.
fresh_apart :
    (fs : Files) (path : Text) (temp : Option Text) (j : Text) (content : Bytes)
    → IsFresh fs path temp
    → lookup Text-discrete j fs ≡ some content
    → temp ≢ some j
fresh_apart fs path none j content h held = λ e. cc
fresh_apart fs path (some tmp) j content h held = λ e. cc

-- A name that is new is new after the renaming, where it is not the backup's.
rename-IsFresh :
    (path : Text) (fs : Files) (temp : Option Text)
    → IsFresh fs path temp
    → IsFresh fs (backup_of path) temp
    → IsFresh (rename path (backup_of path) fs) path temp
rename-IsFresh path fs none h k = tt
rename-IsFresh path fs (some tmp) (missing, away) (_, apart) = (
  lookup-rename_other path (backup_of path) fs tmp (λ e. away (sym e)) (λ e. apart (sym e))
      ∙ missing,
  away,
)

-- The content is where it was, or it was the configuration's, which could not be loaded, and is in the backup.
abbrev pub IsKept : Text → Files → Text → Bytes → Option Config → Type 0
IsKept path fs j content loaded =
    (lookup Text-discrete j fs ≡ some content)
    ⊎ ((j ≡ path) × ((loaded ≡ none) × (lookup Text-discrete (backup_of path) fs ≡ some content)))

module _ (s : Surroundings) (path : Text) (fs : Files) where
  load_config_done :
      (cfg : Config)
      → load (read_file s fs) s.decode path ≡ some cfg
      → load_config s path fs ≡ (some cfg, fs)
  unfolding load_config
  load_config_done cfg e = ground arith

  load_config_missing :
      load (read_file s fs) s.decode path ≡ none
      → is_missing s fs path ≡ true
      → load_config s path fs
        ≡ (some default_config, (save s.print s.disk default_config path fs).0)
  unfolding load_config
  load_config_missing e missing = ground arith

  load_config_corrupt :
      load (read_file s fs) s.decode path ≡ none
      → is_missing s fs path ≡ false
      → load_config s path fs ≡ replace_corrupt s path fs
  unfolding load_config
  load_config_corrupt e there = ground arith

  replace_corrupt_kept : s.is_dir || not s.rename_ok ≡ true → (replace_corrupt s path fs).1 ≡ fs
  unfolding replace_corrupt
  replace_corrupt_kept e = ground arith

  replace_corrupt_moved :
      s.is_dir || not s.rename_ok ≡ false
      → (replace_corrupt s path fs).1
        ≡ (save s.print s.disk default_config path (rename path (backup_of path) fs)).0
  unfolding replace_corrupt
  replace_corrupt_moved e = ground arith

  missing_absent :
      (j : Text) (content : Bytes)
      → is_missing s fs path ≡ true
      → lookup Text-discrete j fs ≡ some content
      → path ≢ j
  missing_absent j content missing held same =
      ground (arith, ap (λ p. lookup Text-discrete p fs) same)

  -- Whatever is in the configuration's file and whatever fails while it is loaded at the start: the content of
  -- every file but an old backup is still in that file afterwards, or the file is the configuration's, it
  -- could not be loaded, and the content is in the backup. The temporary name of a save is new.
  pub load_config-IsKept :
      (j : Text) (content : Bytes)
      → IsFresh fs path s.disk.temp
      → IsFresh fs (backup_of path) s.disk.temp
      → backup_of path ≢ j
      → lookup Text-discrete j fs ≡ some content
      → IsKept path (load_config s path fs).1 j content (load (read_file s fs) s.decode path)
  load_config-IsKept j content fresh fresh' apart held =
      elim (Option-cases (load (read_file s fs) s.decode path)) [
        | inr (cfg, e) ↦ inl (rw (load_config_done cfg e) held)
        | inl e ↦ elim (Bool-cases (is_missing s fs path)) [
          | inl missing ↦ inl (
              rw (load_config_missing e missing) (
                save_other s.print s.disk default_config path fs j fresh
                  (missing_absent j content missing held)
                  (fresh_apart fs path s.disk.temp j content fresh held)
                ∙ held))
          | inr there ↦ elim (Bool-cases (s.is_dir || not s.rename_ok)) [
            | inl stays ↦
                inl (rw (load_config_corrupt e there) (rw (replace_corrupt_kept stays) held))
            | inr moves ↦
                let new = rename-IsFresh path fs s.disk.temp fresh fresh' in
                rw (load_config_corrupt e there) (
                  rw (replace_corrupt_moved moves) (elim (Text-discrete path j) [
                    | yes same ↦ inr (
                      sym same,
                      (
                        e,
                        save_other s.print s.disk default_config path _ (backup_of path) new
                              (backup_other path)
                              (fresh_apart _ path s.disk.temp (backup_of path) content new (
                                lookup-rename_new path (backup_of path) fs content
                                  (ap (λ p. lookup Text-discrete p fs) same ∙ held)))
                            ∙ lookup-rename_new path (backup_of path) fs content
                                (ap (λ p. lookup Text-discrete p fs) same ∙ held),
                      ),
                    )
                    | no differs ↦ inl (
                        save_other s.print s.disk default_config path _ j new differs (
                          fresh_apart _ path s.disk.temp j content new
                            (lookup-rename_other path (backup_of path) fs j differs apart ∙ held))
                        ∙ lookup-rename_other path (backup_of path) fs j differs apart
                        ∙ held)
                  ]))
          ]
        ]
      ]
