-- ===== src/Engine/Control/Whitelisting.antt =====
-- engine.go: the list of programs in the configuration and the set that the interceptor asks.
use go_pass.Base.{
  ◌≡◌, refl, sym, ap, ◌∙◌, Bool, true, false, not, ◌&&◌, ◌||◌, List, Option, none, some,
  if◌then◌else◌, Text, text_eq,
}
use go_pass.Config.{Files}
use go_pass.Engine.Intercept.{Env, World, is_whitelisted, decide_new_flow}
use go_pass.Engine.FlowPolicy.{PolicyKind, pass, intercept}
use go_pass.Engine.Whitelist.{norm, has, is_empty, set_whitelist, added, removed}
use go_pass.Engine.Whitelist.Sets.{contains, names, added-contains, removed-contains}
use go_pass.Engine.Whitelist.Folding.{IsAscii, IsAsciiStrings, AllTrimmed, AllTrimmed-FoldsOn}
use go_pass.Engine.Whitelist.Tidy.{IsTidy, IsClean, IsClean-has, added-IsClean, removed-IsClean}
use go_pass.Engine.Control.{
  Host, Engine, get_process_whitelist, mutate_whitelist, add_process, remove_process,
}

-- What the interceptor does with a new connection of a program, by the names in a list.
abbrev pub listed : Bool → PolicyKind
listed on_list = if on_list then intercept else pass

filtered_world :
    (h : Host) (clean : List Text) (interceptor : Option World) (w : World)
    → elim interceptor as (λ _. Option World) [
      | none ↦ none
      | some v ↦ some (record v { whitelist = set_whitelist h.strings clean })
    ]
      ≡ some w
    → w.whitelist ≡ set_whitelist h.strings clean
filtered_world h clean none w e = cc e
filtered_world h clean (some v) w e = cc e

decide_new_flow-listed :
    (env : Env) (w : World) (name : Text) (on_list : Bool)
    → has (env.to_lower name) w.whitelist ≡ on_list
    → decide_new_flow env w true (some name) ≡ listed on_list
unfolding decide_new_flow is_whitelisted
decide_new_flow-listed env w name on_list e = ap listed e

module _ {S : Type 0} (h : Host) (path : Text) (e : Engine S) (fs : Files) (w : World) (env : Env)
    (name : Text) where
  mutate_whitelist_lem :
      (fn : List Text → List Text)
      → IsClean h.strings (fn (get_process_whitelist e))
      → (mutate_whitelist h path fn e fs).0.interceptor ≡ some w
      → is_empty (env.to_lower name) ≡ false
      → decide_new_flow env w true (some name)
        ≡ listed (contains (env.to_lower name) (fn (get_process_whitelist e)))
  unfolding mutate_whitelist
  mutate_whitelist_lem fn clean live named_program =
      let set = filtered_world h (fn (get_process_whitelist e)) e.interceptor w live in
      decide_new_flow-listed env w name _ (
        rw set (
          IsClean-has h.strings (fn (get_process_whitelist e)) (env.to_lower name) clean
            named_program))

  kept_going :
      (raw : Text)
      → is_empty (h.strings.trim_space raw) ≡ false
      → (add_process h raw path e fs).0.interceptor ≡ some w
      → (mutate_whitelist h path (added h.strings (h.strings.trim_space raw)) e fs).0.interceptor
        ≡ some w
  unfolding add_process
  kept_going raw full live =
      let same : (add_process h raw path e fs).0
          ≡ (mutate_whitelist h path (added h.strings (h.strings.trim_space raw)) e fs).0 =
        rw full refl in
      ap (λ x. x.interceptor) (sym same) ∙ live

  -- After `AddProcess` of a name that is not blank, a new connection of a program is intercepted exactly if the
  -- program was on the list or is the one added, whatever the case and the blanks around it; any other goes by.
  -- The name and the names on the list are ASCII, and those on the list have no blanks around them. Of
  -- package strings: on ASCII names `EqualFold` compares in lower case; trimming and lower case change
  -- nothing more when they are done twice, nor in the other order, and trimming keeps a name ASCII. The
  -- program's name is not empty in lower case.
  pub add_process_lem :
      (raw : Text)
      → IsAsciiStrings h.strings
      → IsAscii raw
      → AllTrimmed h.strings (get_process_whitelist e)
      → IsTidy h.strings
      → is_empty (h.strings.trim_space raw) ≡ false
      → (add_process h raw path e fs).0.interceptor ≡ some w
      → is_empty (env.to_lower name) ≡ false
      → decide_new_flow env w true (some name)
        ≡ listed (
            names h.strings (env.to_lower name) (get_process_whitelist e)
            || text_eq (norm h.strings (h.strings.trim_space raw)) (env.to_lower name))
  unfolding add_process
  add_process_lem raw strings plain trimmed_list tidy full live named_program =
      let trimmed = h.strings.trim_space raw in
      let cur = get_process_whitelist e in
      let folds = AllTrimmed-FoldsOn h.strings raw cur strings plain trimmed_list in
      mutate_whitelist_lem (added h.strings trimmed) (added-IsClean h.strings trimmed cur tidy)
        (kept_going raw full live) named_program
      ∙ ap listed (added-contains h.strings trimmed cur (env.to_lower name) folds)
      ∙ ap listed (rw named_program refl)

  -- After `RemoveProcess` of a name that is not blank, a new connection of a program is intercepted exactly if
  -- the program was on the list and is not the one removed. What is taken of the
  -- names and of package strings is as for `AddProcess`.
  pub remove_process_lem :
      (raw : Text)
      → IsAsciiStrings h.strings
      → IsAscii raw
      → AllTrimmed h.strings (get_process_whitelist e)
      → IsTidy h.strings
      → is_empty (h.strings.trim_space raw) ≡ false
      → (remove_process h raw path e fs).0.interceptor ≡ some w
      → is_empty (env.to_lower name) ≡ false
      → decide_new_flow env w true (some name)
        ≡ listed (
            names h.strings (env.to_lower name) (get_process_whitelist e)
            && not (text_eq (norm h.strings (h.strings.trim_space raw)) (env.to_lower name)))
  unfolding remove_process
  remove_process_lem raw strings plain trimmed_list tidy full live named_program =
      let trimmed = h.strings.trim_space raw in
      let cur = get_process_whitelist e in
      let folds = AllTrimmed-FoldsOn h.strings raw cur strings plain trimmed_list in
      mutate_whitelist_lem (removed h.strings trimmed) (removed-IsClean h.strings trimmed cur tidy)
        live named_program
      ∙ ap listed (removed-contains h.strings trimmed cur (env.to_lower name) full folds)
