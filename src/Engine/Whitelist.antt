-- ===== src/Engine/Whitelist.antt =====
-- internal/engine/engine.go and windivert.go: the whitelist of programs. What the code uses of package
-- strings is a parameter.
pub mod Sets
pub mod Folding
pub mod Tidy
pub mod Examples
use go_pass.Base.{
  ℕ, Bool, true, false, not, List, [], ◌∷◌, ◌++◌, Option, none, some, if◌then◌else◌, Text,
  Text-discrete, text_eq, lookup, insert,
}

-- `strings.ToLower`, `strings.TrimSpace` and `strings.EqualFold`.
pub record Strings : Type 0 where
  pub to_lower : Text → Text
  pub trim_space : Text → Text
  pub equal_fold : Text → Text → Bool

abbrev pub norm : Strings → Text → Text
norm st name = st.trim_space (st.to_lower name)

abbrev pub Names : Type 0
Names = List (Text × Unit {0})

abbrev pub has : Text → Names → Bool
has name m = elim (lookup Text-discrete name m) [ none ↦ false | some _ ↦ true ]

abbrev pub is_empty : Text → Bool
is_empty [] = true
is_empty (c ∷ cs) = false

-- The loop of `normalizeWhitelist`, with its variables `seen` and `clean`.
unfoldable pub normalize_loop : Strings → List Text → Names → List Text → List Text
normalize_loop st [] seen clean = clean
normalize_loop st (name ∷ list) seen clean =
    let n = norm st name in
    if is_empty n
    then normalize_loop st list seen clean
    else if has n seen
    then normalize_loop st list seen clean
    else normalize_loop st list (insert Text-discrete n tt seen) (clean ++ n ∷ [])

unfoldable pub normalize_whitelist : Strings → List Text → List Text
unfolding normalize_loop
normalize_whitelist st list = normalize_loop st list [] []

-- The loop of `SetWhitelist`.
unfoldable pub whitelist_loop : Strings → List Text → Names → Names
whitelist_loop st [] m = m
whitelist_loop st (name ∷ list) m =
    let n = norm st name in
    if is_empty n
    then whitelist_loop st list m
    else whitelist_loop st list (insert Text-discrete n tt m)

-- The map that `SetWhitelist` gives to the interceptor.
unfoldable pub set_whitelist : Strings → List Text → Names
unfolding whitelist_loop
set_whitelist st list = whitelist_loop st list []

-- The loop of `AddProcess`.
abbrev pub any_fold : Strings → Text → List Text → Bool
any_fold st name [] = false
any_fold st name (p ∷ cur) = if st.equal_fold p name then true else any_fold st name cur

-- What `AddProcess` and `RemoveProcess` make of the current list, `name` being trimmed.
unfoldable pub added : Strings → Text → List Text → List Text
unfolding normalize_whitelist
added st name cur =
    if any_fold st name cur
    then normalize_whitelist st cur
    else normalize_whitelist st (cur ++ name ∷ [])

unfoldable pub filtered : Strings → Text → List Text → List Text
filtered st name [] = []
filtered st name (p ∷ cur) =
    if not (st.equal_fold p name) then p ∷ filtered st name cur else filtered st name cur

unfoldable pub removed : Strings → Text → List Text → List Text
unfolding normalize_whitelist filtered
removed st name cur =
    if is_empty name
    then normalize_whitelist st cur
    else normalize_whitelist st (filtered st name cur)
