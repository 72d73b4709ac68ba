-- ===== src/Engine/Whitelist/Folding.antt =====
-- engine.go, `AddProcess` and `RemoveProcess`: what is taken of package strings.
use go_pass.Base.{ℕ, ◌<◌, ◌≡◌, ◌∙◌, sym, ap, ap₂, List, [], ◌∷◌, All, Text, text_eq}
use go_pass.Engine.Whitelist.{Strings, norm}
use go_pass.Engine.Whitelist.Sets.{FoldsOn}

abbrev pub IsAscii : Text → Type 0
IsAscii name = All (λ (c : ℕ). c < 128) name

-- On ASCII names `EqualFold` compares in lower case. A name is trimmed once and for all, its case changes
-- nothing of the blanks around it, and trimming leaves it ASCII.
pub record IsAsciiStrings (st : Strings) : Type 0 where
  pub folds :
      (a b : Text)
      → IsAscii a
      → IsAscii b
      → st.equal_fold a b ≡ text_eq (st.to_lower a) (st.to_lower b)
  pub trims_once : (a : Text) → st.trim_space (st.trim_space a) ≡ st.trim_space a
  pub trims_lower : (a : Text) → st.trim_space (st.to_lower a) ≡ st.to_lower (st.trim_space a)
  pub trims_ascii : (a : Text) → IsAscii a → IsAscii (st.trim_space a)

-- Names of a list that are ASCII and have no blanks around them.
abbrev pub AllTrimmed : Strings → List Text → Type 0
AllTrimmed st cur = All (λ (p : Text). IsAscii p × (st.trim_space p ≡ p)) cur

norm-trimmed :
    (st : Strings) (p : Text) → IsAsciiStrings st → st.trim_space p ≡ p → norm st p ≡ st.to_lower p
norm-trimmed st p h trimmed = h.trims_lower p ∙ ap st.to_lower trimmed

pub AllTrimmed-FoldsOn :
    (st : Strings) (raw : Text) (cur : List Text)
    → IsAsciiStrings st
    → IsAscii raw
    → AllTrimmed st cur
    → FoldsOn st (st.trim_space raw) cur
AllTrimmed-FoldsOn st raw [] h ascii all = tt
AllTrimmed-FoldsOn st raw (p ∷ cur) h ascii ((plain, trimmed), all) = (
  h.folds p (st.trim_space raw) plain (h.trims_ascii raw ascii)
      ∙ ap₂ text_eq (sym (norm-trimmed st p h trimmed))
          (sym (norm-trimmed st (st.trim_space raw) h (h.trims_once raw))),
  AllTrimmed-FoldsOn st raw cur h ascii all,
)
