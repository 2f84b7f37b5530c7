-- ===== src/WorkflowState/Paths.antt =====
-- `is_safe_repo_path_pattern` of scripts/workflow_state.py.
use Prim.Native.String.{String}
use Prim.Native.Char.{code}
use ai_coding_workflow.Prelude.{
  ℕ, ◌≡◌, refl, Bool, true, false, not, ◌&&◌, ◌||◌, List, [], ◌∷◌, map, any, is_empty_text, ◌==◌,
  leb, if◌then◌else◌,
}

abbrev pub codes : String → List ℕ
codes String.[] = []
codes (String.◌∷◌ c s) = code c ∷ codes s

-- `value.replace("\\", "/")`
abbrev pub normalize : List ℕ → List ℕ
normalize cs = map (λ c. if c == 92 then b'/' else c) cs

push : ℕ → List (List ℕ) → List (List ℕ)
push c [] = (c ∷ []) ∷ []
push c (p ∷ ps) = (c ∷ p) ∷ ps

-- `normalized.split("/")`
unfoldable pub split : List ℕ → List (List ℕ)
unfolding push
split [] = [] ∷ []
split (c ∷ cs) = let rest = split cs in if c == b'/' then [] ∷ rest else push c rest

abbrev pub is_parent : List ℕ → Bool
is_parent (a ∷ b ∷ []) = a == b'.' && b == b'.'
is_parent _ = false

is_letter : ℕ → Bool
is_letter c = (leb b'A' c && leb c b'Z') || (leb b'a' c && leb c b'z')

-- `normalized.startswith("/") or re.match(r"^[A-Za-z]:/", normalized)`
unfoldable pub is_absolute : List ℕ → Bool
unfolding is_letter
is_absolute (a ∷ b ∷ c ∷ cs) = a == b'/' || (is_letter a && (b == b':' && c == b'/'))
is_absolute (a ∷ cs) = a == b'/'
is_absolute [] = false

unfoldable pub is_safe_repo_path_pattern : String → Bool
unfolding is_absolute split
is_safe_repo_path_pattern value =
    not (is_empty_text value)
    && (not (is_absolute (normalize (codes value)))
        && not (any is_parent (split (normalize (codes value)))))

paths_safe : any is_safe_repo_path_pattern ("/etc" ∷ "C:\\x" ∷ "a/../b" ∷ ".." ∷ "" ∷ []) ≡ false
unfolding is_safe_repo_path_pattern
paths_safe = refl

path_safe : is_safe_repo_path_pattern "src/..a/*.py" ≡ true
unfolding is_safe_repo_path_pattern
path_safe = refl
