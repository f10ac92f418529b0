-- ===== src/Naming.antt =====
-- etcd_fsm/base.py (`validate_fsm_key`) and etcd_fsm/schema.py (`_validate_namespace`): the paths
-- that name an object and a schema, as lists of code points. `none` is the raise of the function's
-- one error class (`InvalidFSMKey`, `SchemaDefinitionError`).
pub mod Paths
use etcd_fsm.Common.{
  ℕ, Bool, true, false, not, ◌||◌, ◌&&◌, Option, none, some, List, [], ◌∷◌, ◌==◌, if◌then◌else◌,
  any, is_empty, get_last?,
}

abbrev pub Text : Type 0
Text = List ℕ

unfoldable pub eq_text : Text → Text → Bool
eq_text [] [] = true
eq_text [] (y ∷ ys) = false
eq_text (x ∷ xs) [] = false
eq_text (x ∷ xs) (y ∷ ys) = (x == y) && eq_text xs ys

-- `c in text`
unfoldable pub contains : ℕ → Text → Bool
contains c [] = false
contains c (x ∷ xs) = (x == c) || contains c xs

-- The character in front of the segments that follow it.
abbrev pub extend : ℕ → List Text → List Text
extend c [] = (c ∷ []) ∷ []
extend c (segment ∷ rest) = (c ∷ segment) ∷ rest

-- `text.split("/")`
unfoldable pub split : Text → List Text
split [] = [] ∷ []
split (c ∷ cs) = let rest = split cs in if c == b'/' then [] ∷ rest else extend c rest

abbrev dot : Text
dot = b'.' ∷ []

abbrev dot_dot : Text
dot_dot = b'.' ∷ b'.' ∷ []

abbrev rpc : Text
rpc = b'r' ∷ b'p' ∷ b'c' ∷ []

-- `segment in {".", "..", "rpc"}`
unfoldable pub is_reserved : Text → Bool
is_reserved segment = eq_text segment dot || eq_text segment dot_dot || eq_text segment rpc

-- `validate_fsm_key`
unfoldable pub validate_fsm_key : Text → Option Text
validate_fsm_key key =
    if is_empty key
    then none
    else if contains 0 key
    then none
    else if any is_empty (split key)
    then none
    else if any is_reserved (split key)
    then none
    else some key

-- `segment in {"", ".", ".."}`
unfoldable pub is_abnormal : Text → Bool
is_abnormal segment = is_empty segment || eq_text segment dot || eq_text segment dot_dot

-- `namespace.startswith("/")`, and `namespace[1:]` when it holds.
abbrev pub after_slash : Text → Option Text
after_slash [] = none
after_slash (c ∷ cs) = if c == b'/' then some cs else none

-- `namespace.endswith("/")`
abbrev pub ends_with_slash : Text → Bool
ends_with_slash text = elim (get_last? text) [ none ↦ false | some c ↦ c == b'/' ]

-- `_validate_namespace`
unfoldable pub validate_namespace : Text → Option Text
validate_namespace namespace = elim (after_slash namespace) [
  | none ↦ none
  | some path ↦
      if is_empty path || ends_with_slash namespace
      then none
      else if contains 0 namespace
      then none
      else if any is_abnormal (split path)
      then none
      else some namespace
]
