-- ===== src/Graph/Texts.antt =====
-- `_mermaid_text` and `_dot_text` of etcd_fsm/_graph.py, and the numbers that Python prints in a name.
use etcd_fsm.Common.{ℕ, zero, suc, ◌/◌, ◌+◌, [], ◌∷◌, ◌++◌, ◌==◌, ltb, codes, if◌then◌else◌}
use etcd_fsm.Naming.{Text}
use Prim.Native.Nat.{◌%◌}

-- `text.replace(c, by)`, for a single character.
unfoldable pub replace : ℕ → Text → Text → Text
replace c by [] = []
replace c by (x ∷ rest) = let later = replace c by rest in if x == c then by ++ later else x ∷ later

abbrev pub newline : ℕ
newline = 10

abbrev pub backslash : ℕ
backslash = 92

abbrev pub double_quote : ℕ
double_quote = 34

-- `html.escape(text, quote=True)`
unfoldable pub html_escape : Text → Text
unfolding replace
html_escape text = replace 39 (codes "&#x27;") (
    replace double_quote (codes "&quot;")
      (replace 62 (codes "&gt;") (replace 60 (codes "&lt;") (replace 38 (codes "&amp;") text))))

-- `_mermaid_text`
unfoldable pub mermaid_text : Text → Text → Text
unfolding html_escape
mermaid_text line_break value = replace newline line_break (html_escape value)

-- `_dot_text`
unfoldable pub dot_text : Text → Text
unfolding replace
dot_text value = replace newline (backslash ∷ 110 ∷ []) (
    replace double_quote (backslash ∷ double_quote ∷ [])
      (replace backslash (backslash ∷ backslash ∷ []) value))

-- The digits of a number, as many as the fuel at most.
unfoldable pub digits : ℕ → ℕ → Text
digits zero n = []
digits (suc fuel) n =
    let higher = digits fuel (n / 10) in
    if ltb n 10 then (48 + n) ∷ [] else higher ++ (48 + n % 10) ∷ []

-- `str(n)`
abbrev pub decimal : ℕ → Text
decimal n = digits (suc n) n
