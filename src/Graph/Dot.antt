-- ===== src/Graph/Dot.antt =====
-- The texts that `_dot_text` and `_mermaid_text` of etcd_fsm/_graph.py put between quotes.
use etcd_fsm.Common.{
  ℕ, ◌≡◌, refl, sym, ap, ◌∙◌, subst, Bool, true, false, ◌||◌, ◌⊎◌, Option, none, some, List, [],
  ◌∷◌, ◌++◌, ◌==◌, if◌then◌else◌, arith, Bool-cases, inl, inr, append_assoc, codes, member,
}
use etcd_fsm.Naming.{Text, contains}
use etcd_fsm.Graph.Texts.{
  replace, html_escape, mermaid_text, dot_text, newline, backslash, double_quote,
}

-- What is read in front of the rest.
abbrev prepend : ℕ → Option (Text × Text) → Option (Text × Text)
prepend c none = none
prepend c (some found) = some (c ∷ found.0, found.1)

-- How Graphviz reads a label, up to the quote that ends it: `\n` is a line break, and a backslash stands in
-- front of a backslash and of a quote. The flag says that a backslash came before.
unfoldable pub read_label : Bool → Text → Option (Text × Text)
read_label escaped [] = none
read_label true (c ∷ rest) =
    let later = read_label false rest in prepend (if c == 110 then newline else c) later
read_label false (c ∷ rest) = elim (c == double_quote) [
  | true ↦ some ([], rest)
  | false ↦ elim (c == backslash) [
    | true ↦ read_label true rest
    | false ↦ prepend c (read_label false rest)
  ]
]

replace-append :
    (c : ℕ) (by xs ys : Text) → replace c by (xs ++ ys) ≡ replace c by xs ++ replace c by ys
unfolding replace
replace-append c by [] ys = refl
replace-append c by (x ∷ xs) ys = elim (Bool-cases (x == c)) [
  | inl same ↦
      rw (same, replace) (ap (λ t. by ++ t) (replace-append c by xs ys) ∙ sym (append_assoc by _ _))
  | inr apart ↦ rw (apart, replace) (ap (λ t. x ∷ t) (replace-append c by xs ys))
]

-- What one character becomes.
abbrev dot_char : ℕ → Text
dot_char c =
    if c == backslash
    then backslash ∷ backslash ∷ []
    else if c == double_quote
    then backslash ∷ double_quote ∷ []
    else if c == newline
    then backslash ∷ 110 ∷ []
    else c ∷ []

dot_text-cons : (c : ℕ) (value : Text) → dot_text (c ∷ value) ≡ dot_char c ++ dot_text value
unfolding dot_text replace
dot_text-cons c value = elim (Bool-cases (c == backslash)) [
  | inl slash ↦
      let one : c ≡ backslash = ground arith in
      subst (λ x. dot_text (x ∷ value) ≡ dot_char x ++ dot_text value) (sym one) refl
  | inr no_slash ↦ elim (Bool-cases (c == double_quote)) [
    | inl quoted ↦
        let one : c ≡ double_quote = ground arith in
        subst (λ x. dot_text (x ∷ value) ≡ dot_char x ++ dot_text value) (sym one) refl
    | inr plain ↦ elim (Bool-cases (c == newline)) [
      | inl broken ↦
          let one : c ≡ newline = ground arith in
          subst (λ x. dot_text (x ∷ value) ≡ dot_char x ++ dot_text value) (sym one) refl
      | inr kept ↦ ground arith
    ]
  ]
]

read_label-char :
    (c : ℕ) (text : Text)
    → read_label false (dot_char c ++ text) ≡ prepend c (read_label false text)
unfolding read_label
read_label-char c text = elim (Bool-cases (c == backslash)) [
  | inl slash ↦
      let one : c ≡ backslash = ground arith in
      subst (λ x. read_label false (dot_char x ++ text) ≡ prepend x (read_label false text))
        (sym one) refl
  | inr no_slash ↦ elim (Bool-cases (c == double_quote)) [
    | inl quoted ↦
        let one : c ≡ double_quote = ground arith in
        subst (λ x. read_label false (dot_char x ++ text) ≡ prepend x (read_label false text))
          (sym one) refl
    | inr plain ↦ elim (Bool-cases (c == newline)) [
      | inl broken ↦
          let one : c ≡ newline = ground arith in
          subst (λ x. read_label false (dot_char x ++ text) ≡ prepend x (read_label false text))
            (sym one) refl
      | inr kept ↦ ground arith
    ]
  ]
]

-- A label that `_dot_text` writes is read back as the value, and ends at the quote that follows it.
pub read_label-dot_text :
    (value rest : Text)
    → read_label false (dot_text value ++ double_quote ∷ rest) ≡ some (value, rest)
unfolding dot_text replace read_label
read_label-dot_text [] rest = refl
read_label-dot_text (c ∷ value) rest =
    ap (λ t. read_label false (t ++ double_quote ∷ rest)) (dot_text-cons c value)
    ∙ ap (read_label false) (append_assoc (dot_char c) (dot_text value) (double_quote ∷ rest))
    ∙ read_label-char c (dot_text value ++ double_quote ∷ rest)
    ∙ ap (prepend c) (read_label-dot_text value rest)

contains-append : (c : ℕ) (xs ys : Text) → contains c (xs ++ ys) ≡ (contains c xs || contains c ys)
unfolding contains
contains-append c [] ys = refl
contains-append c (x ∷ xs) ys = ground (arith, contains-append c xs ys)

absent_later :
    (c d x : ℕ) (xs : Text)
    → (contains c (x ∷ xs) ≡ false) ⊎ (c ≡ d)
    → (contains c xs ≡ false) ⊎ (c ≡ d)
unfolding contains
absent_later c d x xs (inl absent) = inl (ground arith)
absent_later c d x xs (inr one) = inr one

-- A character that was not there, or is replaced, is not there after a replacement by a text without it.
contains-replace :
    (c d : ℕ) (by xs : Text)
    → contains c by ≡ false
    → (contains c xs ≡ false) ⊎ (c ≡ d)
    → contains c (replace d by xs) ≡ false
unfolding contains replace
contains-replace c d by [] h k = refl
contains-replace c d by (x ∷ xs) h k =
    let later = contains-replace c d by xs h (absent_later c d x xs k) in
    elim (Bool-cases (x == d)) [
      | inl same ↦ rw (same, replace) (contains-append c by (replace d by xs) ∙ ground arith)
      | inr apart ↦
          rw (apart, replace) (elim k [ inl absent ↦ ground arith | inr one ↦ ground arith ])
    ]

-- The characters that end a Mermaid label, open or close a tag, or break the line.
abbrev pub special : List ℕ
special = double_quote ∷ 60 ∷ 62 ∷ 39 ∷ newline ∷ []

module _ (line_break value : Text) where
  -- What the replacements of `html.escape` give one after the other.
  abbrev amp_done : Text
  amp_done = replace 38 (codes "&amp;") value

  abbrev lt_done : Text
  lt_done = replace 60 (codes "&lt;") amp_done

  abbrev gt_done : Text
  gt_done = replace 62 (codes "&gt;") lt_done

  abbrev quote_done : Text
  quote_done = replace double_quote (codes "&quot;") gt_done

  abbrev escaped : Text
  escaped = replace 39 (codes "&#x27;") quote_done

  no_quote : contains 34 line_break ≡ false → contains 34 (mermaid_text line_break value) ≡ false
  unfolding mermaid_text html_escape contains
  no_quote k = contains-replace 34 newline line_break escaped k (
      inl (
        contains-replace 34 39 (codes "&#x27;") quote_done refl
          (inl (contains-replace 34 34 (codes "&quot;") gt_done refl (inr refl)))))

  no_opening : contains 60 line_break ≡ false → contains 60 (mermaid_text line_break value) ≡ false
  unfolding mermaid_text html_escape contains
  no_opening k = contains-replace 60 newline line_break escaped k (
      inl (
        contains-replace 60 39 (codes "&#x27;") quote_done refl (
          inl (
            contains-replace 60 34 (codes "&quot;") gt_done refl (
              inl (
                contains-replace 60 62 (codes "&gt;") lt_done refl
                  (inl (contains-replace 60 60 (codes "&lt;") amp_done refl (inr refl)))))))))

  no_closing : contains 62 line_break ≡ false → contains 62 (mermaid_text line_break value) ≡ false
  unfolding mermaid_text html_escape contains
  no_closing k = contains-replace 62 newline line_break escaped k (
      inl (
        contains-replace 62 39 (codes "&#x27;") quote_done refl (
          inl (
            contains-replace 62 34 (codes "&quot;") gt_done refl
              (inl (contains-replace 62 62 (codes "&gt;") lt_done refl (inr refl)))))))

  no_apostrophe :
      contains 39 line_break ≡ false → contains 39 (mermaid_text line_break value) ≡ false
  unfolding mermaid_text html_escape contains
  no_apostrophe k =
      contains-replace 39 newline line_break escaped k
        (inl (contains-replace 39 39 (codes "&#x27;") quote_done refl (inr refl)))

special-cases :
    (c : ℕ) → member c special ≡ true → (c ≡ 34) ⊎ ((c ≡ 60) ⊎ ((c ≡ 62) ⊎ ((c ≡ 39) ⊎ (c ≡ 10))))
unfolding member
special-cases c h = elim (Bool-cases (c == 34)) [
  | inl e ↦ inl (ground arith)
  | inr n34 ↦ elim (Bool-cases (c == 60)) [
    | inl e ↦ inr (inl (ground arith))
    | inr n60 ↦ elim (Bool-cases (c == 62)) [
      | inl e ↦ inr (inr (inl (ground arith)))
      | inr n62 ↦ elim (Bool-cases (c == 39)) [
        | inl e ↦ inr (inr (inr (inl (ground arith))))
        | inr n39 ↦ inr (inr (inr (inr (ground arith))))
      ]
    ]
  ]
]

-- A Mermaid label has no quote, angle bracket, apostrophe or line break but those of the text that stands for
-- a line break.
pub contains-mermaid_text :
    (line_break value : Text) (c : ℕ)
    → member c special ≡ true
    → contains c line_break ≡ false
    → contains c (mermaid_text line_break value) ≡ false
unfolding mermaid_text html_escape
contains-mermaid_text line_break value c h k =
    let at =
      λ (d : ℕ) (one : c ≡ d)
          (f : contains d line_break ≡ false → contains d (mermaid_text line_break value) ≡ false).
        ap (λ x. contains x (mermaid_text line_break value)) one
        ∙ f (ap (λ x. contains x line_break) (sym one) ∙ k) in
    elim (special-cases c h) [
      | inl one ↦ at 34 one (no_quote line_break value)
      | inr (inl one) ↦ at 60 one (no_opening line_break value)
      | inr (inr (inl one)) ↦ at 62 one (no_closing line_break value)
      | inr (inr (inr (inl one))) ↦ at 39 one (no_apostrophe line_break value)
      | inr (inr (inr (inr one))) ↦
          contains-replace c newline line_break (escaped line_break value) k (inr one)
    ]
