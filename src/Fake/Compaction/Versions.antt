-- ===== src/Fake/Compaction/Versions.antt =====
-- What `compact` does to the versions of one key: it drops the older ones that a newer version, up
-- to the compacted revision, has replaced.
use mathlib.Core.List.{reverse-cons}
use etcd_fsm.Common.{
  ℕ, ◌≤◌, ◌<◌, ◌≡◌, refl, Bool, true, false, not, ◌&&◌, Option, none, some, List, [], ◌∷◌, ◌++◌,
  reverse, arith, leb, ltb, if◌then◌else◌, filter, All, any, ap, ◌∙◌, sym, Bool-cases, inl, inr,
  is_empty, is_some,
}
use etcd_fsm.Fake.{Version, first_at}
use etcd_fsm.Fake.History.{IsAscending, UpTo}
use etcd_fsm.Fake.History.Append.{All-weaken}
use etcd_fsm.Fake.Compaction.{last_only, compact_versions}

-- The last version up to a revision, from the oldest on.
latest : ℕ → List Version → Option Version
latest r [] = none
latest r (v ∷ vs) = elim (latest r vs) [
  | none ↦ if leb v.revision r then some v else none
  | some w ↦ some w
]

first_at-snoc :
    (r : ℕ) (ws : List Version) (v : Version)
    → first_at r (ws ++ v ∷ []) ≡ (elim (first_at r ws) [
      | none ↦ if leb v.revision r then some v else none
      | some w ↦ some w
    ])
unfolding first_at
first_at-snoc r [] v = refl
first_at-snoc r (w ∷ ws) v = ground (arith, first_at-snoc r ws v)

first_at-reverse : (r : ℕ) (vs : List Version) → first_at r (reverse vs) ≡ latest r vs
unfolding latest first_at
first_at-reverse r [] = refl
first_at-reverse r (v ∷ vs) =
    rw (reverse-cons v vs, first_at-snoc r (reverse vs) v) (ground (arith, first_at-reverse r vs))

abbrev is_old : ℕ → Version → Bool
is_old c v = leb v.revision c

pub drop_old : ℕ → List Version → List Version
drop_old c [] = []
drop_old c (v ∷ vs) =
    let rest = drop_old c vs in if is_old c v && any (is_old c) vs then rest else v ∷ vs

All-newer : (c : ℕ) (vs : List Version) → any (is_old c) vs ≡ false → All (λ v. c < v.revision) vs
unfolding any
All-newer c [] h = tt
All-newer c (v ∷ vs) h = (ground arith, All-newer c vs (ground arith))

filter_newer :
    (c : ℕ) (vs : List Version)
    → All (λ v. c < v.revision) vs
    → (filter (is_old c) vs ≡ []) × (filter (λ v. ltb c v.revision) vs ≡ vs)
unfolding filter
filter_newer c [] h = (refl, refl)
filter_newer c (v ∷ vs) h = let (p, q) = filter_newer c vs h.1 in (ground arith, ground arith)

filter_found :
    (c : ℕ) (vs : List Version) → is_empty (filter (is_old c) vs) ≡ not (any (is_old c) vs)
unfolding filter any
filter_found c [] = refl
filter_found c (v ∷ vs) = ground (arith, filter_found c vs)

last_only-cons :
    (v : Version) (l : List Version) → is_empty l ≡ false → last_only (v ∷ l) ≡ last_only l
unfolding last_only
last_only-cons v [] h = cc
last_only-cons v (w ∷ l) h = refl

-- On versions in order, `compact_versions` drops the front.
pub compact_versions-drop_old :
    (c : ℕ) (vs : List Version) → IsAscending vs → compact_versions c vs ≡ drop_old c vs
unfolding compact_versions drop_old filter any last_only
compact_versions-drop_old c [] h = refl
compact_versions-drop_old c (v ∷ vs) h = elim (Bool-cases (is_old c v)) [
  | inl old ↦ elim (Bool-cases (any (is_old c) vs)) [
    | inl replaced ↦ ground (
      arith,
      compact_versions-drop_old c vs h.1,
      filter_found c vs,
      last_only-cons v (filter (is_old c) vs),
    )
    | inr last ↦
        let (none_old, all_new) = filter_newer c vs (All-newer c vs last) in
        rw (old, last, none_old, all_new) (ground arith)
  ]
  | inr new ↦
      let newer : All (λ w. c < w.revision) vs =
        All-weaken (λ w. v.revision < w.revision) (λ w. c < w.revision) (λ w lt. ground arith) vs
          h.0 in
      let (none_old, all_new) = filter_newer c vs newer in
      rw (new, none_old, all_new) (ground arith)
]

latest-found :
    (c r : ℕ) (vs : List Version) → c ≤ r → any (is_old c) vs ≡ true → is_some (latest r vs) ≡ true
unfolding latest any
latest-found c r [] le h = cc
latest-found c r (v ∷ vs) le h = ground (arith, latest-found c r vs le)

latest-drop_old : (c r : ℕ) (vs : List Version) → c ≤ r → latest r (drop_old c vs) ≡ latest r vs
unfolding latest drop_old
latest-drop_old c r [] le = refl
latest-drop_old c r (v ∷ vs) le = ground (arith, latest-drop_old c r vs le, latest-found c r vs le)

-- The version that a read at a revision from the compacted one on finds is kept.
pub first_at-compact_versions :
    (c r : ℕ) (vs : List Version)
    → IsAscending vs
    → c ≤ r
    → first_at r (reverse (compact_versions c vs)) ≡ first_at r (reverse vs)
first_at-compact_versions c r vs h le =
    ap (λ (l : List Version). first_at r (reverse l)) (compact_versions-drop_old c vs h)
    ∙ first_at-reverse r (drop_old c vs)
    ∙ latest-drop_old c r vs le
    ∙ sym (first_at-reverse r vs)

drop_old-IsAscending : (c : ℕ) (vs : List Version) → IsAscending vs → IsAscending (drop_old c vs)
unfolding drop_old
drop_old-IsAscending c [] h = tt
drop_old-IsAscending c (v ∷ vs) h = elim (Bool-cases (is_old c v && any (is_old c) vs)) [
  | inl dropped ↦ rw dropped (drop_old-IsAscending c vs h.1)
  | inr kept ↦ rw kept h
]

drop_old-UpTo : (c r : ℕ) (vs : List Version) → UpTo r vs → UpTo r (drop_old c vs)
unfolding drop_old
drop_old-UpTo c r [] h = tt
drop_old-UpTo c r (v ∷ vs) h = elim (Bool-cases (is_old c v && any (is_old c) vs)) [
  | inl dropped ↦ rw dropped (drop_old-UpTo c r vs h.1)
  | inr kept ↦ rw kept h
]

pub compact_versions-IsAscending :
    (c : ℕ) (vs : List Version) → IsAscending vs → IsAscending (compact_versions c vs)
compact_versions-IsAscending c vs h =
    rw (compact_versions-drop_old c vs h) (drop_old-IsAscending c vs h)

pub compact_versions-UpTo :
    (c r : ℕ) (vs : List Version) → IsAscending vs → UpTo r vs → UpTo r (compact_versions c vs)
compact_versions-UpTo c r vs h b = rw (compact_versions-drop_old c vs h) (drop_old-UpTo c r vs b)
