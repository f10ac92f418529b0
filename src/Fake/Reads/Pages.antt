-- ===== src/Fake/Reads/Pages.antt =====
-- The pages of `_range_unlocked` in etcd_fsm/_fake_backend.py.
use etcd_fsm.Common.{
  ℕ, zero, suc, ◌≤◌, ◌≡◌, refl, sym, ap, ◌∙◌, subst, true, false, none, some, List, [], ◌∷◌, ◌++◌,
  pos, ltb, length, take, arith, Bool-cases, inl, inr,
}
use etcd_fsm.Backend.{KeyValue, RangeRequest, RangeResult, ok}
use etcd_fsm.Fake.{FakeEtcdBackend, ensure_open}
use etcd_fsm.Fake.Reads.{
  range, range_unlocked, check_limit, read_revision, page, values_at, next_key_after,
}
use etcd_fsm.Backend.Chains.{then-ok, ok_inj}

length-take : (n : ℕ) (values : List KeyValue) → length (take n values) ≤ n
length-take zero values = omega arith
length-take (suc n) [] = omega arith
length-take (suc n) (v ∷ values) = omega (arith, length-take n values)

length-take_full :
    (n : ℕ) (values : List KeyValue) → ltb n (length values) ≡ true → length (take n values) ≡ n
length-take_full zero values h = refl
length-take_full (suc n) [] h = ground arith
length-take_full (suc n) (v ∷ values) h = ground (arith, length-take_full n values)

take_all : (n : ℕ) (values : List KeyValue) → ltb n (length values) ≡ false → take n values ≡ values
take_all zero [] h = refl
take_all zero (v ∷ values) h = ground arith
take_all (suc n) [] h = refl
take_all (suc n) (v ∷ values) h = ap (λ rest. v ∷ rest) (take_all n values (ground arith))

-- The last of the values, and the key with a zero byte that follows it.
next_key_after_last :
    (v : KeyValue) (values : List KeyValue)
    → (front : List KeyValue) × (last : KeyValue) × (v ∷ values ≡ front ++ last ∷ [])
      × (next_key_after (v ∷ values) ≡ some (last.key ++ 0 ∷ []))
next_key_after_last v [] = ([], v, refl, refl)
next_key_after_last v (w ∷ values) =
    let (front, last, e, k) = next_key_after_last w values in
    (v ∷ front, last, ap (λ l. v ∷ l) e, k)

-- The first values, and at least one that is left.
take_split :
    (n : ℕ) (values : List KeyValue)
    → ltb n (length values) ≡ true
    → (next : KeyValue) × (left : List KeyValue) × (values ≡ take n values ++ next ∷ left)
take_split zero [] h = ground arith
take_split zero (v ∷ values) h = (v, values, refl)
take_split (suc n) [] h = ground arith
take_split (suc n) (v ∷ values) h =
    let (next, left, e) = take_split n values (ground arith) in (next, left, ap (λ l. v ∷ l) e)

-- What a page with a limit holds: without `more` all of the values; with it the first of them, as many
-- as the limit, with a value left behind them, and the key to go on at: the last key with a zero byte.
unfoldable pub IsPage : ℕ → List KeyValue → RangeResult → Type 0
IsPage limit values result =
    (length result.values ≤ limit)
    × (result.more ≡ false → (result.values ≡ values) × (result.next_key ≡ none))
    × (result.more ≡ true
        → (length result.values ≡ limit)
          × ((next : KeyValue) × (left : List KeyValue) × (values ≡ result.values ++ next ∷ left))
          × ((front : List KeyValue) × (last : KeyValue) × (result.values ≡ front ++ last ∷ [])
              × (result.next_key ≡ some (last.key ++ 0 ∷ []))))

page-IsPage :
    (limit : ℕ) (values : List KeyValue) (revision : ℕ)
    → check_limit (some (pos limit)) ≡ ok tt
    → IsPage limit values (page values revision (some (pos limit)))
unfolding page IsPage check_limit
page-IsPage zero values revision h = cc
page-IsPage (suc n) [] revision h =
    let nothing : ltb (suc n) 0 ≡ false = ground arith in
    rw nothing (omega arith, (λ _. (refl, refl)), λ e. cc)
page-IsPage (suc n) (v ∷ values) revision h =
    elim (Bool-cases (ltb (suc n) (length (v ∷ values)))) [
      | inl more ↦ rw more (
        length-take (suc n) (v ∷ values),
        (λ e. cc),
        λ _. (
          length-take_full (suc n) (v ∷ values) more,
          take_split (suc n) (v ∷ values) more,
          next_key_after_last v (take n values),
        ),
      )
      | inr whole ↦ rw whole (
        length-take (suc n) (v ∷ values),
        (λ _. (take_all (suc n) (v ∷ values) whole, refl)),
        λ e. cc,
      )
    ]

-- What a range that returns went through.
pub range-parts :
    (fake : FakeEtcdBackend) (request : RangeRequest) (result : RangeResult)
    → range fake request ≡ ok result
    → (check_limit request.limit ≡ ok tt)
      × ((revision : ℕ) × (read_revision fake request.revision ≡ ok revision)
          × (page (values_at fake.history request.start request.end revision) revision request.limit
              ≡ result))
unfolding range range_unlocked
range-parts fake request result h =
    let (_, _, h1) = then-ok (ensure_open fake) _ result h in
    let (_, limit_h, h2) = then-ok (check_limit request.limit) _ result h1 in
    let (revision, revision_h, h3) = then-ok (read_revision fake request.revision) _ result h2 in
    (limit_h, (revision, revision_h, ok_inj h3))

-- A range with a limit that returns has no more values than the limit. Without `more` they are all the values of
-- the range and there is no next key; with `more` they are the first values of the range, as many as the
-- limit, at least one value is left behind them, and the next key is the last key with a zero byte.
pub range-IsPage :
    (s : FakeEtcdBackend) (request : RangeRequest) (result : RangeResult) (limit : ℕ)
    → request.limit ≡ some (pos limit)
    → range s request ≡ ok result
    → IsPage limit (values_at s.history request.start request.end result.revision) result
unfolding page
range-IsPage s request result limit h k =
    let (limit_h, parts) = range-parts s request result k in
    let (revision, _, page_h) = parts in
    let paged =
      ap (page (values_at s.history request.start request.end revision) revision) (sym h)
      ∙ page_h in
    subst (λ r. IsPage limit (values_at s.history request.start request.end r.revision) r) paged
      (page-IsPage limit (values_at s.history request.start request.end revision) revision
        (sym (ap check_limit h) ∙ limit_h))
