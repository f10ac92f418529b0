-- ===== src/Fake/Transaction/Round.antt =====
-- One round of the loop, for a put and for a delete whose range overlaps none written before: it
-- keeps what holds between the rounds, and does to the values what the specification says.
use etcd_fsm.Common.{
  ℕ, ◌+◌, ◌≡◌, refl, true, false, ◌&&◌, Option, none, some, List, [], ◌∷◌, ◌++◌, arith, any, All,
  is_some, Bool-cases, inl, inr, length, ap, ◌∙◌,
}
use etcd_fsm.Bytes.{Bytes, eq_bytes}
use etcd_fsm.Bytes.Order.{eq_of_eq_bytes, eq_bytes_refl}
use etcd_fsm.Backend.{KeyValue, WatchEvent, Put, DeleteRange, put, delete_range, Result, ok, err}
use etcd_fsm.Fake.Keys.{key_in_range, ranges_overlap}
use etcd_fsm.Fake.{
  FakeEtcdBackend, Version, versions, live_version, key_value_at, append_version, keys_in_range,
  as_key_value,
}
use etcd_fsm.Fake.History.{UpTo, IsHistory, mem_key}
use etcd_fsm.Fake.History.Append.{
  versions-append_version, key_value_at-append_version, key_value_at-UpTo,
}
use etcd_fsm.Fake.History.Grow.{append_version-IsHistory}
use etcd_fsm.Fake.History.Members.{mem_key-keys_in_range, keys_in_range-IsDistinct}
use etcd_fsm.Fake.Writes.{put_unlocked, stored_version, delete_unlocked, delete_keys, with_count}
use etcd_fsm.Fake.Writes.Deleted.{
  delete_keys-frame, versions-delete_keys, key_value_at-delete_keys, AllLive, AllOld,
  delete_keys-IsHistory,
}
use etcd_fsm.Fake.Transaction.{WriteRange}
use etcd_fsm.Fake.Transaction.Spec.{put_value, apply_operation}
use etcd_fsm.Fake.Transaction.Loop.{
  is_written, IsRunning, not_written, not_written-snoc, put-in_range,
}

pub stored_version-revision :
    (p : Put) (R : ℕ) (current : Option KeyValue) → (stored_version p R current).revision ≡ R
unfolding stored_version
stored_version-revision p R none = refl
stored_version-revision p R (some current) = refl

pub live-stored_version :
    (p : Put) (R : ℕ) (current : Option KeyValue)
    → live_version p.key (some (stored_version p R current)) ≡ some (put_value p R current)
unfolding stored_version live_version as_key_value put_value
live-stored_version p R none = refl
live-stored_version p R (some current) = refl

pub state-with_count :
    (n : ℕ) (out : Result (List WatchEvent) × FakeEtcdBackend) → (with_count n out).1 ≡ out.1
state-with_count n (ok events, s) = refl
state-with_count n (err e, s) = refl

pub state-delete_unlocked :
    (d : DeleteRange) (R : ℕ) (s : FakeEtcdBackend)
    → (delete_unlocked d R s).1
      ≡ (delete_keys (keys_in_range s.history s.revision d.start d.end) R [] s).1
unfolding delete_unlocked
state-delete_unlocked d R s =
    state-with_count (length (keys_in_range s.history s.revision d.start d.end))
      (delete_keys (keys_in_range s.history s.revision d.start d.end) R [] s)

pub All-of_mem {ℓ} :
    (P : Bytes → Type ℓ) (found : List Bytes)
    → ((k : Bytes) → mem_key k found ≡ true → P k)
    → All P found
unfolding any
All-of_mem P [] f = tt
All-of_mem P (key ∷ rest) f =
    (f key (rw (eq_bytes_refl key)), All-of_mem P rest (λ k m. f k (ground arith)))

module _ (s0 s : FakeEtcdBackend) (written : List WriteRange)
    (valid : IsHistory s0.revision s0.history) (running : IsRunning s0 written s) where
  pub same_revision : s.revision ≡ s0.revision
  same_revision = ap (λ t. t.revision) running.frame

  -- A key that is not written has only versions from before the transaction.
  pub still_old :
      (key : Bytes) → is_written key written ≡ false → UpTo s.revision (versions s.history key)
  still_old key h = rw (running.untouched key h, same_revision) (valid.up_to key)

  module _ (p : Put)
      (fresh : any (ranges_overlap (p.key, some (p.key ++ 0 ∷ []))) written ≡ false) where
    key_not_written : is_written p.key written ≡ false
    key_not_written =
        not_written (p.key, some (p.key ++ 0 ∷ [])) written p.key fresh (put-in_range p.key)

    not_the_key :
        (key : Bytes)
        → key_in_range key p.key (some (p.key ++ 0 ∷ [])) ≡ false
        → eq_bytes p.key key ≡ false
    not_the_key key outside = elim (Bool-cases (eq_bytes p.key key)) [
      | inl same ↦ cc (
        put-in_range p.key,
        ap (λ (j : Bytes). key_in_range j p.key (some (p.key ++ 0 ∷ [])))
            (eq_of_eq_bytes p.key key same),
      )
      | inr other ↦ other
    ]

    pub put-IsRunning :
        IsRunning s0
          (written ++ (p.key, some (p.key ++ 0 ∷ [])) ∷ [])
          (put_unlocked p (s0.revision + 1) s).1
    unfolding put_unlocked
    put-IsRunning =
        let R : ℕ = s0.revision + 1 in
        let stored : Version = stored_version p R (key_value_at s.history p.key s.revision) in
        let fits : stored.revision ≡ R = stored_version-revision p R _ in
        record {
          frame =
              ap {B = FakeEtcdBackend}
                (λ (t : FakeEtcdBackend). record t {
                  history = append_version p.key stored s.history;
                })
                running.frame;
          history =
              append_version-IsHistory p.key stored s.history s.revision R
                (omega (arith, same_revision)) fits (still_old p.key key_not_written)
                running.history;
          untouched = λ key h.
              let (unwritten, outside) =
                not_written-snoc written (p.key, some (p.key ++ 0 ∷ [])) key h in
              rw (versions-append_version p.key stored s.history key, not_the_key key outside)
                (running.untouched key unwritten);
        }

    pub view-put_unlocked :
        (key : Bytes)
        → key_value_at (put_unlocked p (s0.revision + 1) s).1.history key (s0.revision + 1)
          ≡ apply_operation
              (put p)
              (s0.revision + 1)
              (λ j. key_value_at s.history j (s0.revision + 1))
              key
    unfolding put_unlocked apply_operation
    view-put_unlocked key =
        let R : ℕ = s0.revision + 1 in
        let current : Option KeyValue = key_value_at s.history p.key s.revision in
        let fits : (stored_version p R current).revision ≡ R =
          stored_version-revision p R current in
        rw (key_value_at-append_version p.key (stored_version p R current) s.history key R)
          (elim (Bool-cases (eq_bytes p.key key)) [
            | inl same ↦
                rw (same, ← eq_of_eq_bytes p.key key same, fits)
                  (rw
                    (
                      live-stored_version p R current,
                      key_value_at-UpTo s.history p.key s.revision R
                          (still_old p.key key_not_written) (omega (arith, same_revision)),
                    )
                    (ground arith))
            | inr other ↦ rw other
          ])

  module _ (d : DeleteRange) (fresh : any (ranges_overlap (d.start, d.end)) written ≡ false) where
    abbrev found : List Bytes
    found = keys_in_range s.history s.revision d.start d.end

    found-mem :
        (key : Bytes)
        → mem_key key found
          ≡ (key_in_range key d.start d.end && is_some (key_value_at s.history key s.revision))
    found-mem key = mem_key-keys_in_range s.history s.revision d.start d.end key

    unwritten_in_range :
        (key : Bytes) → key_in_range key d.start d.end ≡ true → is_written key written ≡ false
    unwritten_in_range key h = not_written (d.start, d.end) written key fresh h

    found-AllLive : AllLive found s
    found-AllLive =
        All-of_mem (λ key. is_some (key_value_at s.history key s.revision) ≡ true) found
          (λ key m. ground (arith, found-mem key))

    found-AllOld : AllOld found s
    found-AllOld =
        All-of_mem (λ key. UpTo s.revision (versions s.history key)) found
          (λ key m. still_old key (unwritten_in_range key (ground (arith, found-mem key))))

    pub delete-IsRunning :
        IsRunning s0 (written ++ (d.start, d.end) ∷ []) (delete_unlocked d (s0.revision + 1) s).1
    delete-IsRunning =
        let R : ℕ = s0.revision + 1 in
        let s' : FakeEtcdBackend = (delete_keys found R [] s).1 in
        rw (state-delete_unlocked d R s) (record {
          frame =
              delete_keys-frame found R [] s
              ∙ ap {B = FakeEtcdBackend}
                  (λ (t : FakeEtcdBackend). record t { history = s'.history }) running.frame;
          history =
              delete_keys-IsHistory found R [] s (omega (arith, same_revision))
                (keys_in_range-IsDistinct s.history s.revision d.start d.end
                  running.history.distinct)
                found-AllOld running.history;
          untouched = λ key h.
              let (unwritten, outside) = not_written-snoc written (d.start, d.end) key h in
              versions-delete_keys found R [] s key (ground (arith, found-mem key))
              ∙ running.untouched key unwritten;
        })

    pub view-delete_unlocked :
        (key : Bytes)
        → key_value_at (delete_unlocked d (s0.revision + 1) s).1.history key (s0.revision + 1)
          ≡ apply_operation
              (delete_range d)
              (s0.revision + 1)
              (λ j. key_value_at s.history j (s0.revision + 1))
              key
    unfolding apply_operation
    view-delete_unlocked key =
        let R : ℕ = s0.revision + 1 in
        rw
          (
            state-delete_unlocked d R s,
            key_value_at-delete_keys found R [] s key R (omega (arith, same_revision)) (omega arith)
                found-AllLive,
            found-mem key,
          )
          (elim (Bool-cases (key_in_range key d.start d.end)) [
            | inl inside ↦
                rw
                  (
                    inside,
                    key_value_at-UpTo s.history key s.revision R
                        (still_old key (unwritten_in_range key inside))
                        (omega (arith, same_revision)),
                  )
                  (ground arith)
            | inr outside ↦ rw outside
          ])
