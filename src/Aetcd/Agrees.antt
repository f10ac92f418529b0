-- ===== src/Aetcd/Agrees.antt =====
-- A range through the adapter of etcd_fsm/_aetcd_backend.py, of a server that holds what the in-memory backend of
-- etcd_fsm/_fake_backend.py holds.
use etcd_fsm.Common.{
  ℕ, zero, suc, ◌≡◌, ◌≢◌, refl, ap, ◌∙◌, subst, true, false, Option, none, some, List, [], ◌∷◌, map,
  ◌==◌, ltb, length, ℤ, pos, negsuc, if◌then◌else◌, arith, Bool-cases, inl, inr, All,
}
use etcd_fsm.Bytes.{Bytes}
use etcd_fsm.Backend.{KeyValue, RangeRequest, RangeResult, ok}
use etcd_fsm.Fake.{FakeEtcdBackend}
use etcd_fsm.Backend.Chains.{ok_inj}
use etcd_fsm.Fake.Reads.Pages.{range-parts}
use etcd_fsm.Fake.Reads.{range, read_revision, check_limit, page, values_at}
use etcd_fsm.Aetcd.{
  Client, answered, RangeMessage, KeyValueMessage, or_zero, or_none, or_empty, limit_or_zero,
  range_request, check_int64, is_int64, key_value, range_result,
}
use etcd_fsm.Aetcd.Calls.{aetcd_connect, aetcd_range, check_request_limit, read_reply}

-- How a value is written in a message: without a lease the id is 0.
abbrev pub value_message : KeyValue → KeyValueMessage
value_message v = record {
  key = v.key;
  value = v.value;
  create_revision = v.create_revision;
  mod_revision = v.mod_revision;
  version = v.version;
  lease = or_zero v.lease_id;
}

-- The request that a message stands for: an empty end is a single key, and the numbers 0 are missing.
abbrev pub some_end : Bytes → Option Bytes
some_end [] = none
some_end (b ∷ end) = some (b ∷ end)

abbrev pub some_limit : ℤ → Option ℤ
some_limit (pos zero) = none
some_limit limit = some limit

abbrev pub request_of : RangeMessage → RangeRequest
request_of message = record {
  start = message.key;
  end = some_end message.range_end;
  revision = or_none message.revision;
  limit = some_limit message.limit;
}

-- The client is connected, and answers a range message with what the in-memory backend returns for the request
-- that the message stands for, at the current revision.
unfoldable pub Serves : {S : Type 0} → Client S → FakeEtcdBackend → S → Type 0
Serves client fake s =
    (client.connect_call s ≡ (answered tt, s))
    × ((message : RangeMessage) (result : RangeResult)
        → range fake (request_of message) ≡ ok result
        → client.range_call message s ≡ (
          answered (record {
            kvs = map value_message result.values;
            more = result.more;
            header_revision = fake.revision;
          }),
          s,
        ))

-- The request has no end and no revision that its message would lose, and no number that does not fit in 64
-- bits.
unfoldable pub IsPlain : RangeRequest → Type 0
IsPlain request =
    (request.end ≢ some [])
    × (request.revision ≢ some 0)
    × (is_int64 (limit_or_zero request.limit) ≡ true)
    × (is_int64 (pos (or_zero request.revision)) ≡ true)

-- The message of a request whose numbers fit.
abbrev pub plain_message : RangeRequest → RangeMessage
plain_message request = record {
  key = request.start;
  range_end = or_empty request.end;
  limit = limit_or_zero request.limit;
  revision = or_zero request.revision;
}

-- No value has the lease 0.
abbrev pub HasLease : KeyValue → Type 0
HasLease v = v.lease_id ≢ some 0

or_none-or_zero : (n : Option ℕ) → n ≢ some 0 → or_none (or_zero n) ≡ n
or_none-or_zero none h = refl
or_none-or_zero (some zero) h = elim (h refl) [ ]
or_none-or_zero (some (suc n)) h = ground arith

key_value-value_message : (v : KeyValue) → HasLease v → key_value (value_message v) ≡ v
unfolding key_value
key_value-value_message v h =
    ap (λ lease_id. record v { lease_id = lease_id }) (or_none-or_zero v.lease_id h)

map-key_value :
    (values : List KeyValue)
    → All HasLease values
    → map key_value (map value_message values) ≡ values
map-key_value [] h = refl
map-key_value (v ∷ rest) h = cc (key_value-value_message v h.0, map-key_value rest h.1)

some_end-or_empty : (end : Option Bytes) → end ≢ some [] → some_end (or_empty end) ≡ end
some_end-or_empty none h = refl
some_end-or_empty (some []) h = elim (h refl) [ ]
some_end-or_empty (some (b ∷ end)) h = refl

some_limit-limit :
    (limit : Option ℤ) → check_limit limit ≡ ok tt → some_limit (limit_or_zero limit) ≡ limit
unfolding check_limit
some_limit-limit none h = refl
some_limit-limit (some (pos zero)) h = cc
some_limit-limit (some (pos (suc n))) h = refl
some_limit-limit (some (negsuc n)) h = cc

check-limit : (limit : Option ℤ) → check_limit limit ≡ ok tt → check_request_limit limit ≡ ok tt
unfolding check_limit check_request_limit
check-limit none h = refl
check-limit (some (pos zero)) h = cc
check-limit (some (pos (suc n))) h = refl
check-limit (some (negsuc n)) h = cc

page-range_result :
    (values : List KeyValue) (revision : ℕ) (limit : Option ℤ)
    → check_limit limit ≡ ok tt
    → range_result (page values revision limit).values (page values revision limit).more revision
      ≡ ok (page values revision limit)
unfolding check_limit page range_result
page-range_result values revision none h = refl
page-range_result values revision (some (pos zero)) h = cc
page-range_result [] revision (some (pos (suc n))) h =
    let nothing : ltb (suc n) 0 ≡ false = ground arith in rw nothing refl
page-range_result (v ∷ values) revision (some (pos (suc n))) h =
    elim (Bool-cases (ltb (suc n) (length (v ∷ values)))) [
      | inl more ↦ rw more refl
      | inr whole ↦ rw whole refl
    ]
page-range_result values revision (some (negsuc n)) h = cc

read_revision-value :
    (s : FakeEtcdBackend) (revision : Option ℕ) (found : ℕ)
    → revision ≢ some 0
    → read_revision s revision ≡ ok found
    → (if or_zero revision == 0 then s.revision else or_zero revision) ≡ found
unfolding read_revision
read_revision-value s none found k h = ok_inj h
read_revision-value s (some zero) found k h = elim (k refl) [ ]
read_revision-value s (some (suc n)) found k h = ground arith

range_request-plain :
    (request : RangeRequest) → IsPlain request → range_request request ≡ ok (plain_message request)
unfolding range_request check_int64 IsPlain
range_request-plain request plain = rw (plain.2, plain.3, range_request, check_int64) refl

-- The request comes back from its message.
request_of-plain_message :
    (request : RangeRequest)
    → IsPlain request
    → check_limit request.limit ≡ ok tt
    → request_of (plain_message request) ≡ request
unfolding IsPlain
request_of-plain_message request plain h =
    ap
      (λ end. record {
        start = request.start;
        end = end;
        revision = or_none (or_zero request.revision);
        limit = some_limit (limit_or_zero request.limit);
      })
      (some_end-or_empty request.end plain.0)
    ∙ ap
        (λ revision. record request {
          revision = revision;
          limit = some_limit (limit_or_zero request.limit);
        })
        (or_none-or_zero request.revision plain.1)
    ∙ ap (λ limit. record request { limit = limit }) (some_limit-limit request.limit h)

-- Where the server behind the client answers as the in-memory backend does, a range through the adapter returns what
-- the in-memory backend returns, if it returns, for a request whose end is not empty, whose revision
-- is not 0, and whose limit and revision are below 2 ** 63, and for values without the lease 0.
pub aetcd_range-agrees :
    {S : Type 0} (client : Client S) (fake : FakeEtcdBackend) (s : S) (request : RangeRequest)
    (result : RangeResult)
    → Serves client fake s
    → IsPlain request
    → All HasLease result.values
    → range fake request ≡ ok result
    → aetcd_range client request s ≡ (ok result, s)
unfolding aetcd_range aetcd_connect Serves IsPlain read_reply
aetcd_range-agrees client fake s request result serves plain leases h =
    let (limit_h, parts) = range-parts fake request result h in
    let (revision, revision_h, page_h) = parts in
    let answer =
      serves.1 (plain_message request) result
        (ap (range fake) (request_of-plain_message request plain limit_h) ∙ h) in
    let reply_h =
      ap
        (λ values.
          range_result values result.more
            (if or_zero request.revision == 0 then fake.revision else or_zero request.revision))
        (map-key_value result.values leases)
      ∙ ap (range_result result.values result.more)
          (read_revision-value fake request.revision revision plain.1 revision_h)
      ∙ subst (λ r. range_result r.values r.more revision ≡ ok r) page_h
          (page-range_result (values_at fake.history request.start request.end revision) revision
            request.limit limit_h) in
    rw (check-limit request.limit limit_h, aetcd_range)
      (rw (serves.0, aetcd_connect)
        (rw (range_request-plain request plain) (rw answer (ap (λ r. (r, s)) reply_h))))
