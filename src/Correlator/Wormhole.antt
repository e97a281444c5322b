-- ===== src/Correlator/Wormhole.antt =====
-- Wormhole: the key of a redemption asks for the sequence as the nonce, and the nonce that is
-- stored for a published message is always zero.
use akave_crosschain_archive.Base.{
  ℕ, suc, String, true, Option, none, some, ◌≡◌, ◌≢◌, ◌⊎◌, refl, sym, arith, inl, inr, eq_iff,
  eq_refl, str_eq, Bool-cases, Option-cases, Result, ok, err, Result-cases, context-eq-ok, ◌∙◌, ap,
  some_inj,
}
use akave_crosschain_archive.Base.Table.{lookup, lookup-upsert, lookup-update, merged}
use akave_crosschain_archive.Correlator.{
  postgres, process, process_normalized, correlate_with, correlate_found,
}
use akave_crosschain_archive.Database.{
  Db, Faults, MessageRow, PayloadRow, message_row, merge_message, payload_row, merge_payload, empty,
}
use akave_crosschain_archive.Normalizer.Sending.{IsNew}
use akave_crosschain_archive.Correlator.Consistency.{
  has, IsConsistent, process-IsConsistent, IsConsistent-empty,
}
use akave_crosschain_archive.Correlator.Postgres.{postgres_rule}
use akave_crosschain_archive.Store.Effects.{stored, settled}
use akave_crosschain_archive.Decoder.{RawEvent}
use akave_crosschain_archive.Normalizer.{
  Normalized, CorrelationKey, normalize, normalize_transfer_redeemed,
  normalize_log_message_published, parse_uint64,
}
use akave_crosschain_archive.Store.Find.{IsMatch, find-IsMatch, matches-composite}
use akave_crosschain_archive.Types.{Message, Payload, Metadata, Destination, MessageStatus}

-- Every message of the protocol in the tables has the nonce that a published message gets.
pub record HasNoNonce (protocol : String) (db : Db) : Type 0 where
  pub nonce :
      (k : String) (row : MessageRow) (p : PayloadRow)
      → lookup k db.messages ≡ some row
      → row.protocol ≡ protocol
      → lookup k db.payloads ≡ some p
      → p.nonce ≡ 0

-- What the redemption's key asks for.
redeemed_key :
    (e : RawEvent) (n : Normalized)
    → normalize_transfer_redeemed e ≡ ok n
    → (key : CorrelationKey) × (n.correlation_key ≡ some key)
      × (n.is_correlation ≡ true)
      × (key.message_id ≡ "")
      × (key.protocol ≡ e.protocol)
      × (parse_uint64 (e.fields "sequence") ≡ ok key.nonce)
unfolding normalize_transfer_redeemed
redeemed_key e n h = elim (Option-cases n.correlation_key) [
  | inl none_ ↦ absurd (ground arith)
  | inr (key, k) ↦ (key, k, ground arith, ground arith, ground arith, ground arith)
]

-- A search that finds nothing leaves the store as it is.
correlate_found_missed :
    (f : Faults) (clock : ℕ) (n : Normalized) (r : Result (Option Message)) (db : Db)
    → ((m : Message) → r ≢ ok (some m))
    → (correlate_found (postgres f clock) n r db).0 ≡ db
unfolding correlate_found
correlate_found_missed f clock n (err x) db h = refl
correlate_found_missed f clock n (ok none) db h = refl
correlate_found_missed f clock n (ok (some m)) db h = absurd (h m refl)

matches_nonce :
    (key : CorrelationKey) (db : Db) (m : Message)
    → IsMatch key db m
    → key.message_id ≡ ""
    → HasNoNonce key.protocol db
    → key.nonce ≡ 0
matches_nonce key db m hit direct zeros =
    let (protocol, nonce, _, _) =
      matches-composite key m.message_id hit.row hit.source hit.payload direct hit.matched in
    sym nonce ∙ zeros.nonce m.message_id hit.row hit.payload hit.has_row protocol hit.has_payload

normalize_redeemed :
    (now : ℕ) (e : RawEvent)
    → e.event_type ≡ "TransferRedeemed"
    → normalize now (some e) ≡ normalize_transfer_redeemed e
unfolding normalize
normalize_redeemed now e kind = simp kind

redeemed_missed :
    (f : Faults) (clock : ℕ) (e : RawEvent) (n : Normalized) (db : Db) (sequence : ℕ)
    → HasNoNonce e.protocol db
    → parse_uint64 (e.fields "sequence") ≡ ok (suc sequence)
    → normalize_transfer_redeemed e ≡ ok n
    → (process_normalized (postgres f clock) (ok n) db).0 ≡ db
unfolding process_normalized correlate_with
redeemed_missed f clock e n db sequence zeros seq done =
    let (key, has_key, flag, direct, protocol, nonce) = redeemed_key e n done in
    simp (flag, has_key)
      (correlate_found_missed f clock n _ db λ m found.
        let hit = find-IsMatch f key db m (context-eq-ok _ _ found) in
        let none_ = matches_nonce key db m hit direct (rw protocol zeros) in
        ground (arith, seq, nonce, none_))

-- A redemption whose sequence is not zero changes nothing, whatever message it redeems.
pub redeemed_unmatched :
    (f : Faults) (clock now : ℕ) (e : RawEvent) (db : Db) (sequence : ℕ)
    → e.event_type ≡ "TransferRedeemed"
    → HasNoNonce e.protocol db
    → parse_uint64 (e.fields "sequence") ≡ ok (suc sequence)
    → (process (postgres f clock) now e db).0 ≡ db
unfolding process
redeemed_unmatched f clock now e db sequence kind zeros seq =
    rw (normalize_redeemed now e kind) (elim (Result-cases (normalize_transfer_redeemed e)) [
      | inl (n, done) ↦ rw done (redeemed_missed f clock e n db sequence zeros seq done)
      | inr (x, refused) ↦ rw refused (unfold process_normalized in refl)
    ])

-- An event as the decoders make them: only Wormhole's decoder names its protocol, and it makes
-- events of two types.
pub record IsDecoded (e : RawEvent) : Type 0 where
  pub wormhole :
      e.protocol ≡ "wormhole"
      → (e.event_type ≡ "LogMessagePublished") ⊎ (e.event_type ≡ "TransferRedeemed")

published_nonce :
    (now : ℕ) (e : RawEvent) (n : Normalized) (p : Payload)
    → normalize_log_message_published now e ≡ ok n
    → n.message.payload ≡ some p
    → p.nonce ≡ 0
unfolding normalize_log_message_published
published_nonce now e n p h hp = ground arith

normalize_published :
    (now : ℕ) (e : RawEvent)
    → e.event_type ≡ "LogMessagePublished"
    → normalize now (some e) ≡ normalize_log_message_published now e
unfolding normalize
normalize_published now e kind = simp kind

new_nonce :
    (now : ℕ) (e : RawEvent) (n : Normalized) (p : Payload)
    → IsDecoded e
    → normalize now (some e) ≡ ok n
    → IsNew now e.event_type e n
    → n.message.payload ≡ some p
    → n.message.protocol ≡ "wormhole"
    → p.nonce ≡ 0
new_nonce now e n p decoded done new hp protocol =
    elim (decoded.wormhole (sym new.protocol ∙ protocol)) [
      | inl kind ↦ published_nonce now e n p (sym (normalize_published now e kind) ∙ done) hp
      | inr kind ↦
          let (_, _, flag, _, _, _) =
            redeemed_key e n (sym (normalize_redeemed now e kind) ∙ done) in
          absurd (ground (arith, flag, new.flag))
    ]

merged_nonce :
    (m : Message) (p : Payload) (o : Option MessageRow) (q : Option PayloadRow)
    → (m.protocol ≡ "wormhole" → p.nonce ≡ 0)
    → has q ≡ has o
    → ((row : MessageRow) (pay : PayloadRow)
        → o ≡ some row
        → row.protocol ≡ "wormhole"
        → q ≡ some pay
        → pay.nonce ≡ 0)
    → (merged (message_row m) (merge_message m) o).protocol ≡ "wormhole"
    → (merged (payload_row p) (merge_payload p) q).nonce ≡ 0
merged_nonce m p none none fresh both zeros h = fresh h
merged_nonce m p none (some pay) fresh both zeros h = absurd (ground arith)
merged_nonce m p (some row) none fresh both zeros h = absurd (ground arith)
merged_nonce m p (some row) (some pay) fresh both zeros h = zeros row pay refl h refl

stored-HasNoNonce :
    (m : Message) (p : Payload) (md : Metadata) (db : Db)
    → (m.protocol ≡ "wormhole" → p.nonce ≡ 0)
    → IsConsistent db
    → HasNoNonce "wormhole" db
    → HasNoNonce "wormhole" (stored m p md db)
stored-HasNoNonce m p md db fresh consistent zeros = record {
  nonce = λ k row q hk protocol hq. elim (Bool-cases (str_eq m.message_id k)) [
    | inl e ↦
        let same = (eq_iff m.message_id k).0 e in
        let row' = some_inj (simp (lookup-upsert, same, eq_refl) at hk) in
        let pay' = some_inj (simp (lookup-upsert, same, eq_refl) at hq) in
        sym (ap (λ (x : PayloadRow). x.nonce) pay')
        ∙ merged_nonce m p (lookup k db.messages) (lookup k db.payloads) fresh
            (consistent.payloads k) (λ r pay er pr ep. zeros.nonce k r pay er pr ep)
            (ap (λ (x : MessageRow). x.protocol) row' ∙ protocol)
    | inr e ↦
        zeros.nonce k row q (simp (lookup-upsert, e) at hk) protocol (simp (lookup-upsert, e) at hq)
  ];
}

settled-HasNoNonce :
    (clock : ℕ) (id : String) (dest : Destination) (set : MessageStatus) (db : Db)
    → HasNoNonce "wormhole" db
    → HasNoNonce "wormhole" (settled clock id dest set db)
settled-HasNoNonce clock id dest set db zeros = record {
  nonce = λ k row q hk protocol hq.
      let hk' = simp lookup-update at hk in
      elim (Option-cases (lookup k db.messages)) [
        | inl e ↦ absurd (ground (arith, eq_iff id k))
        | inr (old, e) ↦ zeros.nonce k old q e (ground (arith, eq_iff id k)) hq
      ];
}

-- The databases behind events that the decoders make.
pub data WormholeRun : Db → Type 0 where
  start : WormholeRun empty
  next :
      {db : Db} (f : Faults) (clock now : ℕ) (e : RawEvent)
      → IsDecoded e
      → WormholeRun db
      → WormholeRun (process (postgres f clock) now e db).0

process-HasNoNonce :
    (f : Faults) (clock now : ℕ) (e : RawEvent) (db : Db)
    → IsDecoded e
    → IsConsistent db
    → HasNoNonce "wormhole" db
    → HasNoNonce "wormhole" (process (postgres f clock) now e db).0
process-HasNoNonce f clock now e db decoded =
    postgres_rule f clock now e
      (λ a b. IsConsistent a → HasNoNonce "wormhole" a → HasNoNonce "wormhole" b) (λ _ _ h. h)
      (λ n p md d done new hp consistent.
        stored-HasNoNonce n.message p md d (new_nonce now e n p decoded done new hp) consistent)
      (λ id dest set d row hit was final _. settled-HasNoNonce clock id dest set d) db

WormholeRun-facts : {db : Db} → WormholeRun db → IsConsistent db × HasNoNonce "wormhole" db
WormholeRun-facts start =
    (IsConsistent-empty, record { nonce = λ k row p h _ _. unfold lookup in absurd (ground arith) })
WormholeRun-facts (next {db} f clock now e decoded run) =
    let (consistent, zeros) = WormholeRun-facts run in
    (
      process-IsConsistent f clock now e db consistent,
      process-HasNoNonce f clock now e db decoded consistent zeros,
    )

-- In every database that decoded events lead to, a Wormhole redemption whose sequence is not zero
-- changes nothing: no message of Wormhole with such a sequence is ever executed by its redemption.
pub wormhole_never_correlates :
    {db : Db} (f : Faults) (clock now : ℕ) (e : RawEvent) (sequence : ℕ)
    → WormholeRun db
    → e.event_type ≡ "TransferRedeemed"
    → e.protocol ≡ "wormhole"
    → parse_uint64 (e.fields "sequence") ≡ ok (suc sequence)
    → (process (postgres f clock) now e db).0 ≡ db
wormhole_never_correlates {db} f clock now e sequence run kind protocol seq =
    redeemed_unmatched f clock now e db sequence kind (rw protocol (WormholeRun-facts run).1) seq
