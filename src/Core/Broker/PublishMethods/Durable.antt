-- ===== src/Core/Broker/PublishMethods/Durable.antt =====
-- `publish_durable` of core/src/lib.rs on every branch.
use blipmq.Prelude.{
  ℕ, ◌<◌, ◌^◌, ◌≡◌, ◌≢◌, ◌⊎◌, inl, inr, refl, ap, sym, subst, ◌∙◌, if-true, if-false, arith, true,
  false, Bool-cases, not, length, none, some, Outcome, ok, err, panic, Returns, if-holds,
}
use blipmq.Wire.Buf.{Bytes, Buf}
use blipmq.Wire.Utf8.{IsUtf8}
use blipmq.Core.LogError.{LogError, QosLevel}
use blipmq.Core.WalEntry
use blipmq.Core.WalEntry.{WalEntry, message}
use blipmq.Core.WalEntry.Total.{wal_entry_encode-Returns}
use blipmq.Core.WalEntry.RoundTrip.{wal_entry_decode-encode}
use blipmq.Core.Broker.{Broker}
use blipmq.Core.Broker.PublishMethods.{publish_with_wal_id, logged, written, publish_durable}

abbrev pub entry_of : Bytes → Bytes → QosLevel → WalEntry
entry_of topic payload qos = message (record { topic = topic; qos = qos; payload = payload })

-- The call failed: the broker is `b`, and the answer is no id.
abbrev pub Refused : Broker → Broker × Outcome LogError ℕ → Type 0
Refused b (after, answer) = (after ≡ b) × ((id : ℕ) → answer ≢ ok id)

module _ ⦃w : Buf⦄ (append : Bytes → Broker → Broker × Outcome LogError ℕ) (hash : Bytes → ℕ)
    (now : ℕ) (topic payload : Bytes) (qos : QosLevel) (b : Broker) where
  abbrev pub outcome : Broker × Outcome LogError ℕ
  outcome = publish_durable append hash now topic payload qos b

  logged-cases :
      (answered : Broker × Outcome LogError ℕ)
      → ((id : ℕ) × (answered.1 ≡ ok id)
          × (logged hash now topic payload qos answered
              ≡ (publish_with_wal_id hash now topic payload qos (some id) none answered.0, ok id)))
        ⊎ (((id : ℕ) → answered.1 ≢ ok id)
            × Refused answered.0 (logged hash now topic payload qos answered))
  unfolding logged
  logged-cases (c, ok id) = inl (id, refl, refl)
  logged-cases (c, err e) = inr ((λ id h. ground arith), (refl, λ id h. ground arith))
  logged-cases (c, panic) = inr ((λ id h. ground arith), (refl, λ id h. ground arith))

  err-Refused : (e : LogError) (r : Broker × Outcome LogError ℕ) → r ≡ (b, err e) → Refused b r
  err-Refused e r h = (ap (λ (x : Broker × Outcome LogError ℕ). x.0) h, λ id k. ground (arith, h))

  publish_durable-live :
      (bytes : Bytes)
      → b.shutting_down ≡ false
      → b.wal ≡ true
      → WalEntry.encode (entry_of topic payload qos) ≡ ok bytes
      → outcome ≡ logged hash now topic payload qos (append bytes b)
  unfolding publish_durable written
  publish_durable-live bytes live there enc =
      if-false b.shutting_down _ _ live
      ∙ if-false (not b.wal) _ _ (ap not there)
      ∙ ap (λ m. logged hash now topic payload qos (written append b m)) enc

  abbrev pub IsEntry : Bytes → Type 0
  IsEntry bytes = WalEntry.decode bytes ≡ ok (entry_of topic payload qos)

  -- Published under the id that the log gave to the message, at the broker as it is by then.
  abbrev pub Logged : Type 0
  Logged =
      (bytes : Bytes) × (id : ℕ) × IsEntry bytes
      × ((append bytes b).1 ≡ ok id)
      × (b.shutting_down ≡ false)
      × (outcome ≡ (
        publish_with_wal_id hash now topic payload qos (some id) none (append bytes b).0,
        ok id,
      ))

  -- There is no log to write to, or it refused the message.
  abbrev pub Unlogged : Type 0
  Unlogged =
      (((b.shutting_down ≡ true) ⊎ (b.wal ≡ false)) × Refused b outcome)
      ⊎ ((bytes : Bytes) × IsEntry bytes
          × ((id : ℕ) → (append bytes b).1 ≢ ok id)
          × Refused (append bytes b).0 outcome)

  -- A message whose topic fits the length field is published durably as follows. If the broker is not
  -- shutting down, has a log, and the log took bytes that read back as the message, the message is
  -- published under the log's id at the broker as it is when the log answers (a broker that is shutting
  -- down by then publishes nothing), and that id is the answer. Otherwise the answer is no id, and nothing
  -- is done to the broker: it is shutting down, has no log, or the log refused those bytes, and then it is
  -- as the others left it during the await.
  pub publish_durable-logged : length topic < 2 ^ 16 → IsUtf8 topic → Logged ⊎ Unlogged
  unfolding publish_durable
  publish_durable-logged small utf8 =
      let (bytes, enc, dec) = wal_entry_decode-encode (entry_of topic payload qos) (small, utf8) in
      elim (Bool-cases b.shutting_down) [
        | inl down ↦ inr (inl (inl down, err-Refused _ outcome (if-true b.shutting_down _ _ down)))
        | inr live ↦ elim (Bool-cases b.wal) [
          | inr none_there ↦ inr (
              inl (
                inr none_there,
                err-Refused _ outcome (
                    if-false b.shutting_down _ _ live
                    ∙ if-true (not b.wal) _ _ (ap not none_there)),
              ))
          | inl there ↦ elim (logged-cases (append bytes b)) [
            | inl (id, took, e) ↦
                inl (bytes, id, dec, took, live, publish_durable-live bytes live there enc ∙ e)
            | inr (failed, refused) ↦ inr (
                inr (
                  bytes,
                  dec,
                  failed,
                  subst (Refused (append bytes b).0)
                      (sym (publish_durable-live bytes live there enc)) refused,
                ))
          ]
        ]
      ]

logged-Returns :
    (hash : Bytes → ℕ) (now : ℕ) (topic payload : Bytes) (qos : QosLevel)
    (answered : Broker × Outcome LogError ℕ)
    → Returns answered.1
    → Returns (logged hash now topic payload qos answered).1
unfolding logged
logged-Returns hash now topic payload qos (b, ok id) h = tt
logged-Returns hash now topic payload qos (b, err e) h = tt
logged-Returns hash now topic payload qos (b, panic) h = h

written-Returns :
    (append : Bytes → Broker → Broker × Outcome LogError ℕ) (b : Broker)
    (o : Outcome LogError Bytes)
    → ((bytes : Bytes) → Returns (append bytes b).1)
    → Returns o
    → Returns (written append b o).1
unfolding written
written-Returns append b (ok bytes) calm h = calm bytes
written-Returns append b (err e) calm h = tt
written-Returns append b panic calm h = h

pub publish_durable-Returns :
    ⦃w : Buf⦄ (append : Bytes → Broker → Broker × Outcome LogError ℕ) (hash : Bytes → ℕ) (now : ℕ)
    (topic payload : Bytes) (qos : QosLevel) (b : Broker)
    → ((bytes : Bytes) → Returns (append bytes b).1)
    → Returns (publish_durable append hash now topic payload qos b).1
unfolding publish_durable
publish_durable-Returns append hash now topic payload qos b calm =
    let P : Broker × Outcome LogError ℕ → Type 0 = λ out. Returns out.1 in
    if-holds P b.shutting_down _ _ (λ _. tt)
      λ _.
        if-holds P (not b.wal) _ _ (λ _. tt)
          λ _. logged-Returns hash now topic payload qos _ (
            written-Returns append b (WalEntry.encode (entry_of topic payload qos)) calm
              (wal_entry_encode-Returns (entry_of topic payload qos)))
