-- ===== src/Core/Queue/Maintenance/Conserve.antt =====
-- A maintenance tick keeps the invariant of the queue, and loses no message in silence.
use blipmq.Prelude.{
  ℕ, ◌+◌, ◌≡◌, refl, sym, ap, subst, ◌∙◌, arith, Bool-cases, not, ◌==◌, ltb, leb, Option, none,
  some, List, [], ◌∷◌, ◌++◌, length, length-append, Option-cases, inl, inr,
}
use blipmq.Core.TagMap.{get, insert, remove, length-remove, length-insert}
use blipmq.Core.Queue.{QueueEntry, Timer, SubscriberQueue, DropReason}
use blipmq.Core.Queue.Valid.{IsValid, stored}
use blipmq.Core.Queue.Valid.Store.{IsStore, IsStore-drop, IsStore-drop_inflight, IsStore-requeue}
use blipmq.Core.Queue.Maintenance.{
  Tick, expires_then, drop_pending, drop_inflight, expire_inflight, expire_pending, expire_one,
  expire_loop, requeue, retry_found, retry_one, retry_loop, start, maintenance_tick,
}

-- The messages that wait, are in flight or were dropped.
abbrev total : Tick → ℕ
total t = length t.pending_entries + length t.inflight + length t.dropped

-- From `t` to `u` the store stays valid and no message appears or vanishes.
record Keeps (bound : ℕ) (t u : Tick) : Type 0 where
  valid : IsStore bound u.pending u.pending_entries u.inflight
  same_total : total u ≡ total t

abbrev Valid : ℕ → Tick → Type 0
Valid bound t = IsStore bound t.pending t.pending_entries t.inflight

Keeps-refl : (bound : ℕ) (t : Tick) → Valid bound t → Keeps bound t t
Keeps-refl bound t v = record { valid = v; same_total = refl }

Keeps-trans : {bound : ℕ} {t u w : Tick} → Keeps bound t u → Keeps bound u w → Keeps bound t w
Keeps-trans k l = record { valid = l.valid; same_total = l.same_total ∙ k.same_total }

module _ (bound : ℕ) (tag : ℕ) (x : QueueEntry) (reason : DropReason) (t : Tick)
    (v : Valid bound t) where
  drop_pending-Keeps :
      get tag t.pending_entries ≡ some x → Keeps bound t (drop_pending tag x reason t)
  unfolding drop_pending
  drop_pending-Keeps h = record {
    valid = IsStore-drop tag v;
    same_total = omega (
      arith,
      length-remove tag x t.pending_entries v.entries_distinct h,
      length-append t.dropped ((x.payload, reason) ∷ []),
    );
  }

  drop_inflight-Keeps : get tag t.inflight ≡ some x → Keeps bound t (drop_inflight tag x reason t)
  unfolding drop_inflight
  drop_inflight-Keeps h = record {
    valid = IsStore-drop_inflight tag v;
    same_total = omega (
      arith,
      length-remove tag x t.inflight v.inflight_distinct h,
      length-append t.dropped ((x.payload, reason) ∷ []),
    );
  }

-- A tag in flight has no waiting entry.
not_waiting :
    (bound tag : ℕ) (x : QueueEntry) (t : Tick)
    → Valid bound t
    → get tag t.inflight ≡ some x
    → get tag t.pending_entries ≡ none
not_waiting bound tag x t v h = elim (Option-cases (get tag t.pending_entries)) [
  | inl free ↦ free
  | inr (y, there) ↦ cc (h, v.apart tag y there)
]

requeue-Keeps :
    (bound now tag : ℕ) (x : QueueEntry) (t : Tick)
    → Valid bound t
    → get tag t.inflight ≡ some x
    → Keeps bound t (requeue now tag x t)
unfolding requeue
requeue-Keeps bound now tag x t v h =
    let e : x.tag ≡ tag = v.inflight_tagged tag x h in
    let y : QueueEntry = record x { next_delivery_at = now } in
    record {
      valid =
          subst
            (λ (k : ℕ).
              IsStore bound (t.pending ++ (k ∷ [])) (insert k y t.pending_entries)
                (remove tag t.inflight))
            (sym e) (IsStore-requeue tag x y h e v);
      same_total = omega (
        arith,
        ap (λ (k : ℕ). length (insert k y t.pending_entries)) e,
        length-insert tag y t.pending_entries (not_waiting bound tag x t v h),
        length-remove tag x t.inflight v.inflight_distinct h,
      );
    }

expire_inflight-Keeps :
    (bound : ℕ) (x : Timer) (o : Option QueueEntry) (t : Tick)
    → Valid bound t
    → get x.tag t.inflight ≡ o
    → Keeps bound t (expire_inflight x o t)
unfolding expire_inflight
expire_inflight-Keeps bound x none t v h = Keeps-refl bound t v
expire_inflight-Keeps bound x (some y) t v h = elim (Bool-cases (expires_then y x.at y.ttl)) [
  | inl due ↦ rw due (drop_inflight-Keeps bound x.tag y DropReason.ttl_expired t v h)
  | inr later ↦ rw later (Keeps-refl bound t v)
]

expire_pending-Keeps :
    (bound : ℕ) (x : Timer) (o : Option QueueEntry) (t : Tick)
    → Valid bound t
    → get x.tag t.pending_entries ≡ o
    → Keeps bound t (expire_pending x o t)
unfolding expire_pending
expire_pending-Keeps bound x none t v h = expire_inflight-Keeps bound x _ t v refl
expire_pending-Keeps bound x (some y) t v h = elim (Bool-cases (expires_then y x.at y.ttl)) [
  | inl due ↦ rw due (drop_pending-Keeps bound x.tag y DropReason.ttl_expired t v h)
  | inr later ↦ rw later (Keeps-refl bound t v)
]

expire_loop-Keeps :
    (bound now : ℕ) (xs : List Timer) (t : Tick)
    → Valid bound t
    → Keeps bound t (expire_loop now xs t).1
unfolding expire_loop
expire_loop-Keeps bound now [] t v = Keeps-refl bound t v
expire_loop-Keeps bound now (x ∷ xs) t v = elim (Bool-cases (ltb now x.at)) [
  | inl later ↦ rw later (Keeps-refl bound t v)
  | inr due ↦ rw due (Keeps-trans step (expire_loop-Keeps bound now xs (expire_one x t) step.valid))
]
  where
    step : Keeps bound t (expire_one x t)
    step = unfold expire_one in expire_pending-Keeps bound x _ t v refl

retry_found-Keeps :
    (bound now max_retries : ℕ) (x : Timer) (o : Option QueueEntry) (t : Tick)
    → Valid bound t
    → get x.tag t.inflight ≡ o
    → Keeps bound t (retry_found now max_retries x o t)
unfolding retry_found
retry_found-Keeps bound now max_retries x none t v h = Keeps-refl bound t v
retry_found-Keeps bound now max_retries x (some y) t v h =
    elim (Bool-cases (not (y.next_delivery_at == x.at))) [
      | inl stale ↦ rw stale (Keeps-refl bound t v)
      | inr current ↦ rw current (elim (Bool-cases (leb max_retries y.delivery_attempts)) [
        | inl spent ↦
            rw spent (drop_inflight-Keeps bound x.tag y DropReason.max_retries_exceeded t v h)
        | inr again ↦ rw again (requeue-Keeps bound now x.tag y t v h)
      ])
    ]

retry_loop-Keeps :
    (bound now max_retries : ℕ) (xs : List Timer) (t : Tick)
    → Valid bound t
    → Keeps bound t (retry_loop now max_retries xs t).1
unfolding retry_loop
retry_loop-Keeps bound now max_retries [] t v = Keeps-refl bound t v
retry_loop-Keeps bound now max_retries (x ∷ xs) t v = elim (Bool-cases (ltb now x.at)) [
  | inl later ↦ rw later (Keeps-refl bound t v)
  | inr due ↦ rw due (
      Keeps-trans step
        (retry_loop-Keeps bound now max_retries xs (retry_one now max_retries x t) step.valid))
]
  where
    step : Keeps bound t (retry_one now max_retries x t)
    step = unfold retry_one in retry_found-Keeps bound now max_retries x _ t v refl

-- A tick keeps a valid queue valid, and returns as many dropped messages as it takes out of the
-- queue: the counts add up.
pub maintenance_tick-conserves :
    (now max_retries : ℕ) (q : SubscriberQueue)
    → IsValid q
    → IsValid (maintenance_tick now max_retries q).0
      × (stored (maintenance_tick now max_retries q).0
            + length (maintenance_tick now max_retries q).1
          ≡ stored q)
unfolding maintenance_tick start
maintenance_tick-conserves now max_retries q v =
    let t = expire_loop now q.inner.expiration_heap (start q) in
    let k = expire_loop-Keeps q.inner.next_tag now q.inner.expiration_heap (start q) v in
    let l = retry_loop-Keeps q.inner.next_tag now max_retries q.inner.retry_heap t.1 k.valid in
    (l.valid, omega (arith, l.same_total, k.same_total))
