-- ===== src/Net/Server/Cache/Coherent.antt =====
-- `PublishTopicCache` of net/src/server.rs: a cache whose entries belong to one topic.
use blipmq.Prelude.{
  ◌≡◌, ◌⊎◌, refl, sym, ◌∙◌, arith, Option-cases, if-holds, is_some, inl, inr, Option, none, some,
}
use blipmq.Wire.Buf.{Bytes}
use blipmq.Core.Subject.Split.{bytes_eq_iff}
use blipmq.Net.Server.Cache.{PublishTopicCache, empty_cache, hit, again, get_with_resolve}

-- What the cache holds is one topic, and its handle if there is one.
pub record IsCoherent (c : PublishTopicCache) : Type 0 where
  pub one_topic : c.last_topic ≡ c.last_bytes
  pub its_handle : (c.last_resolved ≡ none) ⊎ (c.last_resolved ≡ c.last_bytes)

pub empty_cache-IsCoherent : IsCoherent empty_cache
empty_cache-IsCoherent = record { one_topic = refl; its_handle = inl refl }

-- The handle of a topic is its own, or there is none.
abbrev pub IsHandle : Bytes → Option Bytes → Type 0
IsHandle topic handle = (handle ≡ none) ⊎ (handle ≡ some topic)

abbrev Right : Bytes → PublishTopicCache × Bytes × Option Bytes → Type 0
Right topic_bytes out = IsCoherent out.0 × (out.1 ≡ topic_bytes) × IsHandle topic_bytes out.2

hit-eq :
    (topic_bytes : Bytes) (c : PublishTopicCache) (t : Bytes)
    → c.last_topic ≡ c.last_bytes
    → hit topic_bytes c.last_bytes c.last_topic ≡ some t
    → (c.last_bytes ≡ some topic_bytes) × (t ≡ topic_bytes)
unfolding hit
hit-eq topic_bytes c t same h = go c.last_bytes c.last_topic same h
  where
    go :
        (last_bytes last_topic : Option Bytes)
        → last_topic ≡ last_bytes
        → hit topic_bytes last_bytes last_topic ≡ some t
        → (last_bytes ≡ some topic_bytes) × (t ≡ topic_bytes)
    go none last_topic e k = absurd (ground (arith, k))
    go (some x) none e k = absurd (ground (arith, e))
    go (some x) (some y) e k = ground (arith, e, k, bytes_eq_iff x topic_bytes)

again-Right :
    (resolver : Bytes → Option Bytes) (c : PublishTopicCache) (topic_bytes : Bytes)
    (last_resolved : Option Bytes)
    → IsCoherent c
    → c.last_bytes ≡ some topic_bytes
    → c.last_resolved ≡ last_resolved
    → IsHandle topic_bytes (resolver topic_bytes)
    → Right topic_bytes (again resolver c topic_bytes last_resolved)
unfolding again
again-Right resolver c topic_bytes (some r) v e k own = (
  v,
  refl,
  inr (elim v.its_handle [
    | inl none_there ↦ absurd (ground (arith, k, none_there))
    | inr same ↦ sym k ∙ same ∙ e
  ]),
)
again-Right resolver c topic_bytes none v e k own = (
  if-holds IsCoherent (is_some (resolver topic_bytes)) _ _
      (λ _. record {
        one_topic = v.one_topic;
        its_handle = elim own [ inl absent ↦ inl absent | inr same ↦ inr (same ∙ sym e) ];
      })
      (λ _. v),
  refl,
  own,
)

-- The topic that is returned is the one that was asked for, its handle is the topic's own or none, and the
-- cache stays coherent.
pub get_with_resolve-Right :
    (c : PublishTopicCache) (topic_bytes : Bytes) (resolver : Bytes → Option Bytes)
    → IsCoherent c
    → IsHandle topic_bytes (resolver topic_bytes)
    → Right topic_bytes (get_with_resolve c topic_bytes resolver)
unfolding get_with_resolve
get_with_resolve-Right c topic_bytes resolver v own =
    elim (Option-cases (hit topic_bytes c.last_bytes c.last_topic)) [
      | inl miss ↦
          rw (miss, get_with_resolve) (record { one_topic = refl; its_handle = own }, refl, own)
      | inr (t, e) ↦
          let (there, same) = hit-eq topic_bytes c t v.one_topic e in
          rw (e, get_with_resolve)
            (rw same (again-Right resolver c topic_bytes c.last_resolved v there refl own))
    ]
