-- ===== src/Tests/Brokers.antt =====
-- Runs and instances for the registry and the publishes of `Broker` in core/src/lib.rs.
use mathlib.Core.Option
use blipmq.Prelude.{
  ℕ, ◌<◌, ◌^◌, ◌≡◌, ◌↔◌, ◌⊎◌, refl, arith, All, true, false, [], ◌∷◌, length, none, some, Outcome,
  ok,
}
use blipmq.Wire.Buf.{Bytes}
use blipmq.Wire.BigEndian.{big_endian}
use blipmq.Wire.Utf8.{IsUtf8, is_utf8}
use blipmq.Core.LogError.{LogError, at_least_once}
use blipmq.Core.Subject.{is_exact, all_literal, SubjectPattern, literal, wildcard}
use blipmq.Core.Config.{default_config}
use blipmq.Core.Broker.{ConsumerGroup, Broker, new_broker}
use blipmq.Core.Broker.Subscribe.{subscribe_pattern, subscribe_inner_grouped}
use blipmq.Core.Broker.Subscribe.Keeps.{subscribe_pattern-length}
use blipmq.Core.Broker.Unsubscribe.{unsubscribe_one}
use blipmq.Core.Broker.Registry.{IsRegistry}
use blipmq.Core.Broker.Reachable.{
  Reachable, fresh, after, subscribes, subscribes_to_pattern, Reachable-IsRegistry,
  Reachable-Reaches, Reachable-Watches,
}
use blipmq.Core.NameMap.{find}
use blipmq.Core.Broker.Publish.{targets, pick, from_topic}
use blipmq.Core.Broker.Publish.Targets.{Member, pick-Member}
use blipmq.Core.Broker.Publish.Wildcards.{Watches, Subscribed}
use blipmq.Core.Broker.Publish.Reached.{Reaches}
use blipmq.Core.Broker.PublishMethods.Durable.{Logged, Unlogged, publish_durable-logged}

abbrev name : Bytes
name = b'a' ∷ b'.' ∷ b'b' ∷ []

abbrev hash : Bytes → ℕ
hash key = length key

abbrev empty_broker : Broker
empty_broker = new_broker default_config true

-- A client subscribes to a topic as a member of a group.
abbrev a_broker : Broker
a_broker =
    (subscribe_inner_grouped name name at_least_once none none none (some (b'g' ∷ []))
      empty_broker).0

a_run : Reachable hash a_broker
unfolding new_broker
a_run =
    after (fresh default_config true)
      (subscribes name name at_least_once none none none (some (b'g' ∷ [])) (omega arith))

Reachable-IsRegistry_example : IsRegistry a_broker
Reachable-IsRegistry_example = Reachable-IsRegistry hash a_broker a_run

Reachable-Reaches_example :
    All (Reaches name name a_broker) (targets hash name name none a_broker)
    × (¬ Member 1 (targets hash name name none (unsubscribe_one 1 a_broker).0))
Reachable-Reaches_example = Reachable-Reaches hash a_broker name name none 1 a_run

-- Three members, and the second has its turn.
abbrev a_group : ConsumerGroup
a_group = record { members = 4 ∷ 5 ∷ 6 ∷ []; next_idx = 7 }

pick-Member_example :
    (((x : ℕ) × ((pick hash none a_group).0 ≡ x ∷ []) × Member x a_group.members)
      ⊎ ((a_group.members ≡ []) × ((pick hash none a_group).0 ≡ [])))
    × ((pick hash none a_group).1.members ≡ a_group.members)
    × ((k : ℕ) (ks : Bytes)
        → (pick hash (some (k ∷ ks)) (pick hash none a_group).1).0
          ≡ (pick hash (some (k ∷ ks)) a_group).0)
pick-Member_example = pick-Member hash none none a_group

-- `a.*`
abbrev a_pattern : SubjectPattern
a_pattern = record { raw = []; segments = literal (b'a' ∷ []) ∷ wildcard ∷ []; has_tail = false }

-- A client subscribes to the pattern.
abbrev watched_broker : Broker
watched_broker = (subscribe_pattern name a_pattern at_least_once empty_broker).0

watched_run : Reachable hash watched_broker
unfolding new_broker
watched_run =
    after (fresh default_config true)
      (subscribes_to_pattern name a_pattern at_least_once (omega arith))

a_pattern-wild : is_exact a_pattern ≡ false
unfolding is_exact all_literal
a_pattern-wild = refl

few_patterns : length watched_broker.wildcard_subs < 2 ^ 64
unfolding new_broker
few_patterns =
    omega (arith, subscribe_pattern-length name a_pattern at_least_once empty_broker a_pattern-wild)

Reachable-Watches_example : Member 1 (targets hash name name none watched_broker) ↔ (
    Member 1 (from_topic hash none (find name watched_broker.topics))
    ⊎ (Watches 1 name watched_broker.wildcard_subs × Subscribed 1 watched_broker.subscriptions))
Reachable-Watches_example =
    Reachable-Watches hash watched_broker name name none 1 watched_run few_patterns

name-IsUtf8 : IsUtf8 name
unfolding is_utf8
name-IsUtf8 = refl

-- A log that takes every record as number 9.
-- A shutdown begins during the await.
abbrev append : Bytes → Broker → Broker × Outcome LogError ℕ
append bytes b = (record b { shutting_down = true }, ok 9)

publish_durable-logged_example :
    Logged append hash 5 name (7 ∷ []) at_least_once a_broker
    ⊎ Unlogged append hash 5 name (7 ∷ []) at_least_once a_broker
publish_durable-logged_example =
    publish_durable-logged append hash 5 name (7 ∷ []) at_least_once a_broker (omega arith)
      name-IsUtf8
