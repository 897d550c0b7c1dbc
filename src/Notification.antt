-- ===== src/Notification.antt =====
-- internal/eventbus/bus.go and internal/notification/hub.go: buffered channels that are never waited
-- for. A channel stands with what its reader has taken from it.
pub mod Buffers
use x_ui_site.Prelude.{
  ℕ, zero, suc, ◌+◌, String, Bool, str_eq, List, [], ◌∷◌, ◌++◌, map, length, ltb, if◌then◌else◌,
}
use x_ui_site.Db.Session.{Notice}

pub record Channel : Type 0 where
  pub waiting : List Notice
  pub taken : List Notice

-- make(chan …, n)
abbrev pub new_channel : Channel
new_channel = record { waiting = []; taken = [] }

-- select { case ch <- e: default: } on a channel with a buffer of `size`
abbrev pub offer : ℕ → Notice → Channel → Channel
offer size e c =
    if ltb (length c.waiting) size then record c { waiting = c.waiting ++ e ∷ [] } else c

abbrev pub moved : List Notice → Channel → Channel
moved [] c = c
moved (e ∷ es) c = record { waiting = es; taken = c.taken ++ e ∷ [] }

-- <-ch, if something waits
abbrev pub receive : Channel → Channel
receive c = moved c.waiting c

abbrev pub at : {A : Type 0} → (A → A) → ℕ → List A → List A
at f n [] = []
at f zero (x ∷ xs) = f x ∷ xs
at f (suc n) (x ∷ xs) = x ∷ at f n xs

abbrev pub without : {A : Type 0} → ℕ → List A → List A
without n [] = []
without zero (x ∷ xs) = xs
without (suc n) (x ∷ xs) = x ∷ without n xs

-- A channel of Bus with the topic it stands under.
pub record Subscription : Type 0 where
  pub topic : String
  pub channel : Channel

-- Bus.Subscribe
abbrev pub subscribe : String → List Subscription → List Subscription
subscribe topic subs = subs ++ record { topic = topic; channel = new_channel } ∷ []

abbrev pub bus_size : ℕ
bus_size = 8

abbrev pub offer_to : Notice → Subscription → Subscription
offer_to e s =
    if str_eq s.topic e.topic then record s { channel = offer bus_size e s.channel } else s

-- Bus.Publish
abbrev pub publish : Notice → List Subscription → List Subscription
publish e subs = map (offer_to e) subs

-- Hub: the bus and the clients of the event stream
pub record Hub : Type 0 where
  pub subs : List Subscription
  pub clients : List Channel

abbrev pub client_size : ℕ
client_size = 16

-- Hub.Notify
abbrev pub hub_notify : Notice → Hub → Hub
hub_notify e h = record { subs = publish e h.subs; clients = map (offer client_size e) h.clients }

-- What happens to the hub: a subscriber comes or reads, WS begins, writes one message or ends, and
-- Notify is called.
pub data HubEvent : Type 0 where
  subscribed : String → HubEvent
  read : ℕ → HubEvent
  connected : HubEvent
  written : ℕ → HubEvent
  left : ℕ → HubEvent
  notified : Notice → HubEvent

abbrev pub hub_step : HubEvent → Hub → Hub
hub_step (subscribed topic) h = record h { subs = subscribe topic h.subs }
hub_step (read n) h = record h {
  subs = at (λ s. record s { channel = receive s.channel }) n h.subs;
}
hub_step connected h = record h { clients = h.clients ++ new_channel ∷ [] }
hub_step (written n) h = record h { clients = at receive n h.clients }
hub_step (left n) h = record h { clients = without n h.clients }
hub_step (notified e) h = hub_notify e h

-- NewHub and then the events, the last one first.
unfoldable pub hub_after : List HubEvent → Hub
hub_after [] = record { subs = []; clients = [] }
hub_after (e ∷ past) = hub_step e (hub_after past)

-- The events that were handed to Notify, in order.
abbrev pub all_notified : List HubEvent → List Notice
all_notified [] = []
all_notified (notified n ∷ past) = all_notified past ++ n ∷ []
all_notified (subscribed topic ∷ past) = all_notified past
all_notified (read n ∷ past) = all_notified past
all_notified (connected ∷ past) = all_notified past
all_notified (written n ∷ past) = all_notified past
all_notified (left n ∷ past) = all_notified past
