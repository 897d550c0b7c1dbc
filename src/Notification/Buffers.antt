-- ===== src/Notification/Buffers.antt =====
-- Bounds and order of what readers of the hub receive.
use x_ui_site.Prelude.{
  ℕ, zero, suc, ◌≤◌, ◌≡◌, refl, sym, ap, subst, ◌∙◌, ◌⊎◌, inl, inr, Bool, str_eq, List, [], ◌∷◌,
  ◌++◌, select, length, length-append, ltb, All, All-append, All-map, All-of_map, append_assoc,
  arith, Bool-cases, if-true, if-false, if◌then◌else◌,
}
use x_ui_site.Db.Session.{Notice}
use x_ui_site.Notification.{
  moved, Channel, new_channel, offer, receive, at, without, Subscription, offer_to, bus_size,
  client_size, Hub, HubEvent, subscribed, read, connected, written, left, notified, hub_after,
  all_notified,
}

-- The first list is the second with some elements left out, in the same order.
abbrev pub IsSublist : List Notice → List Notice → Type 0
IsSublist [] ys = Unit {0}
IsSublist (x ∷ xs) [] = ⊥
IsSublist (x ∷ xs) (y ∷ ys) = ((x ≡ y) × IsSublist xs ys) ⊎ IsSublist (x ∷ xs) ys

missed : (xs ys : List Notice) (e : Notice) → IsSublist xs ys → IsSublist xs (ys ++ e ∷ [])
missed [] ys e h = tt
missed (x ∷ xs) [] e h = absurd h
missed (x ∷ xs) (y ∷ ys) e (inl (q, h)) = inl (q, missed xs ys e h)
missed (x ∷ xs) (y ∷ ys) e (inr h) = inr (missed (x ∷ xs) ys e h)

caught :
    (xs ys : List Notice) (e : Notice) → IsSublist xs ys → IsSublist (xs ++ e ∷ []) (ys ++ e ∷ [])
caught [] [] e h = inl (refl, tt)
caught [] (y ∷ ys) e h = inr (caught [] ys e tt)
caught (x ∷ xs) [] e h = absurd h
caught (x ∷ xs) (y ∷ ys) e (inl (q, h)) = inl (q, caught xs ys e h)
caught (x ∷ xs) (y ∷ ys) e (inr h) = inr (caught (x ∷ xs) ys e h)

-- A channel holds no more than its size, and what was read and what waits was offered, in order.
pub record InOrder (size : ℕ) (past : List Notice) (c : Channel) : Type 0 where
  pub bound : length c.waiting ≤ size
  pub order : IsSublist (c.taken ++ c.waiting) past

new-InOrder : (size : ℕ) (past : List Notice) → InOrder size past new_channel
new-InOrder size past = record { bound = omega arith; order = tt }

module _ (size : ℕ) (past : List Notice) (c : Channel) (h : InOrder size past c) where
  offer-InOrder : (e : Notice) → InOrder size (past ++ e ∷ []) (offer size e c)
  offer-InOrder e = elim (Bool-cases (ltb (length c.waiting) size)) [
    | inl room ↦
        subst (InOrder size (past ++ e ∷ [])) (sym (if-true (ltb (length c.waiting) size) _ c room))
          (record {
            bound = subst (λ n. n ≤ size) (sym (length-append c.waiting (e ∷ []))) (ground arith);
            order =
                subst (λ x. IsSublist x (past ++ e ∷ [])) (append_assoc c.taken c.waiting (e ∷ []))
                  (caught (c.taken ++ c.waiting) past e h.order);
          })
    | inr full ↦
        subst (InOrder size (past ++ e ∷ []))
          (sym (if-false (ltb (length c.waiting) size) _ c full))
          (record { bound = h.bound; order = missed (c.taken ++ c.waiting) past e h.order })
  ]

  skip-InOrder : (e : Notice) → InOrder size (past ++ e ∷ []) c
  skip-InOrder e = record { bound = h.bound; order = missed (c.taken ++ c.waiting) past e h.order }

moved-InOrder :
    (size : ℕ) (past ws : List Notice) (c : Channel)
    → c.waiting ≡ ws
    → InOrder size past c
    → InOrder size past (moved ws c)
moved-InOrder size past [] c e h = h
moved-InOrder size past (x ∷ ws) c e h =
    let fits : length (x ∷ ws) ≤ size = subst (λ z. length z ≤ size) e h.bound in
    record {
      bound = omega (arith, fits);
      order =
          subst (λ z. IsSublist z past)
            (ap (λ z. c.taken ++ z) e ∙ sym (append_assoc c.taken (x ∷ []) ws)) h.order;
    }

receive-InOrder :
    (size : ℕ) (past : List Notice) (c : Channel)
    → InOrder size past c
    → InOrder size past (receive c)
receive-InOrder size past c h = moved-InOrder size past c.waiting c refl h

module _ {A : Type 0} (P : A → Type 0) where
  All-at :
      (f : A → A) (n : ℕ) (xs : List A) → ((x : A) → P x → P (f x)) → All P xs → All P (at f n xs)
  All-at f n [] h k = tt
  All-at f zero (x ∷ xs) h k = (h x k.0, k.1)
  All-at f (suc n) (x ∷ xs) h k = (k.0, All-at f n xs h k.1)

  All-without : (n : ℕ) (xs : List A) → All P xs → All P (without n xs)
  All-without n [] k = tt
  All-without zero (x ∷ xs) k = k.1
  All-without (suc n) (x ∷ xs) k = (k.0, All-without n xs k.1)

select-append_one :
    (p : Notice → Bool) (xs : List Notice) (e : Notice)
    → select p (xs ++ e ∷ []) ≡ (if p e then select p xs ++ e ∷ [] else select p xs)
select-append_one p [] e = elim (Bool-cases (p e)) [
  | inl hit ↦ rw hit refl
  | inr miss ↦ rw miss refl
]
select-append_one p (x ∷ xs) e = elim (Bool-cases (p x)) [
  | inl hit ↦ elim (Bool-cases (p e)) [
    | inl last ↦
        rw hit (rw last (ap (λ z. x ∷ z) (select-append_one p xs e ∙ if-true (p e) _ _ last)))
    | inr other ↦
        rw hit (rw other (ap (λ z. x ∷ z) (select-append_one p xs e ∙ if-false (p e) _ _ other)))
  ]
  | inr miss ↦ rw miss (select-append_one p xs e)
]

-- What a subscription may have to do with the events that were handed to Notify.
abbrev pub SubInOrder : List Notice → Subscription → Type 0
SubInOrder past s = InOrder bus_size (select (λ e. str_eq s.topic e.topic) past) s.channel

offer_to-SubInOrder :
    (past : List Notice) (e : Notice) (s : Subscription)
    → SubInOrder past s
    → SubInOrder (past ++ e ∷ []) (offer_to e s)
offer_to-SubInOrder past e s h =
    let p : Notice → Bool = λ x. str_eq s.topic x.topic in
    elim (Bool-cases (str_eq s.topic e.topic)) [
      | inl hit ↦
          subst (SubInOrder (past ++ e ∷ [])) (sym (if-true (str_eq s.topic e.topic) _ s hit)) (
            subst (λ x. InOrder bus_size x (offer bus_size e s.channel))
              (sym (select-append_one p past e ∙ if-true (p e) _ _ hit))
              (offer-InOrder bus_size (select p past) s.channel h e))
      | inr miss ↦
          subst (SubInOrder (past ++ e ∷ [])) (sym (if-false (str_eq s.topic e.topic) _ s miss)) (
            subst (λ x. InOrder bus_size x s.channel)
              (sym (select-append_one p past e ∙ if-false (p e) _ _ miss)) h)
    ]

pub record HubInOrder (past : List Notice) (h : Hub) : Type 0 where
  pub subs : All (SubInOrder past) h.subs
  pub clients : All (InOrder client_size past) h.clients

-- After any sequence of subscriptions, connections, readings and notifications, in whatever order:
-- no channel of the bus holds more than 8 events and no client's more than 16, and what a reader has
-- taken, with what still waits for it, are events that were notified, of its topic for a
-- subscription, each at most once and in the order of their notification.
pub hub_after-HubInOrder : (past : List HubEvent) → HubInOrder (all_notified past) (hub_after past)
unfolding hub_after
hub_after-HubInOrder [] = record { subs = tt; clients = tt }
hub_after-HubInOrder (subscribed topic ∷ past) =
    let h = hub_after-HubInOrder past in
    record {
      subs =
          All-append (SubInOrder (all_notified past)) (hub_after past).subs _ h.subs
            (new-InOrder bus_size _, tt);
      clients = h.clients;
    }
hub_after-HubInOrder (read n ∷ past) =
    let h = hub_after-HubInOrder past in
    record {
      subs =
          All-at (SubInOrder (all_notified past)) _ n (hub_after past).subs
            (λ s k. receive-InOrder bus_size _ s.channel k) h.subs;
      clients = h.clients;
    }
hub_after-HubInOrder (connected ∷ past) =
    let h = hub_after-HubInOrder past in
    record {
      subs = h.subs;
      clients =
          All-append (InOrder client_size (all_notified past)) (hub_after past).clients _ h.clients
            (new-InOrder client_size _, tt);
    }
hub_after-HubInOrder (written n ∷ past) =
    let h = hub_after-HubInOrder past in
    record {
      subs = h.subs;
      clients =
          All-at (InOrder client_size (all_notified past)) receive n (hub_after past).clients
            (λ c k. receive-InOrder client_size _ c k) h.clients;
    }
hub_after-HubInOrder (left n ∷ past) =
    let h = hub_after-HubInOrder past in
    record {
      subs = h.subs;
      clients =
          All-without (InOrder client_size (all_notified past)) n (hub_after past).clients
            h.clients;
    }
hub_after-HubInOrder (notified e ∷ past) =
    let h = hub_after-HubInOrder past in
    record {
      subs =
          All-of_map (SubInOrder (all_notified past ++ e ∷ [])) (offer_to e) (hub_after past).subs (
            All-map (hub_after past).subs (λ s k. offer_to-SubInOrder (all_notified past) e s k)
              h.subs);
      clients =
          All-of_map (InOrder client_size (all_notified past ++ e ∷ [])) (offer client_size e)
            (hub_after past).clients
            (All-map (hub_after past).clients
              (λ c k. offer-InOrder client_size (all_notified past) c k e) h.clients);
    }
