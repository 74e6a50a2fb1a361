-- ===== src/Server/Announce.antt =====
-- Notifications sent to a list of members.
use cloud_node.Base.{
  Option-cases, All, ==_refl, nat_ord, Text, text, text_ord, pair_ord, ◌≡◌, refl, sym, ap, ◌∙◌, inl,
  inr, true, some, List, [], ◌∷◌, ◌++◌, map, append-nil, append_assoc, arith,
}
use cloud_node.Base.Dict.{Dict, lookup, insert}
use cloud_node.Base.Set
use cloud_node.Json.{Json}
use cloud_node.Rooms
use cloud_node.Rooms.{Rooms, members, touch, is_member}
use cloud_node.Rooms.Laws.{members-touch, members-insert}
use cloud_node.Server.State.{Ws, Server, send}
use cloud_node.Server.Membership.{
  notification, send_notification, send_join_notification, send_leave_notification, notify_joined,
  notify_left,
}
use cloud_node.Server.Consistency.{IsConsistent, send_notification-SameTables}

module _ (J : Json) where
  -- One message to each of `us`, in this order, all of them the notification.
  pub record Announced (type who room : Text) (us peers : List Text) (s t : Server) : Type 0 where
    pub news : List (Ws × Text)
    pub sent : t.sent ≡ s.sent ++ news
    pub recipients : map (λ (to, _). to.x_client_id) news ≡ us
    pub content : All (λ (_, m). m ≡ J.write (notification J type who room peers)) news

  module _ (type who room : Text) (peers : List Text) where
    Announced-nil : (s : Server) → Announced type who room [] peers s s
    Announced-nil s = record {
      news = [];
      sent = sym (append-nil s.sent);
      recipients = refl;
      content = tt;
    }

    Announced-cons :
        (u : Text) (us : List Text) (to : Ws) (s t : Server)
        → lookup u s.client_db ≡ some to
        → to.x_client_id ≡ u
        → Announced type who room us peers (send_notification J type u who room peers s) t
        → Announced type who room (u ∷ us) peers s t
    unfolding send_notification
    Announced-cons u us to s t e i a = record {
      news = (to, J.write (notification J type who room peers)) ∷ a.news;
      sent =
          a.sent
          ∙ ap (λ (x : Server). x.sent ++ a.news) step
          ∙ append_assoc s.sent ((to, J.write (notification J type who room peers)) ∷ []) a.news;
      recipients = ground (arith, i, a.recipients);
      content = (refl, a.content);
    }
      where
        step :
            send_notification J type u who room peers s
            ≡ send to (J.write (notification J type who room peers)) s
        step = rw (e, send_notification)

  -- Every one of `us` has a socket under its own id.
  abbrev pub Reached : List Text → Dict Text Ws → Type 0
  Reached us db = All (λ u. (to : Ws) × (lookup u db ≡ some to) × (to.x_client_id ≡ u)) us

  pub All-of_contains :
      (us : List Text) (db : Dict Text Ws)
      → ((u : Text)
          → Set.contains u us ≡ true
          → (to : Ws) × (lookup u db ≡ some to) × (to.x_client_id ≡ u))
      → Reached us db
  unfolding Set.contains
  All-of_contains [] db f = tt
  All-of_contains (u ∷ us) db f =
      (f u (rw ==_refl), All-of_contains us db (λ v h. f v (ground (arith, h))))

  pub notify_joined-Announced :
      (us : List Text) (who room : Text) (peers : List Text) (s : Server)
      → Reached us s.client_db
      → Announced (text "peer_joined") who room us peers s (notify_joined J us who room peers s)
  unfolding notify_joined send_join_notification
  notify_joined-Announced [] who room peers s r =
      Announced-nil (text "peer_joined") who room peers s
  notify_joined-Announced (u ∷ us) who room peers s ((to, e, i), r) =
      Announced-cons (text "peer_joined") who room peers u us to s _ e i (
        notify_joined-Announced us who room peers _
          (rw (send_notification-SameTables J (text "peer_joined") u who room peers s).client_db r))

  pub notify_left-Announced :
      (us : List Text) (who room : Text) (peers : List Text) (s : Server)
      → Reached us s.client_db
      → Announced (text "peer_left") who room us peers s (notify_left J us who room peers s)
  unfolding notify_left send_leave_notification
  notify_left-Announced [] who room peers s r = Announced-nil (text "peer_left") who room peers s
  notify_left-Announced (u ∷ us) who room peers s ((to, e, i), r) =
      Announced-cons (text "peer_left") who room peers u us to s _ e i (
        notify_left-Announced us who room peers _
          (rw (send_notification-SameTables J (text "peer_left") u who room peers s).client_db r))

  pub consistent_reach :
      (s : Server)
      → IsConsistent s
      → (u room : Text) → is_member u room s.rooms ≡ true
      → (to : Ws) × (lookup u s.client_db ≡ some to) × (to.x_client_id ≡ u)
  consistent_reach s c u room m = elim (Option-cases (lookup u s.client_db)) [
    | inl e ↦ absurd (ground (arith, e, c.reachable u room m))
    | inr (to, e) ↦ (to, e, c.filed u e)
  ]

  pub members-leave :
      (peer room : Text) (rooms : Rooms)
      → members room (touch room (Rooms.leave peer room rooms).0)
        ≡ Set.erase peer (members room rooms)
  unfolding Rooms.leave members Set.erase
  members-leave peer room rooms = elim (Option-cases (lookup room rooms)) [
    | inl e ↦ ground (arith, e, members-touch room room rooms)
    | inr (peers, e) ↦ ground (
      arith,
      e,
      ==_refl room,
      members-touch room room rooms,
      members-touch room room (insert room (Set.erase peer peers) rooms),
      members-insert room room (Set.erase peer peers) rooms,
      Set.erase_absent peer peers,
    )
  ]

  -- The messages may be counted from any state that has sent as much.
  pub Announced-from :
      (type who room : Text) (us peers : List Text) (r s t : Server)
      → r.sent ≡ s.sent
      → Announced type who room us peers r t
      → Announced type who room us peers s t
  Announced-from type who room us peers r s t e a = record {
    news = a.news;
    sent = rw (← e) a.sent;
    recipients = a.recipients;
    content = a.content;
  }
