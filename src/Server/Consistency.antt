-- ===== src/Server/Consistency.antt =====
-- The invariant of the server's tables, which every event of the message port keeps.
pub mod Events
use cloud_node.Base.{
  is_some, nat_ord, Text, text_ord, pair_ord, ◌≡◌, refl, ◌∙◌, ◌⊎◌, true, Option, some, List, [],
  ◌∷◌, arith,
}
use cloud_node.Base.Dict.{lookup}
use cloud_node.Json.{Json, done}
use cloud_node.Rooms.{is_member}
use cloud_node.Server.State.{Ws, Server}
use cloud_node.Server.Membership.{
  send_notification, send_join_notification, send_leave_notification, notify_joined, notify_left,
}
use cloud_node.Server.Files.{handle_file, on_file_offer, on_file_accept, on_file_reject}

-- Every member of a room has a socket, and every socket is filed under the id that it carries.
pub record IsConsistent (s : Server) : Type 0 where
  pub reachable :
      (p r : Text) → is_member p r s.rooms ≡ true → is_some (lookup p s.client_db) ≡ true
  pub filed : (p : Text) {ws : Ws} → lookup p s.client_db ≡ some ws → ws.x_client_id ≡ p

-- The tables of a state are those of another.
pub record SameTables (s t : Server) : Type 0 where
  pub rooms : t.rooms ≡ s.rooms
  pub client_db : t.client_db ≡ s.client_db

SameTables-trans : {s t u : Server} → SameTables s t → SameTables t u → SameTables s u
SameTables-trans a b = record { rooms = b.rooms ∙ a.rooms; client_db = b.client_db ∙ a.client_db }

module _ (J : Json) where
  pub send_notification-SameTables :
      (type whom who room : Text) (peers : List Text) (s : Server)
      → SameTables s (send_notification J type whom who room peers s)
  unfolding send_notification
  send_notification-SameTables type whom who room peers s = ground arith

  pub notify_joined-SameTables :
      (us : List Text) (who room : Text) (peers : List Text) (s : Server)
      → SameTables s (notify_joined J us who room peers s)
  unfolding notify_joined send_join_notification
  notify_joined-SameTables [] who room peers s = record { rooms = refl; client_db = refl }
  notify_joined-SameTables (u ∷ us) who room peers s =
      SameTables-trans (send_notification-SameTables _ u who room peers s)
        (notify_joined-SameTables us who room peers _)

  pub notify_left-SameTables :
      (us : List Text) (who room : Text) (peers : List Text) (s : Server)
      → SameTables s (notify_left J us who room peers s)
  unfolding notify_left send_leave_notification
  notify_left-SameTables [] who room peers s = record { rooms = refl; client_db = refl }
  notify_left-SameTables (u ∷ us) who room peers s =
      SameTables-trans (send_notification-SameTables _ u who room peers s)
        (notify_left-SameTables us who room peers _)

  pub SameTables-IsConsistent : {s t : Server} → SameTables s t → IsConsistent s → IsConsistent t
  SameTables-IsConsistent e c = record {
    reachable = λ p r h. rw e.client_db (c.reachable p r (rw e.rooms at h));
    filed = λ p h. c.filed p (rw e.client_db at h);
  }

  pub on_file_offer-cases :
      (ws : Option Ws) (doc : J.Value) (s : Server) {t : Server}
      → on_file_offer J ws doc s ≡ done t
      → (t ≡ s) ⊎ (t ≡ handle_file J ws doc s)
  unfolding on_file_offer
  on_file_offer-cases ws doc s h = ground arith

  pub on_file_accept-cases :
      (ws : Option Ws) (doc : J.Value) (s : Server) {t : Server}
      → on_file_accept J ws doc s ≡ done t
      → (t ≡ s) ⊎ (t ≡ handle_file J ws doc s)
  unfolding on_file_accept
  on_file_accept-cases ws doc s h = ground arith

  pub on_file_reject-cases :
      (ws : Option Ws) (doc : J.Value) (s : Server) {t : Server}
      → on_file_reject J ws doc s ≡ done t
      → (t ≡ s) ⊎ (t ≡ handle_file J ws doc s)
  unfolding on_file_reject
  on_file_reject-cases ws doc s h = ground arith
