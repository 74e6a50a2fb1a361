-- ===== src/Server/Consistency/Events.antt =====
-- What each event of the message port does to the consistency of the tables.
use cloud_node.Base.{
  Bool-cases, ==_iff, nat_ord, Text, text_ord, pair_ord, ◌≡◌, sym, subst, ◌⊎◌, inl, inr, Option,
  some, List, [], ◌∷◌, arith,
}
use cloud_node.Base.Dict.{lookup-insert}
use cloud_node.Json.{Json, done}
use cloud_node.Rooms
use cloud_node.Rooms.{Rooms, members, touch, is_member}
use cloud_node.Rooms.Laws.{join-is_member, leave-is_member, members-touch}
use cloud_node.Router.{Kind, dispatch}
use cloud_node.Router.Laws.{message_router-keeps, done_inj}
use cloud_node.Server.State.{Ws, Server, or_stay-rule}
use cloud_node.Server.Membership.{
  room_request, enter, leave, leave_each, on_join, on_leave, on_ping_pong, on_message_open,
  on_message_close,
}
use cloud_node.Server.Relay.{on_offer, on_answer, on_candidate, on_file_complete}
use cloud_node.Server.Files.{relay_file, file_request, handle_file}
use cloud_node.Server.Dispatch.{Event, opened, message, closed, handlers, on_event}
use cloud_node.Server.Consistency.{
  IsConsistent, SameTables, notify_joined-SameTables, notify_left-SameTables,
  SameTables-IsConsistent, on_file_offer-cases, on_file_accept-cases, on_file_reject-cases,
}

module _ (J : Json) where
  on_offer-SameTables :
      (ws : Option Ws) (doc : J.Value) (s : Server) {t : Server}
      → on_offer J ws doc s ≡ done t
      → SameTables s t
  unfolding on_offer
  on_offer-SameTables ws doc s h = ground arith

  on_answer-SameTables :
      (ws : Option Ws) (doc : J.Value) (s : Server) {t : Server}
      → on_answer J ws doc s ≡ done t
      → SameTables s t
  unfolding on_answer
  on_answer-SameTables ws doc s h = ground arith

  on_candidate-SameTables :
      (ws : Option Ws) (doc : J.Value) (s : Server) {t : Server}
      → on_candidate J ws doc s ≡ done t
      → SameTables s t
  unfolding on_candidate
  on_candidate-SameTables ws doc s h = ground arith

  on_file_complete-SameTables :
      (ws : Option Ws) (doc : J.Value) (s : Server) {t : Server}
      → on_file_complete J ws doc s ≡ done t
      → SameTables s t
  unfolding on_file_complete
  on_file_complete-SameTables ws doc s h = ground arith

  on_ping_pong-SameTables :
      (ws : Option Ws) (doc : J.Value) (s : Server) {t : Server}
      → on_ping_pong J ws doc s ≡ done t
      → SameTables s t
  unfolding on_ping_pong
  on_ping_pong-SameTables ws doc s h = ground arith

  relay_file-IsConsistent :
      (source : Ws) (peer room : Text) (doc : J.Value) (s : Server)
      → IsConsistent s
      → IsConsistent (relay_file J source peer room doc s)
  unfolding relay_file
  relay_file-IsConsistent source peer room doc s c =
      SameTables-IsConsistent J {s = record s { rooms = touch room s.rooms }} (ground arith)
        (record { reachable = λ p r h. c.reachable p r (rw members-touch at h); filed = c.filed })

  handle_file-IsConsistent :
      (ws : Option Ws) (doc : J.Value) (s : Server)
      → IsConsistent s
      → IsConsistent (handle_file J ws doc s)
  unfolding handle_file
  handle_file-IsConsistent ws doc s c =
      or_stay-rule IsConsistent (file_request J ws doc) s c
        λ (source, peer, room) _. relay_file-IsConsistent source peer room doc s c

  enter-IsConsistent :
      (ws : Ws) (room : Text) (s : Server) → IsConsistent s → IsConsistent (enter J ws room s)
  unfolding enter
  enter-IsConsistent ws room s c = elim (Bool-cases (Rooms.join id room s.rooms).1) [
    | inl new ↦
        rw (new, enter)
          (SameTables-IsConsistent J (notify_joined-SameTables J _ id room _ _) (record {
            reachable = λ p r h. ground (
              arith,
              h,
              join-is_member p r id room s.rooms,
              lookup-insert p id ws s.client_db,
              c.reachable p r,
            );
            filed = λ p {ws = w} h.
                ground
                  (arith, h, ==_iff p id, lookup-insert p id ws s.client_db, c.filed p {ws = w});
          }))
    | inr old ↦
        rw (old, enter)
          (record {
            reachable = λ p r h. ground (
              arith,
              h,
              ==_iff p id,
              ==_iff r room,
              join-is_member p r id room s.rooms,
              c.reachable p r,
            );
            filed = c.filed;
          })
  ]
    where
      open ws use {x_client_id as id}

  leave-IsConsistent :
      (peer room : Text) (s : Server) → IsConsistent s → IsConsistent (leave J peer room s)
  unfolding leave
  leave-IsConsistent peer room s c =
      SameTables-IsConsistent J (notify_left-SameTables J _ peer room _ _) (record {
        reachable = λ p r h. c.reachable p r (
            ground (
              arith,
              h,
              leave-is_member p r peer room s.rooms,
              members-touch r room (Rooms.leave peer room s.rooms).0,
            ));
        filed = c.filed;
      })

  leave_each-IsConsistent :
      (rooms : List Text) (peer : Text) (s : Server)
      → IsConsistent s
      → IsConsistent (leave_each J rooms peer s)
  unfolding leave_each
  leave_each-IsConsistent [] peer s c = c
  leave_each-IsConsistent (room ∷ rooms) peer s c =
      leave_each-IsConsistent rooms peer _ (elim (Bool-cases (is_member peer room s.rooms)) [
        | inl e ↦ rw e (leave-IsConsistent peer room s c)
        | inr e ↦ rw e c
      ])

  file_cases :
      (ws : Option Ws) (doc : J.Value) (s : Server) {t : Server}
      → (t ≡ s) ⊎ (t ≡ handle_file J ws doc s)
      → IsConsistent s
      → IsConsistent t
  file_cases ws doc s (inl e) c = subst IsConsistent (sym e) c
  file_cases ws doc s (inr e) c = subst IsConsistent (sym e) (handle_file-IsConsistent ws doc s c)

  on_join-IsConsistent :
      (ws : Option Ws) (doc : J.Value) (s : Server) {t : Server}
      → on_join J ws doc s ≡ done t
      → IsConsistent s
      → IsConsistent t
  unfolding on_join
  on_join-IsConsistent ws doc s h c = subst IsConsistent (done_inj h) (
      or_stay-rule IsConsistent (room_request J ws doc) s c
        λ (source, room) _. enter-IsConsistent source room s c)

  on_leave-IsConsistent :
      (ws : Option Ws) (doc : J.Value) (s : Server) {t : Server}
      → on_leave J ws doc s ≡ done t
      → IsConsistent s
      → IsConsistent t
  unfolding on_leave
  on_leave-IsConsistent ws doc s h c = subst IsConsistent (done_inj h) (
      or_stay-rule IsConsistent (room_request J ws doc) s c
        λ (source, room) _. leave-IsConsistent source.x_client_id room s c)

  dispatch-IsConsistent :
      (ws : Option Ws) (kind : Kind) (doc : J.Value) (s : Server) {t : Server}
      → dispatch J (handlers J ws) kind doc s ≡ done t
      → IsConsistent s
      → IsConsistent t
  unfolding dispatch
  dispatch-IsConsistent ws Kind.join doc s h c = on_join-IsConsistent ws doc s h c
  dispatch-IsConsistent ws Kind.leave doc s h c = on_leave-IsConsistent ws doc s h c
  dispatch-IsConsistent ws Kind.file_accept doc s h c =
      file_cases ws doc s (on_file_accept-cases J ws doc s h) c
  dispatch-IsConsistent ws Kind.file_reject doc s h c =
      file_cases ws doc s (on_file_reject-cases J ws doc s h) c
  dispatch-IsConsistent ws Kind.offer doc s h c =
      SameTables-IsConsistent J (on_offer-SameTables ws doc s h) c
  dispatch-IsConsistent ws Kind.answer doc s h c =
      SameTables-IsConsistent J (on_answer-SameTables ws doc s h) c
  dispatch-IsConsistent ws Kind.candidate doc s h c =
      SameTables-IsConsistent J (on_candidate-SameTables ws doc s h) c
  dispatch-IsConsistent ws Kind.file_offer doc s h c =
      file_cases ws doc s (on_file_offer-cases J ws doc s h) c
  dispatch-IsConsistent ws Kind.file_complete doc s h c =
      SameTables-IsConsistent J (on_file_complete-SameTables ws doc s h) c
  dispatch-IsConsistent ws Kind.ping_pong doc s h c =
      SameTables-IsConsistent J (on_ping_pong-SameTables ws doc s h) c
  dispatch-IsConsistent ws Kind.unhandled doc s h c = subst IsConsistent (done_inj h) c

  -- Every event that runs to its end keeps the tables consistent.
  pub on_event-IsConsistent :
      (e : Event) (s : Server) {t : Server}
      → on_event J e s ≡ done t
      → IsConsistent s
      → IsConsistent t
  unfolding on_event on_message_open on_message_close
  on_event-IsConsistent (opened ws) s h c = subst IsConsistent (done_inj h) c
  on_event-IsConsistent (message ws json) s h c =
      message_router-keeps J (handlers J (some ws)) IsConsistent json s
        (λ kind doc e. dispatch-IsConsistent (some ws) kind doc s e c) c h
  on_event-IsConsistent (closed ws) s h c =
      subst IsConsistent (done_inj h) (leave_each-IsConsistent _ ws.x_client_id s c)
