-- ===== src/Server/State.antt =====
-- The server's state, and what its handlers have in common.
use cloud_node.Base.{
  nat_ord, Text, text, text_ord, pair_ord, ℕ, ◌≡◌, refl, Bool, ◌&&◌, Option, none, some, List, [],
  ◌∷◌, ◌++◌,
}
use cloud_node.Base.Dict.{Dict}
use cloud_node.Json.{Json}
use cloud_node.Rooms.{Rooms, is_member}

-- A `MessagePort::Ws*` with its `PerSocketData`; two sockets may carry one client id.
pub record Ws : Type 0 where
  pub handle : ℕ
  pub x_client_id : Text

pub record Server : Type 0 where
  -- `m_rooms`
  pub rooms : Rooms
  -- `m_clientDB`
  pub client_db : Dict Text Ws
  -- The calls of `send` so far, oldest first.
  pub sent : List (Ws × Text)

abbrev pub send : Ws → Text → Server → Server
send ws message s = record s { sent = s.sent ++ (ws, message) ∷ [] }

-- An early `return` leaves the state as it is.
abbrev pub or_return : Option Server → Server → Server
or_return none s = s
or_return (some t) s = t

module _ (J : Json) where
  abbrev pub both_members : Text → Text → Text → Rooms → Bool
  both_members from peer room rooms = is_member from room rooms && is_member peer room rooms

  -- `doc["peer"].SetString(from)` and the text that the writer makes of the document.
  abbrev pub rewritten : Text → J.Value → Text
  rewritten from doc = J.write (J.set_string (text "peer") from doc)

-- The rest of a handler, behind checks that may return early.
unfoldable pub or_stay {ℓ} : {A : Type ℓ} → Option A → (A → Server) → Server → Server
or_stay none k s = s
or_stay (some a) k s = k a

pub or_stay-rule {ℓ κ} :
    {A : Type ℓ} (P : Server → Type κ) (o : Option A) {k : A → Server} (s : Server)
    → P s
    → ((a : A) → o ≡ some a → P (k a))
    → P (or_stay o k s)
unfolding or_stay
or_stay-rule P none s h f = h
or_stay-rule P (some a) s h f = f a refl
