-- ===== src/Client/Sender.antt =====
-- src/WebRTCClient.cpp: the transfer thread that `MakeDataChannel` starts when its channel opens. One
-- step is what the thread does between two waits or two calls of the channel.
pub mod Prefixes
pub mod Buffered
use cloud_node.Base.{
  ltb, leb, if◌then◌else◌, length, take, drop, ◌==◌, nat_ord, Text, text_ord, pair_ord, ℕ, ◌/◌,
  Bool, true, false, not, ◌&&◌, ◌||◌, Option, none, some, List, [], ◌∷◌, ◌++◌,
}
use cloud_node.Client.Specs.{is_empty}

-- Where the thread is: at `while (channel->isOpen())`, at `GetItem`, at `file.read` with what is left of
-- the file, at `while (channel->bufferedAmount() > maxMessageSize)` with a chunk that was read, in
-- `waitForCapacity` before the chunk is sent, and in it after a send that was not taken.
pub data Point : Type 0 where
  top getting ended : Point
  reading : Text → Text → Point
  checking waiting : Text → Text → Text → Point
  retrying : Text → Text → Point

-- The channel, `transfer->closed`, the queue, the chunks given to `channel->send`, and the paths for
-- which `SendFileComplete` was called.
pub record Sender : Type 0 where
  pub is_open : Bool
  pub closed : Bool
  pub buffered : ℕ
  pub queue : List Text
  pub sent : List Text
  pub completed : List Text
  pub point : Point

-- What is read of a file that can be locked and opened, and `maxMessageSize`.
module _ (content : Text → Option Text) (size : ℕ) where
  abbrev pub at_point : Point → Sender → Sender
  at_point p s = record s { point = p }

  abbrev pub opened : Text → Option Text → Sender → Sender
  opened path none s = at_point top s
  opened path (some bytes) s = at_point (reading path bytes) s

  -- An item of the queue.
  abbrev pub taken : Text → Sender → Sender
  taken path s =
      if not s.is_open
      then at_point ended s
      else if is_empty path
      then at_point top s
      else opened path (content path) s

  abbrev pub from_queue : List Text → Sender → Option Sender
  from_queue [] s = none
  from_queue (path ∷ paths) s = some (taken path (record s { queue = paths }))

  abbrev pub finished : Text → Sender → Sender
  finished path s = record s {
    completed = if s.is_open then s.completed ++ (path ∷ []) else s.completed;
    point = top;
  }

  abbrev pub given : Bool → Text → Text → Text → Sender → Sender
  given takes path chunk rest s = record s {
    sent = s.sent ++ (chunk ∷ []);
    point = if takes then reading path rest else retrying path rest;
  }

  -- The result of `waitForCapacity`, or that it waits.
  abbrev pub capacity : Sender → Option Bool
  capacity s =
      if s.closed || (not s.is_open || leb s.buffered (size / 2))
      then some (not s.closed && s.is_open)
      else none

  abbrev pub after_wait : Option Bool → Point → Sender → Option Sender
  after_wait none p s = none
  after_wait (some true) p s = some (at_point p s)
  after_wait (some false) p s = some (at_point ended s)

  abbrev pub step_at : Point → Bool → Sender → Option Sender
  step_at top takes s = some (at_point (if s.is_open then getting else ended) s)
  step_at getting takes s = from_queue s.queue s
  step_at (reading path rest) takes s =
      if ltb (length rest) size && length rest == 0
      then some (finished path s)
      else some (at_point (checking path (take size rest) (drop size rest)) s)
  step_at (checking path chunk rest) takes s =
      if ltb size s.buffered
      then some (at_point (waiting path chunk rest) s)
      else some (given takes path chunk rest s)
  step_at (waiting path chunk rest) takes s = after_wait (capacity s) (checking path chunk rest) s
  step_at (retrying path rest) takes s = after_wait (capacity s) (reading path rest) s
  step_at ended takes s = none

  -- A step: `takes` says whether the channel takes the chunk at once.
  unfoldable pub step : Bool → Sender → Option Sender
  step takes s = step_at s.point takes s

-- `onClosed` of the channel, in two halves: the channel is no longer open, and then the flag is set.
unfoldable pub closes : Sender → Sender
closes s = record s { is_open = false }

unfoldable pub on_closed : Sender → Sender
on_closed s = record s { closed = true }

-- What the channel has buffered changes, and a path is queued.
unfoldable pub buffers : ℕ → Sender → Sender
buffers n s = record s { buffered = n }

unfoldable pub queues : Text → Sender → Sender
queues path s = record s { queue = s.queue ++ (path ∷ []) }
