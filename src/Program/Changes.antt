-- ===== src/Program/Changes.antt =====
-- The file watcher of src/CloudNode.cpp and the client behind it: a file that was received is not sent
-- back.
use cloud_node.Base.{==_refl, nat_ord, Text, text_ord, pair_ord, ◌≡◌, refl, ◌∙◌, Bool, true, false}
use cloud_node.Base.Set
use cloud_node.FileWatcher.{FileChange, added, modified, removed}
use cloud_node.Client.State.{Client, Env}
use cloud_node.Client.Incoming.{take_received_file}
use cloud_node.Client.Incoming.Received.{take_received_file-once}
use cloud_node.Client.Sending.{queue_file_to_all}
use cloud_node.Program.{on_change, queued_unless}

module _ (env : Env) where
  queued_unless-false :
      (file : Text) (x : Client × Bool)
      → x.1 ≡ false
      → queued_unless file x ≡ (queue_file_to_all file x.0).0
  queued_unless-false file (c, true) h = cc
  queued_unless-false file (c, false) h = refl

  queued_unless-true : (file : Text) (x : Client × Bool) → x.1 ≡ true → queued_unless file x ≡ x.0
  queued_unless-true file (c, true) h = refl
  queued_unless-true file (c, false) h = cc

  -- The client without the path among the received ones.
  abbrev pub forgets : Text → Client → Client
  forgets file c = record c { received_paths = Set.erase (env.absolute file) c.received_paths }

  abbrev pub is_removed : FileChange → Bool
  is_removed removed = true
  is_removed _ = false

  on_change-taken :
      (file : Text) (change : FileChange) (c : Client)
      → is_removed change ≡ false
      → on_change env file change c ≡ queued_unless file (take_received_file env file c)
  unfolding on_change
  on_change-taken file added c h = refl
  on_change-taken file modified c h = refl
  on_change-taken file removed c h = cc

  taken_again :
      (file : Text) (c : Client) → (take_received_file env file (forgets file c)).1 ≡ false
  unfolding take_received_file
  taken_again file c =
      take_received_file-once env file file c ∙ rw (==_refl (env.absolute file)) refl

  -- A change of a file that the client has received, other than its removal, is not sent on: the client
  -- only forgets that it received the file. The next such change of the file is queued for every peer.
  pub on_change-once :
      (file : Text) (change next : FileChange) (c : Client)
      → is_removed change ≡ false
      → is_removed next ≡ false
      → Set.contains (env.absolute file) c.received_paths ≡ true
      → (on_change env file change c ≡ forgets file c)
        × (on_change env file next (forgets file c)
            ≡ (queue_file_to_all file (forgets file (forgets file c))).0)
  unfolding take_received_file
  on_change-once file change next c h g r = (
    on_change-taken file change c h ∙ queued_unless-true file (take_received_file env file c) r,
    on_change-taken file next (forgets file c) g
        ∙ queued_unless-false file (take_received_file env file (forgets file c))
            (taken_again file c),
  )
