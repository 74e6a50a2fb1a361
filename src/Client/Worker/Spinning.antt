-- ===== src/Client/Worker/Spinning.antt =====
-- The worker thread of a client that has nothing to join, nobody to connect and nothing to offer.
use cloud_node.Base.{
  nat_ord, Text, text_ord, pair_ord, ℕ, zero, suc, ◌*◌, ◌≡◌, refl, ap, ◌∙◌, Bool, true, Option,
  none, some, [], arith,
}
use cloud_node.Base.Set
use cloud_node.Json.{Json}
use cloud_node.LocalDescription.{Base64}
use cloud_node.Client.State.{init, Client, Env}
use cloud_node.Client.Sending.{Files}
use cloud_node.Client.Channel.{Rtc}
use cloud_node.Client.Startup.{
  Options, or_empty_text, with_room, files, startup_files, startup_rooms,
}
use cloud_node.Client.Worker.{
  Task, startup, Point, top, joining, all_joined, offering, returned, start_up, round, join_rooms,
  step,
}
use cloud_node.Client.Worker.Stopping.{advance}

times_four : (n : ℕ) → 4 * suc n ≡ suc (suc (suc (suc (4 * n))))
times_four n = omega arith

module _ (J : Json) (env : Env) (rtc : Rtc) (base64 : Base64) (paths : Files)
    (options : Options) where
  module _ (expired : ℕ → Bool) (uuid : ℕ → Text) where
    abbrev Moves : ℕ → Point × Client → Point × Client
    Moves = advance J env rtc base64 paths options expired uuid

    -- Where a client with no room to join starts.
    abbrev pub start : Client → Point × Client
    start c = (
      joining (startup_rooms options [])
          (startup (or_empty_text options.peer) (or_empty_text options.room) []),
      c,
    )

    rooms_joined :
        (o : Option Text) (task : Task) (c : Client)
        → or_empty_text o ≡ []
        → c.state ≡ init
        → join_rooms J env rtc base64 paths options (with_room o []) task c ≡ (all_joined task, c)
    unfolding join_rooms Set.insert
    rooms_joined none task c h i = refl
    rooms_joined (some room) task c h i = rw h (rw i refl)

    round-start :
        (c : Client)
        → c.state ≡ init
        → c.transport_open ≡ true
        → startup_files options ≡ files []
        → round J env rtc base64 paths options c ≡ start c
    unfolding round start_up
    round-start c i o f = rw i (rw o (rw f refl))

    advance-step :
        (n : ℕ) (p : Point) (c : Client) (x : Point × Client)
        → step J env rtc base64 paths options (expired n) (uuid n) p c ≡ some x
        → Moves (suc n) (p, c) ≡ Moves n x
    unfolding advance
    advance-step n p c x h = rw h refl

    offering_next :
        (n : ℕ) (c : Client)
        → or_empty_text options.peer ≡ []
        → step J env rtc base64 paths options
            (expired n)
            (uuid n)
            (all_joined (startup (or_empty_text options.peer) (or_empty_text options.room) []))
            c
          ≡ some (offering [], c)
    unfolding step
    offering_next n c p = rw p refl

    offered_none :
        (n : ℕ) (c : Client)
        → step J env rtc base64 paths options (expired n) (uuid n) (offering []) c
          ≡ some (returned true, c)
    unfolding step
    offered_none n c = refl

    first_round :
        (n : ℕ) (c : Client)
        → c.state ≡ init
        → c.transport_open ≡ true
        → startup_files options ≡ files []
        → step J env rtc base64 paths options (expired n) (uuid n) top c ≡ some (start c)
    unfolding step
    first_round n c i o f = ap some (round-start c i o f)

    round_again :
        (n : ℕ) (c : Client)
        → c.state ≡ init
        → c.transport_open ≡ true
        → startup_files options ≡ files []
        → step J env rtc base64 paths options (expired n) (uuid n) (returned true) c
          ≡ some (start c)
    unfolding step round start_up
    round_again n c i o f = rw i (rw o (rw f refl))

    all_joined_next :
        (n : ℕ) (task : Task) (c : Client)
        → c.state ≡ init
        → or_empty_text options.room ≡ []
        → step J env rtc base64 paths options
            (expired n)
            (uuid n)
            (joining (startup_rooms options []) task)
            c
          ≡ some (all_joined task, c)
    unfolding step startup_rooms
    all_joined_next n task c i r = ap some (rooms_joined options.room task c r i)

    start-start :
        (n : ℕ) (c : Client)
        → c.state ≡ init
        → c.transport_open ≡ true
        → or_empty_text options.peer ≡ []
        → or_empty_text options.room ≡ []
        → startup_files options ≡ files []
        → Moves (suc (suc (suc (suc n)))) (start c) ≡ Moves n (start c)
    start-start n c i o p r f =
        let task = startup (or_empty_text options.peer) (or_empty_text options.room) [] in
        advance-step (suc (suc (suc n))) (joining (startup_rooms options []) task) c _
          (all_joined_next (suc (suc (suc n))) task c i r)
        ∙ (advance-step (suc (suc n)) (all_joined task) c _ (offering_next (suc (suc n)) c p)
            ∙ (advance-step (suc n) (offering []) c (returned true, c) (offered_none (suc n) c)
                ∙ advance-step n (returned true) c _ (round_again n c i o f)))

    start-start_again :
        (n : ℕ) (c : Client)
        → c.state ≡ init
        → c.transport_open ≡ true
        → or_empty_text options.peer ≡ []
        → or_empty_text options.room ≡ []
        → startup_files options ≡ files []
        → Moves (4 * n) (start c) ≡ start c
    unfolding advance
    start-start_again zero c i o p r f = refl
    start-start_again (suc n) c i o p r f =
        ap (λ k. Moves k (start c)) (times_four n)
        ∙ (start-start (4 * n) c i o p r f ∙ start-start_again n c i o p r f)

    -- A client whose options name no peer, no room and no file, once its transport is open and if no
    -- other thread comes in between, goes round for ever: after one step and four for each round it
    -- is where it started, in the state INIT, so that a file that is queued is never offered.
    pub top-start :
        (n : ℕ) (c : Client)
        → c.state ≡ init
        → c.transport_open ≡ true
        → or_empty_text options.peer ≡ []
        → or_empty_text options.room ≡ []
        → startup_files options ≡ files []
        → Moves (suc (4 * n)) (top, c) ≡ start c
    top-start n c i o p r f =
        advance-step (4 * n) top c (start c) (first_round (4 * n) c i o f)
        ∙ start-start_again n c i o p r f
