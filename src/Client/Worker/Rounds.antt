-- ===== src/Client/Worker/Rounds.antt =====
-- What each part of a step of the worker leads to, in what the state can be where the worker stands.
use cloud_node.Base.{
  if◌then◌else◌, Bool-cases, is_some, nat_ord, Text, text_ord, pair_ord, ◌≡◌, refl, inl, inr, Bool,
  true, false, not, ◌&&◌, Option, none, some, List, [], ◌∷◌, arith,
}
use cloud_node.Base.Dict.{lookup}
use cloud_node.Json.{Json}
use cloud_node.LocalDescription.{Base64, LocalDescription}
use cloud_node.Client.Specs.{FileSpec}
use cloud_node.Client.State.{
  ClientState, init, waiting_for_join, joined, run, ping, wait_for_pong, wait_for_file_accept, exit,
  ◌is◌, Client, Env,
}
use cloud_node.Client.Sending.{Files, send_file_offer, offered, offer_details, offer_payload}
use cloud_node.Client.Channel.{Rtc, offered_channel, obtain_initial_description, make_data_channel}
use cloud_node.Client.Startup.{Options, Parsed, files, malformed, throws, startup_files}
use cloud_node.Client.Worker.{
  Point, offering, returned, is_stopped, with_state, begun, start_up, round_of, run_round, round,
  woken, late, channel_ready, after_connect, after_channel, stop_unless, next_file, after_offer,
}
use cloud_node.Client.Worker.Steps.{
  IsQuiet, IsSettled, Fits, FitsPair, IsQuiet-IsSettled, is_stopped-IsQuiet,
}

-- What a step leads to, if there is one.
abbrev pub FitsNext : Option (Point × Client) → Type 0
FitsNext none = Unit {0}
FitsNext (some x) = FitsPair x

pub if-FitsPair :
    (b : Bool) (x y : Point × Client)
    → (b ≡ true → FitsPair x)
    → (b ≡ false → FitsPair y)
    → FitsPair (if b then x else y)
if-FitsPair true x y f g = f refl
if-FitsPair false x y f g = g refl

pub if-IsSettled :
    (b : Bool) (x y : Client)
    → IsSettled x.state
    → IsSettled y.state
    → IsSettled (if b then x else y).state
if-IsSettled true x y f g = f
if-IsSettled false x y f g = g

pub if_sent-IsSettled :
    (b : Bool) (x y : Client × Bool)
    → IsSettled x.0.state
    → IsSettled y.0.state
    → IsSettled (if b then x else y).0.state
if_sent-IsSettled true x y f g = f
if_sent-IsSettled false x y f g = g

pub is_answer-IsQuiet : (s : ClientState) → (s is wait_for_file_accept) ≡ true → IsQuiet s
is_answer-IsQuiet wait_for_file_accept h = tt
is_answer-IsQuiet waiting_for_join h = cc
is_answer-IsQuiet joined h = cc
is_answer-IsQuiet init h = tt
is_answer-IsQuiet exit h = tt
is_answer-IsQuiet run h = tt
is_answer-IsQuiet ping h = tt
is_answer-IsQuiet wait_for_pong h = tt

module _ (J : Json) (env : Env) (rtc : Rtc) (base64 : Base64) (paths : Files)
    (options : Options) where
  pub begun-FitsPair :
      (o : Parsed) (c : Client)
      → IsQuiet c.state
      → FitsPair (begun J env rtc base64 paths options o c)
  begun-FitsPair (files specs) c h = IsQuiet-IsSettled c.state h
  begun-FitsPair malformed c h = tt
  begun-FitsPair throws c h = tt

  pub run_round-FitsPair :
      (specs : List FileSpec) (c : Client)
      → IsQuiet c.state
      → FitsPair (run_round J env rtc base64 paths options specs c)
  run_round-FitsPair [] c h = h
  run_round-FitsPair (spec ∷ specs) c h = IsQuiet-IsSettled c.state h

  pub start_up-FitsPair :
      (c : Client) → IsQuiet c.state → FitsPair (start_up J env rtc base64 paths options c)
  unfolding start_up
  start_up-FitsPair c h = begun-FitsPair (startup_files options) c h

  pub round_of-FitsPair :
      (s : ClientState) (c : Client)
      → IsQuiet s
      → IsQuiet c.state
      → FitsPair (round_of J env rtc base64 paths options s c)
  round_of-FitsPair exit c q h = tt
  round_of-FitsPair init c q h =
      if-FitsPair c.transport_open _ _ (λ _. start_up-FitsPair c h) (λ _. h)
  round_of-FitsPair wait_for_file_accept c q h = h
  round_of-FitsPair run c q h = run_round-FitsPair c.queued_files c h
  round_of-FitsPair ping c q h = tt
  round_of-FitsPair wait_for_pong c q h = h
  round_of-FitsPair joined c q h = absurd q
  round_of-FitsPair waiting_for_join c q h = absurd q

  pub round-FitsPair :
      (c : Client) → IsQuiet c.state → FitsPair (round J env rtc base64 paths options c)
  unfolding round
  round-FitsPair c h = round_of-FitsPair c.state c h h

  pub woken-FitsNext :
      (b : Bool) (l : Option (Point × Client)) (x : Point × Client)
      → (b ≡ true → FitsPair x)
      → (b ≡ false → FitsNext l)
      → FitsNext (woken J env rtc base64 paths options b l x)
  woken-FitsNext true l x f g = f refl
  woken-FitsNext false l x f g = g refl

  pub late-FitsNext :
      (b : Bool) (x : Point × Client)
      → FitsPair x
      → FitsNext (late J env rtc base64 paths options b x)
  late-FitsNext true x f = f
  late-FitsNext false x f = tt

  pub channel_ready-state :
      (peer room : Text) (c : Client)
      → (channel_ready J env rtc base64 paths options peer room c).0.state ≡ c.state
  unfolding make_data_channel
  channel_ready-state peer room c =
      elim (Bool-cases (is_some (lookup (peer, room) c.data_channels))) [
        | inl e ↦ rw e refl
        | inr e ↦ rw e (offered_channel-state (obtain_initial_description rtc (peer, room)))
      ]
    where
      offered_channel-state :
          (o : Option LocalDescription)
          → (offered_channel env rtc base64 (peer, room) o c).0.state ≡ c.state
      offered_channel-state none = refl
      offered_channel-state (some description) = ground arith

  pub after_connect-FitsPair :
      (specs : List FileSpec) (x : Client × Bool)
      → IsSettled x.0.state
      → FitsPair (after_connect J env rtc base64 paths options specs x)
  after_connect-FitsPair specs (c, true) h = h
  after_connect-FitsPair specs (c, false) h = h

  pub send_file_offer-IsSettled :
      (uuid room peer path : Text) (c : Client)
      → IsSettled c.state
      → IsSettled (send_file_offer env paths uuid room peer path c).0.state
  unfolding send_file_offer
  send_file_offer-IsSettled uuid room peer path c h =
      by_details (offer_details env paths room peer path c)
    where
      by_details : (o : Option Text) → IsSettled (offered env uuid room peer path o c).0.state
      by_details none = h
      by_details (some details) =
          if_sent-IsSettled (env.takes (offer_payload env uuid room peer details)) _ _ tt tt

  pub after_channel-FitsPair :
      (uuid : Text) (spec : FileSpec) (specs : List FileSpec) (x : Client × Bool)
      → IsSettled x.0.state
      → FitsPair (after_channel J env rtc base64 paths options uuid spec specs x)
  after_channel-FitsPair uuid spec specs (c, true) h =
      send_file_offer-IsSettled uuid spec.room spec.peer spec.path c h
  after_channel-FitsPair uuid spec specs (c, false) h = h

  pub stop_unless-IsSettled :
      (ready : Bool) (c : Client)
      → IsSettled c.state
      → IsSettled (stop_unless J env rtc base64 paths options ready c).state
  stop_unless-IsSettled ready c h =
      if-IsSettled (not ready && not (is_stopped c.state)) (with_state exit c) c tt h

  pub after_offer-FitsPair :
      (o : Bool) (c : Client)
      → Fits (returned o) c.state
      → FitsPair (after_offer J env rtc base64 paths options o c)
  after_offer-FitsPair false c h = round-FitsPair c h
  after_offer-FitsPair true c h =
      if-FitsPair (is_stopped c.state) _ _ (λ e. round-FitsPair c (is_stopped-IsQuiet c.state e))
        (λ _.
          if-FitsPair (c.state is wait_for_file_accept) _ _
            (λ e. round-FitsPair c (is_answer-IsQuiet c.state e))
            (λ _. round-FitsPair (with_state run c) tt))

  pub next_file-FitsPair :
      (specs : List FileSpec) (c : Client)
      → IsSettled c.state
      → FitsPair (next_file J env rtc base64 paths options specs c)
  next_file-FitsPair specs c h =
      if-FitsPair (is_stopped c.state) (returned false, c) (offering specs, c)
        (λ e. is_stopped-IsQuiet c.state e) (λ _. h)
