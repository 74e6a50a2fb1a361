-- ===== src/Program/Main.antt =====
-- `main` of src/CloudNode.cpp from the start of the role on: the wait for its end, with the token that a
-- signal stops, and the order of its calls.
use cloud_node.Base.{
  if◌then◌else◌, Bool-cases, All, ==_refl, nat_ord, text_ord, pair_ord, ℕ, ◌≡◌, refl, ap, ◌∙◌, inl,
  inr, Bool, true, false, not, ◌&&◌, ◌||◌, ◌==◌, Option, none, some, List, [], ◌∷◌, ◌++◌,
}
use cloud_node.Json.{Run, done, fault}
use cloud_node.StopToken.{
  Platform, standard, posix, StopToken, create_stop_token, start, request_stop, stop_requested,
}
use cloud_node.Client.Specs.{is_empty}
use cloud_node.Program.{Cmdline}
use cloud_node.Program.Roles.{Role, server, client}

abbrev and_then {ℓ κ} : {A : Type ℓ} {B : Type κ} → Run A → (A → Run B) → Run B
and_then (done a) k = k a
and_then fault k = fault

-- The loop goes on, or has ended.
pub data Awaited : Type 0 where
  awaits ended : StopToken → Awaited

abbrev pub is_server : Role → Bool
is_server server = true
is_server client = false

-- One round of the wait: whether SIGINT came before it, at most once, and whether the role runs.
pub record Round : Type 0 where
  pub signalled : Bool
  pub running : Bool

-- What `main` calls of its parts.
pub data Call : Type 0 where
  on_file watcher_start watcher_stop port_start port_stop : Call

abbrev pub watched : Role → Cmdline → List Call → List Call
watched role p calls = if not (is_server role) && not (is_empty p.directory) then calls else []

abbrev pub stopped : Awaited → List Call
stopped (awaits token) = []
stopped (ended token) = watcher_stop ∷ port_stop ∷ []

-- `main` is in one thread, and the handler of the signal in that one or another.
module _ (platform : Platform) (thread handler : ℕ) where
  -- `signalHandler`
  unfoldable pub signal_handler : Bool → StopToken → Run StopToken
  unfolding request_stop
  signal_handler true token = request_stop handler token
  signal_handler false token = done token

  -- The `while`, over the rounds so far.
  unfoldable pub await_end : Role → List Round → StopToken → Run Awaited
  unfolding signal_handler stop_requested
  await_end role [] token = done (awaits token)
  await_end role (r ∷ rs) token = and_then (signal_handler r.signalled token) λ t.
      and_then (stop_requested platform thread t) λ (u, stop).
        let rest = await_end role rs u in
        if not stop && (is_server role || r.running) then rest else done (ended u)

  -- The calls of `main` behind `Start(g_stopToken)`, where the port starts or not.
  unfoldable pub serve : Role → Cmdline → Bool → List Round → StopToken → Run (List Call)
  unfolding await_end
  serve role p starts rounds token =
      let first = watched role p (on_file ∷ []) ++ port_start ∷ [] in
      if starts
      then and_then (await_end role rounds token)
          (λ a. done (first ++ (watched role p (watcher_start ∷ []) ++ stopped a)))
      else done first

  -- `none` if `Start(g_stopToken)` waited.
  unfoldable pub main : Role → Cmdline → Bool → List Round → Option (Run (List Call))
  unfolding serve start create_stop_token
  main role p starts rounds = elim (start thread create_stop_token) [
    | none ↦ none
    | some token ↦ some (serve role p starts rounds token)
  ]

-- A round in which the wait ends, by a signal or because a client's port does not run.
abbrev pub is_last : Role → Round → Bool
is_last role r = r.signalled || not (is_server role || r.running)

-- Where the wait ends, if it does: the token is free after a signal.
unfoldable pub end_of : ℕ → Role → List Round → Awaited
end_of thread role [] = awaits (some thread)
end_of thread role (r ∷ rs) =
    let rest = end_of thread role rs in
    if is_last role r then ended (if r.signalled then none else some thread) else rest

-- The calls of a `main` whose wait has ended.
abbrev pub all_calls : Role → Cmdline → List Call
all_calls role p =
    (watched role p (on_file ∷ []) ++ port_start ∷ [])
    ++ (watched role p (watcher_start ∷ []) ++ watcher_stop ∷ port_stop ∷ [])

stop_requested-none :
    (platform : Platform) (thread : ℕ) → stop_requested platform thread none ≡ done (none, true)
unfolding stop_requested request_stop
stop_requested-none platform thread = rw (==_refl thread, stop_requested) refl

module _ (thread : ℕ) where
  await_end-end_of :
      (role : Role) (rounds : List Round)
      → await_end posix thread thread role rounds (some thread) ≡ done (end_of thread role rounds)
  unfolding await_end end_of request_stop stop_requested signal_handler
  await_end-end_of role [] = refl
  await_end-end_of role (r ∷ rs) = elim (Bool-cases r.signalled) [
    | inl e ↦
        rw (e, ==_refl thread, signal_handler)
          (rw (stop_requested-none posix thread, and_then) refl)
    | inr e ↦
        rw (e, ==_refl thread, signal_handler)
          (elim (Bool-cases (is_server role || r.running)) [
            | inl g ↦ rw g (await_end-end_of role rs)
            | inr g ↦ rw g refl
          ])
  ]

  end_of-last :
      (role : Role) (quiet : List Round) (r : Round) (rest : List Round)
      → All (λ q. is_last role q ≡ false) quiet
      → is_last role r ≡ true
      → end_of thread role (quiet ++ r ∷ rest) ≡ ended (if r.signalled then none else some thread)
  unfolding end_of
  end_of-last role [] r rest a h = rw h refl
  end_of-last role (q ∷ quiet) r rest a h = rw a.0 (end_of-last role quiet r rest a.1 h)

  -- Where trying to lock a mutex that the caller holds fails, as POSIX has it, and the handler is in the
  -- thread of `main`: with a port that starts, `main` waits while no signal comes and, as a client, its
  -- port runs; in the first round that is not so the wait ends, and the watcher is stopped before the
  -- port. The watcher is started, after the port, only for a client that has a directory.
  pub main-stops :
      (role : Role) (p : Cmdline) (quiet : List Round) (r : Round) (rest : List Round)
      → All (λ q. is_last role q ≡ false) quiet
      → is_last role r ≡ true
      → main posix thread thread role p true (quiet ++ r ∷ rest) ≡ some (done (all_calls role p))
  unfolding main serve start create_stop_token
  main-stops role p quiet r rest a h =
      rw (await_end-end_of role (quiet ++ r ∷ rest) ∙ ap done (end_of-last role quiet r rest a h))
        refl

-- Where a thread must not try to lock a mutex that it holds, as the C++ standard has it: whatever the
-- role, a `main` whose port starts and that comes to its first question is undefined, unless a signal
-- came before and its handler is in the thread of `main`; then it makes all of its calls.
pub main-undefined :
    (thread handler : ℕ) (role : Role) (p : Cmdline) (r : Round) (rounds : List Round)
    → main standard thread handler role p true (r ∷ rounds)
      ≡ some (if r.signalled && (thread == handler) then done (all_calls role p) else fault)
unfolding main serve await_end signal_handler start create_stop_token request_stop stop_requested
main-undefined thread handler role p r rounds = elim (Bool-cases r.signalled) [
  | inr e ↦ rw (e, ==_refl thread) refl
  | inl e ↦ elim (Bool-cases (thread == handler)) [
    | inl h ↦ rw (e, h) (rw (stop_requested-none standard thread, and_then) refl)
    | inr h ↦ rw (e, h) refl
  ]
]
