-- ===== src/Session/Thread.antt =====
-- The thread of a session and the threads that stop it: NoteUSBSession::start, read_socket and stop
-- (src/note_usb_session.cpp) action by action, as handle_client and cleanup_client (src/module.cpp)
-- run them. A whole handle_message, claim or join is one action. `arriving` is what the blocked read
-- returns, `none` if it throws; a read that stays blocked is no action.
pub mod Stopped
pub mod Lost
pub mod Dangling
use note_usb.Shared.{
  ℕ, ◌≡◌, Bool, true, false, Option, none, some, List, [], ◌∷◌, if◌then◌else◌, is_empty,
}
use note_usb.Protocol.{Error}
use note_usb.Platform.{Env, World}
use note_usb.Session.{Session, Ran, returned, threw, crashed, hung, claim_device}
use note_usb.Session.Messages.{handle_message}
use note_usb.Session.Live.{Live, start_streaming, stop_streaming, destroy_session}
use note_usb.Streaming.{ReportQueue}

-- Where the session's thread stands in `start` and `read_socket`: before the test of `running_`,
-- before each of the two stores, before the claim, at the head of the loop, in the read, behind a
-- message, at the log lines behind the loop. `died` is the end of the process, `blocked` a call that
-- never returns, and `dangling` a use of the session when it is destroyed.
pub data Reader : Type 0 where
  testing : Reader
  marking : Reader
  resetting : Reader
  claiming : Reader
  looping : Reader
  reading : Reader
  checking : Reader
  leaving : Reader
  ended : Reader
  died : Reader
  blocked : Reader
  dangling : Reader

-- Where another thread stands in `stop`: outside, between its exchange and its store, before the
-- streaming thread is stopped, or in a join that never ends.
pub data Stopper : Type 0 where
  outside : Stopper
  storing : Stopper
  joining : Stopper
  stuck : Stopper

-- The thread has the session no more.
abbrev pub is_over : Reader → Bool
is_over ended = true
is_over died = true
is_over dangling = true
is_over other = false

module _ (env : Env) (q : ReportQueue) where
  -- `live` is `none` when the session is destroyed.
  pub record State : Type 0 where
    pub live : Option (Live env q)
    pub reader : Reader
    pub stopper : Stopper
    pub world : World env.Value

  abbrev pub with_session : Live env q → Session → Live env q
  with_session l s = record l { session = s }

  -- What a call that may not return leaves of the session's thread.
  unfoldable pub reader_after :
      Live env q → Reader → Ran (Live env q) → World env.Value → State → State
  reader_after l next (returned l') w s = record s { live = some l'; reader = next; world = w }
  reader_after l next threw w s = record s { live = some l; reader = died; world = w }
  reader_after l next crashed w s = record s { live = some l; reader = died; world = w }
  reader_after l next hung w s = record s { live = some l; reader = blocked; world = w }

  -- What follows the claim of `start`.
  unfoldable pub after_claim :
      ℕ → Live env q → Ran (Error × Session) → World env.Value → State → State
  unfolding reader_after
  after_claim f l (returned (e, s')) w s =
      if env.failed e
      then record s {
        live = some (with_session l (record s' { running = false }));
        reader = ended;
        world = w;
      }
      else (let streaming = start_streaming env q f (with_session l s') w in
          reader_after (with_session l s') looping streaming.0 streaming.1 s)
  after_claim f l threw w s = record s { reader = died; world = w }
  after_claim f l crashed w s = record s { reader = died; world = w }
  after_claim f l hung w s = record s { reader = blocked; world = w }

  -- What follows a message; the exception is caught, and ends the loop.
  unfoldable pub handled : Live env q → Ran Session → World env.Value → State → State
  handled l (returned s') w s = record s {
    live = some (with_session l s');
    reader = checking;
    world = w;
  }
  handled l threw w s = record s { reader = leaving; world = w }
  handled l crashed w s = record s { reader = died; world = w }
  handled l hung w s = record s { reader = blocked; world = w }

  -- An action of `start` in front of `read_socket`.
  unfoldable pub start_step : ℕ → Reader → Live env q → State → State
  unfolding after_claim
  start_step f testing l s = record s { reader = if l.session.running then ended else marking }
  start_step f marking l s = record s {
    live = some (with_session l (record l.session { running = true }));
    reader = resetting;
  }
  start_step f resetting l s = record s {
    live = some (with_session l (record l.session { stop_requested = false }));
    reader = claiming;
  }
  start_step f claiming l s =
      if is_empty l.session.device_id
      then record s { reader = looping }
      else (let r = claim_device env l.session l.session.device_id s.world in
          after_claim f l r.0 r.1 s)
  start_step f other l s = s

  -- An action of `read_socket`.
  unfoldable pub loop_step : Option env.Object → Reader → Live env q → State → State
  unfolding handled
  loop_step arriving looping l s = record s {
    reader = if l.session.stop_requested then leaving else reading;
  }
  loop_step none reading l s = record s { reader = leaving }
  loop_step (some msg) reading l s =
      let r = handle_message env l.session msg s.world in handled l r.0 r.1 s
  loop_step arriving checking l s = record s {
    reader = if l.session.stop_requested then leaving else looping;
  }
  loop_step arriving leaving l s = record s { reader = ended }
  loop_step arriving other l s = s

  -- An action of the session's thread while the session is there.
  unfoldable pub live_step : ℕ → Option env.Object → Reader → Live env q → State → State
  unfolding start_step loop_step
  live_step f arriving testing l s = start_step f testing l s
  live_step f arriving marking l s = start_step f marking l s
  live_step f arriving resetting l s = start_step f resetting l s
  live_step f arriving claiming l s = start_step f claiming l s
  live_step f arriving other l s = loop_step arriving other l s

  unfoldable pub reader_step : ℕ → Option env.Object → State → State
  unfolding live_step
  reader_step f arriving s = elim s.live [
    | none ↦ if is_over s.reader then s else record s { reader = dangling }
    | some l ↦ live_step f arriving s.reader l s
  ]

  unfoldable pub stream_joined : Live env q → Ran (Live env q) → World env.Value → State → State
  stream_joined l (returned l') w s = record s { live = some l'; stopper = outside; world = w }
  stream_joined l threw w s = record s { reader = died; world = w }
  stream_joined l crashed w s = record s { reader = died; world = w }
  stream_joined l hung w s = record s { stopper = stuck; world = w }

  -- The next action of a thread that calls `stop`.
  unfoldable pub live_stop : ℕ → Stopper → Live env q → State → State
  unfolding stream_joined
  live_stop f outside l s =
      if l.session.running
      then record s {
        live = some (with_session l (record l.session { running = false }));
        stopper = storing;
      }
      else s
  live_stop f storing l s = record s {
    live = some (with_session l (record l.session { stop_requested = true }));
    stopper = joining;
  }
  live_stop f joining l s = let r = stop_streaming env q f l s.world in stream_joined l r.0 r.1 s
  live_stop f stuck l s = s

  unfoldable pub stop_step : ℕ → State → State
  unfolding live_stop
  stop_step f s = elim s.live [ none ↦ s | some l ↦ live_stop f s.stopper l s ]

  unfoldable pub erased : Ran (Unit {0}) → World env.Value → State → State
  erased (returned _) w s = record s { live = none; world = w }
  erased threw w s = record s { reader = died; world = w }
  erased crashed w s = record s { reader = died; world = w }
  erased hung w s = record s { stopper = stuck; world = w }

  -- `sessions_.erase(it)`, behind `stop()` in `cleanup_client`, or `sessions_.clear()`.
  unfoldable pub erase_session : ℕ → State → State
  unfolding erased
  erase_session f s = elim s.live [
    | none ↦ s
    | some l ↦ let r = destroy_session env q f l s.world in erased r.0 r.1 s
  ]

  -- The thread that `handle_client` has spawned for a new session.
  abbrev pub spawned : Live env q → World env.Value → State
  spawned l w = record { live = some l; reader = testing; stopper = outside; world = w }

  -- The two threads, in any order.
  pub data Move : Type 0 where
    reads : Option env.Object → Move
    stops : Move

  unfoldable pub move : ℕ → Move → State → State
  unfolding reader_step stop_step
  move f (reads arriving) s = reader_step f arriving s
  move f stops s = stop_step f s

  unfoldable pub run : ℕ → List Move → State → State
  unfolding move
  run f [] s = s
  run f (m ∷ ms) s = run f ms (move f m s)
