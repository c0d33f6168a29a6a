-- ===== src/EventLoop/Applied.antt =====
-- What an addition, a removal and an update have to do, said without their code.
use cpp_example_code.Base.{ℕ, ◌<◌, ◌≡◌, ◌⊎◌, Bool, true, false, ◌&&◌, Option, some, List}
use cpp_example_code.Base.Tests.{◌==◌, if◌then◌else◌}
use cpp_example_code.EventLoop.State.{Addr, null, is_negative, Channel, Element, EventLoop}
use cpp_example_code.EventLoop.Map.{channel_at}
use cpp_example_code.EventLoop.Poll.{PollFd, poll_events}
use cpp_example_code.EventLoop.Watch.{free_places, asked}
use cpp_example_code.EventLoop.Tracked.{Tracked}

-- what a change leaves alone
abbrev pub queue_of :
    EventLoop (List PollFd) → Bool × Addr × Addr × (Addr → Element) × (Addr → Channel) × ℕ
queue_of l =
    (l.is_handle_pending, l.pending_head, l.pending_tail, l.elements, l.channels, l.wakeups)

-- A change that C defines: an addition of a channel for which there is a place, a removal of a
-- descriptor that has a channel, and an update of a descriptor inside the map's array.
pub data IsSound (l : EventLoop (List PollFd)) (a : Addr) : ℕ → Type 0 where
  adds :
      is_negative (l.channels a).fd ≡ false
      → (l.channels a).fd < 67108864
      → 0 < a
      → 0 < free_places l.event_dispatcher_data
      → IsSound l a 1
  removes :
      is_negative (l.channels a).fd ≡ false
      → (channel_at l.channel_map (l.channels a).fd == null) ≡ false
      → IsSound l a 2
  updates :
      is_negative (l.channels a).fd ≡ false
      → (l.channels a).fd < l.channel_map.nentries
      → IsSound l a 3

-- the channel of `q` after a change for `fd`, by the change's type
abbrev pub changed : ℕ → ℕ → Addr → (ℕ → Addr) → ℕ → Addr
changed type fd a f q =
    if type == 1
    then (if fd == q && (f fd == null) then a else f q)
    else if type == 2
    then (if fd == q then null else f q)
    else f q

module _ (rd wr : ℕ) where
  -- What a change does: the map and the array agree still; with memory, or without it unless nothing changes, each
  -- descriptor has the channel that it should have; the place of a channel that was added or updated asks poll for
  -- the channel's events, and the other descriptors' places for what they did; and the rest of the loop is as
  -- it was.
  pub record Applied (granted : Bool) (type : ℕ) (a : Addr) (l : EventLoop (List PollFd))
      (out : Option (EventLoop (List PollFd))) : Type 0 where
    pub after : EventLoop (List PollFd)
    pub returns : out ≡ some after
    pub tracked : Tracked after
    pub maps :
        granted ≡ true
        → (q : ℕ)
        → channel_at after.channel_map q
          ≡ changed type (l.channels a).fd a (channel_at l.channel_map) q
    pub refused :
        granted ≡ false
        → ((q : ℕ)
            → channel_at after.channel_map q
              ≡ changed type (l.channels a).fd a (channel_at l.channel_map) q)
          ⊎ (after ≡ l)
    pub updated :
        type ≡ 3
        → (channel_at l.channel_map (l.channels a).fd == null) ≡ false
        → asked (l.channels a).fd after.event_dispatcher_data
          ≡ some (poll_events rd wr (l.channels a).events)
    pub added :
        type ≡ 1
        → channel_at l.channel_map (l.channels a).fd ≡ null
        → channel_at after.channel_map (l.channels a).fd ≡ a
        → asked (l.channels a).fd after.event_dispatcher_data
          ≡ some (poll_events rd wr (l.channels a).events)
    pub others :
        (q : ℕ)
        → is_negative q ≡ false
        → ((l.channels a).fd == q) ≡ false
        → asked q after.event_dispatcher_data ≡ asked q l.event_dispatcher_data
    pub same : queue_of after ≡ queue_of l
