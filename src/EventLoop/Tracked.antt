-- ===== src/EventLoop/Tracked.antt =====
-- The channel map and the array for poll in step, and what that means for the events that poll
-- reports.
use cpp_example_code.Base.{
  ℕ, ◌≤◌, ◌<◌, ◌≡◌, refl, inl, inr, true, false, ◌&&◌, not, some, List, [], ◌∷◌, ◌++◌, arith,
}
use cpp_example_code.Base.Tests.{leb, ◌==◌, if◌then◌else◌, Bool-cases}
use cpp_example_code.Base.Lists.{length, get_or_beyond}
use cpp_example_code.Base.Occurs.{one_if}
use cpp_example_code.Base.Int.{pos}
use cpp_example_code.EventLoop.State.{
  Addr, null, is_negative, event_read, event_write, Channel, EventLoop,
}
use cpp_example_code.EventLoop.Map.{IsMap, channel_at}
use cpp_example_code.EventLoop.Poll.{PollFd, init_poll_size, has_bits}
use cpp_example_code.EventLoop.Watch.{watching}
use cpp_example_code.EventLoop.Ops.{Callback, calls_read, calls_write, channel_event_activate}

-- Every descriptor with a channel has one place in the array for poll, and no other descriptor has any; a
-- descriptor's channel is a channel for it.
pub record Tracked (l : EventLoop (List PollFd)) : Type 0 where
  pub formed : IsMap l.channel_map
  pub small : l.channel_map.nentries ≤ 134217728
  pub width : length l.event_dispatcher_data ≡ init_poll_size
  pub polled :
      (fd : ℕ)
      → is_negative fd ≡ false
      → watching fd l.event_dispatcher_data ≡ one_if (not (channel_at l.channel_map fd == null))
  pub owned :
      (fd : ℕ)
      → (channel_at l.channel_map fd == null) ≡ false
      → (l.channels (channel_at l.channel_map fd)).fd ≡ fd

-- A descriptor that has a channel is inside the map's array.
pub inside_array :
    (l : EventLoop (List PollFd))
    → Tracked l
    → (fd : ℕ) → (channel_at l.channel_map fd == null) ≡ false
    → leb l.channel_map.nentries fd ≡ false
inside_array l t fd there = elim (Bool-cases (leb l.channel_map.nentries fd)) [
  | inl beyond ↦
      let nothing = get_or_beyond l.channel_map.entries fd null (ground (arith, t.formed)) in
      absurd (ground (arith, nothing))
  | inr within ↦ within
]

-- the callbacks for an event
abbrev pub callbacks_of : Channel → ℕ → List Callback
callbacks_of c revents =
    (if has_bits revents event_read && c.read_callback then calls_read c.callback_data ∷ [] else [])
    ++ (if has_bits revents event_write && c.write_callback
        then calls_write c.callback_data ∷ []
        else [])

-- An event that poll reports for a place of its array reaches a channel: the activation does not stop, and
-- makes the callbacks that the channel has for the event.
pub channel_event_activate-Tracked :
    (l : EventLoop (List PollFd)) (fd revents : ℕ)
    → Tracked l
    → is_negative fd ≡ false
    → 0 < watching fd l.event_dispatcher_data
    → (a : Addr) × ((l.channels a).fd ≡ fd)
      × (channel_event_activate l fd revents ≡ some (pos 0, callbacks_of (l.channels a) revents))
unfolding channel_event_activate
channel_event_activate-Tracked l fd revents t used polled =
    let a = channel_at l.channel_map fd in
    let there : (a == null) ≡ false = ground (arith, t.polled fd used) in
    let within = inside_array l t fd there in
    let mate = t.owned fd there in
    let self : (fd == (l.channels a).fd) ≡ true = ground (arith, mate) in
    (a, mate, simp (used, within, there, self) refl)
