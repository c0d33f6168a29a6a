-- ===== src/EventLoop/Unwatch.antt =====
-- Taking a channel out of the loop, in the loop's own thread.
use cpp_example_code.Base.{
  ℕ, ◌<◌, ◌≡◌, refl, ap, ◌∙◌, Bool, true, false, Option, none, some, [], arith,
}
use cpp_example_code.Base.Tests.{leb, ◌==◌, if◌then◌else◌, ==_refl}
use cpp_example_code.Base.Lists.{get_or, set, get_or-set}
use cpp_example_code.EventLoop.State.{Addr, null, is_negative, Dispatcher, EventLoop}
use cpp_example_code.EventLoop.Map.{IsMap, channel_at}
use cpp_example_code.EventLoop.Ops.{
  handle_pending_remove, handle_change, channel_buffer_nolock, do_channel_event,
  channel_event_activate,
}
use cpp_example_code.EventLoop.Pending.{IsQueue, channel_buffer_nolock-Posted, emptied}
use cpp_example_code.EventLoop.Interest.{IsReady, do_channel_event-handle_change}

module _ {S : Type 0} (d : Dispatcher S) where
  -- What a removal does: the descriptor has no channel, the others have theirs, the dispatcher has been asked
  -- once to forget the descriptor's channel, and nothing is queued.
  pub record Unwatched (l : EventLoop S) (a : Addr) (out : Option (EventLoop S)) : Type 0 where
    pub after : EventLoop S
    pub returns : out ≡ some after
    pub gone : channel_at after.channel_map (l.channels a).fd ≡ null
    pub others :
        (q : ℕ)
        → ((l.channels a).fd == q) ≡ false
        → channel_at after.channel_map q ≡ channel_at l.channel_map q
    pub told :
        after.event_dispatcher_data
        ≡ (d.del l.event_dispatcher_data
            (l.channels (channel_at l.channel_map (l.channels a).fd))).1
    pub channels : after.channels ≡ l.channels
    pub idle : after.is_handle_pending ≡ false
    pub queue : IsQueue after []

  remove_change :
      (granted : Bool) (l : EventLoop S) (a : Addr)
      → is_negative (l.channels a).fd ≡ false
      → (l.channels a).fd < l.channel_map.nentries
      → (channel_at l.channel_map (l.channels a).fd == null) ≡ false
      → handle_change d granted 2 a l
        ≡ some (record l {
          channel_map = record l.channel_map {
            entries = set l.channel_map.entries (l.channels a).fd null;
          };
          event_dispatcher_data =
              (d.del l.event_dispatcher_data
                (l.channels (channel_at l.channel_map (l.channels a).fd))).1;
        })
  unfolding handle_change handle_pending_remove
  remove_change granted l a used inside there =
      let within : leb l.channel_map.nentries (l.channels a).fd ≡ false = ground arith in
      simp (used, within, there, ==_refl (l.channels a).fd) refl

  -- `event_loop_remove_channel_event` of a channel that has its descriptor's place removes it.
  pub do_channel_event-Unwatched :
      (fuel : ℕ) (grants : Addr → Bool) (e : Addr) (l : EventLoop S) (a : Addr)
      → IsMap l.channel_map
      → IsReady l a
      → 0 < e
      → 1 < fuel
      → Unwatched l a (do_channel_event d fuel grants true e l a 2)
  do_channel_event-Unwatched fuel grants e l a formed r proper enough =
      let p = channel_buffer_nolock-Posted l [] e a 2 r.queue proper refl in
      let q = channel_buffer_nolock e l a 2 in
      let u = record q { is_handle_pending = true } in
      let fd = (l.channels a).fd in
      let number : (q.channels a).fd ≡ fd = ap (λ t. (t.2 a).fd) p.same in
      let mapped : q.channel_map ≡ l.channel_map = ap (λ t. t.1) p.same in
      let done =
        remove_change (grants e) u a (ap is_negative number ∙ r.used) (rw (number, mapped) r.inside)
          (rw (number, mapped) r.there) in
      let entry : (j : ℕ)
          → get_or (set q.channel_map.entries (q.channels a).fd null) j null
            ≡ (if fd == j then null else channel_at l.channel_map j) =
        λ j.
          ap (λ t. get_or (set t.1.entries (t.2 a).fd null) j null) p.same
          ∙ get_or-set l.channel_map.entries fd j null null (omega (arith, formed, r.inside)) in
      record {
        after = emptied (record u {
          channel_map = record q.channel_map {
            entries = set q.channel_map.entries (q.channels a).fd null;
          };
          event_dispatcher_data =
              (d.del q.event_dispatcher_data
                (q.channels (channel_at q.channel_map (q.channels a).fd))).1;
        });
        returns =
            do_channel_event-handle_change d fuel grants e l a 2 r.idle r.queue proper enough
            ∙ ap (λ t. elim t [ none ↦ none | some l' ↦ some (emptied l') ]) done;
        gone = entry fd ∙ ap (λ b. if b then null else channel_at l.channel_map fd) (==_refl fd);
        others =
            λ j differ. entry j ∙ ap (λ b. if b then null else channel_at l.channel_map j) differ;
        told = ap (λ t. (d.del t.0 (t.2 (channel_at t.1 (t.2 a).fd))).1) p.same;
        channels = ap (λ t. t.2) p.same;
        idle = refl;
        queue = record { chained = refl; once = λ x. r.queue.once x; tail = refl };
      }

-- An event for a descriptor whose channel has been removed reads through NULL.
pub channel_event_activate_gone :
    {S : Type 0} (l : EventLoop S) (fd revents : ℕ)
    → is_negative fd ≡ false
    → fd < l.channel_map.nentries
    → channel_at l.channel_map fd ≡ null
    → channel_event_activate l fd revents ≡ none
unfolding channel_event_activate
channel_event_activate_gone l fd revents used inside gone =
    let within : leb l.channel_map.nentries fd ≡ false = ground arith in
    let empty : (channel_at l.channel_map fd == null) ≡ true = ap (λ a. a == null) gone in
    rw (used, within, empty, channel_event_activate) refl
