-- ===== src/EventLoop/Interest.antt =====
-- Turning a channel's interest in writing on and off, in the loop's own thread.
use cpp_example_code.Base.{
  ℕ, ◌<◌, ◌≡◌, refl, ap, ◌∙◌, inl, inr, true, false, not, Bool, Option, none, some, [], ◌∷◌,
  bit_and, bit_or, arith,
}
use cpp_example_code.Base.Tests.{leb, ◌==◌, Option-cases}
use cpp_example_code.Base.Loops.{assign, assign_self, assign_other}
use cpp_example_code.Base.Bits.{bit_or-four, bit_and-clears_four}
use cpp_example_code.EventLoop.State.{
  Addr, null, is_negative, event_write, Channel, Dispatcher, EventLoop,
}
use cpp_example_code.EventLoop.Map.{channel_at}
use cpp_example_code.EventLoop.Ops.{
  handle_pending_update, handle_change, channel_buffer_nolock, do_channel_event,
  channel_write_event_is_enabled, channel_write_event_enable, channel_write_event_disable,
}
use cpp_example_code.EventLoop.Pending.{
  IsQueue, channel_buffer_nolock-Posted, apply_changes, emptied, do_channel_event-queued,
}

module _ {S : Type 0} where
  -- The loop is between two turns, nothing is queued, and the channel at `a` is its descriptor's.
  pub record IsReady (l : EventLoop S) (a : Addr) : Type 0 where
    pub idle : l.is_handle_pending ≡ false
    pub queue : IsQueue l []
    pub used : is_negative (l.channels a).fd ≡ false
    pub inside : (l.channels a).fd < l.channel_map.nentries
    pub there : (channel_at l.channel_map (l.channels a).fd == null) ≡ false

  -- What a change of interest does: the channel has the events, the dispatcher has been told of them
  -- once, and the other channels and the map are as they were.
  pub record Switched (d : Dispatcher S) (l : EventLoop S) (a : Addr) (events : ℕ)
      (out : Option (EventLoop S)) : Type 0 where
    pub after : EventLoop S
    pub returns : out ≡ some after
    pub channel : after.channels a ≡ record (l.channels a) { events = events }
    pub others : (b : Addr) → (b == a) ≡ false → after.channels b ≡ l.channels b
    pub told :
        after.event_dispatcher_data
        ≡ d.update l.event_dispatcher_data (record (l.channels a) { events = events })
    pub map : after.channel_map ≡ l.channel_map
    pub ready : IsReady after a

module _ {S : Type 0} (d : Dispatcher S) where
  -- an update of a channel that has its descriptor's place
  update_change :
      (granted : Bool) (l : EventLoop S) (a : Addr)
      → is_negative (l.channels a).fd ≡ false
      → (l.channels a).fd < l.channel_map.nentries
      → (channel_at l.channel_map (l.channels a).fd == null) ≡ false
      → handle_change d granted 3 a l
        ≡ some
            (record l { event_dispatcher_data = d.update l.event_dispatcher_data (l.channels a) })
  unfolding handle_change handle_pending_update
  update_change granted l a used inside there =
      let within : leb l.channel_map.nentries (l.channels a).fd ≡ false = ground arith in
      simp (used, within, there) refl

  -- With nothing else queued, a change posted in the loop's own thread is carried out at once.
  pub do_channel_event-handle_change :
      (fuel : ℕ) (grants : Addr → Bool) (e : Addr) (l : EventLoop S) (a : Addr) (type : ℕ)
      → l.is_handle_pending ≡ false
      → IsQueue l []
      → 0 < e
      → 1 < fuel
      → do_channel_event d fuel grants true e l a type
        ≡ (elim (handle_change d
            (grants e)
            type
            a
            (record (channel_buffer_nolock e l a type) { is_handle_pending = true })) [
              | none ↦ none
              | some l' ↦ some (emptied l')
            ])
  unfolding apply_changes channel_buffer_nolock
  do_channel_event-handle_change fuel grants e l a type idle queue proper enough =
      let p = channel_buffer_nolock-Posted l [] e a type queue proper refl in
      let u = record (channel_buffer_nolock e l a type) { is_handle_pending = true } in
      (do_channel_event-queued d fuel grants l [] e a type idle queue proper refl enough).1
      ∙ ap
          (λ t. elim (apply_changes d ((grants e, t.0, t.1) ∷ []) u) [
            | none ↦ none
            | some l' ↦ some (emptied l')
          ])
          p.newest
      ∙ (elim (Option-cases (handle_change d (grants e) type a u)) [
        | inl stuck ↦ rw (stuck, apply_changes) refl
        | inr (l', done) ↦ rw (done, apply_changes) refl
      ])

  module _ (fuel : ℕ) (grants : Addr → Bool) (e : Addr) (l : EventLoop S) (a : Addr) where
    abbrev given : ℕ → EventLoop S
    given events = record l {
      channels = assign l.channels a (record (l.channels a) { events = events });
    }

    switch :
        (events : ℕ)
        → IsReady l a
        → 0 < e
        → 1 < fuel
        → Switched d l a events (do_channel_event d fuel grants true e (given events) a 3)
    unfolding channel_buffer_nolock
    switch events r proper enough =
        let l' = given events in
        let c = record (l.channels a) { events = events } in
        let self : l'.channels a ≡ c = assign_self l.channels a c in
        let queue' : IsQueue l' [] = record {
          chained = r.queue.chained;
          once = r.queue.once;
          tail = r.queue.tail;
        } in
        let p = channel_buffer_nolock-Posted l' [] e a 3 queue' proper refl in
        let q = channel_buffer_nolock e l' a 3 in
        let u = record q { is_handle_pending = true } in
        let at : q.channels a ≡ c = ap (λ t. t.2 a) p.same ∙ self in
        let mapped : q.channel_map ≡ l.channel_map = ap (λ t. t.1) p.same in
        let number : (q.channels a).fd ≡ (l.channels a).fd = ap (λ t. t.fd) at in
        let done =
          update_change (grants e) u a (ap is_negative number ∙ r.used)
            (rw (number, mapped) r.inside) (rw (number, mapped) r.there) in
        record {
          after = emptied (record q {
            event_dispatcher_data = d.update q.event_dispatcher_data (q.channels a);
          });
          returns =
              do_channel_event-handle_change fuel grants e l' a 3 r.idle queue' proper enough
              ∙ ap (λ t. elim t [ none ↦ none | some l'' ↦ some (emptied l'') ]) done;
          channel = at;
          others = λ b differ. ap (λ t. t.2 b) p.same ∙ assign_other l.channels a b c differ;
          told = ap (λ t. d.update t.0 (t.2 a)) p.same ∙ ap (d.update l.event_dispatcher_data) self;
          map = mapped;
          ready = record {
            idle = refl;
            queue = record { chained = refl; once = λ x. r.queue.once x; tail = refl };
            used = ap is_negative number ∙ r.used;
            inside = rw (number, mapped) r.inside;
            there = rw (number, mapped) r.there;
          };
        }

    pub enable-Switched :
        IsReady l a
        → 0 < e
        → 1 < fuel
        → Switched d l a
            (bit_or (l.channels a).events event_write)
            (channel_write_event_enable d fuel grants true e l a)
    unfolding channel_write_event_enable
    enable-Switched r proper enough =
        switch (bit_or (l.channels a).events event_write) r proper enough

    pub disable-Switched :
        IsReady l a
        → 0 < e
        → 1 < fuel
        → Switched d l a
            (bit_and (l.channels a).events 4294967291)
            (channel_write_event_disable d fuel grants true e l a)
    unfolding channel_write_event_disable
    disable-Switched r proper enough =
        switch (bit_and (l.channels a).events 4294967291) r proper enough

-- The test of the interest sees a change at once.
pub channel_write_event_is_enabled-on :
    (c : Channel)
    → channel_write_event_is_enabled (record c { events = bit_or c.events event_write }) ≡ true
unfolding channel_write_event_is_enabled
channel_write_event_is_enabled-on c = ap (λ n. not (n == 0)) (bit_or-four c.events)

pub channel_write_event_is_enabled-off :
    (c : Channel)
    → channel_write_event_is_enabled (record c { events = bit_and c.events 4294967291 }) ≡ false
unfolding channel_write_event_is_enabled
channel_write_event_is_enabled-off c = ap (λ n. not (n == 0)) (bit_and-clears_four c.events)
