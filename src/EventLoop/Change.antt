-- ===== src/EventLoop/Change.antt =====
-- What an addition, a removal and an update do to the channel map and to the array for poll.
use cpp_example_code.Base.{
  ℕ, ◌+◌, ◌<◌, ◌≡◌, refl, sym, ap, ◌∙◌, inl, inr, Bool, true, false, not, List, arith,
}
use mathlib.Core.Path.{subst}
use cpp_example_code.Base.Tests.{leb, ◌==◌, if◌then◌else◌, Bool-cases, ==→eq, ==_refl}
use cpp_example_code.Base.Lists.{get_or, set, length-set, get_or-set}
use cpp_example_code.Base.Occurs.{one_if}
use cpp_example_code.EventLoop.State.{Addr, null, is_negative, EventLoop}
use cpp_example_code.EventLoop.Map.{channel_at, map_make_space-Spacious}
use cpp_example_code.EventLoop.Poll.{
  PollFd, drop_fd, poll_events, poll_add, poll_del, poll_update, poll_dispatcher,
}
use cpp_example_code.EventLoop.Watch.{
  watching, free_places, asked, length-put_fd, length-drop_fd, length-set_events, watching-put_fd,
  watching-drop_fd, watching-set_events, asked-set_events, asked-set_events_other,
  asked-drop_fd_other, asked-put_fd_other, asked-put_fd,
}
use cpp_example_code.EventLoop.Ops.{
  pointer_size, handle_pending_add, handle_pending_remove, handle_pending_update, handle_change,
}
use cpp_example_code.EventLoop.Tracked.{Tracked, inside_array}
use cpp_example_code.EventLoop.Applied.{IsSound, adds, removes, updates, Applied}

module _ (rd wr : ℕ) where
  module _ (l : EventLoop (List PollFd)) (t : Tracked l) (a : Addr) where
    abbrev fd : ℕ
    fd = (l.channels a).fd

    update-Applied :
        (granted : Bool)
        → is_negative fd ≡ false
        → fd < l.channel_map.nentries
        → Applied rd wr granted 3 a l (handle_change (poll_dispatcher rd wr) granted 3 a l)
    unfolding handle_change handle_pending_update poll_update
    update-Applied granted used inside =
        let within : leb l.channel_map.nentries fd ≡ false = ground arith in
        elim (Bool-cases (channel_at l.channel_map fd == null)) [
          | inl empty ↦
              simp (used, within, empty)
                (record {
                  after = l;
                  returns = refl;
                  tracked = t;
                  maps = λ e q. refl;
                  refused = λ no. inl (λ q. refl);
                  updated = λ e there. absurd (ground (arith, empty, there));
                  added = λ e. absurd (omega (arith, e));
                  others = λ q ok differ. refl;
                  same = refl;
                })
          | inr full ↦
              simp (used, within, full)
                (record {
                  after = _;
                  returns = refl;
                  tracked = record {
                    formed = t.formed;
                    small = t.small;
                    width = length-set_events fd _ l.event_dispatcher_data ∙ t.width;
                    polled =
                        λ q ok. watching-set_events q fd _ l.event_dispatcher_data ∙ t.polled q ok;
                    owned = t.owned;
                  };
                  maps = λ e q. refl;
                  refused = λ no. inl (λ q. refl);
                  updated = λ e there.
                      asked-set_events fd _ l.event_dispatcher_data
                        (ground (arith, t.polled fd used, full));
                  added = λ e. absurd (omega (arith, e));
                  others =
                      λ q ok differ. asked-set_events_other q fd _ l.event_dispatcher_data differ;
                  same = refl;
                })
        ]

    remove-Applied :
        (granted : Bool)
        → is_negative fd ≡ false
        → (channel_at l.channel_map fd == null) ≡ false
        → Applied rd wr granted 2 a l (handle_change (poll_dispatcher rd wr) granted 2 a l)
    unfolding handle_change handle_pending_remove poll_del
    remove-Applied granted used there =
        let c = channel_at l.channel_map fd in
        let within = inside_array l t fd there in
        let reached : fd < l.channel_map.nentries = ground arith in
        let self : (fd == fd) ≡ true = ==_refl fd in
        let watched : 0 < watching fd l.event_dispatcher_data = ground (arith, t.polled fd used) in
        let entry : (q : ℕ)
            → get_or (set l.channel_map.entries fd null) q null
              ≡ (if fd == q then null else channel_at l.channel_map q) =
          λ q. get_or-set l.channel_map.entries fd q null null (omega (arith, t.formed)) in
        let mate : (l.channels c).fd ≡ fd = t.owned fd there in
        let dropped : (q : ℕ)
            → is_negative q ≡ false
            → watching q (drop_fd (l.channels c).fd l.event_dispatcher_data) + one_if (fd == q)
              ≡ watching q l.event_dispatcher_data =
          λ q ok.
            subst
              (λ n.
                watching q (drop_fd n l.event_dispatcher_data) + one_if (fd == q)
                ≡ watching q l.event_dispatcher_data)
              (sym mate) (watching-drop_fd q fd l.event_dispatcher_data ok watched) in
        simp (used, within, there, self)
          (record {
            after = record l {
              channel_map = record l.channel_map { entries = set l.channel_map.entries fd null };
              event_dispatcher_data = drop_fd (l.channels c).fd l.event_dispatcher_data;
            };
            returns = refl;
            tracked = record {
              formed = length-set l.channel_map.entries fd null ∙ t.formed;
              small = t.small;
              width = length-drop_fd (l.channels c).fd l.event_dispatcher_data ∙ t.width;
              polled = λ q ok. elim (Bool-cases (fd == q)) [
                | inl e ↦
                    let gone =
                      entry q ∙ ap (λ b. if b then null else channel_at l.channel_map q) e in
                    ground (arith, gone, dropped q ok, t.polled q ok)
                | inr e ↦
                    let kept =
                      entry q ∙ ap (λ b. if b then null else channel_at l.channel_map q) e in
                    ground (arith, kept, dropped q ok, t.polled q ok)
              ];
              owned = λ q full. elim (Bool-cases (fd == q)) [
                | inl e ↦
                    let gone =
                      entry q ∙ ap (λ b. if b then null else channel_at l.channel_map q) e in
                    absurd (ground (arith, gone))
                | inr e ↦
                    let kept =
                      entry q ∙ ap (λ b. if b then null else channel_at l.channel_map q) e in
                    ap (λ n. (l.channels n).fd) kept
                    ∙ t.owned q (sym (ap (λ n. n == null) kept) ∙ full)
              ];
            };
            maps = λ e q. entry q;
            refused = λ no. inl entry;
            updated = λ e. absurd (omega (arith, e));
            added = λ e. absurd (omega (arith, e));
            others = λ q ok differ.
                subst
                  (λ n.
                    asked q (drop_fd n l.event_dispatcher_data) ≡ asked q l.event_dispatcher_data)
                  (sym mate) (asked-drop_fd_other q fd l.event_dispatcher_data ok differ);
            same = refl;
          })

    add-Applied :
        (granted : Bool)
        → is_negative fd ≡ false
        → fd < 67108864
        → 0 < a
        → 0 < free_places l.event_dispatcher_data
        → Applied rd wr granted 1 a l (handle_change (poll_dispatcher rd wr) granted 1 a l)
    unfolding handle_change handle_pending_add poll_add
    add-Applied granted used bound proper room =
        let space =
          map_make_space-Spacious granted l.channel_map fd pointer_size t.formed bound t.small
            (omega arith) in
        elim (Bool-cases space.ok) [
          | inr denied ↦
              simp (used, space.returns, denied)
                (record {
                  after = l;
                  returns = refl;
                  tracked = t;
                  maps = λ e q. absurd (ground (arith, space.answered e));
                  refused = λ no. inr refl;
                  updated = λ e. absurd (omega (arith, e));
                  added = λ e vacant there. absurd (omega (arith, proper, vacant, there));
                  others = λ q ok differ. refl;
                  same = refl;
                })
          | inl granting ↦ elim (Bool-cases (channel_at space.after fd == null)) [
            | inl empty ↦
                let entry : (q : ℕ)
                    → get_or (set space.after.entries fd a) q null
                      ≡ (if fd == q then a else channel_at space.after q) =
                  λ q.
                    get_or-set space.after.entries fd q a null
                      (omega (arith, space.well_formed, space.room granting)) in
                let vacant : (q : ℕ) → (fd == q) ≡ true → channel_at l.channel_map q ≡ null = λ q e.
                  ap (channel_at l.channel_map) (sym (==→eq fd q e))
                  ∙ ground (arith, space.same fd) in
                simp (used, space.returns, granting, empty)
                  (record {
                    after = record l {
                      channel_map = record space.after { entries = set space.after.entries fd a };
                      event_dispatcher_data = poll_add rd wr l.event_dispatcher_data (l.channels a);
                    };
                    returns = refl;
                    tracked = record {
                      formed = length-set space.after.entries fd a ∙ space.well_formed;
                      small = space.sized;
                      width =
                          length-put_fd fd (poll_events rd wr (l.channels a).events)
                            l.event_dispatcher_data
                          ∙ t.width;
                      polled = λ q ok.
                          let watched =
                            watching-put_fd q fd (poll_events rd wr (l.channels a).events)
                              l.event_dispatcher_data ok room in
                          elim (Bool-cases (fd == q)) [
                            | inl e ↦ ground (arith, watched, entry q, t.polled q ok, vacant q e)
                            | inr e ↦ ground (arith, watched, entry q, t.polled q ok, space.same q)
                          ];
                      owned = λ q there. elim (Bool-cases (fd == q)) [
                        | inl e ↦
                            ap (λ n. (l.channels n).fd)
                              (entry q ∙ ap (λ b. if b then a else channel_at space.after q) e)
                            ∙ ==→eq fd q e
                        | inr e ↦
                            let at =
                              entry q
                              ∙ ap (λ b. if b then a else channel_at space.after q) e
                              ∙ space.same q in
                            ap (λ n. (l.channels n).fd) at
                            ∙ t.owned q (sym (ap (λ n. n == null) at) ∙ there)
                      ];
                    };
                    maps = λ e q. ground (arith, entry q, space.same q, space.same fd);
                    refused = λ no. inl (λ q. ground (arith, entry q, space.same q, space.same fd));
                    updated = λ e. absurd (omega (arith, e));
                    added = λ e vacant there.
                        asked-put_fd fd _ l.event_dispatcher_data
                          (ground (arith, t.polled fd used, vacant)) room;
                    others =
                        λ q ok differ. asked-put_fd_other q fd _ l.event_dispatcher_data ok differ;
                    same = refl;
                  })
            | inr full ↦
                simp (used, space.returns, granting, full)
                  (record {
                    after = record l { channel_map = space.after };
                    returns = refl;
                    tracked = record {
                      formed = space.well_formed;
                      small = space.sized;
                      width = t.width;
                      polled = λ q ok.
                          t.polled q ok ∙ ap (λ n. one_if (not (n == null))) (sym (space.same q));
                      owned = λ q there.
                          ap (λ n. (l.channels n).fd) (space.same q)
                          ∙ t.owned q (sym (ap (λ n. n == null) (space.same q)) ∙ there);
                    };
                    maps = λ e q. ground (arith, space.same q, space.same fd);
                    refused = λ no. inl (λ q. ground (arith, space.same q, space.same fd));
                    updated = λ e. absurd (omega (arith, e));
                    added = λ e vacant there. absurd (ground (arith, full, vacant, space.same fd));
                    others = λ q ok differ. refl;
                    same = refl;
                  })
          ]
        ]

  pub handle_change-Applied :
      (granted : Bool) (type : ℕ) (a : Addr) (l : EventLoop (List PollFd))
      → Tracked l
      → IsSound l a type
      → Applied rd wr granted type a l (handle_change (poll_dispatcher rd wr) granted type a l)
  handle_change-Applied granted _ a l t (adds used bound proper room) =
      add-Applied l t a granted used bound proper room
  handle_change-Applied granted _ a l t (removes used there) =
      remove-Applied l t a granted used there
  handle_change-Applied granted _ a l t (updates used inside) =
      update-Applied l t a granted used inside
