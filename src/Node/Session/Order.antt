-- ===== src/Node/Session/Order.antt =====
-- The order of what a client sends over a data channel.
use rtc_bridge.Prelude.{
  Bytes, List, Map, Option-cases, [], ap, append_assoc, inl, inr, lookup, map, refl, some,
  some_injective, subst, sym, true, ◌++◌, ◌∙◌, ◌∷◌, ◌≡◌,
}
use rtc_bridge.Protocol.Crypto.{Crypto}
use rtc_bridge.Wire.{Codec}
use rtc_bridge.Node.Identity.{Identity}
use rtc_bridge.Node.Channel as Commands
use rtc_bridge.Node.Channel.{
  World, Output, After, goes_on, ends, bridges, no_session, trim_right, on_command, run_channel,
  prepend,
}
use rtc_bridge.Node.Channel.Bridging.{target_of, run_channel-bridges}
use rtc_bridge.Node.Bridge.{Bridge, Event, step}
use rtc_bridge.Node.Bridge.Pipe.{Reach-IsPrefix}
use rtc_bridge.Node.Bridge.Invariant.{step-Inv, is_running}
use rtc_bridge.Node.Bridge.Refine.{step-Follows}
use rtc_bridge.Node.Session.Ordered.{Ordered, new_channel-Ordered, round-Ordered}
use rtc_bridge.Node.Session.News.{on_queue-news, step-news}
use rtc_bridge.Node.Session.{
  Stage, commanded, bridged, ended, Channel, new_channel, Move, rounds, occurs, news, on_queue,
  occur, move, moves,
}

append_cancel : (a b d : List Bytes) → a ++ b ≡ a ++ d → b ≡ d
append_cancel [] b d e = e
append_cancel (x ∷ a) b d e = append_cancel a b d (cc e)

module _ (c : Crypto) (j : Codec) (quote : Bytes → Bytes) (id : Identity)
    (services : Map Bytes) where
  -- A handler of the channel, while no bridge runs.
  on_queue-Ordered :
      (s : Commands.Session) (e : Event) (ch : Channel) (q : Bridge)
      → Ordered c j quote id services (commanded s) ch
      → on_queue e ch.queue ≡ some q
      → Ordered c j quote id services
          (commanded s)
          (record ch { queue = q; received = ch.received ++ news e ch.queue })
  on_queue-Ordered s e ch q (all, room, loop) h =
      let (put, fits) = on_queue-news e ch.queue q room h in
      (
        ap (λ l. l ++ news e ch.queue) all
            ∙ append_assoc ch.taken ch.queue.buf (news e ch.queue)
            ∙ ap (λ l. ch.taken ++ l) (sym put),
        fits,
        loop,
      )

  step-Ordered :
      (target : Bytes) (e : Event) (ch : Channel) (q : Bridge)
      → Ordered c j quote id services (bridged target) ch
      → step e ch.queue ≡ some q
      → Ordered c j quote id services
          (bridged target)
          (record ch { queue = q; received = ch.received ++ news e ch.queue })
  step-Ordered target e ch q (all, v, began, done) h = (
    ap (λ l. l ++ news e ch.queue) all
        ∙ append_assoc ch.taken ch.queue.received (news e ch.queue)
        ∙ ap (λ l. ch.taken ++ l) (sym (step-news e ch.queue q h)),
    step-Inv e ch.queue q v h,
    Reach-IsPrefix (step-Follows e ch.queue q v h).0 began,
    done,
  )

  occur-Ordered :
      (e : Event) (stage : Stage) (ch : Channel) (q : Bridge)
      → Ordered c j quote id services stage ch
      → occur e stage ch.queue ≡ some q
      → Ordered c j quote id services stage
          (record ch { queue = q; received = ch.received ++ news e ch.queue })
  unfolding occur
  occur-Ordered e (commanded s) ch q v h = on_queue-Ordered s e ch q v h
  occur-Ordered e (bridged target) ch q v h = step-Ordered target e ch q v h
  occur-Ordered e ended ch q v h = tt

  move-Ordered :
      (m : Move) (ch t : Channel)
      → Ordered c j quote id services ch.stage ch
      → move c j quote id services m ch ≡ some t
      → Ordered c j quote id services t.stage t
  unfolding move
  move-Ordered (rounds w) ch t v h =
      round-Ordered c j quote id services w ch.stage ch.queue.buf ch t refl refl v h
  move-Ordered (occurs e) ch t v h = elim (Option-cases (occur e ch.stage ch.queue)) [
    | inl stops ↦ let is = rw (move, stops) at h in cc
    | inr (q, goes) ↦
        subst (λ t. Ordered c j quote id services t.stage t) (some_injective (rw (move, goes) at h))
          (occur-Ordered e ch.stage ch q v goes)
  ]

  moves-Ordered :
      (ms : List Move) (ch t : Channel)
      → Ordered c j quote id services ch.stage ch
      → moves c j quote id services ms ch ≡ some t
      → Ordered c j quote id services t.stage t
  unfolding moves
  moves-Ordered [] ch t v h =
      subst (λ t. Ordered c j quote id services t.stage t) (some_injective h) v
  moves-Ordered (m ∷ ms) ch t v h = elim (Option-cases (move c j quote id services m ch)) [
    | inl stops ↦ let is = rw (moves, stops) at h in cc
    | inr (u, goes) ↦ moves-Ordered ms u t (move-Ordered m ch u v goes) (rw (moves, goes) at h)
  ]

  -- After any events on a data channel that have started a bridge to a target: what was put into `buf`
  -- is, in this order, the messages that the command loop took, those written to the service, and a
  -- rest, which is what is in `buf` while the writing goroutine runs. The loop has done with the
  -- messages that it took what `run_channel` does, and the target is that of a configured service.
  pub moves-bridged :
      (ms : List Move) (t : Channel) (target : Bytes)
      → moves c j quote id services ms new_channel ≡ some t
      → t.stage ≡ bridged target
      → ((rest : List Bytes) × (t.received ≡ t.taken ++ (t.queue.written ++ rest))
          × (is_running t.queue.writer ≡ true → rest ≡ t.queue.buf))
        × ((commands : List (Bytes × World)) × (map (λ m. m.0) commands ≡ t.taken)
            × (run_channel c j quote id services commands no_session
                ≡ some (t.out, bridges target)))
        × ((name : Bytes) × (lookup name services ≡ some target))
  moves-bridged ms t target h at =
      let v = moves-Ordered ms new_channel t (new_channel-Ordered c j quote id services) h in
      let (all, inv, (rest, began), (commands, taken, ran)) =
        subst (λ stage. Ordered c j quote id services stage t) at v in
      (
        (
          rest,
          all ∙ ap (λ l. t.taken ++ l) began,
          λ runs. append_cancel t.queue.written rest t.queue.buf (sym began ∙ inv.waiting runs),
        ),
        (commands, taken, ran),
        run_channel-bridges c j quote id services commands no_session target (ap target_of ran),
      )
