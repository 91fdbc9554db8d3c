-- ===== src/Node/Session/Ordered.antt =====
-- The order of the messages on a data channel, and how the command loop keeps it.
use rtc_bridge.Prelude.{
  Bytes, List, Map, Option, [], ap, append_assoc, arith, if_cases, length, map, map-append, none,
  refl, some, some_injective, subst, sym, ◌++◌, ◌∙◌, ◌∷◌, ◌≡◌, ◌≤◌,
}
use rtc_bridge.Protocol.Crypto.{Crypto}
use rtc_bridge.Wire.{Codec}
use rtc_bridge.Node.Identity.{Identity}
use rtc_bridge.Node.Channel as Commands
use rtc_bridge.Node.Channel.{
  World, Output, After, goes_on, ends, bridges, no_session, trim_right, on_command, run_channel,
  prepend,
}
use rtc_bridge.Node.Bridge.{buf_size}
use rtc_bridge.Node.Bridge.Pipe.{IsPrefix}
use rtc_bridge.Node.Bridge.Invariant.{Inv, bridge-Inv}
use rtc_bridge.Node.Bridge.Refine.{to_conn}
use rtc_bridge.Node.Session.{
  Stage, commanded, bridged, ended, Channel, new_channel, take_command, round,
}

prepend-prepend :
    (a b : List Output) (r : Option (List Output × After))
    → prepend a (prepend b r) ≡ prepend (a ++ b) r
prepend-prepend a b none = refl
prepend-prepend a b (some (later, end)) = ap (λ l. some (l, end)) (sym (append_assoc a b later))

prepend-nil : (r : Option (List Output × After)) → r ≡ prepend [] r
prepend-nil none = refl
prepend-nil (some r) = refl

module _ (c : Crypto) (j : Codec) (quote : Bytes → Bytes) (id : Identity)
    (services : Map Bytes) where
  -- The commands that were taken, with what the world answered.
  abbrev Taken : List (Bytes × World) → Channel → Type 0
  Taken commands ch = map (λ m. m.0) commands ≡ ch.taken

  -- The loop goes on as if it had begun with these commands.
  abbrev Goes : Commands.Session → Channel → List (Bytes × World) → Type 0
  Goes s ch commands =
      (later : List (Bytes × World))
      → run_channel c j quote id services (commands ++ later) no_session
        ≡ prepend ch.out (run_channel c j quote id services later s)

  abbrev pub Ordered : Stage → Channel → Type 0
  Ordered (commanded s) ch =
      (ch.received ≡ ch.taken ++ ch.queue.buf)
      × (length ch.queue.buf ≤ buf_size)
      × ((commands : List (Bytes × World)) × Taken commands ch × Goes s ch commands)
  Ordered (bridged target) ch =
      (ch.received ≡ ch.taken ++ ch.queue.received)
      × Inv ch.queue
      × IsPrefix (to_conn ch.queue)
      × ((commands : List (Bytes × World)) × Taken commands ch
          × (run_channel c j quote id services commands no_session ≡ some (ch.out, bridges target)))
  Ordered ended ch = Unit

  pub new_channel-Ordered : Ordered new_channel.stage new_channel
  new_channel-Ordered = (
    refl,
    omega arith,
    ([], refl, λ later. prepend-nil (run_channel c j quote id services later no_session)),
  )

  -- One more command.
  Goes-further :
      (s s' : Commands.Session) (ch : Channel) (commands : List (Bytes × World)) (raw : Bytes)
      (w : World) (out : List Output) (later : List (Bytes × World))
      → Goes s ch commands
      → on_command c j quote id services w s (trim_right raw) ≡ some (out, goes_on s')
      → run_channel c j quote id services ((commands ++ (raw, w) ∷ []) ++ later) no_session
        ≡ prepend (ch.out ++ out) (run_channel c j quote id services later s')
  unfolding run_channel
  Goes-further s s' ch commands raw w out later goes e =
      ap (λ l. run_channel c j quote id services l no_session)
        (append_assoc commands ((raw, w) ∷ []) later)
      ∙ goes ((raw, w) ∷ later)
      ∙ ap (prepend ch.out) (rw (run_channel, e) refl)
      ∙ prepend-prepend ch.out out (run_channel c j quote id services later s')

  -- A last command.
  Goes-last :
      (s : Commands.Session) (ch : Channel) (commands : List (Bytes × World)) (raw target : Bytes)
      (w : World) (out : List Output)
      → Goes s ch commands
      → on_command c j quote id services w s (trim_right raw) ≡ some (out, bridges target)
      → run_channel c j quote id services (commands ++ (raw, w) ∷ []) no_session
        ≡ some (ch.out ++ out, bridges target)
  unfolding run_channel
  Goes-last s ch commands raw target w out goes e =
      let last : run_channel c j quote id services ((raw, w) ∷ []) s ≡ some (out, bridges target) =
        rw (run_channel, e) refl in
      goes ((raw, w) ∷ []) ∙ ap (prepend ch.out) last

  Taken-further :
      (ch : Channel) (commands : List (Bytes × World)) (raw : Bytes) (w : World)
      → Taken commands ch
      → map (λ (m : Bytes × World). m.0) (commands ++ (raw, w) ∷ []) ≡ ch.taken ++ raw ∷ []
  Taken-further ch commands raw w e =
      map-append (λ (m : Bytes × World). m.0) commands ((raw, w) ∷ []) ∙ ap (λ l. l ++ raw ∷ []) e

  take_command-Ordered :
      (w : World) (s : Commands.Session) (raw : Bytes) (rest : List Bytes)
      (r : Option (List Output × After)) (ch t : Channel)
      → on_command c j quote id services w s (trim_right raw) ≡ r
      → ch.queue.buf ≡ raw ∷ rest
      → Ordered (commanded s) ch
      → take_command raw rest r ch ≡ some t
      → Ordered t.stage t
  unfolding take_command
  take_command-Ordered w s raw rest none ch t e b v h = cc
  take_command-Ordered w s raw rest (some (out, goes_on s')) ch t e b
        (all, room, (commands, taken, goes)) h =
      subst (λ t. Ordered t.stage t) (some_injective h)
        (
          all ∙ ap (λ l. ch.taken ++ l) b ∙ sym (append_assoc ch.taken (raw ∷ []) rest),
          omega (arith, room, ap length b),
          (
            commands ++ (raw, w) ∷ [],
            Taken-further ch commands raw w taken,
            λ later. Goes-further s s' ch commands raw w out later goes e,
          ),
        )
  take_command-Ordered w s raw rest (some (out, ends)) ch t e b v h =
      subst (λ t. Ordered t.stage t) (some_injective h) tt
  take_command-Ordered w s raw rest (some (out, bridges target)) ch t e b
        (all, room, (commands, taken, goes)) h =
      subst (λ t. Ordered t.stage t) (some_injective h)
        (
          all ∙ ap (λ l. ch.taken ++ l) b ∙ sym (append_assoc ch.taken (raw ∷ []) rest),
          bridge-Inv rest ch.queue.buf_closed (omega (arith, room, ap length b)),
          (rest, refl),
          (
            commands ++ (raw, w) ∷ [],
            Taken-further ch commands raw w taken,
            Goes-last s ch commands raw target w out goes e,
          ),
        )

  pub round-Ordered :
      (w : World) (stage : Stage) (buf : List Bytes) (ch t : Channel)
      → ch.stage ≡ stage
      → ch.queue.buf ≡ buf
      → Ordered stage ch
      → round c j quote id services w stage buf ch ≡ some t
      → Ordered t.stage t
  unfolding round
  round-Ordered w (commanded s) [] ch t at b v h =
      subst (λ t. Ordered t.stage t) (some_injective h)
        (if_cases (λ (t : Channel). Ordered t.stage t) ch.queue.buf_closed (λ _. tt)
          (λ _. subst (λ stage. Ordered stage ch) (sym at) v))
  round-Ordered w (commanded s) (raw ∷ rest) ch t at b v h =
      take_command-Ordered w s raw rest _ ch t refl b v h
  round-Ordered w (bridged target) buf ch t at b v h =
      subst (λ t. Ordered t.stage t) (some_injective h)
        (subst (λ stage. Ordered stage ch) (sym at) v)
  round-Ordered w ended buf ch t at b v h =
      subst (λ t. Ordered t.stage t) (some_injective h)
        (subst (λ stage. Ordered stage ch) (sym at) v)
