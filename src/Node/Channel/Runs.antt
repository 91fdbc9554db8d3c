-- ===== src/Node/Channel/Runs.antt =====
-- Whole runs of the command loop.
use rtc_bridge.Prelude.{All, Bytes, List, Map, Option, [], none, refl, some, ◌∷◌, ◌≡◌, ◌≢◌}
use rtc_bridge.Protocol.Crypto.{Crypto}
use rtc_bridge.Wire.{Codec}
use rtc_bridge.Node.Identity.{Identity}
use rtc_bridge.Node.Channel.{
  Session, no_session, World, Output, After, goes_on, ends, bridges, on_command, run_channel,
  trim_right, prepend,
}
use rtc_bridge.Node.Channel.Loop.{IsWorld, IsSession, NextSession, on_command-NextSession}

prepend-returns :
    (out : List Output) (r : Option (List Output × After)) → r ≢ none → prepend out r ≢ none
prepend-returns out none h e = h refl
prepend-returns out (some (later, end)) h e = cc

module _ (c : Crypto) (j : Codec) (quote : Bytes → Bytes) (id : Identity)
    (services : Map Bytes) where
  round-returns :
      (messages : List (Bytes × World)) (raw : Bytes) (w : World) (s : Session)
      (r : Option (List Output × After))
      → on_command c j quote id services w s (trim_right raw) ≡ r
      → NextSession c j quote id services r
      → ((s' : Session) → IsSession s' → run_channel c j quote id services messages s' ≢ none)
      → run_channel c j quote id services ((raw, w) ∷ messages) s ≢ none
  unfolding run_channel
  round-returns messages raw w s none e next ih h = next
  round-returns messages raw w s (some (out, goes_on s')) e next ih h =
      prepend-returns out _ (ih s' next) (rw (e, run_channel) at h)
  round-returns messages raw w s (some (out, ends)) e next ih h = cc (rw (e, run_channel) at h)
  round-returns messages raw w s (some (out, bridges target)) e next ih h =
      cc (rw (e, run_channel) at h)

  run_channel-ne-none :
      (messages : List (Bytes × World)) (s : Session)
      → All (λ m. IsWorld m.1) messages
      → IsSession s
      → run_channel c j quote id services messages s ≢ none
  unfolding run_channel
  run_channel-ne-none [] s good set h = cc
  run_channel-ne-none ((raw, w) ∷ messages) s good set h =
      round-returns messages raw w s _ refl
        (on_command-NextSession c j quote id services w s (trim_right raw) good.0 set)
        (λ s' set'. run_channel-ne-none messages s' good.1 set') h

  -- Whatever messages a client sends over an open data channel, the command loop does not panic: in
  -- `verify` the two values that are joined have the same length.
  pub run_channel-returns :
      (messages : List (Bytes × World))
      → All (λ m. IsWorld m.1) messages
      → run_channel c j quote id services messages no_session ≢ none
  run_channel-returns messages good = run_channel-ne-none messages no_session good (λ r e. cc)
