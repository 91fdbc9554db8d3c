-- ===== src/Node/Channel/Bridging.antt =====
-- The command `connect`: which targets a channel is bridged to.
use rtc_bridge.Prelude.{
  Bytes, List, Map, Option, [], append-trim_prefix, arith, codes, inl, inr, lookup, none, refl,
  some, sym, trim_prefix, ◌++◌, ◌∙◌, ◌∷◌, ◌≡◌, ◌⊎◌,
}
use rtc_bridge.Protocol.Crypto.{Crypto}
use rtc_bridge.Wire.{Codec}
use rtc_bridge.Node.Identity.{Identity}
use rtc_bridge.Node.Channel.{
  Session, World, Output, After, goes_on, ends, bridges, on_challenge, on_opening, on_verify,
  on_connect, on_command, run_channel, trim_right, prepend,
}
use rtc_bridge.Node.Channel.Cases.{on_command_cases}

-- The target of the bridge that a result starts.
abbrev pub target_of : Option (List Output × After) → Option Bytes
target_of none = none
target_of (some (out, goes_on s)) = none
target_of (some (out, ends)) = none
target_of (some (out, bridges target)) = some target

target_of-prepend :
    (out : List Output) (r : Option (List Output × After)) → target_of (prepend out r) ≡ target_of r
target_of-prepend out none = refl
target_of-prepend out (some (later, goes_on s)) = refl
target_of-prepend out (some (later, ends)) = refl
target_of-prepend out (some (later, bridges target)) = refl

module _ (c : Crypto) (j : Codec) (quote : Bytes → Bytes) (id : Identity)
    (services : Map Bytes) where
  target_of-on_challenge :
      (w : World) (s : Session) (text : Bytes)
      → target_of (some (on_challenge c j quote id services w s text)) ≡ none
  unfolding on_challenge
  target_of-on_challenge w s text = ground arith

  target_of-on_opening :
      (s : Session) (commitment r_node text : Bytes)
      → target_of (on_opening c j quote id services s commitment r_node text) ≡ none
  unfolding on_opening
  target_of-on_opening s commitment r_node text = ground arith

  target_of-on_verify :
      (s : Session) (text : Bytes) → target_of (on_verify c j quote id services s text) ≡ none
  unfolding on_verify
  target_of-on_verify s text = ground (arith, target_of-on_opening s)

  target_of-on_connect :
      (w : World) (name target : Bytes)
      → target_of (some (on_connect c j quote id services w name)) ≡ some target
      → (lookup name services ≡ some target) × (w.dial_error target ≡ none)
  unfolding on_connect
  target_of-on_connect w name target h = ground arith

  -- A message starts a bridge only if it is `connect` with the name of a configured service, to that
  -- service's target, and only if the dial succeeded.
  on_command-bridges :
      (w : World) (s : Session) (text target : Bytes)
      → target_of (on_command c j quote id services w s text) ≡ some target
      → (name : Bytes) × (text ≡ codes "connect " ++ name)
        × (lookup name services ≡ some target)
        × (w.dial_error target ≡ none)
  on_command-bridges w s text target =
      on_command_cases c j quote id services
        (λ r.
          target_of r ≡ some target
          → (name : Bytes) × (text ≡ codes "connect " ++ name)
            × (lookup name services ≡ some target)
            × (w.dial_error target ≡ none))
        w s text (λ h. absurd (cc)) (λ h. absurd (cc))
        (λ h. absurd (cc (target_of-on_challenge w s (trim_prefix text (codes "challenge ")), h)))
        (λ h. absurd (cc (target_of-on_verify s (trim_prefix text (codes "verify ")), h)))
        (λ starts h.
          let name = trim_prefix text (codes "connect ") in
          let (found, dialled) = target_of-on_connect w name target h in
          (name, append-trim_prefix text (codes "connect ") starts, found, dialled))
        (λ h. absurd (cc))

  target_of-round :
      (messages : List (Bytes × World)) (raw : Bytes) (w : World) (s : Session)
      (r : Option (List Output × After)) (target : Bytes)
      → on_command c j quote id services w s (trim_right raw) ≡ r
      → target_of (run_channel c j quote id services ((raw, w) ∷ messages) s) ≡ some target
      → (target_of r ≡ some target)
        ⊎ ((s' : Session) × (target_of (run_channel c j quote id services messages s')
              ≡ some target))
  unfolding run_channel
  target_of-round messages raw w s none target e h = inl (rw (e, run_channel) at h)
  target_of-round messages raw w s (some (out, goes_on s')) target e h =
      inr (s', sym (target_of-prepend out _) ∙ (rw (e, run_channel) at h))
  target_of-round messages raw w s (some (out, ends)) target e h = inl (rw (e, run_channel) at h)
  target_of-round messages raw w s (some (out, bridges t)) target e h =
      inl (rw (e, run_channel) at h)

  -- However a client drives an open data channel, it is bridged only to the target of a configured
  -- service.
  pub run_channel-bridges :
      (messages : List (Bytes × World)) (s : Session) (target : Bytes)
      → target_of (run_channel c j quote id services messages s) ≡ some target
      → (name : Bytes) × (lookup name services ≡ some target)
  unfolding run_channel
  run_channel-bridges [] s target h = absurd (cc)
  run_channel-bridges ((raw, w) ∷ messages) s target h =
      elim (target_of-round messages raw w s _ target refl h) [
        | inl here ↦
            let (name, _, found, _) = on_command-bridges w s (trim_right raw) target here in
            (name, found)
        | inr (s', later) ↦ run_channel-bridges messages s' target later
      ]
