-- ===== src/Browser/Connect.antt =====
-- Browser and node: both leave the commands for the bridge, or neither does.
use rtc_bridge.Prelude.{
  Bytes, List, Map, Option, Option-cases, [], ap, bytes_eq, codes, false, has_prefix, inl, inr,
  lookup, refl, some, subst, sym, trim_prefix-append, true, ◌++◌, ◌↔◌, ◌∙◌, ◌∷◌, ◌≡◌,
}
use rtc_bridge.Protocol.Crypto.{Crypto}
use rtc_bridge.Wire.{Codec}
use rtc_bridge.Node.Identity.{Identity}
use rtc_bridge.Node.Channel.{
  Session, World, Output, text_out, close_out, After, bridges, ends, on_connect, on_command,
  trim_right, run_channel,
}
use rtc_bridge.Client.Handshake.{first_text}
use rtc_bridge.Browser.{Channel, send_cmd, connect}

module _ (c : Crypto) (j : Codec) (quote : Bytes → Bytes) (id : Identity)
    (services : Map Bytes) where
  on_command-connect :
      (w : World) (s : Session) (svc : Bytes)
      → on_command c j quote id services w s (codes "connect " ++ svc)
        ≡ some (on_connect c j quote id services w svc)
  unfolding on_command bytes_eq has_prefix
  on_command-connect w s svc = rw (trim_prefix-append (codes "connect ") svc) refl

  -- The browser's channel leaves the commands exactly if the node's bridge starts, to a service of
  -- that name.
  abbrev pub Agrees : Bytes → Channel → Option (List Output × After) → Type 0
  Agrees svc ch r = ((connect svc ch (first_text r)).1.connected ≡ true) ↔ (
      (target : Bytes) × (out : List Output) × (r ≡ some (out, bridges target))
      × (lookup svc services ≡ some target))

  refused-Agrees :
      (svc text : Bytes) (out : List Output) (ch : Channel)
      → ch.connected ≡ false
      → bytes_eq text (codes "ok") ≡ false
      → Agrees svc ch (some (text_out text ∷ out, ends))
  unfolding connect send_cmd
  refused-Agrees svc text out ch idle refused = (
    λ h. let is = rw (connect, send_cmd, idle, refused) at h in cc is,
    λ (target, out, e, found). cc e,
  )

  accepted-Agrees :
      (svc target : Bytes) (ch : Channel)
      → ch.connected ≡ false
      → lookup svc services ≡ some target
      → Agrees svc ch (some (text_out (codes "ok") ∷ [], bridges target))
  unfolding connect send_cmd bytes_eq
  accepted-Agrees svc target ch idle found = (
    λ h. (target, text_out (codes "ok") ∷ [], refl, found),
    λ h. rw (connect, send_cmd, idle) refl,
  )

  -- Trimming leaves the command as it is.
  trim_right-connect :
      (svc : Bytes)
      → trim_right svc ≡ svc
      → trim_right (codes "connect " ++ svc) ≡ codes "connect " ++ svc
  unfolding trim_right
  trim_right-connect [] whole = refl
  trim_right-connect (x ∷ svc) whole = rw whole refl

  on_command-trimmed :
      (w : World) (s : Session) (svc : Bytes)
      → trim_right svc ≡ svc
      → on_command c j quote id services w s (trim_right (codes "connect " ++ svc))
        ≡ some (on_connect c j quote id services w svc)
  on_command-trimmed w s svc whole =
      ap (on_command c j quote id services w s) (trim_right-connect svc whole)
      ∙ on_command-connect w s svc

  -- A command that ends the loop, and how it ends.
  run_channel-ends :
      (raw : Bytes) (w : World) (messages : List (Bytes × World)) (s : Session) (out : List Output)
      → on_command c j quote id services w s (trim_right raw) ≡ some (out, ends)
      → run_channel c j quote id services ((raw, w) ∷ messages) s ≡ some (out, ends)
  unfolding run_channel
  run_channel-ends raw w messages s out e = rw (e, run_channel) refl

  run_channel-bridges :
      (raw : Bytes) (w : World) (messages : List (Bytes × World)) (s : Session) (out : List Output)
      (target : Bytes)
      → on_command c j quote id services w s (trim_right raw) ≡ some (out, bridges target)
      → run_channel c j quote id services ((raw, w) ∷ messages) s ≡ some (out, bridges target)
  unfolding run_channel
  run_channel-bridges raw w messages s out target e = rw (e, run_channel) refl

  run_channel-Agrees :
      (w : World) (messages : List (Bytes × World)) (s : Session) (svc : Bytes) (ch : Channel)
      → trim_right svc ≡ svc
      → ch.connected ≡ false
      → Agrees svc ch
          (run_channel c j quote id services ((codes "connect " ++ svc, w) ∷ messages) s)
  unfolding on_connect bytes_eq
  run_channel-Agrees w messages s svc ch whole idle =
      let raw = codes "connect " ++ svc in
      let runs = run_channel c j quote id services ((raw, w) ∷ messages) s in
      let does = on_command-trimmed w s svc whole in
      let by = λ (r : List Output × After) (e : runs ≡ some r). subst (Agrees svc ch) (sym e) in
      elim (Option-cases (lookup svc services)) [
        | inl unknown ↦
            let text = codes "err: unknown service " ++ quote svc in
            let out = text_out text ∷ close_out ∷ [] in
            by (out, ends)
              (run_channel-ends raw w messages s out
                (does ∙ ap some (rw (on_connect, unknown) refl)))
              (refused-Agrees svc text (close_out ∷ []) ch idle refl)
        | inr (target, found) ↦ elim (Option-cases (w.dial_error target)) [
          | inr (failure, fails) ↦
              let text = codes "err: dial failed: " ++ failure in
              let out = text_out text ∷ close_out ∷ [] in
              by (out, ends)
                (run_channel-ends raw w messages s out
                  (does ∙ ap some (rw (on_connect, found, fails) refl)))
                (refused-Agrees svc text (close_out ∷ []) ch idle refl)
          | inl dials ↦
              let out = text_out (codes "ok") ∷ [] in
              by (out, bridges target)
                (run_channel-bridges raw w messages s out target
                  (does ∙ ap some (rw (on_connect, found, dials) refl)))
                (accepted-Agrees svc target ch idle found)
        ]
      ]

-- Browser and node agree about the end of the commands: for a channel on which no `connect` has
-- succeeded, a service name that ends in no carriage return or line feed, and the node's command loop
-- in any state, after the browser has sent `connect` with the name and taken the loop's reply, the
-- channel is in pipe mode exactly if the loop ends with a bridge, to the target of the service of that
-- name.
pub connect-Agrees :
    (c : Crypto) (j : Codec) (quote : Bytes → Bytes) (id : Identity) (services : Map Bytes)
    (w : World) (messages : List (Bytes × World)) (s : Session) (svc : Bytes) (ch : Channel)
    → trim_right svc ≡ svc
    → ch.connected ≡ false
    → Agrees c j quote id services svc ch
        (run_channel c j quote id services ((codes "connect " ++ svc, w) ∷ messages) s)
connect-Agrees c j quote id services w messages s svc ch whole idle =
    run_channel-Agrees c j quote id services w messages s svc ch whole idle
