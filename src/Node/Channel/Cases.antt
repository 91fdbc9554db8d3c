-- ===== src/Node/Channel/Cases.antt =====
-- The ways that a round of the command loop can go.
use rtc_bridge.Prelude.{
  Bool-cases, Bytes, List, Map, Option, [], bytes_eq, codes, has_prefix, inl, inr, some,
  sort_strings, trim_prefix, true, ◌++◌, ◌∷◌, ◌≡◌,
}
use rtc_bridge.Protocol.Crypto.{Crypto}
use rtc_bridge.Wire.{Codec}
use rtc_bridge.Node.Identity.{Identity}
use rtc_bridge.Node.Channel.{
  Session, World, Output, text_out, binary_out, After, goes_on, service_names, on_challenge,
  on_verify, on_connect, on_command,
}

pub on_command_cases {ℓ} :
    (c : Crypto) (j : Codec) (quote : Bytes → Bytes) (id : Identity) (services : Map Bytes)
    (P : Option (List Output × After) → Type ℓ) (w : World) (s : Session) (text : Bytes)
    → P (some (text_out (codes "pong") ∷ [], goes_on s))
    → P (some (binary_out (j.encode_names (sort_strings (service_names services))) ∷ [], goes_on s))
    → P (some (on_challenge c j quote id services w s (trim_prefix text (codes "challenge "))))
    → P (on_verify c j quote id services s (trim_prefix text (codes "verify ")))
    → (has_prefix text (codes "connect ") ≡ true
        → P (some (on_connect c j quote id services w (trim_prefix text (codes "connect ")))))
    → P (some (text_out (codes "err: unknown command " ++ quote text) ∷ [], goes_on s))
    → P (on_command c j quote id services w s text)
unfolding on_command
on_command_cases c j quote id services P w s text ping list challenge verify connect unknown =
    elim (Bool-cases (bytes_eq text (codes "ping"))) [
      | inl e ↦ rw (e, on_command) ping
      | inr e ↦ elim (Bool-cases (bytes_eq text (codes "list"))) [
        | inl f ↦ rw (e, f, on_command) list
        | inr f ↦ elim (Bool-cases (has_prefix text (codes "challenge "))) [
          | inl g ↦ rw (e, f, g, on_command) challenge
          | inr g ↦ elim (Bool-cases (has_prefix text (codes "verify "))) [
            | inl k ↦ rw (e, f, g, k, on_command) verify
            | inr k ↦ elim (Bool-cases (has_prefix text (codes "connect "))) [
              | inl l ↦ rw (e, f, g, k, l, on_command) (connect l)
              | inr l ↦ rw (e, f, g, k, l, on_command) unknown
            ]
          ]
        ]
      ]
    ]
