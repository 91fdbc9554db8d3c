-- ===== src/Node/Channel/Loop.antt =====
-- The command loop over a sequence of messages.
use rtc_bridge.Prelude.{
  ==_iff, All, Bool-cases, Bytes, List, Map, Option, Option-cases, [], arith, bytes_eq, codes,
  false, inl, inr, length, lookup, none, refl, some, trim_prefix, ℕ, ◌%◌, ◌/◌, ◌==◌, ◌∙◌, ◌∷◌, ◌≡◌,
}
use rtc_bridge.Protocol.Crypto.{Crypto}
use rtc_bridge.Protocol.Registration.Payload.{xor_bytes_total}
use rtc_bridge.Wire.{Codec}
use rtc_bridge.Hex.{hex_encode, hex_decode, hex_digit}
use rtc_bridge.Node.Identity.{Identity}
use rtc_bridge.Node.Channel.Cases.{on_command_cases}
use rtc_bridge.Node.Channel.{
  Session, World, Output, After, goes_on, ends, bridges, on_challenge, on_opening, on_verify,
  on_connect, on_command, trim_right, is_line_end,
}

-- No line feed and no carriage return.
abbrev pub IsClean : Bytes → Type 0
IsClean = All (λ c. is_line_end c ≡ false)

pub trim_right-clean : (s : Bytes) → IsClean s → trim_right s ≡ s
unfolding trim_right
trim_right-clean [] h = refl
trim_right-clean (x ∷ []) h = rw h.0
trim_right-clean (x ∷ y ∷ s) h = rw (trim_right-clean (y ∷ s) h.1)

hex_digit-clean : (d : ℕ) → is_line_end (hex_digit d) ≡ false
unfolding hex_digit
hex_digit-clean d = ground arith

pub hex_encode-IsClean : (b : Bytes) → IsClean (hex_encode b)
unfolding hex_encode
hex_encode-IsClean [] = tt
hex_encode-IsClean (b ∷ bs) =
    (hex_digit-clean (b / 16), (hex_digit-clean (b % 16), hex_encode-IsClean bs))

-- What `rand.Read` fills has 32 bytes.
abbrev pub IsWorld : World → Type 0
IsWorld w = (r : Bytes) → w.random ≡ some r → length r ≡ 32

-- The two variables of the loop are set together, and the random value has 32 bytes.
abbrev pub IsSession : Session → Type 0
IsSession s = (r : Bytes) → s.r_node ≡ some r → length r ≡ 32

module _ (c : Crypto) (j : Codec) (quote : Bytes → Bytes) (id : Identity)
    (services : Map Bytes) where
  -- The session that a round of the loop goes on with.
  abbrev pub NextSession : Option (List Output × After) → Type 0
  NextSession none = ⊥
  NextSession (some (out, goes_on s)) = IsSession s
  NextSession (some (out, ends)) = Unit
  NextSession (some (out, bridges target)) = Unit

  on_challenge-NextSession :
      (w : World) (s : Session) (text : Bytes)
      → IsWorld w
      → IsSession s
      → NextSession (some (on_challenge c j quote id services w s text))
  unfolding on_challenge
  on_challenge-NextSession w s text good set = elim (Option-cases (hex_decode text)) [
    | inl e ↦ rw (e, on_challenge) set
    | inr (r, e) ↦ elim (Bool-cases (length r == 32)) [
      | inr short ↦ rw (e, on_challenge, short) set
      | inl long ↦ elim (Option-cases w.random) [
        | inl f ↦ rw (e, on_challenge, long, f) tt
        | inr (drawn, f) ↦ rw (e, on_challenge, long, f) (λ q g. good q (f ∙ g))
      ]
    ]
  ]

  on_opening-NextSession :
      (s : Session) (commitment r_node text : Bytes)
      → IsSession s
      → s.r_node ≡ some r_node
      → NextSession (on_opening c j quote id services s commitment r_node text)
  unfolding on_opening
  on_opening-NextSession s commitment r_node text set e = elim (Option-cases (hex_decode text)) [
    | inl f ↦ rw (f, on_opening) set
    | inr (r, f) ↦ elim (Bool-cases (length r == 32)) [
      | inr short ↦ rw (f, on_opening, short) set
      | inl long ↦ elim (Bool-cases (bytes_eq (c.sum256 r) commitment)) [
        | inr other ↦ rw (f, on_opening, long, other) (λ q g. cc)
        | inl same ↦
            let n : length r ≡ 32 = (==_iff (length r) 32).0 long in
            let m = set r_node e in
            let (joint, g, _) = xor_bytes_total (length r) r r_node (omega arith) (omega arith) in
            rw (f, on_opening, long, same, g) (λ q g. cc)
      ]
    ]
  ]

  on_verify-NextSession :
      (s : Session) (text : Bytes)
      → IsSession s
      → NextSession (on_verify c j quote id services s text)
  unfolding on_verify
  on_verify-NextSession s text set = elim (Option-cases s.commitment) [
    | inl e ↦ rw (e, on_verify) set
    | inr (commitment, e) ↦ elim (Option-cases s.r_node) [
      | inl f ↦ rw (e, on_verify, f) set
      | inr (r_node, f) ↦
          rw (e, on_verify, f) (on_opening-NextSession s commitment r_node text set f)
    ]
  ]

  on_connect-NextSession :
      (w : World) (text : Bytes) → NextSession (some (on_connect c j quote id services w text))
  unfolding on_connect
  on_connect-NextSession w text = elim (Option-cases (lookup text services)) [
    | inl e ↦ rw (e, on_connect) tt
    | inr (target, e) ↦ elim (Option-cases (w.dial_error target)) [
      | inl f ↦ rw (e, on_connect, f) tt
      | inr (failure, f) ↦ rw (e, on_connect, f) tt
    ]
  ]

  pub on_command-NextSession :
      (w : World) (s : Session) (text : Bytes)
      → IsWorld w
      → IsSession s
      → NextSession (on_command c j quote id services w s text)
  on_command-NextSession w s text good set =
      on_command_cases c j quote id services NextSession w s text set set
        (on_challenge-NextSession w s (trim_prefix text (codes "challenge ")) good set)
        (on_verify-NextSession s (trim_prefix text (codes "verify ")) set)
        (λ _. on_connect-NextSession w (trim_prefix text (codes "connect "))) set
