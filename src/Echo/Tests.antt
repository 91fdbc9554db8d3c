-- ===== src/Echo/Tests.antt =====
-- The echo server at concrete inputs.
use rtc_bridge.Prelude.{
  Bytes, List, [], bytes_eq, codes, false, inl, refl, some, true, ℕ, ◌+◌, ◌∷◌, ◌≡◌,
}
use rtc_bridge.Json.{text, read_object, first_other}
use rtc_bridge.Json.Samples.{holding, addr_object}
use rtc_bridge.Echo.{load_config, Line, handle, unknown_field}

-- A field that is not the address, and an address that is no string.
other_field :
    load_config (holding ((codes "port", text (codes "1")) ∷ addr_object (codes ":1"))) (some [])
    ≡ inl (unknown_field (codes "port"))
unfolding load_config read_object first_other bytes_eq
other_field = refl

abbrev lines : List Line
lines =
    record { line = codes "a"; time = codes "t1"; written = true }
    ∷ record { line = codes "b"; time = codes "t2"; written = false }
    ∷ record { line = codes "c"; time = codes "t3"; written = true }
    ∷ []

abbrev counted : ℕ → Bytes
counted n = (b'0' + n) ∷ []

two_replies :
    handle (λ s. s) counted lines ≡ codes "[t1] (1 bytes) a\r\n" ∷ codes "[t2] (1 bytes) b\r\n" ∷ []
unfolding handle
two_replies = refl
