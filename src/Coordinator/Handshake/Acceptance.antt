-- ===== src/Coordinator/Handshake/Acceptance.antt =====
-- When the coordinator accepts a node.
use rtc_bridge.Prelude.{
  Bool, Bytes, List, Option, Option-cases, arith, bytes_eq, bytes_eq_iff, false, inl, inr, none,
  refl, some, true, ◌↔◌, ◌≡◌, ◌≢◌,
}
use rtc_bridge.Protocol.Messages.{HelloMsg, RegisterMsg, msg_hello, msg_register}
use rtc_bridge.Protocol.Crypto.{Crypto, IsDigest}
use rtc_bridge.Protocol.Registration.{verify_hello, verify_registration}
use rtc_bridge.Protocol.Registration.Proof.{
  IsProved, verify_registration_iff, verify_registration_returns,
}
use rtc_bridge.Wire.{Codec}
use rtc_bridge.Coordinator.Handshake.{accepted, read_register, send_challenge, handshake}

-- What an accepted handshake shows: a hello whose node id is that of its public key, and a register
-- message with a proof for that hello's commitment and the coordinator's random value.
pub record IsAccepted (c : Crypto) (j : Codec) (first random second : Option Bytes)
    (reg : RegisterMsg) : Type 0 where
  pub raw_hello : Bytes
  pub raw_register : Bytes
  pub r_coord : Bytes
  pub hello : HelloMsg
  pub read_first : first ≡ some raw_hello
  pub read_random : random ≡ some r_coord
  pub read_second : second ≡ some raw_register
  pub decoded_hello : j.decode_hello raw_hello ≡ some hello
  pub decoded_register : j.decode_register raw_register ≡ some reg
  pub kind_hello : hello.kind ≡ msg_hello
  pub kind_register : reg.kind ≡ msg_register
  pub verified : verify_hello c hello ≡ true
  pub proved : IsProved c reg hello.commitment r_coord

module _ {c : Crypto} (d : IsDigest c) (j : Codec) where
  read_register-accepted :
      (hello : HelloMsg) (r_coord : Bytes) (second : Option Bytes) (reg : RegisterMsg)
      → read_register c j hello r_coord second ≡ some (accepted reg)
      → (raw : Bytes) × (second ≡ some raw)
        × (j.decode_register raw ≡ some reg)
        × (reg.kind ≡ msg_register)
        × (verify_registration c reg hello.commitment r_coord ≡ some true)
  unfolding read_register
  read_register-accepted hello r_coord none reg h = cc
  read_register-accepted hello r_coord (some raw) reg h =
      elim (Option-cases (j.decode_register raw)) [
        | inl e ↦ ground arith
        | inr (m, e) ↦ (
          raw,
          refl,
          ground arith,
          ground (arith, bytes_eq_iff m.kind msg_register),
          ground arith,
        )
      ]

  handshake_sound :
      (first random second : Option Bytes) (reg : RegisterMsg)
      → handshake c j first random true second ≡ some (accepted reg)
      → IsAccepted c j first random second reg
  unfolding handshake send_challenge
  handshake_sound none random second reg h = cc
  handshake_sound (some raw) none second reg h = elim (Option-cases (j.decode_hello raw)) [
    | inl e ↦ ground arith
    | inr (m, e) ↦ absurd (ground arith)
  ]
  handshake_sound (some raw) (some r_coord) second reg h =
      elim (Option-cases (j.decode_hello raw)) [
        | inl e ↦ ground arith
        | inr (m, e) ↦
            let k : bytes_eq m.kind msg_hello ≡ true = ground arith in
            let v : verify_hello c m ≡ true = ground arith in
            let (raw', read, decoded, kind, valid) =
              read_register-accepted m r_coord second reg (ground arith) in
            record {
              raw_hello = raw;
              raw_register = raw';
              r_coord = r_coord;
              hello = m;
              read_first = refl;
              read_random = refl;
              read_second = read;
              decoded_hello = e;
              decoded_register = decoded;
              kind_hello = (bytes_eq_iff m.kind msg_hello).0 k;
              kind_register = kind;
              verified = v;
              proved = (verify_registration_iff d reg m.commitment r_coord).0 valid;
            }
      ]

  handshake_complete :
      (first random second : Option Bytes) (reg : RegisterMsg)
      → IsAccepted c j first random second reg
      → handshake c j first random true second ≡ some (accepted reg)
  unfolding handshake send_challenge read_register
  handshake_complete first random second reg a =
      rw (a.read_first, a.read_random, a.read_second)
        (ground (
          arith,
          a.decoded_hello,
          a.decoded_register,
          (verify_registration_iff d reg a.hello.commitment a.r_coord).1 a.proved,
          bytes_eq_iff a.hello.kind msg_hello,
          bytes_eq_iff reg.kind msg_register,
        ))

  -- Where the challenge is written, the handshake accepts a register message exactly when the hello
  -- and the register message are what `IsAccepted` asks for, whatever the three inputs are.
  pub handshake_iff :
      (first random second : Option Bytes) (reg : RegisterMsg)
      → (handshake c j first random true second ≡ some (accepted reg))
        ↔ IsAccepted c j first random second reg
  handshake_iff first random second reg =
      (handshake_sound first random second reg, handshake_complete first random second reg)

  -- The node id of the register message is checked against nothing: whoever is accepted with one
  -- register message is accepted, with the same hello and challenge, with any other node id and any
  -- other services in it.
  pub handshake_ignores_node_id :
      (first random second : Option Bytes) (reg : RegisterMsg) (raw id : Bytes)
      (services : List Bytes)
      → handshake c j first random true second ≡ some (accepted reg)
      → j.decode_register raw ≡ some (record reg { node_id = id; services = services })
      → handshake c j first random true (some raw)
        ≡ some (accepted (record reg { node_id = id; services = services }))
  handshake_ignores_node_id first random second reg raw id services h decoded =
      let a = handshake_sound first random second reg h in
      handshake_complete first random (some raw) (record reg { node_id = id; services = services })
        (record {
          raw_hello = a.raw_hello;
          raw_register = raw;
          r_coord = a.r_coord;
          hello = a.hello;
          read_first = a.read_first;
          read_random = a.read_random;
          read_second = refl;
          decoded_hello = a.decoded_hello;
          decoded_register = decoded;
          kind_hello = a.kind_hello;
          kind_register = a.kind_register;
          verified = a.verified;
          proved = record {
            joint = a.proved.joint;
            length-r_node = a.proved.length-r_node;
            length-r_coord = a.proved.length-r_coord;
            opens = a.proved.opens;
            length-public_key = a.proved.length-public_key;
            joins = a.proved.joins;
            signed = a.proved.signed;
          };
        })

  read_register_returns :
      (hello : HelloMsg) (r_coord : Bytes) (second : Option Bytes)
      → read_register c j hello r_coord second ≢ none
  unfolding read_register
  read_register_returns hello r_coord none h = cc
  read_register_returns hello r_coord (some raw) h = elim (Option-cases (j.decode_register raw)) [
    | inl e ↦ ground arith
    | inr (m, e) ↦ ground (arith, verify_registration_returns d m hello.commitment r_coord)
  ]

  -- Whatever a peer sends and whatever fails, the handshake ends without a panic.
  handshake_returns :
      (first random : Option Bytes) (wrote : Bool) (second : Option Bytes)
      → handshake c j first random wrote second ≢ none
  unfolding handshake send_challenge
  handshake_returns none random wrote second h = cc
  handshake_returns (some raw) none wrote second h = ground arith
  handshake_returns (some raw) (some r_coord) false second h = ground arith
  handshake_returns (some raw) (some r_coord) true second h =
      elim (Option-cases (j.decode_hello raw)) [
        | inl e ↦ ground arith
        | inr (m, e) ↦ ground (arith, read_register_returns m r_coord second)
      ]
