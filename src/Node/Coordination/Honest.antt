-- ===== src/Node/Coordination/Honest.antt =====
-- A node that connects, against the handshake of the coordinator.
use rtc_bridge.Prelude.{
  All, Bytes, IsBytes, List, Option-cases, [], arith, bytes_eq, bytes_eq_refl, inl, inr, length,
  none, refl, some, subst, true, ◌∷◌, ◌≡◌,
}
use rtc_bridge.Protocol.Messages.{RegisterMsg, msg_register}
use rtc_bridge.Protocol.Crypto.{Crypto, IsDigest, IsKey}
use rtc_bridge.Protocol.NodeId.{node_id}
use rtc_bridge.Protocol.NodeId.Laws.{IsBase36, node_id_shape}
use rtc_bridge.Protocol.Registration.{xor32, sign_payload, sign_registration, verify_hello}
use rtc_bridge.Protocol.Registration.Proof.{
  verify_registration_iff, verify-sign_registration, sign_registration-panics_iff,
}
use rtc_bridge.Wire.{Codec, IsCodec, IsAscii}
use rtc_bridge.Coordinator.Handshake.{accepted, challenge_msg, handshake}
use rtc_bridge.Coordinator.Handshake.Acceptance.{handshake_iff}
use rtc_bridge.Node.Identity.{Identity, identity_from_priv_key}
use rtc_bridge.Node.Coordination.{
  Link, hello_msg, register_msg, send_register, read_challenge, connect_coordinator,
}

pub IsBase36-IsAscii : (s : Bytes) → IsBase36 s → IsAscii s
IsBase36-IsAscii [] h = tt
IsBase36-IsAscii (x ∷ s) h = (ground (arith, h.0), IsBase36-IsAscii s h.1)

some_bytes : {a b : Bytes} → some a ≡ some b → a ≡ b
some_bytes e = cc

-- A link on which everything works, with these random bytes and this challenge.
abbrev pub working : Bytes → Bytes → Link
working r_node raw = record {
  dialed = true;
  random = some r_node;
  hello_written = true;
  challenge = some raw;
  register_written = true;
}

module _ {c : Crypto} (d : IsDigest c) {priv : Bytes} (k : IsKey c priv)
    (signs : (m : Bytes) → IsBytes (c.sign priv m)) (public : IsBytes (c.public priv)) {j : Codec}
    (t : IsCodec j) (services : List Bytes) (ascii : All IsAscii services)
    (r_node r_coord : Bytes) where
  abbrev id : Identity
  id = identity_from_priv_key c priv

  id_lem :
      (id.priv_key ≡ priv) × (id.pub_key ≡ c.public priv) × (id.node_id ≡ node_id c (c.public priv))
  unfolding identity_from_priv_key
  id_lem = (refl, refl, refl)

  -- The register message with this proof.
  abbrev registered : Bytes → RegisterMsg
  registered proof = record {
    kind = msg_register;
    node_id = id.node_id;
    public_key = id.pub_key;
    r_node = r_node;
    proof = proof;
    services = services;
  }

  proof_lem :
      length r_node ≡ 32
      → length r_coord ≡ 32
      → (proof : Bytes) × (sign_registration c priv r_node r_coord ≡ some proof)
  proof_lem hn hc = elim (Option-cases (sign_registration c priv r_node r_coord)) [
    | inl e ↦
        absurd (omega (arith, (sign_registration-panics_iff c priv r_node r_coord hn).0 e, hc))
    | inr made ↦ made
  ]

  proof-IsBytes :
      (proof : Bytes) → sign_registration c priv r_node r_coord ≡ some proof → IsBytes proof
  unfolding sign_registration
  proof-IsBytes proof e = elim (Option-cases (xor32 r_node r_coord)) [
    | inl x ↦ let is = rw (sign_registration, x) at e in cc
    | inr (joint, x) ↦
        let is = rw (sign_registration, x) at e in
        subst IsBytes (some_bytes is) (signs (sign_payload joint))
  ]

  hello-verifies : verify_hello c (hello_msg c id r_node) ≡ true
  unfolding verify_hello identity_from_priv_key
  hello-verifies = ground (arith, k.length-public, bytes_eq_refl (node_id c (c.public priv)))

  node_id-IsAscii : IsAscii id.node_id
  unfolding identity_from_priv_key
  node_id-IsAscii = IsBase36-IsAscii (node_id c (c.public priv)) (node_id_shape c (c.public priv)).0

  hello_trip :
      j.decode_hello (j.encode_hello (hello_msg c id r_node)) ≡ some (hello_msg c id r_node)
  unfolding identity_from_priv_key
  hello_trip =
      t.hello_trip (hello_msg c id r_node) (omega arith) node_id-IsAscii public
        (d.sum256-IsBytes r_node)

  registers-accepted :
      length r_node ≡ 32
      → length r_coord ≡ 32
      → IsBytes r_node
      → (proof : Bytes) → sign_registration c priv r_node r_coord ≡ some proof
      → handshake c j
          (some (j.encode_hello (hello_msg c id r_node)))
          (some r_coord)
          true
          (some (j.encode_register (registered proof)))
        ≡ some (accepted (registered proof))
  unfolding identity_from_priv_key
  registers-accepted hn hc bytes proof e =
      let reg = registered proof in
      (handshake_iff d j (some (j.encode_hello (hello_msg c id r_node))) (some r_coord)
          (some (j.encode_register reg)) reg).1
        (record {
          raw_hello = j.encode_hello (hello_msg c id r_node);
          raw_register = j.encode_register reg;
          r_coord = r_coord;
          hello = hello_msg c id r_node;
          read_first = refl;
          read_random = refl;
          read_second = refl;
          decoded_hello = hello_trip;
          decoded_register =
              t.register_trip reg (omega arith) node_id-IsAscii public bytes (proof-IsBytes proof e)
                ascii;
          kind_hello = refl;
          kind_register = refl;
          verified = hello-verifies;
          proved =
              (verify_registration_iff d reg (c.sum256 r_node) r_coord).0
                (verify-sign_registration d k reg r_coord hn hc refl e);
        })

  connects :
      IsBytes r_coord
      → (proof : Bytes) → sign_registration c priv r_node r_coord ≡ some proof
      → connect_coordinator c j id services
          (working r_node (j.encode_challenge (challenge_msg r_coord)))
        ≡ some (record {
          sent = j.encode_hello (hello_msg c id r_node) ∷ j.encode_register (registered proof) ∷ [];
          error = none;
        })
  unfolding connect_coordinator read_challenge send_register register_msg identity_from_priv_key
      bytes_eq
  connects bytes proof e = rw (t.challenge_trip (challenge_msg r_coord) (omega arith) bytes, e) refl

  -- With a key pair whose public key and signatures are bytes, JSON that brings ASCII strings and
  -- bytes back, service names in ASCII and random values of 32 bytes: a node that reads the
  -- coordinator's challenge writes two messages and is registered, and the coordinator that reads
  -- these accepts it, with the node id of its public key and its services.
  pub connect_coordinator-accepted :
      length r_node ≡ 32
      → length r_coord ≡ 32
      → IsBytes r_node
      → IsBytes r_coord
      → (hello : Bytes) × (register : Bytes) × (reg : RegisterMsg) × (connect_coordinator c j
            (identity_from_priv_key c priv)
            services
            (working r_node (j.encode_challenge (challenge_msg r_coord)))
          ≡ some (record { sent = hello ∷ register ∷ []; error = none }))
        × (handshake c j (some hello) (some r_coord) true (some register) ≡ some (accepted reg))
        × (reg.node_id ≡ node_id c (c.public priv))
        × (reg.services ≡ services)
  connect_coordinator-accepted hn hc bytes challenge =
      let (proof, e) = proof_lem hn hc in
      (
        j.encode_hello (hello_msg c id r_node),
        j.encode_register (registered proof),
        registered proof,
        connects challenge proof e,
        registers-accepted hn hc bytes proof e,
        id_lem.2,
        refl,
      )
