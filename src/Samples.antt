-- ===== src/Samples.antt =====
-- Concrete values for the tests: stand-ins for the cryptography and the JSON of the standard library
-- that meet what the theorems assume of them, and messages.
pub mod Prefixed
use rtc_bridge.Prelude.{
  All-append, All-take, Bytes, IsBytes, [], arith, bytes_eq, bytes_eq_refl, codes, drop,
  if◌then◌else◌, inl, length, length-append, length-take, map, none, refl, replicate, some, take,
  ◌%◌, ◌++◌, ◌<◌, ◌==◌, ◌∷◌, ◌≡◌,
}
use rtc_bridge.Protocol.Crypto.{Crypto, IsDigest, IsKey}
use rtc_bridge.Protocol.Messages.{
  RegisterMsg, AnswerMsg, msg_hello, msg_register, msg_answer, msg_close,
}
use rtc_bridge.Wire.{Codec}

-- The first 32 bytes, filled up with zeros.
abbrev pub first_32 : Bytes → Bytes
first_32 b = take 32 (map (λ x. x % 256) b ++ replicate 32 0)

-- A digest that keeps the first bytes, and signatures that anyone can make.
abbrev pub toy : Crypto
toy = record {
  sum256 = first_32;
  public = drop 32;
  sign = λ priv m. drop 32 priv ++ map (λ x. x % 256) m;
  verify = λ key m s. bytes_eq s (key ++ map (λ x. x % 256) m);
}

length-first_32 : (b : Bytes) → length (first_32 b) ≡ 32
length-first_32 b = omega (
  arith,
  length-take 32 (map (λ x. x % 256) b ++ replicate 32 0),
  length-append (map (λ x. x % 256) b) (replicate 32 0),
)

map-IsBytes : (b : Bytes) → IsBytes (map (λ x. x % 256) b)
map-IsBytes [] = tt
map-IsBytes (x ∷ b) = (omega arith, map-IsBytes b)

zeros-IsBytes : IsBytes (replicate 32 0)
zeros-IsBytes = omega arith

first_32-IsBytes : (b : Bytes) → IsBytes (first_32 b)
first_32-IsBytes b =
    All-take (λ x. x < 256) 32 (map (λ x. x % 256) b ++ replicate 32 0)
      (All-append (λ x. x < 256) (map (λ x. x % 256) b) (replicate 32 0) (map-IsBytes b)
        zeros-IsBytes)

pub toy-IsDigest : IsDigest toy
toy-IsDigest = record { length-sum256 = length-first_32; sum256-IsBytes = first_32-IsBytes }

abbrev pub priv : Bytes
priv = replicate 64 7

pub priv-IsKey : IsKey toy priv
priv-IsKey = record {
  length-public = refl;
  verify-sign = λ m. bytes_eq_refl (replicate 32 7 ++ map (λ x. x % 256) m);
}

pub sign-IsBytes : (m : Bytes) → IsBytes (toy.sign priv m)
sign-IsBytes m =
    All-append (λ x. x < 256) (replicate 32 7) (map (λ x. x % 256) m) (omega arith) (map-IsBytes m)

abbrev pub r_node : Bytes
r_node = replicate 32 3

abbrev pub r_coord : Bytes
r_coord = replicate 32 5

-- 3 xor 5, 32 times.
abbrev pub joint : Bytes
joint = replicate 32 6

abbrev pub reg : RegisterMsg
reg = record {
  kind = msg_register;
  node_id = codes "n1";
  public_key = replicate 32 7;
  r_node = r_node;
  proof = replicate 32 7 ++ codes "rtc-bridge:register:" ++ joint;
  services = codes "echo" ∷ [];
}

abbrev pub ans : AnswerMsg
ans = record { kind = msg_answer; request_id = codes "r1"; answer = codes "sdp" }

-- A codec that knows a few texts by their first letter.
abbrev pub lettered : Codec
lettered = record {
  decode_envelope = λ raw. elim raw [
    | [] ↦ none
    | x ∷ s ↦
        if x == b'A'
        then some (record { kind = msg_answer })
        else if x == b'C'
        then some (record { kind = msg_close })
        else none
  ];
  encode_hello = λ m. codes "H";
  decode_hello = λ raw. some (record {
    kind = msg_hello;
    node_id = raw;
    public_key = replicate 32 7;
    commitment = first_32 r_node;
  });
  encode_challenge = λ m. codes "Q";
  decode_challenge = λ raw. none;
  encode_register = λ m. codes "R";
  decode_register = λ raw. some (record reg { node_id = raw });
  encode_offer = λ m. m.offer;
  decode_offer = λ raw. none;
  encode_answer = λ m. m.answer;
  decode_answer = λ raw. some ans;
  encode_close = λ m. codes "C";
  decode_offer_request = λ raw. inl (record { node_id = codes "n1"; offer = codes "offer" });
  encode_raw = λ raw. raw;
  encode_names = λ names. [];
  encode_nodes = λ nodes. [];
  encode_services = λ services. [];
}
