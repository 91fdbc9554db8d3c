-- ===== src/Samples/Prefixed.antt =====
-- A codec that brings messages back: each string stands behind its length.
use rtc_bridge.Prelude.{
  Bytes, List, Option, [], ap, drop, length, length-replicate, none, refl, replicate, some, suc,
  take, zero, ℕ, ◌++◌, ◌>>=◌, ◌∷◌, ◌≡◌,
}
use rtc_bridge.Protocol.Messages.{HelloMsg, ChallengeMsg, RegisterMsg}
use rtc_bridge.Wire.{Codec, IsCodec}
use rtc_bridge.Samples.{lettered}

unfoldable pub put : Bytes → Bytes
put s = length s ∷ s

unfoldable pub get : Bytes → Option (Bytes × Bytes)
get [] = none
get (n ∷ r) = some (take n r, drop n r)

take-append : (s r : Bytes) → take (length s) (s ++ r) ≡ s
take-append [] r = refl
take-append (x ∷ s) r = ap (◌∷◌ x) (take-append s r)

drop-append : (s r : Bytes) → drop (length s) (s ++ r) ≡ r
drop-append [] r = refl
drop-append (x ∷ s) r = drop-append s r

pub get-put : (s r : Bytes) → get (put s ++ r) ≡ some (s, r)
unfolding get put
get-put s r = rw (take-append s r, drop-append s r) refl

put_all : List Bytes → Bytes
put_all [] = []
put_all (s ∷ l) = put s ++ put_all l

get_all : ℕ → Bytes → Option (List Bytes)
get_all zero r = some []
get_all (suc n) r = do s ← get r; l ← get_all n s.1; some (s.0 ∷ l)

get_all-put_all : (l : List Bytes) → get_all (length l) (put_all l) ≡ some l
unfolding get_all put_all
get_all-put_all [] = refl
get_all-put_all (s ∷ l) = rw (get-put s (put_all l), get_all-put_all l) refl

pub get_hello : Bytes → Option HelloMsg
get_hello raw = do
  kind ← get raw
  node_id ← get kind.1
  public_key ← get node_id.1
  commitment ← get public_key.1
  some (record {
    kind = kind.0;
    node_id = node_id.0;
    public_key = public_key.0;
    commitment = commitment.0;
  })

pub put_hello : HelloMsg → Bytes
put_hello m = put m.kind ++ (put m.node_id ++ (put m.public_key ++ (put m.commitment ++ [])))

pub get_challenge : Bytes → Option ChallengeMsg
get_challenge raw = do
  kind ← get raw
  r_coord ← get kind.1
  some (record { kind = kind.0; r_coord = r_coord.0 })

pub put_challenge : ChallengeMsg → Bytes
put_challenge m = put m.kind ++ (put m.r_coord ++ [])

pub get_register : Bytes → Option RegisterMsg
get_register raw = do
  kind ← get raw
  node_id ← get kind.1
  public_key ← get node_id.1
  r_node ← get public_key.1
  proof ← get r_node.1
  count ← get proof.1
  services ← get_all (length count.0) count.1
  some (record {
    kind = kind.0;
    node_id = node_id.0;
    public_key = public_key.0;
    r_node = r_node.0;
    proof = proof.0;
    services = services;
  })

pub put_register : RegisterMsg → Bytes
put_register m =
    put m.kind
    ++ (put m.node_id
        ++ (put m.public_key
            ++ (put m.r_node
                ++ (put m.proof ++ (put (replicate (length m.services) 0) ++ put_all m.services)))))

abbrev pub prefixed : Codec
prefixed = record lettered {
  encode_hello = put_hello;
  decode_hello = get_hello;
  encode_challenge = put_challenge;
  decode_challenge = get_challenge;
  encode_register = put_register;
  decode_register = get_register;
}

hello_trip : (m : HelloMsg) → get_hello (put_hello m) ≡ some m
unfolding get_hello put_hello
hello_trip m =
    rw
      (
        get-put m.kind (put m.node_id ++ (put m.public_key ++ (put m.commitment ++ []))),
        get-put m.node_id (put m.public_key ++ (put m.commitment ++ [])),
        get-put m.public_key (put m.commitment ++ []),
        get-put m.commitment [],
      )
      refl

challenge_trip : (m : ChallengeMsg) → get_challenge (put_challenge m) ≡ some m
unfolding get_challenge put_challenge
challenge_trip m = rw (get-put m.kind (put m.r_coord ++ []), get-put m.r_coord []) refl

register_trip : (m : RegisterMsg) → get_register (put_register m) ≡ some m
unfolding get_register put_register
register_trip m =
    let count = put (replicate (length m.services) 0) ++ put_all m.services in
    rw
      (
        get-put m.kind
            (put m.node_id ++ (put m.public_key ++ (put m.r_node ++ (put m.proof ++ count)))),
        get-put m.node_id (put m.public_key ++ (put m.r_node ++ (put m.proof ++ count))),
        get-put m.public_key (put m.r_node ++ (put m.proof ++ count)),
        get-put m.r_node (put m.proof ++ count),
        get-put m.proof count,
        get-put (replicate (length m.services) 0) (put_all m.services),
        length-replicate {A = ℕ} (length m.services) 0,
        get_all-put_all m.services,
      )
      refl

pub prefixed-IsCodec : IsCodec prefixed
prefixed-IsCodec = record {
  hello_trip = λ m kind node_id key commitment. hello_trip m;
  challenge_trip = λ m kind r_coord. challenge_trip m;
  register_trip = λ m kind node_id key r_node proof services. register_trip m;
}
