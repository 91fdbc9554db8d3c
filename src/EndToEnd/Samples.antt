-- ===== src/EndToEnd/Samples.antt =====
-- JSON with session descriptions in it: a codec, and a client, that meet what the theorems on an offer
-- and its answer assume.
use rtc_bridge.Prelude.{
  Bytes, Option, [], inl, inr, none, refl, some, some_injective, ◌++◌, ◌>>=◌, ◌∷◌, ◌≡◌,
}
use rtc_bridge.Protocol.Messages.{OfferMsg, AnswerMsg}
use rtc_bridge.Wire.{Codec}
use rtc_bridge.Samples.{lettered}
use rtc_bridge.Samples.Prefixed.{put, get, get-put}
use rtc_bridge.Client.{Web}
use rtc_bridge.EndToEnd.{IsJson}

-- A session description is a text that is not empty.
abbrev pub sdp : Bytes → Option Bytes
sdp [] = none
sdp (x ∷ s) = some (x ∷ s)

pub put_offer : OfferMsg → Bytes
put_offer m = put m.kind ++ (put m.request_id ++ (put m.offer ++ []))

pub get_offer : Bytes → Option OfferMsg
get_offer raw = do
  kind ← get raw
  id ← get kind.1
  offer ← get id.1
  some (record { kind = kind.0; request_id = id.0; offer = offer.0 })

pub put_answer : AnswerMsg → Bytes
put_answer m = put m.kind ++ (put m.request_id ++ (put m.answer ++ []))

pub get_answer : Bytes → Option AnswerMsg
get_answer raw = do
  kind ← get raw
  id ← get kind.1
  answer ← get id.1
  some (record { kind = kind.0; request_id = id.0; answer = answer.0 })

abbrev pub nested : Codec
nested = record lettered {
  decode_envelope = λ raw. get raw >>= λ kind. some (record { kind = kind.0 });
  encode_offer = put_offer;
  decode_offer = get_offer;
  encode_answer = put_answer;
  decode_answer = get_answer;
  decode_offer_request = λ raw. elim (get raw) [
    | none ↦ inr []
    | some id ↦ inl (record { node_id = id.0; offer = id.1 })
  ];
}

-- A client.
abbrev pub web : Web Bytes
web = record {
  get_services = none;
  post_offer = λ body. none;
  decode_services = λ body. none;
  encode_offer = λ service id offer. put id ++ offer;
  decode_answer = sdp;
}

sdp_trip : (v raw : Bytes) → sdp v ≡ some raw → sdp raw ≡ some v
sdp_trip [] raw e = cc
sdp_trip (x ∷ v) raw e = rw (← some_injective e) refl

pub nested-IsJson : IsJson nested web sdp sdp
unfolding get_offer put_offer get_answer put_answer
nested-IsJson = record {
  no_sdp = refl;
  sdp_trip = sdp_trip;
  request_trip =
      λ service id offer v ascii shows. (offer, rw (nested, get-put id offer) refl, shows);
  offer_kind =
      λ m v shows. rw (nested, get-put m.kind (put m.request_id ++ (put m.offer ++ []))) refl;
  offer_trip = λ m v ascii shows. (
    m.offer,
    rw
        (
          get-put m.kind (put m.request_id ++ (put m.offer ++ [])),
          get-put m.request_id (put m.offer ++ []),
          get-put m.offer [],
        )
        refl,
    shows,
  );
  answer_kind =
      λ m v shows. rw (nested, get-put m.kind (put m.request_id ++ (put m.answer ++ []))) refl;
  answer_trip = λ m v ascii shows. (
    m.answer,
    rw
        (
          get-put m.kind (put m.request_id ++ (put m.answer ++ [])),
          get-put m.request_id (put m.answer ++ []),
          get-put m.answer [],
        )
        refl,
    shows,
  );
  body_trip = λ raw v shows. shows;
}
