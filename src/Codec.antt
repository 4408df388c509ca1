-- ===== src/Codec.antt =====
-- Protobuf encoding of payloads. prost is not part of the repository, so an encoder with its decoder
-- is an argument; that a message survives the round trip is a hypothesis where a theorem needs it.
use otelview_postgres.Common.{◌≡◌, Result, ok, Bytes}

-- `Message::encode_to_vec` and `Message::decode` of one type of message
pub record Codec (M : Type 0) : Type 0 where
  pub encode : M → Bytes
  pub decode : Bytes → Result M

-- The message comes back from its encoding.
abbrev pub Survives : {M : Type 0} → Codec M → M → Type 0
Survives codec m = codec.decode (codec.encode m) ≡ ok m
