-- ===== src/Core/MlsCodec.antt =====
-- packages/core/src/mlsCodec.ts. The codecs themselves are of ts-mls: what the source takes from
-- them is a record, and their round trip a record of laws.
pub mod Roundtrip
use cordn.Prelude.{ℕ, not, Option, none, some, List, if◌then◌else◌, ◌==◌, length, string_eq, nat_eq}
use cordn.Result.{Result, Error, ok, err, invalid_welcome, invalid_key_package, ◌>>=◌}

abbrev pub Decoder : Type 0 → Type 0
Decoder T = List ℕ → ℕ → Option (T × ℕ)

-- `encode(encoder, value)` and the decoder of the same type
pub record Codec (T : Type 0) : Type 0 where
  pub encode : T → List ℕ
  pub decoder : Decoder T

-- `protocolVersions`, of which the source names one, and another.
pub data ProtocolVersion : Type 0 where
  mls10 : ProtocolVersion
  other_version : ℕ → ProtocolVersion

-- The messages of ts-mls, tagged by their wire format: a welcome `W`, or a content `B` of another one.
pub data MlsMessage (W B : Type 0) : Type 0 where
  mls_welcome : ProtocolVersion → W → MlsMessage W B
  other_wireformat : ProtocolVersion → B → MlsMessage W B

-- `mlsMessageEncoder` and `mlsMessageDecoder`
abbrev pub Messages : Type 0 → Type 0 → Type 0
Messages W B = Codec (MlsMessage W B)

-- A decoder must succeed and end at the last byte; `error` stands for the label.
unfoldable pub decode_exact : {T : Type 0} → List ℕ → Decoder T → Error → Result T
decode_exact bytes decoder error = elim (decoder bytes 0) [
  | none ↦ err error
  | some (value, end) ↦ if not (end == length bytes) then err error else ok value
]

unfoldable pub encode_key_package : {P : Type 0} → Codec P → P → List ℕ
encode_key_package codec key_package = codec.encode key_package

unfoldable pub decode_key_package : {P : Type 0} → Codec P → List ℕ → Result P
decode_key_package codec bytes = decode_exact bytes codec.decoder invalid_key_package

unfoldable pub encode_welcome : {W B : Type 0} → Messages W B → W → List ℕ
encode_welcome messages welcome = messages.encode (mls_welcome mls10 welcome)

unfoldable pub decode_welcome : {W B : Type 0} → Messages W B → List ℕ → Result W
decode_welcome messages bytes = decode_exact bytes messages.decoder invalid_welcome >>= λ message.
    elim message [
      | mls_welcome version welcome ↦ ok welcome
      | other_wireformat version content ↦ err invalid_welcome
    ]
