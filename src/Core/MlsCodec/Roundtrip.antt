-- ===== src/Core/MlsCodec/Roundtrip.antt =====
-- What is encoded can be decoded.
use cordn.Prelude.{◌≡◌, refl, some, ==-refl, length, string_eq, nat_eq}
use cordn.Result.{Error, ok}
use cordn.Core.MlsCodec.{
  Codec, Messages, decode_exact, encode_key_package, decode_key_package, encode_welcome,
  decode_welcome, mls_welcome, mls10,
}

-- A decoder reads what the encoder wrote, and no more.
pub record IsLossless {T : Type 0} (codec : Codec T) : Type 0 where
  pub decodes :
      (value : T) → codec.decoder (codec.encode value) 0 ≡ some (value, length (codec.encode value))

decode_exact-encode :
    {T : Type 0} (codec : Codec T) (value : T) (error : Error)
    → IsLossless codec
    → decode_exact (codec.encode value) codec.decoder error ≡ ok value
unfolding decode_exact
decode_exact-encode codec value error l =
    rw (decode_exact, l.decodes value, ==-refl (length (codec.encode value))) refl

pub decode_key_package-encode_key_package :
    {P : Type 0} (codec : Codec P) (key_package : P)
    → IsLossless codec
    → decode_key_package codec (encode_key_package codec key_package) ≡ ok key_package
unfolding decode_key_package encode_key_package
decode_key_package-encode_key_package codec key_package l =
    decode_exact-encode codec key_package _ l

pub decode_welcome-encode_welcome :
    {W B : Type 0} (messages : Messages W B) (welcome : W)
    → IsLossless messages
    → decode_welcome messages (encode_welcome messages welcome) ≡ ok welcome
unfolding decode_welcome encode_welcome
decode_welcome-encode_welcome messages welcome l =
    rw (decode_exact-encode messages (mls_welcome mls10 welcome) _ l) refl
