-- ===== src/Tests/Frames.antt =====
-- The frames around a password and a session, with a codec of one byte per character.
use imtegrale.Prelude.{ℕ, zero, suc, ◌≡◌, refl, sym, ap, some, List, [], ◌∷◌, length, arith}
use imtegrale.SecretFrames.{
  Platform, encode_imt_password_frame, decode_imt_password_frame, encode_pass_service_session_frame,
  decode_pass_service_session_frame,
}
use imtegrale.SecretFrames.Roundtrip.{IsPlatform, imt_password_roundtrip, session_roundtrip}

abbrev zeros : ℕ → List ℕ
zeros zero = []
zeros (suc n) = 0 ∷ zeros n

length-zeros : (n : ℕ) → length (zeros n) ≡ n
length-zeros zero = refl
length-zeros (suc n) = omega (arith, length-zeros n)

abbrev ascii : Platform
ascii = record { encode = λ t. some t; decode = λ t. some t; urandom = zeros }

same_of_some : (s t : List ℕ) → some s ≡ some t → s ≡ t
same_of_some s t h = ground arith

ascii-IsPlatform : IsPlatform ascii
ascii-IsPlatform = record {
  decodes = λ t bytes h. sym h;
  at_least = λ t bytes h. let n = ap length (same_of_some t bytes h) in omega (arith, n);
  at_most = λ t bytes h. let n = ap length (same_of_some t bytes h) in omega (arith, n);
  random = length-zeros;
}

abbrev secret : List ℕ
secret = 115 ∷ 51 ∷ 99 ∷ []

imt_password_roundtrip_example :
    (frame : List ℕ) × (encode_imt_password_frame ascii secret ≡ some frame)
    × (length frame ≡ 3_072)
    × (decode_imt_password_frame ascii frame ≡ some secret)
imt_password_roundtrip_example =
    imt_password_roundtrip ascii ascii-IsPlatform secret secret refl refl

session_roundtrip_example :
    (frame : List ℕ) × (encode_pass_service_session_frame ascii secret ≡ some frame)
    × (length frame ≡ 65_552)
    × (decode_pass_service_session_frame ascii frame ≡ some secret)
session_roundtrip_example = session_roundtrip ascii ascii-IsPlatform secret secret refl refl
