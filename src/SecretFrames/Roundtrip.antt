-- ===== src/SecretFrames/Roundtrip.antt =====
-- The frames of secret_frames.py decode to what they were encoded from, and their size does not
-- depend on it.
use imtegrale.Prelude.{
  ℕ, ◌+◌, ◌-◌, ◌*◌, ◌/◌, ◌%◌, ◌≤◌, ◌≡◌, refl, ap, ◌∙◌, true, false, some, List, [], ◌∷◌, ◌++◌,
  length, length-append, take, ltb, arith, ==_refl,
}
use imtegrale.SecretFrames.{
  Platform, Header, pack_h, pack_i, within, encode_imt_password_frame, decode_imt_password_frame,
  open_password, open_session, encode_pass_service_session_frame, decode_pass_service_session_frame,
  imt_password_magic, session_magic,
}

-- What the frames rely on in Python: decoding undoes encoding, a character takes one to four bytes,
-- and `os.urandom` returns as many bytes as it is asked for.
pub record IsPlatform (os : Platform) : Type 0 where
  pub decodes : (t bytes : List ℕ) → os.encode t ≡ some bytes → os.decode bytes ≡ some t
  pub at_least : (t bytes : List ℕ) → os.encode t ≡ some bytes → length t ≤ length bytes
  pub at_most : (t bytes : List ℕ) → os.encode t ≡ some bytes → length bytes ≤ 4 * length t
  pub random : (n : ℕ) → length (os.urandom n) ≡ n

take-length : (xs ys : List ℕ) → take (length xs) (xs ++ ys) ≡ xs
take-length [] ys = refl
take-length (x ∷ xs) ys = ap (λ rest. x ∷ rest) (take-length xs ys)

module _ (os : Platform) (laws : IsPlatform os) (t bytes : List ℕ)
    (e : os.encode t ≡ some bytes) where
  abbrev padding : ℕ → List ℕ
  padding n = os.urandom (n - length bytes)

  size_password : length bytes / 256 * 256 + length bytes % 256 ≡ length bytes
  size_password = omega arith

  size_session :
      length bytes / 16_777_216 * 16_777_216
        + length bytes / 65_536 % 256 * 65_536
        + length bytes / 256 % 256 * 256
        + length bytes % 256
      ≡ length bytes
  size_session = omega arith

  password_header : ℕ → Header
  password_header size = record {
    magic = imt_password_magic;
    version = 1;
    reserved = 0;
    size = size;
    body = bytes ++ os.urandom (3_072 - 12 - length bytes);
  }

  opened_password :
      within 512 (length t) ≡ true
      → within 2_048 (length bytes) ≡ true
      → open_password os (some (password_header (length bytes))) ≡ some t
  unfolding password_header
  opened_password h k =
      let exact = take-length bytes (os.urandom (3_072 - 12 - length bytes)) in
      let same = ==_refl (length bytes) in
      let back = laws.decodes t bytes e in rw (k, exact, same, back, h) refl

  -- A password of 1 to 512 characters that the codec accepts is always framed, the frame has 3,072
  -- bytes whatever the password, and it decodes to the password.
  pub imt_password_roundtrip :
      within 512 (length t) ≡ true
      → (frame : List ℕ) × (encode_imt_password_frame os t ≡ some frame)
        × (length frame ≡ 3_072)
        × (decode_imt_password_frame os frame ≡ some t)
  unfolding encode_imt_password_frame decode_imt_password_frame password_header
  imt_password_roundtrip h =
      let least = laws.at_least t bytes e in
      let most = laws.at_most t bytes e in
      let k : within 2_048 (length bytes) ≡ true = ground arith in
      let fits : ltb 3_072 (12 + length bytes) ≡ false = ground arith in
      let pad = os.urandom (3_072 - 12 - length bytes) in
      let frame = imt_password_magic ++ 1 ∷ 0 ∷ pack_h (length bytes) ++ bytes ++ pad in
      let size : length frame ≡ 3_072 =
        let random = laws.random (3_072 - 12 - length bytes) in
        let bound : length bytes ≤ 2_048 = ground arith in
        omega (arith, random, bound, length-append bytes pad) in
      (
        frame,
        rw (h, e, k, fits) refl,
        size,
        rw size (
            ap (λ n. open_password os (some (password_header n))) size_password
            ∙ opened_password h k),
      )

  session_header : ℕ → Header
  session_header size = record {
    magic = session_magic;
    version = 1;
    reserved = 0;
    size = size;
    body = bytes ++ os.urandom (65_552 - 14 - length bytes);
  }

  opened_session :
      within 65_536 (length bytes) ≡ true
      → open_session os (some (session_header (length bytes))) ≡ some t
  unfolding session_header
  opened_session k =
      let exact = take-length bytes (os.urandom (65_552 - 14 - length bytes)) in
      rw (k, exact) (laws.decodes t bytes e)

  -- A session snapshot of 1 to 65,536 bytes is always framed, the frame has 65,552 bytes whatever
  -- the snapshot, and it decodes to the snapshot.
  pub session_roundtrip :
      within 65_536 (length bytes) ≡ true
      → (frame : List ℕ) × (encode_pass_service_session_frame os t ≡ some frame)
        × (length frame ≡ 65_552)
        × (decode_pass_service_session_frame os frame ≡ some t)
  unfolding encode_pass_service_session_frame decode_pass_service_session_frame session_header
  session_roundtrip k =
      let pad = os.urandom (65_552 - 14 - length bytes) in
      let frame = session_magic ++ 1 ∷ 0 ∷ pack_i (length bytes) ++ bytes ++ pad in
      let size : length frame ≡ 65_552 =
        let random = laws.random (65_552 - 14 - length bytes) in
        let bound : length bytes ≤ 65_536 = ground arith in
        omega (arith, random, bound, length-append bytes pad) in
      (
        frame,
        rw (e, encode_pass_service_session_frame) (rw k refl),
        size,
        rw size
            (ap (λ n. open_session os (some (session_header n))) size_session ∙ opened_session k),
      )
