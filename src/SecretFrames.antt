-- ===== src/SecretFrames.antt =====
-- The padded frames around secrets: backend/app/crypto/secret_frames.py. Bytes and characters are
-- numbers. The codec of the text and the random padding belong to Python, and are parameters.
pub mod Roundtrip
use imtegrale.Prelude.{
  ℕ, ◌+◌, ◌-◌, ◌*◌, ◌/◌, ◌%◌, Bool, true, false, not, ◌&&◌, ◌||◌, Option, none, some, List, [], ◌∷◌,
  ◌++◌, length, take, ltb, leb, ◌==◌, if◌then◌else◌,
}

-- `str.encode("utf-8")`, `bytes.decode("utf-8")` and `os.urandom`; an error is `none`.
pub record Platform : Type 0 where
  pub encode : List ℕ → Option (List ℕ)
  pub decode : List ℕ → Option (List ℕ)
  pub urandom : ℕ → List ℕ

abbrev pub imt_password_max_characters : ℕ
imt_password_max_characters = 512

abbrev pub imt_password_max_bytes : ℕ
imt_password_max_bytes = 2_048

abbrev pub imt_password_frame_size : ℕ
imt_password_frame_size = 3_072

abbrev pub session_max_bytes : ℕ
session_max_bytes = 65_536

abbrev pub session_frame_size : ℕ
session_frame_size = 65_552

-- `1 <= n <= most`.
abbrev pub within : ℕ → ℕ → Bool
within most n = leb 1 n && leb n most

abbrev pub bytes_eq : List ℕ → List ℕ → Bool
bytes_eq [] [] = true
bytes_eq (x ∷ xs) (y ∷ ys) = x == y && bytes_eq xs ys
bytes_eq _ _ = false

-- The magic "IMTPWD", then "IMTSESS", with the zero bytes that fill eight.
abbrev pub imt_password_magic : List ℕ
imt_password_magic = 73 ∷ 77 ∷ 84 ∷ 80 ∷ 87 ∷ 68 ∷ 0 ∷ 0 ∷ []

abbrev pub session_magic : List ℕ
session_magic = 73 ∷ 77 ∷ 84 ∷ 83 ∷ 69 ∷ 83 ∷ 83 ∷ 0 ∷ []

-- `struct` formats H and I in network order.
abbrev pub pack_h : ℕ → List ℕ
pack_h n = n / 256 ∷ n % 256 ∷ []

abbrev pub pack_i : ℕ → List ℕ
pack_i n = n / 16_777_216 ∷ n / 65_536 % 256 ∷ n / 256 % 256 ∷ n % 256 ∷ []

-- `unpack_from`: the magic, the version, the reserved byte, the length and the bytes after them.
pub record Header : Type 0 where
  pub magic : List ℕ
  pub version : ℕ
  pub reserved : ℕ
  pub size : ℕ
  pub body : List ℕ

abbrev pub unpack_password : List ℕ → Option Header
unpack_password (a ∷ b ∷ c ∷ d ∷ e ∷ f ∷ g ∷ h ∷ v ∷ r ∷ m ∷ n ∷ body) = some (record {
  magic = a ∷ b ∷ c ∷ d ∷ e ∷ f ∷ g ∷ h ∷ [];
  version = v;
  reserved = r;
  size = m * 256 + n;
  body = body;
})
unpack_password _ = none

abbrev pub unpack_session : List ℕ → Option Header
unpack_session (a ∷ b ∷ c ∷ d ∷ e ∷ f ∷ g ∷ h ∷ v ∷ r ∷ k ∷ l ∷ m ∷ n ∷ body) = some (record {
  magic = a ∷ b ∷ c ∷ d ∷ e ∷ f ∷ g ∷ h ∷ [];
  version = v;
  reserved = r;
  size = k * 16_777_216 + l * 65_536 + m * 256 + n;
  body = body;
})
unpack_session _ = none

-- `encode_imt_password_frame`; `none` is SecretFrameError.
unfoldable pub encode_imt_password_frame : Platform → List ℕ → Option (List ℕ)
encode_imt_password_frame os secret =
    if not (within imt_password_max_characters (length secret))
    then none
    else elim (os.encode secret) [
      | none ↦ none
      | some encoded ↦
          if not (within imt_password_max_bytes (length encoded))
          then none
          else if ltb imt_password_frame_size (12 + length encoded)
          then none
          else some (
              imt_password_magic
              ++ 1 ∷ 0 ∷ pack_h (length encoded)
              ++ encoded
              ++ os.urandom (imt_password_frame_size - 12 - length encoded))
    ]

abbrev pub checked_length : Option (List ℕ) → Option (List ℕ)
checked_length none = none
checked_length (some secret) =
    if within imt_password_max_characters (length secret) then some secret else none

abbrev pub open_password : Platform → Option Header → Option (List ℕ)
open_password os none = none
open_password os (some h) =
    if not (bytes_eq h.magic imt_password_magic)
      || not (h.version == 1)
      || not (h.reserved == 0)
      || not (within imt_password_max_bytes h.size)
    then none
    else if not (length (take h.size h.body) == h.size)
    then none
    else checked_length (os.decode (take h.size h.body))

-- `decode_imt_password_frame`.
unfoldable pub decode_imt_password_frame : Platform → List ℕ → Option (List ℕ)
decode_imt_password_frame os frame =
    if not (length frame == imt_password_frame_size)
    then none
    else open_password os (unpack_password frame)

-- `encode_pass_service_session_frame`.
unfoldable pub encode_pass_service_session_frame : Platform → List ℕ → Option (List ℕ)
encode_pass_service_session_frame os snapshot = elim (os.encode snapshot) [
  | none ↦ none
  | some encoded ↦
      if not (within session_max_bytes (length encoded))
      then none
      else some (
          session_magic
          ++ 1 ∷ 0 ∷ pack_i (length encoded)
          ++ encoded
          ++ os.urandom (session_frame_size - 14 - length encoded))
]

abbrev pub open_session : Platform → Option Header → Option (List ℕ)
open_session os none = none
open_session os (some h) =
    if not (bytes_eq h.magic session_magic)
      || not (h.version == 1)
      || not (h.reserved == 0)
      || not (within session_max_bytes h.size)
    then none
    else os.decode (take h.size h.body)

-- `decode_pass_service_session_frame`.
unfoldable pub decode_pass_service_session_frame : Platform → List ℕ → Option (List ℕ)
decode_pass_service_session_frame os frame =
    if not (length frame == session_frame_size)
    then none
    else open_session os (unpack_session frame)
