-- ===== src/SecureBox/Defs.antt =====
-- Seal, Open and ParseKey.
use nginx_atlas.Prelude.{
  List, Option, Text, [], bytes, drop, if◌then◌else◌, leb, length, nat_eq, non_empty, none, not,
  some, strip_prefix, take, trim_space, ℕ, ◌++◌, ◌∷◌,
}

-- cipher.AEAD: seal takes the nonce, the plaintext and the additional data, open_sealed the nonce,
-- the ciphertext and the additional data.
pub record Aead : Type 0 where
  pub nonce_size : ℕ
  pub seal : Text → Text → Text → Text
  pub open_sealed : Text → Text → Text → Option Text

-- An encoding of bytes in a text.
pub record Codec : Type 0 where
  pub encode : Text → Text
  pub decode : Text → Option Text

pub record Box : Type 0 where
  pub aead : Aead
  pub raw_url : Codec

abbrev pub version_prefix : Text
version_prefix = bytes "v1:"

pub data SealError : Type 0 where
  empty_secret no_nonce : SealError

pub data OpenError : Type 0 where
  unsupported_version bad_encoding truncated authentication_failed : OpenError

pub data Sealing {ℓ κ} (E : Type ℓ) (A : Type κ) : Type (ℓ ⊔ κ) where
  done : A → Sealing E A
  refuses : E → Sealing E A

-- The nonce is what the random source answered, if it did.
unfoldable pub seal_secret : Box → Option Text → Text → Text → Sealing SealError Text
seal_secret box nonce purpose plaintext =
    if not (non_empty plaintext) then refuses empty_secret else elim nonce [
      | none ↦ refuses no_nonce
      | some n ↦
          done (version_prefix ++ box.raw_url.encode (n ++ box.aead.seal n plaintext purpose))
    ]

unfoldable pub open_payload : Box → Text → Text → Sealing OpenError Text
open_payload box purpose payload =
    let size = box.aead.nonce_size in
    if leb (length payload) size
    then refuses truncated
    else elim (box.aead.open_sealed (take size payload) (drop size payload) purpose) [
      | none ↦ refuses authentication_failed
      | some plaintext ↦ done plaintext
    ]

unfoldable pub open_secret : Box → Text → Text → Sealing OpenError Text
open_secret box purpose value = elim (strip_prefix version_prefix value) [
  | none ↦ refuses unsupported_version
  | some rest ↦ elim (box.raw_url.decode rest) [
    | none ↦ refuses bad_encoding
    | some payload ↦ open_payload box purpose payload
  ]
]

-- The first decoder that yields 32 bytes.
unfoldable pub first_key : List Codec → Text → Option Text
first_key [] value = none
first_key (codec ∷ rest) value =
    let others = first_key rest value in
    elim (codec.decode value) [
      | none ↦ others
      | some key ↦ if nat_eq (length key) 32 then some key else others
    ]

-- The decoders are base64url, base64 and hexadecimal.
unfoldable pub parse_key : Codec → Codec → Codec → Text → Option Text
parse_key raw_url standard hexadecimal value =
    if non_empty (trim_space value)
    then first_key (raw_url ∷ standard ∷ hexadecimal ∷ []) (trim_space value)
    else none
