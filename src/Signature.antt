-- ===== src/Signature.antt =====
-- app/query/validation.go: the signature of a channel over a claim. Hashing, hexadecimal, keys and
-- the verification itself are libraries.
pub mod Reversal
use odysee_api.Base.{
  ℕ, zero, suc, ◌+◌, ◌-◌, ◌*◌, String, Bool, true, false, Option, none, some, List, [], ◌∷◌, ◌++◌,
  length, ltb, if◌then◌else◌, get_or, set, replicate, take, drop,
}
use odysee_api.Errors.{Error, Result, ok, err, err_text, err_of}

-- Bytes are numbers below 256.
pub record Crypto (K : Type 0) : Type 0 where
  pub sha256 : List ℕ → List ℕ
  pub hex_decode : String → Result (List ℕ)
  pub bytes_of : String → List ℕ
  pub public_key : List ℕ → Result K
  -- ecdsa.Verify of a digest and the two numbers of a signature
  pub verify : K → List ℕ → ℕ → ℕ → Bool

-- The channel that signed a claim: its id and, if it is a channel, the bytes of its key.
pub record SigningChannel : Type 0 where
  pub claim_id : String
  pub key_bytes : Option (List ℕ)

-- createDigest
unfoldable pub create_digest : List (List ℕ) → List ℕ
create_digest [] = []
create_digest (p ∷ ps) = p ++ create_digest ps

-- The loop of reverseBytes from two indices into `b`, with at most `rounds` rounds, over the
-- result so far.
unfoldable pub reverse_loop : ℕ → ℕ → ℕ → List ℕ → List ℕ → List ℕ
reverse_loop zero left right b r = r
reverse_loop (suc rounds) left right b r =
    let rest =
      reverse_loop rounds (left + 1) (right - 1) b
        (set (set r left (get_or b right 0)) right (get_or b left 0)) in
    if ltb left right then rest else r

-- reverseBytes; a round moves the indices together, so the length is rounds enough. Of an empty
-- slice the source's right index is -1, and no round is made: here it is 0, and none is made.
unfoldable pub reverse_bytes : List ℕ → List ℕ
unfolding reverse_loop
reverse_bytes b = reverse_loop (length b) 0 (length b - 1) b (replicate (length b) 0)

module _ {K : Type 0} (crypto : Crypto K) where
  -- unhelixifyAndReverse
  unfoldable pub unhelixify_and_reverse : String → List ℕ
  unfolding reverse_bytes
  unhelixify_and_reverse claim_id = elim (crypto.hex_decode claim_id) [
    | ok b ↦ reverse_bytes b
    | err e ↦ []
  ]

  -- copy into an array of 64 bytes
  unfoldable pub signature_bytes : List ℕ → List ℕ
  signature_bytes sig = take 64 (sig ++ replicate 64 0)

  -- big.Int.SetBytes: big-endian
  unfoldable pub number_of : ℕ → List ℕ → ℕ
  number_of n [] = n
  number_of n (b ∷ bs) = number_of (n * 256 + b) bs

  -- isSignatureValid
  unfoldable pub is_signature_valid : List ℕ → K → List ℕ → Bool
  unfolding number_of
  is_signature_valid sig key digest =
      crypto.verify key digest (number_of 0 (take 32 sig)) (number_of 0 (drop 32 sig))

  -- validateSignature; `ok tt` is the nil error.
  unfoldable pub validate_signature : String → String → String → String → K → Result (Unit {0})
  unfolding signature_bytes is_signature_valid create_digest unhelixify_and_reverse
  validate_signature channel_id signature signing_ts data_text key =
      let injest = crypto.sha256 (
        create_digest (
          crypto.bytes_of signing_ts
          ∷ unhelixify_and_reverse channel_id
          ∷ crypto.bytes_of data_text
          ∷ [])) in
      elim (crypto.hex_decode signature) [
        | err e ↦ err (err_of e)
        | ok sig ↦
            if is_signature_valid (signature_bytes sig) key injest
            then ok tt
            else err (err_text "could not validate the signature")
      ]

  -- ValidateSignatureFromClaim of a claim with a signing channel
  unfoldable pub validate_signature_from_claim :
      SigningChannel → String → String → String → Result (Unit {0})
  unfolding validate_signature
  validate_signature_from_claim channel signature signing_ts data_text = elim channel.key_bytes [
    | none ↦ err (err_text "no channel for public key")
    | some bytes ↦ elim (crypto.public_key bytes) [
      | err e ↦ err (err_of e)
      | ok key ↦ validate_signature channel.claim_id signature signing_ts data_text key
    ]
  ]
