-- ===== src/Tokens.antt =====
-- The text checks of packages/plugin/src/subject-token.ts (which packages/saas/src/
-- subject-token.ts repeats) and client-nonce.ts, and the additional data of wrap-aad.ts beside them. A regular expression is a test of its class of characters and its bounds; `encode` is the
-- platform's `TextEncoder`.
pub mod Wrap
mod Tests
use openclaw_webchannel.Common.{
  ℕ, Bool, true, false, not, ◌&&◌, ◌||◌, List, [], ◌∷◌, ◌++◌, Text, codes, text_Eq, nat_Eq, ltb,
  leb, ◌==◌, if◌then◌else◌, length, is_token_char,
}

abbrev pub are_token_chars : Text → Bool
are_token_chars [] = true
are_token_chars (c ∷ cs) = is_token_char c && are_token_chars cs

-- `/^[A-Za-z0-9_-]{least,most}$/`.
abbrev pub is_token : ℕ → ℕ → Text → Bool
is_token least most t = leb least (length t) && leb (length t) most && are_token_chars t

unfoldable pub is_valid_subject_token : Text → Bool
is_valid_subject_token t = is_token 1 128 t

pub data Asserted : Type 0 where
  passed empty_token bad_characters : Asserted

pub assert_valid_subject_token : Text → Asserted
unfolding is_valid_subject_token
assert_valid_subject_token t =
    if length t == 0
    then empty_token
    else if not (is_valid_subject_token t)
    then bad_characters
    else passed

abbrev pub client_nonce_min_length : ℕ
client_nonce_min_length = 22

abbrev pub client_nonce_max_length : ℕ
client_nonce_max_length = 128

pub is_valid_client_nonce : Text → Bool
is_valid_client_nonce t = is_token client_nonce_min_length client_nonce_max_length t

abbrev pub wrap_aad_version : Text
wrap_aad_version = codes "webchannel-wrap-v2"

abbrev pub wrap_aad_separator : ℕ
wrap_aad_separator = 0x1f

module _ (encode : Text → List ℕ) where
  pub wrap_aad : Text → Text → List ℕ
  wrap_aad peer nonce =
      encode wrap_aad_version
      ++ (wrap_aad_separator ∷ (encode peer ++ (wrap_aad_separator ∷ encode nonce)))
