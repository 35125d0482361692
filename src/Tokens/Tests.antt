-- ===== src/Tokens/Tests.antt =====
-- The checks on texts, and the theorem at an input that meets its hypotheses.
use openclaw_webchannel.Common.{ℕ, ◌≡◌, refl, false, List, Text, codes, is_token_char}
use openclaw_webchannel.Tokens.{
  assert_valid_subject_token, passed, bad_characters, is_valid_client_nonce, is_valid_subject_token,
  wrap_aad,
}
use openclaw_webchannel.Tokens.Wrap.{wrap_aad_injective}

program : Unit {0}
unfolding is_token_char assert_valid_subject_token is_valid_subject_token is_valid_client_nonce
    wrap_aad
program = tt

abbrev encode : Text → List ℕ
encode t = t

abbrev nonce : Text
nonce = codes "abcdefghijklmnopqrstuv"

token_test :
    (assert_valid_subject_token (codes "peer-1") ≡ passed)
    × (assert_valid_subject_token (codes "a.*") ≡ bad_characters)
    × (is_valid_client_nonce (codes "short") ≡ false)
unfolding program
token_test = (refl, refl, refl)

wrap_aad_injective_example : (codes "peer-1" ≡ codes "peer-1") × (nonce ≡ nonce)
unfolding program
wrap_aad_injective_example =
    wrap_aad_injective encode (codes "peer-1") (codes "peer-1") nonce nonce (λ t h. refl) refl refl
      refl refl refl
