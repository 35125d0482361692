-- ===== src/Tokens/Wrap.antt =====
-- The additional data of a key wrap and its fields, in wrap-aad.ts.
use openclaw_webchannel.Common.{
  ℕ, ◌<◌, ◌≡◌, ◌≢◌, refl, sym, ap, ◌∙◌, true, List, [], ◌∷◌, ◌++◌, Text, nat_Eq, All, is_token_char,
  arith,
}
use openclaw_webchannel.Tokens.{
  are_token_chars, is_valid_subject_token, is_valid_client_nonce, wrap_aad, wrap_aad_version,
  wrap_aad_separator,
}

abbrev IsPlain : List ℕ → Type 0
IsPlain = All (λ c. c ≢ wrap_aad_separator)

-- Two texts cut at the first separator.
split_first :
    (p q m n : List ℕ)
    → IsPlain p
    → IsPlain q
    → p ++ (wrap_aad_separator ∷ m) ≡ q ++ (wrap_aad_separator ∷ n)
    → (p ≡ q) × (m ≡ n)
split_first [] [] m n hp hq e = (refl, ground (arith, e))
split_first [] (c ∷ q) m n hp hq e = absurd (hq.0 (ground (arith, e)))
split_first (c ∷ p) [] m n hp hq e = absurd (hp.0 (ground (arith, e)))
split_first (c ∷ p) (d ∷ q) m n hp hq e =
    let ih = split_first p q m n hp.1 hq.1 (ground (arith, e)) in ground (arith, ih, e)

cancel : (v x y : List ℕ) → v ++ x ≡ v ++ y → x ≡ y
cancel [] x y e = e
cancel (c ∷ v) x y e = cancel v x y (ground (arith, e))

token-IsPlain : (t : Text) → are_token_chars t ≡ true → IsPlain t
unfolding is_token_char
token-IsPlain [] h = tt
token-IsPlain (c ∷ t) h = (λ e. ground (arith, h, e), token-IsPlain t (ground (arith, h)))

token-Ascii : (t : Text) → are_token_chars t ≡ true → All (λ c. c < 128) t
unfolding is_token_char
token-Ascii [] h = tt
token-Ascii (c ∷ t) h = (ground (arith, h), token-Ascii t (ground (arith, h)))

fields :
    (encode : Text → List ℕ) (peer nonce : Text)
    → encode peer ≡ peer
    → encode nonce ≡ nonce
    → encode peer ++ (wrap_aad_separator ∷ encode nonce) ≡ peer ++ (wrap_aad_separator ∷ nonce)
fields encode peer nonce p n =
    ap (λ t. t ++ (wrap_aad_separator ∷ encode nonce)) p
    ∙ ap (λ t. peer ++ (wrap_aad_separator ∷ t)) n

tail_of : {c : ℕ} {x y : List ℕ} → c ∷ x ≡ c ∷ y → x ≡ y
tail_of e = ground (arith, e)

-- With an encoder that keeps ASCII as it is, the additional data of a valid peer and a valid client
-- nonce determines both: a wrap made for one peer and attempt has the additional data of no other.
pub wrap_aad_injective :
    (encode : Text → List ℕ) (peer peer' nonce nonce' : Text)
    → ((t : Text) → All (λ c. c < 128) t → encode t ≡ t)
    → is_valid_subject_token peer ≡ true
    → is_valid_subject_token peer' ≡ true
    → is_valid_client_nonce nonce ≡ true
    → is_valid_client_nonce nonce' ≡ true
    → wrap_aad encode peer nonce ≡ wrap_aad encode peer' nonce'
    → (peer ≡ peer') × (nonce ≡ nonce')
unfolding wrap_aad is_valid_subject_token is_valid_client_nonce
wrap_aad_injective encode peer peer' nonce nonce' ascii p p' n n' e =
    let tp : are_token_chars peer ≡ true = ground (arith, p) in
    let tp' : are_token_chars peer' ≡ true = ground (arith, p') in
    let tn : are_token_chars nonce ≡ true = ground (arith, n) in
    let tn' : are_token_chars nonce' ≡ true = ground (arith, n') in
    let same : (t : Text) → are_token_chars t ≡ true → encode t ≡ t =
      λ t h. ascii t (token-Ascii t h) in
    let plain : peer ++ (wrap_aad_separator ∷ nonce) ≡ peer' ++ (wrap_aad_separator ∷ nonce') =
      sym (fields encode peer nonce (same peer tp) (same nonce tn))
      ∙ (tail_of (cancel (encode wrap_aad_version) _ _ e)
          ∙ fields encode peer' nonce' (same peer' tp') (same nonce' tn')) in
    split_first peer peer' nonce nonce' (token-IsPlain peer tp) (token-IsPlain peer' tp') plain
