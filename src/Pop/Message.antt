-- ===== src/Pop/Message.antt =====
-- pop-signed-message.ts: which texts are signed.
use openclaw_webchannel.Common.{◌≡◌, ◌≢◌, refl, subst, [], ◌∷◌, ◌++◌, Text, All, arith}
use openclaw_webchannel.Pop.{PopOp, register, unregister, pop_signed_message}

abbrev pub NoColon : Text → Type 0
NoColon = All (λ c. c ≢ b':')

colon_inside : (q n : Text) → ¬ NoColon (q ++ (b':' ∷ n))
colon_inside [] n h = h.0 refl
colon_inside (c ∷ q) n h = colon_inside q n h.1

-- Two texts with a last colon each: what follows it, and what precedes it.
split_last :
    (p q m n : Text) → NoColon m → NoColon n → p ++ (b':' ∷ m) ≡ q ++ (b':' ∷ n) → (p ≡ q) × (m ≡ n)
split_last [] [] m n hm hn e = (refl, ground arith)
split_last [] (c ∷ q) m n hm hn e = absurd (colon_inside q n (subst NoColon (ground arith) hm))
split_last (c ∷ p) [] m n hm hn e = absurd (colon_inside p m (subst NoColon (ground arith) hn))
split_last (c ∷ p) (d ∷ q) m n hm hn e =
    let ih = split_last p q m n hm hn (ground arith) in ground (arith, ih)

-- The signed text determines the operation, the peer and the nonce: of the nonces it is asked that
-- they hold no colon, as base64url does not; of the peers nothing.
pub pop_signed_message_injective :
    (op op' : PopOp) (peer peer' nonce nonce' : Text)
    → NoColon nonce
    → NoColon nonce'
    → pop_signed_message op peer nonce ≡ pop_signed_message op' peer' nonce'
    → (op ≡ op') × (peer ≡ peer') × (nonce ≡ nonce')
unfolding pop_signed_message
pop_signed_message_injective register register peer peer' nonce nonce' h h' e =
    let same = split_last peer peer' nonce nonce' h h' cc in (refl, same.0, same.1)
pop_signed_message_injective unregister unregister peer peer' nonce nonce' h h' e =
    let same = split_last peer peer' nonce nonce' h h' cc in (refl, same.0, same.1)
pop_signed_message_injective register unregister peer peer' nonce nonce' h h' e =
    absurd (ground arith)
pop_signed_message_injective unregister register peer peer' nonce nonce' h h' e =
    absurd (ground arith)
