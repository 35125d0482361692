-- ===== src/Dispatcher/Place.antt =====
-- inbound-queue.ts: a session in its place in the dispatcher's map.
use openclaw_webchannel.Common.{
  ◌≡◌, refl, ◌∙◌, false, none, some, Text, text_Eq, arith, lookup, ◌==◌, if◌then◌else◌,
  lookup-insert, lookup-erase, agree_refl,
}
use openclaw_webchannel.Retention.{Budget}
use openclaw_webchannel.Dispatcher.{Session, Dispatcher, is_idle, put}

module _ {M : Type 0} where
  pub lookup-put :
      (d : Dispatcher M) (key read : Text) (b : Budget) (s : Session M)
      → lookup read (put d key b s).sessions
        ≡ (if key == read then (if is_idle s then none else some s) else lookup read d.sessions)
  unfolding put
  lookup-put d key read b s =
      ground (arith, lookup-insert key read s d.sessions, lookup-erase key read d.sessions)

  pub put_found :
      (d : Dispatcher M) (key : Text) (b : Budget) (s : Session M)
      → lookup key (put d key b s).sessions ≡ (if is_idle s then none else some s)
  put_found d key b s = lookup-put d key key b s ∙ rw (agree_refl key) refl

  pub put_other :
      (d : Dispatcher M) (key read : Text) (b : Budget) (s : Session M)
      → (key == read) ≡ false
      → lookup read (put d key b s).sessions ≡ lookup read d.sessions
  put_other d key read b s other = lookup-put d key read b s ∙ rw other refl
