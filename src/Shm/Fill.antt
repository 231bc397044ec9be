-- ===== src/Shm/Fill.antt =====
-- The two loops of `update_shm` in src/daemon/main.cpp, over the users and over the chat messages.
use sigaw.Prelude.{
  ℕ, zero, suc, ◌+◌, ◌≤◌, ◌<◌, ◌≡◌, refl, sym, ◌∙◌, ap, List, [], ◌∷◌, ◌++◌, map, arith, length,
  take, set, length-set, subst,
}
use native.Mathlib.Nat.{add-zero}
use mathlib.Core.List.{append_assoc, append-nil}
use sigaw.Protocol.{SigawState, sigaw_max_users, sigaw_max_chat_messages}
use sigaw.Voice.State.{VoiceUser, VoiceChatMessage}
use sigaw.Shm.Writer.{
  encode_user, set_user, encode_message, set_chat_message, set_users, set_chat_messages,
}

module _ {ℓ} {A : Type ℓ} where
  take-set :
      (i : ℕ) (xs : List A) (v : A)
      → i < length xs
      → take (suc i) (set xs i v) ≡ take i xs ++ v ∷ []
  take-set i [] v h = absurd (omega arith)
  take-set zero (x ∷ xs) v h = refl
  take-set (suc i) (x ∷ xs) v h = ap (◌∷◌ x) (take-set i xs v (omega arith))

-- Entries written one after another from the index `i` on, `n` of them.
module _ {A B : Type 0} (encode : A → B) where
  pub fill : ℕ → ℕ → List A → List B → List B
  fill i zero bs xs = xs
  fill i (suc n) [] xs = xs
  fill i (suc n) (a ∷ bs) xs = fill (suc i) n bs (set xs i (encode a))

  pub length-fill : (n i : ℕ) (bs : List A) (xs : List B) → length (fill i n bs xs) ≡ length xs
  unfolding fill
  length-fill zero i bs xs = refl
  length-fill (suc n) i [] xs = refl
  length-fill (suc n) i (a ∷ bs) xs =
      length-fill n (suc i) bs (set xs i (encode a)) ∙ length-set xs i (encode a)

  -- The entries in front of the place written to are kept, and the new ones follow them.
  pub take-fill :
      (n i : ℕ) (bs : List A) (xs : List B)
      → i + n ≤ length xs
      → n ≤ length bs
      → take (i + n) (fill i n bs xs) ≡ take i xs ++ map encode (take n bs)
  unfolding fill
  take-fill zero i bs xs fits many = rw (add-zero i) (sym (append-nil (take i xs)))
  take-fill (suc n) i [] xs fits many = absurd (omega arith)
  take-fill (suc n) i (a ∷ bs) xs fits many =
      let step : i + suc n ≡ suc i + n = omega arith in
      let inside : suc i + n ≤ length (set xs i (encode a)) =
        omega (arith, length-set xs i (encode a)) in
      rw step (
        take-fill n (suc i) bs (set xs i (encode a)) inside (omega arith)
        ∙ rw (take-set i xs (encode a) (omega arith)) (append_assoc (take i xs) _ _))

  pub take-fill_front :
      (n : ℕ) (bs : List A) (xs : List B)
      → n ≤ length xs
      → n ≤ length bs
      → take n (fill 0 n bs xs) ≡ map encode (take n bs)
  take-fill_front n bs xs fits many =
      let e : 0 + n ≡ n = omega arith in
      subst (λ m. take m (fill 0 n bs xs) ≡ map encode (take n bs)) e
        (take-fill n 0 bs xs (omega arith) many)

pub set_users-fill :
    (n i : ℕ) (us : List VoiceUser) (s : SigawState)
    → i + n ≤ sigaw_max_users
    → set_users i n us s ≡ record s { users = fill encode_user i n us s.users }
unfolding set_users set_user fill
set_users-fill zero i us s h = refl
set_users-fill (suc n) i [] s h = refl
set_users-fill (suc n) i (u ∷ us) s h =
    set_users-fill n (suc i) us (set_user i u s) (omega arith) ∙ ground arith

pub set_chat_messages-fill :
    (n i : ℕ) (ms : List VoiceChatMessage) (s : SigawState)
    → i + n ≤ sigaw_max_chat_messages
    → set_chat_messages i n ms s
      ≡ record s { chat_messages = fill encode_message i n ms s.chat_messages }
unfolding set_chat_messages set_chat_message fill
set_chat_messages-fill zero i ms s h = refl
set_chat_messages-fill (suc n) i [] s h = refl
set_chat_messages-fill (suc n) i (m ∷ ms) s h =
    set_chat_messages-fill n (suc i) ms (set_chat_message i m s) (omega arith) ∙ ground arith
