-- ===== src/User/Model/Blocking.antt =====
-- Blocking and unblocking on the entity.
use nestjs_chat.Base.{
  ℕ, suc, ◌≡◌, ◌≤◌, ◌<◌, refl, true, false, not, ◌&&◌, ◌||◌, ◌==◌, List, [], ◌∷◌, ◌++◌, arith,
  length, keep, includes, includes-append, IsNodup, append-IsNodup, if◌then◌else◌,
}
use nestjs_chat.User.Model.{UserEntity, user_blocked, user_unblocked, block_user, unblock_user}

abbrev others : ℕ → List ℕ → List ℕ
others t ids = keep (λ i. not (i == t)) ids

includes-others :
    (i t : ℕ) (ids : List ℕ) → includes i (others t ids) ≡ (includes i ids && not (i == t))
includes-others i t [] = refl
includes-others i t (j ∷ ids) = ground (arith, includes-others i t ids)

-- The list gets shorter exactly if the user stands in it.
length-others :
    (t : ℕ) (ids : List ℕ)
    → (length (others t ids) ≤ length ids)
      × (includes t ids ≡ true → length (others t ids) < length ids)
      × (includes t ids ≡ false → others t ids ≡ ids)
length-others t [] = ground arith
length-others t (j ∷ ids) = ground (arith, length-others t ids)

others-IsNodup : (t : ℕ) (ids : List ℕ) → IsNodup ids → IsNodup (others t ids)
others-IsNodup t [] h = h
others-IsNodup t (j ∷ ids) h = ground (arith, others-IsNodup t ids h.1, includes-others j t ids)

-- For a user who lists nobody twice: after blocking a target, exactly the users of before and the
-- target are blocked, nobody is listed twice, and one event tells of it if the target was not blocked
-- before, and none if so.
pub block_user_lem :
    (now target i : ℕ) (u : UserEntity)
    → IsNodup u.blocked_users
    → let (u', events) = block_user now target u in
      (includes i u'.blocked_users ≡ (includes i u.blocked_users || (i == target)))
      × IsNodup u'.blocked_users
      × (events ≡ (if includes target u.blocked_users then [] else user_blocked u.id target ∷ []))
unfolding block_user
block_user_lem now target i u h = ground (
  arith,
  includes-append i u.blocked_users (target ∷ []),
  append-IsNodup u.blocked_users target h,
)

-- For a user who lists nobody twice: after unblocking a target, exactly the users of before without
-- the target are blocked, nobody is listed twice, and one event tells of it if the target was blocked
-- before, and none if not.
pub unblock_user_lem :
    (now target i : ℕ) (u : UserEntity)
    → IsNodup u.blocked_users
    → let (u', events) = unblock_user now target u in
      (includes i u'.blocked_users ≡ (includes i u.blocked_users && not (i == target)))
      × IsNodup u'.blocked_users
      × (events ≡ (if includes target u.blocked_users then user_unblocked u.id target ∷ [] else []))
unfolding unblock_user
unblock_user_lem now target i u h = ground (
  arith,
  includes-others i target u.blocked_users,
  length-others target u.blocked_users,
  others-IsNodup target u.blocked_users h,
)

length-concat : (ids : List ℕ) (t : ℕ) → length (ids ++ t ∷ []) ≡ suc (length ids)
length-concat [] t = refl
length-concat (j ∷ ids) t = rw (length-concat ids t)

others-append : (t : ℕ) (ids : List ℕ) → includes t ids ≡ false → others t (ids ++ t ∷ []) ≡ ids
others-append t [] h = ground arith
others-append t (j ∷ ids) h = ground (arith, others-append t ids)

-- Unblocking takes back the block of a user who was not blocked: the blocked users are those of before, in the same order, and both
-- changes are told.
pub unblock_user-block_user :
    (now later target : ℕ) (u : UserEntity)
    → includes target u.blocked_users ≡ false
    → let (u', blocked) = block_user now target u in
      let (u'', unblocked) = unblock_user later target u' in
      (u''.blocked_users ≡ u.blocked_users)
      × (blocked ≡ user_blocked u.id target ∷ [])
      × (unblocked ≡ user_unblocked u.id target ∷ [])
unfolding block_user unblock_user
unblock_user-block_user now later target u h =
    ground (arith, others-append target u.blocked_users h, length-concat u.blocked_users target)
